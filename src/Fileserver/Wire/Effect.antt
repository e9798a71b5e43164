-- ===== src/Fileserver/Wire/Effect.antt =====
-- What the parts of a handler do to the requests, the tags and the connection.
use qptools.Prelude.{
  ℕ, ◌≡◌, refl, ◌∙◌, inl, inr, Bool, true, false, none, some, List, [], ◌∷◌, ◌++◌, arith,
  if◌then◌else◌, get_elem?, Bool-cases, Option-cases,
}
use qptools.Prelude.Maps.{Map, delete, nat_key}
use qptools.Act.{
  Act, Error, Outcome, ok, err, panicked, blocked, value, failure, pure, panic, gets, attempt,
  continue, settle, ◌>>=◌,
}
use qptools.Qp.{Response, Reply}
use qptools.Fileserver.State.{
  Request, Sent, Session, Server, Host, could_not_send_err, handler_panic,
}
use qptools.Fileserver.Wire.{
  encoded, msg_too_big, failed, is_cancelled, on_session, unlock_error, record_error, die,
  after_panic, handle_panic, serialize, transmit, too_big, respond, send_error, answer,
}

-- The part of a Server that answers are made from.
pub record Wire : Type 0 where
  pub sent : List Sent
  pub tags : Map ℕ Request
  pub cancelled : List Bool

abbrev pub wire : {W : Type 0} → Server W → Wire
wire s = record { sent = s.sent; tags = s.tags; cancelled = s.cancelled }

abbrev pub dropped : Request → Wire → Bool
dropped rs w = elim (get_elem? w.cancelled rs.id) [ none ↦ false | some b ↦ b ]

-- What an answer to `rs` may do: nothing; or, if `rs` was not cancelled, forget its tag and write one
-- message for it, or forget its tag as the write fails.
pub data Answered (rs : Request) (w w' : Wire) : Type 0 where
  silent : w' ≡ w → Answered rs w w'
  wrote :
      (m : Response)
      → dropped rs w ≡ false
      → w' ≡ record w {
        sent = w.sent ++ (record { request = rs.id; response = m }) ∷ [];
        tags = delete rs.tag w.tags;
      }
      → Answered rs w w'
  lost : dropped rs w ≡ false → w' ≡ record w { tags = delete rs.tag w.tags } → Answered rs w w'

module _ {W A : Type 0} where
  -- `m` leaves the requests, the tags and the connection alone.
  pub record Quiet (m : Act (Server W) A) : Type 0 where
    pub at : (s : Server W) → wire (m s).1 ≡ wire s

  -- `m` answers `rs`, once at most.
  pub record Answers (rs : Request) (m : Act (Server W) A) : Type 0 where
    pub at : (s : Server W) → Answered rs (wire s) (wire (m s).1)

pub Answered-quiet :
    {rs : Request} {w w' w'' : Wire} → w' ≡ w → Answered rs w' w'' → Answered rs w w''
Answered-quiet e (silent f) = silent (f ∙ e)
Answered-quiet e (wrote m d f) = wrote m (ground arith) (ground arith)
Answered-quiet e (lost d f) = lost (ground arith) (ground arith)

pub quiet-Answered :
    {rs : Request} {w w' w'' : Wire} → Answered rs w w' → w'' ≡ w' → Answered rs w w''
quiet-Answered (silent f) e = silent (e ∙ f)
quiet-Answered (wrote m d f) e = wrote m d (e ∙ f)
quiet-Answered (lost d f) e = lost d (e ∙ f)

module _ {W A B : Type 0} where
  pub Quiet-continue :
      (r : Outcome A) (f : A → Act (Server W) B) (s : Server W) (w : Wire)
      → wire s ≡ w
      → ((a : A) → Quiet (f a))
      → wire (continue r f s).1 ≡ w
  Quiet-continue (ok a) f s w e kf = (kf a).at s ∙ e
  Quiet-continue (err x) f s w e kf = e
  Quiet-continue panicked f s w e kf = e
  Quiet-continue blocked f s w e kf = e

  pub Quiet-bind :
      (m : Act (Server W) A) (f : A → Act (Server W) B)
      → Quiet m
      → ((a : A) → Quiet (f a))
      → Quiet (m >>= f)
  unfolding ◌>>=◌
  Quiet-bind m f q kf = record { at = λ s. Quiet-continue (m s).0 f (m s).1 (wire s) (q.at s) kf }

  pub Answers-continue :
      {rs : Request} (r : Outcome A) (f : A → Act (Server W) B) (s : Server W) (w : Wire)
      → wire s ≡ w
      → ((a : A) → Answers rs (f a))
      → Answered rs w (wire (continue r f s).1)
  Answers-continue (ok a) f s w e kf = Answered-quiet e ((kf a).at s)
  Answers-continue (err x) f s w e kf = silent e
  Answers-continue panicked f s w e kf = silent e
  Answers-continue blocked f s w e kf = silent e

  pub Quiet-bind-Answers :
      {rs : Request} (m : Act (Server W) A) (f : A → Act (Server W) B)
      → Quiet m
      → ((a : A) → Answers rs (f a))
      → Answers rs (m >>= f)
  unfolding ◌>>=◌
  Quiet-bind-Answers m f q kf = record {
    at = λ s. Answers-continue (m s).0 f (m s).1 (wire s) (q.at s) kf;
  }

module _ {W A : Type 0} where
  pub Quiet-pure : (a : A) → Quiet {W = W} (pure a)
  unfolding pure
  Quiet-pure a = record { at = λ s. refl }

  pub Quiet-panic : Quiet {W = W} {A = A} panic
  unfolding panic
  Quiet-panic = record { at = λ s. refl }

  pub Quiet-gets : (f : Server W → A) → Quiet (gets f)
  unfolding gets
  Quiet-gets f = record { at = λ s. refl }

  pub Quiet-on_session : (m : Act (Session W) A) → Quiet (on_session m)
  unfolding on_session
  Quiet-on_session m = record { at = λ s. refl }

  pub Quiet-attempt : (m : Act (Server W) A) → Quiet m → Quiet (attempt m)
  unfolding attempt
  Quiet-attempt m q = record { at = λ s. settled (m s).0 (m s).1 ∙ q.at s }
    where
      settled : (r : Outcome A) (s : Server W) → wire (settle r s).1 ≡ wire s
      settled (ok a) s = refl
      settled (err e) s = refl
      settled panicked s = refl
      settled blocked s = refl

pub Answers-if :
    {W A : Type 0} {rs : Request} (b : Bool) (m n : Act (Server W) A)
    → Answers rs m
    → Answers rs n
    → Answers rs (if b then m else n)
Answers-if true m n am an = am
Answers-if false m n am an = an

module _ {W : Type 0} (host : Host W) where
  wire-unlock_error : (r : Outcome (Unit {0})) (s : Server W) → wire (unlock_error r s).1 ≡ wire s
  unfolding unlock_error
  wire-unlock_error blocked s = refl
  wire-unlock_error _ s = refl

  wire-record_error : (e : Error) (s : Server W) → wire (record_error host e s).1 ≡ wire s
  unfolding record_error on_session
  wire-record_error e s = refl

  pub Quiet-die : (e : Error) → Quiet (die host e)
  unfolding die
  Quiet-die e = record {
    at = λ s. elim (Bool-cases s.error_lock) [
      | inl held ↦ rw (held, die) refl
      | inr free ↦
          let t = record s { error_lock = true } in
          let (r, u) = record_error host e t in
          rw (free, die) (wire-unlock_error r u ∙ wire-record_error e t)
    ];
  }

  Quiet-serialize : (m : Response) → Quiet (serialize host m)
  unfolding serialize
  Quiet-serialize m = record { at = λ s. ground arith }

  Quiet-too_big : (rs : Request) → Quiet (too_big host rs)
  unfolding too_big
  Quiet-too_big rs = Quiet-bind _ _ (Quiet-serialize _) (elim [
    | encoded ↦ Quiet-pure tt
    | msg_too_big ↦ Quiet-die could_not_send_err
    | failed e ↦ Quiet-die could_not_send_err
  ])

  pub Quiet-Answers : {A : Type 0} {rs : Request} (m : Act (Server W) A) → Quiet m → Answers rs m
  Quiet-Answers m q = record { at = λ s. silent (q.at s) }

  transmit-Answers : (rs : Request) (m : Response) → Answers rs (transmit host rs m)
  unfolding transmit
  transmit-Answers rs m = record {
    at = λ s. elim (Bool-cases (is_cancelled rs s)) [
      | inl gone ↦ rw (gone, transmit) (silent refl)
      | inr live ↦ elim (Option-cases (host.write s.sent m)) [
        | inl fine ↦ rw (live, fine, transmit) (wrote m live refl)
        | inr (e, fails) ↦
            rw (live, fails, transmit)
              (lost live ((Quiet-die e).at (record s { tags = delete rs.tag s.tags })))
      ]
    ];
  }

  -- Every answer, error responses included.
  pub respond-Answers : (rs : Request) (reply : Reply) → Answers rs (respond host rs reply)
  unfolding respond
  respond-Answers rs reply = Quiet-bind-Answers _ _ (Quiet-serialize _) (elim [
    | encoded ↦ transmit-Answers rs _
    | msg_too_big ↦ Quiet-Answers _ (Quiet-too_big rs)
    | failed e ↦ Quiet-Answers _ (Quiet-die e)
  ])

  pub send_error-Answers : (rs : Request) (e : Error) → Answers rs (send_error host rs e)
  unfolding send_error
  send_error-Answers rs e = respond-Answers rs _

  pub answer-Answers :
      (rs : Request) (body : Act (Session W) Reply) → Answers rs (answer host rs body)
  unfolding answer
  answer-Answers rs body =
      Quiet-bind-Answers _ _ (Quiet-attempt _ (Quiet-on_session body))
        (elim [ value reply ↦ respond-Answers rs reply | failure e ↦ send_error-Answers rs e ])

  wire-after_panic :
      (r : Outcome (Unit {0})) (s : Server W) → wire (after_panic host r s).1 ≡ wire s
  unfolding after_panic
  wire-after_panic (ok a) s = refl
  wire-after_panic (err e) s = refl
  wire-after_panic panicked s = (Quiet-die handler_panic).at s
  wire-after_panic blocked s = refl

  -- The end that a panic brings touches no request.
  pub wire-handle_panic :
      (m : Act (Server W) (Unit {0})) (s : Server W) → wire (handle_panic host m s).1 ≡ wire (m s).1
  unfolding handle_panic
  wire-handle_panic m s = wire-after_panic (m s).0 (m s).1

  pub handle_panic-Answers :
      {rs : Request} (m : Act (Server W) (Unit {0}))
      → Answers rs m
      → Answers rs (handle_panic host m)
  handle_panic-Answers m a = record { at = λ s. quiet-Answered (a.at s) (wire-handle_panic m s) }
