-- ===== src/Fileserver/Wire/Fault.antt =====
-- The error that ends a connection, and how often the server has met one: only die sets them.
use qptools.Prelude.{
  ℕ, ◌≡◌, ◌≢◌, refl, sym, ap, ◌∙◌, inl, inr, Bool-cases, Option-cases, Bool, true, false, Option,
  none, some, arith, if◌then◌else◌,
}
use qptools.Prelude.Maps.{delete, nat_key}
use qptools.Act.{
  Act, Error, Outcome, ok, err, panicked, blocked, value, failure, pure, gets, attempt, continue,
  settle, ◌>>=◌,
}
use qptools.Qp.{Response, Reply}
use qptools.Fileserver.State.{Request, Session, Server, Host, could_not_send_err}
use qptools.Fileserver.Wire.{
  encoded, msg_too_big, failed, is_cancelled, on_session, unlock_error, record_error, die,
  after_panic, handle_panic, serialize, transmit, too_big, respond, send_error, answer,
}

pub record Fault : Type 0 where
  pub error : Option Error
  pub error_cnt : ℕ

abbrev pub fault : {W : Type 0} → Server W → Fault
fault s = record { error = s.error; error_cnt = s.error_cnt }

-- The first error stays; and while there is none, nothing was counted.
pub record Lasts (x y : Fault) : Type 0 where
  pub first : (e : Error) → x.error ≡ some e → y.error ≡ some e
  pub none_met : y.error ≡ none → y ≡ x

pub Lasts-refl : (x : Fault) → Lasts x x
Lasts-refl x = record { first = λ e h. h; none_met = λ h. refl }

pub Lasts-trans : {x y z : Fault} → Lasts x y → Lasts y z → Lasts x z
Lasts-trans p q = record {
  first = λ e h. q.first e (p.first e h);
  none_met = λ h. let same = q.none_met h in same ∙ p.none_met (ap (λ f. f.error) (sym same) ∙ h);
}

module _ {W A : Type 0} where
  pub record Lasting (m : Act (Server W) A) : Type 0 where
    pub at : (s : Server W) → Lasts (fault s) (fault (m s).1)

module _ {W A : Type 0} where
  -- An action that meets no error.
  pub Lasting-same : (m : Act (Server W) A) → ((s : Server W) → fault (m s).1 ≡ fault s) → Lasting m
  Lasting-same m same = record { at = λ s. rw (same s) (Lasts-refl (fault s)) }

  pub Lasting-pure : (a : A) → Lasting (pure {S = Server W} a)
  unfolding pure
  Lasting-pure a = Lasting-same _ (λ s. refl)

  pub Lasting-gets : (f : Server W → A) → Lasting (gets f)
  unfolding gets
  Lasting-gets f = Lasting-same _ (λ s. refl)

  pub Lasting-on_session : (m : Act (Session W) A) → Lasting (on_session m)
  unfolding on_session
  Lasting-on_session m = Lasting-same _ (λ s. refl)

  pub Lasting-if :
      (b : Bool) (m n : Act (Server W) A) → Lasting m → Lasting n → Lasting (if b then m else n)
  Lasting-if true m n hm hn = hm
  Lasting-if false m n hm hn = hn

  settled : (r : Outcome A) (s : Server W) → fault (settle r s).1 ≡ fault s
  settled (ok a) s = refl
  settled (err e) s = refl
  settled panicked s = refl
  settled blocked s = refl

module _ {W : Type 0} where
  pub Lasting-attempt : {A : Type 0} (m : Act (Server W) A) → Lasting m → Lasting (attempt m)
  unfolding attempt
  Lasting-attempt m h = record { at = λ s. rw (settled (m s).0 (m s).1) (h.at s) }

module _ {W A B : Type 0} where
  Lasting-continue :
      (x : Fault) (r : Outcome A) (f : A → Act (Server W) B) (s : Server W)
      → Lasts x (fault s)
      → ((a : A) → Lasting (f a))
      → Lasts x (fault (continue r f s).1)
  Lasting-continue x (ok a) f s h k = Lasts-trans h ((k a).at s)
  Lasting-continue x (err e) f s h k = h
  Lasting-continue x panicked f s h k = h
  Lasting-continue x blocked f s h k = h

  pub Lasting-bind :
      (m : Act (Server W) A) (f : A → Act (Server W) B)
      → Lasting m
      → ((a : A) → Lasting (f a))
      → Lasting (m >>= f)
  unfolding ◌>>=◌
  Lasting-bind m f h k = record {
    at = λ s. Lasting-continue (fault s) (m s).0 f (m s).1 (h.at s) k;
  }

noted_first :
    (o : Option Error) (e first : Error)
    → o ≡ some first
    → elim o as (λ _. Option Error) [ none ↦ some e | some old ↦ some old ] ≡ some first
noted_first none e first h = absurd (cc)
noted_first (some old) e first h = h

noted-ne-none :
    (o : Option Error) (e : Error)
    → elim o as (λ _. Option Error) [ none ↦ some e | some old ↦ some old ] ≢ none
noted-ne-none none e h = cc
noted-ne-none (some old) e h = cc

module _ {W : Type 0} (host : Host W) where
  fault-unlock_error :
      (r : Outcome (Unit {0})) (s : Server W) → fault (unlock_error r s).1 ≡ fault s
  unfolding unlock_error
  fault-unlock_error blocked s = refl
  fault-unlock_error _ s = refl

  Lasting-record_error : (e : Error) → Lasting (record_error host e)
  unfolding record_error on_session
  Lasting-record_error e = record {
    at = λ s. record {
      first = λ first h. noted_first s.error e first h;
      none_met = λ h. absurd (noted-ne-none s.error e h);
    };
  }

  pub Lasting-die : (e : Error) → Lasting (die host e)
  unfolding die
  Lasting-die e = record {
    at = λ s. elim (Bool-cases s.error_lock) [
      | inl held ↦ rw (held, die) (Lasts-refl (fault s))
      | inr free ↦
          let t = record s { error_lock = true } in
          let (r, u) = record_error host e t in
          rw (free, die) (rw (fault-unlock_error r u) ((Lasting-record_error e).at t))
    ];
  }

  Lasting-serialize : (m : Response) → Lasting (serialize host m)
  unfolding serialize
  Lasting-serialize m = Lasting-same _ (λ s. ground arith)

  Lasting-transmit : (rs : Request) (m : Response) → Lasting (transmit host rs m)
  unfolding transmit
  Lasting-transmit rs m = record {
    at = λ s. elim (Bool-cases (is_cancelled rs s)) [
      | inl gone ↦ rw (gone, transmit) (Lasts-refl (fault s))
      | inr live ↦ elim (Option-cases (host.write s.sent m)) [
        | inl fine ↦ rw (live, fine, transmit) (Lasts-refl (fault s))
        | inr (e, fails) ↦
            rw (live, fails, transmit)
              ((Lasting-die e).at (record s { tags = delete rs.tag s.tags }))
      ]
    ];
  }

  Lasting-too_big : (rs : Request) → Lasting (too_big host rs)
  unfolding too_big
  Lasting-too_big rs = Lasting-bind _ _ (Lasting-serialize _) (elim [
    | encoded ↦ Lasting-pure tt
    | msg_too_big ↦ Lasting-die could_not_send_err
    | failed e ↦ Lasting-die could_not_send_err
  ])

  pub Lasting-respond : (rs : Request) (reply : Reply) → Lasting (respond host rs reply)
  unfolding respond
  Lasting-respond rs reply = Lasting-bind _ _ (Lasting-serialize _) (elim [
    | encoded ↦ Lasting-transmit rs _
    | msg_too_big ↦ Lasting-too_big rs
    | failed e ↦ Lasting-die e
  ])

  pub Lasting-send_error : (rs : Request) (e : Error) → Lasting (send_error host rs e)
  unfolding send_error
  Lasting-send_error rs e = Lasting-respond rs _

  pub Lasting-answer : (rs : Request) (body : Act (Session W) Reply) → Lasting (answer host rs body)
  unfolding answer
  Lasting-answer rs body =
      Lasting-bind _ _ (Lasting-attempt _ (Lasting-on_session body))
        (elim [ value reply ↦ Lasting-respond rs reply | failure e ↦ Lasting-send_error rs e ])

  after_panic-Lasts :
      (x : Fault) (r : Outcome (Unit {0})) (s : Server W)
      → Lasts x (fault s)
      → Lasts x (fault (after_panic host r s).1)
  unfolding after_panic
  after_panic-Lasts x (ok a) s h = h
  after_panic-Lasts x (err e) s h = h
  after_panic-Lasts x panicked s h = Lasts-trans h ((Lasting-die _).at s)
  after_panic-Lasts x blocked s h = h

  pub Lasting-handle_panic :
      (m : Act (Server W) (Unit {0})) → Lasting m → Lasting (handle_panic host m)
  unfolding handle_panic
  Lasting-handle_panic m h = record {
    at = λ s. after_panic-Lasts (fault s) (m s).0 (m s).1 (h.at s);
  }
