-- ===== src/Fileserver/Handlers/Effects.antt =====
-- What each handler does to the requests, the tags and the connection: it answers its own request,
-- once at most, and only version and flush touch another's.
use qptools.Prelude.{ℕ, ◌≡◌, refl, inl, inr, String, true, Option, none, some, List, Bool-cases}
use qptools.Prelude.Maps.{nat_key}
use qptools.Act.{Act, Outcome, blocked}
use qptools.Qp.{Stat}
use qptools.Fileserver.Walk.{FidState}
use qptools.Fileserver.State.{Request, Server, Host, auth_not_supported}
use qptools.Fileserver.Wire.{on_session, send_error, answer}
use qptools.Fileserver.Wire.Effect.{
  wire, silent, Answers, quiet-Answered, Answered-quiet, Answers-if, Quiet-bind-Answers, Quiet-gets,
  Quiet-on_session, send_error-Answers, answer-Answers, handle_panic-Answers,
}
use qptools.Fileserver.Fids.{update_fid, auth_body}
use qptools.Fileserver.Handlers.{
  holding_fids, holding_state, after_fids, after_state, auth, attach, walk, with_fid, with_held_fid,
  open_file, create, read, write, clunk, remove, stat, write_stat,
}

module _ {W : Type 0} where
  wire-after_fids : (r : Outcome (Unit {0})) (s : Server W) → wire (after_fids r s).1 ≡ wire s
  unfolding after_fids
  wire-after_fids blocked s = refl
  wire-after_fids _ s = refl

  wire-after_state :
      (fid : ℕ) (r : Outcome (Unit {0})) (s : Server W) → wire (after_state fid r s).1 ≡ wire s
  unfolding after_state on_session
  wire-after_state fid blocked s = refl
  wire-after_state fid _ s = refl

module _ {W : Type 0} {rs : Request} where
  holding_fids-Answers :
      (m : Act (Server W) (Unit {0})) → Answers rs m → Answers rs (holding_fids m)
  unfolding holding_fids
  holding_fids-Answers m a = record {
    at = λ s. elim (Bool-cases s.session.fid_lock) [
      | inl held ↦ rw (held, holding_fids) (silent refl)
      | inr free ↦
          let t = record s { session = record s.session { fid_lock = true } } in
          rw (free, holding_fids) (quiet-Answered (a.at t) (wire-after_fids (m t).0 (m t).1))
    ];
  }

  holding_state-Answers :
      (fid : ℕ) (f : FidState) (m : Act (Server W) (Unit {0}))
      → Answers rs m
      → Answers rs (holding_state fid f m)
  unfolding holding_state on_session
  holding_state-Answers fid f m a = record {
    at = λ s. elim (Bool-cases f.locked) [
      | inl held ↦ rw (held, holding_state) (silent refl)
      | inr free ↦
          let t = (on_session (update_fid fid (λ g. record g { locked = true })) s).1 in
          rw (free, holding_state)
            (Answered-quiet refl (quiet-Answered (a.at t) (wire-after_state fid (m t).0 (m t).1)))
    ];
  }

module _ {W : Type 0} (host : Host W) (rs : Request) where
  with_fid-Answers :
      (fid : ℕ) (rest : FidState → Act (Server W) (Unit {0}))
      → ((f : FidState) → Answers rs (rest f))
      → Answers rs (with_fid host fid rs rest)
  unfolding with_fid
  with_fid-Answers fid rest ar = handle_panic-Answers host _ (
      Quiet-bind-Answers {A = Option FidState} _ _ (Quiet-on_session _)
        (elim [ none ↦ send_error-Answers host rs _ | some f ↦ ar f ]))

  with_held_fid-Answers :
      (fid : ℕ) (rest : FidState → Act (Server W) (Unit {0}))
      → ((f : FidState) → Answers rs (rest f))
      → Answers rs (with_held_fid host fid rs rest)
  unfolding with_held_fid
  with_held_fid-Answers fid rest ar = handle_panic-Answers host _ (
      holding_fids-Answers _ (
        Quiet-bind-Answers {A = Option FidState} _ _ (Quiet-gets _)
          (elim [ none ↦ send_error-Answers host rs _ | some f ↦ ar f ])))

  -- The handlers that answer and touch no other request.
  pub auth-Answers : (afid : ℕ) (user : String) → Answers rs (auth host afid user rs)
  unfolding auth
  auth-Answers afid user =
      handle_panic-Answers host _
        (Answers-if _ _ _ (send_error-Answers host rs _) (afid_file host.auth_file))
    where
      afid_file :
          (o : Option ℕ)
          → Answers rs (elim o [
            | none ↦ send_error host rs auth_not_supported
            | some file ↦ holding_fids (answer host rs (auth_body host file afid user))
          ])
      afid_file none = send_error-Answers host rs _
      afid_file (some file) = holding_fids-Answers _ (answer-Answers host rs _)

  pub attach-Answers :
      (fid afid : ℕ) (user service : String) → Answers rs (attach host fid afid user service rs)
  unfolding attach
  attach-Answers fid afid user service = handle_panic-Answers host _ (
      Answers-if _ _ _ (send_error-Answers host rs _)
        (holding_fids-Answers _ (answer-Answers host rs _)))

  pub walk-Answers : (fid new : ℕ) (names : List String) → Answers rs (walk host fid new names rs)
  unfolding walk
  walk-Answers fid new names =
      handle_panic-Answers host _
        (Answers-if _ _ _ (send_error-Answers host rs _) (answer-Answers host rs _))

  pub open_file-Answers : (fid mode : ℕ) → Answers rs (open_file host fid mode rs)
  unfolding open_file
  open_file-Answers fid mode =
      with_fid-Answers fid _ λ f. holding_state-Answers fid f _ (answer-Answers host rs _)

  pub create-Answers :
      (fid : ℕ) (name : String) (perms mode : ℕ) → Answers rs (create host fid name perms mode rs)
  unfolding create
  create-Answers fid name perms mode =
      with_fid-Answers fid _ λ f. holding_state-Answers fid f _ (answer-Answers host rs _)

  pub read-Answers : (fid offset count : ℕ) → Answers rs (read host fid offset count rs)
  unfolding read
  read-Answers fid offset count =
      with_fid-Answers fid _
        λ f. Quiet-bind-Answers {A = ℕ} _ _ (Quiet-gets _) λ size. answer-Answers host rs _

  pub write-Answers :
      (fid offset : ℕ) (bytes : List ℕ) → Answers rs (write host fid offset bytes rs)
  unfolding write
  write-Answers fid offset bytes = with_fid-Answers fid _ λ f. answer-Answers host rs _

  pub clunk-Answers : (fid : ℕ) → Answers rs (clunk host fid rs)
  unfolding clunk
  clunk-Answers fid = with_held_fid-Answers fid _ λ f. answer-Answers host rs _

  pub remove-Answers : (fid : ℕ) → Answers rs (remove host fid rs)
  unfolding remove
  remove-Answers fid = with_held_fid-Answers fid _ λ f. answer-Answers host rs _

  pub stat-Answers : (fid : ℕ) → Answers rs (stat host fid rs)
  unfolding stat
  stat-Answers fid = with_fid-Answers fid _ λ f. answer-Answers host rs _

  pub write_stat-Answers : (fid : ℕ) (st : Stat) → Answers rs (write_stat host fid st rs)
  unfolding write_stat
  write_stat-Answers fid st =
      with_fid-Answers fid _ λ f. holding_state-Answers fid f _ (answer-Answers host rs _)
