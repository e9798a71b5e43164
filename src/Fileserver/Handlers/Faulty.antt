-- ===== src/Fileserver/Handlers/Faulty.antt =====
-- What the handlers do to the error that ends the connection.
use qptools.Prelude.{ℕ, ◌≡◌, refl, inl, inr, String, arith, true, Option, none, some, Bool-cases}
use qptools.Prelude.Maps.{nat_key}
use qptools.Act.{
  Act, Error, reason, Outcome, blocked, Result, value, failure, modify, gets, ◌>>=◌, ◌>>◌,
}
use qptools.Qp.{
  Request as Message, version, auth, attach, flush, walk, open_file, create, read, write, clunk,
  remove, stat, write_stat, unsupported, r_version, r_flush, get_tag,
}
use qptools.Fileserver.Walk.{FidState}
use qptools.Fileserver.State.{
  Request, Server, Host, Decoder, auth_not_supported, message_size_too_small,
  messages_during_version,
}
use qptools.Fileserver.Wire.{on_session, die, register, send_error, respond, answer}
use qptools.Fileserver.Wire.Fault.{
  Lasts-refl, Fault, fault, Lasts, Lasting, Lasting-same, Lasting-pure, Lasting-gets,
  Lasting-on_session, Lasting-if, Lasting-attempt, Lasting-bind, Lasting-die, Lasting-respond,
  Lasting-send_error, Lasting-answer, Lasting-handle_panic,
}
use qptools.Fileserver.Fids.{update_fid, auth_body}
use qptools.Fileserver.Handlers
use qptools.Fileserver.Handlers.{
  holding_fids, holding_state, after_fids, after_state, cancel_tag, reset_session, negotiate,
  version_string, with_fid, with_held_fid,
}
use qptools.Fileserver.Dispatch.{handle, received, dispatch, is_spawned, allocate}

module _ {W : Type 0} where
  after_fids-Lasts :
      (x : Fault) (r : Outcome (Unit {0})) (s : Server W)
      → Lasts x (fault s)
      → Lasts x (fault (after_fids r s).1)
  unfolding after_fids
  after_fids-Lasts x blocked s h = h
  after_fids-Lasts x _ s h = h

  after_state-Lasts :
      (fid : ℕ) (x : Fault) (r : Outcome (Unit {0})) (s : Server W)
      → Lasts x (fault s)
      → Lasts x (fault (after_state fid r s).1)
  unfolding after_state on_session
  after_state-Lasts fid x blocked s h = h
  after_state-Lasts fid x _ s h = h

  Lasting-modify :
      (f : Server W → Server W) → ((s : Server W) → fault (f s) ≡ fault s) → Lasting (modify f)
  unfolding modify
  Lasting-modify f same = Lasting-same _ same

  Lasting-holding_fids : (m : Act (Server W) (Unit {0})) → Lasting m → Lasting (holding_fids m)
  unfolding holding_fids
  Lasting-holding_fids m h = record {
    at = λ s. elim (Bool-cases s.session.fid_lock) [
      | inl held ↦ rw (held, holding_fids) (Lasts-refl (fault s))
      | inr free ↦
          let t = record s { session = record s.session { fid_lock = true } } in
          rw (free, holding_fids) (after_fids-Lasts (fault s) (m t).0 (m t).1 (h.at t))
    ];
  }

  Lasting-holding_state :
      (fid : ℕ) (f : FidState) (m : Act (Server W) (Unit {0}))
      → Lasting m
      → Lasting (holding_state fid f m)
  unfolding holding_state on_session
  Lasting-holding_state fid f m h = record {
    at = λ s. elim (Bool-cases f.locked) [
      | inl held ↦ rw (held, holding_state) (Lasts-refl (fault s))
      | inr free ↦
          let t = (on_session (update_fid fid (λ g. record g { locked = true })) s).1 in
          rw (free, holding_state) (after_state-Lasts fid (fault s) (m t).0 (m t).1 (h.at t))
    ];
  }

  Lasting-cancel_tag : (old_tag : ℕ) → Lasting (cancel_tag {W = W} old_tag)
  unfolding cancel_tag
  Lasting-cancel_tag old_tag =
      Lasting-bind {A = Option Request} _ _ (Lasting-gets _)
        (elim [ none ↦ Lasting-pure tt | some old ↦ Lasting-modify _ (λ s. refl) ])

module _ {W : Type 0} (host : Host W) (rs : Request) where
  Lasting-with_fid :
      (fid : ℕ) (rest : FidState → Act (Server W) (Unit {0}))
      → ((f : FidState) → Lasting (rest f))
      → Lasting (with_fid host fid rs rest)
  unfolding with_fid
  Lasting-with_fid fid rest k = Lasting-handle_panic host _ (
      Lasting-bind {A = Option FidState} _ _ (Lasting-on_session _)
        (elim [ none ↦ Lasting-send_error host rs _ | some f ↦ k f ]))

  Lasting-with_held_fid :
      (fid : ℕ) (rest : FidState → Act (Server W) (Unit {0}))
      → ((f : FidState) → Lasting (rest f))
      → Lasting (with_held_fid host fid rs rest)
  unfolding with_held_fid
  Lasting-with_held_fid fid rest k = Lasting-handle_panic host _ (
      Lasting-holding_fids _ (
        Lasting-bind {A = Option FidState} _ _ (Lasting-gets _)
          (elim [ none ↦ Lasting-send_error host rs _ | some f ↦ k f ])))

  Lasting-auth : (afid : ℕ) (user : String) → Lasting (Handlers.auth host afid user rs)
  unfolding Handlers.auth
  Lasting-auth afid user =
      Lasting-handle_panic host _
        (Lasting-if _ _ _ (Lasting-send_error host rs _) (afid_file host.auth_file))
    where
      afid_file :
          (o : Option ℕ)
          → Lasting (elim o [
            | none ↦ send_error host rs auth_not_supported
            | some file ↦ holding_fids (answer host rs (auth_body host file afid user))
          ])
      afid_file none = Lasting-send_error host rs _
      afid_file (some file) = Lasting-holding_fids _ (Lasting-answer host rs _)

  Lasting-reset_session : (size : ℕ) → Lasting (reset_session host size)
  unfolding reset_session
  Lasting-reset_session size =
      Lasting-bind _ _ (Lasting-modify _ (λ s. refl))
        λ _. Lasting-bind _ _ (Lasting-on_session _) λ _. Lasting-modify _ (λ s. refl)

  Lasting-version : (tag size : ℕ) (v : String) → Lasting (Handlers.version host tag size v rs)
  unfolding Handlers.version
  Lasting-version tag size v =
      Lasting-handle_panic host _
        (Lasting-if _ _ _ (Lasting-send_error host rs _) (sized (negotiate host size)))
    where
      ended :
          (n : ℕ) (o : Option Error)
          → Lasting (elim o [
            | some e ↦ do
              die host (reason "could not reset decoder")
              send_error host rs messages_during_version
            | none ↦ respond host rs (r_version n (version_string host v))
          ])
      ended n none = Lasting-respond host rs _
      ended n (some e) = Lasting-bind _ _ (Lasting-die host _) λ _. Lasting-send_error host rs _

      sized :
          (o : Option ℕ)
          → Lasting (elim o [
            | none ↦ send_error host rs message_size_too_small
            | some n ↦ do
              reset_session host n
              decoder ← gets (λ s. s.decoder)
              elim (host.reset decoder) [
                | some e ↦ do
                  die host (reason "could not reset decoder")
                  send_error host rs messages_during_version
                | none ↦ respond host rs (r_version n (version_string host v))
              ]
          ])
      sized none = Lasting-send_error host rs _
      sized (some n) = Lasting-bind _ _ (Lasting-reset_session n) λ _.
          Lasting-bind {A = Decoder} _ _ (Lasting-gets _) λ decoder. ended n (host.reset decoder)

  -- Every handler.
  pub Lasting-handle : (m : Message) → Lasting (handle host m rs)
  unfolding handle Handlers.attach Handlers.walk Handlers.flush Handlers.open_file Handlers.create
      Handlers.read Handlers.write Handlers.clunk Handlers.remove Handlers.stat Handlers.write_stat
  Lasting-handle (version t size v) = Lasting-version t size v
  Lasting-handle (auth t afid user service) = Lasting-auth afid user
  Lasting-handle (attach t fid afid user service) = Lasting-handle_panic host _ (
      Lasting-if _ _ _ (Lasting-send_error host rs _)
        (Lasting-holding_fids _ (Lasting-answer host rs _)))
  Lasting-handle (flush t old) =
      Lasting-handle_panic host _
        (Lasting-bind _ _ (Lasting-cancel_tag old) λ _. Lasting-respond host rs r_flush)
  Lasting-handle (walk t fid new names) =
      Lasting-handle_panic host _
        (Lasting-if _ _ _ (Lasting-send_error host rs _) (Lasting-answer host rs _))
  Lasting-handle (open_file t fid mode) =
      Lasting-with_fid fid _ λ f. Lasting-holding_state fid f _ (Lasting-answer host rs _)
  Lasting-handle (create t fid name perms mode) =
      Lasting-with_fid fid _ λ f. Lasting-holding_state fid f _ (Lasting-answer host rs _)
  Lasting-handle (read t fid offset count) =
      Lasting-with_fid fid _
        λ f. Lasting-bind {A = ℕ} _ _ (Lasting-gets _) λ size. Lasting-answer host rs _
  Lasting-handle (write t fid offset bytes) = Lasting-with_fid fid _ λ f. Lasting-answer host rs _
  Lasting-handle (clunk t fid) = Lasting-with_held_fid fid _ λ f. Lasting-answer host rs _
  Lasting-handle (remove t fid) = Lasting-with_held_fid fid _ λ f. Lasting-answer host rs _
  Lasting-handle (stat t fid) = Lasting-with_fid fid _ λ f. Lasting-answer host rs _
  Lasting-handle (write_stat t fid st) =
      Lasting-with_fid fid _ λ f. Lasting-holding_state fid f _ (Lasting-answer host rs _)
  Lasting-handle (unsupported t) = Lasting-send_error host rs _

module _ {W : Type 0} (host : Host W) (m : Message) where
  Lasting-allocate : (tag : ℕ) → Lasting (allocate {W = W} tag)
  unfolding allocate
  Lasting-allocate tag =
      Lasting-bind {A = ℕ} _ _ (Lasting-gets _)
        λ id. Lasting-bind _ _ (Lasting-modify _ (λ s. refl)) λ _. Lasting-pure _

  Lasting-register : (rs : Request) → Lasting (register host rs)
  unfolding register
  Lasting-register rs = Lasting-same _ (λ s. ground arith)

  Lasting-dispatch : (rs : Request) → Lasting (dispatch host m rs)
  unfolding dispatch
  Lasting-dispatch rs = elim (Bool-cases (is_spawned m)) [
    | inl later ↦ rw (later, dispatch) (Lasting-pure (some rs))
    | inr now ↦
        rw (now, dispatch) (Lasting-bind _ _ (Lasting-handle host rs m) λ _. Lasting-pure none)
  ]

  pub Lasting-received : Lasting (received host m)
  unfolding received
  Lasting-received = Lasting-bind _ _ (Lasting-allocate (get_tag m)) λ rs.
      Lasting-bind {A = Result (Unit {0})} _ _ (Lasting-attempt _ (Lasting-register rs)) (elim [
        | failure e ↦ Lasting-bind _ _ (Lasting-send_error host rs e) λ _. Lasting-pure none
        | value _ ↦ Lasting-dispatch rs
      ])
