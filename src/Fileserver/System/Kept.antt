-- ===== src/Fileserver/System/Kept.antt =====
-- What the steps of the server keep: a predicate on the wire and on the requests that are still to be
-- answered is kept by every step, if it is kept by what `received` does to a new request and by what
-- a handler may do.
use qptools.Prelude.{
  ℕ, ◌≡◌, refl, sym, true, false, Option, none, some, List, [], ◌∷◌, ◌++◌, map, arith, ◌==◌, length,
  set, inl, inr, Option-cases, Bool-cases,
}
use qptools.Prelude.Maps.{lookup, insert, nat_key}
use qptools.Act.{Outcome, ok, err, panicked, blocked, attempt, continue, pure, ◌>>=◌, ◌>>◌}
use qptools.Qp.{Request as Message, get_tag}
use qptools.Fileserver.State.{Request, Server, Host, tag_in_use}
use qptools.Fileserver.Wire.{register, send_error}
use qptools.Fileserver.Wire.Effect.{Wire, wire, send_error-Answers}
use qptools.Fileserver.Handlers.Handled.{Handled, same, handle-Handled}
use qptools.Fileserver.Dispatch.{received, handle, is_spawned, allocate, dispatch}
use qptools.Fileserver.System.{Job, System, spawn, Step, receive, run, Reach, here, next, count}

-- What `received` does before it starts a handler, seen on the wire.
abbrev pub begin : Request → Wire → Wire
begin rs w = record w { cancelled = w.cancelled ++ false ∷ [] }

abbrev pub claimed : Request → Wire → Wire
claimed rs w = record w { cancelled = w.cancelled ++ false ∷ []; tags = insert rs.tag rs w.tags }

abbrev pub taken : Request → Request → Wire → Wire
taken rs old w = record w {
  cancelled = set (w.cancelled ++ false ∷ []) old.id true;
  tags = insert rs.tag rs w.tags;
}

pub record Kept (P : Wire → List ℕ → Type 0) : Type 0 where
  pub at_begin :
      (w : Wire) (ids : List ℕ) (rs : Request)
      → rs.id ≡ length w.cancelled
      → P w ids
      → P (begin rs w) (rs.id ∷ ids)
  pub at_claimed :
      (w : Wire) (ids : List ℕ) (rs : Request)
      → rs.id ≡ length w.cancelled
      → lookup rs.tag w.tags ≡ none
      → P w ids
      → P (claimed rs w) (rs.id ∷ ids)
  pub at_taken :
      (w : Wire) (ids : List ℕ) (rs old : Request)
      → rs.id ≡ length w.cancelled
      → lookup rs.tag w.tags ≡ some old
      → P w ids
      → P (taken rs old w) (rs.id ∷ ids)
  pub at_handled :
      (w w' : Wire) (ids : List ℕ) (rs : Request) → Handled rs w w' → P w (rs.id ∷ ids) → P w' ids
  -- The order of the outstanding requests does not matter.
  pub at_reorder :
      (w : Wire) (ids ids' : List ℕ) → ((i : ℕ) → count i ids' ≡ count i ids) → P w ids → P w ids'

-- The requests that are to be answered after `received` returned.
abbrev pub outstanding : Outcome (Option Request) → List ℕ → List ℕ
outstanding (ok (some rs)) ids = rs.id ∷ ids
outstanding (ok none) ids = ids
outstanding (err e) ids = ids
outstanding panicked ids = ids
outstanding blocked ids = ids

refusal_Handled :
    {W : Type 0} (host : Host W) (rs : Request) (t : Server W)
    → Handled rs (wire t) (wire (send_error host rs tag_in_use t).1)
refusal_Handled host rs t = record {
  between = wire t;
  begun = same refl;
  answered = (send_error-Answers host rs tag_in_use).at t;
}

module _ {P : Wire → List ℕ → Type 0} (k : Kept P) {W : Type 0} (host : Host W) (m : Message)
    {ids : List ℕ} where
  -- A handler that ran at once leaves nothing to answer.
  ended :
      (r : Outcome (Unit {0})) (t : Server W)
      → P (wire t) ids
      → P
          (wire (continue {B = Option Request} r (λ _. pure none) t).1)
          (outstanding (continue {B = Option Request} r (λ _. pure none) t).0 ids)
  unfolding pure
  ended (ok a) t v = v
  ended (err e) t v = v
  ended panicked t v = v
  ended blocked t v = v

  refused-Kept :
      (rs : Request) (t : Server W)
      → P (wire t) (rs.id ∷ ids)
      → P
          (wire ((send_error host rs tag_in_use >> pure {A = Option Request} none) t).1)
          (outstanding ((send_error host rs tag_in_use >> pure {A = Option Request} none) t).0 ids)
  unfolding ◌>>=◌
  refused-Kept rs t v =
      let (r, u) = send_error host rs tag_in_use t in
      ended r u (k.at_handled (wire t) _ ids rs (refusal_Handled host rs t) v)

  started-Kept :
      (rs : Request) (t : Server W)
      → P (wire t) (rs.id ∷ ids)
      → P (wire (dispatch host m rs t).1) (outstanding (dispatch host m rs t).0 ids)
  unfolding dispatch ◌>>=◌
  started-Kept rs t v = elim (Bool-cases (is_spawned m)) [
    | inl later ↦ rw (later, dispatch) v
    | inr now ↦
        let (r, u) = handle host m rs t in
        rw (now, dispatch)
          (ended r u (k.at_handled (wire t) _ ids rs (handle-Handled host rs m t) v))
  ]

  pub received-Kept :
      (s : Server W)
      → P (wire s) ids
      → P (wire (received host m s).1) (outstanding (received host m s).0 ids)
  unfolding received allocate register attempt ◌>>=◌
  received-Kept s v =
      let rs : Request = record { id = length s.cancelled; tag = get_tag m } in
      elim (Bool-cases (get_tag m == host.qp.notag)) [
        | inl untagged ↦
            rw (untagged, received)
              (started-Kept rs (record s { cancelled = s.cancelled ++ false ∷ [] })
                (k.at_begin (wire s) ids rs refl v))
        | inr tagged ↦ elim (Option-cases (lookup (get_tag m) s.tags)) [
          | inl free ↦
              rw (tagged, free, received)
                (started-Kept rs
                  (record s {
                    cancelled = s.cancelled ++ false ∷ [];
                    tags = insert (get_tag m) rs s.tags;
                  })
                  (k.at_claimed (wire s) ids rs refl free v))
          | inr (old, held) ↦
              rw (tagged, held, received)
                (refused-Kept rs
                  (record s {
                    cancelled = set (s.cancelled ++ false ∷ []) old.id true;
                    tags = insert (get_tag m) rs s.tags;
                  })
                  (k.at_taken (wire s) ids rs old refl held v))
        ]
      ]

abbrev pub job_ids : List Job → List ℕ
job_ids = map (λ j. j.request.id)

pub job_ids-spawn :
    (m : Message) (r : Outcome (Option Request)) (jobs : List Job)
    → job_ids (spawn m r jobs) ≡ outstanding r (job_ids jobs)
job_ids-spawn m (ok (some rs)) jobs = refl
job_ids-spawn m (ok none) jobs = refl
job_ids-spawn m (err e) jobs = refl
job_ids-spawn m panicked jobs = refl
job_ids-spawn m blocked jobs = refl

-- Taking a job out of the middle leaves the others.
job_ids-middle :
    (before after : List Job) (job : Job) (i : ℕ)
    → count i (job_ids (before ++ job ∷ after))
      ≡ count i (job.request.id ∷ job_ids (before ++ after))
job_ids-middle [] after job i = refl
job_ids-middle (b ∷ before) after job i = ground (arith, job_ids-middle before after job i)

module _ {P : Wire → List ℕ → Type 0} (k : Kept P) {W : Type 0} (host : Host W) where
  abbrev Holds : System W → Type 0
  Holds s = P (wire s.server) (job_ids s.jobs)

  Step-Kept : {s t : System W} → Step host s t → Holds s → Holds t
  Step-Kept (receive m server jobs) v =
      rw (job_ids-spawn m (received host m server).0 jobs) (received-Kept k host m server v)
  Step-Kept (run job server before after) v =
      k.at_handled _ _ _ job.request (handle-Handled host job.request job.message server)
        (k.at_reorder _ _ _ (λ i. sym (job_ids-middle before after job i)) v)

  pub Reach-Kept :
      {s t : System W}
      → Reach host s t
      → P (wire s.server) (job_ids s.jobs)
      → P (wire t.server) (job_ids t.jobs)
  Reach-Kept here v = v
  Reach-Kept (next r st) v = Step-Kept st (Reach-Kept r v)
