-- ===== src/Fileserver/Serve/Laws.antt =====
-- What Serve and the handlers come to, whatever the client sends and in whatever order they run.
use qptools.Prelude.{
  ℕ, zero, suc, ◌≡◌, refl, sym, inl, inr, Option, none, some, List, [], ◌∷◌, arith, ◌==◌,
  Bool-cases,
}
use qptools.Prelude.Maps.{nat_key}
use qptools.Fileserver.State.{Host}
use qptools.Fileserver.Wire.Effect.{Wire, wire, Quiet-die}
use qptools.Fileserver.Handlers.Handled.{handle-Handled}
use qptools.Fileserver.Dispatch.{received}
use qptools.Fileserver.System.{Job, count}
use qptools.Fileserver.System.Kept.{Kept, job_ids, job_ids-spawn, received-Kept}
use qptools.Fileserver.Serve.{
  Serving, testing, reading, returned, hung, crashed, Service, Event, test, arrived, broken,
  handler, pick, run_job, happen, serve,
}

-- The handler that is picked is one of those before, and the others stay.
abbrev Picked : List Job → Option (Job × List Job) → Type 0
Picked jobs none = Unit {0}
Picked jobs (some (job, rest)) =
    (i : ℕ) → count i (job_ids jobs) ≡ count i (job.request.id ∷ job_ids rest)

pick-Picked : (k : ℕ) (jobs : List Job) → Picked jobs (pick k jobs)
pick-Picked k [] = tt
pick-Picked zero (j ∷ jobs) = λ i. refl
pick-Picked (suc k) (j ∷ jobs) = later (pick k jobs) (pick-Picked k jobs)
  where
    later :
        (o : Option (Job × List Job))
        → Picked jobs o
        → Picked (j ∷ jobs) (elim o [ none ↦ none | some (x, rest) ↦ some (x, j ∷ rest) ])
    later none h = tt
    later (some (x, rest)) h = λ i. ground (arith, h i)

module _ {P : Wire → List ℕ → Type 0} (kept : Kept P) {W : Type 0} (host : Host W) where
  abbrev Holds : Service W → Type 0
  Holds v = P (wire v.system.server) (job_ids v.system.jobs)

  run_job-Kept :
      (v : Service W) (o : Option (Job × List Job))
      → Picked v.system.jobs o
      → Holds v
      → Holds (run_job host o v)
  run_job-Kept v none p h = h
  run_job-Kept v (some (job, rest)) p h =
      kept.at_handled _ _ _ job.request
        (handle-Handled host job.request job.message v.system.server)
        (kept.at_reorder _ _ _ (λ i. sym (p i)) h)

  happen-Kept : (s : Serving) (e : Event) (v : Service W) → Holds v → Holds (happen host s e v)
  happen-Kept crashed e v h = h
  happen-Kept testing (handler k) v h =
      run_job-Kept v (pick k v.system.jobs) (pick-Picked k v.system.jobs) h
  happen-Kept reading (handler k) v h =
      run_job-Kept v (pick k v.system.jobs) (pick-Picked k v.system.jobs) h
  happen-Kept (returned o) (handler k) v h =
      run_job-Kept v (pick k v.system.jobs) (pick-Picked k v.system.jobs) h
  happen-Kept hung (handler k) v h =
      run_job-Kept v (pick k v.system.jobs) (pick-Picked k v.system.jobs) h
  happen-Kept testing test v h = elim (Bool-cases (v.system.server.error_cnt == 0)) [
    | inl fine ↦ rw fine h
    | inr met ↦ elim (Bool-cases v.system.server.error_lock) [
      | inl held ↦ rw (met, held) h
      | inr free ↦ rw (met, free) h
    ]
  ]
  happen-Kept testing (arrived m) v h = h
  happen-Kept testing (broken e) v h = h
  happen-Kept reading test v h = h
  happen-Kept reading (arrived m) v h =
      rw (job_ids-spawn m (received host m v.system.server).0 v.system.jobs)
        (received-Kept kept host m v.system.server h)
  happen-Kept reading (broken e) v h = rw ((Quiet-die host e).at v.system.server) h
  happen-Kept (returned o) test v h = h
  happen-Kept (returned o) (arrived m) v h = h
  happen-Kept (returned o) (broken e) v h = h
  happen-Kept hung test v h = h
  happen-Kept hung (arrived m) v h = h
  happen-Kept hung (broken e) v h = h

  pub serve-Kept : (es : List Event) (v : Service W) → Holds v → Holds (serve host es v)
  unfolding serve
  serve-Kept [] v h = h
  serve-Kept (e ∷ es) v h = serve-Kept es (happen host v.serving e v) (happen-Kept v.serving e v h)
