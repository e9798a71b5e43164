-- ===== src/Fileserver/Serve/Errors.antt =====
-- The error that Serve returns.
use qptools.Prelude.{
  ◌≡◌, refl, sym, ap, ◌∙◌, inl, inr, true, Option, none, some, List, [], ◌∷◌, arith, ◌==◌,
  Bool-cases, Option-cases,
}
use qptools.Prelude.Maps.{nat_key}
use qptools.Act.{Error, Outcome, ok, err, panicked, blocked}
use qptools.Fileserver.State.{Server, Host}
use qptools.Fileserver.Wire.{die, record_error, unlock_error, on_session}
use qptools.Fileserver.Wire.Fault.{Fault, fault, Lasts, Lasting-die}
use qptools.Fileserver.Handlers.Faulty.{Lasting-handle, Lasting-received}
use qptools.Fileserver.Dispatch.{received}
use qptools.Fileserver.System.{Job}
use qptools.Fileserver.Serve.{
  Serving, testing, reading, returned, hung, crashed, Service, Event, test, arrived, broken,
  handler, after_received, after_die, pick, run_job, happen, serve,
}

-- While no error was met, none was counted; and what Serve returned is the first error.
abbrev Reported : Serving → Option Error → Type 0
Reported (returned e) met = (first : Error) × (e ≡ some first) × (met ≡ some first)
Reported s met = Unit {0}

pub record Sound {W : Type 0} (v : Service W) : Type 0 where
  pub counted : v.system.server.error ≡ none → v.system.server.error_cnt ≡ 0
  pub reported : Reported v.serving v.system.server.error

Reported-Lasts : {x y : Fault} (s : Serving) → Lasts x y → Reported s x.error → Reported s y.error
Reported-Lasts (returned e) l (first, is, met) = (first, is, l.first first met)
Reported-Lasts testing l r = tt
Reported-Lasts reading l r = tt
Reported-Lasts hung l r = tt
Reported-Lasts crashed l r = tt

counted-Lasts :
    {x y : Fault}
    → Lasts x y
    → (x.error ≡ none → x.error_cnt ≡ 0)
    → y.error ≡ none
    → y.error_cnt ≡ 0
counted-Lasts l c h =
    let same = l.none_met h in ap (λ f. f.error_cnt) same ∙ c (ap (λ f. f.error) (sym same) ∙ h)

noted :
    (e : Error) (o : Option Error)
    → (first : Error) × (elim o as (λ _. Option Error) [ none ↦ some e | some old ↦ some old ]
        ≡ some first)
noted e none = (e, refl)
noted e (some old) = (old, refl)

module _ {W : Type 0} (host : Host W) where
  -- Other handlers leave what Serve returned alone.
  beside-Sound :
      (v : Service W) (server : Server W) (jobs : List Job)
      → Lasts (fault v.system.server) (fault server)
      → Sound v
      → Sound (record v { system = record { server = server; jobs = jobs } })
  beside-Sound v server jobs l h = record {
    counted = counted-Lasts l h.counted;
    reported = Reported-Lasts v.serving l h.reported;
  }

  run_job-Sound : (v : Service W) (o : Option (Job × List Job)) → Sound v → Sound (run_job host o v)
  run_job-Sound v none h = h
  run_job-Sound v (some (job, rest)) h =
      beside-Sound v _ rest ((Lasting-handle host job.request job.message).at v.system.server) h

  after_received-Reported :
      {A : Type 0} (r : Outcome A) (met : Option Error) → Reported (after_received r) met
  after_received-Reported (ok a) met = tt
  after_received-Reported (err e) met = tt
  after_received-Reported panicked met = tt
  after_received-Reported blocked met = tt

  unlock_error-Reported :
      (r : Outcome (Unit {0})) (s : Server W) (first : Error)
      → s.error ≡ some first
      → Reported
          (after_die (unlock_error r s).0 (unlock_error r s).1.error)
          (unlock_error r s).1.error
  unfolding unlock_error
  unlock_error-Reported (ok a) s first is = (first, is, is)
  unlock_error-Reported (err e) s first is = (first, is, is)
  unlock_error-Reported panicked s first is = tt
  unlock_error-Reported blocked s first is = tt

  record_error-some :
      (e : Error) (s : Server W) → (first : Error) × ((record_error host e s).1.error ≡ some first)
  unfolding record_error on_session
  record_error-some e s = noted e s.error

  -- die returns with an error, unless it blocks.
  die-Reported :
      (e : Error) (s : Server W)
      → Reported (after_die (die host e s).0 (die host e s).1.error) (die host e s).1.error
  unfolding die
  die-Reported e s = elim (Bool-cases s.error_lock) [
    | inl held ↦ rw (held, die) tt
    | inr free ↦
        let t = record s { error_lock = true } in
        let (first, is) = record_error-some e t in
        rw (free, die)
          (unlock_error-Reported (record_error host e t).0 (record_error host e t).1 first is)
  ]

  test-Sound : (v : Service W) → v.serving ≡ testing → Sound v → Sound (happen host testing test v)
  test-Sound v at h = elim (Bool-cases (v.system.server.error_cnt == 0)) [
    | inl fine ↦ rw fine (record { counted = h.counted; reported = tt })
    | inr met ↦ elim (Bool-cases v.system.server.error_lock) [
      | inl held ↦ rw (met, held) (record { counted = h.counted; reported = tt })
      | inr free ↦ elim (Option-cases v.system.server.error) [
        | inl clean ↦ absurd (ground (arith, met, h.counted clean))
        | inr (first, is) ↦
            rw (met, free) (record { counted = h.counted; reported = (first, is, is) })
      ]
    ]
  ]

  happen-Sound :
      (s : Serving) (e : Event) (v : Service W)
      → v.serving ≡ s
      → Sound v
      → Sound (happen host s e v)
  happen-Sound crashed e v at h = h
  happen-Sound testing (handler k) v at h = run_job-Sound v (pick k v.system.jobs) h
  happen-Sound reading (handler k) v at h = run_job-Sound v (pick k v.system.jobs) h
  happen-Sound (returned o) (handler k) v at h = run_job-Sound v (pick k v.system.jobs) h
  happen-Sound hung (handler k) v at h = run_job-Sound v (pick k v.system.jobs) h
  happen-Sound testing test v at h = test-Sound v at h
  happen-Sound testing (arrived m) v at h = h
  happen-Sound testing (broken e) v at h = h
  happen-Sound reading test v at h = h
  happen-Sound reading (arrived m) v at h = record {
    counted = counted-Lasts ((Lasting-received host m).at v.system.server) h.counted;
    reported = after_received-Reported (received host m v.system.server).0 _;
  }
  happen-Sound reading (broken e) v at h = record {
    counted = counted-Lasts ((Lasting-die host e).at v.system.server) h.counted;
    reported = die-Reported e v.system.server;
  }
  happen-Sound (returned o) test v at h = h
  happen-Sound (returned o) (arrived m) v at h = h
  happen-Sound (returned o) (broken e) v at h = h
  happen-Sound hung test v at h = h
  happen-Sound hung (arrived m) v at h = h
  happen-Sound hung (broken e) v at h = h

  pub serve-Sound : (es : List Event) (v : Service W) → Sound v → Sound (serve host es v)
  unfolding serve
  serve-Sound [] v h = h
  serve-Sound (e ∷ es) v h =
      serve-Sound es (happen host v.serving e v) (happen-Sound v.serving e v refl h)
