-- ===== src/Fileserver/Serve.antt =====
-- Serve of fileserver/fileserver.go, beside the handlers that it started. Serve tests errorCnt, waits
-- for a message, and hands it to received; between and while it waits, the handlers run.
pub mod Laws
pub mod Errors
use qptools.Prelude.{ℕ, zero, suc, Bool, Option, none, some, List, [], ◌∷◌, ◌==◌, if◌then◌else◌}
use qptools.Act.{Error, Outcome, ok, err, panicked, blocked}
use qptools.Qp.{Request as Message}
use qptools.Fileserver.State.{Server, Host}
use qptools.Fileserver.Wire.{die}
use qptools.Fileserver.Dispatch.{received, handle}
use qptools.Fileserver.System.{Job, System, spawn, start}

-- Where the goroutine of Serve is. `hung` waits for a lock for ever; `crashed` is a panic outside of
-- the handlers that recover one, which ends the program.
pub data Serving : Type 0 where
  testing : Serving
  reading : Serving
  returned : Option Error → Serving
  hung : Serving
  crashed : Serving

pub record Service (W : Type 0) : Type 0 where
  pub serving : Serving
  pub system : System W

-- What happens next: Serve tests errorCnt, ReadMessage returns a message or an error, or the handler
-- runs that stands at a place among those that have not run yet. What cannot happen changes nothing.
pub data Event : Type 0 where
  test : Event
  arrived : Message → Event
  broken : Error → Event
  handler : ℕ → Event

-- Serve, once received has returned
abbrev pub after_received : {A : Type 0} → Outcome A → Serving
after_received (ok a) = testing
after_received (err e) = testing
after_received panicked = crashed
after_received blocked = hung

-- Serve, once die has returned fs.error
abbrev pub after_die : {A : Type 0} → Outcome A → Option Error → Serving
after_die (ok a) e = returned e
after_die (err why) e = returned e
after_die panicked e = crashed
after_die blocked e = hung

-- The handler at a place, and those around it.
abbrev pub pick : ℕ → List Job → Option (Job × List Job)
pick k [] = none
pick zero (j ∷ jobs) = some (j, jobs)
pick (suc k) (j ∷ jobs) = elim (pick k jobs) [ none ↦ none | some (x, rest) ↦ some (x, j ∷ rest) ]

module _ {W : Type 0} (host : Host W) where
  abbrev pub run_job : Option (Job × List Job) → Service W → Service W
  run_job none v = v
  run_job (some (job, rest)) v = record v {
    system = record {
      server = (handle host job.message job.request v.system.server).1;
      jobs = rest;
    };
  }

  -- the turns of Serve, by where it is
  abbrev pub happen : Serving → Event → Service W → Service W
  happen crashed e v = v
  happen s (handler k) v = run_job (pick k v.system.jobs) v
  happen testing test v =
      if v.system.server.error_cnt == 0
      then record v { serving = reading }
      else if v.system.server.error_lock
      then record v { serving = hung }
      else record v { serving = returned v.system.server.error }
  happen reading (arrived m) v =
      let (r, server) = received host m v.system.server in
      record {
        serving = after_received r;
        system = record { server = server; jobs = spawn m r v.system.jobs };
      }
  happen reading (broken e) v =
      let (r, server) = die host e v.system.server in
      record { serving = after_die r server.error; system = record v.system { server = server } }
  happen s e v = v

  -- Serve(), from its first test, with what happens in this order
  unfoldable pub serve : List Event → Service W → Service W
  serve [] v = v
  serve (e ∷ es) v = serve es (happen v.serving e v)

abbrev pub first_test : {W : Type 0} → W → Service W
first_test world = record { serving = testing; system = start world }
