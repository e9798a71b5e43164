-- ===== src/Fileserver/System.antt =====
-- The server at work: messages arrive, and the handlers that `received` starts in goroutines run in
-- any order. Each handler is one step here: what runs between two handlers is not split further.
pub mod Inv
pub mod Kept
pub mod Receive
pub mod Once
pub mod Flushed
use qptools.Prelude.{
  ℕ, suc, ◌≡◌, Option, none, some, Bool, List, [], ◌∷◌, ◌++◌, map, ◌==◌, if◌then◌else◌,
}
use qptools.Act.{Outcome, ok, err, panicked, blocked}
use qptools.Qp.{Request as Message}
use qptools.Fileserver.State.{Request, Sent, Server, Host, new}
use qptools.Fileserver.Dispatch.{received, handle}

-- A handler that has been started and has not run yet.
pub record Job : Type 0 where
  pub message : Message
  pub request : Request

pub record System (W : Type 0) : Type 0 where
  pub server : Server W
  pub jobs : List Job

-- The goroutine that a message starts, if `received` returned one.
abbrev pub spawn : Message → Outcome (Option Request) → List Job → List Job
spawn m (ok (some rs)) jobs = (record { message = m; request = rs }) ∷ jobs
spawn m (ok none) jobs = jobs
spawn m (err e) jobs = jobs
spawn m panicked jobs = jobs
spawn m blocked jobs = jobs

module _ {W : Type 0} (host : Host W) where
  pub data Step : System W → System W → Type 0 where
    receive :
        (m : Message) (server : Server W) (jobs : List Job)
        → Step
            (record { server = server; jobs = jobs })
            (record {
              server = (received host m server).1;
              jobs = spawn m (received host m server).0 jobs;
            })
    run :
        (job : Job) (server : Server W) (before after : List Job)
        → Step
            (record { server = server; jobs = before ++ job ∷ after })
            (record {
              server = (handle host job.message job.request server).1;
              jobs = before ++ after;
            })

  pub data Reach (from : System W) : System W → Type 0 where
    here : Reach from from
    next : {s t : System W} → Reach from s → Step s t → Reach from t

-- A server before its first message.
abbrev pub start : {W : Type 0} → W → System W
start world = record { server = new world; jobs = [] }

abbrev pub count : ℕ → List ℕ → ℕ
count i [] = 0
count i (j ∷ js) = if j == i then suc (count i js) else count i js

-- How many responses a request has been sent.
abbrev pub answers : {W : Type 0} → ℕ → Server W → ℕ
answers i s = count i (map (λ x. x.request) s.sent)
