-- ===== src/Cmd/Commands/Cd.antt =====
-- The command cd, and the fids it opens and clunks.
use Prim.Native.String.{String}
use qptools.Prelude.{ℕ, Bool, List, ◌∷◌}
use qptools.Act.{Act, pure, Error, Outcome, ok, err, panicked, ignore, require, ◌>>=◌}
use qptools.Qp.{Qp}
use qptools.Client.Connection.{Connection}
use qptools.Cmd.Shell.{Host, Shell, remotely}
use qptools.Cmd.Commands.{not_directory}
use qptools.Cmd.Commands.Tracked.{tracked, without}

-- How cd ends: its outcome, and the fids after it, for those before it.
pub data Changed (cwd : ℕ) (fs : List ℕ) : Outcome ℕ → List ℕ → Type 0 where
  -- the working directory is a new fid, and the old one is clunked
  moved : (f : ℕ) → Changed cwd fs (ok f) (without cwd (f ∷ fs))
  -- the walk failed
  refused : (e : Error) → Changed cwd fs (err e) fs
  -- not a directory: the fid of the walk stays open
  left_open : (f : ℕ) → Changed cwd fs (err not_directory) (f ∷ fs)
  -- the walk had no qids: an index out of range
  crashed : (f : ℕ) → Changed cwd fs panicked (f ∷ fs)
  -- a call of the connection panicked
  broken : (gs : List ℕ) → Changed cwd fs panicked gs

module _ (qp : Qp) {S L : Type 0} (conn : Connection S) (host : Host L) where
  after_clunk : (f : ℕ) (r : Outcome (Unit {0})) → Act (Shell (S × List ℕ) L) ℕ
  after_clunk f r = ignore (λ s. (r, s)) >>= λ _. pure f

  entered : (b : Bool) (cwd f : ℕ) → Act (Shell (S × List ℕ) L) ℕ
  entered b cwd f =
      require b not_directory >>= λ _. ignore (remotely ((tracked conn).clunk cwd)) >>= λ _. pure f
