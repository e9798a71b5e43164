-- ===== src/Cmd/Main/Fids.antt =====
-- The fids that a session of cmd/9pc leaves open.
use Prim.Native.String.{String}
use qptools.Prelude.{
  ℕ, ◌≡◌, Bool, true, false, Option, none, some, Option-cases, inl, inr, List, [], ◌∷◌,
}
use qptools.Act.Keeps.{Ends, Keeps, Keeps-pure, Keeps-bind, Keeps-attempt_then}
use qptools.Qp.{Qp, StatCodec}
use qptools.Client.Connection.{Connection}
use qptools.Cmd.Shell.{Host, Shell}
use qptools.Cmd.Commands.Tracked.{tracked, fids, Keeps-print}
use qptools.Cmd.Commands.Kept.{
  Keeps-stat, Keeps-ls, Keeps-cat, Keeps-get, Keeps-put, Keeps-mkdir, Keeps-rm, Keeps-stuff,
}
use qptools.Cmd.Main.{Command, named, cut, run, perform, interact}

-- A command that is meant to use a fid only while it runs.
abbrev pub is_passing : Command → Bool
is_passing Command.cd = false
is_passing Command.hold = false
is_passing Command.unhold = false
is_passing _ = true

abbrev passes : Option Command → Bool
passes none = true
passes (some c) = is_passing c

-- The lines name no other commands.
pub data Passing : List String → Type 0 where
  over : Passing []
  line :
      {l : String} {ls : List String}
      → passes (named (cut l).0) ≡ true
      → Passing ls
      → Passing (l ∷ ls)

module _ (qp : Qp) {S L : Type 0} (conn : Connection S) (host : Host L) (codec : StatCodec)
    (spare : List ℕ) (size : ℕ) where
  run-Keeps :
      (c : Command) (root cwd : ℕ) (args : String)
      → is_passing c ≡ true
      → Keeps fids (run qp (tracked conn) host codec spare size c root cwd args)
  unfolding run
  run-Keeps Command.stat root cwd args e = Keeps-stat qp conn host root cwd args
  run-Keeps Command.ls root cwd args e = Keeps-ls qp conn host codec spare size root cwd args
  run-Keeps Command.cd root cwd args e = absurd (cc e)
  run-Keeps Command.cat root cwd args e = Keeps-cat qp conn host size root cwd args
  run-Keeps Command.get root cwd args e = Keeps-get qp conn host size root cwd args
  run-Keeps Command.put root cwd args e = Keeps-put qp conn host size root cwd args
  run-Keeps Command.mkdir root cwd args e = Keeps-mkdir qp conn host root cwd args
  run-Keeps Command.rm root cwd args e = Keeps-rm qp conn host root cwd args
  run-Keeps Command.hold root cwd args e = absurd (cc e)
  run-Keeps Command.unhold root cwd args e = absurd (cc e)
  run-Keeps Command.stuff root cwd args e = Keeps-stuff qp conn host size root cwd args

  perform-Keeps :
      (name args : String) (root cwd : ℕ)
      → passes (named name) ≡ true
      → Keeps fids (perform qp (tracked conn) host codec spare size name args root cwd)
  unfolding perform
  perform-Keeps name args root cwd h = elim (Option-cases (named name)) [
    | inl e ↦ rw (perform, e) (Keeps-bind (Keeps-print _) (λ u. Keeps-pure cwd))
    | inr (c, e) ↦
        rw (perform, e)
          (Keeps-attempt_then _ (run-Keeps c root cwd args (rw e at h)) Keeps-pure
            (λ why. Keeps-bind (Keeps-print _) (λ u. Keeps-pure cwd)))
  ]

  interact-Keeps :
      (root cwd : ℕ) (lines : List String)
      → Passing lines
      → Keeps fids (interact qp (tracked conn) host codec spare size root cwd lines)
  unfolding interact
  interact-Keeps root cwd [] over = Keeps-pure cwd
  interact-Keeps root cwd (l ∷ ls) (line h more) =
      Keeps-bind (perform-Keeps (cut l).0 (cut l).1 root cwd h)
        (λ cwd'. interact-Keeps root cwd' ls more)

  -- A session in which no line names cd, hold or unhold, of any length, with failed commands and
  -- unknown names in it, leaves open the fids that were open before it, whatever the connection and
  -- the machine return, unless a call blocks for ever or a loop has no round left.
  pub interact-fids :
      (root cwd : ℕ) (lines : List String) (s : Shell (S × List ℕ) L)
      → Passing lines
      → Ends (interact qp (tracked conn) host codec spare size root cwd lines s).0
      → fids (interact qp (tracked conn) host codec spare size root cwd lines s).1 ≡ fids s
  interact-fids root cwd lines s p e = (interact-Keeps root cwd lines p).at s e
