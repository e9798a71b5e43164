-- ===== src/Cmd/Main.antt =====
-- main of cmd/9pc/main.go: the map of the commands, the loop over the lines, and the setup. The lines
-- that readline returns before its error are an argument, and so are the words of the command line.
pub mod Fids
use Prim.Native.Char.{Char, code}
use Prim.Native.String.{String, ◌++◌ as then_text}
use text.Mathlib.Text.{◌==◌ as str_eq}
use qptools.Prelude.{ℕ, ◌*◌, Option, none, some, List, [], ◌∷◌, ◌==◌, if◌then◌else◌}
use qptools.Act.{Act, value, failure, pure, attempt, ◌>>=◌, ◌>>◌}
use qptools.Qp.{Qp, StatCodec}
use qptools.Client.Rpc.{Peer, Client}
use qptools.Client.Fid.{negotiate_version, attach_fid}
use qptools.Client.Connection.{Connection}
use qptools.Cmd.Shell.{Host, Shell, print, no_such_command, failed}
use qptools.Cmd.Commands as Commands

-- the keys of cmds
pub data Command : Type 0 where
  stat : Command
  ls : Command
  cd : Command
  cat : Command
  get : Command
  put : Command
  mkdir : Command
  rm : Command
  hold : Command
  unhold : Command
  stuff : Command

unfoldable pub named : String → Option Command
named s =
    if str_eq s "stat"
    then some Command.stat
    else if str_eq s "ls"
    then some Command.ls
    else if str_eq s "cd"
    then some Command.cd
    else if str_eq s "cat"
    then some Command.cat
    else if str_eq s "get"
    then some Command.get
    else if str_eq s "put"
    then some Command.put
    else if str_eq s "mkdir"
    then some Command.mkdir
    else if str_eq s "rm"
    then some Command.rm
    else if str_eq s "hold"
    then some Command.hold
    else if str_eq s "unhold"
    then some Command.unhold
    else if str_eq s "stuff"
    then some Command.stuff
    else none

-- the line up to its first space, and what follows that
abbrev pub extend : Char → String × String → String × String
extend c (name, args) = (String.◌∷◌ c name, args)

unfoldable pub cut : (line : String) → String × String
cut String.[] = ("", "")
cut (String.◌∷◌ c line) =
    let rest = cut line in if code c == b' ' then ("", line) else extend c rest

-- the arguments of the command line, with spaces between them
abbrev pub spaced : List String → String
spaced [] = ""
spaced (s ∷ []) = s
spaced (s ∷ t ∷ ss) = then_text s (then_text " " (spaced (t ∷ ss)))

module _ (qp : Qp) {S L : Type 0} (conn : Connection S) (host : Host L) (codec : StatCodec)
    (spare : List ℕ) (size : ℕ) where
  -- the values of cmds
  unfoldable pub run : Command → (root cwd : ℕ) (line : String) → Act (Shell S L) ℕ
  run Command.stat = Commands.stat qp conn host
  run Command.ls = Commands.ls qp conn host codec spare size
  run Command.cd = Commands.cd qp conn host
  run Command.cat = Commands.cat qp conn host size
  run Command.get = Commands.get qp conn host size
  run Command.put = Commands.put qp conn host size
  run Command.mkdir = Commands.mkdir qp conn host
  run Command.rm = Commands.rm qp conn host
  run Command.hold = Commands.hold qp conn host
  run Command.unhold = Commands.unhold qp conn host
  run Command.stuff = Commands.stuff qp conn host size

  -- A command, whose error is printed; the new working directory.
  unfoldable pub perform : (name args : String) (root cwd : ℕ) → Act (Shell S L) ℕ
  perform name args root cwd = elim (named name) [
    | none ↦ do print (no_such_command name); pure cwd
    | some c ↦ do
      r ← attempt (run c root cwd args)
      elim r [ value f ↦ pure f | failure e ↦ do print (failed name e); pure cwd ]
  ]

  -- the loop
  unfoldable pub interact : (root cwd : ℕ) (lines : List String) → Act (Shell S L) ℕ
  interact root cwd [] = pure cwd
  interact root cwd (line ∷ lines) = do
    let (name, args) = cut line
    cwd' ← perform name args root cwd
    interact root cwd' lines

  -- what follows the setup: the command of the arguments, or the loop
  unfoldable pub main_loop : (root : ℕ) (command lines : List String) → Act (Shell S L) ℕ
  main_loop root [] lines = interact root root lines
  main_loop root (name ∷ args) lines = perform name (spaced args) root root

-- the setup on a new client: the fid of the root
unfoldable pub start : Qp → {W : Type 0} → Peer W → (user service : String) → Act (Client W) ℕ
unfolding ◌>>=◌
start qp peer user service = do
  (msgsize, version) ← negotiate_version qp peer (1024 * 1024) qp.version
  (root, qid) ← attach_fid qp peer none user service
  pure root
