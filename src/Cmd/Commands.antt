-- ===== src/Cmd/Commands.antt =====
-- The commands of cmd/9pc/main.go, over any implementation of the interface Fid. Each returns the fid
-- of the working directory; an error comes with the fid that the command was given. An argument
-- `size` bounds the rounds of a loop.
pub mod Tracked
pub mod Kept
pub mod Cd
pub mod Reading
pub mod Listing
pub mod Download
use Prim.Native.String.{String}
use text.Mathlib.Text.{◌==◌ as str_eq}
use qptools.Prelude.{
  ℕ, zero, suc, ◌+◌, ◌%◌, ◌^◌, Bool, true, false, not, Option, none, some, List, [], ◌∷◌, ltb, ◌==◌,
  if◌then◌else◌, length, drop, is_some, bit_and, bit_or, pos,
}
use qptools.Act.{
  Act, Error, reason, Result, value, failure, pure, raise, panic, block, attempt, ignore, require,
  or_raise, ◌>>=◌, ◌>>◌,
}
use qptools.Qp.{Qp, Qid, Stat, StatCodec}
use qptools.Trees.Slice.{Slice}
use qptools.Client.Connection.{Connection}
use qptools.Client.Wrapped.{read_all, write_to}
use qptools.Client.Paths.{last, but_last}
use qptools.Client.Simple.{deferring}
use qptools.Cmd.Parse.{parse_command_line}
use qptools.Cmd.Shell.{
  parse_path, perm_to_string, read_stats, Output, described, listed, content, notice, downloading,
  downloaded, uploading, Host, Shell, runes, remotely, locally, print, hold_fid, held, walk,
}
use qptools.Cmd.Sorting.{sort_stats}

abbrev pub need_destination : Error
need_destination = reason "need a destination"

abbrev pub not_directory : Error
not_directory = reason "not a directory"

abbrev pub already_holding : Error
already_holding = reason "Already holding fid"

abbrev pub none_held : Error
none_held = reason "No fid held"

abbrev pub is_directory : Error
is_directory = reason "file is a directory"

abbrev pub last_qid : List Qid → Option Qid
last_qid [] = none
last_qid (q ∷ []) = some q
last_qid (q ∷ r ∷ qs) = last_qid (r ∷ qs)

module _ (qp : Qp) {S L : Type 0} (conn : Connection S) (host : Host L) where
  -- if absolute { f = root }
  abbrev pub start_at : (absolute : Bool) (root cwd : ℕ) → ℕ
  start_at absolute root cwd = if absolute then root else cwd

  -- defer f.Clunk()
  abbrev pub clunking : {A : Type 0} → (f : ℕ) → Act (Shell S L) A → Act (Shell S L) A
  clunking f m = deferring (remotely (conn.clunk f)) m

  -- what a pair of a value and an error returns
  abbrev pub returned : {A : Type 0} → A × Option Error → Act (Shell S L) A
  returned (a, none) = pure a
  returned (a, some e) = raise e

  abbrev pub accepted : {A : Type 0} → Result A → Act (Shell S L) A
  accepted (value a) = pure a
  accepted (failure e) = raise e

  unfoldable pub describe : (f : ℕ) → Act (Shell S L) (Unit {0})
  describe f = do s ← remotely (conn.stat f); print (described s)

  unfoldable pub stat : (root cwd : ℕ) (line : String) → Act (Shell S L) ℕ
  stat root cwd line = if str_eq line "" then (do describe cwd; pure cwd) else (do
    let path = parse_path line
    (f, qids) ← walk conn (start_at path.1 root cwd) path.0
    clunking f (do describe f; pure cwd))

  -- what the last loop of ls prints
  unfoldable pub print_stats : List Stat → Act (Shell S L) (Unit {0})
  print_stats [] = pure tt
  print_stats (s ∷ ss) = do
    print (listed (perm_to_string qp s.mode) s.qid.version s.length s.name)
    print_stats ss

  abbrev pub print_sorted : Option (List Stat) → Act (Shell S L) (Unit {0})
  print_sorted none = panic
  print_sorted (some stats) = print_stats stats

  -- the part of ls on the opened fid
  unfoldable pub list_opened :
      (codec : StatCodec) (spare : List ℕ) (size f : ℕ) → Act (Shell S L) (Unit {0})
  list_opened codec spare size f = do
    r ← remotely (read_all conn size f)
    b ← returned r
    stats ← read_stats codec spare b
    print_sorted (sort_stats qp (length stats) stats)

  unfoldable pub ls :
      (codec : StatCodec) (spare : List ℕ) (size root cwd : ℕ) (line : String) → Act (Shell S L) ℕ
  ls codec spare size root cwd line = do
    let path = parse_path line
    (f, qids) ← walk conn (start_at path.1 root cwd) path.0
    clunking f (do remotely (conn.open_mode f qp.oread); list_opened codec spare size f; pure cwd)

  -- What cd does with the fid that it walked to: the index of the last qid is negative when there is
  -- none.
  unfoldable pub enter : (cwd f : ℕ) → Option Qid → Act (Shell S L) ℕ
  enter cwd f none = panic
  enter cwd f (some q) = do
    require (q.kind == qp.qtdir) not_directory
    ignore (remotely (conn.clunk cwd))
    pure f

  unfoldable pub cd : (root cwd : ℕ) (line : String) → Act (Shell S L) ℕ
  cd root cwd line = do
    let path = parse_path line
    (f, qids) ← walk conn (start_at path.1 root cwd) path.0
    enter cwd f (last_qid qids)

  -- the loop of cat
  unfoldable pub print_from : (size f off : ℕ) → Act (Shell S L) (Unit {0})
  print_from zero f off = block
  print_from (suc size) f off = do
    b ← remotely (conn.read f off 1024)
    elim (length b == 0) [
      | true ↦ pure tt
      | false ↦ do print (content b); print_from size f ((off + length b) % 2 ^ 64)
    ]

  unfoldable pub cat : (size root cwd : ℕ) (line : String) → Act (Shell S L) ℕ
  cat size root cwd line = do
    let path = parse_path line
    (f, qids) ← walk conn (start_at path.1 root cwd) path.0
    clunking f (do
      remotely (conn.open_mode f qp.oread)
      print_from size f 0
      print (notice "\n")
      pure cwd)

  unfoldable pub hold : (root cwd : ℕ) (line : String) → Act (Shell S L) ℕ
  hold root cwd line = do
    holding ← held
    require (not (is_some holding)) already_holding
    let path = parse_path line
    (f, qids) ← walk conn (start_at path.1 root cwd) path.0
    hold_fid (some f)
    print (notice "Holding fid\n")
    pure cwd

  unfoldable pub unhold : (root cwd : ℕ) (line : String) → Act (Shell S L) ℕ
  unhold root cwd line = do
    holding ← held
    f ← or_raise holding none_held
    ignore (remotely (conn.clunk f))
    hold_fid none
    print (notice "Releasing fid\n")
    pure cwd

  -- parseCommandLine and kingpin on the arguments of a command
  unfoldable pub two_arguments :
      (command : String) (line : String) → Act (Shell S L) (String × String)
  two_arguments command line = do
    words ← (λ s. (parse_command_line (runes line), s))
    accepted (host.arguments command words)

  -- wf.WriteAt(content, 0)
  unfoldable pub upload : (size f : ℕ) (bytes : Slice) → Act (Shell S L) ℕ
  upload size f bytes = do
    r ← remotely (write_to conn qp.write_overhead size f bytes (pos 0))
    returned r

  unfoldable pub stuff : (size root cwd : ℕ) (line : String) → Act (Shell S L) ℕ
  stuff size root cwd line = do
    (text, target) ← two_arguments "stuff" line
    let path = parse_path target
    require (not (length path.0 == 0)) need_destination
    (f, qids) ← walk conn (start_at path.1 root cwd) path.0
    clunking f (do remotely (conn.open_mode f qp.owrite); upload size f (host.bytes text); pure cwd)

  -- the loop of get: a count past the end of the bytes would be a panic
  unfoldable pub save : (size file : ℕ) (bytes : List ℕ) → Act (Shell S L) (Unit {0})
  save size file [] = pure tt
  save zero file (b ∷ bs) = block
  save (suc size) file (b ∷ bs) = do
    n ← locally (host.files.write file (b ∷ bs))
    elim (ltb (length (b ∷ bs)) n) [ true ↦ panic | false ↦ save size file (drop n (b ∷ bs)) ]

  -- the part of get on the fid
  unfoldable pub download : (size file f : ℕ) (remote local : String) → Act (Shell S L) (Unit {0})
  download size file f remote local = do
    s ← remotely (conn.stat f)
    require (bit_and s.mode qp.dmdir == 0) is_directory
    remotely (conn.open_mode f qp.oread)
    print (downloading remote local s.length)
    r ← remotely (read_all conn size f)
    bytes ← returned r
    print (downloaded (length bytes))
    save size file bytes

  unfoldable pub get : (size root cwd : ℕ) (line : String) → Act (Shell S L) ℕ
  get size root cwd line = do
    (remote, local) ← two_arguments "get" line
    let path = parse_path remote
    file ← locally (host.files.create local)
    (f, qids) ← walk conn (start_at path.1 root cwd) path.0
    clunking f (do download size file f remote local; pure cwd)

  -- the last part of put
  unfoldable pub upload_as :
      (size f : ℕ) (bytes : Slice) (local remote : String) → Act (Shell S L) (Unit {0})
  upload_as size f bytes local remote = do
    print (uploading local remote bytes.len)
    upload size f bytes
    pure tt

  -- the branch of put for a file that could not be created
  unfoldable pub put_over :
      (size f : ℕ) (name : String) (bytes : Slice) (local remote : String)
      → Act (Shell S L) (Unit {0})
  put_over size f name bytes local remote = do
    (f', qids) ← walk conn f (name ∷ [])
    clunking f' (do
      remotely (conn.open_mode f' (bit_or qp.otrunc qp.owrite))
      upload_as size f' bytes local remote)

  -- When the file cannot be created it is opened.
  unfoldable pub put_at :
      (size f : ℕ) (name : String) (bytes : Slice) (local remote : String)
      → Act (Shell S L) (Unit {0})
  put_at size f name bytes local remote = do
    r ← attempt (remotely (conn.make f name 438 qp.owrite))
    elim r [
      | value made ↦ upload_as size f bytes local remote
      | failure e ↦ put_over size f name bytes local remote
    ]

  unfoldable pub put : (size root cwd : ℕ) (line : String) → Act (Shell S L) ℕ
  put size root cwd line = do
    (local, remote) ← two_arguments "put" line
    bytes ← locally (host.files.read_file local)
    let path = parse_path remote
    name ← or_raise (last path.0) need_destination
    (f, qids) ← walk conn (start_at path.1 root cwd) (but_last path.0)
    clunking f (do put_at size f name bytes local remote; pure cwd)

  unfoldable pub mkdir : (root cwd : ℕ) (line : String) → Act (Shell S L) ℕ
  mkdir root cwd line = do
    let path = parse_path line
    name ← or_raise (last path.0) need_destination
    (f, qids) ← walk conn (start_at path.1 root cwd) (but_last path.0)
    clunking f (do remotely (conn.make f name (bit_or 438 qp.dmdir) qp.oread); pure cwd)

  unfoldable pub rm : (root cwd : ℕ) (line : String) → Act (Shell S L) ℕ
  rm root cwd line = do
    let path = parse_path line
    require (not (length path.0 == 0)) need_destination
    (f, qids) ← walk conn (start_at path.1 root cwd) path.0
    remotely (conn.remove f)
    pure cwd
