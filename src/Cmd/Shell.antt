-- ===== src/Cmd/Shell.antt =====
-- What the commands of cmd/9pc/main.go share: the paths, the output, the file system of the machine
-- they run on, and what they keep between two calls.
pub mod Paths
use Prim.Native.Char.{Char, code}
use Prim.Native.String.{String}
use text.Mathlib.Text.{◌==◌ as str_eq}
use qptools.Prelude.{
  ℕ, zero, suc, ◌-◌, ◌^◌, Bool, true, false, not, ◌&&◌, ◌||◌, Option, none, some, List, [], ◌∷◌,
  ◌++◌, ◌==◌, if◌then◌else◌, length, bit_and,
}
use qptools.Act.{Act, Error, Result, pure, raise, modify, gets, within, ◌>>=◌}
use qptools.Qp.{Qp, Qid, Stat, StatCodec}
use qptools.Trees.Slice.{Slice}
use qptools.Client.Rpc.{no_such_path}
use qptools.Client.Connection.{Connection}
use qptools.Client.Paths.{split, last, but_last, is_rooted}
use qptools.Client.Simple.{decode_each}

-- One name of a path, after those before it.
unfoldable pub take_name : (names : List String) (name : String) → List String
take_name names name =
    if str_eq name "" || str_eq name "."
    then names
    else if str_eq name ".."
    then elim (last names) [
      | none ↦ names ++ name ∷ []
      | some top ↦ if not (str_eq top "..") then but_last names else names ++ name ∷ []
    ]
    else names ++ name ∷ []

-- the loop
unfoldable pub take_names : (names : List String) → List String → List String
take_names names [] = names
take_names names (s ∷ ss) = take_names (take_name names s) ss

-- parsepath(path): the names, and whether the path is absolute
unfoldable pub parse_path : String → List String × Bool
parse_path path =
    if str_eq path "" then ([], false) else (take_names [] (split path), is_rooted path)

-- The loop of permToString: the letters whose bits are not set become dashes.
unfoldable pub letters : (perms idx : ℕ) → List ℕ → List ℕ
letters perms idx [] = []
letters perms idx (c ∷ cs) =
    let rest = letters perms (suc idx) cs in
    (if bit_and perms (2 ^ (8 - idx)) == 0 then b'-' else c) ∷ rest

abbrev rwx : List ℕ
rwx = b'r' ∷ b'w' ∷ b'x' ∷ []

-- permToString(m), as the list of its bytes
unfoldable pub perm_to_string : Qp → (mode : ℕ) → List ℕ
perm_to_string qp mode =
    (if bit_and mode qp.dmdir == 0 then b'-' else b'd')
    ∷ letters (bit_and mode 511) 0 (rwx ++ (rwx ++ rwx))

-- readdir(b): a slice that ends behind the bytes may still end inside their array, which goes on
-- with `spare`
unfoldable pub read_stats : StatCodec → (spare b : List ℕ) → {S : Type 0} → Act S (List Stat)
read_stats codec spare b = decode_each codec spare (suc (length b)) b

-- What a command prints, on either stream; the texts are fmt's.
pub data Output : Type 0 where
  described : Stat → Output
  listed : (perms : List ℕ) (version length : ℕ) (name : String) → Output
  content : List ℕ → Output
  notice : String → Output
  downloading : (remote local : String) (length : ℕ) → Output
  downloaded : (length : ℕ) → Output
  uploading : (local remote : String) (length : ℕ) → Output
  no_such_command : String → Output
  failed : (command : String) → Error → Output

-- The file system of the machine, from the package os: os.Create, Write of the file that it
-- returned, with the number of bytes that were written, and ioutil.ReadFile.
pub record Local (L : Type 0) : Type 0 where
  pub create : (name : String) → Act L ℕ
  pub write : (file : ℕ) (bytes : List ℕ) → Act L ℕ
  pub read_file : (name : String) → Act L Slice

-- What the commands use of the runtime and of kingpin: the bytes of a string, and the two required
-- arguments of a command, or why they cannot be taken.
pub record Host (L : Type 0) : Type 0 where
  pub files : Local L
  pub bytes : String → Slice
  pub arguments : (command : String) (words : List (List ℕ)) → Result (String × String)

-- The client's state, the machine's, heldFid, and what was printed.
pub record Shell (S L : Type 0) : Type 0 where
  pub connection : S
  pub machine : L
  pub held_fid : Option ℕ
  pub printed : List Output

-- the code points of a string
abbrev pub runes : String → List ℕ
runes String.[] = []
runes (String.◌∷◌ c s) = code c ∷ runes s

module _ {S L : Type 0} where
  abbrev put_connection : S → Shell S L → Shell S L
  put_connection c s = record s { connection = c }

  abbrev put_machine : L → Shell S L → Shell S L
  put_machine m s = record s { machine = m }

  -- a call on the connection
  unfoldable pub remotely : {A : Type 0} → Act S A → Act (Shell S L) A
  unfolding within
  remotely m = within (λ s. s.connection) put_connection m

  -- a call on the machine
  unfoldable pub locally : {A : Type 0} → Act L A → Act (Shell S L) A
  unfolding within
  locally m = within (λ s. s.machine) put_machine m

  unfoldable pub print : Output → Act (Shell S L) (Unit {0})
  unfolding modify
  print o = modify (λ s. record s { printed = s.printed ++ o ∷ [] })

  unfoldable pub hold_fid : Option ℕ → Act (Shell S L) (Unit {0})
  unfolding modify
  hold_fid f = modify (λ s. record s { held_fid = f })

  unfoldable pub held : Act (Shell S L) (Option ℕ)
  unfolding gets
  held = gets (λ s. s.held_fid)

  -- f.Walk(names): without a fid there is an error
  unfoldable pub walk :
      Connection S → (fid : ℕ) (names : List String) → Act (Shell S L) (ℕ × List Qid)
  unfolding ◌>>=◌
  walk conn fid names = do
    (new_fid, qids) ← remotely (conn.walk fid names)
    elim new_fid [ none ↦ raise no_such_path | some f ↦ pure (f, qids) ]
