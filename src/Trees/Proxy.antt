-- ===== src/Trees/Proxy.antt =====
-- ProxyFile of fileserver/trees/proxyfile.go: a file of the operating system, whose calls are a
-- parameter. The lock of the file information is only held around single reads and writes of it.
pub mod Listing
pub mod Fast
pub mod Laws
pub mod Names
pub mod Tests
use Prim.Native.String.{String, ◌++◌ as then_text}
use text.Mathlib.Text.{◌==◌ as str_eq}
use qptools.Prelude.{
  ℕ, zero, suc, ◌+◌, ◌-◌, ◌/◌, ◌%◌, ◌^◌, Bool, true, false, not, ◌&&◌, Option, none, some, List, [],
  ◌∷◌, ◌++◌, map, ltb, ◌==◌, if◌then◌else◌, ℤ, pos, bit_and, bit_or,
}
use qptools.Act.{
  Act, Error, reason, message, Outcome, ok, err, Result, value, failure, pure, raise, panic,
  attempt, ignore, require, gets, modify, within, ◌>>=◌, ◌>>◌,
}
use qptools.Qp.{Qp, Qid, Stat, StatCodec}
use qptools.Client.Paths.{split, join, is_rooted, resolve, filled, or_dot, dir, base}
use qptools.Client.Simple.{deferring}
use qptools.Trees.Listing.{does_not_fit, is_start}

-- What the source uses of an os.FileInfo; a time is counted in nanoseconds from 1970 on.
pub record Info : Type 0 where
  pub name : String
  pub size : ℕ
  pub mode : ℕ
  pub mod_time : ℕ
  pub is_dir : Bool

-- The flags and the calls of the package os, and the first eight bytes of the SHA-224 sum of a
-- string, low first.
pub record Os (L : Type 0) : Type 0 where
  pub rdonly : ℕ
  pub wronly : ℕ
  pub rdwr : ℕ
  pub trunc : ℕ
  pub creat : ℕ
  pub excl : ℕ
  pub stat : (path : String) → Act L Info
  pub is_not_exist : Error → Bool
  pub open_file : (path : String) (flags perms : ℕ) → Act L ℕ
  pub read_dir : (file : ℕ) → Act L (List Info)
  pub close : (file : ℕ) → Act L (Unit {0})
  pub mkdir : (path : String) (perms : ℕ) → Act L (Unit {0})
  pub remove : (path : String) → Act L (Unit {0})
  pub rename : (old_path new_path : String) → Act L (Unit {0})
  pub sum : String → ℕ

-- filepath.Clean
abbrev pub clean : String → String
clean path =
    if is_rooted path
    then then_text "/" (join (resolve true [] (split path)))
    else or_dot (join (resolve false [] (split path)))

-- filepath.Join, which passes over the empty names
unfoldable pub join_path : List String → String
join_path names = joined (filled names)
  where
    joined : List String → String
    joined [] = ""
    joined (s ∷ ss) = clean (join (s ∷ ss))

-- the object of a ProxyFile
pub record Proxy : Type 0 where
  -- the 32 bits of the counter
  pub caching : ℕ
  pub root : String
  pub path : String
  pub info : Option Info
  pub user : String
  pub group : String

-- NewProxyFile
abbrev pub new_proxy : (root path user group : String) → Proxy
new_proxy root path user group = record {
  caching = 0;
  root = root;
  path = path;
  info = none;
  user = user;
  group = group;
}

-- openMode2Flag
unfoldable pub open_mode_flag : Qp → {L : Type 0} → Os L → (mode : ℕ) → ℕ
open_mode_flag qp os mode =
    let access = bit_and mode 15 in
    let flag : ℕ =
      if access == qp.oread
      then os.rdonly
      else if access == qp.owrite
      then os.wronly
      else if access == qp.ordwr
      then os.rdwr
      else if access == qp.oexec
      then os.rdonly
      else 0 in
    if bit_and mode 240 == qp.otrunc then bit_or flag os.trunc else flag

-- a ProxyFile with the machine
pub record World (L : Type 0) : Type 0 where
  pub file : Proxy
  pub machine : L

module _ {L : Type 0} where
  abbrev put_machine : L → World L → World L
  put_machine l w = record w { machine = l }

  -- a call of the operating system
  unfoldable pub on_machine : {A : Type 0} → Act L A → Act (World L) A
  unfolding within
  on_machine m = within (λ w. w.machine) put_machine m

  unfoldable pub store_info : Option Info → Act (World L) (Unit {0})
  unfolding modify
  store_info i = modify (λ w. record w { file = record w.file { info = i } })

  unfoldable pub this : Act (World L) Proxy
  unfolding gets
  this = gets (λ w. w.file)

  -- pf.info, which must not be nil
  abbrev pub present : Option Info → Act (World L) Info
  present none = panic
  present (some i) = pure i

  -- cache(t)
  unfoldable pub cache : Bool → Act (World L) (Unit {0})
  unfolding modify
  cache t = modify (λ w. record w {
    file = record w.file {
      caching =
          (if t then (w.file.caching + 1) % 2 ^ 32 else (w.file.caching + (2 ^ 32 - 1)) % 2 ^ 32);
    };
  })

-- how an error of the operating system is passed on
abbrev pub wrapped_error : String → Error → Error
wrapped_error text e = reason (then_text text (message e))

-- the Qid.Path of a file
abbrev pub path_number : {L : Type 0} → Os L → (root path : String) → ℕ
path_number os root path = os.sum (join_path (root ∷ path ∷ []))

-- stat(info)
unfoldable pub stat_of : Qp → {L : Type 0} → Os L → Proxy → Info → Stat
stat_of qp os pf info = record {
  kind = 0;
  dev = 0;
  qid = record {
    kind = if info.is_dir then qp.qtdir else 0;
    version = info.mod_time / 1000000 % 2 ^ 32;
    path = path_number os pf.root pf.path;
  };
  mode = if info.is_dir then bit_or (bit_and info.mode 511) qp.dmdir else bit_and info.mode 511;
  atime = info.mod_time / 1000000000 % 2 ^ 32;
  mtime = info.mod_time / 1000000000 % 2 ^ 32;
  length = if info.is_dir then 0 else info.size % 2 ^ 64;
  name = base pf.path;
  uid = pf.user;
  gid = pf.group;
  muid = pf.user;
}

-- the ProxyFile that a listing makes for an entry
abbrev pub entry_file : Proxy → Info → Proxy
entry_file pf info = new_proxy pf.root info.name pf.user pf.group

abbrev pub not_directory : Error
not_directory = reason "not a directory"

-- What Open returns: a handle that lists the directory, or an open file.
pub data Opened : Type 0 where
  directory : Opened
  file : ℕ → Opened

-- the loop of List
unfoldable pub entries : Qp → {L : Type 0} → Os L → Proxy → List Info → List Stat
entries qp os pf [] = []
entries qp os pf (info ∷ infos) =
    let rest = entries qp os pf infos in stat_of qp os (entry_file pf info) info ∷ rest

module _ (qp : Qp) {L : Type 0} (os : Os L) where
  -- updateInfo()
  unfoldable pub update_info : Act (World L) (Unit {0})
  update_info = do
    pf ← this
    elim (ltb 0 pf.caching && ltb pf.caching (2 ^ 31)) [
      | true ↦ pure tt
      | false ↦ do r ← attempt (on_machine (os.stat (join_path (pf.root ∷ pf.path ∷ [])))); stored r
    ]
    where
      stored : Result Info → Act (World L) (Unit {0})
      stored (value i) = store_info (some i)
      stored (failure e) = do store_info none; raise e

  -- the information after updateInfo()
  unfoldable pub current_info : Act (World L) Info
  current_info = do update_info; pf ← this; present pf.info

  -- Qid()
  unfoldable pub qid : Act (World L) Qid
  qid = do
    info ← current_info
    pf ← this
    pure (record {
      kind = if info.is_dir then qp.qtdir else 0;
      version = info.mod_time / 1000000 % 2 ^ 32;
      path = path_number os pf.root pf.path;
    })

  -- Name()
  unfoldable pub get_name : Act (World L) String
  get_name = do pf ← this; pure (if str_eq pf.path "" then "/" else base pf.path)

  -- SetLength, SetOwner and SetMode
  unfoldable pub ignored_change : Act (World L) (Unit {0})
  ignored_change = pure tt

  -- SetName(user, name)
  unfoldable pub set_name : (user name : String) → Act (World L) (Unit {0})
  unfolding modify
  set_name user name = modify (λ w.
      if not (str_eq name "") && not (str_eq name (base w.file.path))
      then record w { file = record w.file { path = join_path (dir w.file.path ∷ name ∷ []) } }
      else w)

  -- Stat()
  unfoldable pub stat : Act (World L) Stat
  stat = do info ← current_info; pf ← this; pure (stat_of qp os pf info)

  -- IsDir()
  unfoldable pub is_dir : Act (World L) Bool
  is_dir = do info ← current_info; pure info.is_dir

  -- a call whose error is passed on with a text
  unfoldable pub explained : {A : Type 0} (text : String) → Act (World L) A → Act (World L) A
  explained text m = do
    r ← attempt m
    elim r [ value a ↦ pure a | failure e ↦ raise (wrapped_error text e) ]

  -- DirectList()
  unfoldable pub direct_list : Act (World L) (List Info)
  direct_list = do
    isdir ← explained "could not inspect file: " is_dir
    require isdir not_directory
    pf ← this
    f ← explained "could not open directory for reading: " (
        on_machine
          (os.open_file (join_path (pf.root ∷ pf.path ∷ [])) (open_mode_flag qp os qp.oread) 0))
    deferring (on_machine (os.close f))
        (explained "could not read directory listing: " (on_machine (os.read_dir f)))

  -- List(user)
  unfoldable pub list : (user : String) → Act (World L) (List Stat)
  list user = do
    isdir ← explained "could not inspect file: " is_dir
    require isdir not_directory
    pf ← this
    f ← explained "could not open directory for reading: " (
        on_machine
          (os.open_file (join_path (pf.root ∷ pf.path ∷ [])) (open_mode_flag qp os qp.oread) 0))
    deferring (on_machine (os.close f)) (do
      infos ← explained "could not read directory listing: " (on_machine (os.read_dir f))
      pure (entries qp os pf infos))

  -- Open(user, mode)
  unfoldable pub open_proxy : (user : String) (mode : ℕ) → Act (World L) Opened
  open_proxy user mode = do
    update_info
    cache true
    deferring (cache false) (do
      listed ← is_dir
      pf ← this
      if listed then pure directory else (do
        f ←
            on_machine
              (os.open_file (join_path (pf.root ∷ pf.path ∷ [])) (open_mode_flag qp os mode) 0)
        pure (file f)))

  -- CanRemove() and Arrived(user)
  unfoldable pub can_remove : Act (World L) Bool
  can_remove = pure true

  unfoldable pub arrived : (user : String) → Act (World L) (Option Proxy)
  arrived user = pure none

  -- Walk(user, name)
  unfoldable pub walk : (user name : String) → Act (World L) (Option Proxy)
  walk user name = do
    pf ← this
    let p = join_path (pf.path ∷ name ∷ [])
    r ← attempt (on_machine (os.stat (join_path (pf.root ∷ p ∷ []))))
    found (new_proxy pf.root p pf.user pf.group) r
    where
      found : Proxy → Result Info → Act (World L) (Option Proxy)
      found new (value info) = pure (some new)
      found new (failure e) = if os.is_not_exist e then pure none else raise e

  -- Create(user, name, perms)
  unfoldable pub create : (user name : String) (perms : ℕ) → Act (World L) Proxy
  create user name perms = do
    pf ← this
    let p = join_path (pf.path ∷ name ∷ [])
    if not (bit_and perms qp.dmdir == 0)
        then on_machine (os.mkdir (join_path (pf.root ∷ p ∷ [])) (bit_and perms 511))
        else (do
          f ← on_machine (
              os.open_file (join_path (pf.root ∷ p ∷ [])) (bit_or os.creat os.excl)
                (bit_and perms 511))
          ignore (on_machine (os.close f)))
    pure (new_proxy pf.root p pf.user pf.group)

  -- Remove(user, name)
  unfoldable pub remove : (user name : String) → Act (World L) (Unit {0})
  remove user name = do
    pf ← this
    on_machine (os.remove (join_path (pf.root ∷ pf.path ∷ name ∷ [])))

  -- Rename(user, oldname, newname)
  unfoldable pub rename : (user old_name new_name : String) → Act (World L) (Unit {0})
  rename user old_name new_name = do
    pf ← this
    on_machine (
        os.rename (join_path (pf.root ∷ pf.path ∷ old_name ∷ []))
          (join_path (pf.root ∷ pf.path ∷ new_name ∷ [])))
