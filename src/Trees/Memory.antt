-- ===== src/Trees/Memory.antt =====
-- A tree of SyntheticDirs and SyntheticFiles, as cmd/ramfs serves it: the objects of
-- fileserver/trees/syntheticdir.go, syntheticfile.go and listhandle.go in one store. An even address
-- is that of a directory or of a ListHandle, an odd one that of a file or of a SyntheticHandle.
pub mod Whole
pub mod Actions
pub mod Methods
pub mod Entries
pub mod Handles
pub mod Opening
pub mod Calls
mod Tests
use qptools.Prelude.{
  ℕ, ◌+◌, ◌*◌, ◌%◌, ◌^◌, String, Bool, true, false, Option, none, some, List, [], ◌∷◌, ◌==◌,
  if◌then◌else◌, ℤ,
}
use qptools.Prelude.Maps.{Map, lookup, insert, nat_key}
use qptools.Act.{Act, Error, Outcome, ok, pure, panic, raise, reason, ◌>>=◌, ◌>>◌}
use qptools.Qp.{Qp, Qid, Stat, StatCodec}
use qptools.Trees.{Tree}
use qptools.Trees.Dir.{Dir, Elements, empty_dir, on_self}
use qptools.Trees.Dir as Dirs
use qptools.Trees.File.{File, Handle, next_id, file_qid, file_stat, open_synthetic}
use qptools.Trees.File as Files
use qptools.Trees.Listing.{Lister, ListHandle, read_listing, write_listing, close_listing}

-- The objects by their addresses, the next free ones, and globalID.
pub record Memory : Type 0 where
  pub dirs : Map ℕ Dir
  pub files : Map ℕ File
  pub listings : Map ℕ (ℕ × ListHandle)
  pub handles : Map ℕ (ℕ × Handle)
  pub next : ℕ
  pub global_id : ℕ

abbrev pub is_even : ℕ → Bool
is_even a = a % 2 == 0

-- a method of the directory at an address; there is none at nil
unfoldable pub at_dir : {A : Type 0} (a : ℕ) → Act (Dir × Memory) A → Act Memory A
at_dir a m s = elim (lookup a s.dirs) [
  | none ↦ panic s
  | some d ↦ let (r, t) = m (d, s) in (r, record t.1 { dirs = insert a t.0 t.1.dirs })
]

-- a method of the file at an address
unfoldable pub at_file : {A : Type 0} (a : ℕ) → Act File A → Act Memory A
at_file a m s = elim (lookup a s.files) [
  | none ↦ panic s
  | some f ↦ let (r, g) = m f in (r, record s { files = insert a g s.files })
]

-- nextID()
unfoldable pub new_id : Act Memory ℕ
new_id s = let (r, id) = next_id s.global_id in (r, record s { global_id = id })

-- a new object of one kind, at a free address
unfoldable pub store_dir : Dir → Act Memory ℕ
store_dir d s =
    (ok (2 * s.next), record s { dirs = insert (2 * s.next) d s.dirs; next = s.next + 1 })

unfoldable pub store_file : File → Act Memory ℕ
store_file f s =
    (ok (2 * s.next + 1), record s { files = insert (2 * s.next + 1) f s.files; next = s.next + 1 })

unfoldable pub store_listing : ℕ × ListHandle → Act Memory ℕ
store_listing h s =
    (ok (2 * s.next), record s { listings = insert (2 * s.next) h s.listings; next = s.next + 1 })

unfoldable pub store_handle : ℕ × Handle → Act Memory ℕ
store_handle h s = (
  ok (2 * s.next + 1),
  record s { handles = insert (2 * s.next + 1) h s.handles; next = s.next + 1 },
)

-- a method of the ListHandle at an address
unfoldable pub at_listing :
    {A : Type 0} (h : ℕ) → ((a : ℕ) → Act (ListHandle × Memory) A) → Act Memory A
at_listing h m s = elim (lookup h s.listings) [
  | none ↦ panic s
  | some x ↦
      let (r, t) = m x.0 (x.1, s) in (r, record t.1 { listings = insert h (x.0, t.0) t.1.listings })
]

-- a method of the SyntheticHandle at an address, on its file
unfoldable pub at_handle : {A : Type 0} (h : ℕ) → (Handle → Act File A) → Act Memory A
at_handle h m s = elim (lookup h s.handles) [ none ↦ panic s | some x ↦ at_file x.0 (m x.1) s ]

module _ (qp : Qp) (codec : StatCodec) (now : ℕ) where
  -- a method that directories and files have
  abbrev pub at_either : {A : Type 0} (a : ℕ) → Act Dir A → Act File A → Act Memory A
  at_either a m n = if is_even a then at_dir a (on_self m) else at_file a n

  -- the methods that a directory calls of its files, and the making of new ones
  abbrev pub elements : Elements Memory
  elements = record {
    set_name = λ a user name. at_either a (Dirs.set_name now name) (Files.set_name now user name);
    can_remove = λ a. at_either a Dirs.can_remove Files.can_remove;
    stat = λ a. at_either a (Dirs.dir_stat qp) (file_stat qp);
    new_dir = λ name perms user group. do
      id ← new_id
      store_dir (empty_dir id now name perms user group);
    new_file = λ name perms user group. do
      id ← new_id
      store_file (Files.new_file id now name perms user group);
  }

  -- the directory at an address, as a ListHandle uses it
  abbrev pub lister_of : (a : ℕ) → Lister Memory
  lister_of a = record {
    list = λ user. at_dir a (Dirs.list qp elements now user);
    logs = true;
    accessed = at_dir a (on_self (Dirs.accessed now));
    closed = at_dir a (on_self Dirs.closed);
  }

  unfoldable pub open_memory : (a : ℕ) (user : String) (mode : ℕ) → Act Memory ℕ
  open_memory a user mode =
      if is_even a
      then (do
        at_dir a (on_self (Dirs.open_dir qp now user mode))
        store_listing (a, record { user = user; list = [] }))
      else (do h ← at_file a (open_synthetic qp now user mode); store_handle (a, h))

  unfoldable pub read_memory : (h count : ℕ) (offset : ℤ) → Act Memory (List ℕ × Option Error)
  read_memory h count offset =
      if is_even h
      then at_listing h (λ a. read_listing codec (lister_of a) count offset)
      else (do b ← at_handle h (λ x. Files.read_at x now count offset); pure (b, none))

  -- the interfaces, for the objects of the store
  abbrev pub memory_tree : Tree Memory
  memory_tree = record {
    name = λ a. at_either a Dirs.get_name Files.get_name;
    open_file = open_memory;
    qid = λ a. at_either a (Dirs.dir_qid qp) (file_qid qp);
    stat = λ a. at_either a (Dirs.dir_stat qp) (file_stat qp);
    set_length = λ a user n. at_either a (Dirs.set_length n) (Files.set_length qp now user n);
    set_name = λ a user n. at_either a (Dirs.set_name now n) (Files.set_name now user n);
    set_owner = λ a user u g.
        at_either a (Dirs.set_owner qp now user u g) (Files.set_owner qp now user u g);
    set_mode = λ a user m. at_either a (Dirs.set_mode qp now user m) (Files.set_mode qp now user m);
    is_dir = λ a. at_either a Dirs.is_dir Files.is_dir;
    can_remove = λ a. at_either a Dirs.can_remove Files.can_remove;
    arrived = λ a user. at_either a (Dirs.arrived now) (Files.arrived now user);
    has_dir = is_even;
    walk = λ a user n. at_dir a (on_self (Dirs.walk qp now user n));
    create = λ a user n perms. at_dir a (Dirs.create qp elements now user n perms);
    remove = λ a user n. at_dir a (Dirs.remove qp elements now user n);
    rename = λ a user n m. at_dir a (Dirs.rename qp elements now user n m);
    read_at = read_memory;
    write_at = λ h bytes offset.
        if is_even h
        then write_listing bytes offset
        else at_handle h (λ x. Files.write_at x now bytes offset);
    close = λ h.
        if is_even h
        then at_listing h (λ a. close_listing codec (lister_of a))
        else at_handle h (λ x. Files.close);
    is_authenticator = λ h. false;
    authenticated = λ h user service. panic;
  }

-- What cmd/ramfs serves: a new directory "/", at address 0.
abbrev pub new_memory : (now id : ℕ) (user group : String) → Memory
new_memory now id user group = record {
  dirs = (0, empty_dir id now "/" 511 user group) ∷ [];
  files = [];
  listings = [];
  handles = [];
  next = 1;
  global_id = (id + 1) % 2 ^ 64;
}
