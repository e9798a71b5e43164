-- ===== src/Trees/Dir.antt =====
-- SyntheticDir of fileserver/trees/syntheticdir.go. The files in it may be of any kind: they are
-- addresses, and their methods that a directory calls are `Elements`. No method takes a lock twice,
-- unless a directory contains itself, so the locks are left out.
pub mod Laws
mod Tests
use text.Mathlib.Text.{◌==◌ as str_eq}
use qptools.Prelude.{
  ℕ, ◌+◌, ◌-◌, ◌%◌, ◌^◌, String, Bool, true, false, not, ◌||◌, Option, none, some, List, [], ◌∷◌,
  bit_and, bit_or, ◌==◌, is_some, if◌then◌else◌, length,
}
use qptools.Prelude.Maps.{Map, lookup, insert, delete, text_key}
use qptools.Act.{
  Act, Error, reason, Outcome, ok, err, pure, raise, gets, modify, require, or_raise, ◌>>=◌, ◌>>◌,
}
use qptools.Qp.{Qp, Qid, Stat}
use qptools.Trees.Perm.{perm_check}
use qptools.Trees.File.{permission_refused}

-- SyntheticDir; `entries` is Tree, which is never nil.
pub record Dir : Type 0 where
  pub id : ℕ
  pub dir_name : String
  pub uid : String
  pub gid : String
  pub muid : String
  pub atime : ℕ
  pub mtime : ℕ
  pub version : ℕ
  pub permissions : ℕ
  pub opens : ℕ
  pub entries : Map String ℕ

-- The methods of the files in a directory, and the making of new ones.
pub record Elements (W : Type 0) : Type 0 where
  pub set_name : (file : ℕ) (user name : String) → Act W (Unit {0})
  pub can_remove : (file : ℕ) → Act W Bool
  pub stat : (file : ℕ) → Act W Stat
  pub new_dir : (name : String) (permissions : ℕ) (user group : String) → Act W ℕ
  pub new_file : (name : String) (permissions : ℕ) (user group : String) → Act W ℕ

abbrev pub file_exists : Error
file_exists = reason "file already exists"

abbrev pub file_missing : Error
file_missing = reason "no such file"

abbrev pub not_removable : Error
not_removable = reason "file could not be removed"

-- Mtime, Atime and Version after a change
abbrev pub touched : ℕ → Dir → Dir
touched now d = record d { mtime = now; atime = now; version = (d.version + 1) % 2 ^ 32 }

-- NewSyntheticDir(name, permissions, user, group), with the id that nextID returned
abbrev pub empty_dir : (id now : ℕ) (name : String) (permissions : ℕ) (user group : String) → Dir
empty_dir id now name permissions user group = record {
  id = id;
  dir_name = name;
  uid = user;
  gid = group;
  muid = user;
  atime = now;
  mtime = now;
  version = 0;
  permissions = permissions;
  opens = 0;
  entries = [];
}

-- perms & (^FileMode(mask) | (parent & mask))
unfoldable pub inherited : (mask perms parent : ℕ) → ℕ
inherited mask perms parent = bit_and perms (bit_or (2 ^ 32 - 1 - mask) (bit_and parent mask))

unfoldable pub get_name : Act Dir String
get_name d = (ok (if str_eq d.dir_name "" then "/" else d.dir_name), d)

unfoldable pub set_length : ℕ → Act Dir (Unit {0})
set_length n d = if n == 0 then (ok tt, d) else (err (reason "cannot set length of directory"), d)

unfoldable pub set_name : (now : ℕ) (name : String) → Act Dir (Unit {0})
set_name now name d = (ok tt, touched now (record d { dir_name = name }))

-- Accessed(), Modified() and Closed()
unfoldable pub accessed : ℕ → Act Dir (Unit {0})
accessed now d = (ok tt, record d { atime = now })

unfoldable pub modified_dir : ℕ → Act Dir (Unit {0})
modified_dir now d = (ok tt, touched now d)

unfoldable pub closed : Act Dir (Unit {0})
closed d = (ok tt, record d { opens = (d.opens + 2 ^ 64 - 1) % 2 ^ 64 })

unfoldable pub is_dir : Act Dir Bool
is_dir d = (ok true, d)

unfoldable pub can_remove : Act Dir Bool
can_remove d = (ok (length d.entries == 0), d)

unfoldable pub arrived : ℕ → Act Dir (Option ℕ)
arrived now d = (ok none, record d { atime = now })

-- Add(name, f)
unfoldable pub add : (now : ℕ) (name : String) (file : ℕ) → Act Dir (Unit {0})
add now name file d =
    if is_some (lookup name d.entries)
    then (err file_exists, d)
    else (ok tt, touched now (record d { entries = insert name file d.entries }))

module _ (qp : Qp) where
  unfoldable pub dir_qid : Act Dir Qid
  dir_qid d = (ok (record { kind = qp.qtdir; version = d.version; path = d.id }), d)

  -- PermCheck(d.UID == user, false, d.Permissions, mode), which is CanOpen(user, mode)
  unfoldable pub permits : (user : String) (mode : ℕ) → Dir → Bool
  permits user mode d = perm_check qp (str_eq d.uid user) false d.permissions mode

  unfoldable pub set_owner : (now : ℕ) (user uid gid : String) → Act Dir (Unit {0})
  set_owner now user uid gid d =
      if not (permits user qp.owrite d) then (err permission_refused, d) else (
        ok tt,
        touched now (record d {
          uid = if str_eq uid "" then d.uid else uid;
          gid = if str_eq gid "" then d.gid else gid;
        }),
      )

  unfoldable pub set_mode : (now : ℕ) (user : String) (mode : ℕ) → Act Dir (Unit {0})
  set_mode now user mode d =
      if not (str_eq user d.uid) || not (permits user qp.owrite d)
      then (err permission_refused, d)
      else (ok tt, touched now (record d { permissions = bit_or mode qp.dmdir }))

  unfoldable pub dir_stat : Act Dir Stat
  dir_stat d = (
    ok (record {
      kind = 0;
      dev = 0;
      qid = record { kind = qp.qtdir; version = d.version; path = d.id };
      mode = bit_or d.permissions qp.dmdir;
      atime = d.atime % 2 ^ 32;
      mtime = d.mtime % 2 ^ 32;
      length = 0;
      name = d.dir_name;
      uid = d.uid;
      gid = d.gid;
      muid = d.muid;
    }),
    d,
  )

  -- Open(user, mode), up to the new ListHandle
  unfoldable pub open_dir : (now : ℕ) (user : String) (mode : ℕ) → Act Dir (Unit {0})
  open_dir now user mode d =
      if not (permits user mode d)
      then (err permission_refused, d)
      else (ok tt, record d { atime = now; opens = (d.opens + 1) % 2 ^ 64 })

  -- Walk(user, name)
  unfoldable pub walk : (now : ℕ) (user name : String) → Act Dir (Option ℕ)
  walk now user name d =
      if not (permits user qp.oexec d)
      then (err permission_refused, d)
      else (ok (lookup name d.entries), record d { atime = now })

module _ {W : Type 0} where
  abbrev pub on_self : {A : Type 0} → Act Dir A → Act (Dir × W) A
  on_self m (d, w) = let (r, d') = m d in (r, (d', w))

  abbrev pub on_elements : {A : Type 0} → Act W A → Act (Dir × W) A
  on_elements m (d, w) = let (r, w') = m w in (r, (d, w'))

  abbrev pub self : Act (Dir × W) Dir
  self (d, w) = (ok d, (d, w))

  abbrev pub change : (Dir → Dir) → Act (Dir × W) (Unit {0})
  change f (d, w) = (ok tt, (f d, w))

module _ (qp : Qp) {W : Type 0} (elements : Elements W) (now : ℕ) where
  -- the loop of List, in the order of the map
  unfoldable pub stats : Map String ℕ → Act W (List Stat)
  unfolding ◌>>=◌
  stats [] = pure []
  stats ((name, file) ∷ rest) = do s ← elements.stat file; ss ← stats rest; pure (s ∷ ss)

  -- List(user)
  unfoldable pub list : (user : String) → Act (Dir × W) (List Stat)
  unfolding ◌>>=◌
  list user = do
    d ← self
    require (permits qp user qp.oread d) permission_refused
    on_elements (stats d.entries)

  -- Create(user, name, perms)
  unfoldable pub create : (user name : String) (perms : ℕ) → Act (Dir × W) ℕ
  create user name perms = do
    d ← self
    require (permits qp user qp.owrite d) permission_refused
    require (not (is_some (lookup name d.entries))) file_exists
    f ← on_elements (
        if bit_and perms qp.dmdir == 0
        then elements.new_file name (inherited 438 perms d.permissions) d.uid d.gid
        else elements.new_dir name (inherited 511 perms d.permissions) d.uid d.gid)
    change (λ d. touched now (record d { entries = insert name f d.entries }))
    pure f

  -- Rename(user, oldname, newname)
  unfoldable pub rename : (user old_name new_name : String) → Act (Dir × W) (Unit {0})
  rename user old_name new_name = do
    d ← self
    elem ← or_raise (lookup old_name d.entries) file_missing
    require (not (is_some (lookup new_name d.entries))) file_exists
    require (permits qp user qp.owrite d) permission_refused
    on_elements (elements.set_name elem user new_name)
    change
        (λ d. touched now (record d { entries = delete old_name (insert new_name elem d.entries) }))

  -- Remove(user, name)
  unfoldable pub remove : (user name : String) → Act (Dir × W) (Unit {0})
  remove user name = do
    d ← self
    require (permits qp user qp.owrite d) permission_refused
    f ← or_raise (lookup name d.entries) file_missing
    removable ← on_elements (elements.can_remove f)
    require removable not_removable
    change (λ d. touched now (record d { entries = delete name d.entries }))
