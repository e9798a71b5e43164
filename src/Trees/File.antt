-- ===== src/Trees/File.antt =====
-- SyntheticFile and SyntheticHandle of fileserver/trees/syntheticfile.go, and DetachedHandle of
-- fileserver/trees/detachedhandle.go. `now` is what time.Now() returns, in seconds; no method calls
-- another one while it holds the lock, so the locks are left out.
pub mod Laws
use text.Mathlib.Text.{◌==◌ as str_eq}
use qptools.Prelude.{
  ℕ, ◌+◌, ◌-◌, ◌%◌, ◌^◌, String, Bool, true, false, not, ◌&&◌, ◌||◌, Option, none, some, List,
  bit_and, ltb, ◌==◌, is_some, if◌then◌else◌, length, take, ℤ, pos, negsuc,
}
use qptools.Act.{Act, Error, reason, Outcome, ok, err}
use qptools.Qp.{Qp, Qid, Stat}
use qptools.Trees.Perm.{has_bit, perm_check}
use qptools.Trees.Slice.{Slice, contents, view, read_slice, write_slice}

pub record File : Type 0 where
  pub id : ℕ
  pub file_name : String
  pub uid : String
  pub gid : String
  pub muid : String
  pub atime : ℕ
  pub mtime : ℕ
  pub version : ℕ
  pub file_length : ℕ
  pub fake_length : Bool
  pub permissions : ℕ
  pub content : Option Slice
  pub opens : ℕ

-- SyntheticHandle, without the file that it points to
pub record Handle : Type 0 where
  pub user : String
  pub is_readable : Bool
  pub is_writable : Bool
  pub append_only : Bool

abbrev pub permission_refused : Error
permission_refused = reason "permission denied"

-- Mtime, Atime and Version after a change
abbrev pub modified : ℕ → File → File
modified now f = record f { mtime = now; atime = now; version = (f.version + 1) % 2 ^ 32 }

module _ (qp : Qp) where
  unfoldable pub file_qid : Act File Qid
  file_qid f = (ok (record { kind = qp.qtfile; version = f.version; path = f.id }), f)

  -- CanOpen(user, mode)
  unfoldable pub can_open : File → (user : String) (mode : ℕ) → Bool
  unfolding perm_check
  can_open f user mode = perm_check qp (str_eq f.uid user) false f.permissions mode

  unfoldable pub set_length : (now : ℕ) (user : String) (n : ℕ) → Act File (Unit {0})
  set_length now user n f =
      if not (can_open f user qp.owrite)
      then (err permission_refused, f)
      else if ltb (contents f.content).len n
      then (err (reason "cannot extend length"), f)
      else if f.fake_length
      then (err (reason "cannot change fake length"), f)
      else (
        ok tt,
        modified now (record f {
          content = elim f.content [ none ↦ none | some s ↦ some (record s { len = n }) ];
        }),
      )

  unfoldable pub set_owner : (now : ℕ) (user uid gid : String) → Act File (Unit {0})
  set_owner now user uid gid f =
      if not (can_open f user qp.owrite) then (err permission_refused, f) else (
        ok tt,
        modified now (record f {
          uid = if str_eq uid "" then f.uid else uid;
          gid = if str_eq gid "" then f.gid else gid;
        }),
      )

  unfoldable pub set_mode : (now : ℕ) (user : String) (mode : ℕ) → Act File (Unit {0})
  set_mode now user mode f =
      if not (str_eq user f.uid) || not (can_open f user qp.owrite)
      then (err permission_refused, f)
      else (ok tt, modified now (record f { permissions = mode }))

  unfoldable pub file_stat : Act File Stat
  file_stat f = (
    ok (record {
      kind = 0;
      dev = 0;
      qid = record { kind = qp.qtfile; version = f.version; path = f.id };
      mode = f.permissions;
      atime = f.atime % 2 ^ 32;
      mtime = f.mtime % 2 ^ 32;
      length = if f.fake_length then f.file_length else (contents f.content).len;
      name = f.file_name;
      uid = f.uid;
      gid = f.gid;
      muid = f.muid;
    }),
    f,
  )

  -- whether Open throws the content away
  unfoldable pub truncates : (mode : ℕ) → Option Slice → Bool
  truncates mode content =
      is_some content && not (bit_and mode qp.otrunc == 0) && not (bit_and mode qp.owrite == 0)

  abbrev pub emptied : File → File
  emptied f = record f { content = none; file_length = 0 }

  unfoldable pub open_synthetic : (now : ℕ) (user : String) (mode : ℕ) → Act File Handle
  open_synthetic now user mode f =
      if not (can_open f user mode)
      then (err permission_refused, f)
      else (let g = record f { atime = now; opens = (f.opens + 1) % 2 ^ 64 } in
          (
            ok (record {
              user = user;
              is_readable =
                  bit_and mode 3 == qp.oread
                  || bit_and mode 3 == qp.oexec
                  || bit_and mode 3 == qp.ordwr;
              is_writable = bit_and mode 3 == qp.owrite || bit_and mode 3 == qp.ordwr;
              append_only = not (bit_and f.permissions qp.dmappend == 0);
            }),
            if truncates mode f.content then emptied g else g,
          ))

-- SetName(user, name)
unfoldable pub set_name : (now : ℕ) (user name : String) → Act File (Unit {0})
set_name now user name f = (ok tt, modified now (record f { file_name = name }))

unfoldable pub get_name : Act File String
get_name f = (ok f.file_name, f)

unfoldable pub is_dir : Act File Bool
is_dir f = (ok false, f)

unfoldable pub can_remove : Act File Bool
can_remove f = (ok true, f)

-- Arrived(user): no other file is entered
unfoldable pub arrived : (now : ℕ) (user : String) → Act File (Option ℕ)
arrived now user f = (ok none, record f { atime = now })

unfoldable pub set_content : Option Slice → Act File (Unit {0})
set_content c f = (ok tt, record f { content = c; file_length = (contents c).len })

-- NewSyntheticFile(name, permissions, user, group), with the id that nextID returned
abbrev pub new_file : (id now : ℕ) (name : String) (permissions : ℕ) (user group : String) → File
new_file id now name permissions user group = record {
  id = id;
  file_name = name;
  uid = user;
  gid = group;
  muid = user;
  atime = now;
  mtime = now;
  version = 0;
  file_length = 0;
  fake_length = false;
  permissions = permissions;
  content = none;
  opens = 0;
}

-- `offset > int64(len(cnt))`
abbrev pub past : File → ℤ → Bool
past f (pos n) = ltb (contents f.content).len n
past f (negsuc k) = false

module _ (h : Handle) where
  -- SyntheticHandle.ReadAt and WriteAt; after a panic nothing else is set
  unfoldable pub read_at : (now count : ℕ) (offset : ℤ) → Act File (List ℕ)
  read_at now count offset f = elim (read_slice f.content count offset) [
    | ok bytes ↦ (ok bytes, if past f offset then f else record f { atime = now })
    | other ↦ (other, f)
  ]

  unfoldable pub write_at : (now : ℕ) (bytes : List ℕ) (offset : ℤ) → Act File ℕ
  write_at now bytes offset f =
      let (r, c) = write_slice h.append_only f.content bytes offset in
      elim r [
        | ok n ↦ (ok n, record (modified now (record f { content = c })) { muid = h.user })
        | other ↦ (other, record f { content = c })
      ]

-- SyntheticHandle.Close
unfoldable pub close : Act File (Unit {0})
close f = (ok tt, record f { opens = (f.opens + 2 ^ 64 - 1) % 2 ^ 64 })

-- DetachedHandle: a slice of its own
pub record Detached : Type 0 where
  pub bytes : Option Slice
  pub appends : Bool

unfoldable pub detached_read : (count : ℕ) (offset : ℤ) → Act Detached (List ℕ)
detached_read count offset d = (read_slice d.bytes count offset, d)

unfoldable pub detached_write : (written : List ℕ) (offset : ℤ) → Act Detached ℕ
detached_write written offset d =
    let (r, c) = write_slice d.appends d.bytes written offset in (r, record d { bytes = c })

unfoldable pub detached_close : Act Detached (Unit {0})
detached_close d = (ok tt, d)

abbrev pub new_detached : Option Slice → (append_only : Bool) → Detached
new_detached content append_only = record { bytes = content; appends = append_only }

-- nextID(), on the counter globalID
unfoldable pub next_id : Act ℕ ℕ
next_id id = (ok id, (id + 1) % 2 ^ 64)
