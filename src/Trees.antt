-- ===== src/Trees.antt =====
-- fileserver/trees/utils.go: the interfaces File, Dir, ReadWriteAtCloser and Authenticator, through
-- which the server reaches a file tree. A file or a handle is the address of an object; what the
-- objects hold is a value of `W`, which the methods change.
pub mod Dir
pub mod Listing
pub mod Locked
pub mod Memory
pub mod Mix
pub mod Broadcast
pub mod File
pub mod Perm
pub mod Proxy
pub mod Slice
mod Tests
use qptools.Prelude.{ℕ, ℤ, String, Bool, Option, List}
use qptools.Act.{Act, Error}
use qptools.Qp.{Qid, Stat}

pub record Tree (W : Type 0) : Type 0 where
  pub name : (file : ℕ) → Act W String
  pub open_file : (file : ℕ) (user : String) (mode : ℕ) → Act W ℕ
  pub qid : (file : ℕ) → Act W Qid
  pub stat : (file : ℕ) → Act W Stat
  pub set_length : (file : ℕ) (user : String) (length : ℕ) → Act W (Unit {0})
  pub set_name : (file : ℕ) (user name : String) → Act W (Unit {0})
  pub set_owner : (file : ℕ) (user uid gid : String) → Act W (Unit {0})
  pub set_mode : (file : ℕ) (user : String) (mode : ℕ) → Act W (Unit {0})
  pub is_dir : (file : ℕ) → Act W Bool
  pub can_remove : (file : ℕ) → Act W Bool
  pub arrived : (file : ℕ) (user : String) → Act W (Option ℕ)
  -- whether the type assertion `f.(trees.Dir)` succeeds, and the methods of Dir
  pub has_dir : (file : ℕ) → Bool
  pub walk : (dir : ℕ) (user name : String) → Act W (Option ℕ)
  pub create : (dir : ℕ) (user name : String) (perms : ℕ) → Act W ℕ
  pub remove : (dir : ℕ) (user name : String) → Act W (Unit {0})
  pub rename : (dir : ℕ) (user old_name new_name : String) → Act W (Unit {0})
  -- ReadWriteAtCloser: a read of `count` bytes returns `p[:n]` beside its error
  pub read_at : (handle count : ℕ) (offset : ℤ) → Act W (List ℕ × Option Error)
  pub write_at : (handle : ℕ) (bytes : List ℕ) (offset : ℤ) → Act W ℕ
  pub close : (handle : ℕ) → Act W (Unit {0})
  -- whether the handle is an Authenticator, and its method
  pub is_authenticator : (handle : ℕ) → Bool
  pub authenticated : (handle : ℕ) (user service : String) → Act W Bool
