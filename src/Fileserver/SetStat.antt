-- ===== src/Fileserver/SetStat.antt =====
-- setStat of fileserver/utils.go: the request of a Twstat is checked as a whole, then its changes
-- are made one after the other, and undone when a later one is refused.
pub mod Laws
use qptools.Prelude.{
  ℕ, ◌-◌, ◌^◌, String, Bool, not, ◌&&◌, ◌||◌, Option, none, some, bit_and, bit_or, ltb, ◌==◌,
  is_some, if◌then◌else◌,
}
use text.Mathlib.Text.{◌==◌ as str_eq}
use qptools.Act.{Act, reason, value, failure, pure, raise, panic, attempt, ignore, ◌>>=◌, ◌>>◌}
use qptools.Qp.{Qp, Stat}
use qptools.Trees.{Tree}

-- ^uint16(0), ^uint32(0) and ^uint64(0): the fields that a request leaves alone
abbrev pub max16 : ℕ
max16 = 2 ^ 16 - 1

abbrev pub max32 : ℕ
max32 = 2 ^ 32 - 1

abbrev pub max64 : ℕ
max64 = 2 ^ 64 - 1

-- `new != ^uintN(0) && new != old`
abbrev pub changes : (top new old : ℕ) → Bool
changes top new old = not (new == top) && not (new == old)

-- `new != "" && new != old`
abbrev pub renames : (new old : String) → Bool
renames new old = not (str_eq new "") && not (str_eq new old)

-- What is to be changed, once the request is accepted.
pub record Changes : Type 0 where
  pub length : Bool
  pub name : Bool
  pub mode : Bool
  pub owner : Bool

module _ (qp : Qp) where
  -- The checks, in the source's order: the first that fails is the answer.
  unfoldable pub refusal : (has_parent : Bool) (old new : Stat) → Option String
  refusal has_parent old new =
      if changes max16 new.kind old.kind
      then some "it is illegal to modify type"
      else if changes max32 new.dev old.dev
      then some "it is illegal to modify dev"
      else if renames new.muid old.muid
      then some "it is illegal to modify muid"
      else if changes max32 new.atime old.atime
      then some "it is illegal to modify atime"
      else if not has_parent && renames new.name old.name
      then some "it is illegal to rename root"
      else if changes max64 new.length old.length
      then (if not (bit_and old.mode qp.dmdir == 0)
          then some "cannot set length of directory"
          else if ltb old.length new.length
          then some "cannot extend length"
          else none)
      else none

  unfoldable pub requested : (old new : Stat) → Changes
  requested old new = record {
    length = changes max64 new.length old.length;
    name = renames new.name old.name;
    mode = changes qp.mode_mask new.mode old.mode;
    owner = renames new.uid old.uid || renames new.gid old.gid;
  }

  -- `ostat.Mode & DMDIR | nstat.Mode & ^DMDIR`; what is left of `new` without its DMDIR bit is `new`
  -- less that bit, if it is set.
  unfoldable pub merged_mode : (old new : ℕ) → ℕ
  merged_mode old new = bit_or (bit_and old qp.dmdir) (new - bit_and new qp.dmdir)

module _ {W : Type 0} where
  -- `if err := m(); err != nil { undo; return err }`
  unfoldable pub or_undo : Act W (Unit {0}) → Act W (Unit {0}) → Act W (Unit {0})
  unfolding ◌>>=◌ attempt
  or_undo m undo = do r ← attempt m; elim r [ value _ ↦ pure tt | failure e ↦ undo >> raise e ]

  -- One `if` of the second half of setStat: the change, if it is requested.
  unfoldable pub when : Bool → Act W (Unit {0}) → Act W (Unit {0})
  unfolding ◌>>=◌
  when b m = if b then m else pure tt

  -- `parent.Rename(…)`: a call on a nil interface panics.
  unfoldable pub rename_in :
      Tree W → Option ℕ → (user old_name new_name : String) → Act W (Unit {0})
  unfolding ◌>>=◌
  rename_in tree none user old_name new_name = panic
  rename_in tree (some p) user old_name new_name = tree.rename p user old_name new_name

module _ {W : Type 0} (qp : Qp) (tree : Tree W) where
  unfoldable pub apply_changes :
      (user : String) (file : ℕ) (dir : Option ℕ) (old new : Stat) → Changes → Act W (Unit {0})
  unfolding ◌>>=◌ or_undo rename_in when
  apply_changes user file dir old new c = do
    when c.mode (tree.set_mode file user (merged_mode qp old.mode new.mode))
    when c.owner (
        or_undo (tree.set_owner file user new.uid new.gid)
          (ignore (tree.set_mode file user old.mode)))
    when c.name (
        or_undo (rename_in tree dir user old.name new.name) (do
          ignore (tree.set_mode file user old.mode)
          ignore (tree.set_owner file user old.uid old.gid)))
    when c.length (
        or_undo (tree.set_length file user new.length) (do
          ignore (tree.set_mode file user old.mode)
          ignore (tree.set_owner file user old.uid old.gid)
          ignore (rename_in tree dir user new.name old.name)))

  unfoldable pub refuse_if : Option String → Act W (Unit {0})
  unfolding ◌>>=◌
  refuse_if none = pure tt
  refuse_if (some why) = raise (reason why)

  -- setStat(user, e, parent, nstat)
  unfoldable pub set_stat :
      (user : String) (file : ℕ) (dir : Option ℕ) (new : Stat) → Act W (Unit {0})
  unfolding ◌>>=◌ refuse_if
  set_stat user file dir new = do
    old ← tree.stat file
    refuse_if (refusal qp (is_some dir) old new)
    apply_changes user file dir old new (requested qp old new)
