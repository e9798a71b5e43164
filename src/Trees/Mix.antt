-- ===== src/Trees/Mix.antt =====
-- MixDir of fileserver/trees/mixdir.go, and LockedFile of fileserver/trees/lockedfile.go: what wraps
-- other files. The wrapped ones are addresses, and the interfaces File and Dir are a record of
-- operations on a world.
pub mod Laws
mod Tests
use qptools.Prelude.{
  ℕ, ◌+◌, ◌-◌, Bool, true, false, ◌&&◌, ◌||◌, String, Option, none, some, List, [], ◌∷◌, ◌==◌, ltb,
  if◌then◌else◌, bit_and,
}
use qptools.Prelude.Maps.{Map, insert, text_key}
use qptools.Act.{Act, Error, reason, Outcome, ok, err, panicked, blocked, pure, raise, ◌>>=◌}
use qptools.Qp.{Qp, Qid, Stat}
use qptools.Trees.{Tree}
use qptools.Trees.Listing.{Lister, ListHandle}

-- MixDir
pub record Mix : Type 0 where
  pub top : ℕ
  pub bottom : ℕ
  pub create_at_bottom : Bool

-- m[s.Name] = s, for each s
unfoldable pub index : List Stat → Map String Stat → Map String Stat
index [] m = m
index (s ∷ ss) m = index ss (insert s.name s m)

-- the values of the map
unfoldable pub entries_of : Map String Stat → List Stat
entries_of [] = []
entries_of ((name, s) ∷ m) = s ∷ entries_of m

module _ {W : Type 0} (tree : Tree W) (list : (dir : ℕ) (user : String) → Act W (List Stat))
    (mt : Mix) where
  -- List(user)
  unfoldable pub mix_list : (user : String) → Act W (List Stat)
  unfolding ◌>>=◌
  mix_list user = do
    l₁ ← list mt.bottom user
    l₂ ← list mt.top user
    pure (entries_of (index l₂ (index l₁ [])))

  -- CanRemove()
  unfoldable pub mix_can_remove : Act W Bool
  unfolding ◌>>=◌
  mix_can_remove = do a ← tree.can_remove mt.top; b ← tree.can_remove mt.bottom; pure (a && b)

  -- Walk(user, name)
  unfoldable pub mix_walk : (user name : String) → Act W (Option ℕ)
  unfolding ◌>>=◌
  mix_walk user name = do
    f ← tree.walk mt.top user name
    elim f [ some file ↦ pure (some file) | none ↦ tree.walk mt.bottom user name ]

  -- Create(user, name, perms)
  unfoldable pub mix_create : (user name : String) (perms : ℕ) → Act W ℕ
  mix_create user name perms =
      if mt.create_at_bottom
      then tree.create mt.bottom user name perms
      else tree.create mt.top user name perms

  -- Remove and Rename: in Top if it has the name, else in Bottom if that has it
  unfoldable pub where_found : (user name : String) → (ℕ → Act W (Unit {0})) → Act W (Unit {0})
  unfolding ◌>>=◌
  where_found user name m = do
    f ← tree.walk mt.top user name
    elim f [
      | some _ ↦ m mt.top
      | none ↦ do
        g ← tree.walk mt.bottom user name
        elim g [ some _ ↦ m mt.bottom | none ↦ pure tt ]
    ]

  unfoldable pub mix_remove : (user name : String) → Act W (Unit {0})
  unfolding where_found
  mix_remove user name = where_found user name (λ d. tree.remove d user name)

  unfoldable pub mix_rename : (user old_name new_name : String) → Act W (Unit {0})
  unfolding where_found
  mix_rename user old_name new_name =
      where_found user old_name (λ d. tree.rename d user old_name new_name)

  -- the methods that Top answers
  unfoldable pub mix_name : Act W String
  mix_name = tree.name mt.top

  unfoldable pub mix_qid : Act W Qid
  mix_qid = tree.qid mt.top

  unfoldable pub mix_stat : Act W Stat
  mix_stat = tree.stat mt.top

  unfoldable pub mix_set_length : (user : String) (length : ℕ) → Act W (Unit {0})
  mix_set_length user length = tree.set_length mt.top user length

  unfoldable pub mix_set_name : (user name : String) → Act W (Unit {0})
  mix_set_name user name = tree.set_name mt.top user name

  unfoldable pub mix_set_owner : (user uid gid : String) → Act W (Unit {0})
  mix_set_owner user uid gid = tree.set_owner mt.top user uid gid

  unfoldable pub mix_set_mode : (user : String) (mode : ℕ) → Act W (Unit {0})
  mix_set_mode user mode = tree.set_mode mt.top user mode

  unfoldable pub mix_is_dir : Act W Bool
  mix_is_dir = pure true

  unfoldable pub mix_arrived : (user : String) → Act W (Option ℕ)
  mix_arrived user = pure none

  -- Open(user, mode): a ListHandle, which is not given the methods of an AccessLogger
  unfoldable pub mix_open : (user : String) (mode : ℕ) → Act W ListHandle
  mix_open user mode = pure (record { user = user; list = [] })

  abbrev pub mix_lister : Lister W
  mix_lister = record { list = mix_list; logs = false; accessed = pure tt; closed = pure tt }
