-- ===== src/Trees/Memory/Methods.antt =====
-- What the methods of directories and files do to the store.
use qptools.Prelude.{ℕ, ◌≡◌, refl, String, Bool-cases, inl, inr, Option, none, some}
use qptools.Prelude.Maps.{lookup, nat_key, text_key}
use qptools.Act.{Act}
use qptools.Qp.{Qp, StatCodec}
use qptools.Trees.Dir.{Dir, Elements, on_self, on_elements, self, change, touched, permits}
use qptools.Trees.Dir as Dirs
use qptools.Trees.File.{File, next_id}
use qptools.Trees.File as Files
use qptools.Trees.Memory.{Memory, is_even, at_either, elements}
use qptools.Trees.Memory.Whole.{
  HasEntries, Returned, no_address, Yielded-none, IsSafe, DirSafe, dir_safe, at_dir-IsSafe,
  at_file-IsSafe,
}
use qptools.Trees.Memory.Actions.{new_id-IsSafe, store_dir-IsSafe, store_file-IsSafe, IsSafe-bind}

abbrev SameEntries : {A : Type 0} → Act Dir A → Type 0
SameEntries m = (d : Dir) → (m d).1.entries ≡ d.entries

entries_moved :
    (d d' : Dir) (s : Memory) → d'.entries ≡ d.entries → HasEntries d s → HasEntries d' s
entries_moved d d' s e h name f i = h name f (rw e at i)

-- a method of the directory alone, which keeps its entries
pub on_self-DirSafe :
    {A : Type 0} (m : Act Dir A) → SameEntries m → DirSafe no_address (on_self {W = Memory} m)
on_self-DirSafe m same = dir_safe λ d s w h. record {
  whole = w;
  grows = λ f p. p;
  entries = entries_moved d (m d).1 s (same d) h;
  yields = Yielded-none (m d).0 s;
}

-- a method that directories and files have
pub at_either-IsSafe :
    {A : Type 0} (a : ℕ) (m : Act Dir A) (n : Act File A)
    → SameEntries m
    → (qp : Qp) (codec : StatCodec) (now : ℕ) → IsSafe no_address (at_either qp codec now a m n)
at_either-IsSafe a m n same qp codec now = elim (Bool-cases (is_even a)) [
  | inl e ↦ rw e (at_dir-IsSafe a (on_self-DirSafe m same))
  | inr e ↦ rw e (at_file-IsSafe a n)
]

looked_up :
    (d : Dir) (s : Memory) (name : String)
    → HasEntries d s
    → (o : Option ℕ) → lookup name d.entries ≡ o
    → Returned o s
looked_up d s name h none e = tt
looked_up d s name h (some f) e = h name f e

module _ (qp : Qp) (now : ℕ) where
  pub get_name-SameEntries : SameEntries Dirs.get_name
  unfolding Dirs.get_name
  get_name-SameEntries d = refl

  pub set_name-SameEntries : (name : String) → SameEntries (Dirs.set_name now name)
  unfolding Dirs.set_name
  set_name-SameEntries name d = refl

  pub can_remove-SameEntries : SameEntries Dirs.can_remove
  unfolding Dirs.can_remove
  can_remove-SameEntries d = refl

  pub dir_stat-SameEntries : SameEntries (Dirs.dir_stat qp)
  unfolding Dirs.dir_stat
  dir_stat-SameEntries d = refl

  pub set_owner-SameEntries : (user u g : String) → SameEntries (Dirs.set_owner qp now user u g)
  unfolding Dirs.set_owner
  set_owner-SameEntries user u g d = elim (Bool-cases (permits qp user qp.owrite d)) [
    | inl e ↦ rw e refl
    | inr e ↦ rw e refl
  ]

  pub walk-DirSafe :
      (user name : String) → DirSafe (λ f. f) (on_self {W = Memory} (Dirs.walk qp now user name))
  unfolding Dirs.walk
  walk-DirSafe user name = dir_safe λ d s w h. elim (Bool-cases (permits qp user qp.oexec d)) [
    | inl e ↦ rw e (record {
      whole = w;
      grows = λ f p. p;
      entries = h;
      yields = looked_up d s name h (lookup name d.entries) refl;
    })
    | inr e ↦ rw e (record { whole = w; grows = λ f p. p; entries = h; yields = tt })
  ]

module _ (qp : Qp) (codec : StatCodec) (now : ℕ) where
  pub set_name-IsSafe :
      (a : ℕ) (user name : String)
      → IsSafe no_address ((elements qp codec now).set_name a user name)
  set_name-IsSafe a user name =
      at_either-IsSafe a _ _ (set_name-SameEntries qp now name) qp codec now

  pub can_remove-IsSafe : (a : ℕ) → IsSafe no_address ((elements qp codec now).can_remove a)
  can_remove-IsSafe a = at_either-IsSafe a _ _ (can_remove-SameEntries qp now) qp codec now

  pub stat-IsSafe : (a : ℕ) → IsSafe no_address ((elements qp codec now).stat a)
  stat-IsSafe a = at_either-IsSafe a _ _ (dir_stat-SameEntries qp now) qp codec now

  pub new_dir-IsSafe :
      (name : String) (perms : ℕ) (user group : String)
      → IsSafe some ((elements qp codec now).new_dir name perms user group)
  new_dir-IsSafe name perms user group = IsSafe-bind _ new_id-IsSafe λ id s w y.
      let st = store_dir-IsSafe (Dirs.empty_dir id now name perms user group) refl in
      (st.whole s w, st.grows s w, st.yields s w)

  pub new_file-IsSafe :
      (name : String) (perms : ℕ) (user group : String)
      → IsSafe some ((elements qp codec now).new_file name perms user group)
  new_file-IsSafe name perms user group = IsSafe-bind _ new_id-IsSafe λ id s w y.
      let st = store_file-IsSafe (Files.new_file id now name perms user group) in
      (st.whole s w, st.grows s w, st.yields s w)
