-- ===== src/Trees/Dir/Laws.antt =====
-- A directory is a map from names to files: every change of it is one of an abstract directory.
use qptools.Prelude.{
  ℕ, ◌≡◌, refl, String, Bool, true, false, Option, none, some, arith, is_some, if◌then◌else◌, inl,
  inr, Option-cases, not,
}
use text.Mathlib.Text.{◌==◌ as str_eq}
use qptools.Prelude.Maps.{lookup, insert, text_key, lookup-insert, lookup-delete}
use qptools.Act.{
  Act, Error, Outcome, ok, err, panicked, blocked, require, or_raise, continue, pure, ◌>>=◌, ◌>>◌,
}
use qptools.Qp.{Qp}
use qptools.Trees.Dir.{
  Dir, Elements, add, create, rename, remove, on_self, on_elements, self, change,
}

-- What a client sees of a directory.
abbrev pub View : Type 0
View = String → Option ℕ

abbrev pub names_of : Dir → View
names_of d name = lookup name d.entries

-- The calls that change a directory.
pub data Change : Type 0 where
  creation : (name : String) (file : ℕ) → Change
  removal : (name : String) → Change
  renaming : (old_name new_name : String) → Change

-- What a change makes of an abstract directory, and when it may be made.
pub data Becomes (v v' : View) : Change → Type 0 where
  created :
      (name : String) (file : ℕ)
      → v name ≡ none
      → ((n : String) → v' n ≡ (if str_eq name n then some file else v n))
      → Becomes v v' (creation name file)
  removed :
      (name : String) (file : ℕ)
      → v name ≡ some file
      → ((n : String) → v' n ≡ (if str_eq name n then none else v n))
      → Becomes v v' (removal name)
  renamed :
      (old_name new_name : String) (file : ℕ)
      → v old_name ≡ some file
      → v new_name ≡ none
      → ((n : String)
          → v' n
            ≡ (if str_eq old_name n then none else if str_eq new_name n then some file else v n))
      → Becomes v v' (renaming old_name new_name)

-- What a call came to: when it returned it made its change, and otherwise it changed nothing.
unfoldable pub Ends : {W A : Type 0} → (A → Change) → Dir → Outcome A × (Dir × W) → Type 0
Ends change d (ok a, (d', w)) = Becomes (names_of d) (names_of d') (change a)
Ends change d (err e, (d', w)) = d' ≡ d
Ends change d (panicked, (d', w)) = d' ≡ d
Ends change d (blocked, (d', w)) = d' ≡ d

-- A method whose every call makes the change that it promises, or none.
pub data Simulates {W A : Type 0} (change : A → Change) (d : Dir) (m : Act (Dir × W) A)
    : Type 0 where
  simulates : ((w : W) → Ends change d (m (d, w))) → Simulates change d m

ended :
    {W A : Type 0} {c : A → Change} {d : Dir} {m : Act (Dir × W) A}
    → Simulates c d m
    → (w : W) → Ends c d (m (d, w))
ended (simulates h) = h

module _ {W A : Type 0} {c : A → Change} {d : Dir} where
  self-Simulates : (m : Dir → Act (Dir × W) A) → Simulates c d (m d) → Simulates c d (self >>= m)
  unfolding Ends ◌>>=◌
  self-Simulates m (simulates h) = simulates h

  require-Simulates :
      (b : Bool) (e : Error) (m : Act (Dir × W) A)
      → (b ≡ true → Simulates c d m)
      → Simulates c d (require b e >> m)
  unfolding Ends require ◌>>=◌
  require-Simulates true e m h = h refl
  require-Simulates false e m h = simulates λ w. refl

  or_raise-Simulates :
      {B : Type 0} (v : Option B) (e : Error) (m : B → Act (Dir × W) A)
      → ((b : B) → v ≡ some b → Simulates c d (m b))
      → Simulates c d (or_raise v e >>= m)
  unfolding Ends or_raise ◌>>=◌
  or_raise-Simulates none e m h = simulates λ w. refl
  or_raise-Simulates (some b) e m h = h b refl

  elements-Simulates :
      {B : Type 0} (n : Act W B) (m : B → Act (Dir × W) A)
      → ((b : B) → Simulates c d (m b))
      → Simulates c d (on_elements n >>= m)
  unfolding Ends ◌>>=◌
  elements-Simulates {B = B} n m h = simulates λ w. settled (n w)
    where
      settled : (r : Outcome B × W) → Ends c d (continue r.0 m (d, r.1))
      settled (ok b, w') = ended (h b) w'
      settled (err e, w') = refl
      settled (panicked, w') = refl
      settled (blocked, w') = refl

  change-Simulates :
      (f : Dir → Dir) (a : A)
      → Becomes (names_of d) (names_of (f d)) (c a)
      → Simulates c d (change {W = W} f >> pure a)
  unfolding Ends ◌>>=◌
  change-Simulates f a h = simulates λ w. h

last-Simulates :
    {W : Type 0} {c : Change} {d : Dir} (f : Dir → Dir)
    → Becomes (names_of d) (names_of (f d)) c
    → Simulates (λ _. c) d (change {W = W} f)
unfolding Ends
last-Simulates f h = simulates λ w. h

not_taken : {v : Option ℕ} → not (is_some v) ≡ true → v ≡ none
not_taken h = ground arith

module _ (qp : Qp) {W : Type 0} (elements : Elements W) (now : ℕ) where
  add-Simulates :
      (name : String) (file : ℕ) (d : Dir)
      → Simulates {W = W} (λ _. creation name file) d (on_self (add now name file))
  unfolding Ends add
  add-Simulates name file d = simulates λ w. elim (Option-cases (lookup name d.entries)) [
    | inl free ↦ rw free (created name file free (λ n. lookup-insert name n file d.entries))
    | inr (f, taken) ↦ rw taken
  ]

  create-Simulates :
      (user name : String) (perms : ℕ) (d : Dir)
      → Simulates (creation name) d (create qp elements now user name perms)
  unfolding create
  create-Simulates user name perms d = self-Simulates _ (
      require-Simulates _ _ _ λ allowed. require-Simulates _ _ _ λ free. elements-Simulates _ _ λ f.
        change-Simulates _ f
          (created name f (not_taken free) (λ n. lookup-insert name n f d.entries)))

  remove-Simulates :
      (user name : String) (d : Dir)
      → Simulates (λ _. removal name) d (remove qp elements now user name)
  unfolding remove
  remove-Simulates user name d = self-Simulates _ (
      require-Simulates _ _ _ λ allowed. or_raise-Simulates _ _ _ λ f found.
        elements-Simulates _ _ λ removable.
          require-Simulates _ _ _
            λ can. last-Simulates _ (removed name f found (λ n. lookup-delete name n d.entries)))

  rename-Simulates :
      (user old_name new_name : String) (d : Dir)
      → Simulates
          (λ _. renaming old_name new_name)
          d
          (rename qp elements now user old_name new_name)
  unfolding rename
  rename-Simulates user old_name new_name d = self-Simulates _ (
      or_raise-Simulates _ _ _ λ f found. require-Simulates _ _ _ λ free.
        require-Simulates _ _ _ λ allowed. elements-Simulates _ _ λ done. last-Simulates _ (
          renamed old_name new_name f found (not_taken free) λ n. rw (
            lookup-delete old_name n (insert new_name f d.entries),
            lookup-insert new_name n f d.entries,
          )))

  -- A directory refines a map from names to files, whatever the files and the new ones do: each call
  -- of Add, Create, Remove and Rename that returns has made the change of the map that it is for,
  -- and of nothing else in it, where the name was free, or taken, as the change demands; each call
  -- that did not return normally, for want of permission, of a name or of the file's consent, has
  -- left the directory as it was.
  pub dir_refinement :
      (user name new_name : String) (perms file : ℕ) (d : Dir)
      → Simulates {W = W} (λ _. creation name file) d (on_self (add now name file))
        × Simulates (creation name) d (create qp elements now user name perms)
        × Simulates (λ _. removal name) d (remove qp elements now user name)
        × Simulates (λ _. renaming name new_name) d (rename qp elements now user name new_name)
  dir_refinement user name new_name perms file d = (
    add-Simulates name file d,
    create-Simulates user name perms d,
    remove-Simulates user name d,
    rename-Simulates user name new_name d,
  )
