-- ===== src/Trees/Memory/Whole.antt =====
-- Stores in which what a directory or a handle names is there, and actions on them.
use qptools.Prelude.{
  ℕ, ◌≡◌, refl, String, Bool, true, false, Bool-cases, Option-cases, inl, inr, Option, none, some,
  ◌==◌, arith, is_some, if◌then◌else◌,
}
use qptools.Prelude.Maps.{lookup, insert, nat_key, text_key, lookup-insert}
use qptools.Act.{Act, Outcome, ok, err, panicked, blocked, panic}
use qptools.Trees.Dir.{Dir}
use qptools.Trees.File.{File, Handle}
use qptools.Trees.Listing.{ListHandle}
use qptools.Trees.Memory.{Memory, is_even, at_dir, at_file}

abbrev pub found : ℕ → Memory → Bool
found f s = if is_even f then is_some (lookup f s.dirs) else is_some (lookup f s.files)

-- there is a directory or a file at the address
abbrev pub IsPresent : ℕ → Memory → Type 0
IsPresent f s = found f s ≡ true

-- the files of the directory are there
abbrev pub HasEntries : Dir → Memory → Type 0
HasEntries d s = (name : String) (f : ℕ) → lookup name d.entries ≡ some f → IsPresent f s

pub record IsWhole (s : Memory) : Type 0 where
  pub entries : (a : ℕ) (d : Dir) → lookup a s.dirs ≡ some d → HasEntries d s
  pub listed :
      (h : ℕ) (x : ℕ × ListHandle)
      → lookup h s.listings ≡ some x
      → (is_even x.0 ≡ true) × IsPresent x.0 s
  pub handled :
      (h : ℕ) (x : ℕ × Handle)
      → lookup h s.handles ≡ some x
      → (is_even x.0 ≡ false) × IsPresent x.0 s

-- what was there is still there
abbrev pub Grows : Memory → Memory → Type 0
Grows s t = (f : ℕ) → IsPresent f s → IsPresent f t

abbrev pub Returned : Option ℕ → Memory → Type 0
Returned none s = Unit {0}
Returned (some f) s = IsPresent f s

abbrev pub Yielded : {A : Type 0} → (A → Option ℕ) → Outcome A → Memory → Type 0
Yielded g (ok a) s = Returned (g a) s
Yielded g (err e) s = Unit {0}
Yielded g panicked s = Unit {0}
Yielded g blocked s = Unit {0}

-- The addresses that an action returns are there, and so is what was there before; `g` is the
-- address in what it returns, if that is one.
pub record IsSafe {A : Type 0} (g : A → Option ℕ) (m : Act Memory A) : Type 0 where
  pub whole : (s : Memory) → IsWhole s → IsWhole (m s).1
  pub grows : (s : Memory) → IsWhole s → Grows s (m s).1
  pub yields : (s : Memory) → IsWhole s → Yielded g (m s).0 (m s).1

abbrev pub put_dir : ℕ → Dir → Memory → Memory
put_dir a d s = record s { dirs = insert a d s.dirs }

abbrev pub put_file : ℕ → File → Memory → Memory
put_file a f s = record s { files = insert a f s.files }

pub put_dir-Grows : (a : ℕ) (d : Dir) (s : Memory) → Grows s (put_dir a d s)
put_dir-Grows a d s f h = elim (Bool-cases (is_even f)) [
  | inl e ↦ rw e (ground (arith, lookup-insert a f d s.dirs, rw e at h))
  | inr e ↦ rw e (rw e at h)
]

pub put_file-Grows : (a : ℕ) (x : File) (s : Memory) → Grows s (put_file a x s)
put_file-Grows a x s f h = elim (Bool-cases (is_even f)) [
  | inl e ↦ rw e (rw e at h)
  | inr e ↦ rw e (ground (arith, lookup-insert a f x s.files, rw e at h))
]

-- A change after which the directories are those before, the handles too, and nothing is gone.
pub IsWhole-grown :
    {s t : Memory}
    → IsWhole s
    → Grows s t
    → ((a : ℕ) (d : Dir) → lookup a t.dirs ≡ some d → HasEntries d t)
    → t.listings ≡ s.listings
    → t.handles ≡ s.handles
    → IsWhole t
IsWhole-grown {s} {t} w g e l k = record {
  entries = e;
  listed = λ h x i. let (u, v) = w.listed h x (rw l at i) in (u, g x.0 v);
  handled = λ h x i. let (u, v) = w.handled h x (rw k at i) in (u, g x.0 v);
}

put_dir-entries :
    (a : ℕ) (d : Dir) (s : Memory)
    → IsWhole s
    → HasEntries d s
    → (b : ℕ) (x : Dir) → lookup b (insert a d s.dirs) ≡ some x
    → HasEntries x (put_dir a d s)
put_dir-entries a d s w h b x e name f i = put_dir-Grows a d s f (elim (Bool-cases (a == b)) [
  | inl same ↦
      let here : (d ≡ x) = cc (rw same at (rw (lookup-insert a b d s.dirs) at e)) in
      h name f (rw here i)
  | inr other ↦ w.entries b x (rw other at (rw (lookup-insert a b d s.dirs) at e)) name f i
])

pub put_dir-IsWhole :
    (a : ℕ) (d : Dir) (s : Memory) → IsWhole s → HasEntries d s → IsWhole (put_dir a d s)
put_dir-IsWhole a d s w h =
    IsWhole-grown w (put_dir-Grows a d s) (put_dir-entries a d s w h) refl refl

pub put_file-IsWhole : (a : ℕ) (x : File) (s : Memory) → IsWhole s → IsWhole (put_file a x s)
put_file-IsWhole a x s w =
    IsWhole-grown w (put_file-Grows a x s)
      (λ b d e name f i. put_file-Grows a x s f (w.entries b d e name f i)) refl refl

pub Grows_trans : (s t u : Memory) → Grows s t → Grows t u → Grows s u
Grows_trans s t u g h f p = h f (g f p)

Returned-grown : (o : Option ℕ) (s t : Memory) → Grows s t → Returned o s → Returned o t
Returned-grown none s t grown y = tt
Returned-grown (some f) s t grown y = grown f y

pub Yielded-grown :
    {A : Type 0} (g : A → Option ℕ) (r : Outcome A) (s t : Memory)
    → Grows s t
    → Yielded g r s
    → Yielded g r t
Yielded-grown g (ok a) s t grown y = Returned-grown (g a) s t grown y
Yielded-grown g (err e) s t grown y = tt
Yielded-grown g panicked s t grown y = tt
Yielded-grown g blocked s t grown y = tt

-- no address is returned
abbrev pub no_address : {A : Type 0} → A → Option ℕ
no_address a = none

pub Yielded-none : {A : Type 0} (r : Outcome A) (s : Memory) → Yielded no_address r s
Yielded-none (ok a) s = tt
Yielded-none (err e) s = tt
Yielded-none panicked s = tt
Yielded-none blocked s = tt

-- How a method of a directory leaves the directory and the store, which was `s`.
pub record Stays {A : Type 0} (g : A → Option ℕ) (s : Memory) (x : Outcome A × (Dir × Memory))
    : Type 0 where
  pub whole : IsWhole x.1.1
  pub grows : Grows s x.1.1
  pub entries : HasEntries x.1.0 x.1.1
  pub yields : Yielded g x.0 x.1.1

pub data DirSafe {A : Type 0} (g : A → Option ℕ) (m : Act (Dir × Memory) A) : Type 0 where
  dir_safe :
      ((d : Dir) (s : Memory) → IsWhole s → HasEntries d s → Stays g s (m (d, s))) → DirSafe g m

abbrev pub stays :
    {A : Type 0} {g : A → Option ℕ} {m : Act (Dir × Memory) A}
    → DirSafe g m
    → (d : Dir) (s : Memory) → IsWhole s
    → HasEntries d s
    → Stays g s (m (d, s))
stays (dir_safe h) = h

module _ {A : Type 0} {g : A → Option ℕ} where
  -- a method of the directory at an address
  pub at_dir-IsSafe : (a : ℕ) {m : Act (Dir × Memory) A} → DirSafe g m → IsSafe g (at_dir a m)
  unfolding at_dir panic
  at_dir-IsSafe a {m} h = record {
    whole = λ s w. (both s w).0;
    grows = λ s w. (both s w).1;
    yields = λ s w. (both s w).2;
  }
    where
      both :
          (s : Memory)
          → IsWhole s
          → IsWhole (at_dir a m s).1
            × Grows s (at_dir a m s).1
            × Yielded g (at_dir a m s).0 (at_dir a m s).1
      both s w = elim (Option-cases (lookup a s.dirs)) [
        | inl e ↦ rw (at_dir, e) (w, λ f p. p, tt)
        | inr (d, e) ↦
            let st = stays h d s w (w.entries a d e) in
            let after = (m (d, s)).1 in
            rw (at_dir, e)
              (
                put_dir-IsWhole a after.0 after.1 st.whole st.entries,
                Grows_trans s after.1 (put_dir a after.0 after.1) st.grows
                    (put_dir-Grows a after.0 after.1),
                Yielded-grown g (m (d, s)).0 after.1 (put_dir a after.0 after.1)
                    (put_dir-Grows a after.0 after.1) st.yields,
              )
      ]

pub at_file-IsSafe : {A : Type 0} (a : ℕ) (m : Act File A) → IsSafe no_address (at_file a m)
unfolding at_file panic
at_file-IsSafe a m = record {
  whole = λ s w. (both s w).0;
  grows = λ s w. (both s w).1;
  yields = λ s w. Yielded-none (at_file a m s).0 (at_file a m s).1;
}
  where
    both : (s : Memory) → IsWhole s → IsWhole (at_file a m s).1 × Grows s (at_file a m s).1
    both s w = elim (Option-cases (lookup a s.files)) [
      | inl e ↦ rw (at_file, e) (w, λ f p. p)
      | inr (x, e) ↦ rw (at_file, e) (put_file-IsWhole a (m x).1 s w, put_file-Grows a (m x).1 s)
    ]
