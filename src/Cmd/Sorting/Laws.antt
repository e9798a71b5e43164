-- ===== src/Cmd/Sorting/Laws.antt =====
-- The selection sort of ls.
use Prim.Native.String.{String}
use mathlib.Core.List.{
  Mem, Perm, Pairwise, mem-cons_self, mem-cons_of_mem, not-mem-nil, forall_mem-cons,
}
use mathlib.Core.List.Perm
use qptools.Prelude.{
  ℕ, zero, suc, ◌≤◌, ◌≡◌, refl, ap, inl, inr, true, false, some, List, [], ◌∷◌, arith, Bool-cases,
  length, get_elem?, drop,
}
use qptools.Qp.{Qp, Stat}
use qptools.Cmd.Sorting.{before, is_file, wins, select, sort_stats, remove_at}

before_asym : (s t : String) → before s t ≡ true → before t s ≡ false
unfolding before
before_asym s String.[] e = absurd (ground arith)
before_asym String.[] (String.◌∷◌ d t) e = refl
before_asym (String.◌∷◌ c s) (String.◌∷◌ d t) e = ground (arith, before_asym s t, e)

before_trans : (s t u : String) → before t s ≡ false → before u t ≡ false → before u s ≡ false
unfolding before
before_trans String.[] t u p q = refl
before_trans (String.◌∷◌ c s) String.[] u p q = absurd (ground arith)
before_trans (String.◌∷◌ c s) (String.◌∷◌ d t) String.[] p q = absurd (ground arith)
before_trans (String.◌∷◌ c s) (String.◌∷◌ d t) (String.◌∷◌ e u) p q =
    ground (arith, before_trans s t u, p, q)

module _ {A : Type 0} where
  next_elem :
      (all : List A) (i : ℕ) (x : A) (rest : List A)
      → drop i all ≡ x ∷ rest
      → (get_elem? all i ≡ some x) × (drop (suc i) all ≡ rest)
  next_elem [] zero x rest e = absurd (cc e)
  next_elem [] (suc i) x rest e = absurd (cc e)
  next_elem (y ∷ all) zero x rest e = (cc e, cc e)
  next_elem (y ∷ all) (suc i) x rest e = next_elem all i x rest e

  remove_at-perm :
      (xs : List A) (k : ℕ) (x : A) → get_elem? xs k ≡ some x → Perm (x ∷ remove_at k xs) xs
  remove_at-perm [] k x e = absurd (cc e)
  remove_at-perm (y ∷ xs) zero x e = let same : (y ≡ x) = cc e in rw same Perm.rfl
  remove_at-perm (y ∷ xs) (suc k) x e =
      Perm.trans (Perm.swap y x (remove_at k xs)) (Perm.cons y (remove_at-perm xs k x e))

  length-remove_at :
      (xs : List A) (k : ℕ) (x : A)
      → get_elem? xs k ≡ some x
      → suc (length (remove_at k xs)) ≡ length xs
  length-remove_at [] k x e = absurd (cc e)
  length-remove_at (y ∷ xs) zero x e = refl
  length-remove_at (y ∷ xs) (suc k) x e = ap suc (length-remove_at xs k x e)

module _ (qp : Qp) where
  -- the second does not win over the first
  abbrev pub IsBefore : Stat → Stat → Type 0
  IsBefore x y = wins qp y x ≡ false

  IsBefore-trans : (x y z : Stat) → IsBefore x y → IsBefore y z → IsBefore x z
  unfolding wins
  IsBefore-trans x y z p q = elim (Bool-cases (is_file qp x)) [
    | inl ex ↦ elim (Bool-cases (is_file qp y)) [
      | inl ey ↦ elim (Bool-cases (is_file qp z)) [
        | inl ez ↦
            rw (ex, ez) (before_trans x.name y.name z.name (rw (ex, ey) at p) (rw (ey, ez) at q))
        | inr ez ↦ absurd (ground (arith, rw (ey, ez) at q))
      ]
      | inr ey ↦ absurd (ground (arith, rw (ex, ey) at p))
    ]
    | inr ex ↦ elim (Bool-cases (is_file qp z)) [
      | inl ez ↦ rw (ex, ez) refl
      | inr ez ↦ elim (Bool-cases (is_file qp y)) [
        | inl ey ↦ absurd (ground (arith, rw (ey, ez) at q))
        | inr ey ↦
            rw (ex, ez) (before_trans x.name y.name z.name (rw (ex, ey) at p) (rw (ey, ez) at q))
      ]
    ]
  ]

  wins-IsBefore : (x y : Stat) → wins qp x y ≡ true → IsBefore x y
  unfolding wins
  wins-IsBefore x y e = elim (Bool-cases (is_file qp x)) [
    | inl ex ↦ elim (Bool-cases (is_file qp y)) [
      | inl ey ↦ rw (ex, ey) (before_asym x.name y.name (rw (ex, ey) at e))
      | inr ey ↦ absurd (ground (arith, rw (ex, ey) at e))
    ]
    | inr ex ↦ elim (Bool-cases (is_file qp y)) [
      | inl ey ↦ rw (ex, ey) refl
      | inr ey ↦ rw (ex, ey) (before_asym x.name y.name (rw (ex, ey) at e))
    ]
  ]

  -- the stat that the loop ends with
  chosen : Stat → List Stat → Stat
  chosen selected [] = selected
  chosen selected (x ∷ stats) = elim (wins qp x selected) [
    | true ↦ chosen x stats
    | false ↦ chosen selected stats
  ]

  select_lem :
      (all : List Stat) (selected : Stat) (idx i : ℕ) (stats : List Stat)
      → get_elem? all idx ≡ some selected
      → drop i all ≡ stats
      → get_elem? all (select qp selected idx i stats) ≡ some (chosen selected stats)
  unfolding select chosen
  select_lem all selected idx i [] e d = e
  select_lem all selected idx i (x ∷ stats) e d =
      let (here, on) = next_elem all i x stats d in
      elim (Bool-cases (wins qp x selected)) [
        | inl w ↦ rw (w, chosen) (select_lem all x i (suc i) stats here on)
        | inr w ↦ rw (w, chosen) (select_lem all selected idx (suc i) stats e on)
      ]

  IsBefore-refl : (x : Stat) → IsBefore x x
  IsBefore-refl x = elim (Bool-cases (wins qp x x)) [ inl e ↦ wins-IsBefore x x e | inr e ↦ e ]

  abbrev IsFirst : Stat → List Stat → Type 0
  IsFirst x stats = (y : Stat) → Mem y stats → IsBefore x y

  IsFirst-cons :
      (x : Stat) {y : Stat} {stats : List Stat}
      → IsBefore x y
      → IsFirst x stats
      → IsFirst x (y ∷ stats)
  IsFirst-cons x p h = (forall_mem-cons {p = IsBefore x} (λ y. hlevel)).1 (p, h)

  chosen-IsFirst :
      (selected : Stat) (stats : List Stat) → IsFirst (chosen selected stats) (selected ∷ stats)
  unfolding chosen
  chosen-IsFirst selected [] =
      IsFirst-cons _ (IsBefore-refl selected) (λ y m. absurd (not-mem-nil m))
  chosen-IsFirst selected (x ∷ stats) = elim (Bool-cases (wins qp x selected)) [
    | inl w ↦
        let first = chosen-IsFirst x stats in
        rw (w, chosen)
          (IsFirst-cons _
            (IsBefore-trans (chosen x stats) x selected (first x mem-cons_self)
              (wins-IsBefore x selected w))
            first)
    | inr w ↦
        let first = chosen-IsFirst selected stats in
        let here = first selected mem-cons_self in
        rw (w, chosen)
          (IsFirst-cons _ here (
            IsFirst-cons _ (IsBefore-trans (chosen selected stats) selected x here w)
              (λ y m. first y (mem-cons_of_mem selected m))))
  ]

  abbrev pub IsListed : List Stat → Type 0
  IsListed = Pairwise IsBefore

  -- The sort of ls: with a round for each stat it returns a list, which has the same stats, each as
  -- often, and in which no later stat wins over an earlier one.
  pub sort_stats_lem :
      (fuel : ℕ) (stats : List Stat)
      → length stats ≤ fuel
      → (sorted : List Stat) × (sort_stats qp fuel stats ≡ some sorted)
        × Perm sorted stats
        × IsListed sorted
  unfolding sort_stats
  sort_stats_lem fuel [] h = ([], refl, Perm.rfl, Pairwise.nil)
  sort_stats_lem zero (x ∷ stats) h = absurd (omega arith)
  sort_stats_lem (suc fuel) (x ∷ stats) h =
      let k = select qp x 0 1 stats in
      let s = chosen x stats in
      let found = select_lem (x ∷ stats) x 0 1 stats refl refl in
      let perm = remove_at-perm (x ∷ stats) k s found in
      let (sorted, e, p, ordered) =
        sort_stats_lem fuel (remove_at k (x ∷ stats))
          (omega (arith, length-remove_at (x ∷ stats) k s found, h)) in
      let whole = Perm.trans (Perm.cons s p) perm in
      (
        s ∷ sorted,
        rw (sort_stats, found, e) refl,
        whole,
        Pairwise.cons
            (λ y m. chosen-IsFirst x stats y ((Perm.mem_iff whole).0 (mem-cons_of_mem s m)))
            ordered,
      )
