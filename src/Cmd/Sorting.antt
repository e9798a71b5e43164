-- ===== src/Cmd/Sorting.antt =====
-- The order of the command ls of cmd/9pc/main.go: its selection sort, directories first, then by
-- name.
pub mod Laws
use Prim.Native.Char.{Char, code}
use Prim.Native.String.{String}
use qptools.Prelude.{
  ℕ, zero, suc, Bool, true, false, not, ◌&&◌, Option, none, some, List, [], ◌∷◌, ltb, ◌==◌,
  if◌then◌else◌, length, get_elem?, bit_and,
}
use mathlib.Core.Option
use qptools.Qp.{Qp, Stat}

-- s < t: the order of the bytes is the order of the code points
unfoldable pub before : String → String → Bool
before s String.[] = false
before String.[] (String.◌∷◌ d t) = true
before (String.◌∷◌ c s) (String.◌∷◌ d t) =
    let rest = before s t in
    if ltb (code c) (code d) then true else if ltb (code d) (code c) then false else rest

-- append(stats[:k], stats[k+1:]...)
abbrev pub remove_at : {A : Type 0} → (k : ℕ) → List A → List A
remove_at k [] = []
remove_at zero (x ∷ xs) = xs
remove_at (suc k) (x ∷ xs) = x ∷ remove_at k xs

module _ (qp : Qp) where
  abbrev pub is_file : Stat → Bool
  is_file x = bit_and x.mode qp.dmdir == 0

  -- whether the stat wins over the selected one
  unfoldable pub wins : (x selected : Stat) → Bool
  wins x selected =
      if is_file x && not (is_file selected)
      then false
      else if not (is_file x) && is_file selected
      then true
      else before x.name selected.name

  -- The loop over the stats from index `i` on, with the selected one and its index: the index that is
  -- selected at the end.
  unfoldable pub select : (selected : Stat) (idx i : ℕ) (stats : List Stat) → ℕ
  select selected idx i [] = idx
  select selected idx i (x ∷ stats) =
      let won = select x i (suc i) stats in
      let lost = select selected idx (suc i) stats in if wins x selected then won else lost

  -- the whole loop: none when the rounds do not suffice, or when an index is out of range
  unfoldable pub sort_stats : (fuel : ℕ) (stats : List Stat) → Option (List Stat)
  sort_stats fuel [] = some []
  sort_stats zero (x ∷ stats) = none
  sort_stats (suc fuel) (x ∷ stats) =
      let k = select x 0 1 stats in
      elim (get_elem? (x ∷ stats) k) [
        | none ↦ none
        | some s ↦ Option.map (◌∷◌ s) (sort_stats fuel (remove_at k (x ∷ stats)))
      ]
