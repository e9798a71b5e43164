-- ===== src/Prelude/Maps.antt =====
-- Go's `map` as an association list. The source looks keys up, writes, deletes, counts the entries
-- and ranges over them; the order in which it ranges is not specified, and here it is the list's.
use Prim.Native.Nat.{ℕ, zero, suc, ◌≤◌, ◌<◌}
use mathlib.Core.Path.{◌≡◌}
use mathlib.Core.Bool.{Bool, true}
use mathlib.Core.Option.{Option, none, some}
use mathlib.Core.List.{List, [], ◌∷◌}
use mathlib.Core.Logic.{◌↔◌}
use native.Mathlib.Omega.{arith}
use text.Mathlib.Text.{◌==◌ as str_eq}
use text.Mathlib.TextEquality.{eq_iff}
use Prim.Native.String.{String}
use qptools.Prelude.Tests.{◌==◌ as nat_eq, ==_iff, if◌then◌else◌, is_some}
use qptools.Prelude.Lists.{length}

-- Keys that Go's `==` compares.
pub record Key (K : Type 0) : Type 0 where
  pub eq : K → K → Bool
  pub iff : (a b : K) → (eq a b ≡ true) ↔ (a ≡ b)

instance abbrev pub nat_key : Key ℕ
nat_key = record { eq = nat_eq; iff = ==_iff }

instance abbrev pub text_key : Key String
text_key = record { eq = str_eq; iff = eq_iff }

abbrev pub Map : Type 0 → Type 0 → Type 0
Map K V = List (K × V)

module _ {K V : Type 0} ⦃key : Key K⦄ where
  unfoldable pub lookup : K → Map K V → Option V
  lookup k [] = none
  lookup k ((j, v) ∷ m) = if key.eq j k then some v else lookup k m

  -- `delete(m, k)`
  unfoldable pub delete : K → Map K V → Map K V
  delete k [] = []
  delete k ((j, v) ∷ m) = let rest = delete k m in if key.eq j k then rest else (j, v) ∷ rest

  -- `m[k] = v`
  unfoldable pub insert : K → V → Map K V → Map K V
  unfolding delete
  insert k v m = (k, v) ∷ delete k m

  pub lookup-delete :
      (k j : K) (m : Map K V) → lookup j (delete k m) ≡ (if key.eq k j then none else lookup j m)
  unfolding lookup delete
  lookup-delete k j [] = ground arith
  lookup-delete k j ((i, v) ∷ m) =
      ground (arith, lookup-delete k j m, key.iff i k, key.iff i j, key.iff k j)

  pub lookup-insert :
      (k j : K) (v : V) (m : Map K V)
      → lookup j (insert k v m) ≡ (if key.eq k j then some v else lookup j m)
  unfolding lookup insert
  lookup-insert k j v m = ground (arith, lookup-delete k j m)

  pub length-delete-le : (k : K) (m : Map K V) → length (delete k m) ≤ length m
  unfolding delete
  length-delete-le k [] = omega arith
  length-delete-le k ((j, v) ∷ m) = ground (arith, length-delete-le k m)

pub length-delete_lt :
    (k : ℕ) (m : Map ℕ ℕ) → is_some (lookup k m) ≡ true → length (delete k m) < length m
unfolding lookup delete
length-delete_lt k [] h = ground arith
length-delete_lt k ((j, v) ∷ m) h = ground (arith, length-delete_lt k m, length-delete-le k m)

-- A map in which `n` different keys stand has `n` entries at least.
pub pigeonhole :
    (n : ℕ) (g : ℕ → ℕ) (m : Map ℕ ℕ)
    → ((i j : ℕ) → i < n → j < n → g i ≡ g j → i ≡ j)
    → ((i : ℕ) → i < n → is_some (lookup (g i) m) ≡ true)
    → n ≤ length m
pigeonhole zero g m apart inside = omega arith
pigeonhole (suc n) g m apart inside =
    let rest =
      pigeonhole n g (delete (g n) m) (λ i j a b e. apart i j (omega arith) (omega arith) e)
        (λ i a. ground (arith, inside i, apart i n, lookup-delete (g n) (g i) m)) in
    omega (arith, rest, length-delete_lt (g n) m (inside n (omega arith)))
