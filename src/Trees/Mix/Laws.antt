-- ===== src/Trees/Mix/Laws.antt =====
-- What stands in the listing of a MixDir, and which of the two directories a name belongs to.
use text.Mathlib.TextEquality.{eq_iff}
use text.Mathlib.Text.{◌==◌ as str_eq}
use qptools.Prelude.{
  ℕ, ◌≡◌, refl, ap, ◌∙◌, String, Option, none, some, List, [], ◌∷◌, arith, if◌then◌else◌,
  Bool-cases, inl, inr,
}
use qptools.Prelude.Maps.{Map, lookup, insert, delete, text_key, lookup-insert, lookup-delete}
use qptools.Act.{Act, ok, ◌>>=◌}
use qptools.Qp.{Stat}
use qptools.Trees.{Tree}
use qptools.Trees.Mix.{Mix, index, entries_of, mix_list}

-- The entry for a name in a listing: the last one.
abbrev pub find_entry : String → List Stat → Option Stat
find_entry name [] = none
find_entry name (s ∷ ss) =
    let later = find_entry name ss in
    elim later [ some t ↦ some t | none ↦ if str_eq s.name name then some s else none ]

abbrev pub or_else : Option Stat → Option Stat → Option Stat
or_else none o = o
or_else (some s) o = some s

lookup-index :
    (name : String) (ss : List Stat) (m : Map String Stat)
    → lookup name (index ss m) ≡ or_else (find_entry name ss) (lookup name m)
unfolding index
lookup-index name [] m = refl
lookup-index name (s ∷ ss) m =
    ground (arith, lookup-index name ss (insert s.name s m), lookup-insert s.name name s m)

or_else-none : (o : Option Stat) → or_else o none ≡ o
or_else-none none = refl
or_else-none (some s) = refl

lookup-index_nil : (name : String) (ss : List Stat) → lookup name (index ss []) ≡ find_entry name ss
unfolding lookup
lookup-index_nil name ss = lookup-index name ss [] ∙ or_else-none (find_entry name ss)

-- A map whose keys are the names of its values, each once.
pub data Keyed : Map String Stat → Type 0 where
  no_entry : Keyed []
  entry :
      (s : Stat) (m : Map String Stat) → lookup s.name m ≡ none → Keyed m → Keyed ((s.name, s) ∷ m)

delete-Keyed : (name : String) (m : Map String Stat) → Keyed m → Keyed (delete name m)
unfolding delete
delete-Keyed name [] no_entry = no_entry
delete-Keyed name ((_, _) ∷ _) (entry s m free rest) = elim (Bool-cases (str_eq s.name name)) [
  | inl same ↦ rw same (delete-Keyed name m rest)
  | inr other ↦ rw other (
      entry s (delete name m) (ground (arith, free, lookup-delete name s.name m))
        (delete-Keyed name m rest))
]

index-Keyed : (ss : List Stat) (m : Map String Stat) → Keyed m → Keyed (index ss m)
unfolding index insert
index-Keyed [] m k = k
index-Keyed (s ∷ ss) m k = index-Keyed ss (insert s.name s m) (
    entry s (delete s.name m) (ground (arith, lookup-delete s.name s.name m, eq_iff s.name s.name))
      (delete-Keyed s.name m k))

find_entry-entries_of :
    (name : String) (m : Map String Stat) → Keyed m → find_entry name (entries_of m) ≡ lookup name m
unfolding entries_of lookup
find_entry-entries_of name [] no_entry = refl
find_entry-entries_of name ((_, _) ∷ _) (entry s m free rest) =
    ground (arith, find_entry-entries_of name m rest, free, eq_iff s.name name)

-- A listing in which no name stands twice.
pub data EachOnce : List Stat → Type 0 where
  no_more : EachOnce []
  once : (s : Stat) (ss : List Stat) → find_entry s.name ss ≡ none → EachOnce ss → EachOnce (s ∷ ss)

entries_of-EachOnce : (m : Map String Stat) → Keyed m → EachOnce (entries_of m)
unfolding entries_of
entries_of-EachOnce [] no_entry = no_more
entries_of-EachOnce ((_, _) ∷ _) (entry s m free rest) =
    once s (entries_of m) (find_entry-entries_of s.name m rest ∙ free) (entries_of-EachOnce m rest)

-- The listing of a MixDir, where both directories can be listed: a name stands in it if it stands in
-- one of theirs, with the stat of Top if it has the name, and with that of Bottom if not, and once
-- only.
pub mix_list_lem :
    {W : Type 0} (tree : Tree W) (list : (dir : ℕ) (user : String) → Act W (List Stat)) (mt : Mix)
    (user : String) (below above : List Stat) (w w₁ w₂ : W)
    → list mt.bottom user w ≡ (ok below, w₁)
    → list mt.top user w₁ ≡ (ok above, w₂)
    → (ss : List Stat) × (mix_list tree list mt user w ≡ (ok ss, w₂))
      × ((name : String)
          → find_entry name ss ≡ or_else (find_entry name above) (find_entry name below))
      × EachOnce ss
unfolding mix_list ◌>>=◌
mix_list_lem tree list mt user below above w w₁ w₂ bottom top =
    let m = index above (index below []) in
    let keyed = index-Keyed above (index below []) (index-Keyed below [] no_entry) in
    (
      entries_of m,
      rw (bottom, top),
      λ name.
          find_entry-entries_of name m keyed
          ∙ lookup-index name above (index below [])
          ∙ ap (or_else (find_entry name above)) (lookup-index_nil name below),
      entries_of-EachOnce m keyed,
    )
