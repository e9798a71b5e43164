-- ===== src/Fileserver/Path.antt =====
-- FilePath of fileserver/utils.go: the files from the root of a tree down to the current one.
use qptools.Prelude.{
  ℕ, suc, ◌-◌, ◌<◌, ◌≡◌, refl, ap, Option, none, some, List, [], ◌∷◌, ◌++◌, arith, ◌==◌, ltb,
  if◌then◌else◌, length, get_elem?, take, length-append, length-take,
}

-- FilePath.Current
unfoldable pub current : List ℕ → Option ℕ
current fp = if length fp == 0 then none else get_elem? fp (length fp - 1)

-- FilePath.Parent
unfoldable pub parent : List ℕ → Option ℕ
parent fp =
    if length fp == 0
    then none
    else if length fp == 1
    then get_elem? fp (length fp - 1)
    else get_elem? fp (length fp - 2)

-- FilePath.Clone: element by element, into a slice of the same length
unfoldable pub clone : List ℕ → List ℕ
clone [] = []
clone (f ∷ fp) = f ∷ clone fp

-- What a walk to ".." leaves: `fp[:len(fp)-1]`, unless the root alone is left.
unfoldable pub shorten : List ℕ → List ℕ
shorten fp = if ltb 1 (length fp) then take (length fp - 1) fp else fp

pub clone_lem : (fp : List ℕ) → clone fp ≡ fp
unfolding clone
clone_lem [] = refl
clone_lem (f ∷ fp) = ap (◌∷◌ f) (clone_lem fp)

get_elem?-last : (fp : List ℕ) (f : ℕ) → get_elem? (fp ++ f ∷ []) (length fp) ≡ some f
get_elem?-last [] f = refl
get_elem?-last (x ∷ fp) f = get_elem?-last fp f

get_elem?-before : (fp : List ℕ) (f g : ℕ) → get_elem? (fp ++ f ∷ g ∷ []) (length fp) ≡ some f
get_elem?-before [] f g = refl
get_elem?-before (x ∷ fp) f g = get_elem?-before fp f g

take-append : (fp rest : List ℕ) → take (length fp) (fp ++ rest) ≡ fp
take-append [] rest = refl
take-append (x ∷ fp) rest = ap (◌∷◌ x) (take-append fp rest)

-- The file that was appended is the current one, and the one before it is its parent.
pub current-append : (fp : List ℕ) (f : ℕ) → current (fp ++ f ∷ []) ≡ some f
unfolding current
current-append fp f =
    let e : length (fp ++ f ∷ []) ≡ suc (length fp) = omega (arith, length-append fp (f ∷ [])) in
    let i : suc (length fp) - 1 ≡ length fp = omega arith in
    rw (e, i) (ground (arith, get_elem?-last fp f))

pub parent-append : (fp : List ℕ) (f g : ℕ) → parent (fp ++ f ∷ g ∷ []) ≡ some f
unfolding parent
parent-append fp f g =
    let e : length (fp ++ f ∷ g ∷ []) ≡ suc (suc (length fp)) =
      omega (arith, length-append fp (f ∷ g ∷ [])) in
    let i : suc (suc (length fp)) - 2 ≡ length fp = omega arith in
    rw (e, i) (ground (arith, get_elem?-before fp f g))

-- A step up undoes the step down that appended `g`.
pub shorten-append : (fp : List ℕ) (g : ℕ) → 0 < length fp → shorten (fp ++ g ∷ []) ≡ fp
unfolding shorten
shorten-append fp g h =
    let e : length (fp ++ g ∷ []) ≡ suc (length fp) = omega (arith, length-append fp (g ∷ [])) in
    let i : suc (length fp) - 1 ≡ length fp = omega arith in
    rw (e, i) (ground (arith, take-append fp (g ∷ [])))

pub length-shorten :
    (fp : List ℕ) → length (shorten fp) ≡ (if ltb 1 (length fp) then length fp - 1 else length fp)
unfolding shorten
length-shorten fp = ground (arith, length-take (length fp - 1) fp)

-- A path that is not empty stays so.
pub length-shorten_pos : (fp : List ℕ) → 0 < length fp → 0 < length (shorten fp)
unfolding shorten
length-shorten_pos fp h = ground (arith, length-take (length fp - 1) fp)

get_elem?-total : (f : ℕ) (fp : List ℕ) → (g : ℕ) × (get_elem? (f ∷ fp) (length fp) ≡ some g)
get_elem?-total f [] = (f, refl)
get_elem?-total f (x ∷ fp) = get_elem?-total x fp

pub current_total : (fp : List ℕ) → 0 < length fp → (g : ℕ) × (current fp ≡ some g)
unfolding current
current_total [] h = absurd (omega arith)
current_total (f ∷ fp) h =
    let (g, e) = get_elem?-total f fp in
    let i : suc (length fp) - 1 ≡ length fp = omega arith in (g, rw i (ground arith))

pub length_of_current : (fp : List ℕ) {f : ℕ} → current fp ≡ some f → 0 < length fp
unfolding current
length_of_current fp h = ground arith
