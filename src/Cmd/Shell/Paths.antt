-- ===== src/Cmd/Shell/Paths.antt =====
-- What parsepath returns.
use Prim.Native.String.{String}
use text.Mathlib.Text.{◌==◌ as str_eq}
use text.Mathlib.TextEquality.{eq_iff}
use qptools.Prelude.{
  ◌≡◌, refl, sym, ◌∙◌, append-nil, append_assoc, Bool, true, false, Bool-cases, Option-cases, inl,
  inr, not, ◌&&◌, ◌||◌, some, List, [], ◌∷◌, ◌++◌, arith,
}
use qptools.Client.Paths.{last, but_last, split}
use qptools.Cmd.Shell.{take_name, take_names, parse_path}

abbrev pub is_up : String → Bool
is_up s = str_eq s ".."

abbrev pub is_plain : String → Bool
is_plain s = not (str_eq s "") && not (str_eq s ".") && not (is_up s)

pub data AllPlain : List String → Type 0 where
  none_left : AllPlain []
  plain : {s : String} {ss : List String} → is_plain s ≡ true → AllPlain ss → AllPlain (s ∷ ss)

-- Names ".." at the front only, and neither "." nor an empty one.
pub data IsNormal : List String → Type 0 where
  plains : {ss : List String} → AllPlain ss → IsNormal ss
  up : {s : String} {ss : List String} → is_up s ≡ true → IsNormal ss → IsNormal (s ∷ ss)

AllPlain-snoc :
    {ss : List String} (s : String) → is_plain s ≡ true → AllPlain ss → AllPlain (ss ++ s ∷ [])
AllPlain-snoc s p none_left = plain p none_left
AllPlain-snoc s p (plain q h) = plain q (AllPlain-snoc s p h)

IsNormal-snoc_plain :
    {ss : List String} (s : String) → is_plain s ≡ true → IsNormal ss → IsNormal (ss ++ s ∷ [])
IsNormal-snoc_plain s p (plains h) = plains (AllPlain-snoc s p h)
IsNormal-snoc_plain s p (up u h) = up u (IsNormal-snoc_plain s p h)

AllPlain-but_last : {ss : List String} → AllPlain ss → AllPlain (but_last ss)
AllPlain-but_last none_left = none_left
AllPlain-but_last (plain p none_left) = none_left
AllPlain-but_last (plain p (plain q h)) = plain p (AllPlain-but_last (plain q h))

IsNormal-but_last : {ss : List String} → IsNormal ss → IsNormal (but_last ss)
IsNormal-but_last (plains h) = plains (AllPlain-but_last h)
IsNormal-but_last {ss = s ∷ []} (up u h) = plains none_left
IsNormal-but_last {ss = s ∷ t ∷ ss} (up u h) = up u (IsNormal-but_last {ss = t ∷ ss} h)

AllPlain-last :
    {ss : List String} (top : String) → AllPlain ss → last ss ≡ some top → is_plain top ≡ true
AllPlain-last top none_left e = absurd (cc e)
AllPlain-last {ss = s ∷ []} top (plain p none_left) e = let same : (s ≡ top) = cc e in rw (← same) p
AllPlain-last top (plain p (plain q h)) e = AllPlain-last top (plain q h) e

plain_not_up : (s : String) → is_plain s ≡ true → is_up s ≡ true → ⊥
plain_not_up s p u = ground arith

last_cons : (s : String) (ss : List String) → (top : String) × (last (s ∷ ss) ≡ some top)
last_cons s [] = (s, refl)
last_cons s (t ∷ ss) = last_cons t ss

-- after names that are none or end in ".." another one may follow
IsNormal-snoc_up :
    {ss : List String} (s : String)
    → is_up s ≡ true
    → IsNormal ss
    → ((top : String) → last ss ≡ some top → is_up top ≡ true)
    → IsNormal (ss ++ s ∷ [])
IsNormal-snoc_up {ss = []} s u n h = up u (plains none_left)
IsNormal-snoc_up {ss = t ∷ []} s u n h = up (h t refl) (up u (plains none_left))
IsNormal-snoc_up {ss = t ∷ t' ∷ ss} s u (up v n) h = up v (IsNormal-snoc_up {ss = t' ∷ ss} s u n h)
IsNormal-snoc_up {ss = t ∷ t' ∷ ss} s u (plains a) h =
    let (top, e) = last_cons t' ss in absurd (plain_not_up top (AllPlain-last top a e) (h top e))

take_name-IsNormal :
    (names : List String) (name : String) → IsNormal names → IsNormal (take_name names name)
unfolding take_name
take_name-IsNormal names name n = elim (Bool-cases (str_eq name "" || str_eq name ".")) [
  | inl e ↦ rw (take_name, e) n
  | inr e ↦ elim (Bool-cases (str_eq name "..")) [
    | inr f ↦ rw (take_name, e, f) (IsNormal-snoc_plain name (ground (arith, e, f)) n)
    | inl f ↦ elim (Option-cases (last names)) [
      | inl g ↦ rw (take_name, e, f, g) (IsNormal-snoc_up name f n (λ top h. absurd (cc (g, h))))
      | inr (top, g) ↦ elim (Bool-cases (str_eq top "..")) [
        | inl t ↦
            rw (take_name, e, f, g, t)
              (IsNormal-snoc_up name f n
                (λ top' h. let same : (top ≡ top') = cc (g, h) in rw (← same) t))
        | inr t ↦ rw (take_name, e, f, g, t) (IsNormal-but_last n)
      ]
    ]
  ]
]

take_names-IsNormal : (names ss : List String) → IsNormal names → IsNormal (take_names names ss)
unfolding take_names
take_names-IsNormal names [] n = n
take_names-IsNormal names (s ∷ ss) n =
    take_names-IsNormal (take_name names s) ss (take_name-IsNormal names s n)

-- Taken again, the names are what they were.
take_name-plain :
    (names : List String) (s : String) → is_plain s ≡ true → take_name names s ≡ names ++ s ∷ []
unfolding take_name
take_name-plain names s p =
    let empty : ((str_eq s "" || str_eq s ".") ≡ false) = ground (arith, p) in
    let up : (str_eq s ".." ≡ false) = ground (arith, p) in rw (take_name, empty, up) refl

take_names-AllPlain :
    (names : List String) {ss : List String} → AllPlain ss → take_names names ss ≡ names ++ ss
unfolding take_names
take_names-AllPlain names none_left = sym (append-nil names)
take_names-AllPlain names (plain {s} {ss} p h) =
    rw (take_names, take_name-plain names s p)
      (take_names-AllPlain (names ++ s ∷ []) h ∙ append_assoc names (s ∷ []) ss)

-- the last name, if there is one, is ".."
abbrev EndsUp : List String → Type 0
EndsUp names = (top : String) → last names ≡ some top → is_up top ≡ true

take_name-up :
    (names : List String) (s : String)
    → is_up s ≡ true
    → EndsUp names
    → take_name names s ≡ names ++ s ∷ []
unfolding take_name
take_name-up names s u ends =
    let here : (s ≡ "..") = (eq_iff s "..").0 u in
    let other : ((str_eq s "" || str_eq s ".") ≡ false) = rw here refl in
    elim (Option-cases (last names)) [
      | inl g ↦ rw (take_name, other, u, g) refl
      | inr (top, g) ↦ let same = ends top g in rw (take_name, other, u, g, same) refl
    ]

last-snoc : (names : List String) (s : String) → last (names ++ s ∷ []) ≡ some s
last-snoc [] s = refl
last-snoc (t ∷ []) s = refl
last-snoc (t ∷ t' ∷ names) s = last-snoc (t' ∷ names) s

take_names-IsNormal_same :
    (names : List String) {ss : List String}
    → EndsUp names
    → IsNormal ss
    → take_names names ss ≡ names ++ ss
unfolding take_names
take_names-IsNormal_same names ends (plains h) = take_names-AllPlain names h
take_names-IsNormal_same names ends (up {s} {ss} u h) =
    let ends' : EndsUp (names ++ s ∷ []) =
      λ top e. let same : (s ≡ top) = cc (last-snoc names s, e) in rw (← same) u in
    rw (take_names, take_name-up names s u ends)
      (take_names-IsNormal_same (names ++ s ∷ []) ends' h ∙ append_assoc names (s ∷ []) ss)

-- parsepath returns names of which none is empty or ".", and of which ".." stands only before all
-- others; its loop over these names returns them again.
pub parse_path_lem :
    (path : String)
    → IsNormal (parse_path path).0 × (take_names [] (parse_path path).0 ≡ (parse_path path).0)
unfolding parse_path
parse_path_lem path = (normal, take_names-IsNormal_same [] (λ top e. absurd (cc e)) normal)
  where
    normal : IsNormal (parse_path path).0
    normal = elim (Bool-cases (str_eq path "")) [
      | inl e ↦ rw (parse_path, e) (plains none_left)
      | inr e ↦ rw (parse_path, e) (take_names-IsNormal [] (split path) (plains none_left))
    ]
