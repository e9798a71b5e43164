-- ===== src/Client/Paths.antt =====
-- What client/simple.go and cmd/9pc/main.go use of the standard library on paths: strings.Split(s,
-- "/"), path.Dir and path.Base.
use Prim.Native.Char.{Char, code}
use Prim.Native.String.{String, ◌++◌ as then_text}
use text.Mathlib.Text.{◌==◌ as str_eq}
use qptools.Prelude.{
  Bool, false, ◌||◌, Option, none, some, List, [], ◌∷◌, ◌++◌, ◌==◌, if◌then◌else◌,
}

abbrev pub before_first : Char → List String → List String
before_first c [] = (String.◌∷◌ c String.[]) ∷ []
before_first c (s ∷ ss) = String.◌∷◌ c s ∷ ss

-- strings.Split(s, "/")
unfoldable pub split : String → List String
split String.[] = String.[] ∷ []
split (String.◌∷◌ c s) =
    let rest = split s in if code c == b'/' then String.[] ∷ rest else before_first c rest

-- the names that are not empty
unfoldable pub filled : List String → List String
filled [] = []
filled (s ∷ ss) = let rest = filled ss in if str_eq s "" then rest else s ∷ rest

abbrev pub last : List String → Option String
last [] = none
last (s ∷ []) = some s
last (s ∷ t ∷ ss) = last (t ∷ ss)

abbrev pub but_last : List String → List String
but_last [] = []
but_last (s ∷ []) = []
but_last (s ∷ t ∷ ss) = s ∷ but_last (t ∷ ss)

abbrev pub join : List String → String
join [] = ""
join (s ∷ []) = s
join (s ∷ t ∷ ss) = then_text s (then_text "/" (join (t ∷ ss)))

abbrev pub is_rooted : String → Bool
is_rooted String.[] = false
is_rooted (String.◌∷◌ c s) = code c == b'/'

-- One name of a path, after those before it: ".." takes one off, if there is one to take.
unfoldable pub follow : (rooted : Bool) (names : List String) (name : String) → List String
follow rooted names name =
    if str_eq name "" || str_eq name "."
    then names
    else if str_eq name ".."
    then elim (last names) [
      | none ↦ if rooted then names else names ++ name ∷ []
      | some top ↦ if str_eq top ".." then names ++ name ∷ [] else but_last names
    ]
    else names ++ name ∷ []

unfoldable pub resolve : (rooted : Bool) (names : List String) → List String → List String
resolve rooted names [] = names
resolve rooted names (s ∷ ss) = resolve rooted (follow rooted names s) ss

abbrev pub or_dot : String → String
or_dot s = if str_eq s "" then "." else s

-- path.Dir(path): path.Clean of what stands before the last slash
unfoldable pub dir : String → String
dir path =
    let rooted = is_rooted path in
    let names = resolve rooted [] (but_last (split path)) in
    if rooted then then_text "/" (join names) else or_dot (join names)

-- path.Base(path)
unfoldable pub base : String → String
base path =
    if str_eq path "" then "." else elim (last (filled (split path))) [ none ↦ "/" | some s ↦ s ]
