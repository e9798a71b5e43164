-- ===== src/Trees/Proxy/Names.antt =====
-- The paths of ProxyFiles.
use Prim.Native.Char.{Char, code}
use Prim.Native.String.{String, ◌++◌ as then_text}
use text.Mathlib.Text.{◌==◌ as str_eq}
use text.Mathlib.TextEquality.{eq_iff}
use text.Mathlib.TextLemmas.{nil-append, cons-append}
use qptools.Prelude.{
  ◌≡◌, refl, ap, ◌∙◌, Bool, true, false, not, ◌&&◌, ◌||◌, some, List, [], ◌∷◌, ◌++◌, ◌==◌, arith,
  Bool-cases, inl, inr,
}
use qptools.Act.{ok, attempt, within, gets, ◌>>=◌}
use qptools.Qp.{Qp}
use qptools.Client.Paths.{split, filled, join, follow, resolve}
use qptools.Trees.Proxy.{Info, Os, new_proxy, join_path, walk, on_machine, this}

abbrev no_slash : String → Bool
no_slash String.[] = true
no_slash (String.◌∷◌ c s) = not (code c == b'/') && no_slash s

-- The name of a file.
abbrev pub is_name : String → Bool
is_name s = no_slash s && (not (str_eq s "") && not (str_eq s ".") && not (str_eq s ".."))

split-name : (s : String) → no_slash s ≡ true → split s ≡ s ∷ []
unfolding split
split-name String.[] h = refl
split-name (String.◌∷◌ c s) h =
    let here : ((code c == b'/') ≡ false) = ground (arith, h) in
    rw (here, split-name s (ground (arith, h))) refl

split-then :
    (s t : String) → no_slash s ≡ true → split (then_text s (String.◌∷◌ "/" t)) ≡ s ∷ split t
unfolding split
split-then String.[] t h = rw (nil-append (String.◌∷◌ "/" t)) refl
split-then (String.◌∷◌ c s) t h =
    let here : ((code c == b'/') ≡ false) = ground (arith, h) in
    rw (cons-append c s (String.◌∷◌ "/" t), here, split-then s t (ground (arith, h))) refl

slash_then : (t : String) → then_text "/" t ≡ String.◌∷◌ "/" t
slash_then t = cons-append "/" String.[] t ∙ ap (λ u. String.◌∷◌ "/" u) (nil-append t)

follow-name :
    (rooted : Bool) (names : List String) (s : String)
    → is_name s ≡ true
    → follow rooted names s ≡ names ++ s ∷ []
unfolding follow
follow-name rooted names s h =
    let empty : ((str_eq s "" || str_eq s ".") ≡ false) = ground (arith, h) in
    let up : (str_eq s ".." ≡ false) = ground (arith, h) in rw (follow, empty, up) refl

name_not_up : (s : String) → is_name s ≡ true → str_eq s ".." ≡ false
name_not_up s h = ground (arith, h)

name_no_slash : (s : String) → is_name s ≡ true → no_slash s ≡ true
name_no_slash s h = ground (arith, h)

cons_not_empty : (c : Char) (s : String) → str_eq (String.◌∷◌ c s) "" ≡ false
cons_not_empty c s = elim (Bool-cases (str_eq (String.◌∷◌ c s) "")) [
  | inl e ↦ absurd (cc ((eq_iff (String.◌∷◌ c s) "").0 e))
  | inr e ↦ e
]

-- joining names onto a root, "/r"
join_path-root :
    (r rest : String)
    → is_name r ≡ true
    → str_eq rest "" ≡ false
    → join_path (String.◌∷◌ "/" r ∷ rest ∷ [])
      ≡ then_text "/" (join (resolve true [] ("" ∷ r ∷ split rest)))
unfolding join_path filled split
join_path-root r rest h some_rest =
    rw
      (
        cons_not_empty "/" r,
        some_rest,
        slash_then rest,
        cons-append "/" r (String.◌∷◌ "/" rest),
        split-then r rest (name_no_slash r h),
      )
      refl

resolve-root :
    (r : String) (ss : List String)
    → is_name r ≡ true
    → resolve true [] ("" ∷ r ∷ ss) ≡ resolve true (r ∷ []) ss
unfolding resolve follow
resolve-root r ss h = rw (follow-name true [] r h) refl

abbrev pub slash : String → String
slash s = String.◌∷◌ "/" s

-- "../s"
abbrev pub outside : String → String
outside s = String.◌∷◌ "." (String.◌∷◌ "." (slash s))

split-outside : (s : String) → is_name s ≡ true → split (outside s) ≡ ".." ∷ s ∷ []
unfolding split
split-outside s h = rw (split-name s (name_no_slash s h)) refl

follow-up : (r : String) → is_name r ≡ true → follow true (r ∷ []) ".." ≡ []
unfolding follow
follow-up r h = rw (follow, name_not_up r h) refl

-- a file beside the root
join_path-outside :
    (r s : String)
    → is_name r ≡ true
    → is_name s ≡ true
    → join_path (slash r ∷ outside s ∷ []) ≡ slash s
unfolding resolve
join_path-outside r s h k =
    join_path-root r (outside s) h (cons_not_empty "." _)
    ∙ rw
        (
          split-outside s k,
          resolve-root r (".." ∷ s ∷ []) h,
          resolve,
          follow-up r h,
          follow-name true [] s k,
        )
        (slash_then s)

follow-up_nothing : follow false [] ".." ≡ ".." ∷ []
unfolding follow
follow-up_nothing = refl

up_then : (t : String) → then_text ".." t ≡ String.◌∷◌ "." (String.◌∷◌ "." t)
up_then t =
    cons-append "." "." t
    ∙ ap (λ u. String.◌∷◌ "." u) (cons-append "." "" t ∙ ap (λ u. String.◌∷◌ "." u) (nil-append t))

join_path-nothing_outside :
    (s : String) → is_name s ≡ true → join_path ("" ∷ outside s ∷ []) ≡ outside s
unfolding join_path filled resolve
join_path-nothing_outside s h =
    rw
      (
        cons_not_empty "." (String.◌∷◌ "." (slash s)),
        split-outside s h,
        follow-up_nothing,
        follow-name false (".." ∷ []) s h,
        slash_then s,
        up_then (slash s),
        cons_not_empty "." (String.◌∷◌ "." (slash s)),
      )
      refl

module _ (qp : Qp) {L : Type 0} (os : Os L) where
  -- A walk from a ProxyFile of a root "/r" itself to a name "../s", for names r and s that have no
  -- slash and are none of "", "." and "..", finds the file "/s" beside the root, if the operating
  -- system has it.
  pub walk_outside :
      (r s user owner group : String) (info : Info) (l l' : L)
      → is_name r ≡ true
      → is_name s ≡ true
      → os.stat (slash s) l ≡ (ok info, l')
      → walk qp os user
          (outside s)
          (record { file = new_proxy (slash r) "" owner group; machine = l })
        ≡ (
          ok (some (new_proxy (slash r) (outside s) owner group)),
          record { file = new_proxy (slash r) "" owner group; machine = l' },
        )
  unfolding walk this on_machine gets within attempt ◌>>=◌
  walk_outside r s user owner group info l l' h k e =
      rw (join_path-nothing_outside s k, join_path-outside r s h k, e) refl
