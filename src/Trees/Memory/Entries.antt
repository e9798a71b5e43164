-- ===== src/Trees/Memory/Entries.antt =====
-- The methods that change what a directory holds, or list it.
use qptools.Prelude.{
  ℕ, ◌≡◌, refl, String, Bool, true, false, Bool-cases, Option-cases, inl, inr, Option, some, [],
  ◌∷◌, ◌==◌, is_some, bit_and,
}
use text.Mathlib.Text.{◌==◌ as str_eq}
use qptools.Prelude.Maps.{Map, lookup, insert, delete, text_key, lookup-insert, lookup-delete}
use qptools.Act.{err, require, or_raise, ◌>>=◌, ◌>>◌}
use qptools.Qp.{Qp, StatCodec}
use qptools.Trees.Dir.{
  Dir, change, touched, permits, create, rename, remove, list, stats, not_removable,
}
use qptools.Trees.Memory.{Memory, elements}
use qptools.Trees.Memory.Whole.{
  IsPresent, HasEntries, IsWhole, no_address, IsSafe, Stays, DirSafe, dir_safe,
}
use qptools.Trees.Memory.Actions.{elements_then, pure-IsSafe, IsSafe-then, IsSafe-if}
use qptools.Trees.Memory.Methods.{
  set_name-IsSafe, can_remove-IsSafe, stat-IsSafe, new_dir-IsSafe, new_file-IsSafe,
}

HasEntries-insert :
    (d d' : Dir) (s : Memory) (name : String) (f : ℕ)
    → HasEntries d s
    → IsPresent f s
    → d'.entries ≡ insert name f d.entries
    → HasEntries d' s
HasEntries-insert d d' s name f h p e n x i =
    let j = rw (e, lookup-insert name n f d.entries) at i in
    elim (Bool-cases (str_eq name n)) [
      | inl same ↦ let here : (f ≡ x) = cc (rw same at j) in rw (← here) p
      | inr other ↦ h n x (rw other at j)
    ]

HasEntries-delete :
    (d d' : Dir) (s : Memory) (name : String)
    → HasEntries d s
    → d'.entries ≡ delete name d.entries
    → HasEntries d' s
HasEntries-delete d d' s name h e n x i =
    let j = rw (e, lookup-delete name n d.entries) at i in
    elim (Bool-cases (str_eq name n)) [
      | inl same ↦ absurd (cc (rw same at j))
      | inr other ↦ h n x (rw other at j)
    ]

-- a call that failed before it did anything
failed :
    {A : Type 0} (g : A → Option ℕ) (d : Dir) (s : Memory) (e : _)
    → IsWhole s
    → HasEntries d s
    → Stays g s (err e, (d, s))
failed g d s e w h = record { whole = w; grows = λ f p. p; entries = h; yields = tt }

module _ (qp : Qp) (codec : StatCodec) (now : ℕ) where
  pub create-DirSafe :
      (user name : String) (perms : ℕ)
      → DirSafe some (create qp (elements qp codec now) now user name perms)
  unfolding create require ◌>>=◌
  create-DirSafe user name perms = dir_safe λ d s w h.
      elim (Bool-cases (permits qp user qp.owrite d)) [
        | inr e ↦ rw (create, e) (failed _ d s _ w h)
        | inl e ↦ elim (Bool-cases (is_some (lookup name d.entries))) [
          | inl f ↦ rw (create, e, f) (failed _ d s _ w h)
          | inr f ↦
              rw (create, e, f)
                (elements_then some some _ _ d s
                  (IsSafe-if (bit_and perms qp.dmdir == 0) _ _
                    (new_file-IsSafe qp codec now _ _ _ _) (new_dir-IsSafe qp codec now _ _ _ _))
                  w h
                  λ a t v grown k y. record {
                    whole = v;
                    grows = λ x p. p;
                    entries =
                        HasEntries-insert d
                          (touched now (record d { entries = insert name a d.entries })) t name a k
                          y refl;
                    yields = y;
                  })
        ]
      ]

  -- The end of Remove, for what CanRemove returned.
  removed :
      (d : Dir) (t : Memory) (name : String) (removable : Bool)
      → IsWhole t
      → HasEntries d t
      → Stays no_address t (
          (require removable not_removable
              >> change {W = Memory}
                  (λ x. touched now (record x { entries = delete name x.entries })))
            (d, t))
  unfolding require ◌>>=◌
  removed d t name false v h = failed _ d t _ v h
  removed d t name true v h = record {
    whole = v;
    grows = λ x p. p;
    entries =
        HasEntries-delete d (touched now (record d { entries = delete name d.entries })) t name h
          refl;
    yields = tt;
  }

  pub remove-DirSafe :
      (user name : String) → DirSafe no_address (remove qp (elements qp codec now) now user name)
  unfolding remove require or_raise ◌>>=◌
  remove-DirSafe user name = dir_safe λ d s w h. elim (Bool-cases (permits qp user qp.owrite d)) [
    | inr e ↦ rw (remove, e) (failed _ d s _ w h)
    | inl e ↦ elim (Option-cases (lookup name d.entries)) [
      | inl f ↦ rw (remove, e, f) (failed _ d s _ w h)
      | inr (x, f) ↦
          rw (remove, e, f)
            (elements_then no_address no_address _ _ d s (can_remove-IsSafe qp codec now x) w h
              λ a t v grown k y. removed d t name a v k)
    ]
  ]

  pub rename-DirSafe :
      (user old_name new_name : String)
      → DirSafe no_address (rename qp (elements qp codec now) now user old_name new_name)
  unfolding rename require or_raise ◌>>=◌
  rename-DirSafe user old_name new_name = dir_safe λ d s w h.
      elim (Option-cases (lookup old_name d.entries)) [
        | inl f ↦ rw (rename, f) (failed _ d s _ w h)
        | inr (x, f) ↦ elim (Bool-cases (is_some (lookup new_name d.entries))) [
          | inl g ↦ rw (rename, f, g) (failed _ d s _ w h)
          | inr g ↦ elim (Bool-cases (permits qp user qp.owrite d)) [
            | inr e ↦ rw (rename, f, g, e) (failed _ d s _ w h)
            | inl e ↦
                rw (rename, f, g, e)
                  (elements_then no_address no_address _ _ d s
                    (set_name-IsSafe qp codec now x user new_name) w h
                    λ a t v grown k y.
                      let d₁ : Dir = record d { entries = insert new_name x d.entries } in
                      record {
                        whole = v;
                        grows = λ z p. p;
                        entries =
                            HasEntries-delete d₁
                              (touched now (record d {
                                entries = delete old_name (insert new_name x d.entries);
                              }))
                              t old_name
                              (HasEntries-insert d d₁ t new_name x k (grown x (h old_name x f))
                                refl)
                              refl;
                        yields = tt;
                      })
          ]
        ]
      ]

  stats-IsSafe : (m : Map String ℕ) → IsSafe no_address (stats qp (elements qp codec now) now m)
  unfolding stats
  stats-IsSafe [] = pure-IsSafe []
  stats-IsSafe ((name, f) ∷ m) =
      IsSafe-then _ (stat-IsSafe qp codec now f)
        λ x. IsSafe-then _ (stats-IsSafe m) λ rest. pure-IsSafe (x ∷ rest)

  pub list-DirSafe : (user : String) → DirSafe no_address (list qp (elements qp codec now) now user)
  unfolding list require ◌>>=◌
  list-DirSafe user = dir_safe λ d s w h. elim (Bool-cases (permits qp user qp.oread d)) [
    | inr e ↦ rw (list, e) (failed _ d s _ w h)
    | inl e ↦
        rw (list, e)
          (let safe = stats-IsSafe d.entries in
            record {
              whole = safe.whole s w;
              grows = safe.grows s w;
              entries = λ name f i. safe.grows s w f (h name f i);
              yields = safe.yields s w;
            })
  ]
