-- ===== src/Fileserver/Walk/Laws.antt =====
-- What walkTo promises to its caller.
use text.Mathlib.Text.{◌==◌ as str_eq}
use qptools.Prelude.{
  ℕ, suc, ◌+◌, ◌-◌, ◌≤◌, ◌<◌, ◌≡◌, refl, ◌⊎◌, inl, inr, String, true, false, Option, none, some,
  List, [], ◌∷◌, ◌++◌, arith, ltb, is_some, if◌then◌else◌, length, length-append, Option-cases,
  Bool-cases,
}
use qptools.Act.{value, failure, attempt, ◌>>=◌}
use qptools.Act.Returns.{
  Yields, Returns, Returns-pure, Returns-raise, Returns-panic, Returns-if, Returns-if_eq,
  Returns-or_raise, Returns-bind, Returns-bind_any, Returns-weaken,
}
use qptools.Qp.{Qid}
use qptools.Trees.{Tree}
use qptools.Fileserver.Path.{
  current, length_of_current, parent, clone_lem, length-shorten, length-shorten_pos,
}
use qptools.Fileserver.Walk.{
  FidState, invalid_op_on_fid, fid_open, Move, stopped, moved, Trail, enter, descend, ascend,
  walk_name, walk_names, conclude, walk_to,
}

-- How deep below the root a walk ends, read off the names alone: a regular name goes down, ".." goes
-- up but never above the root, and "." stays.
abbrev pub next_depth : String → ℕ → ℕ
next_depth name d =
    if str_eq name "."
    then d
    else if str_eq name ".."
    then (if ltb 1 d then d - 1 else d)
    else d + 1

unfoldable pub depth : ℕ → List String → ℕ
depth d [] = d
depth d (name ∷ names) = depth (next_depth name d) names

abbrev pub LandsAt : ℕ → Move → Type 0
LandsAt d (stopped e) = Unit
LandsAt d (moved root loc) = (length loc ≡ d) × (0 < length loc)

module _ {W : Type 0} (tree : Tree W) where
  pushed :
      (user : String) (loc : List ℕ) (f : ℕ) → LandsAt (length loc + 1) (moved f (loc ++ f ∷ []))
  pushed user loc f = omega (arith, length-append loc (f ∷ []))

  enter-LandsAt :
      (user : String) (loc : List ℕ) (file : Option ℕ)
      → Returns (LandsAt (length loc + 1)) (enter tree user loc file)
  unfolding enter
  enter-LandsAt user loc none = Returns-pure _ tt
  enter-LandsAt user loc (some file) = Returns-bind_any (attempt (tree.arrived file user)) _ (elim [
    | failure e ↦ Returns-pure _ tt
    | value none ↦ Returns-pure _ (pushed user loc file)
    | value (some other) ↦ Returns-pure _ (pushed user loc other)
  ])

  descend-LandsAt :
      (user name : String) (root : ℕ) (loc : List ℕ)
      → Returns (LandsAt (length loc + 1)) (descend tree user name root loc)
  unfolding descend
  descend-LandsAt user name root loc = Returns-bind_any (tree.is_dir root) _ (elim [
    | true ↦
        Returns-if (tree.has_dir root) _ _
          (Returns-bind_any (attempt (tree.walk root user name)) _
            (elim [ failure e ↦ Returns-pure _ tt | value file ↦ enter-LandsAt user loc file ]))
          Returns-panic
    | false ↦ Returns-pure _ tt
  ])

  ascend-LandsAt :
      (loc : List ℕ)
      → 0 < length loc
      → Returns
          (LandsAt (if ltb 1 (length loc) then length loc - 1 else length loc))
          (ascend tree loc)
  unfolding ascend
  ascend-LandsAt loc h = elim (Option-cases (parent loc)) [
    | inl e ↦ rw (e, ascend) Returns-panic
    | inr (p, e) ↦
        rw (e, ascend) (Returns-pure _ (ground (arith, length-shorten loc, length-shorten_pos loc)))
  ]

  walk_name-LandsAt :
      (user name : String) (root : ℕ) (loc : List ℕ)
      → 0 < length loc
      → Returns (LandsAt (next_depth name (length loc))) (walk_name tree user name root loc)
  unfolding walk_name
  walk_name-LandsAt user name root loc h = elim (Bool-cases (str_eq name ".")) [
    | inl e ↦ rw (e, walk_name) (Returns-pure _ (refl, h))
    | inr e ↦ elim (Bool-cases (str_eq name "..")) [
      | inl up ↦ rw (e, up, walk_name) (ascend-LandsAt loc h)
      | inr down ↦ rw (e, down, walk_name) (descend-LandsAt user name root loc)
    ]
  ]

-- A trail over `n` names, begun with `k` qids: it went to the end, at depth `d`, or it stopped.
abbrev TrailOk : (d n k : ℕ) → Trail → Type 0
TrailOk d n k t =
    (t.error ≡ none) × (length t.qids ≡ k + n) × (length t.loc ≡ d) × (0 < length t.loc)
    ⊎ (is_some t.error ≡ true) × (k ≤ length t.qids) × (length t.qids < k + n)

longer :
    (names : List String) (loc : List ℕ) (qids : List Qid) (q : Qid) (t : Trail)
    → TrailOk (depth (length loc) names) (length names) (length (qids ++ q ∷ [])) t
    → TrailOk (depth (length loc) names) (suc (length names)) (length qids) t
longer names loc qids q t (inl h) = inl (h.0, omega (arith, length-append qids (q ∷ [])), h.2, h.3)
longer names loc qids q t (inr h) =
    let e = length-append qids (q ∷ []) in inr (h.0, omega arith, omega arith)

module _ {W : Type 0} (tree : Tree W) where
  walk_names-TrailOk :
      (user : String) (names : List String) (root : ℕ) (loc : List ℕ) (qids : List Qid)
      → 0 < length loc
      → Returns
          (TrailOk (depth (length loc) names) (length names) (length qids))
          (walk_names tree user names root loc qids)
  unfolding walk_names depth
  walk_names-TrailOk user [] root loc qids h = Returns-pure _ (inl (refl, omega arith, refl, h))
  walk_names-TrailOk user (name ∷ names) root loc qids h =
      Returns-bind _ _ (walk_name-LandsAt tree user name root loc h) (elim [
        | stopped e ↦ λ _. Returns-pure _ (inr (refl, omega arith, omega arith))
        | moved root' loc' ↦ λ lands. Returns-bind_any (tree.qid root') _ λ q. rw (← lands.0) (
            Returns-weaken _ (longer names loc' qids q)
              (walk_names-TrailOk user names root' loc' (qids ++ q ∷ []) lands.1))
      ])

-- What walkTo's comment promises of a walk of `n` names that returns no error: with a new fidState
-- there is one qid for each name, and with none there are some qids, but fewer than names.
abbrev pub WalkOk : FidState → List String → Option FidState × List Qid → Type 0
WalkOk old names (some s, qids) =
    (length qids ≡ length names)
    × (length s.location ≡ depth (length old.location) names)
    × (0 < length s.location)
    × (s.username ≡ old.username)
    × (s.handle ≡ none)
    × (s.locked ≡ false)
    × (old.handle ≡ none)
WalkOk old names (none, qids) = (0 < length qids) × (length qids < length names)

conclude-WalkOk :
    {W : Type 0} (old : FidState) (names : List String) (t : Trail)
    → old.handle ≡ none
    → TrailOk (depth (length old.location) names) (length names) 0 t
    → Returns {S = W} (WalkOk old names) (conclude old.username names t)
unfolding conclude
conclude-WalkOk old names t shut h = record { at = λ s. ground arith }

module _ {W : Type 0} (tree : Tree W) (old : FidState) (names : List String) where
  from_root :
      (root : ℕ)
      → 0 < length old.location
      → old.handle ≡ none
      → Returns
          (WalkOk old names)
          (walk_names tree old.username names root old.location [] >>= conclude old.username names)
  from_root root pos shut =
      Returns-bind _ _ (walk_names-TrailOk tree old.username names root old.location [] pos)
        λ t ok. conclude-WalkOk old names t shut ok

  walk_to-Returns : Returns (WalkOk old names) (walk_to tree old names)
  unfolding walk_to
  walk_to-Returns = rw (clone_lem old.location) (
      Returns-bind _ _ (Returns-or_raise (current old.location) invalid_op_on_fid) λ root e.
        Returns-if_eq (is_some old.handle) _ _ (λ _. Returns-raise fid_open)
          λ shut. from_root root (length_of_current old.location e) (ground arith))

  -- Whatever the tree does, a walk that returns no error returns either a new fidState, unopened,
  -- with the same user, one qid for each name and the depth that the names lead to, where ".."
  -- never leaves the root; or no fidState and some qids, fewer than names.
  pub walk_to-WalkOk : (s : W) → Yields (WalkOk old names) (walk_to tree old names s).0
  walk_to-WalkOk s = walk_to-Returns.at s
