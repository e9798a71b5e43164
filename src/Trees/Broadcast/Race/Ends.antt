-- ===== src/Trees/Broadcast/Race/Ends.antt =====
-- How the turns of a Push and a Close can bring both to their end.
use qptools.Prelude.{
  ℕ, ◌≡◌, ◌≤◌, refl, ap, ◌∙◌, Bool, true, false, not, ◌&&◌, List, [], ◌∷◌, ◌++◌, ◌⊎◌, arith, ◌==◌,
  if◌then◌else◌, set, inl, inr,
}
use mathlib.Core.Path.{subst}
use qptools.Trees.Broadcast.{Listener, Broadcast, deliver, deregister}
use qptools.Trees.Broadcast.Laws.{count}
use qptools.Trees.Broadcast.Race.{
  Pushing, push_ahead, looping, push_over, Closing, close_ahead, leaving, close_over, Race, Turn,
  of_push, of_close, at, gone, holds_handle, turn, run,
}
use qptools.Trees.Broadcast.Race.Sound.{Sound, run-Sound}

-- Push, with the lock of the file, has still to reach the handle, which Close has locked.
abbrev pub deadlocked : (h : ℕ) → Pushing → Closing → Bool
deadlocked h (looping rest) leaving = not (count h rest == 0)
deadlocked h push_ahead c = false
deadlocked h push_over c = false
deadlocked h (looping rest) close_ahead = false
deadlocked h (looping rest) close_over = false

module _ (m : List ℕ) (h : ℕ) where
  pub run-append : (ts us : List Turn) (r : Race) → run m h (ts ++ us) r ≡ run m h us (run m h ts r)
  unfolding run
  run-append [] us r = refl
  run-append (t ∷ ts) us r = run-append ts us (turn m h t r)

  -- Turns that lead from one state to another.
  unfoldable pub Leads : Race → Race → Type 0
  Leads r r' = (more : List Turn) × (run m h more r ≡ r')

  Leads-refl : (r : Race) → Leads r r
  unfolding Leads run
  Leads-refl r = ([], refl)

  Leads-next : (t : Turn) (r r' : Race) → Leads (turn m h t r) r' → Leads r r'
  unfolding Leads run
  Leads-next t r r' (ts, e) = (t ∷ ts, e)

  Leads-trans : (r r' r'' : Race) → Leads r r' → Leads r' r'' → Leads r r''
  unfolding Leads
  Leads-trans r r' r'' (ts, e) (us, f) = (ts ++ us, run-append ts us r ∙ ap (run m h us) e ∙ f)

  unlocked :
      (f : ℕ) (rest : List ℕ) (c : Closing)
      → (holds_handle c ≡ false) ⊎ (count h (f ∷ rest) ≡ 0)
      → (f == h && holds_handle c) ≡ false
  unlocked f rest c (inl free) = ground (arith, free)
  unlocked f rest c (inr passed) = ground (arith, passed)

  unlocked_rest :
      (f : ℕ) (rest : List ℕ) (c : Closing)
      → (holds_handle c ≡ false) ⊎ (count h (f ∷ rest) ≡ 0)
      → (holds_handle c ≡ false) ⊎ (count h rest ≡ 0)
  unlocked_rest f rest c (inl free) = inl free
  unlocked_rest f rest c (inr passed) = inr (ground (arith, passed))

  -- Push comes to its end where Close does not hold the lock of a handle that it has still to reach.
  loop_ends :
      (rest : List ℕ) (x : Broadcast) (c : Closing)
      → (holds_handle c ≡ false) ⊎ (count h rest ≡ 0)
      → (x' : Broadcast) × Leads (at x (looping rest) c) (at x' push_over c)
  loop_ends [] x c free = (x, Leads-next of_push _ _ (Leads-refl (at x push_over c)))
  loop_ends (f ∷ rest) x c free =
      let x₁ : Broadcast = record x { handles = deliver f m x.handles } in
      let (x', l) = loop_ends rest x₁ c (unlocked_rest f rest c free) in
      (x', Leads-next of_push _ _ (rw (unlocked f rest c free) l))

  push_ends :
      (p : Pushing) (x : Broadcast) (c : Closing)
      → holds_handle c ≡ false
      → (x' : Broadcast) × Leads (at x p c) (at x' push_over c)
  push_ends push_ahead x c free =
      let (x', l) = loop_ends x.files x c (inl free) in (x', Leads-next of_push _ _ l)
  push_ends (looping rest) x c free = loop_ends rest x c (inl free)
  push_ends push_over x c free = (x, Leads-refl (at x push_over c))

  left_ends :
      (consumer : Bool) (x : Broadcast)
      → (x' : Broadcast) × Leads
          (at x push_over (if consumer then leaving else close_over))
          (at x' push_over close_over)
  left_ends true x =
      (record x { files = deregister h x.files }, Leads-next of_close _ _ (Leads-refl _))
  left_ends false x = (x, Leads-refl (at x push_over close_over))

  module _ (b : Broadcast) (l : Listener) where
    -- Close comes to its end where Push is not there.
    close_ends :
        (c : Closing) (x : Broadcast)
        → Sound m h b l (at x push_over c)
        → (x' : Broadcast) × Leads (at x push_over c) (at x' push_over close_over)
    close_ends close_over x s = (x, Leads-refl (at x push_over close_over))
    close_ends leaving x s = left_ends true x
    close_ends close_ahead x s =
        let (l', here, same) = s.own in
        let x₁ : Broadcast = record x { handles = set x.handles h (gone l') } in
        let (x', rest) = left_ends l'.consumer x₁ in (x', Leads-next of_close _ _ (rw here rest))

    -- In every other state the turns can still lead to the end of both.
    module _ (once : count h b.files ≤ (if l.consumer then 1 else 0)) where
      -- Push first.
      then_close :
          (r : Race) (x : Broadcast) (c : Closing)
          → Sound m h b l r
          → Leads r (at x push_over c)
          → (x' : Broadcast) × Leads r (at x' push_over close_over)
      unfolding Leads
      then_close r x c s (ts, e) =
          let (x', rest) =
            close_ends c x (subst (Sound m h b l) e (run-Sound m h b l once ts r s)) in
          (x', Leads-trans r (at x push_over c) (at x' push_over close_over) (ts, e) rest)

      pub can_end :
          (p : Pushing) (c : Closing) (x : Broadcast)
          → deadlocked h p c ≡ false
          → Sound m h b l (at x p c)
          → (x' : Broadcast) × Leads (at x p c) (at x' push_over close_over)
      can_end p close_ahead x d s =
          let (x', first) = push_ends p x close_ahead refl in then_close _ x' close_ahead s first
      can_end p close_over x d s = push_ends p x close_over refl
      can_end push_ahead leaving x d s =
          let x₁ : Broadcast = record x { files = deregister h x.files } in
          let (x', rest) = push_ends push_ahead x₁ close_over refl in
          (x', Leads-next of_close _ _ rest)
      can_end (looping rest) leaving x d s =
          let (x', first) = loop_ends rest x leaving (inr (ground (arith, d))) in
          then_close _ x' leaving s first
      can_end push_over leaving x d s = close_ends leaving x s
