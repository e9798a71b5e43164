-- ===== src/Trees/Broadcast/Race/Stuck.antt =====
-- When a Push and a Close that run at once come to an end.
use qptools.Prelude.{
  ℕ, ◌≡◌, ◌≢◌, refl, sym, ap, ◌∙◌, true, false, some, List, [], ◌∷◌, ◌++◌, ◌⊎◌, arith, ◌==◌,
  get_elem?, set, Bool-cases, inl, inr,
}
use mathlib.Core.Path.{subst}
use qptools.Qp.{Qp}
use qptools.Trees.File.{File}
use qptools.Trees.Broadcast.{Listener, Broadcast}
use qptools.Trees.Broadcast.Laws.{BroadcastReach, registered, listens, reachable-BroadcastInv}
use qptools.Trees.Broadcast.Race.{
  Pushing, push_ahead, looping, push_over, Closing, close_ahead, leaving, close_over, Race, Turn,
  of_push, of_close, at, start, gone, leave, turn, run,
}
use qptools.Trees.Broadcast.Race.Sound.{run-Sound}
use qptools.Trees.Broadcast.Race.Ends.{deadlocked, run-append, Leads, can_end}
use qptools.Trees.Broadcast.Race.Serial.{start-Sound, registered_once}

module _ (m : List ℕ) (h : ℕ) where
  turn-deadlocked :
      (t : Turn) (x : Broadcast) (p : Pushing) (c : Closing)
      → deadlocked h p c ≡ true
      → deadlocked h (turn m h t (at x p c)).pushing (turn m h t (at x p c)).closing ≡ true
  turn-deadlocked of_close x (looping rest) leaving d = d
  turn-deadlocked of_push x (looping []) leaving d = d
  turn-deadlocked of_push x (looping (f ∷ rest)) leaving d = elim (Bool-cases (f == h)) [
    | inl e ↦ rw e (ground (arith, d, e))
    | inr e ↦ rw e (ground (arith, d, e))
  ]
  turn-deadlocked t x push_ahead c d = absurd (cc)
  turn-deadlocked t x push_over c d = absurd (cc)
  turn-deadlocked t x (looping rest) close_ahead d = absurd (cc)
  turn-deadlocked t x (looping rest) close_over d = absurd (cc)

  pub run-deadlocked :
      (ts : List Turn) (r : Race)
      → deadlocked h r.pushing r.closing ≡ true
      → deadlocked h (run m h ts r).pushing (run m h ts r).closing ≡ true
  unfolding run
  run-deadlocked [] r d = d
  run-deadlocked (t ∷ ts) r d =
      run-deadlocked ts (turn m h t r) (turn-deadlocked t r.broadcast r.pushing r.closing d)

  deadlocked-open :
      (p : Pushing) (c : Closing) → deadlocked h p c ≡ true → (p ≢ push_over) × (c ≢ close_over)
  deadlocked-open (looping rest) leaving d = (λ e. cc, λ e. cc)
  deadlocked-open push_ahead c d = absurd (cc)
  deadlocked-open push_over c d = absurd (cc)
  deadlocked-open (looping rest) close_ahead d = absurd (cc)
  deadlocked-open (looping rest) close_over d = absurd (cc)

module _ {qp : Qp} {file : File} (m : List ℕ) (h : ℕ) (b : Broadcast) (l : Listener) where
  -- A Push and a Close of one handle, at once, in every state that opens, pushes, reads and closes
  -- can lead to, after any turns of the two: either they are not deadlocked, and there are further
  -- turns that bring both to their end; or they are, as Push has still to reach the handle that
  -- Close has locked while it waits for Push, and then, whatever turns follow, neither ever ends.
  pub race_outcomes :
      (ts : List Turn)
      → BroadcastReach qp file b
      → get_elem? b.handles h ≡ some l
      → ((deadlocked h (run m h ts (start b)).pushing (run m h ts (start b)).closing ≡ false)
          × (more : List Turn) × ((run m h (ts ++ more) (start b)).pushing ≡ push_over)
          × ((run m h (ts ++ more) (start b)).closing ≡ close_over))
        ⊎ ((deadlocked h (run m h ts (start b)).pushing (run m h ts (start b)).closing ≡ true)
            × ((more : List Turn)
                → ((run m h (ts ++ more) (start b)).pushing ≢ push_over)
                  × ((run m h (ts ++ more) (start b)).closing ≢ close_over)))
  unfolding Leads
  race_outcomes ts r here =
      let once = registered_once h l r here in
      let now = run m h ts (start b) in
      let sound = run-Sound m h b l once ts (start b) (start-Sound m h b l here once) in
      elim (Bool-cases (deadlocked h now.pushing now.closing)) [
        | inl stuck ↦ inr (
          stuck,
          λ more. rw (run-append m h ts more (start b)) (
              let later = run m h more now in
              deadlocked-open m h later.pushing later.closing (run-deadlocked m h more now stuck)),
        )
        | inr free ↦
            let (x', reached) =
              can_end m h b l once now.pushing now.closing now.broadcast free sound in
            let (more, e) = reached in
            inl (
              free,
              more,
              ap (λ u. u.pushing) (run-append m h ts more (start b) ∙ e),
              ap (λ u. u.closing) (run-append m h ts more (start b) ∙ e),
            )
      ]

  -- The bug: where Push has taken the lock of the file, and then Close that of a handle that was
  -- opened for reading and is not closed yet, neither of the two ever ends, whatever turns follow.
  pub race_deadlocks :
      (more : List Turn)
      → BroadcastReach qp file b
      → get_elem? b.handles h ≡ some l
      → listens (some l) ≡ true
      → ((run m h (of_push ∷ of_close ∷ more) (start b)).pushing ≢ push_over)
        × ((run m h (of_push ∷ of_close ∷ more) (start b)).closing ≢ close_over)
  unfolding run
  race_deadlocks more r here hearing =
      let x : Broadcast = record b { handles = set b.handles h (gone l) } in
      let stuck : (deadlocked h (looping b.files) leaving ≡ true) =
        elim (reachable-BroadcastInv r) [ registered inv ↦ ground (arith, inv h, here, hearing) ] in
      let consumes : (l.consumer ≡ true) = ground (arith, hearing) in
      let r₁ = at x (looping b.files) leaving in
      let e : (leave h (get_elem? b.handles h) (at b (looping b.files) close_ahead) ≡ r₁) =
        rw (here, consumes) refl in
      let later = run m h more r₁ in
      subst (λ u. ((run m h more u).pushing ≢ push_over) × ((run m h more u).closing ≢ close_over))
        (sym e) (deadlocked-open m h later.pushing later.closing (run-deadlocked m h more r₁ stuck))
