-- ===== src/Trees/Memory/Handles.antt =====
-- Handles in the store, and actions on one.
use qptools.Prelude.{ℕ, ◌≡◌, true, false, Bool-cases, Option-cases, inl, inr, some, ◌==◌, arith}
use qptools.Prelude.Maps.{lookup, insert, nat_key, lookup-insert}
use qptools.Act.{Act, Outcome, ok, err, panicked, blocked, continue, panic, ◌>>=◌}
use qptools.Trees.Dir.{Dir}
use qptools.Trees.File.{File, Handle}
use qptools.Trees.Listing.{ListHandle}
use qptools.Trees.Memory.{Memory, is_even, at_dir, at_file, at_listing, at_handle}
use qptools.Trees.Memory.Whole.{
  IsPresent, IsWhole, Grows, Grows_trans, Yielded, Yielded-none, no_address, IsSafe, DirSafe,
  at_dir-IsSafe, at_file-IsSafe, put_dir, put_file,
}

-- What a handle names is there, so that the handle can be stored.
pub put_listing-IsWhole :
    (h : ℕ) (x : ℕ × ListHandle) (s : Memory)
    → is_even x.0 ≡ true
    → IsPresent x.0 s
    → IsWhole s
    → IsWhole (record s { listings = insert h x s.listings })
put_listing-IsWhole h x s even here w = record {
  entries = w.entries;
  listed = λ k y i. elim (Bool-cases (h == k)) [
    | inl same ↦
        let e : (x ≡ y) = cc (rw same at (rw (lookup-insert h k x s.listings) at i)) in
        rw (← e) (even, here)
    | inr other ↦ w.listed k y (rw other at (rw (lookup-insert h k x s.listings) at i))
  ];
  handled = w.handled;
}

pub put_handle-IsWhole :
    (h : ℕ) (x : ℕ × Handle) (s : Memory)
    → is_even x.0 ≡ false
    → IsPresent x.0 s
    → IsWhole s
    → IsWhole (record s { handles = insert h x s.handles })
put_handle-IsWhole h x s odd here w = record {
  entries = w.entries;
  listed = w.listed;
  handled = λ k y i. elim (Bool-cases (h == k)) [
    | inl same ↦
        let e : (x ≡ y) = cc (rw same at (rw (lookup-insert h k x s.handles) at i)) in
        rw (← e) (odd, here)
    | inr other ↦ w.handled k y (rw other at (rw (lookup-insert h k x s.handles) at i))
  ];
}

-- A method of a ListHandle that leaves the store whole.
pub record Calm {A : Type 0} (m : Act (ListHandle × Memory) A) : Type 0 where
  pub at :
      (h : ListHandle) (s : Memory) → IsWhole s → IsWhole (m (h, s)).1.1 × Grows s (m (h, s)).1.1

pub Calm-bind :
    {A B : Type 0} (m : Act (ListHandle × Memory) A) (f : A → Act (ListHandle × Memory) B)
    → Calm m
    → ((a : A) → Calm (f a))
    → Calm (m >>= f)
unfolding ◌>>=◌
Calm-bind {A} m f hm k = record {
  at = λ h s w. settled s (m (h, s)).0 (m (h, s)).1 ((hm.at h s w).0) ((hm.at h s w).1);
}
  where
    settled :
        (s : Memory) (r : Outcome A) (t : ListHandle × Memory)
        → IsWhole t.1
        → Grows s t.1
        → IsWhole (continue r f t).1.1 × Grows s (continue r f t).1.1
    settled s (ok a) t v g =
        let (u, l) = (k a).at t.0 t.1 v in (u, Grows_trans s t.1 (f a t).1.1 g l)
    settled s (err e) t v g = (v, g)
    settled s panicked t v g = (v, g)
    settled s blocked t v g = (v, g)

pub at_listing-IsSafe :
    {A : Type 0} (h : ℕ) (m : (a : ℕ) → Act (ListHandle × Memory) A)
    → ((a : ℕ) → Calm (m a))
    → IsSafe no_address (at_listing h m)
unfolding at_listing panic
at_listing-IsSafe h m calm = record {
  whole = λ s w. (both s w).0;
  grows = λ s w. (both s w).1;
  yields = λ s w. Yielded-none (at_listing h m s).0 (at_listing h m s).1;
}
  where
    both : (s : Memory) → IsWhole s → IsWhole (at_listing h m s).1 × Grows s (at_listing h m s).1
    both s w = elim (Option-cases (lookup h s.listings)) [
      | inl e ↦ rw (at_listing, e) (w, λ f p. p)
      | inr (x, e) ↦
          let (v, g) = (calm x.0).at x.1 s w in
          let (even, here) = w.listed h x e in
          let t = (m x.0 (x.1, s)).1 in
          rw (at_listing, e) (put_listing-IsWhole h (x.0, t.0) t.1 even (g x.0 here) v, g)
    ]

pub at_handle-IsSafe :
    {A : Type 0} (h : ℕ) (m : Handle → Act File A) → IsSafe no_address (at_handle h m)
unfolding at_handle panic
at_handle-IsSafe h m = record {
  whole = λ s w. (both s w).0;
  grows = λ s w. (both s w).1;
  yields = λ s w. Yielded-none (at_handle h m s).0 (at_handle h m s).1;
}
  where
    both : (s : Memory) → IsWhole s → IsWhole (at_handle h m s).1 × Grows s (at_handle h m s).1
    both s w = elim (Option-cases (lookup h s.handles)) [
      | inl e ↦ rw (at_handle, e) (w, λ f p. p)
      | inr (x, e) ↦
          let safe = at_file-IsSafe x.0 (m x.1) in
          rw (at_handle, e) (safe.whole s w, safe.grows s w)
    ]

-- An action that returned has found the object at its address.
Found :
    {A : Type 0} (a : ℕ) (r : Outcome A) (s : Memory) → IsPresent a s → Yielded (λ _. some a) r s
Found a (ok x) s p = p
Found a (err e) s p = tt
Found a panicked s p = tt
Found a blocked s p = tt

pub at_dir-Found :
    {A : Type 0} (a : ℕ) (m : Act (Dir × Memory) A)
    → is_even a ≡ true
    → DirSafe no_address m
    → IsSafe (λ _. some a) (at_dir a m)
unfolding at_dir panic
at_dir-Found a m even h =
    let safe = at_dir-IsSafe a h in
    record {
      whole = safe.whole;
      grows = safe.grows;
      yields = λ s w. elim (Option-cases (lookup a s.dirs)) [
        | inl e ↦ rw (at_dir, e) tt
        | inr (d, e) ↦
            let t = (m (d, s)).1 in
            rw (at_dir, e)
              (Found a (m (d, s)).0 (put_dir a t.0 t.1)
                (rw even (ground (arith, lookup-insert a a t.0 t.1.dirs))))
      ];
    }

pub at_file-Found :
    {A : Type 0} (a : ℕ) (m : Act File A) → is_even a ≡ false → IsSafe (λ _. some a) (at_file a m)
unfolding at_file panic
at_file-Found a m odd =
    let safe = at_file-IsSafe a m in
    record {
      whole = safe.whole;
      grows = safe.grows;
      yields = λ s w. elim (Option-cases (lookup a s.files)) [
        | inl e ↦ rw (at_file, e) tt
        | inr (x, e) ↦
            rw (at_file, e)
              (Found a (m x).0 (put_file a (m x).1 s)
                (rw odd (ground (arith, lookup-insert a a (m x).1 s.files))))
      ];
    }
