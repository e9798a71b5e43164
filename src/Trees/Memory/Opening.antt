-- ===== src/Trees/Memory/Opening.antt =====
-- The methods of the handles, and the opening of one.
use qptools.Prelude.{
  ℕ, ◌+◌, ◌*◌, ◌≡◌, refl, ℤ, String, Bool, true, false, Bool-cases, inl, inr, none, List, [],
  if◌then◌else◌,
}
use qptools.Prelude.Maps.{nat_key}
use qptools.Act.{Act, Outcome, ok, err, panicked, blocked, pure, raise, ◌>>=◌}
use qptools.Qp.{Qp, Stat, StatCodec}
use qptools.Trees.Dir.{Dir, on_self, permits}
use qptools.Trees.Dir as Dirs
use qptools.Trees.File.{File, Handle, open_synthetic}
use qptools.Trees.File as Files
use qptools.Trees.Listing.{
  ListHandle, read_listing, write_listing, close_listing, store, log, update, copy_page, is_start,
}
use qptools.Trees.Memory.{
  Memory, is_even, at_dir, at_listing, at_handle, store_listing, store_handle, lister_of,
  open_memory, read_memory, elements,
}
use qptools.Trees.Memory.Whole.{IsWhole, Grows, no_address, IsSafe, at_dir-IsSafe}
use qptools.Trees.Memory.Actions.{IsSafe-bind, IsSafe-then, IsSafe-if, pure-IsSafe}
use qptools.Trees.Memory.Methods.{on_self-DirSafe}
use qptools.Trees.Memory.Entries.{list-DirSafe}
use qptools.Trees.Memory.Handles.{
  Calm, Calm-bind, put_listing-IsWhole, put_handle-IsWhole, at_listing-IsSafe, at_handle-IsSafe,
  at_dir-Found, at_file-Found,
}

module _ (qp : Qp) (codec : StatCodec) (now : ℕ) where
  open_dir-SameEntries :
      (user : String) (mode : ℕ) (d : Dir)
      → (Dirs.open_dir qp now user mode d).1.entries ≡ d.entries
  unfolding Dirs.open_dir
  open_dir-SameEntries user mode d = elim (Bool-cases (permits qp user mode d)) [
    | inl e ↦ rw e refl
    | inr e ↦ rw e refl
  ]

  pub open_memory-IsSafe :
      (a : ℕ) (user : String) (mode : ℕ) → IsSafe no_address (open_memory qp codec now a user mode)
  unfolding open_memory store_listing store_handle
  open_memory-IsSafe a user mode = elim (Bool-cases (is_even a)) [
    | inl even ↦ rw even (
        IsSafe-bind _ (at_dir-Found a _ even (on_self-DirSafe _ (open_dir-SameEntries user mode)))
          λ x s w here.
            let h : ListHandle = record { user = user; list = [] } in
            let p = put_listing-IsWhole (2 * s.next) (a, h) s even here w in
            (record { entries = p.entries; listed = p.listed; handled = p.handled }, λ f q. q, tt))
    | inr odd ↦ rw odd (
        IsSafe-bind _ (at_file-Found a (open_synthetic qp now user mode) odd) λ h s w here.
          let p = put_handle-IsWhole (2 * s.next + 1) (a, h) s odd here w in
          (record { entries = p.entries; listed = p.listed; handled = p.handled }, λ f q. q, tt))
  ]

  stored :
      (s : Memory) (h : ListHandle) (r : Outcome (List Stat)) (t : Memory)
      → IsWhole t
      → Grows s t
      → IsWhole (store h (r, t)).1.1 × Grows s (store h (r, t)).1.1
  stored s h (ok ss) t v g = (v, g)
  stored s h (err e) t v g = (v, g)
  stored s h panicked t v g = (v, g)
  stored s h blocked t v g = (v, g)

  list-Calm : (a : ℕ) → Calm (update codec (lister_of qp codec now a))
  list-Calm a = record {
    at = λ h s w.
        let safe = at_dir-IsSafe a (list-DirSafe qp codec now h.user) in
        let t = at_dir a (Dirs.list qp (elements qp codec now) now h.user) s in
        stored s h t.0 t.1 (safe.whole s w) (safe.grows s w);
  }

  log-Calm :
      (a : ℕ) (m : Act Memory (Unit {0}))
      → IsSafe no_address m
      → Calm (log codec (lister_of qp codec now a) m)
  log-Calm a m h = record { at = λ x s w. (h.whole s w, h.grows s w) }

  accessed-SameEntries : (d : Dir) → (Dirs.accessed now d).1.entries ≡ d.entries
  unfolding Dirs.accessed
  accessed-SameEntries d = refl

  closed-SameEntries : (d : Dir) → (Dirs.closed d).1.entries ≡ d.entries
  unfolding Dirs.closed
  closed-SameEntries d = refl

  refreshed :
      (start : Bool) (a : ℕ)
      → Calm (if start then update codec (lister_of qp codec now a) else pure tt)
  unfolding pure
  refreshed true a = list-Calm a
  refreshed false a = record { at = λ h s w. (w, λ f p. p) }

  read_listing-Calm :
      (a room : ℕ) (offset : ℤ) → Calm (read_listing codec (lister_of qp codec now a) room offset)
  unfolding read_listing ◌>>=◌
  read_listing-Calm a room offset =
      let dir = lister_of qp codec now a in
      let accessing =
        at_dir-IsSafe a (on_self-DirSafe (Dirs.accessed now) (accessed-SameEntries)) in
      Calm-bind (if is_start offset then update codec dir else pure tt)
        (λ _. log codec dir dir.accessed >>= λ _. copy_page codec dir room)
        (refreshed (is_start offset) a)
        λ _.
          Calm-bind (log codec dir dir.accessed) (λ _. copy_page codec dir room)
            (log-Calm a dir.accessed accessing) λ _. record { at = λ h s w. (w, λ f p. p) }

  pub read_memory-IsSafe :
      (h count : ℕ) (offset : ℤ) → IsSafe no_address (read_memory qp codec now h count offset)
  unfolding read_memory
  read_memory-IsSafe h count offset =
      IsSafe-if (is_even h) _ _ (at_listing-IsSafe h _ (λ a. read_listing-Calm a count offset)) (
        IsSafe-then _ (at_handle-IsSafe h (λ x. Files.read_at x now count offset))
          λ b. pure-IsSafe (b, none))

  pub write_memory-IsSafe :
      (h : ℕ) (bytes : List ℕ) (offset : ℤ)
      → IsSafe no_address (
          if is_even h
          then write_listing bytes offset
          else at_handle h (λ x. Files.write_at x now bytes offset))
  unfolding write_listing raise
  write_memory-IsSafe h bytes offset =
      IsSafe-if (is_even h) _ _
        (record { whole = λ s w. w; grows = λ s w f p. p; yields = λ s w. tt })
        (at_handle-IsSafe h (λ x. Files.write_at x now bytes offset))

  pub close_memory-IsSafe :
      (h : ℕ)
      → IsSafe no_address (
          if is_even h
          then at_listing h (λ a. close_listing codec (lister_of qp codec now a))
          else at_handle h (λ x. Files.close))
  unfolding close_listing
  close_memory-IsSafe h =
      IsSafe-if (is_even h) _ _
        (at_listing-IsSafe h _
          λ a. log-Calm a _ (at_dir-IsSafe a (on_self-DirSafe Dirs.closed closed-SameEntries)))
        (at_handle-IsSafe h (λ x. Files.close))
