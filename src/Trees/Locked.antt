-- ===== src/Trees/Locked.antt =====
-- LockedFile and LockedHandle of fileserver/trees/lockedfile.go. A lock that is not free blocks for
-- ever: whoever holds it is not part of the call. What Go does with the readers that come after a
-- writer which waits is left out.
pub mod Laws
mod Tests
use qptools.Prelude.{
  ℕ, zero, suc, ◌+◌, ◌-◌, Bool, true, false, ◌||◌, String, ◌==◌, ltb, if◌then◌else◌, bit_and,
}
use qptools.Act.{Act, Error, Outcome, ok, err, panicked, blocked, ◌>>=◌, ◌>>◌}
use qptools.Qp.{Qp}

-- sync.RWMutex
pub record OpenLock : Type 0 where
  pub readers : ℕ
  pub writing : Bool

-- LockedHandle: the handle, and whether its Locker is that of writers
pub record LockedHandle : Type 0 where
  pub handle : ℕ
  pub writes : Bool

-- the file that is locked
pub record Wrapped (W : Type 0) : Type 0 where
  pub open_file : (user : String) (mode : ℕ) → Act W ℕ
  pub close : (handle : ℕ) → Act W (Unit {0})

-- l.Lock()
unfoldable pub take_lock : (writes : Bool) → Act OpenLock (Unit {0})
take_lock true l =
    if l.writing || ltb 0 l.readers then (blocked, l) else (ok tt, record l { writing = true })
take_lock false l =
    if l.writing then (blocked, l) else (ok tt, record l { readers = l.readers + 1 })

-- Locker.Unlock(): it crashes where the lock is not held
unfoldable pub release : (writes : Bool) → Act OpenLock (Unit {0})
release true l = if l.writing then (ok tt, record l { writing = false }) else (panicked, l)
release false l =
    if l.readers == 0 then (panicked, l) else (ok tt, record l { readers = l.readers - 1 })

-- mode & 3, writing
unfoldable pub locks_writing : Qp → (mode : ℕ) → Bool
locks_writing qp mode = bit_and mode 3 == qp.owrite || bit_and mode 3 == qp.ordwr

module _ {W : Type 0} where
  abbrev pub on_lock : {A : Type 0} → Act OpenLock A → Act (OpenLock × W) A
  on_lock m (l, w) = let (r, l') = m l in (r, (l', w))

  abbrev pub on_wrapped : {A : Type 0} → Act W A → Act (OpenLock × W) A
  on_wrapped m (l, w) = let (r, w') = m w in (r, (l, w'))

  -- the error of Close, after the lock was released
  abbrev pub keep_error :
      Error → Outcome (Unit {0}) × (OpenLock × W) → Outcome (Unit {0}) × (OpenLock × W)
  keep_error e (ok t, s) = (err e, s)
  keep_error e (err e', s) = (err e', s)
  keep_error e (panicked, s) = (panicked, s)
  keep_error e (blocked, s) = (blocked, s)

  abbrev pub then_release :
      (writes : Bool) → Outcome (Unit {0}) × (OpenLock × W) → Outcome (Unit {0}) × (OpenLock × W)
  then_release writes (ok t, s) = on_lock (release writes) s
  then_release writes (err e, s) = keep_error e (on_lock (release writes) s)
  then_release writes (panicked, s) = (panicked, s)
  then_release writes (blocked, s) = (blocked, s)

module _ (qp : Qp) {W : Type 0} (file : Wrapped W) where
  -- Open(user, mode)
  unfoldable pub open_locked : (user : String) (mode : ℕ) → Act (OpenLock × W) LockedHandle
  unfolding ◌>>=◌
  open_locked user mode = do
    h ← on_wrapped (file.open_file user mode)
    on_lock (take_lock (locks_writing qp mode))
    λ s. (ok (record { handle = h; writes = locks_writing qp mode }), s)

  -- Close()
  unfoldable pub close_locked : LockedHandle → Act (OpenLock × W) (Unit {0})
  close_locked h s = then_release h.writes (on_wrapped (file.close h.handle) s)
