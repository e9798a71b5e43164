-- ===== src/Trees/Locked/Laws.antt =====
-- Who may have a LockedFile open at once.
use qptools.Prelude.{
  ℕ, zero, suc, ◌-◌, ◌≤◌, ◌<◌, ◌≡◌, refl, sym, Bool, true, false, String, arith, ltb, if◌then◌else◌,
}
use qptools.Act.{Outcome, ok, err, panicked, blocked, continue, ◌>>=◌, ◌>>◌}
use qptools.Qp.{Qp}
use qptools.Trees.Locked.{
  OpenLock, LockedHandle, Wrapped, take_lock, release, locks_writing, open_locked, close_locked,
  on_lock, then_release,
}

-- The handles that are open, by what they lock for.
pub record Users : Type 0 where
  pub reading : ℕ
  pub writing : ℕ

abbrev pub joined : Bool → Users → Users
joined true u = record u { writing = suc u.writing }
joined false u = record u { reading = suc u.reading }

abbrev pub left : Bool → Users → Users
left true u = record u { writing = u.writing - 1 }
left false u = record u { reading = u.reading - 1 }

abbrev pub users_of : Bool → Users → ℕ
users_of true u = u.writing
users_of false u = u.reading

-- The users after a call with this outcome.
abbrev pub after_open : Outcome LockedHandle → Users → Users
after_open (ok h) u = joined h.writes u
after_open (err e) u = u
after_open panicked u = u
after_open blocked u = u

abbrev pub after_close : Bool → Outcome (Unit {0}) → Users → Users
after_close writes (ok t) u = left writes u
after_close writes (err e) u = left writes u
after_close writes panicked u = u
after_close writes blocked u = u

-- The opens and closes of a file, in any order, whatever they come to; only a handle that is open is
-- closed. In between the wrapped file may change in any way.
pub data InUse (qp : Qp) {W : Type 0} (file : Wrapped W) : OpenLock × W → Users → Type 0 where
  unused :
      (w : W)
      → InUse qp file
          (record { readers = 0; writing = false }, w)
          (record { reading = 0; writing = 0 })
  changed :
      {l : OpenLock} {w : W} {u : Users} (w' : W) → InUse qp file (l, w) u → InUse qp file (l, w') u
  opened :
      {s : OpenLock × W} {u : Users} (user : String) (mode : ℕ)
      → InUse qp file s u
      → InUse qp file
          (open_locked qp file user mode s).1
          (after_open (open_locked qp file user mode s).0 u)
  closed :
      {s : OpenLock × W} {u : Users} (h : LockedHandle)
      → InUse qp file s u
      → 0 < users_of h.writes u
      → InUse qp file
          (close_locked qp file h s).1
          (after_close h.writes (close_locked qp file h s).0 u)

-- The lock counts the handles.
pub record Locks (l : OpenLock) (u : Users) : Type 0 where
  pub counted : l.readers ≡ u.reading
  pub alone : u.writing ≡ (if l.writing then 1 else 0)
  pub apart : l.writing ≡ true → u.reading ≡ 0

-- What taking the lock comes to.
abbrev TakenBy : Bool → Users → Outcome (Unit {0}) × OpenLock → Type 0
TakenBy b u (ok t, l) = Locks l (joined b u)
TakenBy b u (err e, l) = ⊥
TakenBy b u (panicked, l) = ⊥
TakenBy b u (blocked, l) = Locks l u

take_lock-TakenBy :
    (b w : Bool) (r : ℕ) (u : Users)
    → Locks (record { readers = r; writing = w }) u
    → TakenBy b u (take_lock b (record { readers = r; writing = w }))
unfolding take_lock
take_lock-TakenBy true true r u k = k
take_lock-TakenBy true false zero u k = record {
  counted = k.counted;
  alone = omega (arith, k.alone);
  apart = λ e. sym k.counted;
}
take_lock-TakenBy true false (suc r) u k =
    let held : (ltb 0 (suc r) ≡ true) = ground arith in rw held k
take_lock-TakenBy false true r u k = k
take_lock-TakenBy false false r u k = record {
  counted = omega (arith, k.counted);
  alone = k.alone;
  apart = λ e. absurd (ground arith);
}

release-Locks :
    (b w : Bool) (r : ℕ) (u : Users)
    → Locks (record { readers = r; writing = w }) u
    → 0 < users_of b u
    → (l : OpenLock) × (release b (record { readers = r; writing = w }) ≡ (ok tt, l))
      × Locks l (left b u)
unfolding release
release-Locks true true r u k some_user = (
  record { readers = r; writing = false },
  refl,
  record {
    counted = k.counted;
    alone = omega (arith, k.alone);
    apart = λ e. absurd (ground arith);
  },
)
release-Locks true false r u k some_user = absurd (omega (arith, k.alone))
release-Locks false w zero u k some_user = absurd (omega (arith, k.counted))
release-Locks false w (suc r) u k some_user = (
  record { readers = r; writing = w },
  ground arith,
  record {
    counted = omega (arith, k.counted);
    alone = k.alone;
    apart = λ e. omega (arith, k.apart e);
  },
)

abbrev OpenEnds : {W : Type 0} → Users → Outcome LockedHandle × (OpenLock × W) → Type 0
OpenEnds u (o, (l, w)) = Locks l (after_open o u)

abbrev CloseEnds : {W : Type 0} → Bool → Users → Outcome (Unit {0}) × (OpenLock × W) → Type 0
CloseEnds b u (o, (l, w)) = Locks l (after_close b o u)

module _ (qp : Qp) {W : Type 0} (file : Wrapped W) (l : OpenLock) (u : Users) (k : Locks l u) where
  open-Locks :
      (user : String) (mode : ℕ) (w : W) → OpenEnds u (open_locked qp file user mode (l, w))
  unfolding open_locked ◌>>=◌
  open-Locks user mode w = wrapped (file.open_file user mode w)
    where
      b : Bool
      b = locks_writing qp mode

      locked :
          (h : ℕ) (w' : W) (r : Outcome (Unit {0}) × OpenLock)
          → TakenBy b u r
          → OpenEnds u (continue r.0 (λ t s. (ok (record { handle = h; writes = b }), s)) (r.1, w'))
      locked h w' (ok t, l') taken = taken
      locked h w' (blocked, l') taken = taken
      locked h w' (err e, l') taken = elim taken [ ]
      locked h w' (panicked, l') taken = elim taken [ ]

      wrapped :
          (r : Outcome ℕ × W)
          → OpenEnds u (
              continue r.0
                (λ h. on_lock (take_lock b) >> (λ s. (ok (record { handle = h; writes = b }), s)))
                (l, r.1))
      wrapped (ok h, w') = locked h w' (take_lock b l) (take_lock-TakenBy b l.writing l.readers u k)
      wrapped (err e, w') = k
      wrapped (panicked, w') = k
      wrapped (blocked, w') = k

  close-Locks :
      (h : LockedHandle) (w : W)
      → 0 < users_of h.writes u
      → CloseEnds h.writes u (close_locked qp file h (l, w))
  unfolding close_locked
  close-Locks h w some_user = wrapped (file.close h.handle w)
    where
      wrapped :
          (r : Outcome (Unit {0}) × W)
          → CloseEnds h.writes u (then_release h.writes (r.0, (l, r.1)))
      wrapped (ok t, w') =
          let (l', e, k') = release-Locks h.writes l.writing l.readers u k some_user in rw e k'
      wrapped (err e, w') =
          let (l', e', k') = release-Locks h.writes l.writing l.readers u k some_user in rw e' k'
      wrapped (panicked, w') = k
      wrapped (blocked, w') = k

in_use-Locks :
    {qp : Qp} {W : Type 0} {file : Wrapped W} {s : OpenLock × W} {u : Users}
    → InUse qp file s u
    → Locks s.0 u
in_use-Locks (unused w) = record { counted = refl; alone = refl; apart = λ e. refl }
in_use-Locks (changed w' i) = in_use-Locks i
in_use-Locks {qp} {W} {file} (opened {s} {u} user mode i) =
    open-Locks qp file s.0 u (in_use-Locks i) user mode s.1
in_use-Locks {qp} {W} {file} (closed {s} {u} h i some_user) =
    close-Locks qp file s.0 u (in_use-Locks i) h s.1 some_user

-- In whatever order a LockedFile is opened and closed, and whatever the wrapped file answers: while a
-- handle is open that locks for writing, it is the only one that is open.
pub locked_exclusion :
    {qp : Qp} {W : Type 0} {file : Wrapped W} {s : OpenLock × W} {u : Users}
    → InUse qp file s u
    → (u.writing ≤ 1) × (0 < u.writing → u.reading ≡ 0)
locked_exclusion {s = s} i = let k = in_use-Locks i in ground (arith, k.alone, k.apart)
