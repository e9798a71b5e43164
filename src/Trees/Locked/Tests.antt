-- ===== src/Trees/Locked/Tests.antt =====
-- A file that is open for writing.
use qptools.Prelude.{◌≤◌, ◌<◌, ◌≡◌, false}
use qptools.Act.{Outcome, ok}
use qptools.Qp.{Qp}
use qptools.Tests.{constants}
use qptools.Trees.Locked.{OpenLock, LockedHandle, Wrapped, open_locked}
use qptools.Trees.Locked.Laws.{Users, after_open, InUse, unused, opened, locked_exclusion}

abbrev qp : Qp
qp = constants (λ m. 20)

abbrev wrapped : Wrapped (Unit {0})
wrapped = record { open_file = λ user mode w. (ok 3, w); close = λ handle w. (ok tt, w) }

abbrev nobody : Users
nobody = record { reading = 0; writing = 0 }

abbrev opening : Outcome LockedHandle × (OpenLock × Unit {0})
opening = open_locked qp wrapped "glenda" 1 (record { readers = 0; writing = false }, tt)

opening-InUse : InUse qp wrapped opening.1 (after_open opening.0 nobody)
opening-InUse = opened "glenda" 1 (unused tt)

locked_exclusion_example :
    ((after_open opening.0 nobody).writing ≤ 1)
    × (0 < (after_open opening.0 nobody).writing → (after_open opening.0 nobody).reading ≡ 0)
locked_exclusion_example = locked_exclusion opening-InUse
