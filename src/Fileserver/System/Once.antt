-- ===== src/Fileserver/System/Once.antt =====
-- The invariant of the wire, for a server and its handlers, before the first message.
use qptools.Prelude.{arith}
use qptools.Prelude.Maps.{lookup, nat_key}
use qptools.Fileserver.State.{Host, new}
use qptools.Fileserver.Wire.Effect.{wire}
use qptools.Fileserver.System.{System, start}
use qptools.Fileserver.System.Inv.{Inv}
use qptools.Fileserver.System.Kept.{job_ids}

abbrev pub SystemInv : {W : Type 0} → System W → Type 0
SystemInv s = Inv (wire s.server) (job_ids s.jobs)

module _ {W : Type 0} (host : Host W) where
  pub start-SystemInv : (world : W) → SystemInv (start world)
  unfolding new lookup
  start-SystemInv world = record {
    own = λ t r e. cc;
    live = λ t r e. cc;
    apart = λ t u r q e f g. cc;
    once = λ i. omega arith;
    known = λ i le. omega arith;
  }
