-- ===== src/Tests/Files.antt =====
-- Fids, files and the changes of a stat, on a concrete server.
use qptools.Prelude.{◌+◌, ◌-◌, ◌^◌, ◌≤◌, ◌≡◌, refl, true, none, [], ◌∷◌}
use qptools.Prelude.Maps.{nat_key}
use qptools.Act.{reason, Outcome, err, panicked, within, require, or_raise, attempt, ignore, ◌>>=◌}
use qptools.Fileserver.SetStat.{refusal, requested, set_stat}
use qptools.Fileserver.SetStat.Laws.{set_stat_root_panics}
use qptools.Fileserver.Wire.{on_world}
use qptools.Fileserver.Fids.{attach_body}
use qptools.Fileserver.Files.{readable, read_count, read_result, read_body, open_body}
use qptools.Fileserver.Effects.{read_body_bound}
use qptools.Qp.{Stat, Reply}
use qptools.Fileserver.State.{Session, Host}
use qptools.Tests.{a_stat, endless, host, at_root, opened, talking, few_le}

read_body_bound_example : (true ≡ true) × (readable host.qp 0 ≡ true) × (1 ≤ 100) × (1 + 11 ≤ 8192)
unfolding read_body readable read_count read_result on_world within require or_raise ◌>>=◌
read_body_bound_example =
    read_body_bound host opened 8192 0 100 talking (42 ∷ []) (λ h n off w. few_le n) refl

abbrev open_result : Outcome Reply × Session (Unit {0})
open_result = open_body host at_root 1 0 talking

abbrev nameless : Host (Unit {0})
nameless = record host { tree = record endless { qid = λ f w. (err (reason "no qid"), w) } }

abbrev attached : Outcome Reply × Session (Unit {0})
attached = attach_body nameless 3 (2 ^ 32 - 1) "glenda" "" talking

abbrev longer_stat : Stat
longer_stat = record a_stat { length = 6 }

abbrev shorter_stat : Stat
shorter_stat = record a_stat { length = 2 }

set_stat_root_panics_example :
    (set_stat host.qp endless "glenda" 0 none shorter_stat tt).0 ≡ panicked
unfolding refusal requested ignore attempt ◌>>=◌
set_stat_root_panics_example =
    set_stat_root_panics host.qp endless "glenda" 0 shorter_stat tt tt tt a_stat
      (reason "read-only") refl refl refl refl refl refl refl (λ w. (refl, refl))
