-- ===== src/Trees/Mix/Tests.antt =====
-- Two directories with a file of the same name.
use qptools.Prelude.{ℕ, zero, suc, ◌≡◌, refl, false, String, List, [], ◌∷◌}
use qptools.Act.{Act, ok}
use qptools.Qp.{Stat}
use qptools.Utils.Tests.{numbered}
use qptools.Tests.{endless}
use qptools.Trees.Mix.{Mix, mix_list}
use qptools.Trees.Mix.Laws.{find_entry, or_else, EachOnce, mix_list_lem}

-- The stats of directory 0, and of all others; all files have the same name.
abbrev stats_in : (dir : ℕ) (user : String) → Act (Unit {0}) (List Stat)
stats_in zero user w = (ok (numbered 1 ∷ []), w)
stats_in (suc dir) user w = (ok (numbered 2 ∷ []), w)

abbrev mixed : Mix
mixed = record { top = 0; bottom = 1; create_at_bottom = false }

mix_list_lem_example :
    (ss : List Stat) × (mix_list endless stats_in mixed "glenda" tt ≡ (ok ss, tt))
    × ((name : String)
        → find_entry name ss
          ≡ or_else (find_entry name (numbered 1 ∷ [])) (find_entry name (numbered 2 ∷ [])))
    × EachOnce ss
mix_list_lem_example =
    mix_list_lem endless stats_in mixed "glenda" (numbered 2 ∷ []) (numbered 1 ∷ []) tt tt tt refl
      refl
