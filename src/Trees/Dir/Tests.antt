-- ===== src/Trees/Dir/Tests.antt =====
-- A directory with one file.
use qptools.Prelude.{true, [], ◌∷◌}
use qptools.Act.{reason, ok, err}
use qptools.Qp.{Qp}
use qptools.Tests.{constants}
use qptools.Trees.Dir.{Dir, Elements, empty_dir, add, create, rename, remove, on_self}
use qptools.Trees.Dir.Laws.{Simulates, creation, removal, renaming, dir_refinement}

abbrev qp : Qp
qp = constants (λ m. 20)

-- Files that can be removed and renamed; the new ones have the address 9.
abbrev files : Elements (Unit {0})
files = record {
  set_name = λ file user name w. (ok tt, w);
  can_remove = λ file w. (ok true, w);
  stat = λ file w. (err (reason "no stat"), w);
  new_dir = λ name permissions user group w. (ok 9, w);
  new_file = λ name permissions user group w. (ok 9, w);
}

abbrev home : Dir
home = record (empty_dir 1 100 "home" 511 "glenda" "glenda") { entries = ("notes", 5) ∷ [] }

dir_refinement_example :
    Simulates {W = Unit {0}} (λ _. creation "notes" 6) home (on_self (add 101 "notes" 6))
    × Simulates (creation "notes") home (create qp files 101 "glenda" "notes" 420)
    × Simulates (λ _. removal "notes") home (remove qp files 101 "glenda" "notes")
    × Simulates
        (λ _. renaming "notes" "papers")
        home
        (rename qp files 101 "glenda" "notes" "papers")
dir_refinement_example = dir_refinement qp files 101 "glenda" "notes" "papers" 420 6 home
