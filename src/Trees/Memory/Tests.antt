-- ===== src/Trees/Memory/Tests.antt =====
-- A tree with one file in its root.
use qptools.Prelude.{◌≡◌, refl, some}
use qptools.Prelude.Maps.{lookup, insert, nat_key, text_key}
use qptools.Act.{ok, require, ◌>>=◌}
use qptools.Qp.{Qp}
use qptools.Tests.{constants}
use qptools.Trees.Dir.{permits, inherited, create, walk}
use qptools.Trees.File.{next_id}
use qptools.Trees.Perm.{perm_check}
use qptools.Trees.Memory.{Memory, memory_tree, new_memory, at_dir, new_id, store_file}
use qptools.Utils.Tests.{codec}

abbrev qp : Qp
qp = constants (λ m. 20)

abbrev empty_tree : Memory
empty_tree = new_memory 100 7 "glenda" "sys"

abbrev one_file : Memory
one_file = ((memory_tree qp codec 101).create 0 "glenda" "notes" 420 empty_tree).1

-- The file is found where it was made.
found_again : ((memory_tree qp codec 102).walk 0 "glenda" "notes" one_file).0 ≡ ok (some 3)
unfolding at_dir create walk permits inherited require new_id next_id store_file lookup insert
    perm_check ◌>>=◌
found_again = refl
