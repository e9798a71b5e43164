-- ===== src/Trees/Proxy/Tests.antt =====
-- A directory of a concrete operating system, and the theorems on it.
use Prim.Native.String.{◌++◌ as then_text}
use qptools.Prelude.{◌≡◌, refl, true, false, some, [], ◌∷◌, pos}
use qptools.Act.{ok, gets, within, modify, attempt, require, ◌>>=◌}
use qptools.Utils.Tests.{codec}
use qptools.Client.Simple.{deferring}
use qptools.Client.Tests.{qp}
use qptools.Trees.Listing.{read_listing}
use qptools.Trees.Proxy.{
  Info, Os, World, new_proxy, walk, entries, direct_list, update_info, current_info, is_dir,
  explained, this, on_machine, store_info,
}
use qptools.Trees.Proxy.Listing.{read_entries}
use qptools.Trees.Proxy.Fast.{lister, as_listing, read_entries_lem}
use qptools.Trees.Proxy.Names.{slash, outside, walk_outside}

abbrev some_dir : Info
some_dir = record { name = "etc"; size = 4096; mode = 493; mod_time = 7000000000; is_dir = true }

abbrev a_file : Info
a_file = record { name = "motd"; size = 5; mode = 420; mod_time = 9000000000; is_dir = false }

-- Every path is the directory, which has one file.
abbrev os : Os (Unit {0})
os = record {
  rdonly = 0;
  wronly = 1;
  rdwr = 2;
  trunc = 512;
  creat = 64;
  excl = 128;
  stat = λ path l. (ok some_dir, l);
  is_not_exist = λ e. false;
  open_file = λ path flags perms l. (ok 3, l);
  read_dir = λ file l. (ok (a_file ∷ []), l);
  close = λ file l. (ok tt, l);
  mkdir = λ path perms l. (ok tt, l);
  remove = λ path l. (ok tt, l);
  rename = λ old new l. (ok tt, l);
  sum = λ s. 1;
}

abbrev exported : World (Unit {0})
exported = record { file = new_proxy "/srv" "etc" "glenda" "sys"; machine = tt }

read_entries_lem_example :
    read_listing codec
      (lister qp os)
      100
      (pos 0)
      (record { user = "glenda"; list = entries qp os exported.file [] }, exported)
    ≡ as_listing qp codec os "glenda" (read_entries qp codec os 100 (pos 0) ([], exported))
unfolding read_entries direct_list explained is_dir current_info update_info this on_machine
    store_info gets within modify attempt require deferring ◌>>=◌
read_entries_lem_example = read_entries_lem qp codec os 100 (pos 0) "glenda" [] exported tt

walk_outside_example :
    walk qp os "rob"
      (outside "etc")
      (record { file = new_proxy (slash "srv") "" "glenda" "sys"; machine = tt })
    ≡ (
      ok (some (new_proxy (slash "srv") (outside "etc") "glenda" "sys")),
      record { file = new_proxy (slash "srv") "" "glenda" "sys"; machine = tt },
    )
walk_outside_example =
    walk_outside qp os "srv" "etc" "rob" "glenda" "sys" some_dir tt tt refl refl refl
