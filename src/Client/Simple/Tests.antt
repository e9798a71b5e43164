-- ===== src/Client/Simple/Tests.antt =====
-- A directory that is listed by its path, and a file that cannot be created by its own.
use qptools.Prelude.{◌≡◌, refl, some, [], arith}
use qptools.Act.{ok}
use qptools.Utils.Laws.{nothing, further, listing}
use qptools.Utils.Tests.{codec, two_stats, two_stats-AllEncode}
use qptools.Client.Tests.{qp, reader, reader-Serves}
use qptools.Client.Connection.{Connection}
use qptools.Client.Paths.{split, filled}
use qptools.Client.Simple.{list_files}
use qptools.Client.Simple.Laws.{Opens, list_files_lem}

abbrev home : Connection (Unit {0})
home = reader 4 (listing codec two_stats)

home-Opens : Opens home qp (λ s. Unit {0}) 0 1 "/usr/glenda" tt
unfolding split filled
home-Opens = record {
  walked = tt;
  opened = tt;
  qids = [];
  qid = record { kind = 0; version = 1; path = 7 };
  iounit = 0;
  named = omega arith;
  walks = refl;
  opens = refl;
  fine = tt;
  clunks = λ s fine. (tt, refl);
}

list_files_lem_example :
    (s' : Unit {0}) × (list_files home qp codec [] 7 (some 0) "/usr/glenda" tt ≡ (ok two_stats, s'))
list_files_lem_example =
    list_files_lem home qp 0 1 (listing codec two_stats) (λ s. Unit {0})
      (reader-Serves 4 (listing codec two_stats) (omega arith)) (omega arith) codec [] 7
      "/usr/glenda" two_stats tt home-Opens two_stats-AllEncode
      (further (omega arith) (further (omega arith) nothing)) refl (omega arith)
