-- ===== src/Cmd/Tests.antt =====
-- Concrete sessions of cmd/9pc, and the theorems on them.
use Prim.Native.String.{String}
use qptools.Prelude.{ℕ, ◌≡◌, refl, none, some, List, [], ◌∷◌, ◌++◌, arith, length}
use qptools.Act.{Outcome, ok, value, ◌>>=◌, attempt, require, within, or_raise, modify}
use qptools.Qp.{Stat}
use qptools.Utils.Laws.{listing}
use qptools.Utils.Tests.{codec, two_stats}
use qptools.Client.Tests.{qp, reader, reader-Serves}
use qptools.Client.Connection.{Connection}
use qptools.Client.Wrapped.Reads.{Serves}
use qptools.Client.Paths.{split}
use qptools.Cmd.Parse.{parse_command_line, parse_from, take_character}
use qptools.Cmd.Shell.{
  parse_path, take_names, take_name, runes, Local, Host, Shell, remotely, print, walk,
}
use qptools.Cmd.Shell.Paths.{IsNormal, parse_path_lem}
use qptools.Cmd.Commands.{cat, cd, rm, mkdir, get, start_at}
use qptools.Cmd.Commands.Tracked.{tracked, fids}
use qptools.Cmd.Commands.Reading.{Pieces, Reaches, shown, cat_lem}
use qptools.Cmd.Commands.Download.{Stores, Offers, get_lem}
use qptools.Cmd.Main.{cut, named, run, perform, interact}
use qptools.Cmd.Main.Fids.{Passing, over, line, interact-fids}

-- A machine with one file, which keeps all that is written to it.
abbrev disk : Local (List ℕ)
disk = record {
  create = λ name l. (ok 3, []);
  write = λ file bytes l. (ok (length bytes), l ++ bytes);
  read_file = λ name l. (ok (record { array = l; len = length l }), l);
}

abbrev desk : Host (List ℕ)
desk = record {
  files = disk;
  bytes = λ s. record { array = runes s; len = length (runes s) };
  arguments = λ command words. value ("notes", "copy");
}

-- A connection whose walks all lead to fid 1, a directory with two entries.
abbrev home : Connection (Unit {0})
home = record (reader 4 (listing codec two_stats)) {
  walk = λ fid names s. (ok (some 1, record { kind = 128; version = 1; path = 7 } ∷ []), s);
}

abbrev fresh : Shell (Unit {0}) (List ℕ)
fresh = record { connection = tt; machine = []; held_fid = none; printed = [] }

abbrev started : Shell (Unit {0} × List ℕ) (List ℕ)
started = record { connection = (tt, 0 ∷ []); machine = []; held_fid = none; printed = [] }

abbrev lines : List String
lines = "rm notes" ∷ "frob" ∷ "mkdir" ∷ []

lines-Passing : Passing lines
unfolding named cut
lines-Passing = line refl (line refl (line refl over))

interact-fids_example :
    fids (interact qp (tracked home) desk codec [] 9 0 0 lines started).1 ≡ 0 ∷ []
unfolding interact perform run cut named rm mkdir walk remotely parse_path take_names take_name
    split print require attempt or_raise modify within ◌>>=◌
interact-fids_example = interact-fids qp home desk codec [] 9 0 0 lines started lines-Passing tt

abbrev moved_home : Outcome ℕ × Shell (Unit {0} × List ℕ) (List ℕ)
moved_home = cd qp (tracked home) desk 0 0 "usr" started

parse_path_lem_example :
    IsNormal (parse_path "../a/./b/..").0
    × (take_names [] (parse_path "../a/./b/..").0 ≡ (parse_path "../a/./b/..").0)
parse_path_lem_example = parse_path_lem "../a/./b/.."

-- A file of five bytes.
abbrev five : List ℕ
five = 104 ∷ 101 ∷ 108 ∷ 108 ∷ 111 ∷ []

abbrev a_file : Stat
a_file = record {
  kind = 0;
  dev = 0;
  qid = record { kind = 0; version = 1; path = 7 };
  mode = 420;
  atime = 0;
  mtime = 0;
  length = 5;
  name = "notes";
  uid = "glenda";
  gid = "glenda";
  muid = "glenda";
}

abbrev notes : Connection (Unit {0})
notes = record (reader 2 five) { stat = λ fid s. (ok a_file, s) }

notes-Pieces : Pieces notes 1 five (λ s. Unit {0})
notes-Pieces = let serves = reader-Serves 1024 five (omega arith) in record { part = serves.part }

notes-Serves : Serves notes 1 five (λ s. Unit {0})
notes-Serves = let serves = reader-Serves 2 five (omega arith) in record { part = serves.part }

notes-Reaches :
    Reaches notes qp
      (λ s. Unit {0})
      (start_at qp notes desk (parse_path "notes").1 0 0)
      1
      (parse_path "notes").0
      tt
notes-Reaches = record {
  walked = tt;
  opened = tt;
  qids = [];
  qid = record { kind = 0; version = 1; path = 7 };
  iounit = 0;
  walks = refl;
  opens = refl;
  fine = tt;
  clunks = λ s fine. (tt, refl);
}

cat_lem_example :
    (s' : Shell (Unit {0}) (List ℕ)) × (cat qp notes desk 6 0 0 "notes" fresh ≡ (ok 0, s'))
    × (shown s'.printed ≡ [] ++ five)
cat_lem_example =
    cat_lem qp notes desk 1 five (λ s. Unit {0}) notes-Pieces (omega arith) 6 0 0 "notes" fresh
      notes-Reaches (omega arith)

notes-Offers :
    Offers notes qp
      (λ s. Unit {0})
      (start_at qp notes desk (parse_path "notes").1 0 0)
      1
      (parse_path "notes").0
      tt
notes-Offers = record {
  walked = tt;
  looked = tt;
  opened = tt;
  qids = [];
  stat = a_file;
  qid = record { kind = 0; version = 1; path = 7 };
  iounit = 0;
  walks = refl;
  stats = refl;
  no_directory = refl;
  opens = refl;
  fine = tt;
  clunks = λ s fine. (tt, refl);
}

disk-Stores : Stores disk 3 (λ l. l)
disk-Stores = record { takes = λ bytes l. (l ++ bytes, refl, refl) }

-- "notes copy", as words
abbrev words : List (List ℕ)
words = (110 ∷ 111 ∷ 116 ∷ 101 ∷ 115 ∷ []) ∷ (99 ∷ 111 ∷ 112 ∷ 121 ∷ []) ∷ []

words-parsed : parse_command_line (runes "notes copy") ≡ ok words
unfolding parse_command_line parse_from take_character
words-parsed = refl

get_lem_example :
    (s' : Shell (Unit {0}) (List ℕ)) × (get qp notes desk 6 0 0 "notes copy" fresh ≡ (ok 0, s'))
    × (s'.machine ≡ five)
get_lem_example =
    get_lem qp notes desk 3 (λ l. l) disk-Stores 6 0 0 1 "notes copy" "notes" "copy" words five
      (λ s. Unit {0}) fresh [] words-parsed refl refl refl notes-Offers notes-Serves (omega arith)
      (omega arith)
