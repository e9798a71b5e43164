-- ===== src/Utils/Tests.antt =====
-- A codec of small stats, and Readdir of two of them.
use qptools.Prelude.{ℕ, ◌≡◌, refl, some, List, [], ◌∷◌, ◌++◌, arith}
use qptools.Act.{reason, ok, Result, value, failure}
use qptools.Qp.{Stat, StatCodec, Encodes}
use qptools.Utils.{readdir, short_input}
use qptools.Utils.Laws.{AllEncode, finished, another, listing, cut, readdir_lem}

abbrev pub numbered : ℕ → Stat
numbered n = record {
  kind = n;
  dev = 0;
  qid = record { kind = 0; version = 0; path = 0 };
  mode = 420;
  atime = 0;
  mtime = 0;
  length = 0;
  name = "notes";
  uid = "glenda";
  gid = "glenda";
  muid = "glenda";
}

abbrev decoded : List ℕ → Result Stat
decoded (lo ∷ hi ∷ n ∷ []) = value (numbered n)
decoded _ = failure (reason "not a stat")

-- Two bytes of count, and the number.
abbrev pub codec : StatCodec
codec = record { size = λ s. 3; marshal = λ s. value (1 ∷ 0 ∷ s.kind ∷ []); unmarshal = decoded }

pub numbered-Encodes : (n : ℕ) → Encodes codec (numbered n)
numbered-Encodes n = record {
  lo = 1;
  hi = 0;
  body = n ∷ [];
  marshalled = refl;
  counted = refl;
  sized = refl;
  decoded = refl;
}

abbrev pub two_stats : List Stat
two_stats = numbered 7 ∷ numbered 8 ∷ []

pub two_stats-AllEncode : AllEncode codec two_stats
two_stats-AllEncode = another (numbered-Encodes 7) (another (numbered-Encodes 8) finished)

-- The second stat has lost its last byte.
readdir_lem_example :
    readdir codec [] (listing codec two_stats ++ 1 ∷ 0 ∷ []) ≡ ok (two_stats, some short_input)
readdir_lem_example =
    readdir_lem codec [] two_stats (1 ∷ 0 ∷ []) _ two_stats-AllEncode (cut 1 0 [] (omega arith))
