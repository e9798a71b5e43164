-- ===== src/Utils.antt =====
-- Readdir of utils/utils.go: it decodes a directory listing.

pub mod Laws
pub mod Tests
use qptools.Prelude.{
  ℕ, zero, suc, ◌+◌, ◌*◌, ◌<◌, Option, none, some, List, [], ◌∷◌, ltb, if◌then◌else◌, length, take,
  drop,
}
use qptools.Act.{Error, reason, Outcome, ok, err, panicked, blocked, value, failure}
use qptools.Qp.{Stat, StatCodec}

abbrev pub short_input : Error
short_input = reason "short input"

-- binary.LittleEndian.Uint16(b[0:2])
abbrev pub uint16 : (lo hi : ℕ) → ℕ
uint16 lo hi = lo + 256 * hi

-- The stats so far and those that follow, which come with an error perhaps.
abbrev pub prepend :
    List Stat → Outcome (List Stat × Option Error) → Outcome (List Stat × Option Error)
prepend [] o = o
prepend (s ∷ ss) o = elim (prepend ss o) [
  | ok (rest, e) ↦ ok (s ∷ rest, e)
  | err e ↦ err e
  | panicked ↦ panicked
  | blocked ↦ blocked
]

-- A slice of one byte: the two that are read reach into the rest of its array, if there is one, and
-- whatever they count is more than there is.
abbrev pub one_byte : (spare : List ℕ) → Outcome (List Stat × Option Error)
one_byte [] = panicked
one_byte (hi ∷ spare) = ok ([], some short_input)

-- the loop; `spare` is what the array holds behind the slice
unfoldable pub decode :
    (codec : StatCodec) (spare : List ℕ) (fuel : ℕ) (b : List ℕ)
    → Outcome (List Stat × Option Error)
decode codec spare zero b = blocked
decode codec spare (suc fuel) [] = ok ([], none)
decode codec spare (suc fuel) (lo ∷ []) = one_byte spare
decode codec spare (suc fuel) (lo ∷ hi ∷ b) =
    let l = uint16 lo hi in
    let rest = decode codec spare fuel (drop l b) in
    if ltb (length b) l
    then ok ([], some short_input)
    else elim (codec.unmarshal (lo ∷ hi ∷ take l b)) [
      | failure e ↦ ok ([], some e)
      | value s ↦ prepend (s ∷ []) rest
    ]

-- Readdir(b): every round takes two bytes at least
unfoldable pub readdir : (codec : StatCodec) (spare b : List ℕ) → Outcome (List Stat × Option Error)
readdir codec spare b = decode codec spare (suc (length b)) b
