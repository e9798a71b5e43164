-- ===== src/Cmd/Parse.antt =====
-- cmd/9pc/parse.go: a command line is cut into words. A line is the list of its code points.
pub mod Laws
mod Tests
use qptools.Prelude.{
  ℕ, Bool, true, false, not, ◌&&◌, ◌||◌, Option, none, some, List, [], ◌∷◌, ◌++◌, ◌==◌, ltb,
  if◌then◌else◌,
}
use qptools.Act.{Error, reason, Outcome, ok, err, panicked, blocked}

abbrev pub syntax_error : Error
syntax_error = reason "syntax error"

-- conv
abbrev pub conv : ℕ → ℕ
conv c =
    if c == b'n'
    then 10
    else if c == b'r'
    then 13
    else if c == b't'
    then 9
    else if c == b'b'
    then 8
    else if c == b'f'
    then 12
    else if c == b'v'
    then 11
    else if c == b'0'
    then 0
    else c

-- the local variables
pub record Words : Type 0 where
  pub words : List (List ℕ)
  pub buf : List ℕ
  pub in_escape : Bool
  pub in_single_quote : Bool
  pub in_double_quote : Bool

-- i == len(str)-1: nothing follows, and the character is one byte long
abbrev pub is_end : (c : ℕ) (rest : List ℕ) → Bool
is_end c [] = ltb c 128
is_end c (d ∷ rest) = false

-- buf += string(c), and what is done at the end of the line
abbrev pub end_of_line : (at_end : Bool) → Words → Outcome Words
end_of_line false s = ok s
end_of_line true s =
    if s.in_escape || s.in_double_quote || s.in_single_quote
    then err syntax_error
    else ok (record s { words = s.words ++ s.buf ∷ []; buf = [] })

unfoldable pub take_character : (c : ℕ) (at_end : Bool) → Words → Outcome Words
take_character c at_end s =
    if c == b'"' && not s.in_single_quote && not s.in_escape
    then ok (record s { in_double_quote = not s.in_double_quote })
    else if c == b'\'' && not s.in_double_quote && not s.in_escape
    then ok (record s { in_single_quote = not s.in_single_quote })
    else if c == b'\\'
    then ok (record s { in_escape = true })
    else if c == b' ' && not s.in_single_quote && not s.in_double_quote
    then ok (record s { words = s.words ++ s.buf ∷ []; buf = [] })
    else end_of_line at_end
        (record s { buf = s.buf ++ (if s.in_escape then conv c else c) ∷ []; in_escape = false })

-- the loop
unfoldable pub parse_from : Words → List ℕ → Outcome (List (List ℕ))
parse_from s [] = ok s.words
parse_from s (c ∷ rest) = elim (take_character c (is_end c rest) s) [
  | ok s' ↦ parse_from s' rest
  | err e ↦ err e
  | panicked ↦ panicked
  | blocked ↦ blocked
]

abbrev pub start : Words
start = record {
  words = [];
  buf = [];
  in_escape = false;
  in_single_quote = false;
  in_double_quote = false;
}

-- parseCommandLine(str)
unfoldable pub parse_command_line : List ℕ → Outcome (List (List ℕ))
parse_command_line line = parse_from start line
