-- ===== src/Cmd/Parse/Tests.antt =====
-- The line "ls usr", and lines that lose their last word.
use qptools.Prelude.{ℕ, ◌≡◌, ◌<◌, refl, List, [], ◌∷◌, arith}
use qptools.Act.{ok}
use qptools.Cmd.Parse.{take_character, parse_from, parse_command_line}
use qptools.Cmd.Parse.Laws.{
  IsPlain, ends, goes_on, AreWords, last_word, word, parse_command_line-line_of,
}

letter : (c : ℕ) → 96 < c → c < 128 → IsPlain c
letter c h k = record {
  one_byte = k;
  no_double = λ e. absurd (omega (arith, e, h));
  no_single = λ e. absurd (omega (arith, e, h));
  no_backslash = λ e. absurd (omega (arith, e, h));
  no_space = λ e. absurd (omega (arith, e, h));
}

abbrev ls_usr : List (List ℕ)
ls_usr = (108 ∷ 115 ∷ []) ∷ (117 ∷ 115 ∷ 114 ∷ []) ∷ []

ls_usr-AreWords : AreWords ls_usr
ls_usr-AreWords =
    word
      (goes_on (letter 108 (omega arith) (omega arith))
        (ends (letter 115 (omega arith) (omega arith))))
      (last_word (
        goes_on (letter 117 (omega arith) (omega arith)) (
          goes_on (letter 115 (omega arith) (omega arith))
            (ends (letter 114 (omega arith) (omega arith))))))

parse_command_line-line_of_example :
    parse_command_line (108 ∷ 115 ∷ 32 ∷ 117 ∷ 115 ∷ 114 ∷ []) ≡ ok ls_usr
parse_command_line-line_of_example = parse_command_line-line_of ls_usr ls_usr-AreWords

-- `cat "a"` loses its quoted word, since the line ends with the quote.
quoted_is_lost :
    parse_command_line (99 ∷ 97 ∷ 116 ∷ 32 ∷ 34 ∷ 97 ∷ 34 ∷ []) ≡ ok ((99 ∷ 97 ∷ 116 ∷ []) ∷ [])
unfolding parse_command_line parse_from take_character
quoted_is_lost = refl

-- `cat é` loses its last word, since é takes two bytes.
accent_is_lost : parse_command_line (99 ∷ 97 ∷ 116 ∷ 32 ∷ 233 ∷ []) ≡ ok ((99 ∷ 97 ∷ 116 ∷ []) ∷ [])
unfolding parse_command_line parse_from take_character
accent_is_lost = refl
