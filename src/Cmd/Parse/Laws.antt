-- ===== src/Cmd/Parse/Laws.antt =====
-- Words that are written with single spaces between them.
use qptools.Prelude.{
  ℕ, ◌<◌, ◌≡◌, ◌≢◌, refl, ap, ◌∙◌, Bool, true, false, List, [], ◌∷◌, ◌++◌, append_assoc, arith, ltb,
  if◌then◌else◌,
}
use qptools.Act.{ok}
use qptools.Cmd.Parse.{Words, start, is_end, take_character, parse_from, parse_command_line}

-- An ASCII character that is no quote, no backslash and no space.
pub record IsPlain (c : ℕ) : Type 0 where
  pub one_byte : c < 128
  pub no_double : c ≢ b'"'
  pub no_single : c ≢ b'\''
  pub no_backslash : c ≢ b'\\'
  pub no_space : c ≢ b' '

-- A word of such characters, one at least.
pub data IsWord : List ℕ → Type 0 where
  ends : {c : ℕ} → IsPlain c → IsWord (c ∷ [])
  goes_on : {c : ℕ} {w : List ℕ} → IsPlain c → IsWord w → IsWord (c ∷ w)

pub data AreWords : List (List ℕ) → Type 0 where
  last_word : {w : List ℕ} → IsWord w → AreWords (w ∷ [])
  word : {w : List ℕ} {ws : List (List ℕ)} → IsWord w → AreWords ws → AreWords (w ∷ ws)

-- The words with a space after each but the last.
abbrev pub line_of : List (List ℕ) → List ℕ
line_of [] = []
line_of (w ∷ []) = w
line_of (w ∷ v ∷ ws) = w ++ b' ' ∷ line_of (v ∷ ws)

-- Outside of quotes, with these words before and the beginning of the next one.
abbrev reading : List (List ℕ) → List ℕ → Words
reading ws b = record start { words = ws; buf = b }

plain_lem :
    (c : ℕ) (at_end : Bool) (ws : List (List ℕ)) (b : List ℕ)
    → IsPlain c
    → take_character c at_end (reading ws b) ≡ (
        if at_end
        then ok (reading (ws ++ (b ++ c ∷ []) ∷ []) [])
        else ok (reading ws (b ++ c ∷ [])))
unfolding take_character
plain_lem c true ws b p = ground (arith, p.no_double, p.no_single, p.no_backslash, p.no_space)
plain_lem c false ws b p = ground (arith, p.no_double, p.no_single, p.no_backslash, p.no_space)

parse_step :
    (c : ℕ) (rest : List ℕ) (s s' : Words)
    → take_character c (is_end c rest) s ≡ ok s'
    → parse_from s (c ∷ rest) ≡ parse_from s' rest
unfolding parse_from
parse_step c rest s s' e = rw (parse_from, e) refl

-- A word that something follows, and one at the end of the line.
word-parse_from :
    (w : List ℕ) (d : ℕ) (rest : List ℕ) (ws : List (List ℕ)) (b : List ℕ)
    → IsWord w
    → parse_from (reading ws b) (w ++ d ∷ rest) ≡ parse_from (reading ws (b ++ w)) (d ∷ rest)
unfolding parse_from
word-parse_from [] d rest ws b p = elim p [ ]
word-parse_from (c ∷ []) d rest ws b (ends p) =
    parse_step c (d ∷ rest) _ _ (plain_lem c false ws b p)
word-parse_from (c ∷ []) d rest ws b (goes_on p q) = elim q [ ]
word-parse_from (c ∷ e ∷ w) d rest ws b (goes_on p q) =
    parse_step c ((e ∷ w) ++ d ∷ rest) _ _ (plain_lem c false ws b p)
    ∙ (word-parse_from (e ∷ w) d rest ws (b ++ c ∷ []) q
        ∙ ap (λ x. parse_from (reading ws x) (d ∷ rest)) (append_assoc b (c ∷ []) (e ∷ w)))

last-parse_from :
    (w : List ℕ) (ws : List (List ℕ)) (b : List ℕ)
    → IsWord w
    → parse_from (reading ws b) w ≡ ok (ws ++ (b ++ w) ∷ [])
unfolding parse_from
last-parse_from [] ws b p = elim p [ ]
last-parse_from (c ∷ []) ws b (ends p) =
    let short : (ltb c 128 ≡ true) = ground (arith, p.one_byte) in
    parse_step c [] (reading ws b) (reading (ws ++ (b ++ c ∷ []) ∷ []) [])
      (rw short (plain_lem c true ws b p))
last-parse_from (c ∷ []) ws b (goes_on p q) = elim q [ ]
last-parse_from (c ∷ e ∷ w) ws b (goes_on p q) =
    parse_step c (e ∷ w) _ _ (plain_lem c false ws b p)
    ∙ (last-parse_from (e ∷ w) ws (b ++ c ∷ []) q
        ∙ ap (λ x. ok (ws ++ x ∷ [])) (append_assoc b (c ∷ []) (e ∷ w)))

after_space :
    (ws : List (List ℕ)) (w line : List ℕ)
    → parse_from (reading ws w) (b' ' ∷ line) ≡ parse_from (reading (ws ++ w ∷ []) []) line
unfolding parse_from take_character
after_space ws w line = refl

line-parse_from :
    (all ws : List (List ℕ))
    → AreWords all
    → parse_from (reading ws []) (line_of all) ≡ ok (ws ++ all)
line-parse_from [] ws p = elim p [ ]
line-parse_from (w ∷ []) ws (last_word p) = last-parse_from w ws [] p
line-parse_from (w ∷ []) ws (word p q) = elim q [ ]
line-parse_from (w ∷ v ∷ all) ws (word p q) =
    word-parse_from w b' ' (line_of (v ∷ all)) ws [] p
    ∙ after_space ws w (line_of (v ∷ all))
    ∙ line-parse_from (v ∷ all) (ws ++ w ∷ []) q
    ∙ ap ok (append_assoc ws (w ∷ []) (v ∷ all))

-- Words written with single spaces between them are read back, if each has a character at least, all
-- of them ASCII, and none a quote, a backslash or a space.
pub parse_command_line-line_of :
    (all : List (List ℕ)) → AreWords all → parse_command_line (line_of all) ≡ ok all
unfolding parse_command_line
parse_command_line-line_of all p = line-parse_from all [] p
