-- ===== src/Text/Tests.antt =====
-- util.c: the text functions on concrete strings.
use fnav.Prelude.{ℕ, ◌≡◌, ◌↔◌, refl, true, some, List, [], ◌∷◌, arith}
use fnav.Text.{
  escape_shell, escs_hits, escape_byte, lines2argv, strncat_shell, quoted_bytes, argv_rest,
}
use fnav.Text.Shell.{sh_words, sh_words-lines2argv}
use fnav.Text.Search.{fuzzy_match}
use fnav.Text.Search.Fuzzy.{Fuzzy, fuzzy_match-Fuzzy}
use fnav.Text.Wide.{IsChar, two}

-- "it's" and an empty argument.
abbrev argv : List (List ℕ)
argv = (105 ∷ 116 ∷ 39 ∷ 115 ∷ []) ∷ [] ∷ []

abbrev spaced : List ℕ
spaced = 97 ∷ 32 ∷ 98 ∷ []

argv_line : lines2argv argv ≡ 39 ∷ 105 ∷ 116 ∷ 39 ∷ 92 ∷ 39 ∷ 39 ∷ 115 ∷ 39 ∷ 32 ∷ 39 ∷ 39 ∷ []
unfolding lines2argv strncat_shell quoted_bytes argv_rest
argv_line = refl

spaced_line : escape_shell spaced ≡ 97 ∷ 92 ∷ 32 ∷ 98 ∷ []
unfolding escape_shell escs_hits escape_byte
spaced_line = refl

sh_words-lines2argv_example : sh_words (lines2argv argv) ≡ some argv
sh_words-lines2argv_example = sh_words-lines2argv argv

-- A blank in front and one behind.
abbrev padded : List ℕ
padded = 32 ∷ 97 ∷ 32 ∷ []

-- The pattern "AA" in "ba": one `a` serves for both.
fuzzy_match-Fuzzy_example :
    (fuzzy_match true (98 ∷ 97 ∷ []) (65 ∷ 65 ∷ []) ≡ true) ↔ Fuzzy (98 ∷ 97 ∷ []) (65 ∷ 65 ∷ [])
fuzzy_match-Fuzzy_example = fuzzy_match-Fuzzy (98 ∷ 97 ∷ []) (65 ∷ 65 ∷ [])

-- A comment line and another one.
abbrev two_lines : List ℕ
two_lines = 35 ∷ 97 ∷ 10 ∷ 98 ∷ 10 ∷ []

abbrev e_acute : List ℕ
e_acute = 195 ∷ 169 ∷ []

abbrev cut_char : List ℕ
cut_char = 224 ∷ []

e_acute-IsChar : IsChar e_acute
e_acute-IsChar = two (omega arith) (omega arith)
