-- ===== src/Text.antt =====
-- util.c: the text functions. A C string is the list of its bytes before the NUL, so a byte of a
-- string is not 0. Functions that `malloc` a result are split in the size that they compute and
-- the bytes that they write; the NUL that they write is not in the list.
pub mod Shell
pub mod Search
pub mod Wide
mod Tests
use fnav.Prelude.{
  ℕ, zero, suc, ◌+◌, ◌-◌, Bool, true, false, ◌||◌, not, Option, none, some, List, [], ◌∷◌, ◌++◌,
  ltb, leb, ◌==◌, if◌then◌else◌, length,
}

-- const char escs[] = "() []": LENGTH counts the NUL of the array too.
abbrev pub escs : List ℕ
escs = b'(' ∷ b')' ∷ b' ' ∷ b'[' ∷ b']' ∷ 0 ∷ []

-- The rounds of the inner loop that find `c`, as the test `escs[i] == c` counts them.
pub escs_hits : ℕ → List ℕ → ℕ
escs_hits c [] = 0
escs_hits c (e ∷ es) = (if e == c then 1 else 0) + escs_hits c es

-- One backslash for each hit, then the byte.
pub escape_byte : ℕ → ℕ → List ℕ
escape_byte zero c = c ∷ []
escape_byte (suc n) c = 92 ∷ escape_byte n c

-- escape_shell, first loop: `len`.
pub escape_len : List ℕ → ℕ
escape_len [] = 0
escape_len (c ∷ s) = escs_hits c escs + 1 + escape_len s

-- escape_shell, second loop: the bytes at `dest`.
pub escape_shell : List ℕ → List ℕ
escape_shell [] = []
escape_shell (c ∷ s) = escape_byte (escs_hits c escs) c ++ escape_shell s

-- strip_shell: drops each `"` and each backslash. The early return for the empty string is its
-- first clause.
pub strip_shell : List ℕ → List ℕ
strip_shell [] = []
strip_shell (c ∷ s) = if c == 34 || c == 92 then strip_shell s else c ∷ strip_shell s

-- strncat_shell, the loop: a quote falls through to `default` after the three bytes.
pub quoted_bytes : List ℕ → List ℕ
quoted_bytes [] = []
quoted_bytes (c ∷ s) = if c == 39 then 39 ∷ 92 ∷ 39 ∷ c ∷ quoted_bytes s else c ∷ quoted_bytes s

-- strncat_shell: what is written from `dest` to the pointer that it returns.
pub strncat_shell : List ℕ → List ℕ
unfolding quoted_bytes
strncat_shell src = 39 ∷ (quoted_bytes src ++ (39 ∷ []))

-- lines2argv, the count for one argument.
pub arg_len : List ℕ → ℕ
arg_len [] = 0
arg_len (c ∷ s) = 1 + (if c == 39 then 3 else 0) + arg_len s

-- lines2argv, first loop: `len`; the buffer has `len + 1` bytes.
pub argv_len : List (List ℕ) → ℕ
argv_len [] = 0
argv_len (a ∷ argv) = 3 + arg_len a + argv_len argv

-- lines2argv, second loop from an index `i > 0`: a space before each argument.
pub argv_rest : List (List ℕ) → List ℕ
unfolding strncat_shell
argv_rest [] = []
argv_rest (a ∷ argv) = 32 ∷ (strncat_shell a ++ argv_rest argv)

-- lines2argv: no space before the first argument.
pub lines2argv : List (List ℕ) → List ℕ
unfolding strncat_shell argv_rest
lines2argv [] = []
lines2argv (a ∷ argv) = strncat_shell a ++ argv_rest argv

-- lines2yank, first loop.
pub yank_len : List (List ℕ) → ℕ
yank_len [] = 0
yank_len (a ∷ argv) = length a + 1 + yank_len argv

-- lines2yank, second loop from an index `i > 0`.
pub yank_rest : List (List ℕ) → List ℕ
yank_rest [] = []
yank_rest (a ∷ argv) = 10 ∷ (a ++ yank_rest argv)

pub lines2yank : List (List ℕ) → List ℕ
unfolding yank_rest
lines2yank [] = []
lines2yank (a ∷ argv) = a ++ yank_rest argv

-- strip_whitespace, first loop.
pub skip_blanks : List ℕ → List ℕ
skip_blanks [] = []
skip_blanks (c ∷ s) = if c == 32 || c == 9 then skip_blanks s else c ∷ s

-- `str[i]` of a string: its NUL at the end.
unfoldable pub byte_at : List ℕ → ℕ → ℕ
byte_at [] i = 0
byte_at (c ∷ s) zero = c
byte_at (c ∷ s) (suc i) = byte_at s i

-- `str[i] = '\0'`: the string is the bytes before.
pub cut_at : List ℕ → ℕ → List ℕ
cut_at [] i = []
cut_at (c ∷ s) zero = []
cut_at (c ∷ s) (suc i) = c ∷ cut_at s i

-- strip_whitespace, second loop: `while (i >= 0 && (str[i] == ' ' || ...)) i--`, from an index in
-- the string; `none` is -1.
pub back_blanks : List ℕ → ℕ → Option ℕ
unfolding byte_at
back_blanks s zero = if byte_at s 0 == 32 || byte_at s 0 == 9 then none else some 0
back_blanks s (suc i) = elim (byte_at s (suc i) == 32 || byte_at s (suc i) == 9) [
  | true ↦ back_blanks s i
  | false ↦ some (suc i)
]

-- strip_whitespace: `i` starts at the index of the NUL. A write at -1 is `none`.
pub strip_whitespace : List ℕ → Option (List ℕ)
strip_whitespace [] = some []
strip_whitespace (c ∷ s) =
    let str = skip_blanks (c ∷ s) in
    elim (back_blanks str (length str)) [ none ↦ none | some i ↦ some (cut_at str i) ]

abbrev is_quote : ℕ → Bool
is_quote c = c == 34 || c == 39

-- strip_quotes, the cut of the last byte.
pub drop_last_quote : List ℕ → List ℕ
drop_last_quote [] = []
drop_last_quote (c ∷ []) = if is_quote c then [] else c ∷ []
drop_last_quote (c ∷ d ∷ s) = c ∷ drop_last_quote (d ∷ s)

pub strip_quotes : List ℕ → List ℕ
unfolding drop_last_quote
strip_quotes [] = []
strip_quotes (c ∷ s) = drop_last_quote (if is_quote c then s else c ∷ s)

-- add_quotes: `len` is the size given to malloc and snprintf.
pub add_quotes_len : List ℕ → ℕ
add_quotes_len s = length s + 3

pub add_quotes : List ℕ → List ℕ
add_quotes s = 34 ∷ (s ++ (34 ∷ []))

-- conspath_buf
pub conspath_buf : List ℕ → List ℕ → List ℕ
conspath_buf base name = (base ++ (47 ∷ [])) ++ name
