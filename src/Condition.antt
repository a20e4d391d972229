-- ===== src/Condition.antt =====
-- cmd.c: the value of a condition, over the arguments of its line. An argument is a token of
-- cmdline.c with a string; `none` of an argument is NULL, `none` of a loop a read of a variable that
-- sscanf has not set.
pub mod Compare
pub mod Operators
mod Tests
use fnav.Prelude.{
  ℕ, zero, suc, ◌+◌, ◌-◌, ◌*◌, Bool, true, false, ◌&&◌, ◌||◌, not, Option, none, some, List, [],
  ◌∷◌, ltb, leb, ◌==◌, if◌then◌else◌, length, get_elem?, ℤ, pos, negsuc, ◌-ℤ◌, ltb_ℤ,
}
use fnav.Text.{byte_at}
use fnav.Syntax.{Token}

-- What sscanf(str, "%d", &n) answers: 1 with a value, 0, or EOF where no byte is left.
pub data Scan : Type 0 where
  value : ℤ → Scan
  mismatch eof : Scan

-- isspace, in the C locale.
abbrev pub is_space : ℕ → Bool
is_space c = c == 32 || (leb 9 c && leb c 13)

abbrev pub is_digit : ℕ → Bool
is_digit c = leb 48 c && leb c 57

-- The digits in front, behind the value so far.
pub scan_digits : ℕ → List ℕ → ℕ
scan_digits n [] = n
scan_digits n (c ∷ s) = elim (is_digit c) [ true ↦ scan_digits (n * 10 + (c - 48)) s | false ↦ n ]

pub scan_unsigned : (ℕ → ℤ) → List ℕ → Scan
unfolding scan_digits
scan_unsigned sign [] = mismatch
scan_unsigned sign (c ∷ s) = elim (is_digit c) [
  | true ↦ value (sign (scan_digits (c - 48) s))
  | false ↦ mismatch
]

-- str_num of a string that is not NULL, for numbers that fit an int.
pub str_num : List ℕ → Scan
unfolding scan_unsigned
str_num [] = eof
str_num (c ∷ s) = elim (is_space c) [
  | true ↦ str_num s
  | false ↦
      if c == 45
      then scan_unsigned (λ n. pos 0 -ℤ pos n) s
      else if c == 43
      then scan_unsigned pos s
      else scan_unsigned pos (c ∷ s)
]

-- str_num, which answers 0 for NULL.
abbrev pub str_num? : Option (List ℕ) → Scan
str_num? none = mismatch
str_num? (some s) = str_num s

-- The number that str_num returns is not 0.
abbrev pub scanned : Scan → Bool
scanned (value n) = true
scanned mismatch = false
scanned eof = true

abbrev pub same_scan : Scan → Scan → Bool
same_scan (value _) (value _) = true
same_scan mismatch mismatch = true
same_scan eof eof = true
same_scan _ _ = false

abbrev pub eq_ℤ : ℤ → ℤ → Bool
eq_ℤ a b = not (ltb_ℤ a b || ltb_ℤ b a)

abbrev pub int : Bool → ℤ
int b = if b then pos 1 else pos 0

-- cmd_int_comp: the value left in `*ret`, which is `ret` before.
pub cmd_int_comp : ℤ → ℤ → ℕ → ℕ → ℤ → ℤ
cmd_int_comp lhs rhs ch nch ret =
    if ch == b'!' && nch == b'='
    then int (not (eq_ℤ lhs rhs))
    else if ch == b'=' && nch == b'='
    then int (eq_ℤ lhs rhs)
    else if ch == b'>' && nch == b'='
    then int (not (ltb_ℤ lhs rhs))
    else if ch == b'<' && nch == b'='
    then int (not (ltb_ℤ rhs lhs))
    else if ch == b'<'
    then int (ltb_ℤ lhs rhs)
    else if ch == b'>'
    then int (ltb_ℤ rhs lhs)
    else ret

-- strcmp, by the sign of the first difference.
pub strcmp : List ℕ → List ℕ → ℤ
strcmp [] [] = pos 0
strcmp [] (d ∷ t) = negsuc 0
strcmp (c ∷ s) [] = pos 1
strcmp (c ∷ s) (d ∷ t) = elim (c == d) [
  | true ↦ strcmp s t
  | false ↦ if ltb c d then negsuc 0 else pos 1
]

-- cmd_str_comp
pub cmd_str_comp : List ℕ → List ℕ → ℕ → ℕ → ℤ → ℤ
cmd_str_comp lhs rhs ch nch ret =
    let diff = strcmp lhs rhs in
    if ch == b'!' && nch == b'='
    then int (not (eq_ℤ diff (pos 0)))
    else if ch == b'=' && nch == b'='
    then int (eq_ℤ diff (pos 0))
    else if ch == b'>' && nch == b'='
    then int (not (ltb_ℤ diff (pos 0)))
    else if ch == b'<' && nch == b'='
    then int (not (ltb_ℤ (pos 0) diff))
    else if ch == b'<'
    then int (ltb_ℤ diff (pos 0))
    else if ch == b'>'
    then int (ltb_ℤ (pos 0) diff)
    else ret

abbrev pub is_op : ℕ → Bool
is_op c = c == b'!' || c == b'=' || c == b'<' || c == b'>'

-- strpbrk(str, "!=<>"): the rest from the first operator on.
pub strpbrk_op : List ℕ → Option (List ℕ)
strpbrk_op [] = none
strpbrk_op (c ∷ s) = elim (is_op c) [ true ↦ some (c ∷ s) | false ↦ strpbrk_op s ]

-- op_arg of a token; the test on `st` is `tok->start - 1 < st`.
pub op_arg : ℕ → List ℕ → Token → Option (List ℕ)
op_arg st line tok =
    if ltb tok.start (st + 1) || byte_at line (tok.start - 1) == 34
    then none
    else strpbrk_op tok.v_string

-- list_arg of a list of strings.
abbrev pub string_of : Option Token → Option (List ℕ)
string_of none = none
string_of (some t) = some t.v_string

-- The end of the evaluation: `cond`, and whether it went to `error`.
pub data Outcome : Type 0 where
  cond_is : ℤ → Outcome
  syntax_error type_mismatch : Outcome

-- The comparison of the two sides of an operator.
pub compare_sides : ℤ → List ℕ → List ℕ → ℕ → ℕ → Scan → Scan → Option Outcome
compare_sides cond lhs rhs ch nch (value l) (value r) =
    some (cond_is (cmd_int_comp l r ch nch cond))
compare_sides cond lhs rhs ch nch mismatch mismatch =
    some (cond_is (cmd_str_comp lhs rhs ch nch cond))
compare_sides cond lhs rhs ch nch eof eof = none
compare_sides cond lhs rhs ch nch (value l) mismatch = some type_mismatch
compare_sides cond lhs rhs ch nch (value l) eof = some type_mismatch
compare_sides cond lhs rhs ch nch mismatch (value r) = some type_mismatch
compare_sides cond lhs rhs ch nch mismatch eof = some type_mismatch
compare_sides cond lhs rhs ch nch eof (value r) = some type_mismatch
compare_sides cond lhs rhs ch nch eof mismatch = some type_mismatch

pub compare_args : ℤ → Option (List ℕ) → Option (List ℕ) → ℕ → ℕ → Option Outcome
unfolding compare_sides
compare_args cond none rhs ch nch = some syntax_error
compare_args cond (some l) none ch nch = some syntax_error
compare_args cond (some l) (some r) ch nch = compare_sides cond l r ch nch (str_num l) (str_num r)

-- The value of an argument that is no operator.
pub operand : Scan → Option ℤ
operand (value n) = some n
operand mismatch = some (pos 1)
operand eof = none

-- The value behind a `!`.
pub negated : Scan → Option ℤ
negated (value n) = some (int (eq_ℤ n (pos 0)))
negated mismatch = some (pos 0)
negated eof = none

-- ch == '!' && !nch
abbrev pub is_not : List ℕ → Bool
is_not op = byte_at op 0 == b'!' && byte_at op 1 == 0

-- The loop of cond_do: `prev` is the argument in front of the rest, if there is one.
pub cond_loop : ℕ → List ℕ → ℤ → Option Token → List Token → Option Outcome
cond_loop st line cond prev [] = some (cond_is cond)
cond_loop st line cond prev (t ∷ []) = elim (op_arg st line t) [
  | none ↦ elim (operand (str_num t.v_string)) [ none ↦ none | some n ↦ some (cond_is n) ]
  | some op ↦
      if is_not op
      then some syntax_error
      else compare_args cond (string_of prev) none (byte_at op 0) (byte_at op 1)
]
cond_loop st line cond prev (t ∷ r ∷ rest) = elim (op_arg st line t) [
  | none ↦ elim (operand (str_num t.v_string)) [
    | none ↦ none
    | some n ↦ cond_loop st line n (some t) (r ∷ rest)
  ]
  | some op ↦ elim (is_not op) [
    | true ↦ elim (negated (str_num r.v_string)) [
      | none ↦ none
      | some n ↦ cond_loop st line n (some r) rest
    ]
    | false ↦ compare_args cond (string_of prev) (some r.v_string) (byte_at op 0) (byte_at op 1)
  ]
]

pub cond_args : ℕ → List ℕ → List Token → Option Outcome
cond_args st line args = cond_loop st line (pos 0) none args
