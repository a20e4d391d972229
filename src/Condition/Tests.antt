-- ===== src/Condition/Tests.antt =====
-- cmd.c: concrete conditions.
use fnav.Prelude.{ℕ, ◌+◌, ◌≡◌, refl, false, none, some, List, [], ◌∷◌, pos}
use fnav.Text.{byte_at}
use fnav.Syntax.{Token}
use fnav.Condition.{
  str_num, scan_unsigned, scan_digits, value, op_arg, strpbrk_op, cond_args, type_mismatch,
}
use fnav.Condition.Operators.{equal_mismatch}

abbrev token_at : ℕ → ℕ → Token
token_at start c = record {
  quoted = false;
  symb = 0;
  start = start;
  end = start + 1;
  v_string = c ∷ [];
}

-- 7 < 9, 7 == 7 and 7 != 7, with their tokens.
abbrev less_line : List ℕ
less_line = 55 ∷ 32 ∷ 60 ∷ 32 ∷ 57 ∷ []

abbrev equal_line : List ℕ
equal_line = 55 ∷ 32 ∷ 61 ∷ 61 ∷ 32 ∷ 55 ∷ []

abbrev unequal_line : List ℕ
unequal_line = 55 ∷ 32 ∷ 33 ∷ 61 ∷ 32 ∷ 55 ∷ []

seven : str_num (55 ∷ []) ≡ value (pos 7)
unfolding str_num scan_unsigned scan_digits
seven = refl

nine : str_num (57 ∷ []) ≡ value (pos 9)
unfolding str_num scan_unsigned scan_digits
nine = refl

first_no_op : (line : List ℕ) → op_arg 0 line (token_at 0 55) ≡ none
unfolding op_arg
first_no_op line = refl

less_op : op_arg 0 less_line (token_at 2 60) ≡ some (60 ∷ [])
unfolding op_arg strpbrk_op byte_at
less_op = refl

equal_op : op_arg 0 equal_line (token_at 2 61) ≡ some (61 ∷ [])
unfolding op_arg strpbrk_op byte_at
equal_op = refl

not_op : op_arg 0 unequal_line (token_at 2 33) ≡ some (33 ∷ [])
unfolding op_arg strpbrk_op byte_at
not_op = refl

last_no_op : op_arg 0 unequal_line (token_at 5 55) ≡ none
unfolding op_arg strpbrk_op byte_at
last_no_op = refl

equal_mismatch_example :
    cond_args 0 equal_line (token_at 0 55 ∷ token_at 2 61 ∷ token_at 3 61 ∷ token_at 5 55 ∷ [])
    ≡ some type_mismatch
equal_mismatch_example =
    equal_mismatch 0 equal_line (token_at 0 55) (token_at 2 61) (pos 7) (first_no_op equal_line)
      seven (token_at 3 61) (token_at 5 55 ∷ []) equal_op refl

abbrev word_a : List ℕ
word_a = 97 ∷ []

abbrev word_b : List ℕ
word_b = 98 ∷ []
