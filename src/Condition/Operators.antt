-- ===== src/Condition/Operators.antt =====
-- cmd.c: conditions of two numbers and an operator. The tokenizer makes a token of each of the bytes
-- `=`, `!`, `<` and `>`, so an operator of two bytes is two arguments.
use fnav.Prelude.{ℕ, ◌≡◌, ◌∙◌, refl, false, Option, none, some, List, [], ◌∷◌, arith, ℤ, pos}
use fnav.Text.{byte_at}
use fnav.Syntax.{Token}
use fnav.Condition.{
  str_num, value, mismatch, op_arg, cond_loop, cond_args, type_mismatch, compare_args,
  compare_sides, operand, scan_unsigned, is_not, string_of,
}

module _ (st : ℕ) (line : List ℕ) (cond : ℤ) (prev : Option Token) (t r : Token)
    (rest : List Token) where
  step_operand :
      (n : ℤ)
      → op_arg st line t ≡ none
      → str_num t.v_string ≡ value n
      → cond_loop st line cond prev (t ∷ r ∷ rest) ≡ cond_loop st line n (some t) (r ∷ rest)
  unfolding cond_loop operand
  step_operand n h k = ground arith

  step_compare :
      (op : List ℕ)
      → op_arg st line t ≡ some op
      → is_not op ≡ false
      → cond_loop st line cond prev (t ∷ r ∷ rest)
        ≡ compare_args cond (string_of prev) (some r.v_string) (byte_at op 0) (byte_at op 1)
  unfolding cond_loop
  step_compare op h k = ground arith

equal_sign : str_num (61 ∷ []) ≡ mismatch
unfolding str_num scan_unsigned
equal_sign = refl

module _ (st : ℕ) (line : List ℕ) (lhs op : Token) (l : ℤ) (no_op : op_arg st line lhs ≡ none)
    (left : str_num lhs.v_string ≡ value l) where
  -- A condition of a number and two arguments `=` is an error of its types, whatever is behind them.
  pub equal_mismatch :
      (eq : Token) (rest : List Token)
      → op_arg st line op ≡ some (61 ∷ [])
      → eq.v_string ≡ 61 ∷ []
      → cond_args st line (lhs ∷ op ∷ eq ∷ rest) ≡ some type_mismatch
  unfolding cond_args compare_args compare_sides byte_at
  equal_mismatch eq rest o e =
      step_operand st line (pos 0) none lhs op (eq ∷ rest) l no_op left
      ∙ step_compare st line l (some lhs) op eq rest (61 ∷ []) o refl
      ∙ ground (arith, left, e, equal_sign)
