-- ===== src/Input/Keys.antt =====
-- event/input.c: counts typed in front of a command, and how an operator ends.
use native.Mathlib.Nat.{pow-succ'}
use fnav.Prelude.{
  ◌>>=◌, ℕ, suc, ◌+◌, ◌-◌, ◌*◌, ◌^◌, ◌<◌, ◌≡◌, ◌∙◌, ◌⊎◌, ap, refl, Bool, true, false, ◌||◌, Option,
  some, List, [], ◌∷◌, ◌==◌, length, All, ℤ, pos, eqb_ℤ, arith, Bool-cases, inl, inr,
}
use fnav.Input.{
  NvKeytbl, Keyarg, nch, nch_s, nch_a, clearop, op_pending, is_digit_key, do_op, find_do_op, do_key,
  find_do_key,
}

-- The number that decimal digits stand for.
abbrev pub decimal : List ℕ → ℕ
decimal [] = 0
decimal (d ∷ ds) = d * 10 ^ length ds + decimal ds

module _ {ℓ} {S : Type ℓ} (op_func : ℕ → Keyarg → S → Keyarg × S)
    (cmd_func : ℕ → Keyarg → S → Keyarg × S) (reg_clear_dcur : S → S) where
  -- The digits are typed one after the other.
  pub type_digits : NvKeytbl → Keyarg → List ℕ → S → Option (Keyarg × S)
  type_digits kt ca [] s = some (ca, s)
  type_digits kt ca (d ∷ ds) s = do
    r ← find_do_key op_func cmd_func reg_clear_dcur kt (record ca { key = pos (48 + d) }) s
    type_digits kt r.1.0 ds r.1.1

  digit_key :
      (kt : NvKeytbl) (ca : Keyarg) (d : ℕ) (s : S)
      → op_pending ca ≡ false
      → d < 10
      → find_do_key op_func cmd_func reg_clear_dcur kt (record ca { key = pos (48 + d) }) s
        ≡ some (true, (record ca { key = pos (48 + d); opcount = ca.opcount * 10 + d }, s))
  unfolding find_do_key do_key op_pending is_digit_key
  digit_key kt ca d s p l =
      let a : is_digit_key (pos (48 + d)) ≡ true = ground arith in
      let b : 48 + d - 48 ≡ d = omega arith in rw (p, a, b) refl

  count_kept : (n : ℕ) → n ≡ n * 10 ^ 0 + 0
  count_kept n = omega arith

  horner : (n d l v : ℕ) → (n * 10 + d) * 10 ^ l + v ≡ n * 10 ^ suc l + (d * 10 ^ l + v)
  horner n d l v = rw (pow-succ' 10 l) (grind arith)

  -- Where no operator is pending, decimal digits that are typed set the count to their number, behind
  -- the digits of the count so far.
  type_digits-decimal :
      (kt : NvKeytbl) (ca : Keyarg) (ds : List ℕ) (s : S)
      → op_pending ca ≡ false
      → All (λ d. d < 10) ds
      → (key : ℤ) × (type_digits kt ca ds s
          ≡ some (record ca { key = key; opcount = ca.opcount * 10 ^ length ds + decimal ds }, s))
  unfolding type_digits op_pending
  type_digits-decimal kt ca [] s p a =
      (ca.key, ap (λ (n : ℕ). some (record ca { opcount = n }, s)) (count_kept ca.opcount))
  type_digits-decimal kt ca (d ∷ ds) s p a =
      let ca' : Keyarg = record ca { key = pos (48 + d); opcount = ca.opcount * 10 + d } in
      let (key, e) = type_digits-decimal kt ca' ds s p a.1 in
      let h = horner ca.opcount d (length ds) (decimal ds) in
      (
        key,
        rw (digit_key kt ca d s p a.0)
            (e ∙ ap (λ (n : ℕ). some (record ca { key = key; opcount = n }, s)) h),
      )

  -- The operator has ended, or its function has rejected the key.
  pub Ended : Keyarg → S → Bool × (Keyarg × S) → Type ℓ
  Ended ca s r =
      (op_pending r.1.0 ≡ false)
      ⊎ ((r ≡ (false, op_func ca.oap.key ca s))
          × ((op_func ca.oap.key ca s).0.oap.is_unused ≡ true))

  op_ends :
      (ca : Keyarg) (s : S)
      → op_pending ca ≡ true
      → (r : Bool × (Keyarg × S)) × (do_op op_func cmd_func reg_clear_dcur ca s ≡ some r)
        × Ended ca s r
  unfolding do_op clearop op_pending Ended
  op_ends ca s p =
      let q : (ca.oap.key == 0) ≡ false = ground arith in
      elim (Bool-cases (op_func ca.oap.key ca s).0.oap.is_unused) [
        | inl e ↦ ((false, op_func ca.oap.key ca s), rw (q, e) refl, inr (refl, e))
        | inr e ↦ (
          (true, (clearop (op_func ca.oap.key ca s).0, (op_func ca.oap.key ca s).1)),
          rw (q, e) refl,
          inl refl,
        )
      ]

  cleared_ends : (ca : Keyarg) (s : S) → Ended ca s (false, (clearop ca, s))
  unfolding clearop op_pending Ended
  cleared_ends ca s = inl refl

  -- Where an operator is pending, find_do_op returns, and ends the operator, unless its function has
  -- rejected the key.
  pub find_do_op-ends :
      (ca : Keyarg) (s : S)
      → op_pending ca ≡ true
      → (r : Bool × (Keyarg × S)) × (find_do_op op_func cmd_func reg_clear_dcur ca s ≡ some r)
        × Ended ca s r
  unfolding find_do_op
  find_do_op-ends ca s p =
      let done = op_ends ca s p in
      let stops : (r : Bool × (Keyarg × S)) × (◌≡◌ {A = Option (Bool × (Keyarg × S))}
            (some (false, (clearop ca, s))) (some r))
          × Ended ca s r =
        ((false, (clearop ca, s)), refl, cleared_ends ca s) in
      elim (Bool-cases (ca.type == nch_a || eqb_ℤ ca.key ca.nkey)) [
        | inl a ↦ rw (find_do_op, a) done
        | inr a ↦ elim (Bool-cases (ca.type == nch_s)) [
          | inl b ↦ elim (Bool-cases (eqb_ℤ ca.nkey (pos 0))) [
            | inl c ↦ rw (find_do_op, a, b, c) done
            | inr c ↦ rw (find_do_op, a, b, c) stops
          ]
          | inr b ↦ elim (Bool-cases (ca.type == nch)) [
            | inl c ↦ elim (Bool-cases (eqb_ℤ ca.nkey (pos 0))) [
              | inl d ↦ rw (find_do_op, a, b, c, d) stops
              | inr d ↦ rw (find_do_op, a, b, c, d) done
            ]
            | inr c ↦ rw (find_do_op, a, b, c) stops
          ]
        ]
      ]
