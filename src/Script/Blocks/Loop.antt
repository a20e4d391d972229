-- ===== src/Script/Blocks/Loop.antt =====
-- cmd.c: cmd_start over the tape of one block.
use fnav.Prelude.{
  ℕ, suc, ◌+◌, ◌≡◌, refl, ap, ◌∙◌, Bool, true, false, Option, none, some, List, [], ◌∷◌, ◌++◌,
  arith, length, if◌then◌else◌, drop,
}
use fnav.Script.{else_, end, root, at, cmd_loop, find_from, cmd_next, end_of}
use fnav.Script.Tape.{entry, loop_next, loop_done, step_true, step_false, step_end, step_else}
use fnav.Script.Blocks.{
  body, block, else_part, runs, loop_body, find_from-body, end_entry, else_entry, no_child,
  drop-body_cons, node_eq_refl,
}

module _ {ℓ} {E : Type ℓ} (run : List ℕ → E → E) (cond : List ℕ → E → Option Bool × E) where
  block-true :
      (k n : ℕ) (c o : List ℕ) (first second : List (List ℕ)) (e e₁ : E)
      → k ≡ suc (length first)
      → n ≡ suc (length first + suc (length second))
      → cond c e ≡ (some true, e₁)
      → cmd_loop run cond (length first + length second + 3) (block k n c o first second) (some 0) e
        ≡ some (false, runs run cond first e₁)
  unfolding find_from
  block-true k n c o [] second e e₁ hk hn h =
      let tape = block k n c o [] second in
      ap (λ f. cmd_loop run cond f tape (some 0) e) {y = suc (length second + 2)} (omega arith)
      ∙ loop_next run cond (length second + 2) 0 tape _ none e e₁ refl (
          step_true run cond tape 0 0 root (some n) c e e₁ h
          ∙ ap (λ t. (t, false, e₁)) (no_child run cond k n c o [] second hk 1))
      ∙ loop_done run cond (length second + 2) tape e₁
  block-true k n c o (l ∷ ls) second e e₁ hk hn h =
      let tape = block k n c o (l ∷ ls) second in
      let e₂ = runs run cond (l ∷ ls) e₁ in
      ap (λ f. cmd_loop run cond f tape (some 0) e)
        {y = suc (suc (length ls) + suc (length second + 1))} (omega arith)
      ∙ loop_next run cond (suc (length ls) + suc (length second + 1)) 0 tape _ (some 1) e e₁ refl
          (step_true run cond tape 0 0 root (some n) c e e₁ h)
      ∙ loop_body run cond (suc (length second + 1)) 1 tape (at 0) l ls (else_part k o second) e₁
          refl (no_child run cond k n c o (l ∷ ls) second hk)
      ∙ loop_next run cond (length second + 1) n tape _ none e₂ e₂
          (end_entry run cond k n c o (l ∷ ls) second hn) (step_end run cond tape n 0 none [] e₂)
      ∙ loop_done run cond (length second + 1) tape e₂

  -- From the else on.
  else_loop :
      (k n : ℕ) (c o : List ℕ) (first second : List (List ℕ)) (fuel : ℕ) (e : E)
      → k ≡ suc (length first)
      → cmd_loop run cond (suc (length second + fuel)) (block k n c o first second) (some k) e
        ≡ some (false, runs run cond second e)
  unfolding find_from
  else_loop k n c o first [] fuel e hk =
      let tape = block k n c o first [] in
      loop_next run cond (0 + fuel) k tape _ none e e (else_entry run cond k n c o first [] hk) (
        step_else run cond tape k 0 root none o e
        ∙ ap (λ t. (t, false, e))
            (find_from-body 1 (at k) (at 0) first (else_part k o []) (ground arith)))
      ∙ loop_done run cond (0 + fuel) tape e
  else_loop k n c o first (l ∷ ls) fuel e hk =
      let tape = block k n c o first (l ∷ ls) in
      let e' = runs run cond (l ∷ ls) e in
      let found : find_from 0 (at k) tape ≡ some (suc k) =
        find_from-body 1 (at k) (at 0) first (else_part k o (l ∷ ls)) (ground arith)
        ∙ rw (node_eq_refl (at k), find_from) (ap some (omega arith)) in
      let behind : drop (suc k) tape ≡ body (at k) (l ∷ ls) ++ (entry end 0 root none [] ∷ []) =
        ap (λ i. drop i (body (at 0) first ++ else_part k o (l ∷ ls))) hk
        ∙ drop-body_cons (at 0) first (entry else_ 0 root none o) _ in
      let stops : end_of tape (at k) ≡ none =
        rw (else_entry run cond k n c o first (l ∷ ls) hk) refl in
      loop_next run cond (suc (length ls) + fuel) k tape _ (some (suc k)) e e
        (else_entry run cond k n c o first (l ∷ ls) hk)
        (step_else run cond tape k 0 root none o e ∙ ap (λ t. (t, false, e)) found)
      ∙ loop_body run cond fuel (suc k) tape (at k) l ls (entry end 0 root none [] ∷ []) e behind
          (λ i. refl)
      ∙ ap (λ it. cmd_loop run cond fuel tape it e') stops
      ∙ loop_done run cond fuel tape e'

  block-false :
      (k n : ℕ) (c o : List ℕ) (first second : List (List ℕ)) (e e₁ : E)
      → k ≡ suc (length first)
      → cond c e ≡ (some false, e₁)
      → cmd_loop run cond (length first + length second + 3) (block k n c o first second) (some 0) e
        ≡ some (false, runs run cond second e₁)
  unfolding cmd_next find_from
  block-false k n c o first second e e₁ hk h =
      let tape = block k n c o first second in
      let next : cmd_next tape 0 root ≡ some k =
        rw (find_from-body 1 root (at 0) first (else_part k o second) refl, cmd_next)
          (ap some (omega arith)) in
      ap (λ f. cmd_loop run cond f tape (some 0) e)
        {y = suc (suc (length second + (length first + 1)))} (omega arith)
      ∙ loop_next run cond (suc (length second + (length first + 1))) 0 tape _ (some k) e e₁ refl
          (step_false run cond tape 0 0 root (some n) c e e₁ h ∙ ap (λ t. (t, false, e₁)) next)
      ∙ else_loop k n c o first second (length first + 1) e₁ hk

  pub block_loop :
      (v : Bool) (k n : ℕ) (c o : List ℕ) (first second : List (List ℕ)) (e e₁ : E)
      → k ≡ suc (length first)
      → n ≡ suc (length first + suc (length second))
      → cond c e ≡ (some v, e₁)
      → cmd_loop run cond (length first + length second + 3) (block k n c o first second) (some 0) e
        ≡ some (false, if v then runs run cond first e₁ else runs run cond second e₁)
  block_loop true k n c o first second e e₁ hk hn h = block-true k n c o first second e e₁ hk hn h
  block_loop false k n c o first second e e₁ hk hn h = block-false k n c o first second e e₁ hk h
