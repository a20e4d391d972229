-- ===== src/Script/Nesting/Loop.antt =====
-- cmd.c: cmd_start over the tape of a block in a block.
use fnav.Prelude.{
  ℕ, suc, ◌+◌, ◌≡◌, refl, ap, ◌∙◌, Bool, true, false, Option, none, some, List, [], ◌∷◌, ◌++◌,
  arith, length, if◌then◌else◌, drop, get_elem?,
}
use fnav.Script.{Symb, if_, end, root, at, cmd_loop, find_from, cmd_next, end_of}
use fnav.Script.Tape.{entry, loop_next, loop_done, step_true, step_false, step_end, step_inner_end}
use fnav.Script.Blocks.{
  body, runs, loop_body, find_from-body, get_elem?-body, get_elem?-drop, drop-body_cons,
}
use fnav.Script.Nesting.{behind, nested, drop-behind, none_inner}

module _ {ℓ} {E : Type ℓ} (run : List ℕ → E → E) (cond : List ℕ → E → Option Bool × E) where
  -- The loop over the tape: the inner block is taken.
  taken_loop :
      (k fuel : ℕ) (c d : List ℕ) (first rest : List (List ℕ)) (e e₁ e₂ : E)
      → cond c e ≡ (some true, e₁)
      → cond d e₁ ≡ (some true, e₂)
      → cmd_loop run cond (suc (suc (length first + fuel))) (nested k c d first rest) (some 0) e
        ≡ some (false, runs run cond first e₂)
  unfolding find_from
  taken_loop k fuel c d [] rest e e₁ e₂ h h' =
      let tape = nested k c d [] rest in
      ap (λ f. cmd_loop run cond f tape (some 0) e) {y = suc (suc fuel)} (omega arith)
      ∙ loop_next run cond (suc fuel) 0 tape _ (some 1) e e₁ refl
          (step_true run cond tape 0 0 root (some k) c e e₁ h)
      ∙ loop_next run cond fuel 1 tape _ none e₁ e₂ refl (
          step_true run cond tape 1 1 (at 0) none d e₁ e₂ h'
          ∙ ap (λ t. (t, false, e₂)) (none_inner rest 2))
      ∙ loop_done run cond fuel tape e₂
  taken_loop k fuel c d (l ∷ ls) rest e e₁ e₂ h h' =
      let tape = nested k c d (l ∷ ls) rest in
      ap (λ f. cmd_loop run cond f tape (some 0) e) {y = suc (suc (suc (length ls) + fuel))}
        (omega arith)
      ∙ loop_next run cond (suc (suc (length ls) + fuel)) 0 tape _ (some 1) e e₁ refl
          (step_true run cond tape 0 0 root (some k) c e e₁ h)
      ∙ loop_next run cond (suc (length ls) + fuel) 1 tape _ (some 2) e₁ e₂ refl
          (step_true run cond tape 1 1 (at 0) none d e₁ e₂ h')
      ∙ loop_body run cond fuel 2 tape (at 1) l ls (behind rest) e₂ refl (none_inner rest)
      ∙ loop_done run cond fuel tape (runs run cond (l ∷ ls) e₂)

  -- From the entry behind the inner end on.
  rest_loop :
      (k fuel i : ℕ) (tape : List Symb) (c : List ℕ) (rest : List (List ℕ)) (e : E)
      → drop i tape ≡ body (at 0) rest ++ (entry end 0 root none [] ∷ [])
      → k ≡ i + length rest
      → get_elem? tape 0 ≡ some (entry if_ 0 root (some k) c)
      → cmd_loop run cond (suc (length rest + fuel)) tape (some i) e
        ≡ some (false, runs run cond rest e)
  unfolding find_from
  rest_loop k fuel i tape c [] e h hk first =
      let (g, r) = get_elem?-drop i tape (entry end 0 root none []) [] h in
      loop_next run cond (0 + fuel) i tape _ none e e g (step_end run cond tape i 0 none [] e)
      ∙ loop_done run cond (0 + fuel) tape e
  rest_loop k fuel i tape c (l ∷ ls) e h hk first =
      let e' = runs run cond (l ∷ ls) e in
      let last = entry end 0 root none [] ∷ [] in
      let ends : end_of tape (at 0) ≡ some k = rw first refl in
      let (g, r) =
        get_elem?-drop k tape (entry end 0 root none []) []
          (drop-behind (at 0) (l ∷ ls) i k tape last h hk) in
      ap (λ f. cmd_loop run cond f tape (some i) e) {y = suc (length ls) + suc fuel} (omega arith)
      ∙ loop_body run cond (suc fuel) i tape (at 0) l ls last e h (λ j. refl)
      ∙ ap (λ it. cmd_loop run cond (suc fuel) tape it e') ends
      ∙ loop_next run cond fuel k tape _ none e' e' g (step_end run cond tape k 0 none [] e')
      ∙ loop_done run cond fuel tape e'

  -- The inner block is not taken.
  passed_loop :
      (c d : List ℕ) (first rest : List (List ℕ)) (e e₁ e₂ : E)
      → cond c e ≡ (some true, e₁)
      → cond d e₁ ≡ (some false, e₂)
      → let k = length first + length rest + 3 in
        cmd_loop run cond
          (suc (suc (length first + suc (suc (length rest)))))
          (nested k c d first rest)
          (some 0)
          e
        ≡ some (false, runs run cond rest e₂)
  unfolding cmd_next find_from
  passed_loop c d first rest e e₁ e₂ h h' =
      let k = length first + length rest + 3 in
      let i = suc (suc (length first)) in
      let tape = nested k c d first rest in
      let next : cmd_next tape 1 (at 0) ≡ some i =
        rw (find_from-body 2 (at 0) (at 1) first (behind rest) refl, cmd_next)
          (ap some (omega arith)) in
      let inner_end : get_elem? tape i ≡ some (entry end 0 (at 0) none []) =
        ap (get_elem? tape) {x = i} {y = suc (suc (length first + 0))} (omega arith)
        ∙ get_elem?-body (at 1) first 0 (behind rest) in
      ap (λ f. cmd_loop run cond f tape (some 0) e)
        {y = suc (suc (suc (suc (length rest + length first))))} (omega arith)
      ∙ loop_next run cond (suc (suc (suc (length rest + length first)))) 0 tape _ (some 1) e e₁
          refl (step_true run cond tape 0 0 root (some k) c e e₁ h)
      ∙ loop_next run cond (suc (suc (length rest + length first))) 1 tape _ (some i) e₁ e₂ refl
          (step_false run cond tape 1 1 (at 0) none d e₁ e₂ h' ∙ ap (λ t. (t, false, e₂)) next)
      ∙ loop_next run cond (suc (length rest + length first)) i tape _ (some (suc i)) e₂ e₂
          inner_end (step_inner_end run cond tape i 0 0 none [] e₂)
      ∙ rest_loop k (length first) (suc i) tape c rest e₂
          (drop-body_cons (at 1) first (entry end 0 (at 0) none []) _) (omega arith) refl

  pub nested_loop :
      (w : Bool) (c d : List ℕ) (first rest : List (List ℕ)) (e e₁ e₂ : E)
      → cond c e ≡ (some true, e₁)
      → cond d e₁ ≡ (some w, e₂)
      → let k = length first + length rest + 3 in
        cmd_loop run cond
          (suc (suc (length first + suc (suc (length rest)))))
          (nested k c d first rest)
          (some 0)
          e
        ≡ some (false, if w then runs run cond first e₂ else runs run cond rest e₂)
  nested_loop true c d first rest e e₁ e₂ h h' =
      taken_loop (length first + length rest + 3) (suc (suc (length rest))) c d first rest e e₁ e₂ h
        h'
  nested_loop false c d first rest e e₁ e₂ h h' = passed_loop c d first rest e e₁ e₂ h h'
