-- ===== src/Script/Hang.antt =====
-- cmd.c: a script on which the loop of cmd_start does not end.
use fnav.Prelude.{
  ℕ, zero, suc, ◌≡◌, refl, ◌∙◌, Bool, true, false, Option, none, some, List, [], ◌∷◌, pos,
  get_elem?,
}
use fnav.Script.{
  Symb, if_, elseif, nop, end, root, at, Event, begin, orif, close, text, Nvs, start_nvs, cmd_evals,
  cmd_eval, eval_event, eval_text, cmd_ifblock, cmd_elseblock, cmd_endblock, close_block, cmd_loop,
  cmd_step, find_from, stack_push, end_ahead, modify, cmd_next, first_child,
}
use fnav.Script.Tape.{entry, loop_next, step_true, step_false, step_elseif_false, step_inner_end}

module _ {ℓ} {E : Type ℓ} (run : List ℕ → E → E) (cond : List ℕ → E → Option Bool × E) where
  -- The loop goes on for `n` rounds from the entry `i`: each round is at an entry of the tape, has no
  -- error, and is followed by another entry.
  pub Rounds : ℕ → List Symb → ℕ → E → Type ℓ
  Rounds zero tape i e = Unit
  Rounds (suc n) tape i e =
      (x : Symb) × (j : ℕ) × (e' : E) × (get_elem? tape i ≡ some x)
      × (cmd_step run cond tape i x e ≡ (some j, false, e'))
      × Rounds n tape j e'

  -- Rounds that go on use up the fuel.
  Rounds-cmd_loop :
      (n : ℕ) (tape : List Symb) (i : ℕ) (e : E)
      → Rounds n tape i e
      → cmd_loop run cond n tape (some i) e ≡ none
  unfolding cmd_loop Rounds
  Rounds-cmd_loop zero tape i e r = refl
  Rounds-cmd_loop (suc n) tape i e (x, j, e', h, k, r) =
      loop_next run cond n i tape x (some j) e e' h k ∙ Rounds-cmd_loop n tape j e' r

module _ (a b b' c d x y l m : List ℕ) where
  -- if a / if b / x / elseif b' / y / end / if c / if d / l / end / m / end, before the last end.
  abbrev pub hang_script : List Event
  hang_script =
      begin a a
      ∷ begin b b
      ∷ text x
      ∷ orif b' b'
      ∷ text y
      ∷ close []
      ∷ begin c c
      ∷ begin d d
      ∷ text l
      ∷ close []
      ∷ text m
      ∷ close []
      ∷ []

  -- Its tape, but for the first entry and the last end.
  abbrev inner_tape : List Symb → List Symb
  inner_tape last =
      entry if_ 1 (at 0) (some 11) b
      ∷ entry nop 0 (at 1) none x
      ∷ entry elseif 0 (at 0) none b'
      ∷ entry nop 0 (at 3) none y
      ∷ entry end 0 (at 0) none []
      ∷ entry if_ 6 (at 0) (some 9) c
      ∷ entry if_ 7 (at 6) none d
      ∷ entry nop 0 (at 7) none l
      ∷ entry end 0 (at 6) none []
      ∷ entry nop 0 (at 6) none m
      ∷ entry end 0 (at 0) none []
      ∷ last

  -- The state in front of the last end.
  abbrev hang_open : Nvs
  hang_open = record start_nvs {
    tape = entry if_ 1 root none a ∷ inner_tape [];
    cur = at 0;
    lvl = pos 1;
  }

  -- The tape behind it.
  abbrev hang_tape : List Symb
  hang_tape = entry if_ 1 root (some 12) a ∷ inner_tape (entry end 0 root none [] ∷ [])

  module _ {ℓ} {E : Type ℓ} (run : List ℕ → E → E) (cond : List ℕ → E → Option Bool × E) where
    abbrev Endless : ℕ → E → Type ℓ
    Endless i e = (n : ℕ) → Rounds run cond n hang_tape i e

    Endless-before :
        (i j : ℕ) (s : Symb) (e e' : E)
        → get_elem? hang_tape i ≡ some s
        → cmd_step run cond hang_tape i s e ≡ (some j, false, e')
        → Endless j e'
        → Endless i e
    unfolding Rounds
    Endless-before i j s e e' h k later zero = tt
    Endless-before i j s e e' h k later (suc n) = (s, j, e', h, k, later n)

    -- From the line `m` the loop comes back to it by the end in front of it.
    goes_round : (e : E) → Endless 10 e
    unfolding Rounds cmd_step find_from cmd_next
    goes_round e zero = tt
    goes_round e (suc zero) = (entry nop 0 (at 6) none m, 9, run m e, refl, refl, tt)
    goes_round e (suc (suc n)) = (
      entry nop 0 (at 6) none m,
      9,
      run m e,
      refl,
      refl,
      (entry end 0 (at 6) none [], 10, run m e, refl, refl, goes_round (run m e) n),
    )

    -- A block in a block, behind one with an elseif: where the conditions are true, false, false,
    -- true and false in the order in which they are read, the script is recorded without a fault,
    -- its last end closes the tape, and the loop of `cmd_start` goes on for any number of rounds: each
    -- round is at an entry of the tape, without an error, and comes to another entry.
    pub script_hangs :
        (e e₁ e₂ e₃ e₄ e₅ : E)
        → cond a e ≡ (some true, e₁)
        → cond b e₁ ≡ (some false, e₂)
        → cond b' e₂ ≡ (some false, e₃)
        → cond c e₃ ≡ (some true, e₄)
        → cond d e₄ ≡ (some false, e₅)
        → (s : Nvs) × (u : Nvs) × (cmd_evals run cond hang_script (start_nvs, e) ≡ some (s, e))
          × (close_block (record s { lvl = pos 0 }) ≡ some u)
          × (first_child u.tape root ≡ some 0)
          × ((n : ℕ)
              → Rounds run cond n u.tape 0 e × (cmd_loop run cond n u.tape (some 0) e ≡ none))
    unfolding cmd_evals cmd_eval eval_event eval_text cmd_ifblock cmd_elseblock cmd_endblock
        close_block find_from stack_push end_ahead modify cmd_next start_nvs
    script_hangs e e₁ e₂ e₃ e₄ e₅ h₁ h₂ h₃ h₄ h₅ =
        let t = hang_tape in
        let endless : Endless 0 e =
          Endless-before 0 1 _ e e₁ refl (step_true run cond t 0 1 root (some 12) a e e₁ h₁) (
            Endless-before 1 3 _ e₁ e₂ refl (step_false run cond t 1 1 (at 0) (some 11) b e₁ e₂ h₂)
              (Endless-before 3 5 _ e₂ e₃ refl
                (step_elseif_false run cond t 3 0 (at 0) none b' e₂ e₃ h₃)
                (Endless-before 5 6 _ e₃ e₃ refl (step_inner_end run cond t 5 0 0 none [] e₃) (
                  Endless-before 6 7 _ e₃ e₄ refl
                    (step_true run cond t 6 6 (at 0) (some 9) c e₃ e₄ h₄)
                    (Endless-before 7 9 _ e₄ e₅ refl
                      (step_false run cond t 7 7 (at 6) none d e₄ e₅ h₅)
                      (Endless-before 9 10 _ e₅ e₅ refl (step_inner_end run cond t 9 6 0 none [] e₅)
                        (goes_round e₅))))))) in
        (
          hang_open,
          record start_nvs { tape = t; root_st = 0 },
          refl,
          refl,
          refl,
          λ n. let r = endless n in (r, Rounds-cmd_loop run cond n t 0 e r),
        )
