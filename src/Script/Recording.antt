-- ===== src/Script/Recording.antt =====
-- cmd.c: the lines of a script that are recorded, one after the other.
use fnav.Prelude.{
  ℕ, suc, ◌+◌, ◌≤◌, ◌≡◌, refl, ◌∙◌, Bool, Option, none, some, List, [], ◌∷◌, ◌++◌, append_assoc,
  append-nil, arith, length, length-append, pos,
}
use fnav.Script.{
  Symb, Node, nop, Event, text, Nvs, start_nvs, bufsiz, cmd_evals, cmd_eval, eval_event, eval_text,
  stack_push, end_ahead,
}
use fnav.Script.Tape.{entry}
use fnav.Script.Blocks.{body, texts}

-- The state while the lines of a block are recorded under the entry `up`, in `n` other blocks.
abbrev pub recording : ℕ → List Symb → Node → Nvs
recording n tape up = record start_nvs { tape = tape; cur = up; lvl = pos (suc n) }

module _ {ℓ} {E : Type ℓ} (run : List ℕ → E → E) (cond : List ℕ → E → Option Bool × E) where
  pub evals-append :
      (xs ys : List Event) (s t : Nvs × E)
      → cmd_evals run cond xs s ≡ some t
      → cmd_evals run cond (xs ++ ys) s ≡ cmd_evals run cond ys t
  unfolding cmd_evals
  evals-append [] ys s t h = ground arith
  evals-append (x ∷ xs) ys s t h = go (cmd_eval run cond x s) refl (λ u. evals-append xs ys u t)
    where
      go :
          (o : Option (Nvs × E))
          → cmd_eval run cond x s ≡ o
          → ((u : Nvs × E)
              → cmd_evals run cond xs u ≡ some t
              → cmd_evals run cond (xs ++ ys) u ≡ cmd_evals run cond ys t)
          → cmd_evals run cond (x ∷ (xs ++ ys)) s ≡ cmd_evals run cond ys t
      go none e ih = absurd (ground arith)
      go (some u) e ih = rw (e, cmd_evals) (ih u (ground arith))

  push_text :
      (n : ℕ) (tape : List Symb) (up : Node) (l : List ℕ) (e : E)
      → length tape + 1 ≤ bufsiz
      → cmd_eval run cond (text l) (recording n tape up, e)
        ≡ some (recording n (tape ++ (entry nop 0 up none l ∷ [])) up, e)
  unfolding cmd_eval eval_event eval_text stack_push end_ahead start_nvs
  push_text n tape up l e h = ground arith

  pub push_texts :
      (n : ℕ) (tape : List Symb) (up : Node) (ls : List (List ℕ)) (e : E)
      → length tape + length ls ≤ bufsiz
      → cmd_evals run cond (texts ls) (recording n tape up, e)
        ≡ some (recording n (tape ++ body up ls) up, e)
  unfolding cmd_evals
  push_texts n tape up [] e h = rw append-nil
  push_texts n tape up (l ∷ ls) e h =
      let x = entry nop 0 up none l in
      rw (push_text n tape up l e (omega arith), cmd_evals)
        (push_texts n (tape ++ (x ∷ [])) up ls e (omega (arith, length-append tape (x ∷ [])))
          ∙ rw append_assoc)
