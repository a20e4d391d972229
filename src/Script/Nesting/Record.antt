-- ===== src/Script/Nesting/Record.antt =====
-- cmd.c: the recording of a block in a block, and what it executes.
use fnav.Prelude.{
  ◌>>=◌, ℕ, suc, ◌+◌, ◌≤◌, ◌≡◌, refl, ap, ◌∙◌, Bool, true, false, Option, none, some, List, [], ◌∷◌,
  ◌++◌, append_assoc, arith, length, length-append, pos, if◌then◌else◌,
}
use fnav.Script.{
  if_, end, root, at, begin, close, start_nvs, bufsiz, cmd_evals, cmd_eval, eval_event, cmd_ifblock,
  cmd_endblock, close_block, cmd_start, cmd_loop, find_from, stack_push, end_ahead, modify,
}
use fnav.Script.Tape.{effect, entry}
use fnav.Script.Blocks.{body, texts, runs, length-body}
use fnav.Script.Recording.{recording, evals-append, push_texts}
use fnav.Script.Nesting.{inner, outer, behind, nested, length-outer}
use fnav.Script.Nesting.Loop.{nested_loop}

module _ {ℓ} {E : Type ℓ} (run : List ℕ → E → E) (cond : List ℕ → E → Option Bool × E) where
  push_ifs :
      (l c l' d : List ℕ) (e : E)
      → cmd_evals run cond (begin l c ∷ begin l' d ∷ []) (start_nvs, e)
        ≡ some (recording 1 (inner none c d []) (at 1), e)
  unfolding cmd_evals cmd_eval eval_event cmd_ifblock stack_push end_ahead start_nvs
  push_ifs l c l' d e = refl

  close_inner :
      (c d l : List ℕ) (first : List (List ℕ)) (e : E)
      → length first + 3 ≤ bufsiz
      → cmd_evals run cond (close l ∷ []) (recording 1 (inner none c d first) (at 1), e)
        ≡ some (recording 0 (outer (some (suc (suc (length first)))) c d first []) (at 0), e)
  unfolding cmd_evals cmd_eval eval_event cmd_endblock close_block stack_push end_ahead modify
      start_nvs
  close_inner c d l first e h = ground (arith, length-body (at 1) first)

  -- The last end, at the entry `k`.
  close_outer :
      (c d : List ℕ) (o : Option ℕ) (first rest : List (List ℕ))
      → length first + length rest + 4 ≤ bufsiz
      → close_block (record start_nvs { tape = outer o c d first rest; cur = at 0; lvl = pos 0 })
        ≡ some (record start_nvs {
          tape = nested (length first + length rest + 3) c d first rest;
          cur = root;
          lvl = pos 0;
        })
  unfolding close_block stack_push end_ahead modify start_nvs
  close_outer c d o first rest h = ground (
    arith,
    length-outer o c d first rest,
    append_assoc (body (at 1) first) (entry end 0 (at 0) none [] ∷ body (at 0) rest)
        (entry end 0 root none [] ∷ []),
  )

  close_runs :
      (w : Bool) (c d l : List ℕ) (o : Option ℕ) (first rest : List (List ℕ)) (e e₁ e₂ : E)
      → length first + length rest + 4 ≤ bufsiz
      → cond c e ≡ (some true, e₁)
      → cond d e₁ ≡ (some w, e₂)
      → effect (cmd_evals run cond (close l ∷ []) (recording 0 (outer o c d first rest) (at 0), e))
        ≡ some (if w then runs run cond first e₂ else runs run cond rest e₂)
  unfolding cmd_evals cmd_eval eval_event cmd_endblock start_nvs cmd_start find_from
  close_runs w c d l o first rest e e₁ e₂ h k k' =
      let n = length first + length rest + 3 in
      let tape = nested n c d first rest in
      let size : length tape ≡ suc (suc (length first + suc (suc (length rest)))) = omega (
        arith,
        length-append (body (at 1) first) (behind rest),
        length-append (body (at 0) rest) (entry end 0 root none [] ∷ []),
        length-body (at 1) first,
        length-body (at 0) rest,
      ) in
      let loop : cmd_loop run cond (length tape) tape (some 0) e
          ≡ some (false, if w then runs run cond first e₂ else runs run cond rest e₂) =
        ap (λ f. cmd_loop run cond f tape (some 0) e) size
        ∙ nested_loop run cond w c d first rest e e₁ e₂ k k' in
      rw (close_outer c d o first rest h, effect, ◌>>=◌) (rw (loop, effect, ◌>>=◌) refl)

  -- A script `if c`, `if d`, the lines `first`, `end`, the lines `rest`, `end`, where the first
  -- condition is true and the second is read, and the lines are no control lines, as many as fit the
  -- tape (with the four control lines at most bufsiz, 8192): evaluating it does not fault. Where the
  -- second condition is true it executes the lines `first`, in order, and none of `rest`; where it is
  -- false the lines `rest`, in order, and none of `first`.
  pub nested_if_runs :
      (w : Bool) (l c l' d l₁ l₂ : List ℕ) (first rest : List (List ℕ)) (e e₁ e₂ : E)
      → length first + length rest + 4 ≤ bufsiz
      → cond c e ≡ (some true, e₁)
      → cond d e₁ ≡ (some w, e₂)
      → effect (
          cmd_evals run cond
            (begin l c ∷ begin l' d ∷ (texts first ++ (close l₁ ∷ (texts rest ++ (close l₂ ∷ [])))))
            (start_nvs, e))
        ≡ some (if w then runs run cond first e₂ else runs run cond rest e₂)
  nested_if_runs w l c l' d l₁ l₂ first rest e e₁ e₂ h k k' =
      let o = some (suc (suc (length first))) in
      let outer_lines = texts rest ++ (close l₂ ∷ []) in
      let t₀ = recording 1 (inner none c d []) (at 1) in
      let t₁ = recording 1 (inner none c d first) (at 1) in
      let t₂ = recording 0 (outer o c d first []) (at 0) in
      let t₃ = recording 0 (outer o c d first rest) (at 0) in
      let joined : outer o c d first [] ++ body (at 0) rest ≡ outer o c d first rest =
        ap (λ r. entry if_ 0 root o c ∷ entry if_ 1 (at 0) none d ∷ r)
          (append_assoc (body (at 1) first) (entry end 0 (at 0) none [] ∷ []) (body (at 0) rest)) in
      ap effect (
        evals-append run cond (begin l c ∷ begin l' d ∷ [])
          (texts first ++ (close l₁ ∷ outer_lines)) (start_nvs, e) (t₀, e) (push_ifs l c l' d e)
        ∙ evals-append run cond (texts first) (close l₁ ∷ outer_lines) (t₀, e) (t₁, e)
            (push_texts run cond 1 (inner none c d []) (at 1) first e (omega arith))
        ∙ evals-append run cond (close l₁ ∷ []) outer_lines (t₁, e) (t₂, e)
            (close_inner c d l₁ first e (omega arith))
        ∙ evals-append run cond (texts rest) (close l₂ ∷ []) (t₂, e) (t₃, e)
            (push_texts run cond 0 (outer o c d first []) (at 0) rest e
                (omega (arith, length-outer o c d first []))
              ∙ ap (λ t. some (recording 0 t (at 0), e)) joined))
      ∙ close_runs w c d l₂ o first rest e e₁ e₂ h k k'
