-- ===== src/Script/Blocks/Record.antt =====
-- cmd.c: the recording of one block on an empty tape, and what it executes.
use fnav.Prelude.{
  ◌>>=◌, ℕ, suc, ◌+◌, ◌≤◌, ◌≡◌, refl, ap, ◌∙◌, Bool, false, Option, none, some, List, [], ◌∷◌, ◌++◌,
  append_assoc, arith, if◌then◌else◌, length, length-append, get_elem?, pos,
}
use fnav.Script.{
  Symb, if_, else_, end, root, at, begin, other, close, start_nvs, bufsiz, cmd_evals, cmd_eval,
  eval_event, cmd_ifblock, cmd_elseblock, cmd_endblock, close_block, cmd_start, find_from,
  stack_push, end_ahead, modify, cmd_loop,
}
use fnav.Script.Tape.{effect, entry}
use fnav.Script.Blocks.{body, texts, block, else_part, runs, length-body, get_elem?-body}
use fnav.Script.Recording.{recording, evals-append, push_texts}
use fnav.Script.Blocks.Loop.{block_loop}

module _ {ℓ} {E : Type ℓ} (run : List ℕ → E → E) (cond : List ℕ → E → Option Bool × E) where
  abbrev if_tape : List ℕ → List (List ℕ) → List Symb
  if_tape c first = entry if_ 0 root none c ∷ body (at 0) first

  push_else :
      (c o l : List ℕ) (first : List (List ℕ)) (e : E)
      → length first + 2 ≤ bufsiz
      → cmd_eval run cond (other l o) (recording 0 (if_tape c first) (at 0), e)
        ≡ some (
          recording 0
              (if_tape c first ++ (entry else_ 0 root none o ∷ []))
              (at (suc (length first))),
          e,
        )
  unfolding cmd_eval eval_event cmd_elseblock stack_push end_ahead start_nvs
  push_else c o l first e h = ground (arith, length-body (at 0) first)

  push_else_only :
      (c o l : List ℕ) (first : List (List ℕ)) (e : E)
      → length first + 2 ≤ bufsiz
      → cmd_evals run cond (other l o ∷ []) (recording 0 (if_tape c first) (at 0), e)
        ≡ some (
          recording 0
              (if_tape c first ++ (entry else_ 0 root none o ∷ []))
              (at (suc (length first))),
          e,
        )
  unfolding cmd_evals
  push_else_only c o l first e h = rw (push_else c o l first e h, cmd_evals)

  push_if :
      (c l : List ℕ) (e : E)
      → cmd_evals run cond (begin l c ∷ []) (start_nvs, e)
        ≡ some (recording 0 (entry if_ 0 root none c ∷ []) (at 0), e)
  unfolding cmd_evals cmd_eval eval_event cmd_ifblock stack_push end_ahead start_nvs
  push_if c l e = refl

  -- The tape when the `end` is met.
  abbrev open_tape : List ℕ → List ℕ → List (List ℕ) → List (List ℕ) → List Symb
  open_tape c o first second =
      (if_tape c first ++ (entry else_ 0 root none o ∷ [])) ++ body (at (suc (length first))) second

  length-open_tape :
      (c o : List ℕ) (first second : List (List ℕ))
      → length (open_tape c o first second) ≡ suc (length first + suc (length second))
  length-open_tape c o first second = omega (
    arith,
    length-append (if_tape c first ++ (entry else_ 0 root none o ∷ []))
        (body (at (suc (length first))) second),
    length-append (body (at 0) first) (entry else_ 0 root none o ∷ []),
    length-body (at 0) first,
    length-body (at (suc (length first))) second,
  )

  open_tape-else :
      (c o : List ℕ) (first second : List (List ℕ))
      → open_tape c o first second
        ≡ entry if_ 0 root none c
          ∷ (body (at 0) first
              ++ (entry else_ 0 root none o ∷ body (at (suc (length first))) second))
  open_tape-else c o first second =
      ap (λ r. entry if_ 0 root none c ∷ r)
        (append_assoc (body (at 0) first) (entry else_ 0 root none o ∷ [])
          (body (at (suc (length first))) second))

  -- The `end` of a block whose last branch is the entry `k` under the root.
  close_at :
      (k n : ℕ) (c o : List ℕ) (r : List Symb)
      → get_elem? (entry if_ 0 root none c ∷ r) k ≡ some (entry else_ 0 root none o)
      → n ≡ suc (length r)
      → n + 1 ≤ bufsiz
      → close_block
          (record start_nvs { tape = entry if_ 0 root none c ∷ r; cur = at k; lvl = pos 0 })
        ≡ some (record start_nvs {
          tape = entry if_ 0 root (some n) c ∷ (r ++ (entry end 0 root none [] ∷ []));
          cur = root;
          lvl = pos 0;
        })
  unfolding close_block stack_push end_ahead modify start_nvs
  close_at k n c o r h e b = ground arith

  close_open :
      (c o : List ℕ) (first second : List (List ℕ))
      → length first + length second + 3 ≤ bufsiz
      → let k = suc (length first) in
        let n = suc (length first + suc (length second)) in
        close_block
          (record start_nvs { tape = open_tape c o first second; cur = at k; lvl = pos 0 })
        ≡ some (record start_nvs { tape = block k n c o first second; cur = root; lvl = pos 0 })
  close_open c o first second h =
      let k = suc (length first) in
      let n = suc (length first + suc (length second)) in
      let r = body (at 0) first ++ (entry else_ 0 root none o ∷ body (at k) second) in
      let there : get_elem? (body (at 0) first ++ (entry else_ 0 root none o ∷ body (at k) second))
            (length first)
          ≡ some (entry else_ 0 root none o) =
        ap (get_elem? r) {y = length first + 0} (omega arith)
        ∙ get_elem?-body (at 0) first 0 (entry else_ 0 root none o ∷ body (at k) second) in
      rw (open_tape-else c o first second) (
        close_at k n c o r there
          (omega (
            arith,
            length-append (body (at 0) first) (entry else_ 0 root none o ∷ body (at k) second),
            length-body (at 0) first,
            length-body (at k) second,
          ))
          (omega arith)
        ∙ rw append_assoc)

  start_block :
      (v : Bool) (c o : List ℕ) (first second : List (List ℕ)) (e e₁ : E)
      → cond c e ≡ (some v, e₁)
      → let k = suc (length first) in
        let n = suc (length first + suc (length second)) in
        cmd_start run cond (block k n c o first second) e
        ≡ some (false, if v then runs run cond first e₁ else runs run cond second e₁)
  unfolding cmd_start find_from
  start_block v c o first second e e₁ h =
      let k = suc (length first) in
      let n = suc (length first + suc (length second)) in
      let tape = block k n c o first second in
      let size : length tape ≡ length first + length second + 3 = omega (
        arith,
        length-append (body (at 0) first) (else_part k o second),
        length-append (body (at k) second) (entry end 0 root none [] ∷ []),
        length-body (at 0) first,
        length-body (at k) second,
      ) in
      ap (λ f. cmd_loop run cond f tape (some 0) e) size
      ∙ block_loop run cond v k n c o first second e e₁ refl refl h

  close_runs :
      (v : Bool) (c o l : List ℕ) (first second : List (List ℕ)) (e e₁ : E)
      → length first + length second + 3 ≤ bufsiz
      → cond c e ≡ (some v, e₁)
      → effect (
          cmd_evals run cond
            (close l ∷ [])
            (recording 0 (open_tape c o first second) (at (suc (length first))), e))
        ≡ some (if v then runs run cond first e₁ else runs run cond second e₁)
  unfolding cmd_evals cmd_eval eval_event cmd_endblock start_nvs
  close_runs v c o l first second e e₁ h k =
      rw (close_open c o first second h, effect, ◌>>=◌)
        (rw (start_block v c o first second e e₁ k, effect, ◌>>=◌))

  -- A script of one block with an else branch, with lines in the two branches that are no control
  -- lines, as many as fit the tape (with the three control lines at most bufsiz, 8192): evaluating it
  -- does not fault, and what it does is to read the condition and then to execute the lines of the
  -- chosen branch, in order, and no others.
  pub if_else_runs :
      (v : Bool) (l c l' o l'' : List ℕ) (first second : List (List ℕ)) (e e₁ : E)
      → length first + length second + 3 ≤ bufsiz
      → cond c e ≡ (some v, e₁)
      → effect (
          cmd_evals run cond
            (begin l c ∷ (texts first ++ (other l' o ∷ (texts second ++ (close l'' ∷ [])))))
            (start_nvs, e))
        ≡ some (if v then runs run cond first e₁ else runs run cond second e₁)
  if_else_runs v l c l' o l'' first second e e₁ h k =
      let rest = texts second ++ (close l'' ∷ []) in
      let t₀ = recording 0 (entry if_ 0 root none c ∷ []) (at 0) in
      let t₁ = recording 0 (if_tape c first) (at 0) in
      let t₂ =
        recording 0 (if_tape c first ++ (entry else_ 0 root none o ∷ []))
          (at (suc (length first))) in
      let t₃ = recording 0 (open_tape c o first second) (at (suc (length first))) in
      ap effect (
        evals-append run cond (begin l c ∷ []) (texts first ++ (other l' o ∷ rest)) (start_nvs, e)
          (t₀, e) (push_if c l e)
        ∙ evals-append run cond (texts first) (other l' o ∷ rest) (t₀, e) (t₁, e)
            (push_texts run cond 0 (entry if_ 0 root none c ∷ []) (at 0) first e (omega arith))
        ∙ evals-append run cond (other l' o ∷ []) rest (t₁, e) (t₂, e)
            (push_else_only c o l' first e (omega arith))
        ∙ evals-append run cond (texts second) (close l'' ∷ []) (t₂, e) (t₃, e)
            (push_texts run cond 0 (if_tape c first ++ (entry else_ 0 root none o ∷ []))
              (at (suc (length first))) second e
              (omega (
                arith,
                length-append (if_tape c first) (entry else_ 0 root none o ∷ []),
                length-body (at 0) first,
              ))))
      ∙ close_runs v c o l'' first second e e₁ h k
