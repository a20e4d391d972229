-- ===== src/Script/Blocks.antt =====
-- cmd.c: the tape of one block with two branches of any length, and the loop over a branch.
pub mod Loop
pub mod Record
use fnav.Prelude.{
  ◌>>=◌, ℕ, zero, suc, ◌+◌, ◌≤◌, ◌<◌, ◌≡◌, refl, sym, ap, ◌∙◌, Bool, true, false, ◌&&◌, not, Option,
  none, some, List, [], ◌∷◌, ◌++◌, append_assoc, append-nil, arith, if◌then◌else◌, length,
  length-append, get_elem?, drop, map, pos, ltb, ltb_ℤ,
}
use fnav.Script.{
  Symb, Node, if_, nop, else_, end, root, at, Event, begin, other, close, text, Nvs, start_nvs,
  bufsiz, cmd_evals, cmd_eval, eval_event, eval_text, cmd_ifblock, cmd_elseblock, cmd_endblock,
  close_block, cmd_start, cmd_loop, cmd_step, find_from, stack_push, end_ahead, modify, cmd_next,
  node_eq, end_of, is_seek, first_child,
}
use fnav.Script.Tape.{
  effect, entry, loop_next, loop_done, step_true, step_false, step_nop, step_end, step_else,
}

-- The entries of the lines of a branch, under the entry that opens it.
abbrev pub body : Node → List (List ℕ) → List Symb
body up [] = []
body up (l ∷ ls) = entry nop 0 up none l ∷ body up ls

abbrev pub texts : List (List ℕ) → List Event
texts [] = []
texts (l ∷ ls) = text l ∷ texts ls

pub length-body : (up : Node) (ls : List (List ℕ)) → length (body up ls) ≡ length ls
length-body up [] = refl
length-body up (l ∷ ls) = ap suc (length-body up ls)

pub node_eq_refl : (n : Node) → node_eq n n ≡ true
node_eq_refl root = refl
node_eq_refl (at i) = ground arith

-- A search passes over a branch of another entry.
pub find_from-body :
    (i : ℕ) (n up : Node) (ls : List (List ℕ)) (rest : List Symb)
    → node_eq up n ≡ false
    → find_from i n (body up ls ++ rest) ≡ find_from (i + length ls) n rest
unfolding find_from
find_from-body i n up [] rest h = ap (λ k. find_from k n rest) (omega arith)
find_from-body i n up (l ∷ ls) rest h =
    rw (h, find_from)
      (find_from-body (suc i) n up ls rest h ∙ ap (λ k. find_from k n rest) (omega arith))

pub get_elem?-drop :
    (i : ℕ) (tape : List Symb) (x : Symb) (r : List Symb)
    → drop i tape ≡ x ∷ r
    → (get_elem? tape i ≡ some x) × (drop (suc i) tape ≡ r)
get_elem?-drop zero [] x r h = absurd (ground arith)
get_elem?-drop zero (y ∷ tape) x r h = ground arith
get_elem?-drop (suc i) [] x r h = absurd (ground arith)
get_elem?-drop (suc i) (y ∷ tape) x r h = get_elem?-drop i tape x r h

-- What stands behind a branch.
pub get_elem?-body :
    (up : Node) (ls : List (List ℕ)) (j : ℕ) (r : List Symb)
    → get_elem? (body up ls ++ r) (length ls + j) ≡ get_elem? r j
get_elem?-body up [] j r = ap (get_elem? r) (omega arith)
get_elem?-body up (l ∷ ls) j r =
    ap (get_elem? (body up (l ∷ ls) ++ r)) {y = suc (length ls + j)} (omega arith)
    ∙ get_elem?-body up ls j r

pub drop-body :
    (up : Node) (ls : List (List ℕ)) (r : List Symb) → drop (length ls) (body up ls ++ r) ≡ r
drop-body up [] r = refl
drop-body up (l ∷ ls) r = drop-body up ls r

pub drop-body_cons :
    (up : Node) (ls : List (List ℕ)) (x : Symb) (r : List Symb)
    → drop (suc (length ls)) (body up ls ++ (x ∷ r)) ≡ r
drop-body_cons up [] x r = refl
drop-body_cons up (l ∷ ls) x r = drop-body_cons up ls x r

-- if c / first / else / second / end: `k` is the entry of the else, and `n` that of the end.
abbrev pub else_part : ℕ → List ℕ → List (List ℕ) → List Symb
else_part k o second =
    entry else_ 0 root none o ∷ (body (at k) second ++ (entry end 0 root none [] ∷ []))

abbrev pub block : ℕ → ℕ → List ℕ → List ℕ → List (List ℕ) → List (List ℕ) → List Symb
block k n c o first second =
    entry if_ 0 root (some n) c ∷ (body (at 0) first ++ else_part k o second)

module _ {ℓ} {E : Type ℓ} (run : List ℕ → E → E) (cond : List ℕ → E → Option Bool × E) where
  -- The lines of a branch, one after the other.
  abbrev pub runs : List (List ℕ) → E → E
  runs [] e = e
  runs (l ∷ ls) e = runs ls (run l e)

  -- The loop executes the rest of a branch from its entry `i` on, and goes on at the `end` of the
  -- entry that opens it.
  pub loop_body :
      (fuel i : ℕ) (tape : List Symb) (up : Node) (l : List ℕ) (ls : List (List ℕ))
      (rest : List Symb) (e : E)
      → drop i tape ≡ body up (l ∷ ls) ++ rest
      → ((k : ℕ) → find_from k up rest ≡ none)
      → cmd_loop run cond (suc (length ls) + fuel) tape (some i) e
        ≡ cmd_loop run cond fuel tape (end_of tape up) (runs (l ∷ ls) e)
  unfolding cmd_next find_from
  loop_body fuel i tape up l [] rest e h none_left =
      let (g, d) = get_elem?-drop i tape (entry nop 0 up none l) rest h in
      let next : cmd_next tape i up ≡ end_of tape up = rw (d, none_left (suc i), cmd_next) in
      ap (λ n. cmd_loop run cond n tape (some i) e) (omega arith)
      ∙ loop_next run cond fuel i tape _ (end_of tape up) e (run l e) g
          (step_nop run cond tape i 0 up none l e ∙ ap (λ t. (t, false, run l e)) next)
  loop_body fuel i tape up l (m ∷ ls) rest e h none_left =
      let (g, d) = get_elem?-drop i tape (entry nop 0 up none l) (body up (m ∷ ls) ++ rest) h in
      let next : cmd_next tape i up ≡ some (suc i) = rw (d, node_eq_refl up, cmd_next) in
      ap (λ n. cmd_loop run cond n tape (some i) e) {y = suc (suc (length ls) + fuel)} (omega arith)
      ∙ loop_next run cond (suc (length ls) + fuel) i tape _ (some (suc i)) e (run l e) g
          (step_nop run cond tape i 0 up none l e ∙ ap (λ t. (t, false, run l e)) next)
      ∙ loop_body fuel (suc i) tape up m ls rest (run l e) d none_left

  module _ (k n : ℕ) (c o : List ℕ) (first second : List (List ℕ)) where
    pub end_entry :
        n ≡ suc (length first + suc (length second))
        → get_elem? (block k n c o first second) n ≡ some (entry end 0 root none [])
    end_entry e =
        ap (get_elem? (block k n c o first second)) e
        ∙ get_elem?-body (at 0) first (suc (length second)) (else_part k o second)
        ∙ ap (get_elem? (body (at k) second ++ (entry end 0 root none [] ∷ [])))
            {y = length second + 0} (omega arith)
        ∙ get_elem?-body (at k) second 0 (entry end 0 root none [] ∷ [])

    pub else_entry :
        k ≡ suc (length first)
        → get_elem? (block k n c o first second) k ≡ some (entry else_ 0 root none o)
    else_entry e =
        ap (get_elem? (block k n c o first second)) {y = suc (length first + 0)} (omega arith)
        ∙ get_elem?-body (at 0) first 0 (else_part k o second)

    -- No entry of the else part is a child of the if.
    pub no_child :
        k ≡ suc (length first) → (i : ℕ) → find_from i (at 0) (else_part k o second) ≡ none
    unfolding find_from
    no_child e i =
        find_from-body (suc i) (at 0) (at k) second (entry end 0 root none [] ∷ []) (ground arith)
