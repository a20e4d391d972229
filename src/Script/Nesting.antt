-- ===== src/Script/Nesting.antt =====
-- cmd.c: the tape of a block that stands inside another one.
pub mod Loop
pub mod Record
use fnav.Prelude.{
  ◌>>=◌, ℕ, zero, suc, ◌+◌, ◌≤◌, ◌≡◌, refl, sym, ap, ◌∙◌, Bool, true, false, Option, none, some,
  List, [], ◌∷◌, ◌++◌, append_assoc, arith, length, length-append, pos, if◌then◌else◌, drop,
  get_elem?,
}
use fnav.Script.{
  Symb, Node, if_, end, root, at, begin, close, text, Nvs, start_nvs, bufsiz, cmd_evals, cmd_eval,
  eval_event, cmd_ifblock, cmd_endblock, close_block, cmd_start, cmd_loop, find_from, stack_push,
  end_ahead, modify, cmd_next, end_of,
}
use fnav.Script.Tape.{
  effect, entry, loop_next, loop_done, step_true, step_false, step_end, step_inner_end,
}
use fnav.Script.Blocks.{
  body, texts, runs, loop_body, find_from-body, length-body, get_elem?-body, get_elem?-drop,
  drop-body, drop-body_cons,
}

drop-nil {ℓ} : {A : Type ℓ} → (n : ℕ) → drop {A = A} n [] ≡ []
drop-nil zero = refl
drop-nil (suc n) = refl

drop-drop {ℓ} : {A : Type ℓ} → (a b : ℕ) (xs : List A) → drop (a + b) xs ≡ drop a (drop b xs)
drop-drop a zero xs = ap (λ n. drop n xs) (omega arith)
drop-drop a (suc b) [] = drop-nil (a + suc b) ∙ sym (drop-nil a)
drop-drop a (suc b) (x ∷ xs) =
    ap (λ n. drop n (x ∷ xs)) {y = suc (a + b)} (omega arith) ∙ drop-drop a b xs

pub drop-behind :
    (up : Node) (ls : List (List ℕ)) (i k : ℕ) (tape r : List Symb)
    → drop i tape ≡ body up ls ++ r
    → k ≡ i + length ls
    → drop k tape ≡ r
drop-behind up ls i k tape r h hk =
    ap (λ n. drop n tape) {y = length ls + i} (omega arith)
    ∙ drop-drop (length ls) i tape
    ∙ ap (drop (length ls)) h
    ∙ drop-body up ls r

-- if c / if d / first
abbrev pub inner : Option ℕ → List ℕ → List ℕ → List (List ℕ) → List Symb
inner k c d first = entry if_ 0 root k c ∷ entry if_ 1 (at 0) none d ∷ body (at 1) first

-- if c / if d / first / end / rest
abbrev pub outer : Option ℕ → List ℕ → List ℕ → List (List ℕ) → List (List ℕ) → List Symb
outer k c d first rest =
    entry if_ 0 root k c
    ∷ entry if_ 1 (at 0) none d
    ∷ (body (at 1) first ++ (entry end 0 (at 0) none [] ∷ body (at 0) rest))

-- The same, and the last end.
abbrev pub behind : List (List ℕ) → List Symb
behind rest = entry end 0 (at 0) none [] ∷ (body (at 0) rest ++ (entry end 0 root none [] ∷ []))

abbrev pub nested : ℕ → List ℕ → List ℕ → List (List ℕ) → List (List ℕ) → List Symb
nested k c d first rest =
    entry if_ 0 root (some k) c ∷ entry if_ 1 (at 0) none d ∷ (body (at 1) first ++ behind rest)

-- Behind the inner block no entry is a child of it.
pub none_inner : (rest : List (List ℕ)) (i : ℕ) → find_from i (at 1) (behind rest) ≡ none
unfolding find_from
none_inner rest i =
    find_from-body (suc i) (at 1) (at 0) rest (entry end 0 root none [] ∷ []) (ground arith)

pub length-outer :
    (k : Option ℕ) (c d : List ℕ) (first rest : List (List ℕ))
    → length (outer k c d first rest) ≡ length first + length rest + 3
length-outer k c d first rest = omega (
  arith,
  length-append (body (at 1) first) (entry end 0 (at 0) none [] ∷ body (at 0) rest),
  length-body (at 1) first,
  length-body (at 0) rest,
)
