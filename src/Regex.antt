-- ===== src/Regex.antt =====
-- regex.c: the lines of a model that match the pattern, and the way from a line to the next of them.
-- PCRE is a parameter: `exec` is pcre_exec of a pattern on a subject, with its answer and the vector
-- of offsets that it sets. A pointer into the array of matches is the index of its place.
pub mod Build
pub mod Around
pub mod Next
mod Tests
use fnav.Prelude.{
  ℕ, zero, suc, ◌-◌, Bool, true, false, ◌&&◌, ◌||◌, not, Option, none, some, List, [], ◌∷◌, ltb,
  ◌==◌, if◌then◌else◌, length, get_elem?, ℤ, pos, ◌+ℤ◌, ◌-ℤ◌, ltb_ℤ, eqb_ℤ,
}
use fnav.Cursor.{Buf, buf_index}

-- A pattern that regex_build has copied, with its address.
pub record Comp : Type 0 where
  pub addr : ℕ
  pub text : List ℕ

pub record LineMatch : Type 0 where
  pub lines : Option (List ℕ)
  pub pivot_top : ℤ
  pub pivot_lnum : ℤ
  pub gcomp : Option Comp

-- NSUBEXP / 3, the pairs of offsets that fit.
abbrev pub nsubexp_pairs : ℕ
nsubexp_pairs = 1

-- The loop over the offsets: one of the first `n` substrings ends behind the start; `ends` are the ends.
unfoldable pub has_end : ℕ → (ℕ → ℤ) → Bool
has_end zero ends = false
has_end (suc n) ends = has_end n ends || ltb_ℤ (pos 0) (ends n)

-- Of the answer of pcre_exec, whether the line is taken.
unfoldable pub takes_line : ℤ × (ℕ → ℤ) → Bool
takes_line (pos zero, ends) = has_end nsubexp_pairs ends
takes_line (pos (suc n), ends) = has_end (suc n) ends
takes_line (_, ends) = false

module _ (exec : List ℕ → List ℕ → ℤ × (ℕ → ℤ)) where
  -- The loop of regex_build, over the strings of the lines from the line `i` on.
  unfoldable pub build_from : List ℕ → ℕ → List (List ℕ) → List ℕ
  build_from text i [] = []
  build_from text i (subject ∷ rest) =
      let lines = build_from text (suc i) rest in
      if takes_line (exec text subject) then i ∷ lines else lines

  -- regex_build: `line` is the new pattern with the address of its copy, if there is one.
  unfoldable pub regex_build :
      List (List ℕ) → Option Comp → Option Comp × LineMatch → Option Comp × LineMatch
  regex_build subjects line (gcomp, lm) =
      let comp : Option Comp = elim line [ none ↦ gcomp | some c ↦ some c ] in
      elim comp [
        | none ↦ (none, lm)
        | some c ↦
            (some c, record lm { gcomp = some c; lines = some (build_from c.text 0 subjects) })
      ]

-- regex_mk_pivot
unfoldable pub regex_mk_pivot : Buf → LineMatch → LineMatch
regex_mk_pivot b lm = record lm { pivot_top = b.top; pivot_lnum = b.lnum }

-- `lm->gcomp != gcomp`, of the addresses.
unfoldable pub same_comp : Option Comp → Option Comp → Bool
same_comp none none = true
same_comp (some c) (some d) = c.addr == d.addr
same_comp _ _ = false

-- ensure_global_match
unfoldable pub ensure_global_match :
    (List ℕ → List ℕ → ℤ × (ℕ → ℤ))
    → List (List ℕ)
    → Buf
    → Option Comp × LineMatch
    → Option Comp × LineMatch
ensure_global_match exec subjects b (gcomp, lm) = elim lm.lines [
  | none ↦ regex_build exec subjects none (gcomp, regex_mk_pivot b lm)
  | some _ ↦
      if same_comp lm.gcomp gcomp
      then (gcomp, lm)
      else regex_build exec subjects none (gcomp, regex_mk_pivot b lm)
]

-- utarray_front, utarray_next and utarray_prev.
abbrev pub front : List ℕ → Option ℕ
front [] = none
front (m ∷ ms) = some 0

abbrev pub back : List ℕ → Option ℕ
back [] = none
back (m ∷ ms) = some (length ms)

unfoldable pub after : List ℕ → Option ℕ → Option ℕ
after ms none = front ms
after ms (some j) = if ltb (suc j) (length ms) then some (suc j) else none

unfoldable pub last_before : List ℕ → Option ℕ → Option ℕ
last_before ms none = back ms
last_before ms (some j) = if ltb 0 j then some (j - 1) else none

-- nearest_next_match
unfoldable pub nearest_next_match : List ℕ → ℕ → Option ℕ
nearest_next_match [] line = none
nearest_next_match (m ∷ ms) line =
    if (m == line) || ltb line m
    then some 0
    else elim (nearest_next_match ms line) [ none ↦ none | some j ↦ some (suc j) ]

-- `ret ? ret : next(ret)`, behind the step.
abbrev pub or_round : (Option ℕ → Option ℕ) → Option ℕ → Option ℕ
or_round step none = step none
or_round step (some j) = some j

-- The place that regex_next goes to; `forward` is `gregsign * dir > 0`.
unfoldable pub next_place : List ℕ → ℕ → Bool → Option ℕ
next_place ms line forward =
    let ret : Option ℕ = elim (nearest_next_match ms line) [ none ↦ front ms | some j ↦ some j ] in
    elim ret [
      | none ↦ none
      | some j ↦ elim (get_elem? ms j) [
        | none ↦ none
        | some m ↦
            if m == line
            then (if forward
                then or_round (after ms) (after ms (some j))
                else or_round (last_before ms) (last_before ms (some j)))
            else some j
      ]
    ]

-- regex_focus, the lines to move by; without a move where it is 0.
unfoldable pub regex_focus : Buf → ℕ → ℤ
regex_focus b to = pos to -ℤ buf_index b

-- regex_next on the matches: the index that it answers, and the line that it goes to. `none` is -1.
unfoldable pub regex_next : List ℕ → ℕ → Bool → Option (ℕ × ℕ)
regex_next ms line forward = elim (next_place ms line forward) [
  | none ↦ none
  | some j ↦ elim (get_elem? ms j) [ none ↦ none | some to ↦ some (j, to) ]
]

-- regex_hover: the line that it goes to, or the pivot where `none` is answered.
unfoldable pub regex_hover : LineMatch → ℕ → Option ℕ
regex_hover lm line = elim lm.lines [
  | none ↦ none
  | some ms ↦ elim (nearest_next_match ms line) [
    | none ↦ elim (or_round (after ms) (after ms none)) [ none ↦ none | some j ↦ get_elem? ms j ]
    | some j ↦ get_elem? ms j
  ]
]
