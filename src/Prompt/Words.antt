-- ===== src/Prompt/Words.antt =====
-- tui/ex_cmd.c: ex_killword takes a piece that ends at the cursor out of the line.
use fnav.Prelude.{
  ℕ, zero, suc, ◌+◌, ◌-◌, ◌≡◌, ◌<◌, ◌≤◌, ◌⊎◌, refl, sym, ap, ◌∙◌, Bool, true, false, ◌&&◌, ◌||◌,
  Option, some, List, [], ◌∷◌, ◌++◌, Bool-cases, Option-cases, inl, inr, ltb, ◌==◌, if◌then◌else◌,
  length, take, drop, reverse, ℤ, pos, ◌-ℤ◌, arith,
}
use mathlib.Core.List.{reverse-append}
use fnav.Text.{byte_at}
use fnav.Text.Search.{accepts, rev_from, rev_strchr_pos}
use fnav.Syntax.{tokenchars}
use fnav.Prompt.{
  Ex, Near, str_ins, word_start, count_blanks, curch, ex_killchar, ex_killword, cell_len,
}
use fnav.Prompt.Edit.{ex_killchar-Same}

rev_from_le : (src : List ℕ) (i : ℕ) (accept : List ℕ) → rev_from src i accept ≤ i
unfolding rev_from
rev_from_le src zero accept = omega arith
rev_from_le src (suc i) accept = elim (Bool-cases (accepts accept (byte_at src (suc i)))) [
  | inl e ↦ rw (rev_from, e) (omega arith)
  | inr e ↦ rw (rev_from, e) (omega (arith, rev_from_le src i accept))
]

rev_pos_le : (src : List ℕ) (n : ℕ) (accept : List ℕ) → rev_strchr_pos src n accept ≤ n - 1
unfolding rev_strchr_pos
rev_pos_le src n accept = rev_from_le src (n - 1) accept

pub word_start_lt : (line : List ℕ) (n : ℕ) → 0 < n → word_start line n < n
unfolding word_start
word_start_lt line n h =
    start_lt (rev_strchr_pos line n tokenchars)
      (accepts tokenchars (byte_at line (rev_strchr_pos line n tokenchars))
        || (byte_at line (rev_strchr_pos line n tokenchars) == 0))
      (rev_pos_le line n tokenchars)
  where
    start_lt : (at : ℕ) (b : Bool) → at ≤ n - 1 → (if b && ltb 1 (n - at) then suc at else at) < n
    start_lt at b l = ground arith

pub cut_line :
    (line : List ℕ) (at n : ℕ)
    → at ≤ n
    → n ≤ length line
    → str_ins line [] at (n - at) ≡ take at line ++ drop n line
unfolding str_ins
cut_line line at n h l =
    let q : ltb (length line) at ≡ false = ground arith in
    let e : at + (n - at) ≡ n = omega arith in rw (q, e) refl

-- The bytes in front of the cursor, the nearest first.
take-suc :
    (line : List ℕ) (n : ℕ)
    → n < length line
    → take (suc n) line ≡ take n line ++ (byte_at line n ∷ [])
unfolding byte_at
take-suc [] n h = absurd (ground arith)
take-suc (c ∷ line) zero h = refl
take-suc (c ∷ line) (suc n) h = ap (λ s. c ∷ s) (take-suc line n (omega arith))

nearest :
    (line : List ℕ) (n : ℕ)
    → n < length line
    → reverse (take (suc n) line) ≡ byte_at line n ∷ reverse (take n line)
nearest line n h =
    ap reverse (take-suc line n h) ∙ reverse-append (take n line) (byte_at line n ∷ [])

-- A count is that of the blanks at the front, with another byte behind them.
count_step :
    (c : ℕ) (s : List ℕ) (n : ℕ)
    → count_blanks (c ∷ s) ≡ some n
    → (((c == 32) ≡ false) × (n ≡ 0))
      ⊎ (((c == 32) ≡ true) × (m : ℕ) × (count_blanks s ≡ some m) × (n ≡ suc m))
unfolding count_blanks
count_step c s n e = elim (Bool-cases (c == 32)) [
  | inr q ↦ inl (q, ground arith)
  | inl q ↦ elim (Option-cases (count_blanks s)) [
    | inl r ↦ absurd (ground arith)
    | inr (m, r) ↦ inr (q, m, r, ground arith)
  ]
]

count_blanks_le : (s : List ℕ) (n : ℕ) → count_blanks s ≡ some n → n < length s
unfolding count_blanks
count_blanks_le [] n e = absurd (ground arith)
count_blanks_le (c ∷ s) n e = elim (count_step c s n e) [
  | inl (q, z) ↦ omega arith
  | inr (q, m, r, z) ↦ omega (arith, count_blanks_le s m r)
]

-- A blank in front of the cursor.
blanks_behind :
    (c : ℕ) (s : List ℕ) (n : ℕ)
    → count_blanks (c ∷ s) ≡ some n
    → (c == 32) ≡ true
    → (0 < n) × (0 < length s)
blanks_behind c s n e h = elim (count_step c s n e) [
  | inl (q, z) ↦ absurd (cc)
  | inr (q, m, r, z) ↦ (omega arith, omega (arith, count_blanks_le s m r))
]

pub length-behind : (s : List ℕ) (n : ℕ) → n ≤ length s → length (reverse (take n s)) ≡ n
length-behind s zero h = refl
length-behind s (suc n) h = ap length (nearest s n h) ∙ ap suc (length-behind s n (omega arith))

blanks_at :
    (line : List ℕ) (n m : ℕ)
    → 0 < n
    → n ≤ length line
    → count_blanks (reverse (take n line)) ≡ some m
    → (byte_at line (n - 1) == 32) ≡ true
    → (0 < m) × (1 < n)
blanks_at line zero m h l e c = absurd (ground arith)
blanks_at line (suc k) m h l e c =
    let p : suc k - 1 ≡ k = omega arith in
    let w =
      blanks_behind (byte_at line k) (reverse (take k line)) m
        (ap count_blanks (sym (nearest line k l)) ∙ e)
        (ap (λ i. byte_at line i == 32) (sym p) ∙ c) in
    (w.0, omega (arith, w.1, length-behind line k (omega arith)))

behind_cursor :
    (ex : Ex) (m : ℕ)
    → 0 < ex.curofs
    → ex.curofs ≤ length ex.line
    → count_blanks (reverse (take ex.curofs ex.line)) ≡ some m
    → (curch ex == 32) ≡ true
    → (0 < m) × (1 < ex.curofs)
behind_cursor ex m h l e c =
    let a : ltb ex.curofs 1 ≡ false = ground arith in
    blanks_at ex.line ex.curofs m h l e (
      sym (ap (λ b. (if b then byte_at ex.line 0 else byte_at ex.line (ex.curofs - 1)) == 32) a)
      ∙ c)

-- The line without what stands between two places of it, and the cursor at the first of them.
abbrev cut_to : Ex → ℕ → ℤ → Ex
cut_to ex at cells = record ex {
  line = str_ins ex.line [] at (ex.curofs - at);
  curofs = at;
  curpos = cells;
}

-- What a killed word leaves.
pub record Cut (ex ex' : Ex) : Type 0 where
  pub line : ex'.line ≡ take ex'.curofs ex.line ++ drop ex.curofs ex.line
  pub shorter : ex'.curofs < ex.curofs
  pub maxpos : ex'.maxpos ≡ ex.maxpos

cut_to-Cut :
    (near : Near) (ex : Ex) (at : ℕ) (cells : ℤ)
    → at < ex.curofs
    → ex.curofs ≤ length ex.line
    → Cut ex (ex_killchar near (cut_to ex at cells))
cut_to-Cut near ex at cells h l =
    let same = ex_killchar-Same near (cut_to ex at cells) in
    record {
      line =
          same.line
          ∙ cut_line ex.line at ex.curofs (omega arith) l
          ∙ ap (λ n. take n ex.line ++ drop ex.curofs ex.line) (sym same.curofs);
      shorter = omega (arith, same.curofs);
      maxpos = same.maxpos;
    }

kills_blanks :
    (width : List ℕ → Option (ℕ × ℕ)) (near : Near) (ex : Ex) (n : ℕ)
    → 1 < ex.curofs
    → (curch ex == 32) ≡ true
    → count_blanks (reverse (take ex.curofs ex.line)) ≡ some n
    → n < ex.curofs
    → ex_killword width near ex
      ≡ some (ex_killchar near (cut_to ex (ex.curofs - n) (ex.curpos -ℤ pos n)))
unfolding ex_killword
kills_blanks width near ex n h c e l =
    let a : ltb ex.curofs 1 ≡ false = ground arith in
    let b : ltb 1 ex.curofs ≡ true = ground arith in
    let d : ex.curofs - (ex.curofs - n) ≡ n = omega arith in rw (ex_killword, c, a, b, e, d) refl

kills_word :
    (width : List ℕ → Option (ℕ × ℕ)) (near : Near) (ex : Ex)
    → 0 < ex.curofs
    → (curch ex == 32) ≡ false
    → (cells : ℤ) × (ex_killword width near ex
        ≡ some (ex_killchar near (cut_to ex (word_start ex.line ex.curofs) cells)))
unfolding ex_killword
kills_word width near ex h c =
    let a : ltb ex.curofs 1 ≡ false = ground arith in
    let at = word_start ex.line ex.curofs in
    (cell_len width (take at (str_ins ex.line [] at (ex.curofs - at))), rw (ex_killword, c, a) refl)

-- Where there is a byte other than a blank in front of the cursor: ex_killword ends without a fault,
-- takes out one or more bytes that end at the cursor, nothing else, and puts the cursor there.
pub ex_killword-Cut :
    (width : List ℕ → Option (ℕ × ℕ)) (near : Near) (ex : Ex) (n : ℕ)
    → 0 < ex.curofs
    → ex.curofs ≤ length ex.line
    → count_blanks (reverse (take ex.curofs ex.line)) ≡ some n
    → (ex' : Ex) × (ex_killword width near ex ≡ some ex') × Cut ex ex'
ex_killword-Cut width near ex n h l e = elim (Bool-cases (curch ex == 32)) [
  | inr c ↦
      let (cells, k) = kills_word width near ex h c in
      let at = word_start ex.line ex.curofs in
      (
        ex_killchar near (cut_to ex at cells),
        k,
        cut_to-Cut near ex at cells (word_start_lt ex.line ex.curofs h) l,
      )
  | inl c ↦
      let (some_blanks, more) = behind_cursor ex n h l e c in
      let le : n < ex.curofs = omega (
        arith,
        count_blanks_le (reverse (take ex.curofs ex.line)) n e,
        length-behind ex.line ex.curofs l,
      ) in
      (
        ex_killchar near (cut_to ex (ex.curofs - n) (ex.curpos -ℤ pos n)),
        kills_blanks width near ex n more c e le,
        cut_to-Cut near ex (ex.curofs - n) (ex.curpos -ℤ pos n) (omega arith) l,
      )
]
