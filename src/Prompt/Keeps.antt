-- ===== src/Prompt/Keeps.antt =====
-- tui/ex_cmd.c: the keys keep the cursor in the line and the line in its buffer.
use fnav.Prelude.{
  ℕ, ◌+◌, ◌-◌, ◌≡◌, ◌<◌, ◌≤◌, refl, ◌⊎◌, ap, ◌∙◌, Bool, true, false, Option, none, some, List, [],
  ◌∷◌, ◌++◌, Bool-cases, Option-cases, inl, inr, ltb, if◌then◌else◌, length, take, drop, reverse, ℤ,
  pos, negsuc, ◌+ℤ◌, ◌-ℤ◌, arith, length-take, length-drop, length-append,
}
use fnav.Text.Wide.{next_widechar, prev_widechar}
use fnav.Prompt.{
  forward, backward, Ex, Near, Direction, Action, str_ins, count_blanks, linechar, cell_len, put_in,
  ex_getchar, ex_bckspc, ex_killline, ex_killword, ex_move, ex_moveline, ex_hist, ex_cmd_populate,
  run_key, ex_killchar, leave_word, grown, instr_of, MenuCall,
}
use fnav.Prompt.Edit.{Same, leave_word-Same, ex_killchar-Same}
use fnav.Prompt.Words.{length-behind, Cut, ex_killword-Cut}

pub record IsValid (ex : Ex) : Type 0 where
  pub cursor : ex.curofs ≤ length ex.line
  pub fits : length ex.line < ex.maxpos

Same-IsValid : (ex ex' : Ex) → Same ex ex' → IsValid ex → IsValid ex'
Same-IsValid ex ex' s v = record {
  cursor = omega (arith, s.curofs, ap length s.line, v.cursor);
  fits = omega (arith, s.maxpos, ap length s.line, v.fits);
}

length-str_ins :
    (s ins : List ℕ) (at ofs : ℕ)
    → at ≤ length s
    → length (str_ins s ins at ofs) ≡ at + (length ins + (length s - (at + ofs)))
unfolding str_ins
length-str_ins s ins at ofs h =
    let q : ltb (length s) at ≡ false = ground arith in
    rw q (
      omega (
        arith,
        length-append (take at s) (ins ++ drop (at + ofs) s),
        length-append ins (drop (at + ofs) s),
        length-take at s,
        length-drop (at + ofs) s,
      ))

put_in-IsValid :
    (width : List ℕ → Option (ℕ × ℕ)) (u : List ℕ) (ex : Ex)
    → IsValid ex
    → IsValid (put_in width u ex)
unfolding put_in
put_in-IsValid width u ex v =
    let l = length-str_ins ex.line u ex.curofs 0 v.cursor in
    record { cursor = omega (arith, l, v.cursor); fits = fit l }
  where
    fit :
        length (str_ins ex.line u ex.curofs 0)
          ≡ ex.curofs + (length u + (length ex.line - (ex.curofs + 0)))
        → length (str_ins ex.line u ex.curofs 0) < grown (length ex.line) (length u) ex.maxpos
    fit l = let c = v.cursor in let f = v.fits in ground (arith, l)

back_keeps :
    (ex : Ex) (len : ℕ) (cells : ℤ)
    → IsValid ex
    → IsValid (record ex {
      line = str_ins ex.line [] (ex.curofs - len) len;
      curofs = ex.curofs - len;
      curpos = cells;
    })
back_keeps ex len cells v =
    let l = length-str_ins ex.line [] (ex.curofs - len) len (omega (arith, v.cursor)) in
    record { cursor = omega (arith, l, v.cursor); fits = omega (arith, l, v.cursor, v.fits) }

no_char : (s : List ℕ) → prev_widechar s ≡ none → length s ≡ 0
unfolding prev_widechar
no_char [] e = refl
no_char (a ∷ []) e = absurd (ground arith)
no_char (a ∷ b ∷ []) e = absurd (ground arith)
no_char (a ∷ b ∷ c ∷ []) e = absurd (ground arith)
no_char (a ∷ b ∷ c ∷ d ∷ s) e = absurd (ground arith)

-- In front of a cursor that is not at the start there is a character.
char_before :
    (line : List ℕ) (n : ℕ)
    → 0 < n
    → n ≤ length line
    → (buf : List ℕ) × (linechar line n backward ≡ some buf)
unfolding linechar
char_before line n h l = elim (Option-cases (prev_widechar (reverse (take n line)))) [
  | inl e ↦ absurd (omega (arith, no_char (reverse (take n line)) e, length-behind line n l))
  | inr (m, e) ↦ (take m (drop (n - m) line), rw (linechar, e) refl)
]

ex_bckspc-IsValid :
    (width : List ℕ → Option (ℕ × ℕ)) (near : Near) (ex : Ex)
    → IsValid ex
    → (ex' : Ex) × (ex_bckspc width near ex ≡ some ex') × IsValid ex'
unfolding ex_bckspc
ex_bckspc-IsValid width near ex v = elim (Bool-cases (ltb 0 ex.curofs)) [
  | inr q ↦ (
    ex_killchar near ex,
    rw (ex_bckspc, q) refl,
    Same-IsValid ex (ex_killchar near ex) (ex_killchar-Same near ex) v,
  )
  | inl q ↦
      let (buf, e) = char_before ex.line ex.curofs (ground arith) v.cursor in
      let er = record ex {
        line = str_ins ex.line [] (ex.curofs - length buf) (length buf);
        curofs = ex.curofs - length buf;
        curpos = ex.curpos -ℤ cell_len width buf;
      } in
      (
        ex_killchar near er,
        rw (ex_bckspc, q, e) refl,
        Same-IsValid er (ex_killchar near er) (ex_killchar-Same near er)
            (back_keeps ex (length buf) (ex.curpos -ℤ cell_len width buf) v),
      )
]

-- A move of the cursor inside the line.
at_keeps :
    (near : Near) (ex : Ex) (at : ℕ) (cells : ℤ)
    → at ≤ length ex.line
    → IsValid ex
    → IsValid (leave_word near (record ex { curofs = at; curpos = cells }))
at_keeps near ex at cells h v =
    let to = record ex { curofs = at; curpos = cells } in
    Same-IsValid to (leave_word near to) (leave_word-Same near to)
      (record { cursor = h; fits = v.fits })

-- The character behind the cursor.
ahead : Ex → List ℕ
ahead ex = take (next_widechar (drop ex.curofs ex.line)) (drop ex.curofs ex.line)

ahead_inside : (ex : Ex) → IsValid ex → ex.curofs + length (ahead ex) ≤ length ex.line
unfolding ahead
ahead_inside ex v = omega (
  arith,
  length-take (next_widechar (drop ex.curofs ex.line)) (drop ex.curofs ex.line),
  length-drop ex.curofs ex.line,
  v.cursor,
)

ex_move-IsValid :
    (width : List ℕ → Option (ℕ × ℕ)) (near : Near) (dir : Direction) (ex : Ex)
    → IsValid ex
    → IsValid (ex_move width near dir ex)
unfolding ex_move linechar ahead
ex_move-IsValid width near forward ex v =
    at_keeps near ex (ex.curofs + length (ahead ex)) (ex.curpos +ℤ cell_len width (ahead ex))
      (ahead_inside ex v) v
ex_move-IsValid width near backward ex v =
    elim (Option-cases (linechar ex.line ex.curofs backward)) [
      | inl e ↦ rw (ex_move, e) v
      | inr (buf, e) ↦
          rw (ex_move, e)
            (at_keeps near ex (ex.curofs - length buf) (ex.curpos -ℤ cell_len width buf)
              (omega (arith, v.cursor)) v)
    ]

Same-refl : (ex : Ex) → Same ex ex
Same-refl ex = record { line = refl; curofs = refl; curpos = refl; maxpos = refl }

if_Same : (b : Bool) (ex x y : Ex) → Same ex x → Same ex y → Same ex (if b then x else y)
if_Same true ex x y s t = s
if_Same false ex x y s t = t

ex_killline-IsValid : (ex : Ex) → IsValid ex → IsValid (ex_killline ex)
unfolding ex_killline
ex_killline-IsValid ex v =
    let gone = record ex { line = []; curpos = pos 0; curofs = 0 } in
    let cleared = record gone { menu = MenuCall.menu_clear ∷ ex.menu } in
    let w =
      if_Same ex.cmd_state gone cleared gone
        (record { line = refl; curofs = refl; curpos = refl; maxpos = refl }) (Same-refl gone) in
    record {
      cursor = omega (arith, w.curofs);
      fits = omega (arith, ap length w.line, w.maxpos, v.fits);
    }

grown_more : (used len maxpos : ℕ) → used < maxpos → used + len < grown used len maxpos
grown_more used len maxpos h = ground arith

ex_cmd_populate-IsValid :
    (width : List ℕ → Option (ℕ × ℕ)) (line : List ℕ) (ex : Ex)
    → IsValid ex
    → IsValid (ex_cmd_populate width line ex)
unfolding ex_cmd_populate
ex_cmd_populate-IsValid width line ex v =
    let w =
      if_Same ex.cmd_state ex (record ex { menu = MenuCall.menu_rebuild ∷ ex.menu }) ex
        (record { line = refl; curofs = refl; curpos = refl; maxpos = refl }) (Same-refl ex) in
    let m = ap (grown 0 (length line)) w.maxpos in
    record {
      cursor = omega arith;
      fits = omega (arith, m, grown_more 0 (length line) ex.maxpos (omega (arith, v.fits)));
    }

killword-IsValid : (ex ex' : Ex) → IsValid ex → Cut ex ex' → IsValid ex'
killword-IsValid ex ex' v c =
    let l = ap length c.line ∙ length-append (take ex'.curofs ex.line) (drop ex.curofs ex.line) in
    let t = length-take ex'.curofs ex.line in
    let d = length-drop ex.curofs ex.line in
    record {
      cursor = omega (arith, l, t, d, v.cursor, c.shorter);
      fits = omega (arith, l, t, d, v.cursor, c.shorter, v.fits, c.maxpos);
    }

-- In front of the cursor there is nothing, or a byte other than a blank.
unfoldable pub HasWord : Ex → Type 0
HasWord ex =
    (ex.curofs ≡ 0) ⊎ ((n : ℕ) × (count_blanks (reverse (take ex.curofs ex.line)) ≡ some n))

-- An ex_killword that does not read in front of the line.
unfoldable pub CanRun : Action → Ex → Type 0
CanRun Action.killword ex = HasWord ex
CanRun _ ex = Unit

no_word :
    (width : List ℕ → Option (ℕ × ℕ)) (near : Near) (ex : Ex)
    → ex.curofs ≡ 0
    → ex_killword width near ex ≡ some ex
unfolding ex_killword
no_word width near ex e = let a : ltb ex.curofs 1 ≡ true = ground arith in rw (ex_killword, a) refl

-- In a prompt whose cursor is in its line, and whose line is shorter than maxpos: each key of `Action` ends
-- without a fault with the same again, ex_killword only where it finds a byte other than a blank in
-- front of the cursor, or the cursor at the start.
pub run_key-IsValid :
    (width : List ℕ → Option (ℕ × ℕ)) (near : Near) (a : Action) (ex : Ex)
    → IsValid ex
    → CanRun a ex
    → (ex' : Ex) × (run_key width near a ex ≡ some ex') × IsValid ex'
unfolding run_key CanRun HasWord ex_getchar ex_moveline ex_hist
run_key-IsValid width near (Action.typed (negsuc key) utf8) ex v r = (ex, refl, v)
run_key-IsValid width near (Action.typed (pos key) utf8) ex v r =
    (put_in width (instr_of key utf8) ex, refl, put_in-IsValid width (instr_of key utf8) ex v)
run_key-IsValid width near Action.bckspc ex v r = ex_bckspc-IsValid width near ex v
run_key-IsValid width near Action.killword ex v (inl e) = (ex, no_word width near ex e, v)
run_key-IsValid width near Action.killword ex v (inr (n, e)) = elim (Bool-cases (ltb 0 ex.curofs)) [
  | inl q ↦
      let (ex', k, c) = ex_killword-Cut width near ex n (ground arith) v.cursor e in
      (ex', k, killword-IsValid ex ex' v c)
  | inr q ↦ (ex, no_word width near ex (ground arith), v)
]
run_key-IsValid width near Action.killline ex v r = (ex_killline ex, refl, ex_killline-IsValid ex v)
run_key-IsValid width near (Action.move dir) ex v r =
    (ex_move width near dir ex, refl, ex_move-IsValid width near dir ex v)
run_key-IsValid width near (Action.moveline forward) ex v r =
    (ex_moveline width forward ex, refl, record { cursor = omega arith; fits = v.fits })
run_key-IsValid width near (Action.moveline backward) ex v r =
    (ex_moveline width backward ex, refl, record { cursor = omega arith; fits = v.fits })
run_key-IsValid width near (Action.hist none) ex v r = (ex, refl, v)
run_key-IsValid width near (Action.hist (some ret)) ex v r =
    let w = ex_cmd_populate-IsValid width ret ex v in
    (ex_hist width (some ret) ex, refl, record { cursor = w.cursor; fits = w.fits })
