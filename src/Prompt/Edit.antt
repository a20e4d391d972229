-- ===== src/Prompt/Edit.antt =====
-- tui/ex_cmd.c: what is put into the line is taken out by the backspace.
use fnav.Prelude.{
  ℕ, zero, suc, ◌+◌, ◌-◌, ◌≡◌, ◌<◌, ◌≤◌, refl, sym, ap, ◌∙◌, Bool, true, false, Option, some, List,
  [], ◌∷◌, ◌++◌, Bool-cases, inl, inr, ltb, ltb_ℤ, if◌then◌else◌, length, take, drop, reverse, ℤ,
  pos, negsuc, ◌+ℤ◌, ◌-ℤ◌, arith, length-append, length-take, append_assoc,
}
use mathlib.Core.List.{reverse-append}
use fnav.Text.Wide.{IsChar, widechar_step}
use fnav.Prompt.{
  backward, Ex, Near, str_ins, linechar, put_in, ex_getchar, ex_killchar, ex_bckspc, cell_len,
  cell_from, leave_word,
}

module _ {ℓ} {A : Type ℓ} where
  pub take_front : (a b : List A) → take (length a) (a ++ b) ≡ a
  take_front [] b = refl
  take_front (x ∷ a) b = ap (λ s. x ∷ s) (take_front a b)

  pub drop_front : (a b : List A) → drop (length a) (a ++ b) ≡ b
  drop_front [] b = refl
  drop_front (x ∷ a) b = drop_front a b

  pub split_at : (n : ℕ) (s : List A) → take n s ++ drop n s ≡ s
  split_at zero s = refl
  split_at (suc n) [] = refl
  split_at (suc n) (x ∷ s) = ap (λ s'. x ∷ s') (split_at n s)

  pub drop_at : (a b : List A) (n : ℕ) → n ≡ length a → drop n (a ++ b) ≡ b
  drop_at a b n e = rw e (drop_front a b)

  pub take_at : (a b : List A) (n : ℕ) → n ≡ length a → take n (a ++ b) ≡ a
  take_at a b n e = rw e (take_front a b)

inside : (a b : List ℕ) → ltb (length (a ++ b)) (length a) ≡ false
inside a b = ground (arith, length-append a b)

pub ins_between : (a b u : List ℕ) → str_ins (a ++ b) u (length a) 0 ≡ a ++ (u ++ b)
unfolding str_ins
ins_between a b u =
    rw (inside a b, take_front a b)
      (ap (λ s. a ++ (u ++ s)) (drop_at a b (length a + 0) (omega arith)))

pub del_between : (a u b : List ℕ) → str_ins (a ++ (u ++ b)) [] (length a) (length u) ≡ a ++ b
unfolding str_ins
del_between a u b =
    rw (inside a (u ++ b), take_front a (u ++ b))
      (ap (λ s. a ++ s)
        (ap (drop (length a + length u)) (sym (append_assoc a u b))
          ∙ drop_at (a ++ u) b (length a + length u) (omega (arith, length-append a u))))

-- The character in front of the cursor.
char_behind :
    (a u b : List ℕ) (n : ℕ)
    → IsChar u
    → n ≡ length a + length u
    → linechar (a ++ (u ++ b)) n backward ≡ some u
unfolding linechar
char_behind a u b n h e =
    let back : reverse (take n (a ++ (u ++ b))) ≡ reverse u ++ reverse a =
      ap (λ s. reverse (take n s)) (sym (append_assoc a u b))
      ∙ ap reverse (take_at (a ++ u) b n (omega (arith, e, length-append a u)))
      ∙ reverse-append a u in
    let front : drop (n - length u) (a ++ (u ++ b)) ≡ u ++ b =
      drop_at a (u ++ b) (n - length u) (omega arith) in
    rw (linechar, back, (widechar_step b (reverse a) h).1, front) (ap some (take_front u b))

-- Both halves of a line.
record Split (ex : Ex) : Type 0 where
  a : List ℕ
  b : List ℕ
  whole : ex.line ≡ a ++ b
  at : ex.curofs ≡ length a

split : (ex : Ex) → ex.curofs ≤ length ex.line → Split ex
split ex h = record {
  a = take ex.curofs ex.line;
  b = drop ex.curofs ex.line;
  whole = sym (split_at ex.curofs ex.line);
  at = omega (arith, length-take ex.curofs ex.line);
}

-- The parts that the menu's calls leave alone.
pub record Same (ex ex' : Ex) : Type 0 where
  pub line : ex'.line ≡ ex.line
  pub curofs : ex'.curofs ≡ ex.curofs
  pub curpos : ex'.curpos ≡ ex.curpos
  pub maxpos : ex'.maxpos ≡ ex.maxpos

pub leave_word-Same : (near : Near) (ex : Ex) → Same ex (leave_word near ex)
leave_word-Same near ex = elim (Bool-cases (ltb_ℤ (pos ex.curofs) near.cur_pos)) [
  | inl e ↦ rw e (record { line = refl; curofs = refl; curpos = refl; maxpos = refl })
  | inr e ↦ rw e (record { line = refl; curofs = refl; curpos = refl; maxpos = refl })
]

left-Same : (near : Near) (b : Bool) (ex : Ex) → Same ex (if b then leave_word near ex else ex)
left-Same near true ex = leave_word-Same near ex
left-Same near false ex = record { line = refl; curofs = refl; curpos = refl; maxpos = refl }

pub ex_killchar-Same : (near : Near) (ex : Ex) → Same ex (ex_killchar near ex)
unfolding ex_killchar
ex_killchar-Same near ex =
    let w = left-Same near ex.cmd_state ex in
    record { line = w.line; curofs = w.curofs; curpos = w.curpos; maxpos = w.maxpos }

-- The line without the character in front of the cursor.
erased : (List ℕ → Option (ℕ × ℕ)) → List ℕ → Ex → Ex
erased width buf ex = record ex {
  line = str_ins ex.line [] (ex.curofs - length buf) (length buf);
  curofs = ex.curofs - length buf;
  curpos = ex.curpos -ℤ cell_len width buf;
}

bckspc-erased :
    (width : List ℕ → Option (ℕ × ℕ)) (near : Near) (ex : Ex) (buf : List ℕ)
    → 0 < ex.curofs
    → linechar ex.line ex.curofs backward ≡ some buf
    → ex_bckspc width near ex ≡ some (ex_killchar near (erased width buf ex))
unfolding ex_bckspc erased
bckspc-erased width near ex buf h e =
    let q : ltb 0 ex.curofs ≡ true = ground arith in rw (ex_bckspc, q, e) refl

char_length : (u : List ℕ) → IsChar u → 0 < length u
char_length (x ∷ u) h = ground arith
char_length [] h = elim h [ ]

cancel : (c : ℤ) (n : ℕ) → (c +ℤ pos n) -ℤ pos n ≡ c
cancel (pos c) n = ground arith
cancel (negsuc c) n = ground arith

-- A key whose bytes are those of an encoded character, and then the backspace, end without a fault and
-- leave the line and the cursor as they were, wherever in the line the cursor is.
pub ex_bckspc-ex_getchar :
    (width : List ℕ → Option (ℕ × ℕ)) (near : Near) (key : ℕ) (u : List ℕ) (ex : Ex)
    → ex.curofs ≤ length ex.line
    → IsChar u
    → (ex' : Ex) × (ex_bckspc width near (ex_getchar width (pos key) (some u) ex) ≡ some ex')
      × (ex'.line ≡ ex.line)
      × (ex'.curofs ≡ ex.curofs)
      × (ex'.curpos ≡ ex.curpos)
unfolding put_in ex_getchar erased cell_len
ex_bckspc-ex_getchar width near key u ex h c =
    let s = split ex h in
    let put = put_in width u ex in
    let line : put.line ≡ s.a ++ (u ++ s.b) =
      ap (λ l. str_ins l u ex.curofs 0) s.whole
      ∙ ap (λ n. str_ins (s.a ++ s.b) u n 0) s.at
      ∙ ins_between s.a s.b u in
    let behind : linechar put.line put.curofs backward ≡ some u =
      ap (λ l. linechar l put.curofs backward) line
      ∙ char_behind s.a u s.b (ex.curofs + length u) c (omega (arith, s.at)) in
    let e = bckspc-erased width near put u (omega (arith, char_length u c)) behind in
    let same = ex_killchar-Same near (erased width u put) in
    let back : (ex.curofs + length u) - length u ≡ ex.curofs = omega arith in
    (
      ex_killchar near (erased width u put),
      e,
      same.line
          ∙ ap (λ l. str_ins l [] ((ex.curofs + length u) - length u) (length u)) line
          ∙ ap (λ n. str_ins (s.a ++ (u ++ s.b)) [] n (length u)) (back ∙ s.at)
          ∙ del_between s.a u s.b
          ∙ sym s.whole,
      same.curofs ∙ back,
      same.curpos ∙ cancel ex.curpos (cell_from width (length u) u),
    )
