-- ===== src/Prompt.antt =====
-- tui/ex_cmd.c: the line of the prompt, its cursor, and the keys that edit it. `width` is what mbrtowc
-- and wcwidth say of the start of a string: the bytes and the columns of its first character, `none`
-- where the loop of cell_len stops. The calls of the menu are recorded, the newest first.
pub mod Edit
pub mod Keeps
pub mod Words
mod Tests
use fnav.Prelude.{
  ℕ, zero, suc, ◌+◌, ◌-◌, ◌*◌, ◌/◌, ◌%◌, Bool, true, false, ◌&&◌, ◌||◌, not, Option, none, some,
  List, [], ◌∷◌, ◌++◌, ltb, leb, ◌==◌, if◌then◌else◌, length, take, drop, reverse, ℤ, pos, negsuc,
  ◌+ℤ◌, ◌-ℤ◌, ltb_ℤ, eqb_ℤ, codes,
}
use fnav.Syntax.{tokenchars}
use fnav.Text.{byte_at, escape_shell}
use fnav.Text.Wide.{next_widechar, prev_widechar}
use fnav.Text.Search.{accepts, rev_strchr_pos}

pub data MenuCall : Type 0 where
  menu_rebuild : MenuCall
  menu_clear : MenuCall
  menu_killword : MenuCall

pub data Direction : Type 0 where
  forward : Direction
  backward : Direction

-- Ex_cmd, the line and the state; `maxpos` bounds the bytes of the line's buffer.
pub record Ex : Type 0 where
  pub line : List ℕ
  pub curofs : ℕ
  pub curpos : ℤ
  pub maxpos : ℕ
  pub cmd_state : Bool
  pub state : ℕ
  pub menu : List MenuCall

-- What the completion says: compl_cur_pos.
pub record Near : Type 0 where
  pub cur_pos : ℤ

-- `state & bit`, of one bit, and `state & ~bit`.
abbrev has_bit : ℕ → ℕ → Bool
has_bit bit s = (s / bit) % 2 == 1

abbrev pub without_bit : ℕ → ℕ → ℕ
without_bit bit s = if has_bit bit s then s - bit else s

unfoldable pub str_ins : List ℕ → List ℕ → ℕ → ℕ → List ℕ
str_ins str ins at ofs =
    if ltb (length str) at then str else take at str ++ (ins ++ drop (at + ofs) str)

-- linechar; `none` is its NULL.
unfoldable pub linechar : List ℕ → ℕ → Direction → Option (List ℕ)
linechar line at forward = some (take (next_widechar (drop at line)) (drop at line))
linechar line at backward = elim (prev_widechar (reverse (take at line))) [
  | none ↦ none
  | some n ↦ some (take n (drop (at - n) line))
]

abbrev pub call : MenuCall → Ex → Ex
call c ex = record ex { menu = c ∷ ex.menu }

-- The buffer grows where `len` more bytes do not fit.
abbrev pub grown : ℕ → ℕ → ℕ → ℕ
grown used len maxpos = if leb maxpos (used + len) then 2 * maxpos + len else maxpos

abbrev pub curch : Ex → ℕ
curch ex = if ltb ex.curofs 1 then byte_at ex.line 0 else byte_at ex.line (ex.curofs - 1)

-- ex_killword of the menu, where the cursor is left of the completion.
abbrev pub leave_word : Near → Ex → Ex
leave_word near ex =
    if ltb_ℤ (pos ex.curofs) near.cur_pos then call MenuCall.menu_killword ex else ex

unfoldable pub ex_killchar : Near → Ex → Ex
ex_killchar near ex =
    let left = if ex.cmd_state then leave_word near ex else ex in
    record left { state = without_bit 16 left.state }

-- The blanks at the start of a list; `none` where there is nothing else: the loop reads on.
unfoldable pub count_blanks : List ℕ → Option ℕ
count_blanks [] = none
count_blanks (c ∷ s) =
    if c == 32 then elim (count_blanks s) [ none ↦ none | some n ↦ some (suc n) ] else some 0

-- The start of the word that ex_killword removes.
unfoldable pub word_start : List ℕ → ℕ → ℕ
word_start line curofs =
    let at = rev_strchr_pos line curofs tokenchars in
    let c = byte_at line at in
    if (accepts tokenchars c || (c == 0)) && ltb 1 (curofs - at) then suc at else at

-- The loop of cell_len.
unfoldable pub cell_from : (List ℕ → Option (ℕ × ℕ)) → ℕ → List ℕ → ℕ
cell_from width zero s = 0
cell_from width (suc n) [] = 0
cell_from width (suc n) (c ∷ s) = elim (width (c ∷ s)) [
  | none ↦ 0
  | some (rc, w) ↦ w + cell_from width n (drop rc (c ∷ s))
]

unfoldable pub ex_killline : Ex → Ex
ex_killline ex =
    let gone = record ex { line = []; curpos = pos 0; curofs = 0 } in
    record (if ex.cmd_state then call MenuCall.menu_clear gone else gone) { state = 0 }

-- What is put in, of the key and its bytes, if it has more than one.
abbrev pub instr_of : ℕ → Option (List ℕ) → List ℕ
instr_of key none = if key % 256 == 0 then [] else (key % 256) ∷ []
instr_of key (some utf8) = utf8

module _ (width : List ℕ → Option (ℕ × ℕ)) where
  unfoldable pub cell_len : List ℕ → ℤ
  cell_len s = pos (cell_from width (length s) s)

  -- ex_getchar behind its guard, of a string.
  unfoldable pub put_in : List ℕ → Ex → Ex
  put_in instr ex = record ex {
    state = without_bit 16 ex.state;
    maxpos = grown (length ex.line) (length instr) ex.maxpos;
    line = str_ins ex.line instr ex.curofs 0;
    curpos = ex.curpos +ℤ cell_len instr;
    curofs = ex.curofs + length instr;
  }

  unfoldable pub ex_getchar : ℤ → Option (List ℕ) → Ex → Ex
  ex_getchar (negsuc key) utf8 ex = ex
  ex_getchar (pos key) utf8 ex = put_in (instr_of key utf8) ex

  -- ex_bckspc; without a character in front of the cursor strlen gets NULL.
  unfoldable pub ex_bckspc : Near → Ex → Option Ex
  ex_bckspc near ex =
      if ltb 0 ex.curofs
      then (elim (linechar ex.line ex.curofs backward) [
        | none ↦ none
        | some buf ↦ some (
            ex_killchar near (record ex {
              line = str_ins ex.line [] (ex.curofs - length buf) (length buf);
              curofs = ex.curofs - length buf;
              curpos = ex.curpos -ℤ cell_len buf;
            }))
      ])
      else some (ex_killchar near ex)

  unfoldable pub ex_killword : Near → Ex → Option Ex
  ex_killword near ex =
      if ltb ex.curofs 1
      then some ex
      else if curch ex == 32
      then (elim (if ltb 1 ex.curofs
          then count_blanks (reverse (take ex.curofs ex.line))
          else some 0) [
            | none ↦ none
            | some len ↦ some (
                ex_killchar near (record ex {
                  line = str_ins ex.line [] (ex.curofs - len) len;
                  curofs = ex.curofs - len;
                  curpos = ex.curpos -ℤ pos len;
                }))
          ])
      else (let at = word_start ex.line ex.curofs in
          let line = str_ins ex.line [] at (ex.curofs - at) in
          some (
            ex_killchar near
              (record ex { line = line; curofs = at; curpos = cell_len (take at line) })))

  unfoldable pub ex_move : Near → Direction → Ex → Ex
  ex_move near forward ex = elim (linechar ex.line ex.curofs forward) [
    | none ↦ ex
    | some buf ↦
        leave_word near
          (record ex { curofs = ex.curofs + length buf; curpos = ex.curpos +ℤ cell_len buf })
  ]
  ex_move near backward ex = elim (linechar ex.line ex.curofs backward) [
    | none ↦ ex
    | some buf ↦
        leave_word near
          (record ex { curofs = ex.curofs - length buf; curpos = ex.curpos -ℤ cell_len buf })
  ]

  unfoldable pub ex_moveline : Direction → Ex → Ex
  ex_moveline forward ex =
      call MenuCall.menu_rebuild (record ex { curofs = length ex.line; curpos = cell_len ex.line })
  ex_moveline backward ex = call MenuCall.menu_clear (record ex { curofs = 0; curpos = pos 0 })

  unfoldable pub ex_cmd_populate : List ℕ → Ex → Ex
  ex_cmd_populate newline ex =
      let asked = if ex.cmd_state then call MenuCall.menu_rebuild ex else ex in
      record asked {
        maxpos = grown 0 (length newline) ex.maxpos;
        line = newline;
        curpos = cell_len newline;
        curofs = length newline;
      }

  -- ex_hist, with the answer of the history.
  unfoldable pub ex_hist : Option (List ℕ) → Ex → Ex
  ex_hist none ex = ex
  ex_hist (some ret) ex = record (ex_cmd_populate ret ex) { state = 128 }

-- The keys of the prompt's table that edit the line, but for those of ex_word, which writes a byte
-- behind its array, and the other keys (`typed`).
pub data Action : Type 0 where
  typed : ℤ → Option (List ℕ) → Action
  bckspc : Action
  killword : Action
  killline : Action
  move : Direction → Action
  moveline : Direction → Action
  hist : Option (List ℕ) → Action

-- The function that key_defaults has for the key, or ex_getchar.
unfoldable pub run_key : (List ℕ → Option (ℕ × ℕ)) → Near → Action → Ex → Option Ex
run_key width near (typed key utf8) ex = some (ex_getchar width key utf8 ex)
run_key width near bckspc ex = ex_bckspc width near ex
run_key width near killword ex = ex_killword width near ex
run_key width near killline ex = some (ex_killline ex)
run_key width near (move dir) ex = some (ex_move width near dir ex)
run_key width near (moveline dir) ex = some (ex_moveline width dir ex)
run_key width near (hist ret) ex = some (ex_hist width ret ex)
