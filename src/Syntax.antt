-- ===== src/Syntax.antt =====
-- cmdline.c: the tokenizer of a command line, and the accessors of its tokens. A pointer into the line
-- is an index, and NULL is `none`. Tokens of the tokenizer are strings: `v_string` is the value.
pub mod Tokens
pub mod Parse
mod Tests
use fnav.Prelude.{
  ℕ, zero, suc, ◌+◌, ◌-◌, min, max, Bool, true, false, ◌&&◌, ◌||◌, not, Option, none, some, List,
  [], ◌∷◌, ◌++◌, ltb, ◌==◌, if◌then◌else◌, length, get_elem?, take, drop,
}
use fnav.Text.{byte_at, cut_at}

-- struct Token, with a value of VAR_STRING.
pub record Token : Type 0 where
  pub quoted : Bool
  pub symb : ℕ
  pub start : ℕ
  pub end : ℕ
  pub v_string : List ℕ

-- TOKENCHARS
abbrev pub tokenchars : List ℕ
tokenchars =
    b'~' ∷ b'=' ∷ b'%' ∷ b'$' ∷ b'!' ∷ b'/' ∷ b';' ∷ b':' ∷ b'|' ∷ b'<' ∷ b'>' ∷ b',' ∷ b'[' ∷ b']'
    ∷ b'{' ∷ b'}' ∷ b'(' ∷ b')' ∷ b' ' ∷ []

-- strpbrk(ch, chars) of a string of one byte.
pub is_one_of : List ℕ → ℕ → Bool
is_one_of [] c = false
is_one_of (d ∷ chars) c = (d == c) || is_one_of chars c

-- The bytes in front of the first `c`, or of the NUL: strchrnul.
pub chr_len : List ℕ → ℕ → ℕ
chr_len [] c = 0
chr_len (d ∷ s) c = elim (d == c) [ true ↦ 0 | false ↦ suc (chr_len s c) ]

-- create_token
pub create_token : List Token → List ℕ → ℕ → ℕ → Bool → List Token
create_token ar str st ed q =
    if ltb ed (st + 1)
    then ar
    else ar
      ++ (record {
        quoted = q;
        symb = 0;
        start = st;
        end = ed;
        v_string = take (ed - st) (drop st str);
      }
          ∷ [])

-- The variables of cmdline_tokenize, and the tokens so far.
pub record Lexer : Type 0 where
  pub tokens : List Token
  pub st : ℕ
  pub ed : ℕ
  pub pos : ℕ
  pub esc : Bool

pub start_lexer : Lexer
start_lexer = record { tokens = []; st = 0; ed = 0; pos = 0; esc = false }

-- cmdline_tokenize, the case of a quote that is not escaped, behind `pos++`. The closing quote is
-- at `close`; without one, the token begins at the open quote.
pub lex_quote : List ℕ → ℕ → Lexer → Lexer
lex_quote str ch s =
    let close = s.pos + chr_len (drop s.pos str) ch in
    if byte_at str (close - 1) == 92
    then s
    else if byte_at str close == 0
    then record s {
      tokens = create_token s.tokens str (s.pos - 1) close false;
      st = close;
      pos = close;
    }
    else record s {
      tokens = create_token s.tokens str s.pos close true;
      st = close + 1;
      pos = close + 1;
    }

-- The case of a byte of TOKENCHARS.
pub lex_symbol : List ℕ → ℕ → Lexer → Lexer
lex_symbol str ch s =
    let tokens = create_token s.tokens str s.st s.ed false in
    if ch == 32 then record s { tokens = tokens; st = s.pos } else record s {
      tokens = create_token tokens str (s.pos - 1) s.pos false;
      ed = s.pos;
      st = s.pos;
    }

-- One round of the loop at a byte that is not the NUL.
pub lex_char : List ℕ → ℕ → Lexer → Lexer
lex_char str ch s =
    let t = record s { pos = s.pos + 1 } in
    if ch == 92 && not s.esc
    then record t { esc = true }
    else if (ch == 34 || ch == 39) && not s.esc
    then record (lex_quote str ch t) { esc = false }
    else if is_one_of tokenchars ch && not s.esc
    then record (lex_symbol str ch t) { esc = false }
    else record t { ed = t.pos; esc = false }

-- cmdline_tokenize on fuel: the tokens, and `cmdline->cont`.
pub lex_from : ℕ → List ℕ → Lexer → Option (List Token × Bool)
lex_from zero str s = none
lex_from (suc fuel) str s = elim (byte_at str s.pos == 0) [
  | true ↦ some (create_token s.tokens str s.st s.ed false, s.esc)
  | false ↦ lex_from fuel str (lex_char str (byte_at str s.pos) s)
]

pub cmdline_tokenize : List ℕ → Option (List Token × Bool)
cmdline_tokenize str = lex_from (length str + 1) str start_lexer

-- cmdline_tokbtwn: MAX(0, MIN(ed, end) - MAX(st, start)) > 0 says that the two ranges meet.
pub cmdline_tokbtwn : ℕ → ℕ → List Token → Option Token
cmdline_tokbtwn st ed [] = none
cmdline_tokbtwn st ed (t ∷ ts) = elim (ltb (max st t.start) (min ed t.end)) [
  | true ↦ some t
  | false ↦ cmdline_tokbtwn st ed ts
]

-- list_arg and tok_arg, of a list of strings, and cmdline_tokindex: NULL behind the end.
pub tok_arg : List Token → ℕ → Option Token
tok_arg items argc = if ltb (length items) argc then none else get_elem? items argc

-- cmdline_last
abbrev pub last_token : List Token → Option Token
last_token [] = none
last_token (t ∷ []) = some t
last_token (t ∷ u ∷ ts) = last_token (u ∷ ts)

pub cmdline_last : List Token → Option Token
cmdline_last tokens = if ltb (length tokens) 1 then none else last_token tokens

-- cmdline_line_from of an argument: the index where the line is returned from.
pub cmdline_line_from : ℕ → List Token → ℕ → Option ℕ
cmdline_line_from len args idx = elim (get_elem? args idx) [
  | none ↦ none
  | some word ↦
      if not (ltb word.start len)
      then none
      else if word.start == 0
      then some word.start
      else if word.quoted
      then some (word.start - 1)
      else some word.start
]

-- cmdline_line_after, of `n` tokens.
pub cmdline_line_after : ℕ → ℕ → List Token → ℕ → Option ℕ
cmdline_line_after len n args idx = elim (get_elem? args idx) [
  | none ↦ none
  | some word ↦ if not (ltb idx n) || not (ltb word.end len) then none else some word.end
]

-- cmdline_cont_line: the line up to the end of its last token.
pub cmdline_cont_line : List ℕ → List Token → List ℕ
cmdline_cont_line line tokens = elim (last_token tokens) [
  | none ↦ []
  | some word ↦ cut_at line word.end
]
