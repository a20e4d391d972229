-- ===== src/Syntax/Parse/Plain.antt =====
-- cmdline.c: rounds of the parser at words, quoted strings and bars, and what the loops make of them.
use fnav.Prelude.{
  length-append, ℕ, suc, Bool, true, false, ◌&&◌, ◌||◌, not, Option, none, some, List, [], ◌∷◌,
  ◌++◌, ◌==◌, length, get_elem?, ◌≡◌, ◌<◌, refl, ap, ◌∙◌, ℤ, pos, ◌+ℤ◌, arith, Bool-cases, inl, inr,
}
use fnav.Text.{byte_at}
use fnav.Syntax.{Token}
use fnav.Syntax.Parse.{
  Parts, Cmdstr, Cmds, Cmdline, Parser, append_parts, append_cmds, part_of, pop, no_parts, part,
  no_cmds, command,
}
use fnav.Syntax.Parse.Loop.{
  goes_on, leaves, round, switch, at_word, take_word, is_key, first_is, finish, parse_loop,
  after_command, build_loop, start_parser,
}

-- The first byte of a token.
abbrev pub first : Token → ℕ
first t = byte_at t.v_string 0

unfoldable pub is_bar : Token → Bool
is_bar t = not t.quoted && (first t == b'|')

-- A byte that the switch has a case for.
unfoldable pub is_special : ℕ → Bool
is_special c =
    (c == b'(')
    || (c == b')')
    || (c == b'[')
    || (c == b']')
    || (c == b'|')
    || (c == b'.')
    || (c == b':')
    || (c == b',')
    || (c == b'%')
    || (c == b'$')
    || (c == b'!')

unfoldable pub is_plain : Token → Bool
is_plain t = (t.symb == 0) && not (first t == b':') && (t.quoted || not (is_special (first t)))

pub add_part : Token → Parts → Parts
add_part t ws = append_parts ws (part (part_of t) no_parts no_parts)

unfoldable pub cmds_list : Cmds → List (Parts × Cmds × Bool)
cmds_list no_cmds = []
cmds_list (command c chlds next) = (c.args, chlds, c.bar) ∷ cmds_list next

-- A parser between two arguments.
abbrev pub parser_at : Cmdstr → Parts → ℤ → Parser
parser_at c ws n = record { cmd = c; chlds = no_cmds; stack = []; bottom = ws; idx = n }

pub switch_word :
    (i : ℕ) (t : Token) (s : Cmdline × Parser)
    → is_special (first t) ≡ false
    → switch i t s ≡ at_word i (take_word i t s)
unfolding switch is_special
switch_word i t (cl, ps) h = ground arith

append_cmds_assoc :
    (a b c : Cmds) → append_cmds (append_cmds a b) c ≡ append_cmds a (append_cmds b c)
unfolding append_cmds
append_cmds_assoc no_cmds b c = refl
append_cmds_assoc (command d k a) b c = ap (command d k) (append_cmds_assoc a b c)

pop_plain :
    (cl : Cmdline) (c : Cmdstr) (ws : Parts) (n : ℤ) (t : Token)
    → t.symb ≡ 0
    → pop (part_of t) no_parts (cl, parser_at c ws n)
      ≡ some (cl, parser_at c (add_part t ws) (n +ℤ pos 1))
unfolding pop part_of add_part
pop_plain cl c ws n t h = ground arith

pub take_plain :
    (i : ℕ) (t : Token) (cl : Cmdline) (ps : Parser)
    → first_is b':' (get_elem? cl.tokens (suc i)) ≡ false
    → take_word i t (cl, ps) ≡ pop (part_of t) no_parts (cl, ps)
unfolding take_word is_key
take_plain i t cl ps h = ground arith

pub round_quoted :
    (i : ℕ) (t : Token) (s : Cmdline × Parser)
    → t.quoted ≡ true
    → round i t s ≡ at_word i (pop (part_of t) no_parts s)
unfolding round
round_quoted i t s h = ground arith

pub round_unquoted :
    (i : ℕ) (t : Token) (s : Cmdline × Parser) → t.quoted ≡ false → round i t s ≡ switch i t s
unfolding round
round_unquoted i t s h = ground arith

pub plain_symb : (t : Token) → is_plain t ≡ true → t.symb ≡ 0
unfolding is_plain
plain_symb t h = ground arith

pub plain_special :
    (t : Token) → is_plain t ≡ true → t.quoted ≡ false → is_special (first t) ≡ false
unfolding is_plain
plain_special t h e = ground arith

-- A plain token goes to the arguments.
pub round_plain :
    (cl : Cmdline) (c : Cmdstr) (ws : Parts) (n : ℤ) (i : ℕ) (t : Token)
    → is_plain t ≡ true
    → first_is b':' (get_elem? cl.tokens (suc i)) ≡ false
    → round i t (cl, parser_at c ws n)
      ≡ some (goes_on i (cl, parser_at c (add_part t ws) (n +ℤ pos 1)))
round_plain cl c ws n i t h nx =
    let popped = ap (at_word i) (pop_plain cl c ws n t (plain_symb t h)) in
    elim (Bool-cases t.quoted) [
      | inl e ↦ round_quoted i t (cl, parser_at c ws n) e ∙ popped
      | inr e ↦
          round_unquoted i t (cl, parser_at c ws n) e
          ∙ switch_word i t (cl, parser_at c ws n) (plain_special t h e)
          ∙ ap (at_word i) (take_plain i t cl (parser_at c ws n) nx)
          ∙ popped
    ]

pub round_bar :
    (cl : Cmdline) (ps : Parser) (i : ℕ) (t : Token)
    → is_bar t ≡ true
    → cl.lvl ≡ 0
    → round i t (cl, ps)
      ≡ some (leaves (cl, record ps { cmd = record (ps.cmd) { bar = true; ed = t.start } }))
unfolding round is_bar switch
round_bar cl ps i t h z = ground arith

module _ (q : Bool) where
  pub loop_goes :
      (fuel i j : ℕ) (cl : Cmdline) (ps : Parser) (t : Token) (s : Cmdline × Parser)
      → get_elem? cl.tokens i ≡ some t
      → round i t (cl, ps) ≡ some (goes_on j s)
      → parse_loop (suc fuel) q i (cl, ps) ≡ parse_loop fuel q (suc j) s
  unfolding parse_loop
  loop_goes fuel i j cl ps t s at r = rw (parse_loop, at, r) refl

  pub loop_leaves :
      (fuel i : ℕ) (cl cl' : Cmdline) (ps ps' : Parser) (t : Token)
      → get_elem? cl.tokens i ≡ some t
      → round i t (cl, ps) ≡ some (leaves (cl', ps'))
      → parse_loop (suc fuel) q i (cl, ps) ≡ some (finish ps', (cl', some i))
  unfolding parse_loop
  loop_leaves fuel i cl cl' ps ps' t at r = rw (parse_loop, at, r) refl

  pub loop_ends :
      (fuel i : ℕ) (cl : Cmdline) (ps : Parser)
      → get_elem? cl.tokens i ≡ none
      → parse_loop (suc fuel) q i (cl, ps) ≡ some (finish ps, (cl, none))
  unfolding parse_loop
  loop_ends fuel i cl ps at = rw (parse_loop, at) refl

  pub again_at :
      (f w : ℕ) (cmds cmd : Cmds) (cl : Cmdline) (t : Token)
      → get_elem? cl.tokens w ≡ some t
      → after_command (build_loop (suc f) q) cmds (some (cmd, (cl, some w)))
        ≡ after_command
            (build_loop f q)
            (append_cmds cmds cmd)
            (parse_loop (suc (length cl.tokens)) q (suc w) (cl, start_parser q cl t.start))
  unfolding after_command build_loop
  again_at f w cmds cmd cl t at = rw (after_command, at) refl

-- What the loop adds to the commands, and that nothing else of the line changes.
unfoldable pub Built :
    Option (Cmds × Cmdline) → Cmds → Cmdline → List (Parts × Cmds × Bool) → Type 0
Built r cmds cl spec = (new : Cmds) × (r ≡ some (append_cmds cmds new, cl)) × (cmds_list new ≡ spec)

-- What the loop leaves behind an argument or a bar comes in front of the rest.
pub Built-after :
    (r : Option (Cmds × Cmdline)) (cmds : Cmds) (cl : Cmdline) (c : Cmdstr) (ws : Parts)
    (spec : List (Parts × Cmds × Bool))
    → Built r (append_cmds cmds (command (record c { args = ws }) no_cmds no_cmds)) cl spec
    → Built r cmds cl ((ws, no_cmds, c.bar) ∷ spec)
unfolding cmds_list append_cmds Built
Built-after r cmds cl c ws spec (new, e, v) =
    let one = command (record c { args = ws }) no_cmds no_cmds in
    (
      append_cmds one new,
      e ∙ ap (λ x. some (x, cl)) (append_cmds_assoc cmds one new),
      ap ((ws, no_cmds, c.bar) ∷◌) v,
    )

pub fits :
    (cl : Cmdline) (pre ts : List Token)
    → cl.tokens ≡ pre ++ ts
    → length ts < suc (length cl.tokens)
fits cl pre ts e = rw (e, length-append pre ts) (omega arith)

pub Built-end :
    (cmds : Cmds) (cl : Cmdline) (c : Cmdstr) (ws : Parts)
    (again : ℕ → ℕ → Cmds → Cmdline → Option (Cmds × Cmdline))
    (r : Option (Cmds × (Cmdline × Option ℕ)))
    → r ≡ some (command (record c { args = ws }) no_cmds no_cmds, (cl, none))
    → c.bar ≡ false
    → Built (after_command again cmds r) cmds cl ((ws, no_cmds, false) ∷ [])
unfolding Built after_command cmds_list
Built-end cmds cl c ws again r e b = (
  command (record c { args = ws }) no_cmds no_cmds,
  ap (after_command again cmds) e,
  ap (λ x. (ws, no_cmds, x) ∷ []) b,
)
