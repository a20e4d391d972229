-- ===== src/Syntax/Parse/Loop.antt =====
-- cmdline.c: the loops of cmdline_parse and cmdline_build, over the tokens of a line.
use fnav.Prelude.{
  ℕ, zero, suc, ◌+◌, ◌-◌, Bool, true, false, ◌&&◌, ◌||◌, not, Option, none, some, List, [], ◌∷◌,
  ◌++◌, ltb, ◌==◌, if◌then◌else◌, length, get_elem?, set, ℤ, pos, ◌-ℤ◌, codes,
}
use fnav.Text.{byte_at}
use fnav.Syntax.{Token, tokenchars, is_one_of}
use fnav.Syntax.Parse.{
  Part, Cmds, Cmdline, Parser, n_parts, append_cmds, part_of, is_list, pop, var_pair, var_list,
  no_parts, no_cmds, command,
}

abbrev pub first_is : ℕ → Option Token → Bool
first_is c none = false
first_is c (some t) = byte_at t.v_string 0 == c

-- The head of the stack is a list, the arguments among them.
unfoldable pub head_is_list : Parser → Bool
head_is_list ps = elim ps.stack [ [] ↦ true | (p, h) ∷ s ↦ is_list p.kind ]

-- seek_ahead: a pair is pushed in front of its key.
unfoldable pub is_key : Cmdline → Parser → ℕ → Bool
is_key cl ps i = head_is_list ps && first_is b':' (get_elem? cl.tokens (suc i))

unfoldable pub new_pair : Cmdline → Token → Part
new_pair cl t = record {
  kind = var_pair;
  quoted = false;
  symb = 0;
  start = t.start;
  end = 0;
  v_string = [];
  scope = byte_at cl.line (t.end + 1) == b':';
}

-- The default case: the token at `i`.
unfoldable pub take_word : ℕ → Token → Cmdline × Parser → Option (Cmdline × Parser)
take_word i t (cl, ps) =
    if is_key cl ps i
    then some
        (cl, record ps { stack = (part_of t, no_parts) ∷ (new_pair cl t, no_parts) ∷ ps.stack })
    else pop (part_of t) no_parts (cl, ps)

unfoldable pub new_list : Token → Part
new_list t = record {
  kind = var_list;
  quoted = false;
  symb = 0;
  start = t.start;
  end = 0;
  v_string = [];
  scope = false;
}

-- The case of `]`, with valid_arry and push_arry_container.
unfoldable pub close_list : ℕ → Token → Cmdline × Parser → Option (Cmdline × Parser)
close_list i t (cl, ps) = elim ps.stack [
  | [] ↦ some (record cl { err = true }, ps)
  | (p, items) ∷ below ↦
      if not (is_list p.kind)
      then some (record cl { err = true }, ps)
      else elim (get_elem? cl.tokens (suc i)) [
        | none ↦ pop (record p { end = t.end }) items (cl, record ps { stack = below })
        | some next ↦
            let touches = next.start == t.end && byte_at next.v_string 0 == b'[' in
            let arys = if touches then cl.arys ++ (n_parts ps.bottom ∷ []) else cl.arys in
            pop (record p { end = t.end }) items
              (record cl { arys = arys }, record ps { stack = below })
      ]
]

-- EXPANCHARS
abbrev pub expanchars : List ℕ
expanchars = codes "%!?$"

-- strpbrk(str, chars) finds a byte.
unfoldable pub has_one_of : List ℕ → List ℕ → Bool
has_one_of chars [] = false
has_one_of chars (c ∷ s) = is_one_of chars c || has_one_of chars s

-- valid_var: the token behind the symbol at `i` is the variable.
unfoldable pub is_var : Cmdline → ℕ → Token → Bool
is_var cl i t = elim (get_elem? cl.tokens (suc i)) [
  | none ↦ false
  | some next ↦
      (next.start == t.end)
      && (has_one_of expanchars next.v_string || not (has_one_of tokenchars next.v_string))
]

unfoldable pub mark_var : Cmdline → ℕ → ℕ → Cmdline
mark_var cl i ch = elim (get_elem? cl.tokens i) [
  | none ↦ cl
  | some t ↦ record cl { tokens = set cl.tokens i (record t { symb = ch }) }
]

-- valid_exec: the token at 1, if it touches the first.
unfoldable pub touches_first : Cmdline → ℕ → Token → Bool
touches_first cl i t =
    (i == 1) && elim (get_elem? cl.tokens 0) [ none ↦ false | some prev ↦ prev.end == t.start ]

-- The case of `!`, for the token at `i`: a variable comes to it too.
unfoldable pub exec_or_word : ℕ → Token → Cmdline × Parser → Option (Cmdline × Parser)
exec_or_word i t (cl, ps) =
    let rev = if i == 1 then touches_first cl i t else ps.cmd.rev in
    let ps' = record ps { cmd = record (ps.cmd) { rev = rev } } in
    if touches_first cl i t then some (cl, ps') else take_word i t (cl, ps')

-- How a round of the loop ends: at the token of a place, by leaving the loop, or by a subexpression.
pub data Round : Type 0 where
  goes_on : (i : ℕ) (s : Cmdline × Parser) → Round
  leaves : (s : Cmdline × Parser) → Round
  enters : Round

abbrev pub at_word : ℕ → Option (Cmdline × Parser) → Option Round
at_word i none = none
at_word i (some s) = some (goes_on i s)

-- The switch, for a token that is not quoted.
unfoldable pub switch : ℕ → Token → Cmdline × Parser → Option Round
switch i t (cl, ps) =
    let ch = byte_at t.v_string 0 in
    if ch == b'('
    then some enters
    else if ch == b')'
    then some (
        if ltb cl.lvl 1
        then goes_on i (cl, ps)
        else leaves
            (record cl { lvl = cl.lvl - 1 }, record ps { cmd = record (ps.cmd) { ed = t.start } }))
    else if ch == b'['
    then some (goes_on i (cl, record ps { stack = (new_list t, no_parts) ∷ ps.stack }))
    else if ch == b']'
    then at_word i (close_list i t (cl, ps))
    else if ch == b'|'
    then some (
        if ltb cl.lvl 1
        then leaves (cl, record ps { cmd = record (ps.cmd) { bar = true; ed = t.start } })
        else goes_on i (cl, ps))
    else if (ch == b'.') || (ch == b':') || (ch == b',')
    then some (goes_on i (cl, ps))
    else if (ch == b'%') || (ch == b'$')
    then if is_var cl i t
      then elim (get_elem? cl.tokens (suc i)) [
        | none ↦ none
        | some next ↦
            at_word (suc i)
              (exec_or_word (suc i) (record next { symb = ch }) (mark_var cl (suc i) ch, ps))
      ]
      else at_word i (exec_or_word i t (cl, ps))
    else if ch == b'!'
    then at_word i (exec_or_word i t (cl, ps))
    else at_word i (take_word i t (cl, ps))

unfoldable pub round : ℕ → Token → Cmdline × Parser → Option Round
round i t s = if t.quoted then at_word i (pop (part_of t) no_parts s) else switch i t s

-- check_flags; `conditional` is cmd_conditional().
unfoldable pub check_flags : Bool → Cmdline → Bool
check_flags conditional cl = first_is b'!' (get_elem? cl.tokens 0) && not conditional

unfoldable pub start_parser : Bool → Cmdline → ℕ → Parser
start_parser conditional cl st = record {
  cmd = record {
    st = st;
    ed = 0;
    idx = pos 0;
    bar = false;
    rev = false;
    exec = check_flags conditional cl;
    args = no_parts;
  };
  chlds = no_cmds;
  stack = [];
  bottom = no_parts;
  idx = pos 0;
}

-- `utarray_back(cmd.chlds)->idx = idx - 1`
unfoldable pub set_back_idx : ℤ → Cmds → Cmds
set_back_idx idx no_cmds = no_cmds
set_back_idx idx (command c k no_cmds) = command (record c { idx = idx }) k no_cmds
set_back_idx idx (command c k (command d l next)) =
    command c k (set_back_idx idx (command d l next))

-- The command that a cmdline_parse gives its parent.
unfoldable pub finish : Parser → Cmds
finish ps = command (record (ps.cmd) { args = ps.bottom }) ps.chlds no_cmds

-- cmdline_parse on fuel, from the token at `i` on: the command, and where it has left the loop, if not
-- behind the last token. `none` is the end of the fuel, or a fault.
unfoldable pub parse_loop : ℕ → Bool → ℕ → Cmdline × Parser → Option (Cmds × (Cmdline × Option ℕ))
parse_loop zero q i s = none
parse_loop (suc fuel) q i (cl, ps) = elim (get_elem? cl.tokens i) [
  | none ↦ some (finish ps, (cl, none))
  | some t ↦ elim (round i t (cl, ps)) [
    | none ↦ none
    | some (goes_on j s) ↦ parse_loop fuel q (suc j) s
    | some (leaves (cl', ps')) ↦ some (finish ps', (cl', some i))
    | some enters ↦
        let sub = record cl { lvl = suc cl.lvl } in
        elim (parse_loop fuel q (suc i) (sub, start_parser q sub t.start)) [
          | none ↦ none
          | some (chld, (cl', w)) ↦
              let chlds = set_back_idx (ps.idx -ℤ pos 1) (append_cmds ps.chlds chld) in
              let ps' = record ps { chlds = chlds } in
              elim w [
                | none ↦ some (finish ps', (cl', none))
                | some j ↦ parse_loop fuel q (suc j) (cl', ps')
              ]
        ]
  ]
]

-- How cmdline_build goes on with what a cmdline_parse gives: `again` is the next round of its loop.
unfoldable pub after_command :
    (ℕ → ℕ → Cmds → Cmdline → Option (Cmds × Cmdline))
    → Cmds
    → Option (Cmds × (Cmdline × Option ℕ))
    → Option (Cmds × Cmdline)
after_command again cmds none = none
after_command again cmds (some (cmd, (cl, none))) = some (append_cmds cmds cmd, cl)
after_command again cmds (some (cmd, (cl, some w))) = elim (get_elem? cl.tokens w) [
  | none ↦ none
  | some t ↦ again (suc w) t.start (append_cmds cmds cmd) cl
]

-- The loop of cmdline_build, on fuel: commands until a cmdline_parse ends behind the last token. `i` is
-- the token it begins with, and `st` the start of the one in front.
unfoldable pub build_loop : ℕ → Bool → ℕ → ℕ → Cmds → Cmdline → Option (Cmds × Cmdline)
build_loop zero q i st cmds cl = none
build_loop (suc fuel) q i st cmds cl =
    after_command (build_loop fuel q) cmds
      (parse_loop (suc (length cl.tokens)) q i (cl, start_parser q cl st))

unfoldable pub start_line : List ℕ → List Token → Cmdline
start_line line tokens = record {
  line = line;
  tokens = tokens;
  lvl = 0;
  err = false;
  vars = no_parts;
  arys = [];
}

-- cmdline_build, behind the tokenizer.
unfoldable pub cmdline_build : Bool → List ℕ → List Token → Option (Cmds × Cmdline)
cmdline_build conditional line tokens =
    build_loop (suc (length tokens)) conditional 0 0 no_cmds (start_line line tokens)
