-- ===== src/Script.antt =====
-- cmd.c: the script state `nvs`, the recording of if-blocks on its tape, and their execution.
-- A pointer into the tape is an index; `childs` of a node are the entries whose `parent` is that
-- node, in the order in which they were pushed, so STAILQ_FIRST and STAILQ_NEXT search by parent.
-- The effect of a command line and of a condition on the rest of the program is a parameter: an
-- environment `E` with `run` for `cmd_do` and `cond` for `cond_do`. `none` is a fault.
pub mod Tape
pub mod Blocks
pub mod Nesting
pub mod Recording
pub mod Hang
pub mod Callstack
pub mod Commands
mod Tests
use fnav.Prelude.{
  ◌>>=◌, ℕ, zero, suc, ◌+◌, ◌-◌, ◌%◌, Bool, true, false, ◌&&◌, ◌||◌, not, Option, none, some, List,
  [], ◌∷◌, ◌++◌, ltb, ◌==◌, if◌then◌else◌, length, get_elem?, drop, ℤ, pos, negsuc, ◌+ℤ◌, ◌-ℤ◌,
  ltb_ℤ,
}

-- enum CTLCMD; CTL_FUNC is never the type of an entry.
pub data Ctl : Type 0 where
  nop if_ elseif else_ end : Ctl

-- `&nvs.root`, or an entry of the tape.
pub data Node : Type 0 where
  root : Node
  at : ℕ → Node

-- struct Symb, without `childs` and `ent`; `end_at` is the pointer `end`, NULL or an entry.
pub record Symb : Type 0 where
  pub type : Ctl
  pub st : ℕ
  pub parent : Node
  pub end_at : Option ℕ
  pub line : List ℕ

-- The fields of struct Script that the control commands use. `tape` is the used part, up to `pos`;
-- behind it the entries are zeroed, but for pointers `end` that were written there, which are
-- `ahead`: pairs of an entry and what it points at, the latest first.
pub record Nvs : Type 0 where
  pub tape : List Symb
  pub ahead : List (ℕ × ℕ)
  pub cur : Node
  pub root_st : ℕ
  pub lvl : ℤ
  pub maxpos : ℕ
  pub opendef : Bool
  pub def_lines : List (List ℕ)
  pub defined : List (List (List ℕ))
  pub error : Bool

-- BUFSIZ of the C library.
abbrev pub bufsiz : ℕ
bufsiz = 8192

-- cmd_reset. `root` is not zeroed: `root.st` stays.
pub cmd_reset : Nvs → Nvs
cmd_reset s = record {
  tape = [];
  ahead = [];
  cur = root;
  root_st = s.root_st;
  lvl = pos 0;
  maxpos = bufsiz;
  opendef = s.opendef && not s.error;
  def_lines = [];
  defined = s.defined;
  error = false;
}

-- cmd_flush; `lvlcont` says that a `(` is open.
pub cmd_flush : Bool → Nvs → Nvs
cmd_flush lvlcont s = cmd_reset (record s { error = ltb_ℤ (pos 0) s.lvl || lvlcont })

-- IS_READ and IS_SEEK
abbrev pub is_seek : Nvs → Bool
is_seek s = ltb_ℤ (pos 0) s.lvl && not s.opendef

-- The pointer `end` of an entry that is not used yet.
pub end_ahead : ℕ → List (ℕ × ℕ) → Option ℕ
end_ahead i [] = none
end_ahead i ((j, e) ∷ w) = if j == i then some e else end_ahead i w

-- stack_push. At `pos + 2 > maxpos` the tape is reallocated, under the pointers into it that `cur`,
-- `parent`, `end` and `childs` hold: a fault.
pub stack_push : Ctl → ℕ → List ℕ → Nvs → Option Nvs
stack_push type st line s =
    if ltb s.maxpos (length s.tape + 1)
    then none
    else some (record s {
      tape =
          s.tape
          ++ (record {
            type = type;
            st = st;
            parent = s.cur;
            end_at = end_ahead (length s.tape) s.ahead;
            line = line;
          }
              ∷ []);
    })

-- read_line
abbrev pub read_line : List ℕ → Nvs → Nvs
read_line line s = record s { def_lines = s.def_lines ++ (line ∷ []) }

-- node->parent and node->st; the parent of the root is the root.
abbrev pub parent_of : List Symb → Node → Option Node
parent_of tape root = some root
parent_of tape (at i) = elim (get_elem? tape i) [ none ↦ none | some x ↦ some x.parent ]

abbrev pub st_of : Nvs → Node → Option ℕ
st_of s root = some s.root_st
st_of s (at i) = elim (get_elem? s.tape i) [ none ↦ none | some x ↦ some x.st ]

pub modify : (Symb → Symb) → ℕ → List Symb → List Symb
modify f i [] = []
modify f zero (x ∷ xs) = f x ∷ xs
modify f (suc i) (x ∷ xs) = x ∷ modify f i xs

abbrev pub set_st : Node → ℕ → Nvs → Nvs
set_st root st s = record s { root_st = st }
set_st (at i) st s = record s { tape = modify (λ x. record x { st = st }) i s.tape }

-- cmd_ifblock; `line` is the whole line, and `rest` what follows its first word. The test
-- `!IS_SEEK` behind `++nvs.lvl` calls cmd_flush.
pub cmd_ifblock : List ℕ → List ℕ → Nvs → Option Nvs
cmd_ifblock line rest s = do
  let t = record s { lvl = s.lvl +ℤ pos 1 }
  if t.opendef then some (read_line line t) else do
    let u = if is_seek t then t else cmd_flush false t
    let i = length u.tape
    v ← stack_push if_ i rest u
    some (record v { cur = at i })

-- cmd_elseifblock and cmd_elseblock, which differ in the type that they set.
pub cmd_elseblock : Ctl → List ℕ → List ℕ → Nvs → Option Nvs
cmd_elseblock type line rest s = if s.opendef then some (read_line line s) else do
  st ← st_of s s.cur
  up ← parent_of s.tape s.cur
  let t = set_st up st (record s { cur = up })
  let i = length t.tape
  u ← stack_push type 0 rest t
  some (record u { cur = at i })

-- The entry that closes a block, at the end of the tape, and the pointer of the block's first entry.
pub close_block : Nvs → Option Nvs
close_block s = do
  up ← parent_of s.tape s.cur
  let t = record s { cur = up }
  let i = length t.tape
  st ← st_of t up
  u ← stack_push end 0 [] t
  if ltb st (length u.tape)
      then some (record u { tape = modify (λ x. record x { end_at = some i }) st u.tape })
      else some (record u { ahead = (st, i) ∷ u.ahead })

-- The first entry from `i` on whose parent is `n`.
abbrev pub node_eq : Node → Node → Bool
node_eq root root = true
node_eq root (at j) = false
node_eq (at i) root = false
node_eq (at i) (at j) = i == j

pub find_from : ℕ → Node → List Symb → Option ℕ
find_from i n [] = none
find_from i n (x ∷ xs) = elim (node_eq x.parent n) [
  | true ↦ some i
  | false ↦ find_from (suc i) n xs
]

-- STAILQ_FIRST(&n->childs) and STAILQ_NEXT(&tape[i], ent).
abbrev pub first_child : List Symb → Node → Option ℕ
first_child tape n = find_from 0 n tape

abbrev pub next_sibling : List Symb → ℕ → Node → Option ℕ
next_sibling tape i n = find_from (suc i) n (drop (suc i) tape)

abbrev pub end_of : List Symb → Node → Option ℕ
end_of tape root = none
end_of tape (at i) = get_elem? tape i >>= λ x. x.end_at

-- cmd_next
pub cmd_next : List Symb → ℕ → Node → Option ℕ
cmd_next tape i up = elim (next_sibling tape i up) [ none ↦ end_of tape up | some j ↦ some j ]

-- cmd_funcblock, at the name of the function, if the line has one. `rev` says that the parameter
-- list follows the name at once; without it the command only prints.
pub cmd_funcblock : Bool → Bool → Nvs → Nvs
cmd_funcblock named rev s =
    if not named || (s.opendef || is_seek s)
    then record s { error = true }
    else if rev
    then record s { lvl = s.lvl +ℤ pos 1; def_lines = []; opendef = true }
    else s

-- A line of a script as cmd_eval meets it: a control line, with what follows its first word, or any
-- other line.
pub data Event : Type 0 where
  begin orif other : List ℕ → List ℕ → Event
  close text : List ℕ → Event

-- The state behind cmd_init.
pub start_nvs : Nvs
start_nvs = record {
  tape = [];
  ahead = [];
  cur = root;
  root_st = 0;
  lvl = pos 0;
  maxpos = bufsiz;
  opendef = false;
  def_lines = [];
  defined = [];
  error = false;
}

-- cond_do answers nothing on an error, which sets `nvs.error`.
module _ {ℓ} {E : Type ℓ} (run : List ℕ → E → E) (cond : List ℕ → E → Option Bool × E) where
  -- The cases CTL_IF and CTL_ELSEIF, at what the condition answers.
  pub branch : List Symb → ℕ → Symb → Option Bool × E → Option ℕ × Bool × E
  branch tape i x (none, e) = (none, true, e)
  branch tape i x (some true, e) = (first_child tape (at i), false, e)
  branch tape i x (some false, e) = (cmd_next tape i x.parent, false, e)

  -- One round of the loop of cmd_start at the entry `i`: the next entry, if any, `nvs.error`, and
  -- the effect.
  pub cmd_step : List Symb → ℕ → Symb → E → Option ℕ × Bool × E
  cmd_step tape i x e = elim x.type [
    | nop ↦ (cmd_next tape i x.parent, false, run x.line e)
    | if_ ↦ branch tape i x (cond x.line e)
    | elseif ↦ branch tape i x (cond x.line e)
    | else_ ↦ (first_child tape (at i), false, e)
    | end ↦ (elim x.parent [ root ↦ none | at _ ↦ some (suc i) ], false, e)
  ]

  -- The loop of cmd_start on fuel, from the entry `it`. An entry behind the tape is zeroed, and
  -- its line is NULL: a fault, as is the end of the fuel.
  pub cmd_loop : ℕ → List Symb → Option ℕ → E → Option (Bool × E)
  cmd_loop fuel tape none e = some (false, e)
  cmd_loop zero tape (some i) e = none
  cmd_loop (suc fuel) tape (some i) e = elim (get_elem? tape i) [
    | none ↦ none
    | some x ↦
        let (it, err, e') = cmd_step tape i x e in
        elim err [ true ↦ some (true, e') | false ↦ cmd_loop fuel tape it e' ]
  ]

  -- cmd_start
  pub cmd_start : List Symb → E → Option (Bool × E)
  cmd_start tape e = cmd_loop (length tape) tape (first_child tape root) e

  -- cmd_endblock
  pub cmd_endblock : List ℕ → Nvs × E → Option (Nvs × E)
  cmd_endblock line (s, e) =
      let t = record s { lvl = s.lvl -ℤ pos 1 } in
      if t.opendef
      then (if not (ltb_ℤ (pos 0) t.lvl || ltb_ℤ t.lvl (pos 0))
          then some (
            cmd_flush false
                (record t { opendef = false; defined = t.defined ++ (t.def_lines ∷ []) }),
            e,
          )
          else some (read_line line t, e))
      else do
        u ← close_block t
        if is_seek u
            then some (u, e)
            else do (err, e') ← cmd_start u.tape e; some (record u { lvl = pos 0; error = err }, e')

  -- cmd_eval: a line that is no control line is executed, read into the open definition, or pushed.
  pub eval_text : List ℕ → Nvs × E → Option (Nvs × E)
  eval_text line (s, e) =
      if s.opendef
      then some (read_line line s, e)
      else if is_seek s
      then (stack_push nop 0 line s >>= λ t. some (t, e))
      else some (s, run line e)

  pub eval_event : Event → Nvs × E → Option (Nvs × E)
  eval_event (begin line rest) (s, e) = cmd_ifblock line rest s >>= λ t. some (t, e)
  eval_event (orif line rest) (s, e) = cmd_elseblock elseif line rest s >>= λ t. some (t, e)
  eval_event (other line rest) (s, e) = cmd_elseblock else_ line rest s >>= λ t. some (t, e)
  eval_event (close line) s = cmd_endblock line s
  eval_event (text line) s = eval_text line s

  -- cmd_eval: nothing is evaluated behind an error.
  pub cmd_eval : Event → Nvs × E → Option (Nvs × E)
  cmd_eval ev (s, e) = if s.error then some (s, e) else eval_event ev (s, e)

  -- The lines of a file, in order.
  pub cmd_evals : List Event → Nvs × E → Option (Nvs × E)
  cmd_evals [] s = some s
  cmd_evals (ev ∷ evs) s = elim (cmd_eval ev s) [ none ↦ none | some t ↦ cmd_evals evs t ]
