-- ===== src/Syntax/Parse.antt =====
-- cmdline.c: the parser behind the tokenizer, of commands, subexpressions, lists, pairs and variables.
-- A token that a command has for an argument is a `Part` with the parts that it holds: the items of
-- a list, or the key and the value of a pair (none as long as they are not set). A command is given
-- with its subexpressions. `word` is a place among the tokens.
pub mod Lines
pub mod Lists
pub mod Loop
pub mod Nested
pub mod Plain
pub mod Variable
use fnav.Prelude.{
  ℕ, zero, suc, ◌+◌, ◌-◌, Bool, true, false, ◌&&◌, ◌||◌, not, Option, none, some, List, [], ◌∷◌,
  ◌++◌, ltb, ◌==◌, if◌then◌else◌, length, get_elem?, set, ℤ, pos, ◌-ℤ◌, ◌+ℤ◌, codes,
}
use fnav.Text.{byte_at}
use fnav.Syntax.{Token, tokenchars, is_one_of}

pub data PartKind : Type 0 where
  var_string var_pair var_list : PartKind

pub record Part : Type 0 where
  pub kind : PartKind
  pub quoted : Bool
  pub symb : ℕ
  pub start : ℕ
  pub end : ℕ
  pub v_string : List ℕ
  pub scope : Bool

pub data Parts : Type 0 where
  no_parts : Parts
  part : (p : Part) (held next : Parts) → Parts

-- struct Cmdstr, with its arguments; its subexpressions stand beside it in `Cmds`.
pub record Cmdstr : Type 0 where
  pub st : ℕ
  pub ed : ℕ
  pub idx : ℤ
  pub bar : Bool
  pub rev : Bool
  pub exec : Bool
  pub args : Parts

pub data Cmds : Type 0 where
  no_cmds : Cmds
  command : (c : Cmdstr) (chlds next : Cmds) → Cmds

-- struct Cmdline, as far as the parser uses it.
pub record Cmdline : Type 0 where
  pub line : List ℕ
  pub tokens : List Token
  pub lvl : ℕ
  pub err : Bool
  pub vars : Parts
  pub arys : List ℕ

-- The variables of one cmdline_parse: the stack has its last entry in front, and under it the list of
-- the arguments.
pub record Parser : Type 0 where
  pub cmd : Cmdstr
  pub chlds : Cmds
  pub stack : List (Part × Parts)
  pub bottom : Parts
  pub idx : ℤ

unfoldable pub append_parts : Parts → Parts → Parts
append_parts no_parts r = r
append_parts (part p h next) r = part p h (append_parts next r)

unfoldable pub n_parts : Parts → ℕ
n_parts no_parts = 0
n_parts (part p h next) = suc (n_parts next)

unfoldable pub append_cmds : Cmds → Cmds → Cmds
append_cmds no_cmds r = r
append_cmds (command c k next) r = command c k (append_cmds next r)

-- A token of the line as an argument.
unfoldable pub part_of : Token → Part
part_of t = record {
  kind = var_string;
  quoted = t.quoted;
  symb = t.symb;
  start = t.start;
  end = t.end;
  v_string = t.v_string;
  scope = false;
}

abbrev pub has_symb : Part → Bool
has_symb p = not (p.symb == 0)

-- cmdline_push_var; `none` is a pair whose parts are not set.
unfoldable pub push_var : Part → Parts → Cmdline → Option Cmdline
push_var p held cl =
    let pushed = record cl { vars = append_parts cl.vars (part p held no_parts) } in
    if p.quoted then some cl else elim p.kind [
      | var_string ↦ some pushed
      | var_list ↦ some cl
      | var_pair ↦ elim held [
        | part key kh (part value vh _) ↦ elim (if p.scope then value.kind else key.kind) [
          | var_string ↦ some pushed
          | _ ↦ some cl
        ]
        | _ ↦ none
      ]
    ]

abbrev pub is_list : PartKind → Bool
is_list var_string = false
is_list var_pair = false
is_list var_list = true

abbrev pub is_pair : PartKind → Bool
is_pair var_string = false
is_pair var_pair = true
is_pair var_list = false

-- stack_prevprev: the entry above the list of the arguments.
unfoldable pub lowest : List (Part × Parts) → Option Part
lowest [] = none
lowest (e ∷ []) = some e.0
lowest (e ∷ f ∷ s) = lowest (f ∷ s)

-- The pair above the arguments gets its key and its value.
unfoldable pub set_lowest : Part → Parts → Part → Parts → List (Part × Parts) → List (Part × Parts)
set_lowest k kh v vh [] = []
set_lowest k kh v vh (e ∷ []) = (record (e.0) { end = v.end }, part k kh (part v vh no_parts)) ∷ []
set_lowest k kh v vh (e ∷ f ∷ s) = e ∷ set_lowest k kh v vh (f ∷ s)

abbrev pub next_idx : Parser → Parser
next_idx ps = record ps { idx = ps.idx +ℤ pos 1 }

-- The end of `pop` for a pair: it goes to the list below it.
unfoldable pub pop_pair : Part → Cmdline × Parser → Option (Cmdline × Parser)
pop_pair key (cl, ps) = elim ps.stack [
  | [] ↦ none
  | (token, held) ∷ rest ↦
      if has_symb key
      then elim (push_var token held cl) [
        | none ↦ none
        | some cl' ↦ some (cl', record ps { stack = rest })
      ]
      else elim rest [
        | [] ↦ some (
          cl,
          next_idx (record ps {
            stack = [];
            bottom = append_parts ps.bottom (part token held no_parts);
          }),
        )
        | (parent, items) ∷ below ↦
            if is_list parent.kind
            then some (
              cl,
              next_idx (record ps {
                stack = (parent, append_parts items (part token held no_parts)) ∷ below;
              }),
            )
            else none
      ]
]

-- push and pop of one token; the list of the arguments is the last parent.
unfoldable pub pop : Part → Parts → Cmdline × Parser → Option (Cmdline × Parser)
pop token held (cl, ps) = elim ps.stack [
  | [] ↦
      if has_symb token
      then elim (push_var token held cl) [ none ↦ none | some cl' ↦ some (cl', ps) ]
      else some
          (cl, next_idx (record ps { bottom = append_parts ps.bottom (part token held no_parts) }))
  | (parent, items) ∷ below ↦
      if is_list parent.kind
      then if has_symb token
        then elim (push_var token held cl) [ none ↦ none | some cl' ↦ some (cl', ps) ]
        else some (
          cl,
          next_idx (record ps {
            stack =
                (record parent { end = token.end }, append_parts items (part token held no_parts))
                ∷ below;
          }),
        )
      else elim (lowest ps.stack) [
        | none ↦ none
        | some low ↦
            if is_pair low.kind
            then pop_pair parent
                (cl, record ps { stack = set_lowest parent items token held below })
            else some (cl, next_idx ps)
      ]
]
