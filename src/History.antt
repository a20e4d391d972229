-- ===== src/History.antt =====
-- tui/history.c: the two histories of the command line, commands and searches. An item of the TAILQ
-- is a line with an identity, its address: `cur` points at an item, and a pointer to an item that
-- was freed is found in no list. `none` is a fault: a NULL or freed item is dereferenced.
-- The option "history" is the field `limit`, since `:set` can change it between two calls.
pub mod Order
pub mod Keeps
pub mod Calls
pub mod Walk
pub mod Session
mod Tests
use fnav.Prelude.{
  ℕ, suc, ◌+◌, ◌-◌, Bool, true, false, ◌&&◌, ◌||◌, Option, none, some, List, [], ◌∷◌, ◌++◌, ltb,
  ◌==◌, if◌then◌else◌, str_eq,
}

pub record Item : Type 0 where
  pub id : ℕ
  pub line : List ℕ

-- struct nv_hist
pub record Hist : Type 0 where
  pub p : List Item
  pub cur : Option ℕ
  pub count : ℕ
  pub max : ℕ

-- Which history the file's `cur` points at.
pub data Which : Type 0 where
  cmds regs : Which

pub record Histories : Type 0 where
  pub cmd_hist : Hist
  pub reg_hist : Hist
  pub which : Which
  pub next_id : ℕ
  pub limit : ℕ

-- hist_new
pub hist_new : ℕ → Hist
hist_new limit = record { p = []; cur = none; count = 0; max = limit }

-- hist_init; the file's `cur` is NULL until `hist_set_state`, which each caller calls first.
pub hist_init : ℕ → Histories
hist_init limit = record {
  cmd_hist = hist_new limit;
  reg_hist = hist_new limit;
  which = cmds;
  next_id = 0;
  limit = limit;
}

abbrev pub last : List Item → Option Item
last [] = none
last (x ∷ []) = some x
last (x ∷ y ∷ xs) = last (y ∷ xs)

abbrev pub id_of : Option Item → Option ℕ
id_of none = none
id_of (some x) = some x.id

-- The history at the file's `cur`.
abbrev pub hist_of : Which → Histories → Hist
hist_of cmds s = s.cmd_hist
hist_of regs s = s.reg_hist

abbrev pub put_hist : Which → Histories → Hist → Histories
put_hist cmds s h = record s { cmd_hist = h }
put_hist regs s h = record s { reg_hist = h }

abbrev pub current : Histories → Hist
current s = hist_of s.which s

abbrev pub update : Histories → Hist → Histories
update s h = put_hist s.which s h

-- hist_set_state
pub hist_set_state : Which → Histories → Histories
hist_set_state w s =
    put_hist w (record s { which = w })
      (record (hist_of w s) { cur = id_of (last (hist_of w s).p) })

-- hist_first
pub hist_first : Hist → Option (List ℕ × Hist)
hist_first h = elim h.p [ [] ↦ none | x ∷ xs ↦ some (x.line, record h { cur = some x.id }) ]

abbrev pub drop_first : List Item → List Item
drop_first [] = []
drop_first (x ∷ xs) = xs

abbrev pub drop_last : List Item → List Item
drop_last [] = []
drop_last (x ∷ []) = []
drop_last (x ∷ y ∷ xs) = x ∷ drop_last (y ∷ xs)

-- hst_chk_limits with hist_try_resize, which reads the option again. It runs behind an insertion, so
-- there is a first item to remove.
pub hst_chk_limits : ℕ → Hist → Hist
hst_chk_limits limit h =
    if ltb h.count h.max
    then h
    else (if ltb h.count limit
        then record h { max = limit }
        else record h { max = limit; p = drop_first h.p; count = h.count - 1 })

-- hist_pop
pub hist_pop : Hist → Option Hist
hist_pop h = elim h.p [
  | [] ↦ none
  | x ∷ xs ↦ some (record h { p = drop_last (x ∷ xs); count = h.count - 1 })
]

-- The common part of hist_push and hist_insert, behind hist_set_state.
pub insert_line : ℕ → ℕ → List ℕ → Hist → Hist
insert_line limit id line h = hst_chk_limits limit (record h {
  p = h.p ++ (record { id = id; line = line } ∷ []);
  cur = some id;
  count = h.count + 1;
})

-- hist_insert
pub hist_insert : Which → List ℕ → Histories → Histories
hist_insert w line s =
    let t = hist_set_state w s in
    record (update t (insert_line t.limit t.next_id line (current t))) { next_id = suc t.next_id }

-- hist_push
pub hist_push : Which → Histories → Histories
hist_push w s = hist_insert w [] s

-- The item before the last one, and the list with the last line replaced.
abbrev pub before_last : List Item → Option Item
before_last [] = none
before_last (x ∷ []) = none
before_last (x ∷ y ∷ []) = some x
before_last (x ∷ y ∷ z ∷ xs) = before_last (y ∷ z ∷ xs)

abbrev pub set_last : List Item → List ℕ → List Item
set_last [] line = []
set_last (x ∷ []) line = record x { line = line } ∷ []
set_last (x ∷ y ∷ xs) line = x ∷ set_last (y ∷ xs) line

-- prev && !strcmp(prev->line, line)
abbrev pub same_line : Option Item → List ℕ → Bool
same_line none line = false
same_line (some x) line = str_eq x.line line

-- hist_save; `count` is the number of tokens of the line.
pub hist_save : List ℕ → ℕ → Hist → Option Hist
hist_save line count h = elim h.p [
  | [] ↦ none
  | x ∷ xs ↦
      if same_line (before_last (x ∷ xs)) line || ltb count 1
      then hist_pop h
      else some (record h { p = set_last (x ∷ xs) line })
]

-- TAILQ_PREV and TAILQ_NEXT of the item with an identity; `none` if it is in no list.
abbrev pub find_prev : ℕ → Option Item → List Item → Option (Option Item)
find_prev id prev [] = none
find_prev id prev (x ∷ xs) = if x.id == id then some prev else find_prev id (some x) xs

abbrev pub head? : List Item → Option Item
head? [] = none
head? (x ∷ xs) = some x

abbrev pub find_next : ℕ → List Item → Option (Option Item)
find_next id [] = none
find_next id (x ∷ xs) = if x.id == id then some (head? xs) else find_next id xs

-- hist_prev and hist_next behind the access through `cur`: NULL leaves the state.
abbrev pub step_to : Hist → Option (Option Item) → Option (Option (List ℕ) × Hist)
step_to h none = none
step_to h (some none) = some (none, h)
step_to h (some (some x)) = some (some x.line, record h { cur = some x.id })

pub hist_prev : Hist → Option (Option (List ℕ) × Hist)
hist_prev h = elim h.cur [ none ↦ none | some id ↦ step_to h (find_prev id none h.p) ]

pub hist_next : Hist → Option (Option (List ℕ) × Hist)
hist_next h = elim h.cur [ none ↦ none | some id ↦ step_to h (find_next id h.p) ]

-- The lines of a history, the oldest first.
abbrev pub lines_of : List Item → List (List ℕ)
lines_of [] = []
lines_of (x ∷ xs) = x.line ∷ lines_of xs

-- The calls that the command line makes, and a new value of the option "history".
pub data Call : Type 0 where
  push : Which → Call
  insert : Which → List ℕ → Call
  save : List ℕ → ℕ → Call
  prev next first : Call
  option : ℕ → Call

-- A call on the history at the file's `cur`.
pub put_back : Histories → Option Hist → Option Histories
put_back s none = none
put_back s (some h) = some (update s h)

pub forget {ℓ} : {A : Type ℓ} → Option (A × Hist) → Option Hist
forget none = none
forget (some (_, h)) = some h

pub call : Call → Histories → Option Histories
unfolding put_back forget
call (push w) s = some (hist_push w s)
call (insert w line) s = some (hist_insert w line s)
call (save line n) s = put_back s (hist_save line n (current s))
call prev s = put_back s (forget (hist_prev (current s)))
call next s = put_back s (forget (hist_next (current s)))
call first s = put_back s (forget (hist_first (current s)))
call (option n) s = some (record s { limit = n })

pub calls : List Call → Histories → Option Histories
calls [] s = some s
calls (c ∷ cs) s = elim (call c s) [ none ↦ none | some t ↦ calls cs t ]
