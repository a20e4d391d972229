-- ===== src/Select.antt =====
-- tui/select.c: the one selection of lines, the file's static `sel`. A buffer is a number. `none` is
-- a fault: an access outside the array `lines`, or through it where it is NULL. Indices of lines are
-- natural numbers: `buf_line` and `buf_top` of a buffer with a line under its cursor.
pub mod Fill
pub mod Range
mod Tests
use fnav.Prelude.{
  ℕ, zero, suc, ◌+◌, ◌-◌, min, max, Bool, true, false, ◌&&◌, ◌||◌, not, Option, none, some, List,
  [], ◌∷◌, ltb, ◌==◌, if◌then◌else◌, get_elem?, set, replicate,
}

-- The part of a buffer that the selection reads.
pub record Cursor : Type 0 where
  pub id : ℕ
  pub lnum : ℕ
  pub top : ℕ

-- buf_index
abbrev pub buf_index : Cursor → ℕ
buf_index b = b.lnum + b.top

pub record Select : Type 0 where
  pub orgn_lnum : ℕ
  pub orgn_index : ℕ
  pub head : ℕ
  pub lines : Option (List Bool)
  pub max : ℕ
  pub count : ℕ
  pub enabled : Bool
  pub active : Bool
  pub aditv : Bool
  pub owner : Option ℕ

-- The zeroed static.
pub init : Select
init = record {
  orgn_lnum = 0;
  orgn_index = 0;
  head = 0;
  lines = none;
  max = 0;
  count = 0;
  enabled = false;
  active = false;
  aditv = false;
  owner = none;
}

-- select_owner
abbrev pub select_owner : ℕ → Select → Bool
select_owner buf s = elim s.owner [ none ↦ false | some o ↦ o == buf ]

-- select_count
pub select_count : Select → ℕ
select_count s = if s.enabled then s.count else 0

abbrev pub cleared : Select → Select
cleared s = record s { lines = none; enabled = false; active = false; count = 0 }

-- select_clear
pub select_clear : ℕ → Select → Select
select_clear buf s = if select_owner buf s then cleared s else s

-- sel.lines[i] and a write to it.
abbrev pub read : Option (List Bool) → ℕ → Option Bool
read none i = none
read (some ls) i = get_elem? ls i

abbrev pub write : Option (List Bool) → ℕ → Bool → Option (Option (List Bool))
write none i v = none
write (some ls) i v = elim (get_elem? ls i) [ none ↦ none | some _ ↦ some (some (set ls i v)) ]

-- The first lines of select_toggle: another buffer's selection is cleared, through its owner.
abbrev pub release : ℕ → Select → Select
release buf s = if s.active && not (select_owner buf s) then cleared s else s

-- The lines of select_toggle behind `if (!sel.enabled) return`, at the array that it uses.
abbrev pub begin_at : Cursor → ℕ → Option (List Bool) → Select → Option Select
begin_at b max lines s = elim (read lines (buf_index b)) [
  | none ↦ none
  | some old ↦ elim (write lines (buf_index b) true) [
    | none ↦ none
    | some lines' ↦ some (record s {
      lines = lines';
      aditv = not old;
      head = buf_index b;
      max = max;
      active = true;
      orgn_lnum = b.lnum;
      orgn_index = b.top;
      count = s.count + 1;
    })
  ]
]

-- select_toggle; `max` is the number of lines of the buffer's model.
pub select_toggle : Cursor → ℕ → Select → Option Select
select_toggle b max s =
    if ltb max 1
    then some s
    else (let t = release b.id s in
        let t' = record t { owner = some b.id; enabled = not t.enabled } in
        if not t'.enabled
        then some t'
        else begin_at b max (if t.active then t.lines else some (replicate max false)) t')

-- for (int i = st; i <= ed; i++) sel.lines[i] = v, with the rounds counted.
pub fill : ℕ → ℕ → Bool → List Bool → Option (List Bool)
fill zero i v ls = some ls
fill (suc n) i v ls = elim (get_elem? ls i) [ none ↦ none | some _ ↦ fill n (suc i) v (set ls i v) ]

abbrev pub fill_range : ℕ → ℕ → Bool → List Bool → Option (List Bool)
fill_range a b v ls = fill (suc (max a b) - min a b) (min a b) v ls

-- The two loops of select_enter and the write behind them.
abbrev pub move_head : ℕ → ℕ → ℕ → Bool → List Bool → Option (List Bool)
move_head head orgn idx enable ls = elim (fill_range head orgn (not enable) ls) [
  | none ↦ none
  | some ls' ↦ elim (fill_range idx orgn enable ls') [
    | none ↦ none
    | some ls'' ↦ elim (get_elem? ls'' idx) [ none ↦ none | some _ ↦ some (set ls'' idx enable) ]
  ]
]

-- select_enter
pub select_enter : ℕ → ℕ → Select → Option Select
select_enter buf idx s =
    if not s.enabled || not s.active || not (select_owner buf s) then some s else elim s.lines [
      | none ↦ none
      | some ls ↦ elim (move_head s.head (s.orgn_lnum + s.orgn_index) idx s.aditv ls) [
        | none ↦ none
        | some ls' ↦ some (record s {
          lines = some ls';
          count = max idx (s.orgn_lnum + s.orgn_index) - min idx (s.orgn_lnum + s.orgn_index) + 1;
          head = idx;
        })
      ]
    ]

-- select_alt_origin: the cursor and the origin change places; the result is the returned flag.
pub select_alt_origin : Cursor → Select → Bool × Cursor × Select
select_alt_origin b s = if not (select_owner b.id s) || not s.active then (false, b, s) else (
  true,
  record b { lnum = s.orgn_lnum; top = s.orgn_index },
  record s { orgn_lnum = b.lnum; orgn_index = b.top },
)

-- select_min_origin
pub select_min_origin : Cursor → Select → Bool × Cursor × Select
select_min_origin b s =
    if ltb (b.lnum + b.top) (s.orgn_lnum + s.orgn_index)
    then (false, b, s)
    else select_alt_origin b s

-- select_has_line
pub select_has_line : ℕ → ℕ → Select → Option Bool
select_has_line buf idx s =
    if not (select_owner buf s) || not s.active then some false else read s.lines idx
