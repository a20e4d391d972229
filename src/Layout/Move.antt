-- ===== src/Layout/Move.antt =====
-- tui/layout.c: the focus moved to a neighbour on the screen, and the swap with one.
use fnav.Prelude.{
  ◌>>=◌, ℕ, ◌+◌, Bool, ◌&&◌, ◌||◌, not, Option, none, some, ◌==◌, if◌then◌else◌, ℤ, pos, ◌-ℤ◌,
  ltb_ℤ,
}
use fnav.Layout.{
  Pos, Container, Containers, empty, entry, Layout, MoveDir, move_up, move_down, move_left,
  move_right, holder_of, layout_update, tailq_empty, same_dir,
}

-- pos_shift; `line` is cur_line of the focus: the position of the cursor in its buffer.
pub record Point : Type 0 where
  pub lnum : ℤ
  pub col : ℤ

pub pos_shift : Container → Pos → MoveDir → Point
pos_shift c line move_left = record {
  lnum = pos (c.ofs.lnum + line.lnum);
  col = pos c.ofs.col -ℤ pos 1;
}
pos_shift c line move_right = record {
  lnum = pos (c.ofs.lnum + line.lnum);
  col = pos (c.ofs.col + c.size.col + 1);
}
pos_shift c line move_up = record { lnum = pos c.ofs.lnum -ℤ pos 1; col = pos (c.ofs.col + 1) }
pos_shift c line move_down = record {
  lnum = pos (c.ofs.lnum + c.size.lnum + 1);
  col = pos (c.ofs.col + 1);
}

pub intersects : Point → Pos → Pos → Bool
intersects a b bsize = not (
    ltb_ℤ a.col (pos b.col)
    || ltb_ℤ (pos bsize.col) a.col
    || ltb_ℤ a.lnum (pos b.lnum)
    || ltb_ℤ (pos bsize.lnum) a.lnum)

-- find_intersect from an item on: the leaf at a point that is not `c`. A container with items is left
-- by its own items only.
pub find_intersect : ℕ → Containers → Point → Option Container
find_intersect c empty x = none
find_intersect c (entry it p next) x =
    let inner = find_intersect c p x in
    let rest = find_intersect c next x in
    let corner : Pos = record {
      lnum = it.ofs.lnum + it.size.lnum;
      col = it.ofs.col + it.size.col;
    } in
    if intersects x it.ofs corner && not (it.id == c)
    then if tailq_empty p then some it else inner
    else rest

-- layout_movement, of the container with the focus.
pub layout_movement : Layout → Container → Pos → MoveDir → Layout
layout_movement l c line dir =
    elim (find_intersect c.id (entry l.root l.items empty) (pos_shift c line dir)) [
      | none ↦ l
      | some pp ↦ record l { focus = pp.id }
    ]

-- key2move_type; `none` is -1.
pub key2move_type : ℕ → Option MoveDir
key2move_type key =
    if key == b'H'
    then some move_left
    else if key == b'J'
    then some move_down
    else if key == b'K'
    then some move_up
    else if key == b'L'
    then some move_right
    else none

-- `buf` of the container `f` set.
pub set_buf : ℕ → Option ℕ → Containers → Containers
set_buf f o empty = empty
set_buf f o (entry it p next) =
    entry (if it.id == f then record it { buf = o } else it) (set_buf f o p) (set_buf f o next)

pub set_buf_of : ℕ → Option ℕ → Layout → Layout
set_buf_of f o l = record l {
  root = if l.root.id == f then record (l.root) { buf = o } else l.root;
  items = set_buf f o l.items;
}

-- `if (c->dir != c->parent->dir) c->parent->buf = c->buf`, with `o` for `c->buf`.
pub set_parent : Container → Option ℕ → Layout → Layout
set_parent c o l = elim (holder_of c.id l.root l.items) [
  | none ↦ l
  | some (hc, _) ↦ if same_dir c.dir hc.dir then l else set_buf_of hc.id o l
]

-- layout_swap, of the container with the focus; layout_rotate does nothing.
pub layout_swap : Layout → Container → Pos → MoveDir → Option Layout
layout_swap l c line dir =
    elim (find_intersect c.id (entry l.root l.items empty) (pos_shift c line dir)) [
      | none ↦ some l
      | some pp ↦
          let swapped = set_buf_of c.id pp.buf (set_buf_of pp.id c.buf l) in
          let l' = set_parent pp c.buf (set_parent c pp.buf swapped) in
          layout_update l'.root l'.items >>= λ items.
          some (record l' { items = items; focus = pp.id })
    ]
