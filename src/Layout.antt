-- ===== src/Layout.antt =====
-- tui/layout.c: the tree of containers that tiles the screen with buffers.
-- A queue of containers is a first container, the queue that it holds (`p`), and the rest (`ent`).
-- A container is named by its number, which stands for its address, and a buffer by a number. The
-- parent of a container is the one that holds it, so update_sub_items has nothing to do here.
pub mod Tiles
pub mod Fill
mod Ids
pub mod Add
pub mod Valid
pub mod Remove
pub mod Move
mod Tests
use fnav.Prelude.{
  ◌>>=◌, ℕ, zero, suc, ◌+◌, ◌-◌, ◌*◌, ◌/◌, ◌%◌, max, Bool, true, false, ◌&&◌, ◌||◌, not, Option,
  none, some, List, [], ◌∷◌, ◌++◌, ltb, ◌==◌, if◌then◌else◌, ℤ, pos, ◌+ℤ◌, ◌-ℤ◌, ltb_ℤ,
}

pub record Pos : Type 0 where
  pub lnum : ℕ
  pub col : ℕ

pub data MoveDir : Type 0 where
  move_up move_down move_left move_right : MoveDir

pub data DirType : Type 0 where
  l_horiz l_vert : DirType

-- struct Container, without its queue.
pub record Container : Type 0 where
  pub id : ℕ
  pub buf : Option ℕ
  pub size : Pos
  pub ofs : Pos
  pub dir : DirType
  pub count : ℕ

pub data Containers : Type 0 where
  empty : Containers
  entry : (c : Container) (p next : Containers) → Containers

-- Layout, with its root container and the queue of that.
pub record Layout : Type 0 where
  pub root : Container
  pub items : Containers
  pub focus : ℕ

abbrev pub same_dir : DirType → DirType → Bool
same_dir l_horiz l_horiz = true
same_dir l_vert l_vert = true
same_dir l_horiz l_vert = false
same_dir l_vert l_horiz = false

abbrev pub tailq_empty : Containers → Bool
tailq_empty empty = true
tailq_empty (entry c p next) = false

-- create_container
abbrev pub dir_of : MoveDir → DirType
dir_of move_up = l_horiz
dir_of move_down = l_horiz
dir_of move_left = l_vert
dir_of move_right = l_vert

abbrev pub no_pos : Pos
no_pos = record { lnum = 0; col = 0 }

pub create_container : ℕ → MoveDir → Option ℕ → Container
create_container id dir buf = record {
  id = id;
  buf = buf;
  size = no_pos;
  ofs = no_pos;
  dir = dir_of dir;
  count = 0;
}

-- layout_init, on a screen of `size` (layout_size).
pub layout_init : ℕ → Pos → Layout
layout_init id size = record {
  root = record (create_container id move_up none) { size = record size { lnum = size.lnum - 1 } };
  items = empty;
  focus = id;
}

-- layout_update, the body of its loop: the size and the offset of item `i` of `c`, from 1 on.
pub new_lnum : Container → ℕ
new_lnum c = c.size.lnum / max c.count 1

pub new_col : Container → ℕ
new_col c = c.size.col / max c.count 1

pub item_size : Container → ℕ → DirType → Pos
item_size c i l_horiz = record {
  lnum = if i == c.count then new_lnum c + c.size.lnum % new_lnum c else new_lnum c;
  col = c.size.col;
}
item_size c i l_vert = record {
  lnum = c.size.lnum;
  col = if i == c.count then new_col c + c.size.col % new_col c else new_col c;
}

pub item_ofs : Container → ℕ → DirType → Pos
item_ofs c i l_horiz = record { lnum = c.ofs.lnum + new_lnum c * (i - 1); col = c.ofs.col }
item_ofs c i l_vert = record { lnum = c.ofs.lnum; col = c.ofs.col + new_col c * (i - 1) }

pub place : Container → ℕ → Container → Container
place c i it = record it { size = item_size c i it.dir; ofs = item_ofs c i it.dir }

-- The remainders of layout_update divide by zero when a share is 0.
pub divides : Container → Bool
divides c = not (new_lnum c == 0) && not (new_col c == 0)

-- The loop of layout_update from item `i` on; `none` is the division by zero.
pub update_items : Container → ℕ → Containers → Option Containers
update_items c i empty = some empty
update_items c i (entry it p next) =
    let it' = place c i it in
    let inner = update_items it' 1 p in
    let rest = update_items c (suc i) next in
    if not (tailq_empty p) && not (divides it')
    then none
    else do p' ← inner; next' ← rest; some (entry it' p' next')

pub layout_update : Container → Containers → Option Containers
layout_update c p = if divides c then update_items c 1 p else none

-- layout_refresh, on a screen of `size`.
pub layout_refresh : Layout → Pos → ℕ → Option Layout
layout_refresh l size offset = do
  let root = record (l.root) { size = record size { lnum = size.lnum - offset } }
  items ← layout_update root l.items
  some (record l { root = root; items = items })

-- layout_add_buffer. `c` is in front of the container `f` where the directions agree; else `f` keeps
-- its place and holds `c` and `sub`, which takes its buffer.
pub append : Containers → Containers → Containers
append empty r = r
append (entry c p next) r = entry c p (append next r)

-- An item of this queue is `f`, with the direction `d`: `hc->count` grows.
pub takes_sibling : ℕ → DirType → Containers → Bool
takes_sibling f d empty = false
takes_sibling f d (entry it p next) = it.id == f && same_dir d it.dir || takes_sibling f d next

pub insert_items : ℕ → Container → Container → Containers → Containers
insert_items f c sub empty = empty
insert_items f c sub (entry it p next) =
    let inner = insert_items f c sub p in
    let rest = insert_items f c sub next in
    if it.id == f
    then if same_dir c.dir it.dir
      then entry c empty (entry it p next)
      else entry (record it { count = it.count + 2 })
          (append p (entry c empty (entry (record sub { buf = it.buf }) empty empty))) next
    else entry (record it { count = if takes_sibling f c.dir p then suc it.count else it.count })
        inner rest

-- The focus is the root, which is so as long as it has no items.
abbrev pub focus_is_root : Layout → Bool
focus_is_root l = l.focus == l.root.id

-- The new container `c` for the buffer `nbuf`.
pub new_container : Layout → ℕ → ℕ → MoveDir → Container
new_container l c nbuf dir =
    create_container c (if focus_is_root l then move_up else dir) (some nbuf)

pub add_items : Layout → Container → Container → Containers
add_items l new sub =
    if focus_is_root l
    then append l.items (entry new empty empty)
    else insert_items l.focus new sub l.items

pub add_root : Layout → Container → Container
add_root l new = record (l.root) {
  count =
      if focus_is_root l || takes_sibling l.focus new.dir l.items
      then suc l.root.count
      else l.root.count;
}

-- The buffer `nbuf` in new containers `c` and `sub`; `none` is a fault: the root has the focus beside
-- items, or the update divides by zero.
pub layout_add_buffer : Layout → ℕ → ℕ → ℕ → MoveDir → Option Layout
layout_add_buffer l c sub nbuf dir =
    let new = new_container l c nbuf dir in
    let root = add_root l new in
    let items = add_items l new (create_container sub dir none) in
    if focus_is_root l && not (tailq_empty l.items) then none else do
      items' ← layout_update root items
      some (record { root = root; items = items'; focus = c })

-- The buffer of a container is `b`.
abbrev pub shows : ℕ → Option ℕ → Bool
shows b none = false
shows b (some b') = b == b'

-- The container that holds the container `f`, and its queue.
pub holds : ℕ → Containers → Bool
holds f empty = false
holds f (entry it p next) = it.id == f || holds f next

pub holder_in : ℕ → Containers → Option (Container × Containers)
holder_in f empty = none
holder_in f (entry it p next) =
    let inner = holder_in f p in
    let rest = holder_in f next in
    if holds f p then some (it, p) else elim inner [ some h ↦ some h | none ↦ rest ]

pub holder_of : ℕ → Container → Containers → Option (Container × Containers)
holder_of f root q = if holds f q then some (root, q) else holder_in f q
