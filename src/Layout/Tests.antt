-- ===== src/Layout/Tests.antt =====
-- tui/layout.c: concrete layouts.
use fnav.Prelude.{ℕ, ◌+◌, ◌≤◌, ◌≡◌, refl, inr, none, some, arith, ◌==◌, Option}
use fnav.Layout.{
  Pos, Container, Containers, empty, entry, Layout, move_left, l_horiz, l_vert, create_container,
  layout_init, layout_add_buffer, layout_update, update_items, place, item_size, item_ofs, divides,
  new_lnum, new_col, DirType, add_items, add_root, new_container, insert_items, append,
  takes_sibling, holds, holder_of, holder_in,
}
use fnav.Layout.Ids.{total, leaf_total, shown}
use fnav.Layout.Tiles.{covers, inside, bit, layout_update-covers}
use fnav.Layout.Valid.{IsValid, IsNew, layout_add_buffer-IsValid}
use fnav.Layout.Remove.{
  layout_remove_buffer, find_container, close_container, close_root, close_focus, remove_items,
  merge_single, next_or_prev, next_focus, first_leaf,
}
use fnav.Layout.Remove.Parent.{Forked}
use fnav.Layout.Remove.Found.{Backed}
use fnav.Layout.Remove.Buffers.{layout_remove_buffer-shown}

abbrev at : ℕ → ℕ → Pos
at a b = record { lnum = a; col = b }

abbrev pane : ℕ → Option ℕ → Pos → Pos → DirType → ℕ → Container
pane id buf size ofs dir count = record {
  id = id;
  buf = buf;
  size = size;
  ofs = ofs;
  dir = dir;
  count = count;
}

-- One buffer, 100, on 24 lines and 80 columns.
abbrev alone : Layout
alone = record {
  root = pane 0 none (at 23 80) (at 0 0) l_horiz 1;
  items = entry (pane 1 (some 100) (at 23 80) (at 0 0) l_horiz 0) empty empty;
  focus = 1;
}

-- The buffer 101 to the left of it.
abbrev beside : Layout
beside = record {
  root = pane 0 none (at 23 80) (at 0 0) l_horiz 1;
  items =
      entry (pane 1 (some 100) (at 23 80) (at 0 0) l_horiz 2)
        (entry (pane 3 (some 101) (at 23 40) (at 0 0) l_vert 0) empty
          (entry (pane 4 (some 100) (at 23 40) (at 0 40) l_vert 0) empty empty))
        empty;
  focus = 3;
}

first_buffer : layout_add_buffer (layout_init 0 (at 24 80)) 1 2 100 move_left ≡ some alone
unfolding layout_init layout_add_buffer create_container layout_update update_items place item_size
    item_ofs divides new_lnum new_col add_items add_root new_container insert_items append
    takes_sibling
first_buffer = refl

second_buffer : layout_add_buffer alone 3 4 101 move_left ≡ some beside
unfolding layout_add_buffer create_container layout_update update_items place item_size item_ofs
    divides new_lnum new_col add_items add_root new_container insert_items append takes_sibling
second_buffer = refl

removed_buffer : layout_remove_buffer beside 101 ≡ some alone
unfolding layout_remove_buffer find_container close_container close_root close_focus remove_items
    merge_single next_or_prev next_focus first_leaf holds holder_of holder_in layout_update
    update_items place item_size item_ofs divides new_lnum new_col
removed_buffer = refl

alone-IsValid : IsValid alone
unfolding total leaf_total
alone-IsValid = record {
  dir = refl;
  counts = refl;
  uniform = (refl, tt);
  shape = (refl, (l_horiz, tt), tt, tt);
  unique = λ f. ground arith;
  apart = refl;
  focused = inr (omega arith);
}

alone-IsNew : IsNew alone 3 4
unfolding total
alone-IsNew = record {
  c_new = refl;
  sub_new = refl;
  differ = λ e. absurd (omega arith);
  not_root = (λ e. absurd (omega arith), λ e. absurd (omega arith));
}

layout_add_buffer-IsValid_example : IsValid beside
layout_add_buffer-IsValid_example =
    layout_add_buffer-IsValid alone 3 4 101 move_left beside alone-IsValid alone-IsNew second_buffer

beside-Forked : Forked beside.items
beside-Forked = (
  λ e. absurd (omega arith),
  ((λ e. absurd (omega arith)), tt, (λ e. absurd (omega arith), tt, tt)),
  tt,
)

beside-Backed : Backed 101 beside.items
beside-Backed = (
  λ h e. absurd (ground arith),
  ((λ h e. absurd (ground arith)), tt, (λ h e. absurd (ground arith), tt, tt)),
  tt,
)

layout_remove_buffer-shown_example :
    shown 100 beside.items ≡ shown 100 alone.items + bit (100 == 101)
layout_remove_buffer-shown_example =
    layout_remove_buffer-shown beside 101 alone layout_add_buffer-IsValid_example beside-Forked
      beside-Backed removed_buffer 100

beside_update : layout_update beside.root beside.items ≡ some beside.items
unfolding layout_update update_items place item_size item_ofs divides new_lnum new_col
beside_update = refl

layout_update-covers_example : covers (at 5 10) beside.items ≤ bit (inside (at 5 10) beside.root)
layout_update-covers_example =
    layout_update-covers (at 5 10) l_horiz beside.root beside.items beside.items (refl, tt)
      layout_add_buffer-IsValid_example.shape refl beside_update

-- Three panes on five lines: two lines are in none of them.
abbrev five : Container
five = pane 0 none (at 5 80) (at 0 0) l_horiz 3

abbrev thirds : Containers
thirds = entry (pane 1 (some 100) (at 1 80) (at 0 0) l_horiz 0) empty (
    entry (pane 2 (some 101) (at 1 80) (at 1 0) l_horiz 0) empty
      (entry (pane 3 (some 102) (at 1 80) (at 2 0) l_horiz 0) empty empty))

thirds_update : layout_update five thirds ≡ some thirds
unfolding layout_update update_items place item_size item_ofs divides new_lnum new_col
thirds_update = refl
