-- ===== src/Select/Tests.antt =====
-- tui/select.c: the selection on concrete buffers.
use fnav.Prelude.{ℕ, ◌<◌, ◌≡◌, refl, Bool, true, false, none, some, List, [], ◌∷◌, All, arith}
use fnav.Select.{Cursor, Select, init, select_toggle, select_has_line}
use fnav.Select.Range.{IsOpen, selection_range, enter_all, between, last_of}

-- A buffer with the cursor on the line 2 of its model.
abbrev here : Cursor
here = record { id = 7; lnum = 1; top = 1 }

abbrev there : Cursor
there = record { id = 8; lnum = 0; top = 0 }

-- Lines 2 and 3 of a model of five, selected down from line 2.
abbrev lines_23 : List Bool
lines_23 = false ∷ false ∷ true ∷ true ∷ false ∷ []

abbrev down : Select
down = record {
  orgn_lnum = 1;
  orgn_index = 1;
  head = 3;
  lines = some lines_23;
  max = 5;
  count = 2;
  enabled = true;
  active = true;
  aditv = true;
  owner = some 7;
}

abbrev kept_off : Select
kept_off = record down { enabled = false }

down-IsOpen : IsOpen 7 5 lines_23 down
down-IsOpen = record {
  owned = refl;
  on = refl;
  live = refl;
  array = refl;
  size = omega arith;
  head_in = omega arith;
  orgn_in = omega arith;
}

abbrev moves : List ℕ
moves = 3 ∷ 4 ∷ 1 ∷ []

moves_inside : All (λ i. i < 5) moves
moves_inside = ground arith

abbrev zeroed : Select
zeroed = record {
  orgn_lnum = 0;
  orgn_index = 0;
  head = 0;
  lines = none;
  max = 0;
  count = 0;
  enabled = false;
  active = false;
  aditv = false;
  owner = none;
}

zeroed-init : init ≡ zeroed
unfolding init
zeroed-init = refl

selection_range_example :
    (t : Select) × (r : Select) × (select_toggle here 5 zeroed ≡ some t)
    × (enter_all 7 moves t ≡ some r)
    × (select_has_line 7 3 r ≡ some (between (last_of 2 moves) 2 3))
selection_range_example =
    selection_range here 5 3 moves zeroed refl refl (omega arith) moves_inside (omega arith)
