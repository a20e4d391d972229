-- ===== src/Cursor/Tests.antt =====
-- tui/buffer.c: moves in a concrete window.
use fnav.Prelude.{◌*◌, refl, Bool, true, false, ℤ, pos, negsuc, arith, ltb}
use fnav.Prelude.{◌≡◌, some, List, ◌∷◌, ◌++◌, replicate}
use fnav.Select.{Select}
use fnav.Select.Range.{IsOpen, IsMoved}
use fnav.Cursor.Window.{buf_move, buf_move-IsMoved}
use fnav.Cursor.{Buf, buf_mv, buf_set_size}
use fnav.Cursor.Move.{at_lines, Lands, AreEdges, target, buf_mv-Lands}
use fnav.Cursor.Resize.{Shows, buf_set_size-Shows}

-- lnum < 0.2 * h and lnum > 0.8 * h, in whole numbers.
abbrev near_top : ℤ → ℤ → Bool
near_top (pos a) (pos h) = ltb (5 * a) h
near_top (pos a) (negsuc h) = false
near_top (negsuc a) _ = true

abbrev near_bottom : ℤ → ℤ → Bool
near_bottom (pos a) (pos h) = ltb (4 * h) (5 * a)
near_bottom (pos a) (negsuc h) = true
near_bottom (negsuc a) _ = false

edges : AreEdges near_top near_bottom
edges = record { above = λ a h. refl; below = λ a h k. ground arith }

-- From the line 8 of a window of ten lines at the top of a model of thirty, five lines down.
buf_mv-Lands_example :
    Lands 10
      (pos 0)
      (target 8 (pos 5) 30)
      (buf_mv near_top near_bottom (pos 5) (pos 30) (at_lines 8 0 10 (pos 0)))
buf_mv-Lands_example =
    buf_mv-Lands near_top near_bottom edges 8 0 10 30 (pos 0) (pos 5) (omega arith) (omega arith)
      (omega arith)

-- The same window gets the height 5, with its status line.
buf_set_size-Shows_example : Shows 4 8 (buf_set_size (pos 30) (pos 5) (at_lines 8 0 10 (pos 0)))
buf_set_size-Shows_example = buf_set_size-Shows 8 0 10 4 30 (pos 0) (omega arith)

-- The whole model of thirty lines in an array, selected from the line 8 on, where the cursor stands.
abbrev at_eight : List Bool
at_eight = replicate 8 false ++ (true ∷ replicate 21 false)

abbrev from_eight : Select
from_eight = record {
  orgn_lnum = 8;
  orgn_index = 0;
  head = 8;
  lines = some at_eight;
  max = 30;
  count = 1;
  enabled = true;
  active = true;
  aditv = true;
  owner = some 7;
}

from_eight-IsOpen : IsOpen 7 30 at_eight from_eight
from_eight-IsOpen = record {
  owned = refl;
  on = refl;
  live = refl;
  array = refl;
  size = omega arith;
  head_in = omega arith;
  orgn_in = omega arith;
}

buf_move-IsMoved_example :
    (b' : Buf) × (s' : Select) × (ls' : List Bool) × (buf_move near_top near_bottom 7
        (pos 5)
        (pos 30)
        (at_lines 8 0 10 (pos 0))
        from_eight
      ≡ some (b', s'))
    × Lands 10 (pos 0) (target 8 (pos 5) 30) b'
    × IsOpen 7 30 ls' s'
    × (s'.head ≡ target 8 (pos 5) 30)
    × IsMoved 8 8 (target 8 (pos 5) 30) true at_eight ls'
buf_move-IsMoved_example =
    buf_move-IsMoved near_top near_bottom edges 8 0 10 30 7 (pos 0) (pos 5) at_eight from_eight
      (omega arith) (omega arith) (omega arith) from_eight-IsOpen
