-- ===== src/Cursor/Window.antt =====
-- tui/buffer.c and tui/select.c together: a move of the cursor in a buffer that owns the selection.
use fnav.Prelude.{
  ℕ, ◌+◌, ◌≤◌, ◌<◌, ◌≡◌, ap, ◌∙◌, Bool, ◌||◌, not, Option, none, some, List, ℤ, pos, negsuc, arith,
  if◌then◌else◌,
}
use fnav.Select.{Select, select_owner, select_enter, select_clear}
use fnav.Select.Range.{IsOpen, IsMoved, select_enter-IsOpen}
use fnav.Cursor.{Buf, buf_index, buf_mv}
use fnav.Cursor.Move.{at_lines, target, AreEdges, Lands, buf_mv-Lands}

-- select_enter at an index of the buffer: a negative one leaves the array, if the selection is used.
abbrev pub enter_at : ℕ → ℤ → Select → Option Select
enter_at id (pos i) s = select_enter id i s
enter_at id (negsuc i) s =
    if not s.enabled || not s.active || not (select_owner id s) then some s else none

-- buf_curs_move: the selection behind a move that leaves the buffer as it is given.
pub buf_curs_move : ℕ → Buf → Select → Option (Buf × Select)
buf_curs_move id b s = elim (enter_at id (buf_index b) s) [ none ↦ none | some s' ↦ some (b, s') ]

-- buf_move_invalid
pub buf_move_invalid : ℕ → ℤ → ℤ → Buf → Select → Option (Buf × Select)
unfolding buf_curs_move
buf_move_invalid id index lnum b s = buf_curs_move id (record b { top = index; lnum = lnum }) s

-- buf_full_invalidate
pub buf_full_invalidate : Bool → ℕ → ℤ → ℤ → Buf → Select → Option (Buf × Select)
unfolding buf_move_invalid
buf_full_invalidate attached id index lnum b s =
    if not attached then some (b, s) else buf_move_invalid id index lnum b (select_clear id s)

index_at : (a b h : ℕ) (d : ℤ) → buf_index (at_lines a b h d) ≡ pos (a + b)
index_at a b h d = ground arith

buf_curs_move_to :
    (id i : ℕ) (b : Buf) (s s' : Select)
    → buf_index b ≡ pos i
    → select_enter id i s ≡ some s'
    → buf_curs_move id b s ≡ some (b, s')
unfolding buf_curs_move
buf_curs_move_to id i b s s' h k =
    ap {B = Option (Buf × Select)} (λ o. elim o [ none ↦ none | some r ↦ some (b, r) ])
      (ap (λ n. enter_at id n s) h ∙ k)

module _ (near_top near_bottom : ℤ → ℤ → Bool) where
  -- buf_move, and the end of buf_mv.
  pub buf_move : ℕ → ℤ → ℤ → Buf → Select → Option (Buf × Select)
  unfolding buf_curs_move
  buf_move id y m_max b s = buf_curs_move id (buf_mv near_top near_bottom y m_max b) s

  target-inside : (i m : ℕ) (y : ℤ) → i < m → target i y m < m
  target-inside i m (pos k) h = omega arith
  target-inside i m (negsuc k) h = omega arith

  module _ (edges : AreEdges near_top near_bottom) where
    -- With an open selection over a model of `m` lines and the cursor on one of them, in a window of
    -- a row or more or on the row just below it (rows are counted from 0, so the row is at most the
    -- height), a move by `y` lines does not fault whatever `y` is: it leaves the cursor in the window
    -- or on the row just below it, on the line that it reaches, the selection is open with its head
    -- on that line, and the lines between the origin and that line are set, those that only the old
    -- head had reached are set back, and no others are changed.
    pub buf_move-IsMoved :
        (l t h m id : ℕ) (d y : ℤ) (ls : List Bool) (s : Select)
        → 1 ≤ h
        → l ≤ h
        → l + t < m
        → IsOpen id m ls s
        → (b' : Buf) × (s' : Select) × (ls' : List Bool) × (buf_move id y
              (pos m)
              (at_lines l t h d)
              s
            ≡ some (b', s'))
          × Lands h d (target (l + t) y m) b'
          × IsOpen id m ls' s'
          × (s'.head ≡ target (l + t) y m)
          × IsMoved s.head (s.orgn_lnum + s.orgn_index) (target (l + t) y m) s.aditv ls ls'
    unfolding buf_move
    buf_move-IsMoved l t h m id d y ls s one fits within opened =
        let lands = buf_mv-Lands near_top near_bottom edges l t h m d y one fits within in
        let goal = target (l + t) y m in
        let (s', ls', e, o, mv, hd, _, _, _, _) =
          select_enter-IsOpen id m goal ls s (target-inside (l + t) m y within) opened in
        let b' = buf_mv near_top near_bottom y (pos m) (at_lines l t h d) in
        let at_goal : buf_index b' ≡ pos goal =
          ap buf_index lands.state ∙ index_at lands.line lands.first h d ∙ ap pos lands.reached in
        (b', s', ls', buf_curs_move_to id goal b' s s' at_goal e, lands, o, hd, mv)
