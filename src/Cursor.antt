-- ===== src/Cursor.antt =====
-- tui/buffer.c: the cursor `lnum` and the first shown line `top` of a buffer over a model of `m_max`
-- lines. The tests against 0.2 and 0.8 of the height are floating-point: they are parameters, with
-- what the code relies on where it needs it.
pub mod Move
pub mod Resize
pub mod Window
mod Tests
use fnav.Prelude.{
  ℕ, ◌+◌, ◌-◌, ◌*◌, ◌/◌, max, Bool, true, false, ◌&&◌, ◌||◌, not, ℤ, pos, negsuc, ◌+ℤ◌, ◌-ℤ◌, ltb_ℤ,
  if◌then◌else◌,
}

-- The fields of Buffer that a move uses; `height` is `b_size.lnum`.
pub record Buf : Type 0 where
  pub lnum : ℤ
  pub top : ℤ
  pub height : ℤ
  pub ldif : ℤ

-- buf_index
abbrev pub buf_index : Buf → ℤ
buf_index b = b.lnum +ℤ b.top

abbrev pub max_ℤ : ℤ → ℤ → ℤ
max_ℤ a b = if ltb_ℤ b a then a else b

-- resize_adjustment
pub resize_adjustment : Buf → Buf
resize_adjustment b =
    let newtop = max_ℤ (pos 1 +ℤ buf_index b -ℤ b.height) (pos 0) in
    record b { top = newtop; lnum = b.lnum +ℤ (b.top -ℤ newtop) }

-- buf_set_size_ofs, what it does to the cursor: `lnum` is the height given.
pub buf_set_size : ℤ → ℤ → Buf → Buf
buf_set_size m_max lnum b =
    let height = lnum -ℤ pos 1 in
    let b' = record b {
      ldif = if ltb_ℤ (pos 0) b.height then b.height -ℤ height else b.ldif;
      height = height;
    } in
    if not (ltb_ℤ b'.lnum b'.height) || (ltb_ℤ b'.ldif (pos 0) && ltb_ℤ m_max (b'.top +ℤ b'.height))
    then resize_adjustment b'
    else b'

-- buf_scroll
pub scroll_top : ℤ → ℤ → Buf → ℤ
scroll_top y m_max b =
    let top = b.top +ℤ y in
    let top' = if ltb_ℤ m_max (top +ℤ b.height) then m_max -ℤ b.height else top in
    if ltb_ℤ top' (pos 0) then pos 0 else top'

pub buf_scroll : ℤ → ℤ → Buf → Buf
buf_scroll y m_max b =
    let top = scroll_top y m_max b in record b { top = top; lnum = b.lnum +ℤ (b.top -ℤ top) }

-- The clamping at the end of buf_mv: to the height, then to the model.
pub clamp_height : Buf → Buf
clamp_height b =
    if ltb_ℤ b.lnum (pos 0)
    then record b { lnum = pos 0 }
    else if ltb_ℤ b.height b.lnum
    then record b { lnum = b.height }
    else b

pub clamp_model : ℤ → Buf → Buf
clamp_model m_max b =
    if ltb_ℤ (m_max -ℤ pos 1) (b.lnum +ℤ b.top)
    then record b { lnum = m_max -ℤ b.top -ℤ pos 1 }
    else b

module _ (near_top near_bottom : ℤ → ℤ → Bool) where
  -- buf_mv at `y`, the lines to move.
  pub buf_mv : ℤ → ℤ → Buf → Buf
  buf_mv y m_max b =
      let b' = record b { lnum = b.lnum +ℤ y } in
      clamp_model m_max (
        clamp_height (
          if (ltb_ℤ y (pos 0) && near_top b'.lnum b'.height)
            || (ltb_ℤ (pos 0) y && near_bottom b'.lnum b'.height)
          then buf_scroll y m_max b'
          else b'))

-- The lines that a key moves: `arg * MAX(1, opcount)`.
abbrev pub times : ℤ → ℕ → ℤ
times (pos n) k = pos (n * max 1 k)
times (negsuc n) k = pos 0 -ℤ pos ((n + 1) * max 1 k)

-- buf_mv_page: the half of the height, towards 0, in the direction `forward`.
abbrev pub page_arg : Bool → Buf → ℤ
page_arg forward b = let half = half_of b.height in if forward then half else pos 0 -ℤ half
  where
    half_of : ℤ → ℤ
    half_of (pos n) = pos (n / 2)
    half_of (negsuc n) = pos 0 -ℤ pos ((n + 1) / 2)

-- buf_g: the whole model in a direction, or to the line `opcount`.
abbrev pub g_arg : Bool → ℕ → ℤ → Buf → ℤ
g_arg forward opcount m_max b =
    if not (ltb_ℤ (pos 0) (pos opcount))
    then (if forward then m_max else pos 0 -ℤ m_max)
    else (pos 0 -ℤ buf_index b) +ℤ (pos opcount -ℤ pos 1)
