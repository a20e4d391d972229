-- ===== src/Cursor/Move.antt =====
-- tui/buffer.c: where a move leaves the cursor.
use fnav.Prelude.{
  ℕ, zero, suc, ◌+◌, ◌-◌, ◌≤◌, ◌<◌, min, ◌≡◌, refl, ap, ◌∙◌, Bool, true, false, ℤ, pos, negsuc,
  ◌+ℤ◌, ◌-ℤ◌, ltb, arith, if◌then◌else◌,
}
use native.Mathlib.Decide.{dec_le}
use fnav.Cursor.{Buf, scroll_top, buf_scroll, clamp_height, clamp_model, buf_mv}

-- The cursor stands `l` rows below the first shown line, `t`.
abbrev pub at_lines : ℕ → ℕ → ℕ → ℤ → Buf
at_lines l t h ldif = record { lnum = pos l; top = pos t; height = pos h; ldif = ldif }

-- The first shown line behind a scroll down, and up.
abbrev top_down : ℕ → ℕ → ℕ → ℕ → ℕ
top_down t k h m = if ltb m (t + k + h) then m - h else t + k

abbrev top_up : ℕ → ℕ → ℕ → ℕ → ℕ
top_up t k h m = if ltb m (t - k + h) then m - h else t - k

module _ (t h m k : ℕ) (lnum d : ℤ) where
  scroll_top_down :
      scroll_top (pos k) (pos m) (record { lnum = lnum; top = pos t; height = pos h; ldif = d })
      ≡ pos (top_down t k h m)
  unfolding scroll_top
  scroll_top_down = ground arith

  scroll_top_up :
      t ≤ m
      → scroll_top
          (negsuc k)
          (pos m)
          (record { lnum = lnum; top = pos t; height = pos h; ldif = d })
        ≡ pos (top_up t (suc k) h m)
  unfolding scroll_top
  scroll_top_up fits = ground arith

shift_down :
    (l k t s : ℕ) → s ≤ l + k + t → (pos l +ℤ pos k) +ℤ (pos t -ℤ pos s) ≡ pos (l + k + t - s)
shift_down l k t s h = ground arith

-- Behind a move up that stays in the model, and behind one that would leave it.
shift_up :
    (l t s k : ℕ)
    → s + suc k ≤ l + t
    → (pos l +ℤ negsuc k) +ℤ (pos t -ℤ pos s) ≡ pos (l + t - suc k - s)
shift_up l t s k h = ground arith

shift_over :
    (l t k : ℕ)
    → l + t < suc k
    → (pos l +ℤ negsuc k) +ℤ (pos t -ℤ pos 0) ≡ negsuc (suc k - (l + t) - 1)
shift_over l t k h = ground arith

add_pos : (l k : ℕ) → pos l +ℤ pos k ≡ pos (l + k)
add_pos l k = ground arith

add_neg : (l k : ℕ) → suc k ≤ l → pos l +ℤ negsuc k ≡ pos (l - suc k)
add_neg l k h = ground arith

module _ (h : ℕ) (d : ℤ) where
  clamp_height-pos : (l t : ℕ) → clamp_height (at_lines l t h d) ≡ at_lines (min l h) t h d
  unfolding clamp_height
  clamp_height-pos l t = ground arith

  clamp_height-neg :
      (l t : ℕ)
      → clamp_height (record { lnum = negsuc l; top = pos t; height = pos h; ldif = d })
        ≡ at_lines 0 t h d
  unfolding clamp_height
  clamp_height-neg l t = ground arith

  clamp_model-pos :
      (l t m : ℕ)
      → t < m
      → clamp_model (pos m) (at_lines l t h d) ≡ at_lines (min l (m - t - 1)) t h d
  unfolding clamp_model
  clamp_model-pos l t m k = ground arith

  clamps :
      (l t m : ℕ)
      → t < m
      → clamp_model (pos m) (clamp_height (at_lines l t h d))
        ≡ at_lines (min (min l h) (m - t - 1)) t h d
  clamps l t m k = rw (clamp_height-pos l t) (clamp_model-pos (min l h) t m k)

-- What a move leaves: a cursor in the window or just below it, on the line `target` of the model.
pub record Lands (h : ℕ) (d : ℤ) (target : ℕ) (b : Buf) : Type 0 where
  pub line : ℕ
  pub first : ℕ
  pub state : b ≡ at_lines line first h d
  pub inside : line ≤ h
  pub reached : line + first ≡ target

module _ (l t h m : ℕ) (d : ℤ) (one : 1 ≤ h) (fits : l ≤ h) (within : l + t < m) where
  -- The buffer with another cursor, and with another first line too.
  abbrev cursor_at : ℤ → Buf
  cursor_at n = record { lnum = n; top = pos t; height = pos h; ldif = d }

  abbrev shown_at : ℕ → ℤ → Buf
  shown_at s n = record { lnum = n; top = pos s; height = pos h; ldif = d }

  clamped : Buf → Buf
  clamped b = clamp_model (pos m) (clamp_height b)

  clamped-pos :
      (a s : ℕ) → s < m → clamped (shown_at s (pos a)) ≡ at_lines (min (min a h) (m - s - 1)) s h d
  unfolding clamped
  clamped-pos a s k = clamps h d a s m k

  clamped-neg : (a s : ℕ) → s < m → clamped (shown_at s (negsuc a)) ≡ at_lines 0 s h d
  unfolding clamped
  clamped-neg a s k =
      ap (clamp_model (pos m)) (clamp_height-neg h d a s)
      ∙ clamp_model-pos h d 0 s m k
      ∙ ap (λ n. at_lines n s h d) (omega arith)

  scroll-shown :
      (y : ℤ) (s : ℕ) (n n' : ℤ)
      → scroll_top y (pos m) (cursor_at n) ≡ pos s
      → n +ℤ (pos t -ℤ pos s) ≡ n'
      → buf_scroll y (pos m) (cursor_at n) ≡ shown_at s n'
  unfolding buf_scroll
  scroll-shown y s n n' e f =
      ap (λ u. record { lnum = n +ℤ (pos t -ℤ u); top = u; height = pos h; ldif = d }) e
      ∙ ap (shown_at s) f

  scrolled_down :
      (k : ℕ)
      → Lands h d
          (min (l + t + k) (m - 1))
          (clamped (buf_scroll (pos k) (pos m) (cursor_at (pos l +ℤ pos k))))
  scrolled_down k =
      let s = top_down t k h m in
      let a = l + k + t - s in
      record {
        line = min (min a h) (m - s - 1);
        first = s;
        state =
            ap clamped (
              scroll-shown (pos k) s (pos l +ℤ pos k) (pos a)
                (scroll_top_down t h m k (pos l +ℤ pos k) d) (shift_down l k t s (ground arith)))
            ∙ clamped-pos a s (ground arith);
        inside = omega arith;
        reached = ground arith;
      }

  scrolled_up :
      (k : ℕ)
      → Lands h d
          (l + t - suc k)
          (clamped (buf_scroll (negsuc k) (pos m) (cursor_at (pos l +ℤ negsuc k))))
  scrolled_up k = elim (dec_le (suc k) (l + t)) [
    | yes p ↦
        let s = top_up t (suc k) h m in
        let a = l + t - suc k - s in
        record {
          line = min (min a h) (m - s - 1);
          first = s;
          state =
              ap clamped (
                scroll-shown (negsuc k) s (pos l +ℤ negsuc k) (pos a)
                  (scroll_top_up t h m k (pos l +ℤ negsuc k) d (omega arith))
                  (shift_up l t s k (ground arith)))
              ∙ clamped-pos a s (ground arith);
          inside = omega arith;
          reached = ground arith;
        }
    | no p ↦
        let over = suc k - (l + t) - 1 in
        record {
          line = 0;
          first = 0;
          state =
              ap clamped (
                scroll-shown (negsuc k) 0 (pos l +ℤ negsuc k) (negsuc over)
                  (scroll_top_up t h m k (pos l +ℤ negsuc k) d (omega arith)
                    ∙ ap pos (ground arith))
                  (shift_over l t k (omega arith)))
              ∙ clamped-neg over 0 (omega arith);
          inside = omega arith;
          reached = omega arith;
        }
  ]

  stayed_down :
      (k : ℕ)
      → l + k ≤ h
      → Lands h d (min (l + t + k) (m - 1)) (clamped (cursor_at (pos l +ℤ pos k)))
  stayed_down k small = record {
    line = min (min (l + k) h) (m - t - 1);
    first = t;
    state = ap (λ n. clamped (cursor_at n)) (add_pos l k) ∙ clamped-pos (l + k) t (omega arith);
    inside = omega arith;
    reached = omega arith;
  }

  stayed_up :
      (k : ℕ) → suc k ≤ l → Lands h d (l + t - suc k) (clamped (cursor_at (pos l +ℤ negsuc k)))
  stayed_up k small = record {
    line = min (min (l - suc k) h) (m - t - 1);
    first = t;
    state =
        ap (λ n. clamped (cursor_at n)) (add_neg l k small)
        ∙ clamped-pos (l - suc k) t (omega arith);
    inside = omega arith;
    reached = omega arith;
  }

-- The line of a model of `m` lines that is `y` lines from the line `i`, or the nearest end.
abbrev pub target : ℕ → ℤ → ℕ → ℕ
target i (pos k) m = min (i + k) (m - 1)
target i (negsuc k) m = i - suc k

-- What the two floating-point tests are relied on for: a cursor in front of the window is above 0.2
-- of its height, and one behind it is below 0.8.
pub record AreEdges (near_top near_bottom : ℤ → ℤ → Bool) : Type 0 where
  pub above : (a h : ℕ) → near_top (negsuc a) (pos h) ≡ true
  pub below : (a h : ℕ) → h < a → near_bottom (pos a) (pos h) ≡ true

module _ (near_top near_bottom : ℤ → ℤ → Bool) (edges : AreEdges near_top near_bottom) where
  -- Which way `buf_mv` goes, at what the tests answer.
  module _ (l t h m : ℕ) (d : ℤ) (one : 1 ≤ h) (fits : l ≤ h) (within : l + t < m) where
    mv_down :
        (k : ℕ) (v : Bool)
        → near_bottom (pos l +ℤ pos (suc k)) (pos h) ≡ v
        → buf_mv near_top near_bottom (pos (suc k)) (pos m) (at_lines l t h d)
          ≡ clamped l t h m d one fits within (
              if v
              then buf_scroll
                  (pos (suc k))
                  (pos m)
                  (cursor_at l t h m d one fits within (pos l +ℤ pos (suc k)))
              else cursor_at l t h m d one fits within (pos l +ℤ pos (suc k)))
    unfolding buf_mv clamped
    mv_down k v e =
        let b = cursor_at l t h m d one fits within (pos l +ℤ pos (suc k)) in
        ap
          (λ s.
            clamp_model (pos m)
              (clamp_height (if s then buf_scroll (pos (suc k)) (pos m) b else b)))
          (ground arith)

    mv_up :
        (k : ℕ) (v : Bool)
        → near_top (pos l +ℤ negsuc k) (pos h) ≡ v
        → buf_mv near_top near_bottom (negsuc k) (pos m) (at_lines l t h d)
          ≡ clamped l t h m d one fits within (
              if v
              then buf_scroll
                  (negsuc k)
                  (pos m)
                  (cursor_at l t h m d one fits within (pos l +ℤ negsuc k))
              else cursor_at l t h m d one fits within (pos l +ℤ negsuc k))
    unfolding buf_mv clamped
    mv_up k v e =
        let b = cursor_at l t h m d one fits within (pos l +ℤ negsuc k) in
        ap
          (λ s.
            clamp_model (pos m) (clamp_height (if s then buf_scroll (negsuc k) (pos m) b else b)))
          (ground arith)

  -- From a cursor on a line of the model, in the window or on the row just below it (rows are counted
  -- from 0, so the row is at most the height), and a window of one row or more, `buf_mv` leaves the
  -- cursor in the window or on the row just below it again, on the line that is `y` lines away, or on
  -- the first or last line of the model if that is beyond it; the window begins on a line of the
  -- model, wherever the two tests lie inside the window.
  pub buf_mv-Lands :
      (l t h m : ℕ) (d y : ℤ)
      → 1 ≤ h
      → l ≤ h
      → l + t < m
      → Lands h d (target (l + t) y m) (buf_mv near_top near_bottom y (pos m) (at_lines l t h d))
  unfolding buf_mv clamped
  buf_mv-Lands l t h m d (pos zero) one fits within =
      stayed_down l t h m d one fits within 0 (omega arith)
  buf_mv-Lands l t h m d (pos (suc k)) one fits within =
      go (near_bottom (pos l +ℤ pos (suc k)) (pos h)) refl
    where
      go :
          (v : Bool)
          → near_bottom (pos l +ℤ pos (suc k)) (pos h) ≡ v
          → Lands h d
              (target (l + t) (pos (suc k)) m)
              (buf_mv near_top near_bottom (pos (suc k)) (pos m) (at_lines l t h d))
      go true e =
          rw (mv_down l t h m d one fits within k true e)
            (scrolled_down l t h m d one fits within (suc k))
      go false e = rw (mv_down l t h m d one fits within k false e) (
          stayed_down l t h m d one fits within (suc k)
            (ground (arith, add_pos l (suc k), edges.below (l + suc k) h)))
  buf_mv-Lands l t h m d (negsuc k) one fits within = go (near_top (pos l +ℤ negsuc k) (pos h)) refl
    where
      go :
          (v : Bool)
          → near_top (pos l +ℤ negsuc k) (pos h) ≡ v
          → Lands h d
              (target (l + t) (negsuc k) m)
              (buf_mv near_top near_bottom (negsuc k) (pos m) (at_lines l t h d))
      go true e =
          rw (mv_up l t h m d one fits within k true e) (scrolled_up l t h m d one fits within k)
      go false e =
          rw (mv_up l t h m d one fits within k false e)
            (stayed_up l t h m d one fits within k (ground (arith, edges.above (suc k - l - 1) h)))
