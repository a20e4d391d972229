-- ===== src/Cursor/Resize.antt =====
-- tui/buffer.c: where a new size of the window leaves the cursor.
use fnav.Prelude.{
  ℕ, ◌+◌, ◌-◌, ◌≤◌, ◌<◌, min, ◌≡◌, refl, Bool, true, false, ◌||◌, ◌&&◌, not, ℤ, pos, ◌+ℤ◌, ◌-ℤ◌,
  ltb_ℤ, arith, if◌then◌else◌,
}
use fnav.Cursor.{Buf, resize_adjustment, buf_set_size}
use fnav.Cursor.Move.{at_lines}

-- The cursor of a window of `n` lines, on the line `target`.
pub record Shows (n target : ℕ) (b : Buf) : Type 0 where
  pub line : ℕ
  pub first : ℕ
  pub dif : ℤ
  pub state : b ≡ at_lines line first n dif
  pub inside : line < n
  pub same : line + first ≡ target

adjusted :
    (l t n : ℕ) (d : ℤ)
    → 1 ≤ n
    → resize_adjustment (at_lines l t n d) ≡ at_lines (min (l + t) (n - 1)) (l + t + 1 - n) n d
unfolding resize_adjustment
adjusted l t n d one = ground arith

less_one : (n : ℕ) → pos (n + 1) -ℤ pos 1 ≡ pos n
less_one n = ground arith

-- The difference that the buffer keeps of its heights.
abbrev dif_of : ℕ → ℤ → ℕ → ℤ
dif_of h d n = if ltb_ℤ (pos 0) (pos h) then pos h -ℤ pos n else d

-- Whether a cursor is adjusted.
abbrev adjusts : ℕ → ℕ → ℤ → ℕ → ℕ → Bool
adjusts l t e n m =
    not (ltb_ℤ (pos l) (pos n)) || (ltb_ℤ e (pos 0) && ltb_ℤ (pos m) (pos t +ℤ pos n))

unadjusted : (l t n m : ℕ) (e : ℤ) → adjusts l t e n m ≡ false → l < n
unadjusted l t n m e f = ground arith

shown :
    (l t n m : ℕ) (e : ℤ)
    → 1 ≤ n
    → Shows n
        (l + t)
        (if adjusts l t e n m then resize_adjustment (at_lines l t n e) else at_lines l t n e)
shown l t n m e one = go (adjusts l t e n m) refl
  where
    go :
        (v : Bool)
        → adjusts l t e n m ≡ v
        → Shows n (l + t) (if v then resize_adjustment (at_lines l t n e) else at_lines l t n e)
    go true f = record {
      line = min (l + t) (n - 1);
      first = l + t + 1 - n;
      dif = e;
      state = adjusted l t n e one;
      inside = omega arith;
      same = omega arith;
    }
    go false f = record {
      line = l;
      first = t;
      dif = e;
      state = refl;
      inside = unadjusted l t n m e f;
      same = refl;
    }

-- A new size of two lines or more (one is the status line) keeps the cursor on its line of the model
-- and inside the window, whatever the old height and the model are.
pub buf_set_size-Shows :
    (l t h n m : ℕ) (d : ℤ)
    → 1 ≤ n
    → Shows n (l + t) (buf_set_size (pos m) (pos (n + 1)) (at_lines l t h d))
unfolding buf_set_size
buf_set_size-Shows l t h n m d one = rw (less_one n) (shown l t n m (dif_of h d n) one)
