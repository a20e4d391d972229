-- ===== src/Model/Refit.antt =====
-- model.c: what refit makes of a position, and where refind_line goes.
use fnav.Prelude.{
  ℕ, zero, suc, ◌+◌, ◌-◌, ◌≡◌, ◌≤◌, ◌<◌, min, refl, ap, ◌∙◌, ltb, ltb→lt, if◌then◌else◌, ℤ, pos,
  negsuc, ◌+ℤ◌, arith, Bool-cases, inl, inr,
}
use fnav.Model.{refit_above, refit_below, refit_fits, refit_last, refit, move_to}

-- The line `i` of the model stands on the row `row` of the window, or on the row just below it.
pub record Shows (count bsize i : ℕ) (p : ℤ × ℤ) : Type 0 where
  pub first : ℕ
  pub row : ℕ
  pub position : p ≡ (pos first, pos row)
  pub line : first + row ≡ i
  pub inside : row ≤ bsize
  pub within : i < count

module _ (count bsize top lnum : ℕ) where
  above_within :
      bsize + top ≤ count
      → refit_above (pos count) (pos bsize) (pos top, pos lnum) ≡ (pos top, pos lnum)
  unfolding refit_above
  above_within h = ground arith

  above_beyond :
      bsize ≤ count
      → count < bsize + top
      → refit_above (pos count) (pos bsize) (pos top, pos lnum)
        ≡ (pos (count - bsize), pos (lnum + top - (count - bsize)))
  unfolding refit_above
  above_beyond h k = ground arith

  -- A model that is smaller than the window.
  above_small :
      count < bsize
      → refit_above (pos count) (pos bsize) (pos (suc top), pos lnum)
        ≡ (negsuc (bsize - count - 1), pos (lnum + suc top + (bsize - count)))
  unfolding refit_above
  above_small h = ground arith

  above_zero :
      count < bsize → refit_above (pos count) (pos bsize) (pos 0, pos lnum) ≡ (pos 0, pos lnum)
  unfolding refit_above
  above_zero h = ground arith

  below_inside : (t : ℤ) → lnum ≤ bsize → refit_below (pos bsize) (t, pos lnum) ≡ (t, pos lnum)
  unfolding refit_below
  below_inside t h = ground arith

  below_outside :
      (t : ℤ)
      → bsize < lnum
      → 1 ≤ bsize
      → refit_below (pos bsize) (t, pos lnum) ≡ (t, pos (bsize - 1))
  unfolding refit_below
  below_outside t h k = ground arith

  fits_larger :
      bsize ≤ count → refit_fits (pos count) (pos bsize) (pos top, pos lnum) ≡ (pos top, pos lnum)
  unfolding refit_fits
  fits_larger h = ground arith

  fits_smaller :
      (t : ℤ)
      → count < bsize
      → refit_fits (pos count) (pos bsize) (t, pos lnum) ≡ (pos 0, pos lnum +ℤ t)
  unfolding refit_fits
  fits_smaller t h = ground arith

  last_inside :
      top + lnum < count → refit_last (pos count) (pos top, pos lnum) ≡ (pos top, pos lnum)
  unfolding refit_last
  last_inside h = ground arith

  last_outside :
      count ≤ top + lnum
      → top < count
      → refit_last (pos count) (pos top, pos lnum) ≡ (pos top, pos (count - top - 1))
  unfolding refit_last
  last_outside h k = ground arith

refit_chain :
    (c b : ℤ) (p p1 p2 p3 p4 : ℤ × ℤ)
    → refit_above c b p ≡ p1
    → refit_below b p1 ≡ p2
    → refit_fits c b p2 ≡ p3
    → refit_last c p3 ≡ p4
    → refit c b p ≡ p4
unfolding refit
refit_chain c b p p1 p2 p3 p4 e1 e2 e3 e4 = rw (e1, e2, e3) e4

-- The sum of a row and a negative top.
under : (r k : ℕ) → k < r → pos r +ℤ negsuc k ≡ pos (r - k - 1)
under r k h = ground arith

-- A line of the model in a row of the window stays under the cursor.
pub refit-Shows :
    (count bsize top lnum : ℕ)
    → lnum ≤ bsize
    → top + lnum < count
    → Shows count bsize (top + lnum) (refit (pos count) (pos bsize) (pos top, pos lnum))
refit-Shows count bsize top lnum fits within = elim (Bool-cases (ltb count bsize)) [
  | inl small ↦ small_model top fits within (ltb→lt count bsize small)
  | inr large ↦ elim (Bool-cases (ltb count (bsize + top))) [
    | inl beyond ↦
        let row = lnum + top - (count - bsize) in
        record {
          first = count - bsize;
          row = row;
          position =
              refit_chain _ _ _ _ _ _ _
                (above_beyond count bsize top lnum (ground arith)
                  (ltb→lt count (bsize + top) beyond))
                (below_inside count bsize top row (pos (count - bsize)) (ground arith))
                (fits_larger count bsize (count - bsize) row (ground arith))
                (last_inside count bsize (count - bsize) row (ground arith));
          line = ground arith;
          inside = ground arith;
          within = within;
        }
    | inr full ↦ record {
      first = top;
      row = lnum;
      position =
          refit_chain _ _ _ _ _ _ _ (above_within count bsize top lnum (ground arith))
            (below_inside count bsize top lnum (pos top) fits)
            (fits_larger count bsize top lnum (ground arith))
            (last_inside count bsize top lnum within);
      line = refl;
      inside = fits;
      within = within;
    }
  ]
]
  where
    small_model :
        (t : ℕ)
        → lnum ≤ bsize
        → t + lnum < count
        → count < bsize
        → Shows count bsize (t + lnum) (refit (pos count) (pos bsize) (pos t, pos lnum))
    small_model zero f w s = record {
      first = 0;
      row = lnum;
      position =
          refit_chain _ _ _ _ _ _ _ (above_zero count bsize 0 lnum s)
            (below_inside count bsize 0 lnum (pos 0) f)
            (fits_smaller count bsize 0 lnum (pos 0) s ∙ ground arith)
            (last_inside count bsize 0 lnum (omega arith));
      line = refl;
      inside = f;
      within = w;
    }
    small_model (suc t) f w s =
        let row = lnum + suc t + (bsize - count) in
        record {
          first = 0;
          row = suc t + lnum;
          position =
              refit_chain _ _ _ _ _ _ _ (above_small count bsize t lnum s)
                (below_inside count bsize 0 row (negsuc (bsize - count - 1)) (omega arith))
                (fits_smaller count bsize 0 row (negsuc (bsize - count - 1)) s
                  ∙ ap (λ x. (pos 0, x))
                      (under row (bsize - count - 1) (omega arith) ∙ ap pos (omega arith)))
                (last_inside count bsize 0 (suc t + lnum) (omega arith));
          line = omega arith;
          inside = omega arith;
          within = w;
        }

-- The row that refit_below leaves.
kept_row : ℕ → ℕ → ℕ
kept_row bsize lnum = if ltb bsize lnum then bsize - 1 else lnum

kept_row-le : (bsize lnum : ℕ) → kept_row bsize lnum ≤ bsize
unfolding kept_row
kept_row-le bsize lnum = ground arith

kept_row_long : (bsize row k : ℕ) → k < row → k + 1 < bsize → k < kept_row bsize row
unfolding kept_row
kept_row_long bsize row k h g = ground arith

below_kept :
    (count bsize lnum : ℕ) (t : ℤ)
    → 1 ≤ bsize
    → refit_below (pos bsize) (t, pos lnum) ≡ (t, pos (kept_row bsize lnum))
unfolding kept_row refit_below
below_kept count bsize lnum t h = ground arith

-- A position from the step refit_last on.
last_Shows :
    (count bsize top row : ℕ) (p : ℤ × ℤ)
    → row ≤ bsize
    → top < count
    → p ≡ refit_last (pos count) (pos top, pos row)
    → (i : ℕ) × Shows count bsize i p
last_Shows count bsize top row p f w e = elim (Bool-cases (ltb (top + row) count)) [
  | inl inside ↦ (
    top + row,
    record {
      first = top;
      row = row;
      position = e ∙ last_inside count bsize top row (ltb→lt (top + row) count inside);
      line = refl;
      inside = f;
      within = ltb→lt (top + row) count inside;
    },
  )
  | inr outside ↦ (
    count - 1,
    record {
      first = top;
      row = count - top - 1;
      position = e ∙ last_outside count bsize top row (ground arith) w;
      line = omega arith;
      inside = ground arith;
      within = omega arith;
    },
  )
]

refit_last_chain :
    (c b : ℤ) (p p1 p2 p3 : ℤ × ℤ)
    → refit_above c b p ≡ p1
    → refit_below b p1 ≡ p2
    → refit_fits c b p2 ≡ p3
    → refit c b p ≡ refit_last c p3
unfolding refit
refit_last_chain c b p p1 p2 p3 e1 e2 e3 = rw (e1, e2, e3) refl

-- Whatever the position, a first line and a row that are not negative, of a model and a window of a
-- line or more, refit leaves the cursor on a line of the model, in the window or on the row just
-- below it (rows are counted from 0, so the row is at most the height).
pub refit-inside :
    (count bsize top lnum : ℕ)
    → 1 ≤ count
    → 1 ≤ bsize
    → (i : ℕ) × Shows count bsize i (refit (pos count) (pos bsize) (pos top, pos lnum))
refit-inside count bsize top lnum some_lines some_rows = elim (Bool-cases (ltb count bsize)) [
  | inl small ↦ small_model top (ltb→lt count bsize small)
  | inr large ↦ elim (Bool-cases (ltb count (bsize + top))) [
    | inl beyond ↦
        let row = lnum + top - (count - bsize) in
        last_Shows count bsize (count - bsize) (kept_row bsize row) _ (kept_row-le bsize row)
          (ground arith)
          (refit_last_chain _ _ _ _ _ _
            (above_beyond count bsize top lnum (ground arith) (ltb→lt count (bsize + top) beyond))
            (below_kept count bsize row (pos (count - bsize)) some_rows)
            (fits_larger count bsize (count - bsize) (kept_row bsize row) (ground arith)))
    | inr full ↦
        last_Shows count bsize top (kept_row bsize lnum) _ (kept_row-le bsize lnum) (ground arith) (
          refit_last_chain _ _ _ _ _ _ (above_within count bsize top lnum (ground arith))
            (below_kept count bsize lnum (pos top) some_rows)
            (fits_larger count bsize top (kept_row bsize lnum) (ground arith)))
  ]
]
  where
    small_model :
        (t : ℕ)
        → count < bsize
        → (i : ℕ) × Shows count bsize i (refit (pos count) (pos bsize) (pos t, pos lnum))
    small_model zero s =
        last_Shows count bsize 0 (kept_row bsize lnum) _ (kept_row-le bsize lnum) (omega arith) (
          refit_last_chain _ _ _ _ _ _ (above_zero count bsize 0 lnum s)
            (below_kept count bsize lnum (pos 0) some_rows)
            (fits_smaller count bsize 0 (kept_row bsize lnum) (pos 0) s ∙ ground arith))
    small_model (suc t) s =
        let row = lnum + suc t + (bsize - count) in
        let left = kept_row bsize row - (bsize - count - 1) - 1 in
        last_Shows count bsize 0 left _ (omega (arith, kept_row-le bsize row)) (omega arith) (
          refit_last_chain _ _ _ _ _ _ (above_small count bsize t lnum s)
            (below_kept count bsize row (negsuc (bsize - count - 1)) some_rows)
            (fits_smaller count bsize 0 (kept_row bsize row) (negsuc (bsize - count - 1)) s
              ∙ ap (λ x. (pos 0, x))
                  (under (kept_row bsize row) (bsize - count - 1)
                    (kept_row_long bsize row (bsize - count - 1) (omega arith) (omega arith)))))

-- move_to keeps the row, unless the line is nearer to the first line than the row is to the top.
pub move_to_lem :
    (found top lnum : ℕ)
    → move_to found (pos top, pos lnum) ≡ (pos (found - lnum), pos (min lnum found))
unfolding move_to
move_to_lem found top lnum = ground arith
