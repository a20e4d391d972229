-- ===== src/Select/Range.antt =====
-- tui/select.c: what moving the cursor does to the selected lines.
use fnav.Prelude.{
  ℕ, suc, ◌+◌, ◌-◌, ◌<◌, min, max, ◌≡◌, refl, ◌∙◌, Bool, true, false, ◌&&◌, not, Option, none, some,
  List, [], ◌∷◌, All, arith, leb, ltb, if◌then◌else◌, length, get_elem?, set, replicate, length-set,
  length-replicate, replicate_at, get_elem?-lt,
}
use fnav.Select.{
  Cursor, buf_index, Select, fill_range, move_head, select_enter, select_toggle, select_has_line,
}
use fnav.Select.Fill.{fill-IsFilled, set_at}

-- `j` lies between `a` and `b`, whichever is the smaller.
abbrev pub between : ℕ → ℕ → ℕ → Bool
between a b j = leb (min a b) j && leb j (max a b)

-- `r` is `ls` with `v` between `a` and `b`.
record IsRanged (a b : ℕ) (v : Bool) (ls r : List Bool) : Type 0 where
  len : length r ≡ length ls
  at : (j : ℕ) → get_elem? r j ≡ (if between a b j then some v else get_elem? ls j)

fill_range-IsRanged :
    (a b : ℕ) (v : Bool) (ls : List Bool)
    → a < length ls
    → b < length ls
    → (r : List Bool) × (fill_range a b v ls ≡ some r) × IsRanged a b v ls r
fill_range-IsRanged a b v ls ha hb =
    let (r, e, f) = fill-IsFilled (suc (max a b) - min a b) (min a b) v ls (omega arith) in
    (r, e, record { len = f.len; at = λ j. ground (arith, f.at j) })

-- The lines behind one move: `v` from the origin to the new head, and `not v` where the old head
-- had reached beyond.
pub record IsMoved (head orgn idx : ℕ) (v : Bool) (ls r : List Bool) : Type 0 where
  pub len : length r ≡ length ls
  pub at :
      (j : ℕ)
      → get_elem? r j ≡ (
          if between idx orgn j
          then some v
          else if between head orgn j
          then some (not v)
          else get_elem? ls j)

pub move_head-IsMoved :
    (head orgn idx : ℕ) (v : Bool) (ls : List Bool)
    → head < length ls
    → orgn < length ls
    → idx < length ls
    → (r : List Bool) × (move_head head orgn idx v ls ≡ some r) × IsMoved head orgn idx v ls r
move_head-IsMoved head orgn idx v ls hh ho hi =
    let (r, e, f) = fill_range-IsRanged head orgn (not v) ls hh ho in
    let (t, e', g) =
      fill_range-IsRanged idx orgn v r (omega (arith, f.len)) (omega (arith, f.len)) in
    let (x, q) = get_elem?-lt t idx (omega (arith, f.len, g.len)) in
    (
      set t idx v,
      ground (arith, e, e', q),
      record {
        len = omega (arith, f.len, g.len, length-set t idx v);
        at = λ j. ground (arith, f.at j, g.at j, set_at t idx j v (omega (arith, f.len, g.len)));
      },
    )

-- The state of a selection that buffer `buf` extends, over the lines `ls`.
pub record IsOpen (buf n : ℕ) (ls : List Bool) (s : Select) : Type 0 where
  pub owned : s.owner ≡ some buf
  pub on : s.enabled ≡ true
  pub live : s.active ≡ true
  pub array : s.lines ≡ some ls
  pub size : length ls ≡ n
  pub head_in : s.head < n
  pub orgn_in : s.orgn_lnum + s.orgn_index < n

-- Moving the cursor of the owner to a line of its model writes inside the array, and leaves the
-- lines between the origin and the cursor in the state that the selection gives (`aditv`), those
-- that only the old head had reached in the other one, and the rest as it was. The count is the
-- number of lines from the origin to the cursor.
pub select_enter-IsOpen :
    (buf n idx : ℕ) (ls : List Bool) (s : Select)
    → idx < n
    → IsOpen buf n ls s
    → (r : Select) × (ls' : List Bool) × (select_enter buf idx s ≡ some r)
      × IsOpen buf n ls' r
      × IsMoved s.head (s.orgn_lnum + s.orgn_index) idx s.aditv ls ls'
      × (r.head ≡ idx)
      × (r.count ≡ max idx (s.orgn_lnum + s.orgn_index) - min idx (s.orgn_lnum + s.orgn_index) + 1)
      × (r.orgn_lnum ≡ s.orgn_lnum)
      × (r.orgn_index ≡ s.orgn_index)
      × (r.aditv ≡ s.aditv)
unfolding select_enter
select_enter-IsOpen buf n idx ls s hi v =
    let orgn = s.orgn_lnum + s.orgn_index in
    let (r, e, m) =
      move_head-IsMoved s.head orgn idx s.aditv ls (omega (arith, v.size)) (omega (arith, v.size))
        (omega (arith, v.size)) in
    (
      record s { lines = some r; count = max idx orgn - min idx orgn + 1; head = idx },
      r,
      ground (arith, v.owned, v.on, v.live, v.array, e),
      record {
        owned = v.owned;
        on = v.on;
        live = v.live;
        array = refl;
        size = omega (arith, m.len, v.size);
        head_in = hi;
        orgn_in = v.orgn_in;
      },
      m,
      refl,
      refl,
      refl,
      refl,
      refl,
    )

-- A move of the cursor for each index.
pub enter_all : ℕ → List ℕ → Select → Option Select
enter_all buf [] s = some s
enter_all buf (i ∷ is) s = elim (select_enter buf i s) [ none ↦ none | some t ↦ enter_all buf is t ]

-- Exactly the lines from the origin to the head are selected.
record IsSpan (buf n orgn : ℕ) (ls : List Bool) (s : Select) : Type 0 where
  opened : IsOpen buf n ls s
  adding : s.aditv ≡ true
  origin : s.orgn_lnum + s.orgn_index ≡ orgn
  exact : (j : ℕ) → get_elem? ls j ≡ (if ltb j n then some (between s.head orgn j) else none)

select_enter-IsSpan :
    (buf n orgn idx : ℕ) (ls : List Bool) (s : Select)
    → idx < n
    → IsSpan buf n orgn ls s
    → (r : Select) × (ls' : List Bool) × (select_enter buf idx s ≡ some r)
      × (r.head ≡ idx)
      × IsSpan buf n orgn ls' r
select_enter-IsSpan buf n orgn idx ls s hi v =
    let (r, ls', e, o, m, h, _, a, b, c) = select_enter-IsOpen buf n idx ls s hi v.opened in
    (
      r,
      ls',
      e,
      h,
      record {
        opened = o;
        adding = c ∙ v.adding;
        origin = omega (arith, v.origin);
        exact = λ j. ground (arith, m.at j, v.exact j, v.opened.orgn_in, v.adding, v.origin);
      },
    )

abbrev pub last_of : ℕ → List ℕ → ℕ
last_of d [] = d
last_of d (i ∷ is) = last_of i is

enter_all-IsSpan :
    (buf n orgn : ℕ) (is : List ℕ) (ls : List Bool) (s : Select)
    → All (λ i. i < n) is
    → IsSpan buf n orgn ls s
    → (r : Select) × (ls' : List Bool) × (enter_all buf is s ≡ some r)
      × (r.head ≡ last_of s.head is)
      × IsSpan buf n orgn ls' r
unfolding enter_all
enter_all-IsSpan buf n orgn [] ls s h v = (s, ls, refl, refl, v)
enter_all-IsSpan buf n orgn (i ∷ is) ls s h v =
    let (t, ls', e, k, w) = select_enter-IsSpan buf n orgn i ls s h.0 v in
    let (r, ls'', f, l, x) = enter_all-IsSpan buf n orgn is ls' t h.1 w in
    (r, ls'', rw (e, enter_all) f, rw k at l, x)

select_toggle-IsSpan :
    (b : Cursor) (n : ℕ) (s : Select)
    → s.active ≡ false
    → s.enabled ≡ false
    → buf_index b < n
    → (r : Select) × (ls : List Bool) × (select_toggle b n s ≡ some r)
      × (r.head ≡ buf_index b)
      × IsSpan b.id n (buf_index b) ls r
unfolding select_toggle
select_toggle-IsSpan b n s inactive off h =
    let idx = buf_index b in
    let fresh = replicate n false in
    let size : idx < length fresh = omega (arith, length-replicate n false) in
    (
      record s {
        orgn_lnum = b.lnum;
        orgn_index = b.top;
        head = idx;
        lines = some (set fresh idx true);
        max = n;
        count = s.count + 1;
        enabled = true;
        active = true;
        aditv = true;
        owner = some b.id;
      },
      set fresh idx true,
      ground (arith, inactive, off, replicate_at n idx false),
      refl,
      record {
        opened = record {
          owned = refl;
          on = refl;
          live = refl;
          array = refl;
          size = omega (arith, length-set fresh idx true, length-replicate n false);
          head_in = h;
          orgn_in = h;
        };
        adding = refl;
        origin = refl;
        exact = λ j. ground (arith, set_at fresh idx j true size, replicate_at n j false);
      },
    )

-- From no selection, a toggle at a line of a model of `n` lines and any moves of the cursor over its
-- lines access nothing outside the array, and then a line `j` of the model is selected exactly where
-- it lies between the line of the toggle and the line of the cursor.
pub selection_range :
    (b : Cursor) (n j : ℕ) (is : List ℕ) (s : Select)
    → s.active ≡ false
    → s.enabled ≡ false
    → buf_index b < n
    → All (λ i. i < n) is
    → j < n
    → (t : Select) × (r : Select) × (select_toggle b n s ≡ some t)
      × (enter_all b.id is t ≡ some r)
      × (select_has_line b.id j r ≡ some (between (last_of (buf_index b) is) (buf_index b) j))
unfolding select_has_line
selection_range b n j is s inactive off h hs hj =
    let (t, ls, e, k, v) = select_toggle-IsSpan b n s inactive off h in
    let (r, ls', f, l, w) = enter_all-IsSpan b.id n (buf_index b) is ls t hs v in
    (t, r, e, f, ground (arith, w.exact j, w.opened.owned, w.opened.live, w.opened.array, k, l))
