-- ===== src/Model/Sort.antt =====
-- model.c: the order of the lines, and the cursor behind a sort.
use fnav.Prelude.{
  ℕ, zero, suc, ◌+◌, ◌-◌, ◌≡◌, ◌≤◌, min, refl, sym, ap, ◌∙◌, Bool, true, false, Option, some, List,
  [], ◌∷◌, if◌then◌else◌, length, get_elem?, lt-get_elem?, ℤ, pos, negsuc, ◌-ℤ◌, eqb_ℤ, arith,
  Bool-cases, Option-cases, inl, inr, str_eq,
}
use fnav.Cursor.{Buf}
use fnav.Model.{
  Model, refit, place_of, move_to, find_linear, has_value, model_curs_value, model_set_prev,
  try_old_val, try_old_pos, refind_line, model_set_curs, buf_full_invalidate, model_sort,
  sort_refit, sort_with_stat, neg_ℤ, bit_ℤ,
}
use fnav.Cursor.Move.{at_lines}
use fnav.Model.Refit.{Shows, refit-Shows, move_to_lem}

-- The answer for a compared value, and for two directory flags in front of it.
signed : Bool → ℤ → ℤ
signed rev ret = if eqb_ℤ ret (pos 0) then pos 0 else if rev then ret else neg_ℤ ret

flagged : Bool → Bool → ℤ → ℤ
flagged a b c = let dirs = bit_ℤ a -ℤ bit_ℤ b in if eqb_ℤ dirs (pos 0) then c else dirs

neg_neg : (a : ℤ) → neg_ℤ (neg_ℤ a) ≡ a
neg_neg (pos zero) = refl
neg_neg (pos (suc n)) = ground arith
neg_neg (negsuc n) = ground arith

signed-neg : (rev : Bool) (x : ℤ) → signed rev (neg_ℤ x) ≡ neg_ℤ (signed rev x)
unfolding signed
signed-neg true (pos zero) = refl
signed-neg true (pos (suc n)) = ground arith
signed-neg true (negsuc n) = ground arith
signed-neg false (pos zero) = refl
signed-neg false (pos (suc n)) = ground arith
signed-neg false (negsuc n) = ground arith

flagged-neg : (a b : Bool) (c : ℤ) → flagged a b (neg_ℤ c) ≡ neg_ℤ (flagged b a c)
unfolding flagged
flagged-neg true true c = refl
flagged-neg true false c = refl
flagged-neg false true c = refl
flagged-neg false false c = refl

-- An order for qsort_r: where the compared function is antisymmetric, so is sort_with_stat, in both
-- directions of the order; and without the flag a directory comes in front of every other record.
sort_with_stat-antisymmetric :
    {R : Type 0} (isrecdir : R → Bool) (cmp : R → R → ℤ) (rev : Bool)
    → ((a b : R) → cmp a b ≡ neg_ℤ (cmp b a))
    → ((a b : R)
        → sort_with_stat isrecdir cmp rev a b ≡ neg_ℤ (sort_with_stat isrecdir cmp rev b a))
      × ((a b : R)
          → isrecdir a ≡ true
          → isrecdir b ≡ false
          → sort_with_stat isrecdir cmp false a b ≡ negsuc 0)
unfolding sort_with_stat signed flagged
sort_with_stat-antisymmetric isrecdir cmp rev anti = (
  (λ a b.
      ap (λ c. signed rev (flagged (isrecdir a) (isrecdir b) c)) (anti a b)
      ∙ ap (signed rev) (flagged-neg (isrecdir a) (isrecdir b) (cmp b a))
      ∙ signed-neg rev (flagged (isrecdir b) (isrecdir a) (cmp b a))),
  (λ a b ea eb. rw (ea, eb) refl),
)

module _ {R : Type 0} (kname : R → List ℕ) where
  value_line :
      (lines : List R) (val : List ℕ) (i : ℕ)
      → has_value kname lines val i ≡ true
      → (r : R) × (get_elem? lines i ≡ some r) × (str_eq val (kname r) ≡ true)
  unfolding has_value
  value_line lines val i h = elim (Option-cases (get_elem? lines i)) [
    | inl e ↦ absurd (ground arith)
    | inr (r, e) ↦ (r, e, ground arith)
  ]

  finds_linear :
      (lines : List R) (val : List ℕ) (i : ℕ)
      → has_value kname lines val i ≡ true
      → (j : ℕ) × (find_linear kname lines val ≡ some j) × (has_value kname lines val j ≡ true)
  unfolding has_value find_linear
  finds_linear [] val i h = absurd (ground arith)
  finds_linear (r ∷ lines) val zero h = (0, rw h refl, h)
  finds_linear (r ∷ lines) val (suc i) h =
      let (j, e, v) = finds_linear lines val i h in
      elim (Bool-cases (str_eq val (kname r))) [
        | inl here ↦ (0, rw here refl, here)
        | inr there ↦ (suc j, rw (there, find_linear, e) refl, v)
      ]

  -- A position on a line with the value.
  On : List R → List ℕ → ℕ → ℤ × ℤ → Type 0
  On lines val lnum p =
      (top : ℕ) × (row : ℕ) × (p ≡ (pos top, pos row))
      × (row ≤ lnum)
      × (has_value kname lines val (top + row) ≡ true)

  moved_On :
      (lines : List R) (val : List ℕ) (f top lnum : ℕ)
      → has_value kname lines val f ≡ true
      → On lines val lnum (move_to f (pos top, pos lnum))
  unfolding On
  moved_On lines val f top lnum v =
      let e : (f - lnum) + min lnum f ≡ f = ground arith in
      (f - lnum, min lnum f, move_to_lem f top lnum, ground arith, rw e v)

  try_old_val-On :
      (lines : List R) (val : List ℕ) (f i top lnum : ℕ)
      → has_value kname lines val i ≡ true
      → On lines val lnum (try_old_val kname (some f) lines val (pos top, pos lnum))
  unfolding try_old_val
  try_old_val-On lines val f i top lnum h = elim (Bool-cases (has_value kname lines val f)) [
    | inl v ↦ rw v (moved_On lines val f top lnum v)
    | inr n ↦
        let (j, e, v) = finds_linear lines val i h in rw (n, e) (moved_On lines val j top lnum v)
  ]

  place_pos : (top lnum : ℕ) → place_of (pos top, pos lnum) ≡ some (top + lnum)
  unfolding place_of
  place_pos top lnum = ground arith

  old_pos :
      (lines : List R) (val : List ℕ) (top lnum : ℕ)
      → try_old_pos kname lines val (pos top, pos lnum) ≡ has_value kname lines val (top + lnum)
  unfolding try_old_pos
  old_pos lines val top lnum = rw (try_old_pos, place_pos top lnum) refl

  refind_line-On :
      (lines : List R) (val : List ℕ) (f i top lnum : ℕ)
      → has_value kname lines val i ≡ true
      → On lines val lnum (refind_line kname true (some f) lines val (pos top, pos lnum))
  unfolding refind_line On
  refind_line-On lines val f i top lnum h =
      elim (Bool-cases (has_value kname lines val (top + lnum))) [
        | inl v ↦ rw (old_pos lines val top lnum, v) (top, lnum, refl, omega arith, v)
        | inr n ↦ rw (old_pos lines val top lnum, n) (try_old_val-On lines val f i top lnum h)
      ]

  -- The cursor is on a line with the value, in the window or just below it, and the model on its record.
  pub record OnValue (lines : List R) (val : List ℕ) (h : ℕ) (s : Model R × Buf) : Type 0 where
    pub top : ℕ
    pub row : ℕ
    pub cursor : (s.1.top ≡ pos top) × (s.1.lnum ≡ pos row)
    pub inside : row ≤ h
    pub sorted_lines : s.0.lines ≡ lines
    pub cur_line : s.0.cur ≡ get_elem? lines (top + row)
    pub on_value : has_value kname lines val (top + row) ≡ true

  set_prev :
      (m : Model R) (r : R) (l t h : ℕ) (d : ℤ)
      → m.cur ≡ some r
      → model_set_prev kname (at_lines l t h d) m
        ≡ record m { ptop = pos t; plnum = pos l; pfval = some (kname r) }
  unfolding model_set_prev model_curs_value
  set_prev m r l t h d c = ground arith

  set_curs :
      (m : Model R) (i : ℕ) (r : R)
      → get_elem? m.lines i ≡ some r
      → model_set_curs i m ≡ record m { cur = some r }
  unfolding model_set_curs
  set_curs m i r e = ground arith

  invalidated :
      (m : Model R) (b : Buf) (top row : ℕ) (r : R)
      → get_elem? m.lines (top + row) ≡ some r
      → buf_full_invalidate (pos top, pos row) (m, b)
        ≡ (record m { cur = some r }, record b { top = pos top; lnum = pos row })
  unfolding buf_full_invalidate
  invalidated m b top row r e = rw (place_pos top row, set_curs m (top + row) r e) refl

  invalidated-OnValue :
      (m : Model R) (b : Buf) (val : List ℕ) (h i : ℕ) (p : ℤ × ℤ)
      → Shows (length m.lines) h i p
      → has_value kname m.lines val i ≡ true
      → OnValue m.lines val h (buf_full_invalidate p (m, b))
  invalidated-OnValue m b val h i p w v =
      let v' : has_value kname m.lines val (w.first + w.row) ≡ true = rw w.line v in
      let (r, e, _) = value_line m.lines val (w.first + w.row) v' in
      rw (w.position, invalidated m b w.first w.row r e)
        (record {
          top = w.first;
          row = w.row;
          cursor = (refl, refl);
          inside = w.inside;
          sorted_lines = refl;
          cur_line = sym e;
          on_value = v';
        })

  otherwise : (c : Bool) (x y : Model R) → c ≡ false → (if c then x else y) ≡ y
  otherwise c x y e = rw e refl

  module _ (known : List ℕ → Bool) (found : List R → List ℕ → Option ℕ)
      (sorted : List R → List R) where
    refitted :
        (m : Model R) (val : List ℕ) (l t l' t' h f : ℕ) (d : ℤ) (p : ℤ × ℤ)
        → known val ≡ true
        → found (sorted m.lines) val ≡ some f
        → refind_line kname true (some f) (sorted m.lines) val (pos t, pos l) ≡ p
        → sort_refit kname known found sorted
            (record m { ptop = pos t; plnum = pos l; pfval = some val })
            (at_lines l' t' h d)
          ≡ (let q = refit (pos (length (sorted m.lines))) (pos h) p in
              some (
                buf_full_invalidate q (
                  record m { lines = sorted m.lines; ptop = q.0; plnum = q.1; pfval = some val },
                  at_lines l' t' h d,
                )))
    unfolding sort_refit
    refitted m val l t l' t' h f d p k fd e = rw (k, fd, e) refl

    pub sort_refit-OnValue :
        (m : Model R) (val : List ℕ) (l t l' t' h f i : ℕ) (d : ℤ)
        → l ≤ h
        → known val ≡ true
        → found (sorted m.lines) val ≡ some f
        → has_value kname (sorted m.lines) val i ≡ true
        → (s : Model R × Buf) × (sort_refit kname known found sorted
              (record m { ptop = pos t; plnum = pos l; pfval = some val })
              (at_lines l' t' h d)
            ≡ some s)
          × OnValue (sorted m.lines) val h s
    unfolding On
    sort_refit-OnValue m val l t l' t' h f i d fits k fd has =
        let lines = sorted m.lines in
        let m' = record m { ptop = pos t; plnum = pos l; pfval = some val } in
        let (top, row, e, le, on) = refind_line-On lines val f i t l has in
        let (_, at, _) = value_line lines val (top + row) on in
        let p = refit (pos (length lines)) (pos h) (pos top, pos row) in
        let shows =
          refit-Shows (length lines) h top row (omega arith)
            (lt-get_elem? lines (top + row) _ at) in
        (
          buf_full_invalidate p
              (record m' { lines = lines; ptop = p.0; plnum = p.1 }, at_lines l' t' h d),
          refitted m val l t l' t' h f d (pos top, pos row) k fd e,
          invalidated-OnValue (record m' { lines = lines; ptop = p.0; plnum = p.1 })
              (at_lines l' t' h d) val h (top + row) p shows on,
        )

  -- A sort of a model that is not blocking and has a current record, with the cursor in the window or
  -- on the row just below it (rows are counted from 0, so the row is at most the height): where the
  -- table knows the value of the record, the sorted lines still have it, and bsearch finds some line,
  -- model_sort returns, and leaves the cursor in the window or on the row just below it and the
  -- current record on a line with the same value.
  pub model_sort-OnValue :
      (known : List ℕ → Bool) (found : List R → List ℕ → Option ℕ) (sorted : List R → List R)
      (m : Model R) (r : R) (l t h f i : ℕ) (d : ℤ)
      → m.blocking ≡ false
      → m.cur ≡ some r
      → l ≤ h
      → known (kname r) ≡ true
      → found (sorted m.lines) (kname r) ≡ some f
      → has_value kname (sorted m.lines) (kname r) i ≡ true
      → (s : Model R × Buf) × (model_sort kname known found sorted (m, at_lines l t h d) ≡ some s)
        × OnValue (sorted m.lines) (kname r) h s
  unfolding model_sort
  model_sort-OnValue known found sorted m r l t h f i d o c fits k fd has =
      let (s, e, on) =
        sort_refit-OnValue known found sorted m (kname r) l t l t h f i d fits k fd has in
      (
        s,
        ap (λ x. sort_refit kname known found sorted x (at_lines l t h d))
              (otherwise m.blocking m (model_set_prev kname (at_lines l t h d) m) o
                ∙ set_prev m r l t h d c)
            ∙ e,
        on,
      )
