-- ===== src/Model.antt =====
-- model.c and filter.c: the lines of a buffer, their filter, their order, and how the cursor finds its
-- line again. A record of the table is a value of `R`; what the model reads of it and of the table is
-- a parameter. A line is its record.
pub mod Entries
pub mod Filter
pub mod Refit
pub mod Sort
mod Tests
use fnav.Prelude.{
  ℕ, zero, suc, ◌+◌, ◌-◌, Bool, true, false, ◌&&◌, not, Option, none, some, List, [], ◌∷◌, ◌++◌,
  reverse, if◌then◌else◌, length, get_elem?, ℤ, pos, negsuc, ◌+ℤ◌, ◌-ℤ◌, ltb_ℤ, eqb_ℤ, str_eq,
  ◌>>=◌,
}
use fnav.Cursor.{Buf, buf_index, max_ℤ}

-- sort_ent: the place in sort_tbl, and the flag.
pub record SortEnt : Type 0 where
  pub i : ℤ
  pub rev : Bool

-- TblLis, as far as the model reads it; `rec` is NULL where nothing is listed.
pub record Lis (R : Type 0) : Type 0 where
  pub rec : Option R
  pub index : ℤ
  pub lnum : ℤ
  pub fval : List ℕ

-- struct Model; `head` are the records of the entries of the listener, from its head on.
pub record Model (R : Type 0) : Type 0 where
  pub lines : List R
  pub cur : Option R
  pub head : Option (List R)
  pub blocking : Bool
  pub pfval : Option (List ℕ)
  pub plnum : ℤ
  pub ptop : ℤ
  pub sort : SortEnt

-- utarray_erase of one element.
module _ {ℓ} {A : Type ℓ} where
  unfoldable pub erase_at : List A → ℕ → List A
  erase_at [] i = []
  erase_at (x ∷ xs) zero = xs
  erase_at (x ∷ xs) (suc i) = x ∷ erase_at xs i

-- refit, in its four steps: the content above the index, below the window, without an offset, and
-- behind the last line. A pair is `ptop` and `plnum`.
unfoldable pub refit_above : ℤ → ℤ → ℤ × ℤ → ℤ × ℤ
refit_above count bsize (ptop, plnum) =
    let least = if ltb_ℤ count bsize then count else bsize in
    let top = count -ℤ bsize in
    if ltb_ℤ (count -ℤ ptop) least then (top, plnum +ℤ (ptop -ℤ top)) else (ptop, plnum)

unfoldable pub refit_below : ℤ → ℤ × ℤ → ℤ × ℤ
refit_below bsize (ptop, plnum) = (ptop, if ltb_ℤ bsize plnum then bsize -ℤ pos 1 else plnum)

unfoldable pub refit_fits : ℤ → ℤ → ℤ × ℤ → ℤ × ℤ
refit_fits count bsize (ptop, plnum) =
    if ltb_ℤ count bsize then (pos 0, plnum +ℤ ptop) else (ptop, plnum)

unfoldable pub refit_last : ℤ → ℤ × ℤ → ℤ × ℤ
refit_last count (ptop, plnum) =
    (ptop, if ltb_ℤ (count -ℤ pos 1) (ptop +ℤ plnum) then (count -ℤ ptop) -ℤ pos 1 else plnum)

unfoldable pub refit : ℤ → ℤ → ℤ × ℤ → ℤ × ℤ
refit count bsize p =
    refit_last count (refit_fits count bsize (refit_below bsize (refit_above count bsize p)))

-- The names in sort_tbl.
abbrev pub sort_names : List (List ℕ)
sort_names =
    (110 ∷ 97 ∷ 109 ∷ 101 ∷ [])
    ∷ (99 ∷ 116 ∷ 105 ∷ 109 ∷ 101 ∷ [])
    ∷ (115 ∷ 105 ∷ 122 ∷ 101 ∷ [])
    ∷ (116 ∷ 121 ∷ 112 ∷ 101 ∷ [])
    ∷ []

unfoldable pub find_sort : List ℕ → List (List ℕ) → Option ℕ
find_sort key [] = none
find_sort key (name ∷ names) =
    if str_eq key name
    then some 0
    else elim (find_sort key names) [ none ↦ none | some i ↦ some (suc i) ]

abbrev pub neg_ℤ : ℤ → ℤ
neg_ℤ a = pos 0 -ℤ a

abbrev pub bit_ℤ : Bool → ℤ
bit_ℤ b = if b then pos 1 else pos 0

-- The position of a line: `ptop` and `plnum` as try_old_val sets them.
unfoldable pub move_to : ℕ → ℤ × ℤ → ℤ × ℤ
move_to found (ptop, plnum) =
    let top = max_ℤ (pos 0) (ptop +ℤ (pos found -ℤ (ptop +ℤ plnum))) in
    (top, max_ℤ (pos 0) (pos found -ℤ top))

-- The place of a position among the lines, if it is one.
unfoldable pub place_of : ℤ × ℤ → Option ℕ
place_of (ptop, plnum) = elim (ptop +ℤ plnum) [ pos i ↦ some i | negsuc i ↦ none ]

-- regex_match of a compiled pattern; pcre_exec answers less than 0 for no match.
unfoldable pub regex_match : (List ℕ → ℤ) → Option (List ℕ) → Bool
regex_match exec none = false
regex_match exec (some line) = ltb_ℤ (negsuc 0) (exec line)

module _ {R : Type 0} where
  -- sort_with_stat; `cmp` is the function of the entry of sort_tbl.
  unfoldable pub sort_with_stat : (R → Bool) → (R → R → ℤ) → Bool → R → R → ℤ
  sort_with_stat isrecdir cmp rev r1 r2 =
      let dirs = bit_ℤ (isrecdir r1) -ℤ bit_ℤ (isrecdir r2) in
      let ret = if eqb_ℤ dirs (pos 0) then cmp r1 r2 else dirs in
      if eqb_ℤ ret (pos 0) then pos 0 else if rev then ret else neg_ℤ ret

  -- sort_basic
  unfoldable pub sort_basic : (R → R → ℤ) → Bool → R → R → ℤ
  sort_basic cmp rev r1 r2 =
      let ret = cmp r1 r2 in if eqb_ℤ ret (pos 0) then pos 0 else if rev then ret else neg_ℤ ret

  -- model_set_sort, with the new value of sort_default.
  unfoldable pub model_set_sort : Option (List ℕ) → Bool → Model R × SortEnt → Model R × SortEnt
  model_set_sort none rev s = s
  model_set_sort (some key) rev (m, d) = elim (find_sort key sort_names) [
    | none ↦ (m, m.sort)
    | some i ↦
        let sort : SortEnt = record { i = pos i; rev = rev } in (record m { sort = sort }, sort)
  ]

  -- generate_lines; `none` is a model without a head.
  unfoldable pub generate_lines : Model R → Option (Model R)
  generate_lines m = elim m.head [
    | none ↦ none
    | some entries ↦ some (record m { lines = m.lines ++ entries })
  ]

  unfoldable pub model_clear_filter : Model R → Option (Model R)
  model_clear_filter m = generate_lines (record m { lines = [] })

  unfoldable pub model_filter_line : ℕ → Model R → Model R
  model_filter_line i m = record m { lines = erase_at m.lines i }

  -- model_full_entry, in front of the filter: each line is put in front of the others. `recs` are the
  -- record of the listener and those behind it in the table.
  unfoldable pub full_lines : List R → List R → List R
  full_lines [] lines = lines
  full_lines (r ∷ recs) lines = full_lines recs (r ∷ lines)

  -- model_set_curs
  unfoldable pub model_set_curs : ℕ → Model R → Model R
  model_set_curs i m = elim (get_elem? m.lines i) [ none ↦ m | some r ↦ record m { cur = some r } ]

  -- buf_full_invalidate of an attached buffer: its cursor, and the record under it.
  unfoldable pub buf_full_invalidate : ℤ × ℤ → Model R × Buf → Model R × Buf
  buf_full_invalidate (index, lnum) (m, b) = (
    elim (place_of (index, lnum)) [ none ↦ m | some i ↦ model_set_curs i m ],
    record b { top = index; lnum = lnum },
  )

  -- `fname` is the field that a line shows.
  module _ (fname : R → Option (List ℕ)) where
    unfoldable pub model_str_line : Model R → ℕ → Option (List ℕ)
    model_str_line m i = elim (get_elem? m.lines i) [ none ↦ none | some r ↦ fname r ]

    -- The loop of filter_build, from the line in front of `i` down, with its count.
    unfoldable pub filter_loop : (List ℕ → ℤ) → ℕ → Model R × ℕ → Model R × ℕ
    filter_loop exec zero s = s
    filter_loop exec (suc i) (m, count) = filter_loop exec i (
        if regex_match exec (model_str_line m i)
        then (m, count)
        else (model_filter_line i m, count + 1))

    -- filter_build, with what buf_signal_filter gets.
    unfoldable pub filter_build : (List ℕ → ℤ) → Model R → Option (Model R × ℕ)
    filter_build exec m =
        model_clear_filter m >>= λ m'. some (filter_loop exec (length m'.lines) (m', 0))

    -- filter_apply; `line` is the filter's text.
    unfoldable pub filter_apply : List ℕ → (List ℕ → ℤ) → Model R → Option (Model R)
    filter_apply [] exec m = some m
    filter_apply (c ∷ line) exec m = filter_build exec m >>= λ s. some s.0

  -- `kname` is the field that tells the lines apart.
  module _ (kname : R → List ℕ) where
    unfoldable pub find_linear : List R → List ℕ → Option ℕ
    find_linear [] val = none
    find_linear (r ∷ lines) val =
        if str_eq val (kname r)
        then some 0
        else elim (find_linear lines val) [ none ↦ none | some i ↦ some (suc i) ]

    -- Whether the line `i` has the value; false also where there is no such line.
    unfoldable pub has_value : List R → List ℕ → ℕ → Bool
    has_value lines val i = elim (get_elem? lines i) [
      | none ↦ false
      | some r ↦ str_eq val (kname r)
    ]

    -- model_curs_value
    unfoldable pub model_curs_value : Model R → Option (List ℕ)
    model_curs_value m = elim m.cur [ none ↦ none | some r ↦ some (kname r) ]

    -- model_set_prev
    unfoldable pub model_set_prev : Buf → Model R → Model R
    model_set_prev b m =
        let m' = record m { ptop = b.top; plnum = b.lnum } in
        elim (model_curs_value m) [ none ↦ m' | some val ↦ record m' { pfval = some val } ]

    -- try_old_val; `found` is what bsearch_r answers for the record of the value, if that record has
    -- an entry of the field dir.
    unfoldable pub try_old_val : Option ℕ → List R → List ℕ → ℤ × ℤ → ℤ × ℤ
    try_old_val none lines val p = p
    try_old_val (some f) lines val p =
        if has_value lines val f
        then move_to f p
        else elim (find_linear lines val) [ none ↦ p | some i ↦ move_to i p ]

    -- try_old_pos
    unfoldable pub try_old_pos : List R → List ℕ → ℤ × ℤ → Bool
    try_old_pos lines val p = elim (place_of p) [ none ↦ false | some i ↦ has_value lines val i ]

    -- refind_line; `known` is whether the table has the value, as fnd_val answers.
    unfoldable pub refind_line : Bool → Option ℕ → List R → List ℕ → ℤ × ℤ → ℤ × ℤ
    refind_line known found lines val p =
        if known then (if try_old_pos lines val p then p else try_old_val found lines val p) else p

    -- model_sort behind model_set_prev; `sorted` is what utarray_sort makes of the lines. `none` is the
    -- NULL of `pfval` that, in a table with values, refind_line hands on to strlen.
    unfoldable pub sort_refit :
        (List ℕ → Bool)
        → (List R → List ℕ → Option ℕ)
        → (List R → List R)
        → Model R
        → Buf
        → Option (Model R × Buf)
    sort_refit known found sorted m b =
        let lines = sorted m.lines in
        elim m.pfval [
          | none ↦ none
          | some val ↦
              let p =
                refit (pos (length lines)) b.height
                  (refind_line (known val) (found lines val) lines val (m.ptop, m.plnum)) in
              some (buf_full_invalidate p (record m { lines = lines; ptop = p.0; plnum = p.1 }, b))
        ]

    unfoldable pub model_sort :
        (List ℕ → Bool)
        → (List R → List ℕ → Option ℕ)
        → (List R → List R)
        → Model R × Buf
        → Option (Model R × Buf)
    model_sort known found sorted (m, b) =
        sort_refit known found sorted (if m.blocking then m else model_set_prev b m) b
