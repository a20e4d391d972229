-- ===== src/Table/Delete.antt =====
-- table.c: what tbl_del_rec does to the values of a record's cells, and where it leaves the entry
-- that the caller is at.
pub mod Cells
pub mod Recs
pub mod Loop
use fnav.Prelude.{
  ℕ, zero, suc, ◌+◌, ◌-◌, ◌≡◌, ◌⊎◌, refl, sym, ap, ◌∙◌, Bool, true, false, ◌&&◌, ◌||◌, not, Option,
  none, some, List, [], ◌∷◌, ◌++◌, if◌then◌else◌, length, str_eq, str_eq_iff, str_eq_refl,
  str_eq_comm, arith, Bool-cases, Option-cases, inl, inr, ◌==◌, ltb,
}
use fnav.Table.{
  Val, Fld, Cell, Rec, Table, Entry, put_at, set_field, same_entry, is_cur, unlink, head_entry,
  clear_lis, del_fldval, del_cell, del_cells,
}
use fnav.Table.Rings.{
  one_of_two, cell_is-cons, cell_is, val_of, stat_of, val_at, absent, distinct, Typed, absent_cell,
  field_of, val_at_field, val_at-set_field, stats_kept,
}

unfoldable pub mem : ℕ → List ℕ → Bool
mem i [] = false
mem i (j ∷ xs) = (i == j) || mem i xs

pub length-unlink :
    (id : ℕ) (xs : List ℕ) → mem id xs ≡ true → length xs ≡ suc (length (unlink id xs))
unfolding mem unlink
length-unlink id [] h = absurd (ground arith)
length-unlink id (x ∷ xs) h = ground (arith, length-unlink id xs)

-- The ring of a value, where the record has a cell of the value and where it has none.
abbrev pub left : ℕ → Bool → List ℕ → List ℕ
left id b xs = if b then unlink id xs else xs

pub clears :
    (key : List ℕ) (fld : Fld)
    → ((clear_lis key fld).stat ≡ fld.stat) × ((clear_lis key fld).vals ≡ fld.vals)
unfolding clear_lis
clears key fld = elim (Option-cases (fld.lis key)) [
  | inl e ↦ (rw (clear_lis, e) refl, rw (clear_lis, e) refl)
  | inr (r, e) ↦ (rw (clear_lis, e) refl, rw (clear_lis, e) refl)
]

-- What the deletion of cells does, with the rings `xs` of the values before it.
pub record Deleted (id : ℕ) (cells : List Cell) (xs : List ℕ → List ℕ → List ℕ) (t : Table)
    (cur : Option Entry) (t' : Table) (cur' : Option Entry) : Type 0 where
  pub stats : (g : List ℕ) → stat_of t' g ≡ stat_of t g
  pub values :
      (g k : List ℕ)
      → stat_of t g ≡ some false
      → val_at t' g k ≡ val_of (left id (cell_is g k cells) (xs g k))
  pub same_recs : t'.recs ≡ t.recs
  pub same_next : t'.next ≡ t.next
  pub stays :
      (g : List ℕ) (ys : List ℕ)
      → absent g cells ≡ true
      → cur ≡ head_entry g ys
      → cur' ≡ head_entry g ys
  pub moves :
      (g k : List ℕ)
      → cell_is g k cells ≡ true
      → cur ≡ some (g, id)
      → cur' ≡ head_entry g (unlink id (xs g k))

-- The field behind the deletion of an entry, with what is left of the ring.
left_field : ℕ → List ℕ → List ℕ → Fld → Fld
left_field id key [] fld = del_fldval key fld
left_field id key (i ∷ ring) fld = record fld {
  vals = put_at fld.vals key (some (record { ring = i ∷ ring; count = suc (length ring) }));
}

left_field-keeps :
    (id : ℕ) (key ys : List ℕ) (fld : Fld)
    → ((left_field id key ys fld).stat ≡ fld.stat)
      × ((k : List ℕ)
          → (left_field id key ys fld).vals k ≡ (if str_eq key k then val_of ys else fld.vals k))
unfolding left_field del_fldval val_of put_at
left_field-keeps id key [] fld =
    let w = clears key (record fld { vals = put_at fld.vals key none }) in
    (w.0, λ k. ap (λ v. v k) w.1)
left_field-keeps id key (i ∷ ring) fld = (refl, λ k. refl)

left_length :
    (id x : ℕ) (xs ys : List ℕ)
    → mem id (x ∷ xs) ≡ true
    → unlink id (x ∷ xs) ≡ ys
    → suc (length xs) - 1 ≡ length ys
left_length id x xs ys m u = omega (arith, length-unlink id (x ∷ xs) m, ap length u)

one_left : (n : ℕ) → ltb (suc n) 1 ≡ false
one_left n = ground arith

del_cell-here :
    (id : ℕ) (f key xs ys : List ℕ) (fld : Fld) (t : Table) (cur : Option Entry)
    → t.fields f ≡ some fld
    → fld.vals key ≡ val_of xs
    → mem id xs ≡ true
    → unlink id xs ≡ ys
    → del_cell id (f, some key) (t, cur)
      ≡ some (
        set_field t f (left_field id key ys fld),
        if is_cur cur (f, id) then head_entry f ys else cur,
      )
unfolding del_cell val_of left_field mem
del_cell-here id f key [] ys fld t cur e v m u = absurd (ground arith)
del_cell-here id f key (x ∷ xs) [] fld t cur e v m u =
    rw (del_cell, e, v, u, left_length id x xs [] m u) refl
del_cell-here id f key (x ∷ xs) (y ∷ ys) fld t cur e v m u =
    rw (del_cell, e, v, u, left_length id x xs (y ∷ ys) m u, one_left (length ys)) refl

same_entry_refl : (f : List ℕ) (id : ℕ) → same_entry (f, id) (f, id) ≡ true
same_entry_refl f id = rw (str_eq_refl f) (ground arith)

-- An entry of another field is not the one that goes.
other_field :
    (f g : List ℕ) (id : ℕ) (ys : List ℕ)
    → str_eq g f ≡ false
    → is_cur (head_entry g ys) (f, id) ≡ false
other_field f g id [] h = refl
other_field f g id (y ∷ ys) h = rw h refl

own_cell : (f key : List ℕ) → ((str_eq f f && str_eq key key) || false) ≡ true
own_cell f key = rw (str_eq_refl f, str_eq_refl key) refl

both : (g k f key : List ℕ) → ((str_eq g f && str_eq k key) || false) ≡ true → (g ≡ f) × (k ≡ key)
both g k f key c = ((str_eq_iff g f).0 (ground arith), (str_eq_iff k key).0 (ground arith))

one_absent :
    (g f : List ℕ) (o : Option (List ℕ)) → absent g ((f, o) ∷ []) ≡ true → str_eq g f ≡ false
unfolding absent
one_absent g f o h = ground arith

value_left :
    (id : ℕ) (f key : List ℕ) (xs : List ℕ → List ℕ → List ℕ) (t : Table) (fld fld' : Fld)
    (g k : List ℕ)
    → t.fields f ≡ some fld
    → val_at t g k ≡ val_of (xs g k)
    → fld'.vals k ≡ (if str_eq key k then val_of (unlink id (xs f key)) else fld.vals k)
    → val_at (set_field t f fld') g k
      ≡ val_of (left id ((str_eq g f && str_eq k key) || false) (xs g k))
value_left id f key xs t fld fld' g k e v w =
    val_at-set_field t f fld' g k ∙ elim (Bool-cases (str_eq f g)) [
      | inr q ↦ rw (str_eq_comm g f, q) v
      | inl q ↦ elim (Bool-cases (str_eq key k)) [
        | inl r ↦
            rw (str_eq_comm g f, q, str_eq_comm k key, r)
              (w
                ∙ rw r (
                    ap (λ x. val_of (unlink id (xs x key))) ((str_eq_iff f g).0 q)
                    ∙ ap (λ x. val_of (unlink id (xs g x))) ((str_eq_iff key k).0 r)))
        | inr r ↦
            rw (str_eq_comm g f, q, str_eq_comm k key, r)
              (w
                ∙ rw r (
                    sym (val_at_field t f k fld e)
                    ∙ ap (λ x. val_at t x k) ((str_eq_iff f g).0 q)
                    ∙ v))
      ]
    ]

cur_stays :
    (id : ℕ) (f g ys zs : List ℕ) (cur : Option Entry)
    → str_eq g f ≡ false
    → cur ≡ head_entry g zs
    → (if is_cur cur (f, id) then head_entry f ys else cur) ≡ head_entry g zs
cur_stays id f g ys zs cur h q =
    let e : is_cur cur (f, id) ≡ false = ap (λ c. is_cur c (f, id)) q ∙ other_field f g id zs h in
    rw e q

cur_moves :
    (id : ℕ) (f key g k : List ℕ) (xs : List ℕ → List ℕ → List ℕ) (cur : Option Entry)
    → g ≡ f
    → k ≡ key
    → cur ≡ some (g, id)
    → (if is_cur cur (f, id) then head_entry f (unlink id (xs f key)) else cur)
      ≡ head_entry g (unlink id (xs g k))
cur_moves id f key g k xs cur p r q =
    ap (λ c. if is_cur c (f, id) then head_entry f (unlink id (xs f key)) else c)
      (q ∙ ap (λ x. some (x, id)) p)
    ∙ rw (same_entry_refl f id) refl
    ∙ ap (λ x. head_entry x (unlink id (xs x key))) (sym p)
    ∙ ap (λ j. head_entry g (unlink id (xs g j))) (sym r)

pub del_cell-Deleted :
    (id : ℕ) (c : Cell) (xs : List ℕ → List ℕ → List ℕ) (t : Table) (cur : Option Entry)
    → Typed t (c ∷ [])
    → ((g k : List ℕ) → stat_of t g ≡ some false → val_at t g k ≡ val_of (xs g k))
    → ((g k : List ℕ) → cell_is g k (c ∷ []) ≡ true → mem id (xs g k) ≡ true)
    → (s : Table × Option Entry) × (del_cell id c (t, cur) ≡ some s)
      × Deleted id (c ∷ []) xs t cur s.0 s.1
unfolding Typed cell_is del_cell
del_cell-Deleted id (f, none) xs t cur y v m = (
  (t, cur),
  refl,
  record {
    stats = λ g. refl;
    values = v;
    same_recs = refl;
    same_next = refl;
    stays = λ g ys a e. e;
    moves = λ g k c e. absurd (ground arith);
  },
)
del_cell-Deleted id (f, some key) xs t cur y v m =
    let (fld, e, s) = field_of t f false y.0 in
    let ys = unlink id (xs f key) in
    let w = left_field-keeps id key ys fld in
    (
      (
        set_field t f (left_field id key ys fld),
        if is_cur cur (f, id) then head_entry f ys else cur,
      ),
      del_cell-here id f key (xs f key) ys fld t cur e
          (sym (val_at_field t f key fld e) ∙ v f key y.0) (m f key (own_cell f key)) refl,
      record {
        stats = stats_kept t f false (left_field id key ys fld) y.0 (w.0 ∙ s);
        values = λ g k h.
            value_left id f key xs t fld (left_field id key ys fld) g k e (v g k h) (w.1 k);
        same_recs = refl;
        same_next = refl;
        stays = λ g zs a q. cur_stays id f g ys zs cur (one_absent g f (some key) a) q;
        moves = λ g k c q. let b = both g k f key c in cur_moves id f key g k xs cur b.0 b.1 q;
      },
    )
