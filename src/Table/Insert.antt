-- ===== src/Table/Insert.antt =====
-- table.c: an insertion of one cell, and of two.
pub mod Fields
pub mod Record
use fnav.Prelude.{
  ℕ, ◌+◌, ◌≡◌, ◌⊎◌, refl, sym, ap, ◌∙◌, Bool, true, false, ◌&&◌, ◌||◌, Option, none, some, List, [],
  ◌∷◌, ◌++◌, if◌then◌else◌, length, All, str_eq, str_eq_iff, str_eq_comm, arith, Bool-cases,
  Option-cases, inl, inr, append-nil,
}
use fnav.Table.{
  Val, Fld, Cell, Rec, Table, put_at, set_field, add_val, check_set_lis, insert_cell, insert_cells,
  tbl_insert,
}
use fnav.Table.Rings.{
  cell_is, has, ids, val_of, stat_of, val_at, absent, distinct, Typed, Falling, IsValid,
  val_of-snoc, one_of_two, cell_is-cons, absent_cell, field_of, val_at_field, val_at-set_field,
  stats_kept,
}

-- A cell of the field `f` for the string `key`.
abbrev pub cell_of : Bool → List ℕ → List ℕ → Cell
cell_of true f key = (f, none)
cell_of false f key = (f, some key)

abbrev pub fresh : ℕ → Bool → Option Val → Option Val
fresh id b v = if b then some (add_val id v) else v

or_false : (b : Bool) → (b || false) ≡ b
or_false true = refl
or_false false = refl

-- What an insertion of cells does to the table, seen by its values.
pub record Inserted (id : ℕ) (cells : List Cell) (t t' : Table) : Type 0 where
  pub stats : (g : List ℕ) → stat_of t' g ≡ stat_of t g
  pub values : (g k : List ℕ) → val_at t' g k ≡ fresh id (cell_is g k cells) (val_at t g k)
  pub same_recs : t'.recs ≡ t.recs
  pub same_next : t'.next ≡ t.next

lis_keeps :
    (key : List ℕ) (id : ℕ) (fld : Fld)
    → ((check_set_lis key id fld).stat ≡ fld.stat) × ((check_set_lis key id fld).vals ≡ fld.vals)
unfolding check_set_lis
lis_keeps key id fld = elim (Option-cases (fld.lis key)) [
  | inl e ↦ (ap by_lis e, ap vals_by e)
  | inr (none, e) ↦ (ap by_lis e, ap vals_by e)
  | inr (some r, e) ↦ (ap by_lis e, ap vals_by e)
]
  where
    set_lis : Option (Option ℕ) → Fld
    set_lis none = fld
    set_lis (some (some r)) = fld
    set_lis (some none) = record fld { lis = put_at fld.lis key (some (some id)) }

    by_lis : Option (Option ℕ) → Bool
    by_lis o = (set_lis o).stat

    vals_by : Option (Option ℕ) → List ℕ → Option Val
    vals_by o = (set_lis o).vals

-- The field behind the insertion of a value.
added : ℕ → List ℕ → Fld → Fld
added id key fld =
    check_set_lis key id
      (record fld { vals = put_at fld.vals key (some (add_val id (fld.vals key))) })

added-keeps :
    (id : ℕ) (key : List ℕ) (fld : Fld)
    → ((added id key fld).stat ≡ fld.stat)
      × ((k : List ℕ) → (added id key fld).vals k ≡ fresh id (str_eq key k) (fld.vals k))
unfolding added put_at
added-keeps id key fld =
    let put = record fld { vals = put_at fld.vals key (some (add_val id (fld.vals key))) } in
    let w = lis_keeps key id put in (w.0, λ k. ap (λ v. v k) w.1 ∙ at_key k)
  where
    at_key :
        (k : List ℕ)
        → put_at fld.vals key (some (add_val id (fld.vals key))) k
          ≡ fresh id (str_eq key k) (fld.vals k)
    at_key k = elim (Bool-cases (str_eq key k)) [
      | inl e ↦ rw e (ap (λ j. some (add_val id (fld.vals j))) ((str_eq_iff key k).0 e))
      | inr e ↦ rw e refl
    ]

inserts_stat :
    (id : ℕ) (f key : List ℕ) (t : Table) (fld : Fld)
    → t.fields f ≡ some fld
    → fld.stat ≡ true
    → insert_cell id f key t ≡ some ((f, none), t)
unfolding insert_cell
inserts_stat id f key t fld e s = rw (e, insert_cell, s) refl

inserts_string :
    (id : ℕ) (f key : List ℕ) (t : Table) (fld : Fld)
    → t.fields f ≡ some fld
    → fld.stat ≡ false
    → insert_cell id f key t ≡ some ((f, some key), set_field t f (added id key fld))
unfolding insert_cell added
inserts_string id f key t fld e s = ground arith

pub insert_cell-Inserted :
    (id : ℕ) (f key : List ℕ) (s : Bool) (t : Table)
    → stat_of t f ≡ some s
    → (t' : Table) × (insert_cell id f key t ≡ some (cell_of s f key, t'))
      × Inserted id (cell_of s f key ∷ []) t t'
unfolding cell_is
insert_cell-Inserted id f key true t h =
    let (fld, e, s) = field_of t f true h in
    (
      t,
      inserts_stat id f key t fld e s,
      record { stats = λ g. refl; values = λ g k. refl; same_recs = refl; same_next = refl },
    )
insert_cell-Inserted id f key false t h =
    let (fld, e, s) = field_of t f false h in
    let w = added-keeps id key fld in
    (
      set_field t f (added id key fld),
      inserts_string id f key t fld e s,
      record {
        stats = stats_kept t f false (added id key fld) h (w.0 ∙ s);
        values = λ g k. val_at-set_field t f (added id key fld) g k ∙ value g k fld e (w.1 k);
        same_recs = refl;
        same_next = refl;
      },
    )
  where
    value :
        (g k : List ℕ) (fld : Fld)
        → t.fields f ≡ some fld
        → (added id key fld).vals k ≡ fresh id (str_eq key k) (fld.vals k)
        → (if str_eq f g then (added id key fld).vals k else val_at t g k)
          ≡ fresh id ((str_eq g f && str_eq k key) || false) (val_at t g k)
    value g k fld e w = elim (Bool-cases (str_eq f g)) [
      | inl q ↦
          let v : val_at t g k ≡ fld.vals k =
            ap (λ x. val_at t x k) (sym ((str_eq_iff f g).0 q)) ∙ val_at_field t f k fld e in
          rw (str_eq_comm g f, q, str_eq_comm k key, w, v, or_false (str_eq key k)) refl
      | inr q ↦ rw (str_eq_comm g f, q) refl
    ]

fresh_twice :
    (id : ℕ) (a b : Bool) (v : Option Val)
    → (a ≡ false) ⊎ (b ≡ false)
    → fresh id b (fresh id a v) ≡ fresh id (a || b) v
fresh_twice id true true v (inl e) = cc
fresh_twice id true true v (inr e) = cc
fresh_twice id true false v e = refl
fresh_twice id false b v e = refl

pub Inserted-cons :
    (id : ℕ) (c : Cell) (cells : List Cell) (t t1 t2 : Table)
    → absent c.0 cells ≡ true
    → Inserted id (c ∷ []) t t1
    → Inserted id cells t1 t2
    → Inserted id (c ∷ cells) t t2
Inserted-cons id c cells t t1 t2 h u v = record {
  stats = λ g. v.stats g ∙ u.stats g;
  values = λ g k.
      v.values g k
      ∙ ap (fresh id (cell_is g k cells)) (u.values g k)
      ∙ fresh_twice id (cell_is g k (c ∷ [])) (cell_is g k cells) (val_at t g k)
          (one_of_two c cells g k h)
      ∙ ap (λ b. fresh id b (val_at t g k)) (cell_is-cons c cells g k);
  same_recs = v.same_recs ∙ u.same_recs;
  same_next = v.same_next ∙ u.same_next;
}
