-- ===== src/Table/Tests.antt =====
-- table.c: a table with two fields and two records.
use fnav.Prelude.{ℕ, ◌≡◌, refl, true, false, Option, none, some, List, [], ◌∷◌, str_eq, arith}
use fnav.Table.{
  fnd_val, Table, tbl_mk_fld, tbl_insert, insert_cells, insert_cell, check_set_lis, add_val, put_at,
  tbl_del_val,
}
use fnav.Table.Rings.{IsValid, val_at, stat_of, Falling, distinct, absent}
use fnav.Table.Insert.Fields.{Known, as_cells}
use fnav.Table.Insert.Record.{tbl_insert-IsValid, new_rec}
use fnav.Table.Find.{oldest, fnd_val-oldest}
use fnav.Table.Fields.{tbl_mk_fld-IsValid}
use fnav.Table.Delete.Loop.{tbl_del_val-without, without}

abbrev no_table : Table
no_table = record { fields = λ f. none; fld_count = 0; recs = []; rec_count = 0; next = 0 }

abbrev with_fields : Table
with_fields = tbl_mk_fld (110 ∷ []) false (tbl_mk_fld (115 ∷ []) true no_table)

no_table-IsValid : IsValid no_table
unfolding stat_of val_at Falling
no_table-IsValid = record { rings = λ f k s. absurd (ground arith); cells = tt; falling = tt }

with_fields-IsValid : IsValid with_fields
unfolding tbl_mk_fld
with_fields-IsValid =
    tbl_mk_fld-IsValid (110 ∷ []) false (tbl_mk_fld (115 ∷ []) true no_table)
      (tbl_mk_fld-IsValid (115 ∷ []) true no_table no_table-IsValid refl) refl

abbrev row : List (List ℕ × List ℕ)
row = (110 ∷ [], 120 ∷ []) ∷ (115 ∷ [], 121 ∷ []) ∷ []

row-Known : Known with_fields row
unfolding Known tbl_mk_fld stat_of put_at str_eq
row-Known = ((false, refl), ((true, refl), tt))

tbl_insert-IsValid_example :
    (t' : Table) × (tbl_insert row with_fields ≡ some t')
    × IsValid t'
    × (t'.recs ≡ new_rec with_fields row ∷ with_fields.recs)
unfolding tbl_mk_fld as_cells distinct absent str_eq
tbl_insert-IsValid_example =
    tbl_insert-IsValid row with_fields with_fields-IsValid refl row-Known refl

-- What an insertion makes of the table.
abbrev made : Option Table → Table
made none = no_table
made (some t) = t

abbrev one_row : Table
one_row = made (tbl_insert row with_fields)

one_row-IsValid : IsValid one_row
one_row-IsValid = let (t', e, v, rs) = tbl_insert-IsValid_example in rw e v

names_strings : stat_of one_row (110 ∷ []) ≡ some false
unfolding stat_of tbl_insert insert_cells insert_cell check_set_lis add_val put_at tbl_mk_fld str_eq
names_strings = refl

tbl_del_val-without_example :
    (t' : Table) × (tbl_del_val (110 ∷ []) (120 ∷ []) one_row ≡ some t')
    × IsValid t'
    × (t'.recs ≡ without (110 ∷ []) (120 ∷ []) one_row.recs)
    × (val_at t' (110 ∷ []) (120 ∷ []) ≡ none)
tbl_del_val-without_example =
    tbl_del_val-without (110 ∷ []) (120 ∷ []) one_row one_row-IsValid names_strings

fnd_val-oldest_example :
    fnd_val (110 ∷ []) (120 ∷ []) one_row ≡ oldest (110 ∷ []) (120 ∷ []) one_row.recs
fnd_val-oldest_example = fnd_val-oldest (110 ∷ []) (120 ∷ []) one_row one_row-IsValid names_strings

-- The record of the row is found.
finds_row : fnd_val (110 ∷ []) (120 ∷ []) one_row ≡ some 0
unfolding fnd_val tbl_insert insert_cells insert_cell check_set_lis add_val put_at tbl_mk_fld str_eq
finds_row = refl
