-- ===== src/Table.antt =====
-- table.c: the tables of records, with the ring of the entries of each value and the listeners. A
-- record is its address. The rings are lists from their head `rlist` on, the hash tables functions
-- from their keys, and a value is told by its field and its key. `none` is a fault: a field, a value
-- or a record that is not there.
pub mod Rings
pub mod Insert
pub mod Delete
pub mod Fields
pub mod Find
mod Tests
use fnav.Prelude.{
  ℕ, zero, suc, ◌+◌, ◌-◌, Bool, true, false, ◌&&◌, not, Option, none, some, List, [], ◌∷◌, ◌++◌,
  ltb, ◌==◌, if◌then◌else◌, length, str_eq, ◌>>=◌,
}

-- TblVal of a field with strings.
pub record Val : Type 0 where
  pub ring : List ℕ
  pub count : ℕ

-- TblFld; `stat` is TYP_STAT in its type, and `lis` has the record of each listener.
pub record Fld : Type 0 where
  pub stat : Bool
  pub vals : List ℕ → Option Val
  pub lis : List ℕ → Option (Option ℕ)

-- A value of a record: its field, and its key where the field has strings.
abbrev pub Cell : Type 0
Cell = List ℕ × Option (List ℕ)

pub record Rec : Type 0 where
  pub id : ℕ
  pub cells : List Cell

-- struct Table, with its records from the first of the list on; `next` is the address of the next
-- record.
pub record Table : Type 0 where
  pub fields : List ℕ → Option Fld
  pub fld_count : ℕ
  pub recs : List Rec
  pub rec_count : ℕ
  pub next : ℕ

unfoldable pub put_at {ℓ} : {A : Type ℓ} → (List ℕ → A) → List ℕ → A → List ℕ → A
put_at g k a j = if str_eq k j then a else g j

abbrev pub set_field : Table → List ℕ → Fld → Table
set_field t f fld = record t { fields = put_at t.fields f (some fld) }

-- new_entry and add_entry, of a string.
unfoldable pub add_val : ℕ → Option Val → Val
add_val id none = record { ring = id ∷ []; count = 1 }
add_val id (some v) = record { ring = v.ring ++ (id ∷ []); count = v.count + 1 }

-- check_set_lis
unfoldable pub check_set_lis : List ℕ → ℕ → Fld → Fld
check_set_lis key id fld = elim (fld.lis key) [
  | none ↦ fld
  | some (some r) ↦ fld
  | some none ↦ record fld { lis = put_at fld.lis key (some (some id)) }
]

-- One turn of tbl_insert, and the cell that it sets.
unfoldable pub insert_cell : ℕ → List ℕ → List ℕ → Table → Option (Cell × Table)
insert_cell id f key t = elim (t.fields f) [
  | none ↦ none
  | some fld ↦
      if fld.stat
      then some ((f, none), t)
      else (let fld' = record fld {
        vals = put_at fld.vals key (some (add_val id (fld.vals key)));
      } in
          some ((f, some key), set_field t f (check_set_lis key id fld')))
]

-- The loop of tbl_insert, over the fields and strings of the transaction; it takes `n` of them.
unfoldable pub insert_cells : ℕ → ℕ → List (List ℕ × List ℕ) → Table → Option (List Cell × Table)
insert_cells zero id trec t = some ([], t)
insert_cells (suc n) id [] t = none
insert_cells (suc n) id ((f, key) ∷ trec) t = elim (insert_cell id f key t) [
  | none ↦ none
  | some (c, t') ↦ elim (insert_cells n id trec t') [
    | none ↦ none
    | some (cs, t'') ↦ some (c ∷ cs, t'')
  ]
]

unfoldable pub tbl_insert : List (List ℕ × List ℕ) → Table → Option Table
tbl_insert trec t = elim (insert_cells t.fld_count t.next trec t) [
  | none ↦ none
  | some (cells, t') ↦ some (record t' {
    recs = record { id = t.next; cells = cells } ∷ t'.recs;
    rec_count = t'.rec_count + 1;
    next = t.next + 1;
  })
]

-- An entry: its field and its record.
abbrev pub Entry : Type 0
Entry = List ℕ × ℕ

abbrev pub same_entry : Entry → Entry → Bool
same_entry (f, i) (g, j) = str_eq f g && (i == j)

abbrev pub is_cur : Option Entry → Entry → Bool
is_cur none e = false
is_cur (some c) e = same_entry c e

-- The ring without the entry of a record.
unfoldable pub unlink : ℕ → List ℕ → List ℕ
unlink id [] = []
unlink id (i ∷ ring) = if id == i then ring else i ∷ unlink id ring

abbrev pub head_entry : List ℕ → List ℕ → Option Entry
head_entry f [] = none
head_entry f (i ∷ ring) = some (f, i)

-- `ll->rec = NULL` of the listener of a key, if there is one.
unfoldable pub clear_lis : List ℕ → Fld → Fld
clear_lis key fld = elim (fld.lis key) [
  | none ↦ fld
  | some r ↦ record fld { lis = put_at fld.lis key (some none) }
]

-- del_fldval
unfoldable pub del_fldval : List ℕ → Fld → Fld
del_fldval key fld = clear_lis key (record fld { vals = put_at fld.vals key none })

-- One turn of tbl_del_rec, with del_fldval or pop_ventry.
unfoldable pub del_cell : ℕ → Cell → Table × Option Entry → Option (Table × Option Entry)
del_cell id (f, none) s = some s
del_cell id (f, some key) (t, cur) = elim (t.fields f) [
  | none ↦ none
  | some fld ↦ elim (fld.vals key) [
    | none ↦ none
    | some v ↦
        let here = is_cur cur (f, id) in
        let count = v.count - 1 in
        let ring = unlink id v.ring in
        if ltb count 1
        then some (set_field t f (del_fldval key fld), if here then none else cur)
        else some (
          set_field t f (record fld {
            vals = put_at fld.vals key (some (record { ring = ring; count = count }));
          }),
          if here then head_entry f ring else cur,
        )
  ]
]

unfoldable pub del_cells : ℕ → List Cell → Table × Option Entry → Option (Table × Option Entry)
del_cells id [] s = some s
del_cells id (c ∷ cells) s = elim (del_cell id c s) [
  | none ↦ none
  | some s' ↦ del_cells id cells s'
]

unfoldable pub find_rec : ℕ → List Rec → Option Rec
find_rec id [] = none
find_rec id (r ∷ recs) = if id == r.id then some r else find_rec id recs

-- LIST_REMOVE
unfoldable pub remove_rec : ℕ → List Rec → List Rec
remove_rec id [] = []
remove_rec id (r ∷ recs) = if id == r.id then recs else r ∷ remove_rec id recs

unfoldable pub tbl_del_rec : ℕ → Table × Option Entry → Option (Table × Option Entry)
tbl_del_rec id (t, cur) = elim (find_rec id t.recs) [
  | none ↦ none
  | some r ↦ elim (del_cells id r.cells (t, cur)) [
    | none ↦ none
    | some (t', cur') ↦ some (record t' { recs = remove_rec id t'.recs }, cur')
  ]
]

-- The loop of tbl_del_val, `count` rounds.
unfoldable pub del_loop : ℕ → Table × Option Entry → Option Table
del_loop zero (t, cur) = some t
del_loop (suc n) (t, none) = none
del_loop (suc n) (t, some e) = elim (tbl_del_rec e.1 (t, some e)) [
  | none ↦ none
  | some s ↦ del_loop n s
]

unfoldable pub tbl_del_val : List ℕ → List ℕ → Table → Option Table
tbl_del_val f key t = elim (t.fields f) [
  | none ↦ some t
  | some fld ↦ elim (fld.vals key) [
    | none ↦ some t
    | some v ↦ del_loop v.count (set_field t f (clear_lis key fld), head_entry f v.ring)
  ]
]

-- fnd_val: the head entry's record; `none` where the table has no such value.
unfoldable pub fnd_val : List ℕ → List ℕ → Table → Option ℕ
fnd_val f key t = elim (t.fields f) [
  | none ↦ none
  | some fld ↦ elim (fld.vals key) [
    | none ↦ none
    | some v ↦ elim v.ring [ [] ↦ none | i ∷ ring ↦ some i ]
  ]
]

-- tbl_add_lis
unfoldable pub tbl_add_lis : List ℕ → List ℕ → Table → Table
tbl_add_lis f key t = elim (t.fields f) [
  | none ↦ t
  | some fld ↦ elim (fld.lis key) [
    | some r ↦ t
    | none ↦ set_field t f (record fld { lis = put_at fld.lis key (some (fnd_val f key t)) })
  ]
]

-- tbl_mk_fld, of a name that the table does not have.
unfoldable pub tbl_mk_fld : List ℕ → Bool → Table → Table
tbl_mk_fld f stat t =
    record (set_field t f (record { stat = stat; vals = λ k. none; lis = λ k. none })) {
      fld_count = t.fld_count + 1;
    }
