-- ===== src/Table/Insert/Fields.antt =====
-- table.c: the loop of tbl_insert over the fields of its transaction.
use fnav.Prelude.{
  ℕ, ◌≡◌, refl, sym, ap, ◌∙◌, Bool, true, false, ◌&&◌, Option, none, some, List, [], ◌∷◌, length,
  arith,
}
use fnav.Table.{Cell, Table, insert_cell, insert_cells}
use fnav.Table.Rings.{cell_is, stat_of, val_at, absent, distinct, Typed}
use fnav.Table.Insert.{cell_of, Inserted, insert_cell-Inserted, Inserted-cons}

-- The fields and strings of a transaction, as cells.
unfoldable pub as_cells : List (List ℕ × List ℕ) → List Cell
as_cells [] = []
as_cells ((f, key) ∷ trec) = (f, some key) ∷ as_cells trec

-- Every field of the transaction is there.
unfoldable pub Known : Table → List (List ℕ × List ℕ) → Type 0
Known t [] = Unit
Known t ((f, key) ∷ trec) = ((s : Bool) × (stat_of t f ≡ some s)) × Known t trec

-- The key of a cell, of what stat_of says.
unfoldable pub key_in : Option Bool → List ℕ → Option (List ℕ)
key_in (some true) key = none
key_in (some false) key = some key
key_in none key = some key

-- The cells of a transaction: a field with TYP_STAT has no key.
pub keyed : Table → List (List ℕ × List ℕ) → List Cell
keyed t [] = []
keyed t ((f, key) ∷ trec) = (f, key_in (stat_of t f) key) ∷ keyed t trec

Known-same :
    (t t' : Table)
    → ((g : List ℕ) → stat_of t' g ≡ stat_of t g)
    → (trec : List (List ℕ × List ℕ)) → Known t trec
    → Known t' trec
unfolding Known
Known-same t t' h [] k = tt
Known-same t t' h ((f, key) ∷ trec) k = ((k.0.0, h f ∙ k.0.1), Known-same t t' h trec k.1)

keyed_same :
    (t t' : Table)
    → ((g : List ℕ) → stat_of t' g ≡ stat_of t g)
    → (trec : List (List ℕ × List ℕ)) → keyed t' trec ≡ keyed t trec
unfolding keyed
keyed_same t t' h [] = refl
keyed_same t t' h ((f, key) ∷ trec) = rw (h f, keyed_same t t' h trec) refl

absent_keyed :
    (t : Table) (f : List ℕ) (trec : List (List ℕ × List ℕ))
    → absent f (keyed t trec) ≡ absent f (as_cells trec)
unfolding keyed as_cells absent
absent_keyed t f [] = refl
absent_keyed t f ((g, key) ∷ trec) = rw (absent_keyed t f trec) refl

pub distinct_keyed :
    (t : Table) (trec : List (List ℕ × List ℕ)) → distinct (keyed t trec) ≡ distinct (as_cells trec)
unfolding keyed as_cells distinct
distinct_keyed t [] = refl
distinct_keyed t ((g, key) ∷ trec) = rw (absent_keyed t g trec, distinct_keyed t trec) refl

Typed-key :
    (t : Table) (f key : List ℕ) (o : Option Bool) (s : Bool) (cells : List Cell)
    → stat_of t f ≡ o
    → o ≡ some s
    → Typed t cells
    → Typed t ((f, key_in o key) ∷ cells)
unfolding Typed key_in
Typed-key t f key none s cells e q h = absurd (ground arith)
Typed-key t f key (some true) s cells e q h = h
Typed-key t f key (some false) s cells e q h = (e, h)

pub Typed-keyed :
    (t : Table) (trec : List (List ℕ × List ℕ)) → Known t trec → Typed t (keyed t trec)
unfolding keyed Known Typed
Typed-keyed t [] k = tt
Typed-keyed t ((f, key) ∷ trec) k =
    Typed-key t f key (stat_of t f) k.0.0 (keyed t trec) refl k.0.1 (Typed-keyed t trec k.1)

cell_keyed :
    (t : Table) (f key : List ℕ) (s : Bool)
    → stat_of t f ≡ some s
    → ◌≡◌ {A = Cell} (cell_of s f key) (f, key_in (stat_of t f) key)
unfolding key_in
cell_keyed t f key true e = rw e refl
cell_keyed t f key false e = rw e refl

and_left : (a b : Bool) → (a && b) ≡ true → a ≡ true
and_left true b e = refl
and_left false b e = e

cons_cells :
    (id : ℕ) (f key : List ℕ) (trec : List (List ℕ × List ℕ)) (c : Cell) (cs : List Cell)
    (t t1 t2 : Table)
    → insert_cell id f key t ≡ some (c, t1)
    → insert_cells (length trec) id trec t1 ≡ some (cs, t2)
    → insert_cells (length ((f, key) ∷ trec)) id ((f, key) ∷ trec) t ≡ some (c ∷ cs, t2)
unfolding insert_cells
cons_cells id f key trec c cs t t1 t2 e1 e2 = rw (insert_cells, e1, e2) refl

pub insert_cells-Inserted :
    (id : ℕ) (trec : List (List ℕ × List ℕ)) (t : Table)
    → Known t trec
    → distinct (as_cells trec) ≡ true
    → (t' : Table) × (insert_cells (length trec) id trec t ≡ some (keyed t trec, t'))
      × Inserted id (keyed t trec) t t'
unfolding keyed Known distinct as_cells cell_is val_at insert_cells
insert_cells-Inserted id [] t k d = (
  t,
  refl,
  record { stats = λ g. refl; values = λ g j. refl; same_recs = refl; same_next = refl },
)
insert_cells-Inserted id ((f, key) ∷ trec) t k d =
    let (t1, e1, u) = insert_cell-Inserted id f key k.0.0 t k.0.1 in
    let (t2, e2, v) =
      insert_cells-Inserted id trec t1 (Known-same t t1 u.stats trec k.1) (ground arith) in
    let same = keyed_same t t1 u.stats trec in
    let c = cell_keyed t f key k.0.0 k.0.1 in
    (
      t2,
      cons_cells id f key trec (cell_of k.0.0 f key) (keyed t1 trec) t t1 t2 e1 e2
          ∙ ap (λ x. some (x, t2))
              (ap (λ x. x ∷ keyed t1 trec) c ∙ ap (λ x. (f, key_in (stat_of t f) key) ∷ x) same),
      Inserted-cons id (f, key_in (stat_of t f) key) (keyed t trec) t t1 t2
          (absent_keyed t f trec ∙ and_left (absent f (as_cells trec)) (distinct (as_cells trec)) d)
          (rw (sym c) u) (rw (sym same) v),
    )
