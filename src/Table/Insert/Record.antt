-- ===== src/Table/Insert/Record.antt =====
-- table.c: tbl_insert keeps the rings.
use fnav.Prelude.{
  ℕ, ◌+◌, ◌≡◌, refl, sym, ap, ◌∙◌, Bool, true, false, some, List, [], ◌∷◌, ◌++◌, if◌then◌else◌,
  length, arith, append-nil,
}
use fnav.Table.{Rec, Table, insert_cells, tbl_insert}
use fnav.Table.Rings.{
  cell_is, has, ids, val_of, stat_of, val_at, distinct, Typed, Falling, IsValid, val_of-snoc,
  Typed-same, Whole, Whole-same,
}
use fnav.Table.Insert.{fresh, Inserted}
use fnav.Table.Insert.Fields.{
  as_cells, Known, keyed, distinct_keyed, Typed-keyed, insert_cells-Inserted,
}

fresh-val_of :
    (id : ℕ) (b : Bool) (xs : List ℕ)
    → fresh id b (val_of xs) ≡ val_of (xs ++ (if b then id ∷ [] else []))
fresh-val_of id true xs = val_of-snoc id xs
fresh-val_of id false xs = ap val_of (sym (append-nil xs))

-- The record of a transaction.
pub new_rec : Table → List (List ℕ × List ℕ) → Rec
new_rec t trec = record { id = t.next; cells = keyed t trec }

with_rec : Table → List (List ℕ × List ℕ) → Table → Table
with_rec t trec t' = record t' {
  recs = new_rec t trec ∷ t'.recs;
  rec_count = t'.rec_count + 1;
  next = t.next + 1;
}

inserts :
    (trec : List (List ℕ × List ℕ)) (t t' : Table)
    → t.fld_count ≡ length trec
    → insert_cells (length trec) t.next trec t ≡ some (keyed t trec, t')
    → tbl_insert trec t ≡ some (with_rec t trec t')
unfolding tbl_insert with_rec new_rec
inserts trec t t' n e = rw (tbl_insert, ap (λ m. insert_cells m t.next trec t) n ∙ e) refl

with_rec-recs :
    (trec : List (List ℕ × List ℕ)) (t t' : Table)
    → Inserted t.next (keyed t trec) t t'
    → (with_rec t trec t').recs ≡ new_rec t trec ∷ t.recs
unfolding with_rec
with_rec-recs trec t t' u = ap (λ rs. new_rec t trec ∷ rs) u.same_recs

with_rec-IsValid :
    (trec : List (List ℕ × List ℕ)) (t t' : Table)
    → IsValid t
    → Known t trec
    → distinct (as_cells trec) ≡ true
    → Inserted t.next (keyed t trec) t t'
    → IsValid (with_rec t trec t')
unfolding with_rec new_rec stat_of val_at ids has Falling Typed Whole
with_rec-IsValid trec t t' v k d u = record {
  rings = λ f j h. ring f j (sym (u.stats f) ∙ h);
  cells = (
    (distinct_keyed t trec ∙ d, Typed-same t t' u.stats (keyed t trec) (Typed-keyed t trec k)),
    rw u.same_recs (Whole-same t t' u.stats t.recs v.cells),
  );
  falling = (omega arith, rw u.same_recs v.falling);
}
  where
    ring :
        (f j : List ℕ)
        → stat_of t f ≡ some false
        → val_at t' f j
          ≡ val_of (ids f j t'.recs ++ (if cell_is f j (keyed t trec) then t.next ∷ [] else []))
    ring f j h =
        let b = cell_is f j (keyed t trec) in
        u.values f j
        ∙ ap (fresh t.next b) (v.rings f j h)
        ∙ fresh-val_of t.next b (ids f j t.recs)
        ∙ ap (λ rs. val_of (ids f j rs ++ (if b then t.next ∷ [] else []))) (sym u.same_recs)

-- Into a table whose rings are right, of a transaction that has a string for each of the table's
-- fields, each field once: the insertion ends without a fault, the new record is the first, the
-- others stay, and the rings are right again.
pub tbl_insert-IsValid :
    (trec : List (List ℕ × List ℕ)) (t : Table)
    → IsValid t
    → t.fld_count ≡ length trec
    → Known t trec
    → distinct (as_cells trec) ≡ true
    → (t' : Table) × (tbl_insert trec t ≡ some t')
      × IsValid t'
      × (t'.recs ≡ new_rec t trec ∷ t.recs)
tbl_insert-IsValid trec t v n k d =
    let (t', e, u) = insert_cells-Inserted t.next trec t k d in
    (
      with_rec t trec t',
      inserts trec t t' n e,
      with_rec-IsValid trec t t' v k d u,
      with_rec-recs trec t t' u,
    )
