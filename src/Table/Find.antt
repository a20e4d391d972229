-- ===== src/Table/Find.antt =====
-- table.c: fnd_val, and the listeners that tbl_add_lis makes, in a table whose rings are right.
use fnav.Prelude.{
  ℕ, ◌≡◌, refl, ap, ◌∙◌, Bool, true, false, Option, none, some, List, [], ◌∷◌, ◌++◌, if◌then◌else◌,
  Option-cases, inl, inr,
}
use fnav.Table.{Val, Rec, Table, fnd_val}
use fnav.Table.Rings.{has, ids, val_of, stat_of, val_at, IsValid}

abbrev pub or_else : Option ℕ → Option ℕ → Option ℕ
or_else none o = o
or_else (some i) o = some i

-- The oldest of the records that have the key in the field: the last one of the list.
unfoldable pub oldest : List ℕ → List ℕ → List Rec → Option ℕ
oldest f k [] = none
oldest f k (r ∷ recs) = or_else (oldest f k recs) (if has f k r then some r.id else none)

first : List ℕ → Option ℕ
first [] = none
first (i ∷ xs) = some i

first_of : Option Val → Option ℕ
first_of none = none
first_of (some v) = first v.ring

first-append : (xs ys : List ℕ) → first (xs ++ ys) ≡ or_else (first xs) (first ys)
unfolding first
first-append [] ys = refl
first-append (x ∷ xs) ys = refl

own_first : (b : Bool) (i : ℕ) → first (if b then i ∷ [] else []) ≡ (if b then some i else none)
unfolding first
own_first true i = refl
own_first false i = refl

oldest-ids : (f k : List ℕ) (recs : List Rec) → first (ids f k recs) ≡ oldest f k recs
unfolding ids oldest
oldest-ids f k [] = own_first false 0
oldest-ids f k (r ∷ recs) =
    first-append (ids f k recs) (if has f k r then r.id ∷ [] else [])
    ∙ ap (λ o. or_else o (first (if has f k r then r.id ∷ [] else []))) (oldest-ids f k recs)
    ∙ ap (or_else (oldest f k recs)) (own_first (has f k r) r.id)

ring_first : (xs : List ℕ) → (elim xs [ [] ↦ none | i ∷ ring ↦ some i ]) ≡ first xs
unfolding first
ring_first [] = refl
ring_first (x ∷ xs) = refl

fnd_val_at : (t : Table) (f k : List ℕ) → fnd_val f k t ≡ first_of (val_at t f k)
unfolding fnd_val val_at first_of first
fnd_val_at t f k = elim (Option-cases (t.fields f)) [
  | inl e ↦ rw (fnd_val, val_at, e) refl
  | inr (fld, e) ↦ elim (Option-cases (fld.vals k)) [
    | inl w ↦ rw (fnd_val, val_at, e, w) refl
    | inr (v, w) ↦ rw (fnd_val, val_at, e, w) (ring_first v.ring)
  ]
]

first-val_of : (xs : List ℕ) → first_of (val_of xs) ≡ first xs
unfolding first_of first val_of
first-val_of [] = refl
first-val_of (x ∷ xs) = refl

-- In a table whose rings are right, for a field with strings, fnd_val finds the oldest record that
-- has the key in the field, and nothing where no record has it.
pub fnd_val-oldest :
    (f k : List ℕ) (t : Table)
    → IsValid t
    → stat_of t f ≡ some false
    → fnd_val f k t ≡ oldest f k t.recs
fnd_val-oldest f k t v s =
    fnd_val_at t f k
    ∙ ap first_of (v.rings f k s)
    ∙ first-val_of (ids f k t.recs)
    ∙ oldest-ids f k t.recs
