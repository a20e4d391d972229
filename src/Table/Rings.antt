-- ===== src/Table/Rings.antt =====
-- table.c: what the rings of the values have to hold: the records with the value, in the order in
-- which they were inserted.
use fnav.Prelude.{
  ◌⊎◌, ℕ, suc, ◌≡◌, ◌<◌, refl, sym, ap, ◌∙◌, Bool, true, false, ◌&&◌, ◌||◌, not, Option, none, some,
  List, [], ◌∷◌, ◌++◌, if◌then◌else◌, length, snoc_length, All, str_eq, str_eq_iff, str_eq_refl,
  arith, Bool-cases, Option-cases, inl, inr,
}
use fnav.Table.{Val, Fld, Cell, Rec, Table, put_at, set_field, add_val}

-- Whether one of the cells has the key in the field.
unfoldable pub cell_is : List ℕ → List ℕ → List Cell → Bool
cell_is f k [] = false
cell_is f k ((g, none) ∷ cells) = cell_is f k cells
cell_is f k ((g, some j) ∷ cells) = (str_eq f g && str_eq k j) || cell_is f k cells

unfoldable pub has : List ℕ → List ℕ → Rec → Bool
has f k r = cell_is f k r.cells

-- The records that have the key in the field, the oldest first.
unfoldable pub ids : List ℕ → List ℕ → List Rec → List ℕ
ids f k [] = []
ids f k (r ∷ recs) = ids f k recs ++ (if has f k r then r.id ∷ [] else [])

-- The value of a ring.
unfoldable pub val_of : List ℕ → Option Val
val_of [] = none
val_of (i ∷ ring) = some (record { ring = i ∷ ring; count = suc (length ring) })

-- What the table has for a field and a key.
unfoldable pub stat_of : Table → List ℕ → Option Bool
stat_of t f = elim (t.fields f) [ none ↦ none | some fld ↦ some fld.stat ]

unfoldable pub val_at : Table → List ℕ → List ℕ → Option Val
val_at t f k = elim (t.fields f) [ none ↦ none | some fld ↦ fld.vals k ]

unfoldable pub absent : List ℕ → List Cell → Bool
absent f [] = true
absent f (c ∷ cells) = not (str_eq f c.0) && absent f cells

unfoldable pub distinct : List Cell → Bool
distinct [] = true
distinct (c ∷ cells) = absent c.0 cells && distinct cells

-- The cells with strings stand in fields with strings.
unfoldable pub Typed : Table → List Cell → Type 0
Typed t [] = Unit
Typed t ((f, none) ∷ cells) = Typed t cells
Typed t ((f, some k) ∷ cells) = (stat_of t f ≡ some false) × Typed t cells

-- The records come with falling addresses, all below `next`.
unfoldable pub Falling : ℕ → List Rec → Type 0
Falling next [] = Unit
Falling next (r ∷ recs) = (r.id < next) × Falling r.id recs

-- Of each value the ring has the records with the value in the order of their insertion, and the
-- count is theirs; there is a value exactly where a record has it.
pub record IsValid (t : Table) : Type 0 where
  pub rings : (f k : List ℕ) → stat_of t f ≡ some false → val_at t f k ≡ val_of (ids f k t.recs)
  pub cells : All (λ r. (distinct r.cells ≡ true) × Typed t r.cells) t.recs
  pub falling : Falling t.next t.recs

pub val_of-snoc : (id : ℕ) (xs : List ℕ) → some (add_val id (val_of xs)) ≡ val_of (xs ++ (id ∷ []))
unfolding add_val val_of
val_of-snoc id [] = refl
val_of-snoc id (x ∷ xs) =
    ap (λ n. some (record { ring = x ∷ (xs ++ (id ∷ [])); count = n }))
      (omega (arith, snoc_length xs id))

pub put_same {ℓ} : {A : Type ℓ} (g : List ℕ → A) (k : List ℕ) (a : A) → put_at g k a k ≡ a
unfolding put_at
put_same g k a = rw (str_eq_refl k) refl

pub absent_cell :
    (f k : List ℕ) (cells : List Cell) → absent f cells ≡ true → cell_is f k cells ≡ false
unfolding absent cell_is
absent_cell f k [] h = refl
absent_cell f k ((g, none) ∷ cells) h = absent_cell f k cells (ground arith)
absent_cell f k ((g, some j) ∷ cells) h = ground (arith, absent_cell f k cells)

pub field_of :
    (t : Table) (f : List ℕ) (s : Bool)
    → stat_of t f ≡ some s
    → (fld : Fld) × (t.fields f ≡ some fld) × (fld.stat ≡ s)
unfolding stat_of
field_of t f s h = elim (Option-cases (t.fields f)) [
  | inl e ↦ absurd (ground arith)
  | inr (fld, e) ↦ (fld, e, ground arith)
]

pub val_at_field :
    (t : Table) (f k : List ℕ) (fld : Fld) → t.fields f ≡ some fld → val_at t f k ≡ fld.vals k
unfolding val_at
val_at_field t f k fld e = ground arith

pub stat_of-set_field :
    (t : Table) (f : List ℕ) (fld : Fld) (g : List ℕ)
    → stat_of (set_field t f fld) g ≡ (if str_eq f g then some fld.stat else stat_of t g)
unfolding stat_of put_at
stat_of-set_field t f fld g = ground arith

pub val_at-set_field :
    (t : Table) (f : List ℕ) (fld : Fld) (g k : List ℕ)
    → val_at (set_field t f fld) g k ≡ (if str_eq f g then fld.vals k else val_at t g k)
unfolding val_at put_at
val_at-set_field t f fld g k = ground arith

-- A field that keeps its type keeps what stat_of says.
pub stats_kept :
    (t : Table) (f : List ℕ) (s : Bool) (fld : Fld)
    → stat_of t f ≡ some s
    → fld.stat ≡ s
    → (g : List ℕ) → stat_of (set_field t f fld) g ≡ stat_of t g
stats_kept t f s fld h k g = elim (Bool-cases (str_eq f g)) [
  | inl e ↦
      stat_of-set_field t f fld g ∙ rw (e, k) refl ∙ sym h ∙ ap (stat_of t) ((str_eq_iff f g).0 e)
  | inr e ↦ stat_of-set_field t f fld g ∙ rw e refl
]

-- The cell of another field is none of the cells.
pub one_of_two :
    (c : Cell) (cells : List Cell) (g k : List ℕ)
    → absent c.0 cells ≡ true
    → (cell_is g k (c ∷ []) ≡ false) ⊎ (cell_is g k cells ≡ false)
unfolding cell_is
one_of_two (f, none) cells g k h = inl refl
one_of_two (f, some j) cells g k h = elim (Bool-cases (str_eq g f)) [
  | inl e ↦ inr (rw ((str_eq_iff g f).0 e) (absent_cell f k cells h))
  | inr e ↦ inl (rw e refl)
]

pub cell_is-cons :
    (c : Cell) (cells : List Cell) (g k : List ℕ)
    → (cell_is g k (c ∷ []) || cell_is g k cells) ≡ cell_is g k (c ∷ cells)
unfolding cell_is
cell_is-cons (f, none) cells g k = refl
cell_is-cons (f, some j) cells g k = ground arith

pub Typed-same :
    (t t' : Table)
    → ((g : List ℕ) → stat_of t' g ≡ stat_of t g)
    → (cells : List Cell) → Typed t cells
    → Typed t' cells
unfolding Typed
Typed-same t t' h [] k = tt
Typed-same t t' h ((f, none) ∷ cells) k = Typed-same t t' h cells k
Typed-same t t' h ((f, some key) ∷ cells) k = (h f ∙ k.0, Typed-same t t' h cells k.1)

unfoldable pub Whole : Table → Rec → Type 0
Whole t r = (distinct r.cells ≡ true) × Typed t r.cells

pub Whole-same :
    (t t' : Table)
    → ((g : List ℕ) → stat_of t' g ≡ stat_of t g)
    → (recs : List Rec) → All (Whole t) recs
    → All (Whole t') recs
unfolding Whole
Whole-same t t' h [] w = tt
Whole-same t t' h (r ∷ recs) w =
    ((w.0.0, Typed-same t t' h r.cells w.0.1), Whole-same t t' h recs w.1)
