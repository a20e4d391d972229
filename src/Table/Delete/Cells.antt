-- ===== src/Table/Delete/Cells.antt =====
-- table.c: the loop of tbl_del_rec over the cells of its record.
use fnav.Prelude.{
  ℕ, ◌≡◌, ◌⊎◌, refl, sym, ap, ◌∙◌, Bool, true, false, ◌||◌, Option, none, some, List, [], ◌∷◌,
  str_eq, str_eq_iff, arith, Bool-cases, inl, inr,
}
use fnav.Table.{Cell, Table, Entry, head_entry, unlink, del_cells}
use fnav.Table.Rings.{
  one_of_two, cell_is-cons, Typed-same, cell_is, val_of, stat_of, val_at, absent, distinct, Typed,
  absent_cell,
}
use fnav.Table.Delete.{mem, left, Deleted, del_cell-Deleted}

left_twice :
    (id : ℕ) (a b : Bool) (xs : List ℕ)
    → (a ≡ false) ⊎ (b ≡ false)
    → left id b (left id a xs) ≡ left id (a || b) xs
left_twice id true true xs (inl e) = cc
left_twice id true true xs (inr e) = cc
left_twice id true false xs e = refl
left_twice id false b xs e = refl

absent_cons :
    (g : List ℕ) (c : Cell) (cells : List Cell)
    → absent g (c ∷ cells) ≡ true
    → (absent g (c ∷ []) ≡ true) × (absent g cells ≡ true)
unfolding absent
absent_cons g c cells h = ground arith

-- The fields of two cells of a record differ.
absent_other :
    (g k : List ℕ) (c : Cell) (cells : List Cell)
    → absent c.0 cells ≡ true
    → cell_is g k cells ≡ true
    → absent g (c ∷ []) ≡ true
unfolding absent
absent_other g k c cells a h = elim (Bool-cases (str_eq g c.0)) [
  | inl e ↦
      let n : cell_is g k cells ≡ false =
        absent_cell g k cells (ap (λ x. absent x cells) ((str_eq_iff g c.0).0 e) ∙ a) in
      absurd (cc)
  | inr e ↦ rw e refl
]

cell_field : (g k : List ℕ) (c : Cell) → cell_is g k (c ∷ []) ≡ true → g ≡ c.0
unfolding cell_is
cell_field g k (f, none) h = absurd (ground arith)
cell_field g k (f, some j) h = (str_eq_iff g f).0 (ground arith)

-- The rings behind the deletion of a cell.
abbrev next_rings : ℕ → Cell → (List ℕ → List ℕ → List ℕ) → List ℕ → List ℕ → List ℕ
next_rings id c xs g k = left id (cell_is g k (c ∷ [])) (xs g k)

Deleted-cons :
    (id : ℕ) (c : Cell) (cells : List Cell) (xs : List ℕ → List ℕ → List ℕ) (t t1 t2 : Table)
    (cur cur1 cur2 : Option Entry)
    → absent c.0 cells ≡ true
    → Deleted id (c ∷ []) xs t cur t1 cur1
    → Deleted id cells (next_rings id c xs) t1 cur1 t2 cur2
    → Deleted id (c ∷ cells) xs t cur t2 cur2
Deleted-cons id c cells xs t t1 t2 cur cur1 cur2 h u v = record {
  stats = λ g. v.stats g ∙ u.stats g;
  values = λ g k s.
      v.values g k (u.stats g ∙ s)
      ∙ ap val_of (
          left_twice id (cell_is g k (c ∷ [])) (cell_is g k cells) (xs g k)
            (one_of_two c cells g k h))
      ∙ ap (λ b. val_of (left id b (xs g k))) (cell_is-cons c cells g k);
  same_recs = v.same_recs ∙ u.same_recs;
  same_next = v.same_next ∙ u.same_next;
  stays = λ g ys a q. let w = absent_cons g c cells a in v.stays g ys w.1 (u.stays g ys w.0 q);
  moves = λ g k b q. elim (Bool-cases (cell_is g k (c ∷ []))) [
    | inl e ↦
        v.stays g (unlink id (xs g k)) (ap (λ x. absent x cells) (cell_field g k c e) ∙ h)
          (u.moves g k e q)
    | inr e ↦
        let r : cell_is g k cells ≡ true =
          sym (ap (λ x. x || cell_is g k cells) e) ∙ cell_is-cons c cells g k ∙ b in
        v.moves g k r (u.stays g (id ∷ []) (absent_other g k c cells h r) q)
        ∙ ap (λ x. head_entry g (unlink id (left id x (xs g k)))) e
  ];
}

-- A record that stands in a ring stands in it behind the deletion of another cell.
stays_in :
    (id : ℕ) (c : Cell) (cells : List Cell) (xs : List ℕ → List ℕ → List ℕ) (g k : List ℕ)
    → absent c.0 cells ≡ true
    → cell_is g k cells ≡ true
    → mem id (xs g k) ≡ true
    → mem id (next_rings id c xs g k) ≡ true
stays_in id c cells xs g k h e m = elim (one_of_two c cells g k h) [
  | inl q ↦ rw q m
  | inr q ↦ absurd (cc)
]

Typed-cons :
    (t : Table) (c : Cell) (cells : List Cell)
    → Typed t (c ∷ cells)
    → Typed t (c ∷ []) × Typed t cells
unfolding Typed
Typed-cons t (f, none) cells y = (tt, y)
Typed-cons t (f, some k) cells y = ((y.0, tt), y.1)

pub or_left : (a b : Bool) → a ≡ true → (a || b) ≡ true
or_left a b e = rw e refl

pub or_right : (a b : Bool) → b ≡ true → (a || b) ≡ true
or_right true b e = refl
or_right false b e = e

pub distinct_cons :
    (c : Cell) (cells : List Cell)
    → distinct (c ∷ cells) ≡ true
    → (absent c.0 cells ≡ true) × (distinct cells ≡ true)
unfolding distinct
distinct_cons c cells d = ground arith

no_cells : (g k : List ℕ) → cell_is g k [] ≡ false
unfolding cell_is
no_cells g k = refl

no_Deleted :
    (id : ℕ) (xs : List ℕ → List ℕ → List ℕ) (t : Table) (cur : Option Entry)
    → ((g k : List ℕ) → stat_of t g ≡ some false → val_at t g k ≡ val_of (xs g k))
    → Deleted id [] xs t cur t cur
unfolding cell_is
no_Deleted id xs t cur v = record {
  stats = λ g. refl;
  values = v;
  same_recs = refl;
  same_next = refl;
  stays = λ g ys a e. e;
  moves = λ g k c e. absurd (ground arith);
}

pub del_cells-Deleted :
    (id : ℕ) (cells : List Cell) (xs : List ℕ → List ℕ → List ℕ) (t : Table) (cur : Option Entry)
    → distinct cells ≡ true
    → Typed t cells
    → ((g k : List ℕ) → stat_of t g ≡ some false → val_at t g k ≡ val_of (xs g k))
    → ((g k : List ℕ) → cell_is g k cells ≡ true → mem id (xs g k) ≡ true)
    → (s : Table × Option Entry) × (del_cells id cells (t, cur) ≡ some s)
      × Deleted id cells xs t cur s.0 s.1
unfolding del_cells
del_cells-Deleted id [] xs t cur d y v m = ((t, cur), refl, no_Deleted id xs t cur v)
del_cells-Deleted id (c ∷ cells) xs t cur d y v m =
    let ys = Typed-cons t c cells y in
    let ds = distinct_cons c cells d in
    let (s1, e1, u) = del_cell-Deleted id c xs t cur ys.0 v (λ g k e.
      m g k
        (sym (cell_is-cons c cells g k) ∙ or_left (cell_is g k (c ∷ [])) (cell_is g k cells) e)) in
    let (s2, e2, w) =
      del_cells-Deleted id cells (next_rings id c xs) s1.0 s1.1 ds.1
        (Typed-same t s1.0 u.stats cells ys.1) (λ g k s. u.values g k (sym (u.stats g) ∙ s))
        (λ g k e. stays_in id c cells xs g k ds.0 e (
          m g k (
            sym (cell_is-cons c cells g k)
            ∙ or_right (cell_is g k (c ∷ [])) (cell_is g k cells) e))) in
    (s2, rw (del_cells, e1) e2, Deleted-cons id c cells xs t s1.0 s2.0 cur s1.1 s2.1 ds.0 u w)
