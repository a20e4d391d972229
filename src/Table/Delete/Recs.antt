-- ===== src/Table/Delete/Recs.antt =====
-- table.c: tbl_del_rec on a table whose rings are right.
use fnav.Prelude.{
  ℕ, suc, ◌≡◌, ◌<◌, refl, sym, ap, ◌∙◌, Bool, true, false, ◌||◌, Option, some, List, [], ◌∷◌, ◌++◌,
  if◌then◌else◌, All, arith, Bool-cases, inl, inr, ◌==◌, ==_iff, append-nil,
}
use fnav.Table.{Rec, Table, Entry, head_entry, unlink, find_rec, remove_rec, tbl_del_rec}
use fnav.Table.Rings.{Whole, Whole-same, has, ids, val_of, stat_of, val_at, Typed, Falling, IsValid}
use fnav.Table.Delete.{mem, left, Deleted}
use fnav.Table.Delete.Cells.{or_left, or_right, del_cells-Deleted}

abbrev own : List ℕ → List ℕ → Rec → List ℕ
own f k r = if has f k r then r.id ∷ [] else []

mem-append : (i : ℕ) (xs ys : List ℕ) → mem i (xs ++ ys) ≡ (mem i xs || mem i ys)
unfolding mem
mem-append i [] ys = refl
mem-append i (x ∷ xs) ys = rw (mem-append i xs ys) (ground arith)

unlink-last : (i : ℕ) (xs : List ℕ) → mem i xs ≡ false → unlink i (xs ++ (i ∷ [])) ≡ xs
unfolding mem unlink
unlink-last i [] m = ground arith
unlink-last i (x ∷ xs) m = ground (arith, unlink-last i xs)

unlink-append :
    (i : ℕ) (xs ys : List ℕ) → mem i ys ≡ false → unlink i (xs ++ ys) ≡ unlink i xs ++ ys
unfolding mem unlink
unlink-append i [] [] m = refl
unlink-append i [] (y ∷ ys) m = ground (arith, unlink-append i [] ys)
unlink-append i (x ∷ xs) ys m = ground (arith, unlink-append i xs ys)

mem-own : (i : ℕ) (f k : List ℕ) (r : Rec) → (i == r.id) ≡ false → mem i (own f k r) ≡ false
unfolding mem
mem-own i f k r e = elim (Bool-cases (has f k r)) [ inl q ↦ rw (q, e) refl | inr q ↦ rw q refl ]

own_listed :
    (i : ℕ) (f k : List ℕ) (r : Rec)
    → (i == r.id) ≡ true
    → has f k r ≡ true
    → mem i (own f k r) ≡ true
unfolding mem
own_listed i f k r e h = rw (h, e) refl

has-own : (i : ℕ) (f k : List ℕ) (r : Rec) → mem i (own f k r) ≡ true → has f k r ≡ true
unfolding mem
has-own i f k r m = elim (Bool-cases (has f k r)) [ inl q ↦ q | inr q ↦ absurd (ground arith) ]

cut_own :
    (i j : ℕ) (b : Bool) (xs : List ℕ)
    → (i == j) ≡ true
    → mem i xs ≡ false
    → left i b (xs ++ (if b then j ∷ [] else [])) ≡ xs
cut_own i j true xs e m =
    ap (λ x. unlink i (xs ++ (x ∷ []))) (sym ((==_iff i j).0 e)) ∙ unlink-last i xs m
cut_own i j false xs e m = append-nil xs

keep_last :
    (i : ℕ) (b : Bool) (xs ys : List ℕ) → mem i ys ≡ false → left i b (xs ++ ys) ≡ left i b xs ++ ys
keep_last i true xs ys m = unlink-append i xs ys m
keep_last i false xs ys m = refl

or_false_left : (a b : Bool) → a ≡ false → (a || b) ≡ b
or_false_left a b e = rw e refl

or_false_right : (a b : Bool) → b ≡ false → (a || b) ≡ a
or_false_right true b e = refl
or_false_right false b e = e

-- All addresses of the list are below.
no_more :
    (i : ℕ) (f k : List ℕ) (n : ℕ) (recs : List Rec)
    → Falling n recs
    → n < suc i
    → mem i (ids f k recs) ≡ false
unfolding ids Falling mem
no_more i f k n [] h l = refl
no_more i f k n (r ∷ recs) h l =
    mem-append i (ids f k recs) (own f k r)
    ∙ rw (no_more i f k r.id recs h.1 (omega arith), mem-own i f k r (ground arith)) refl

pub find_here :
    (i : ℕ) (r : Rec) (recs : List Rec) → (i == r.id) ≡ true → find_rec i (r ∷ recs) ≡ some r
unfolding find_rec
find_here i r recs e = rw e refl

pub find_later :
    (i : ℕ) (r : Rec) (recs : List Rec)
    → (i == r.id) ≡ false
    → find_rec i (r ∷ recs) ≡ find_rec i recs
unfolding find_rec
find_later i r recs e = rw e refl

pub found_here :
    (i : ℕ) (r0 r : Rec) (recs : List Rec)
    → (i == r0.id) ≡ true
    → find_rec i (r0 ∷ recs) ≡ some r
    → r0 ≡ r
found_here i r0 r recs q e = let w : some r0 ≡ some r = sym (find_here i r0 recs q) ∙ e in cc

-- A record that a ring names is there, with the value.
pub find_named :
    (i : ℕ) (f k : List ℕ) (n : ℕ) (recs : List Rec)
    → Falling n recs
    → mem i (ids f k recs) ≡ true
    → (r : Rec) × (find_rec i recs ≡ some r) × (has f k r ≡ true)
unfolding ids Falling mem
find_named i f k n [] h m = absurd (ground arith)
find_named i f k n (r ∷ recs) h m = elim (Bool-cases (i == r.id)) [
  | inl e ↦ (
    r,
    find_here i r recs e,
    has-own i f k r (
        sym (
          or_false_left (mem i (ids f k recs)) (mem i (own f k r))
            (no_more i f k r.id recs h.1 (ground arith)))
        ∙ sym (mem-append i (ids f k recs) (own f k r))
        ∙ m),
  )
  | inr e ↦
      let (r', e', q) = find_named i f k r.id recs h.1 (
        sym (or_false_right (mem i (ids f k recs)) (mem i (own f k r)) (mem-own i f k r e))
        ∙ sym (mem-append i (ids f k recs) (own f k r))
        ∙ m) in
      (r', find_later i r recs e ∙ e', q)
]

-- The ring of a value without a record.
pub ids-remove_rec :
    (i : ℕ) (f k : List ℕ) (n : ℕ) (recs : List Rec) (r : Rec)
    → Falling n recs
    → find_rec i recs ≡ some r
    → ids f k (remove_rec i recs) ≡ left i (has f k r) (ids f k recs)
unfolding ids Falling remove_rec find_rec
ids-remove_rec i f k n [] r h e = absurd (ground arith)
ids-remove_rec i f k n (r0 ∷ recs) r h e = elim (Bool-cases (i == r0.id)) [
  | inl q ↦
      let p : r0 ≡ r = found_here i r0 r recs q e in
      rw (remove_rec, q)
        (sym (
            cut_own i r0.id (has f k r0) (ids f k recs) q
              (no_more i f k r0.id recs h.1 (ground arith)))
          ∙ ap (λ x. left i (has f k x) (ids f k recs ++ own f k r0)) p)
  | inr q ↦
      rw (remove_rec, q)
        (ap (λ xs. xs ++ own f k r0)
            (ids-remove_rec i f k r0.id recs r h.1 (sym (find_later i r0 recs q) ∙ e))
          ∙ sym (keep_last i (has f k r) (ids f k recs) (own f k r0) (mem-own i f k r0 q)))
]

-- A ring has a record that has the value.
pub mem_ids :
    (i : ℕ) (f k : List ℕ) (recs : List Rec) (r : Rec)
    → find_rec i recs ≡ some r
    → has f k r ≡ true
    → mem i (ids f k recs) ≡ true
unfolding ids find_rec mem
mem_ids i f k [] r e h = absurd (ground arith)
mem_ids i f k (r0 ∷ recs) r e h =
    mem-append i (ids f k recs) (own f k r0) ∙ (elim (Bool-cases (i == r0.id)) [
      | inl q ↦
          or_right (mem i (ids f k recs)) (mem i (own f k r0))
            (own_listed i f k r0 q (ap (has f k) (found_here i r0 r recs q e) ∙ h))
      | inr q ↦
          or_left (mem i (ids f k recs)) (mem i (own f k r0))
            (mem_ids i f k recs r (sym (find_later i r0 recs q) ∙ e) h)
    ])

lower : (m n : ℕ) (recs : List Rec) → Falling m recs → m < n → Falling n recs
unfolding Falling
lower m n [] h l = tt
lower m n (r ∷ recs) h l = (omega arith, h.1)

Falling-removed : (i n : ℕ) (recs : List Rec) → Falling n recs → Falling n (remove_rec i recs)
unfolding Falling remove_rec
Falling-removed i n [] h = tt
Falling-removed i n (r ∷ recs) h = elim (Bool-cases (i == r.id)) [
  | inl q ↦ rw (remove_rec, q) (lower r.id n recs h.1 h.0)
  | inr q ↦ rw (remove_rec, q) (h.0, Falling-removed i r.id recs h.1)
]

Whole-removed :
    (i : ℕ) (t : Table) (recs : List Rec) → All (Whole t) recs → All (Whole t) (remove_rec i recs)
unfolding remove_rec
Whole-removed i t [] w = tt
Whole-removed i t (r ∷ recs) w = elim (Bool-cases (i == r.id)) [
  | inl q ↦ rw (remove_rec, q) w.1
  | inr q ↦ rw (remove_rec, q) (w.0, Whole-removed i t recs w.1)
]

Whole-found :
    (i : ℕ) (t : Table) (recs : List Rec) (r : Rec)
    → All (Whole t) recs
    → find_rec i recs ≡ some r
    → Whole t r
unfolding find_rec
Whole-found i t [] r w e = absurd (ground arith)
Whole-found i t (r0 ∷ recs) r w e = elim (Bool-cases (i == r0.id)) [
  | inl q ↦ rw (sym (found_here i r0 r recs q e)) w.0
  | inr q ↦ Whole-found i t recs r w.1 (sym (find_later i r0 recs q) ∙ e)
]

abbrev without_rec : ℕ → Table → Table
without_rec i t = record t { recs = remove_rec i t.recs }

-- tbl_del_rec in a table whose rings are right: what is left is right, and an entry of the record
-- in a ring moves to the ring's head.
pub record Removed (i : ℕ) (t : Table) (cur : Option Entry) (t' : Table) (cur' : Option Entry)
    : Type 0 where
  pub valid : IsValid t'
  pub stats : (g : List ℕ) → stat_of t' g ≡ stat_of t g
  pub recs : t'.recs ≡ remove_rec i t.recs
  pub moves :
      (f k : List ℕ)
      → mem i (ids f k t.recs) ≡ true
      → cur ≡ some (f, i)
      → cur' ≡ head_entry f (unlink i (ids f k t.recs))

removed-IsValid :
    (i : ℕ) (r : Rec) (t t' : Table) (cur cur' : Option Entry)
    → IsValid t
    → find_rec i t.recs ≡ some r
    → Deleted i r.cells (λ f k. ids f k t.recs) t cur t' cur'
    → IsValid (without_rec i t')
unfolding stat_of val_at Whole has Typed
removed-IsValid i r t t' cur cur' v e u = record {
  rings = λ f k s.
      u.values f k (sym (u.stats f) ∙ s)
      ∙ ap val_of (sym (ids-remove_rec i f k t.next t.recs r v.falling e))
      ∙ ap (λ rs. val_of (ids f k (remove_rec i rs))) (sym u.same_recs);
  cells =
      Whole-same t (without_rec i t') u.stats (remove_rec i t'.recs)
        (Whole-removed i t t'.recs (rw u.same_recs v.cells));
  falling = Falling-removed i t'.next t'.recs (rw (u.same_recs, u.same_next) v.falling);
}

has_found :
    (i : ℕ) (f k : List ℕ) (r : Rec) (t : Table)
    → IsValid t
    → mem i (ids f k t.recs) ≡ true
    → find_rec i t.recs ≡ some r
    → has f k r ≡ true
has_found i f k r t v m e =
    let (r', e', h) = find_named i f k t.next t.recs v.falling m in
    let w : some r' ≡ some r = sym e' ∙ e in let p : r' ≡ r = cc in ap (has f k) (sym p) ∙ h

pub tbl_del_rec-Removed :
    (i : ℕ) (r : Rec) (t : Table) (cur : Option Entry)
    → IsValid t
    → find_rec i t.recs ≡ some r
    → (s : Table × Option Entry) × (tbl_del_rec i (t, cur) ≡ some s) × Removed i t cur s.0 s.1
unfolding tbl_del_rec Whole has stat_of
tbl_del_rec-Removed i r t cur v e =
    let w = Whole-found i t t.recs r v.cells e in
    let ((t', cur'), q, u) =
      del_cells-Deleted i r.cells (λ f k. ids f k t.recs) t cur w.0 w.1 v.rings
        (λ f k c. mem_ids i f k t.recs r e c) in
    (
      (without_rec i t', cur'),
      rw (tbl_del_rec, e, q) refl,
      record {
        valid = removed-IsValid i r t t' cur cur' v e u;
        stats = u.stats;
        recs = ap (remove_rec i) u.same_recs;
        moves = λ f k m c. u.moves f k (has_found i f k r t v m e) c;
      },
    )
