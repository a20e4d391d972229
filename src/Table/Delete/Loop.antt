-- ===== src/Table/Delete/Loop.antt =====
-- table.c: tbl_del_val.
use fnav.Prelude.{
  ℕ, zero, suc, ◌≡◌, refl, sym, ap, ◌∙◌, true, false, Option, none, some, List, [], ◌∷◌, ◌++◌,
  if◌then◌else◌, length, snoc_length, arith, Bool-cases, Option-cases, inl, inr, ◌==◌, str_eq,
  str_eq_iff, append-nil,
}
use fnav.Table.{
  Val, Fld, Rec, Table, Entry, head_entry, unlink, find_rec, remove_rec, tbl_del_rec, del_loop,
  tbl_del_val, clear_lis, set_field,
}
use fnav.Table.Rings.{
  Whole-same, Whole, has, ids, val_of, stat_of, val_at, IsValid, field_of, val_at_field,
  val_at-set_field, stats_kept,
}
use fnav.Table.Delete.{mem, length-unlink, clears}
use fnav.Table.Delete.Recs.{tbl_del_rec-Removed, find_named, ids-remove_rec, find_later, found_here}

-- The records that do not have the key in the field.
unfoldable pub without : List ℕ → List ℕ → List Rec → List Rec
without f k [] = []
without f k (r ∷ recs) = if has f k r then without f k recs else r ∷ without f k recs

-- A removed record that has the value does not count.
without-remove_rec :
    (i : ℕ) (f k : List ℕ) (recs : List Rec) (r : Rec)
    → find_rec i recs ≡ some r
    → has f k r ≡ true
    → without f k (remove_rec i recs) ≡ without f k recs
unfolding without remove_rec find_rec
without-remove_rec i f k [] r e h = refl
without-remove_rec i f k (r0 ∷ recs) r e h = elim (Bool-cases (i == r0.id)) [
  | inl q ↦ rw (remove_rec, q) (rw (ap (has f k) (found_here i r0 r recs q e) ∙ h) refl)
  | inr q ↦
      rw (remove_rec, q)
        (ap (λ rs. if has f k r0 then rs else r0 ∷ rs)
          (without-remove_rec i f k recs r (sym (find_later i r0 recs q) ∙ e) h))
]

-- An empty ring.
without_none :
    (f k : List ℕ) (recs : List Rec) → length (ids f k recs) ≡ 0 → without f k recs ≡ recs
unfolding without ids
without_none f k [] h = refl
without_none f k (r ∷ recs) h = elim (Bool-cases (has f k r)) [
  | inl q ↦
      let w : length (ids f k recs ++ (r.id ∷ [])) ≡ 0 =
        ap (λ b. length (ids f k recs ++ (if b then r.id ∷ [] else []))) (sym q) ∙ h in
      absurd (omega (arith, snoc_length (ids f k recs) r.id))
  | inr q ↦
      let w : length (ids f k recs) ≡ 0 =
        ap length (sym (append-nil (ids f k recs)))
        ∙ ap (λ b. length (ids f k recs ++ (if b then r.id ∷ [] else []))) (sym q)
        ∙ h in
      rw (without, q) (ap (λ rs. r ∷ rs) (without_none f k recs w))
]

without_gone : (f k : List ℕ) (recs : List Rec) → ids f k (without f k recs) ≡ []
unfolding without ids
without_gone f k [] = refl
without_gone f k (r ∷ recs) = elim (Bool-cases (has f k r)) [
  | inl q ↦ rw (without, q) (without_gone f k recs)
  | inr q ↦ rw (without, q) (rw (q, without_gone f k recs) refl)
]

head_of : (n : ℕ) (xs : List ℕ) → suc n ≡ length xs → (i : ℕ) × (ys : List ℕ) × (xs ≡ i ∷ ys)
head_of n [] h = absurd (ground arith)
head_of n (i ∷ ys) h = (i, ys, refl)

-- One turn of the loop: the record of the ring's head goes.
record Turn (f k : List ℕ) (n : ℕ) (t : Table) (i : ℕ) (s : Table × Option Entry) : Type 0 where
  head : head_entry f (ids f k t.recs) ≡ some (f, i)
  deletes : tbl_del_rec i (t, some (f, i)) ≡ some s
  valid : IsValid s.0
  stats : (g : List ℕ) → stat_of s.0 g ≡ stat_of t g
  same : without f k s.0.recs ≡ without f k t.recs
  count : n ≡ length (ids f k s.0.recs)
  next_head : s.1 ≡ head_entry f (ids f k s.0.recs)

turn :
    (f k : List ℕ) (n : ℕ) (t : Table)
    → IsValid t
    → suc n ≡ length (ids f k t.recs)
    → (i : ℕ) × (s : Table × Option Entry) × Turn f k n t i s
unfolding mem
turn f k n t v m =
    let (i, ys, e) = head_of n (ids f k t.recs) m in
    let q : mem i (ids f k t.recs) ≡ true = rw e (ground arith) in
    let (r, er, h) = find_named i f k t.next t.recs v.falling q in
    let (s, es, u) = tbl_del_rec-Removed i r t (some (f, i)) v er in
    let ring : ids f k s.0.recs ≡ unlink i (ids f k t.recs) =
      ap (ids f k) u.recs ∙ ids-remove_rec i f k t.next t.recs r v.falling er ∙ rw h refl in
    (
      i,
      s,
      record {
        head = ap (head_entry f) e;
        deletes = es;
        valid = u.valid;
        stats = u.stats;
        same = ap (without f k) u.recs ∙ without-remove_rec i f k t.recs r er h;
        count = omega (arith, length-unlink i (ids f k t.recs) q, m, ap length ring);
        next_head = u.moves f k q refl ∙ ap (head_entry f) (sym ring);
      },
    )

-- The loop, with one turn for each entry of the ring.
del_loop-without :
    (f k : List ℕ) (n : ℕ) (t : Table) (cur : Option Entry)
    → IsValid t
    → n ≡ length (ids f k t.recs)
    → cur ≡ head_entry f (ids f k t.recs)
    → (t' : Table) × (del_loop n (t, cur) ≡ some t')
      × IsValid t'
      × ((g : List ℕ) → stat_of t' g ≡ stat_of t g)
      × (t'.recs ≡ without f k t.recs)
unfolding del_loop
del_loop-without f k zero t cur v n c =
    (t, refl, v, λ g. refl, sym (without_none f k t.recs (sym n)))
del_loop-without f k (suc n) t cur v m c =
    let (i, s, r) = turn f k n t v m in
    let (t', e, v', st, rs) = del_loop-without f k n s.0 s.1 r.valid r.count r.next_head in
    (
      t',
      ap (λ x. del_loop (suc n) (t, x)) (c ∙ r.head) ∙ rw (del_loop, r.deletes) e,
      v',
      λ g. st g ∙ r.stats g,
      rs ∙ r.same,
    )

abbrev cleared_field : List ℕ → List ℕ → Fld → Table → Table
cleared_field f k fld t = set_field t f (clear_lis k fld)

vals_kept :
    (t : Table) (f : List ℕ) (fld fld' : Fld)
    → t.fields f ≡ some fld
    → fld'.vals ≡ fld.vals
    → (g k : List ℕ) → val_at (set_field t f fld') g k ≡ val_at t g k
vals_kept t f fld fld' e w g k = elim (Bool-cases (str_eq f g)) [
  | inl q ↦
      val_at-set_field t f fld' g k
      ∙ rw q (
          ap (λ u. u k) w
          ∙ sym (val_at_field t f k fld e)
          ∙ ap (λ x. val_at t x k) ((str_eq_iff f g).0 q))
  | inr q ↦ val_at-set_field t f fld' g k ∙ rw q refl
]

cleared-stats :
    (f k : List ℕ) (fld : Fld) (t : Table)
    → t.fields f ≡ some fld
    → stat_of t f ≡ some false
    → (g : List ℕ) → stat_of (cleared_field f k fld t) g ≡ stat_of t g
unfolding stat_of
cleared-stats f k fld t e s =
    stats_kept t f false (clear_lis k fld) s ((clears k fld).0 ∙ (ground arith))

cleared-IsValid :
    (f k : List ℕ) (fld : Fld) (t : Table)
    → IsValid t
    → t.fields f ≡ some fld
    → stat_of t f ≡ some false
    → IsValid (cleared_field f k fld t)
unfolding Whole
cleared-IsValid f k fld t v e s =
    let w = cleared-stats f k fld t e s in
    record {
      rings = λ g j h.
          vals_kept t f fld (clear_lis k fld) e (clears k fld).1 g j ∙ v.rings g j (sym (w g) ∙ h);
      cells = Whole-same t (cleared_field f k fld t) w t.recs v.cells;
      falling = v.falling;
    }

ring_or : Option Val → List ℕ
ring_or none = []
ring_or (some v) = v.ring

count_or : Option Val → ℕ
count_or none = 0
count_or (some v) = v.count

ring_of : (xs : List ℕ) → (ring_or (val_of xs) ≡ xs) × (count_or (val_of xs) ≡ length xs)
unfolding ring_or count_or val_of
ring_of [] = (refl, refl)
ring_of (x ∷ xs) = (refl, refl)

gone :
    (f k : List ℕ) (t t' : Table)
    → IsValid t'
    → stat_of t' f ≡ some false
    → t'.recs ≡ without f k t.recs
    → val_at t' f k ≡ none
unfolding val_of
gone f k t t' v s e = v.rings f k s ∙ ap val_of (ap (ids f k) e ∙ without_gone f k t.recs)

-- From a table whose rings are right, for a field with strings: the deletion of a key ends without a
-- fault, the records that do not have the key in the field are left, in their order, and no others,
-- the table has no value for the key any more, and the rings are right again.
pub tbl_del_val-without :
    (f k : List ℕ) (t : Table)
    → IsValid t
    → stat_of t f ≡ some false
    → (t' : Table) × (tbl_del_val f k t ≡ some t')
      × IsValid t'
      × (t'.recs ≡ without f k t.recs)
      × (val_at t' f k ≡ none)
unfolding tbl_del_val ring_or count_or
tbl_del_val-without f k t v s =
    let (fld, e, st) = field_of t f false s in
    let r : val_of (ids f k t.recs) ≡ fld.vals k = sym (v.rings f k s) ∙ val_at_field t f k fld e in
    let w = ring_of (ids f k t.recs) in
    elim (Option-cases (fld.vals k)) [
      | inl q ↦
          let z : length (ids f k t.recs) ≡ 0 = sym w.1 ∙ ap count_or (r ∙ q) in
          let same = sym (without_none f k t.recs z) in
          (t, rw (tbl_del_val, e, q) refl, v, same, gone f k t t v s same)
      | inr (x, q) ↦
          let (t', d, v', st, rs) =
            del_loop-without f k x.count (cleared_field f k fld t) (head_entry f x.ring)
              (cleared-IsValid f k fld t v e s) (sym (ap count_or (r ∙ q)) ∙ w.1)
              (ap (head_entry f) (sym (ap ring_or (r ∙ q)) ∙ w.0)) in
          (
            t',
            rw (tbl_del_val, e, q) d,
            v',
            rs,
            gone f k t t' v' (st f ∙ cleared-stats f k fld t e s f ∙ s) rs,
          )
    ]
