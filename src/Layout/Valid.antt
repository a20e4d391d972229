-- ===== src/Layout/Valid.antt =====
-- tui/layout.c: what holds of a layout between its calls, and what layout_add_buffer does to it.
use fnav.Prelude.{
  ℕ, suc, ◌+◌, ◌≤◌, ◌≡◌, ◌≢◌, refl, sym, ap, ◌∙◌, Bool, true, false, Option, none, some, ◌==◌,
  if◌then◌else◌, arith, Bool-cases, inl, inr, ◌⊎◌,
}
use native.Mathlib.Nat.{le_trans}
use fnav.Layout.{
  Pos, Container, Containers, empty, entry, Layout, MoveDir, dir_of, move_up, l_horiz, tailq_empty,
  create_container, append, takes_sibling, layout_update, layout_add_buffer, layout_init,
  new_container, add_items, add_root, focus_is_root,
}
use fnav.Layout.Tiles.{Uniform, Shape, n_items, bit}
use fnav.Layout.Ids.{
  total, leaf_total, shown, LeafOnly, LeafOnly-total, leaf_le_total, Same, Same-update_items,
}
use fnav.Layout.Add.{
  n_items-insert_items, Shape-insert_items, shown-insert_items, total-insert_items,
  leaf_total-insert_items, Uniform-insert_items,
}

-- The counts of the containers are right, the items of a container have one direction, no name is
-- twice in the tree, and the focus is a leaf, or the root when it has no items.
pub record IsValid (l : Layout) : Type 0 where
  pub dir : l.root.dir ≡ l_horiz
  pub counts : l.root.count ≡ n_items l.items
  pub uniform : Uniform l_horiz l.items
  pub shape : Shape l.items
  pub unique : (f : ℕ) → total f l.items ≤ 1
  pub apart : total l.root.id l.items ≡ 0
  pub focused :
      ((l.focus ≡ l.root.id) × (tailq_empty l.items ≡ true)) ⊎ (1 ≤ leaf_total l.focus l.items)

pub layout_init-IsValid : (id : ℕ) (size : Pos) → IsValid (layout_init id size)
unfolding layout_init create_container total
layout_init-IsValid id size = record {
  dir = refl;
  counts = refl;
  uniform = tt;
  shape = tt;
  unique = λ f. omega arith;
  apart = refl;
  focused = inl (refl, refl);
}

-- The names of two new containers.
pub record IsNew (l : Layout) (c sub : ℕ) : Type 0 where
  pub c_new : total c l.items ≡ 0
  pub sub_new : total sub l.items ≡ 0
  pub differ : c ≢ sub
  pub not_root : (c ≢ l.root.id) × (sub ≢ l.root.id)

pub Same-layout_update : (c : Container) (p q : Containers) → layout_update c p ≡ some q → Same p q
unfolding layout_update
Same-layout_update c p q e = Same-update_items c 1 p q (ground arith)

no_containers : (q : Containers) → tailq_empty q ≡ true → q ≡ empty
no_containers empty h = refl
no_containers (entry c p next) h = absurd (ground arith)

-- The layout in front of layout_update.
module _ (l : Layout) (c sub nbuf : ℕ) (dir : MoveDir) where
  abbrev new : Container
  new = new_container l c nbuf dir

  abbrev items : Containers
  items = add_items l new (create_container sub dir none)

  record Updated (l' : Layout) : Type 0 where
    root_eq : l'.root ≡ add_root l new
    focus_eq : l'.focus ≡ c
    same : Same items l'.items
    fits : focus_is_root l ≡ true → tailq_empty l.items ≡ true

  layout_add_buffer-Updated :
      (l' : Layout) → layout_add_buffer l c sub nbuf dir ≡ some l' → Updated l'
  unfolding layout_add_buffer
  layout_add_buffer-Updated l' e =
      go (layout_update (add_root l new) items) refl (focus_is_root l) (tailq_empty l.items) refl
        refl
    where
      go :
          (o : Option Containers)
          → layout_update (add_root l new) items ≡ o
          → (r m : Bool) → focus_is_root l ≡ r
          → tailq_empty l.items ≡ m
          → Updated l'
      go none eo r m er em = absurd (ground arith)
      go (some q) eo r m er em =
          let k : l' ≡ record { root = add_root l new; items = q; focus = c } = ground arith in
          record {
            root_eq = ap (λ (z : Layout). z.root) k;
            focus_eq = ap (λ (z : Layout). z.focus) k;
            same = rw k (Same-layout_update (add_root l new) items q eo);
            fits = λ z. ground arith;
          }

  -- The first buffer, in the root.
  record IsFirst (q : Containers) : Type 0 where
    one : n_items q ≡ 1
    count_one : (add_root l new).count ≡ 1
    horiz : Uniform l_horiz q
    alone : Shape q
    ids : (f : ℕ) → total f q ≡ bit (c == f)
    leaf : leaf_total c q ≡ 1
    shown_one : (b : ℕ) → shown b q ≡ bit (b == nbuf)

  abbrev single : Containers
  single = entry (create_container c move_up (some nbuf)) empty empty

  first_items : focus_is_root l ≡ true → tailq_empty l.items ≡ true → items ≡ single
  unfolding add_items new_container append
  first_items r m = let k : l.items ≡ empty = no_containers l.items m in rw (r, k) refl

  single_count :
      IsValid l → focus_is_root l ≡ true → tailq_empty l.items ≡ true → (add_root l new).count ≡ 1
  unfolding add_root
  single_count v r m =
      let k : n_items l.items ≡ 0 = rw (no_containers l.items m) refl in
      rw r (omega (arith, v.counts, k))

  items-IsFirst : IsValid l → focus_is_root l ≡ true → tailq_empty l.items ≡ true → IsFirst items
  unfolding create_container total leaf_total shown
  items-IsFirst v r m = rw (first_items r m) (record {
    one = refl;
    count_one = single_count v r m;
    horiz = (refl, tt);
    alone = (refl, (l_horiz, tt), tt, tt);
    ids = λ f. omega arith;
    leaf = ground arith;
    shown_one = λ b. omega arith;
  })

  not_root_leaf : IsValid l → focus_is_root l ≡ false → 1 ≤ leaf_total l.focus l.items
  not_root_leaf v r = elim v.focused [ inl h ↦ absurd (ground arith) | inr h ↦ h ]

  -- A further buffer.
  record IsFurther (q : Containers) : Type 0 where
    counted : (add_root l new).count ≡ n_items q
    horiz : Uniform l_horiz q
    right : Shape q
    ids : (f : ℕ) → total f q ≤ total f l.items + total l.focus l.items
    other_ids : (f : ℕ) → (c == f) ≡ false → (sub == f) ≡ false → total f q ≤ total f l.items
    leaf : 1 ≤ leaf_total c q
    shown_more : (b : ℕ) → shown b q ≡ shown b l.items + bit (b == nbuf)

  items-IsFurther : IsValid l → c ≢ sub → focus_is_root l ≡ false → IsFurther items
  unfolding add_items add_root new_container create_container
  items-IsFurther v ne r =
      let f = l.focus in
      let n = create_container c dir (some nbuf) in
      let sc = create_container sub dir none in
      let g : 1 ≤ leaf_total f l.items = not_root_leaf v r in
      let t = v.unique f in
      let lo : LeafOnly f l.items = LeafOnly-total f l.items (omega arith) in
      let le = leaf_le_total f l.items in
      let one : leaf_total f l.items ≡ 1 = omega arith in
      rw r (record {
        counted = rw r (
            ap (λ k. if takes_sibling f (dir_of dir) l.items then suc k else k) v.counts
            ∙ sym (n_items-insert_items f n sc l.items t));
        horiz = Uniform-insert_items f n sc l_horiz l.items v.uniform;
        right = Shape-insert_items f n sc l.items t lo refl refl refl v.shape;
        ids = λ g. le_trans (total-insert_items f n sc g l.items ne) (ground arith);
        other_ids =
            λ g h k. le_trans (total-insert_items f n sc g l.items ne) (rw (h, k) (omega arith));
        leaf = leaf_total-insert_items f n sc l.items g;
        shown_more = λ b. shown-insert_items f n sc b l.items t lo ∙ rw one (ground arith);
      })

  Updated-IsValid :
      (l' : Layout)
      → Updated l'
      → l.root.dir ≡ l_horiz
      → (add_root l new).count ≡ n_items items
      → Uniform l_horiz items
      → Shape items
      → ((f : ℕ) → total f items ≤ 1)
      → total l.root.id items ≡ 0
      → 1 ≤ leaf_total c items
      → IsValid l'
  unfolding add_root
  Updated-IsValid l' u d n h w t a f = record {
    dir = rw u.root_eq d;
    counts = rw u.root_eq (n ∙ sym u.same.items_eq);
    uniform = u.same.uniform_eq l_horiz h;
    shape = u.same.shape_eq w;
    unique = λ f. rw (u.same.total_eq f) (t f);
    apart = rw (u.same.total_eq l'.root.id, u.root_eq) a;
    focused = inr (rw (u.same.leaf_eq l'.focus, u.focus_eq) f);
  }

  further_unique : IsValid l → IsNew l c sub → (f : ℕ) → IsFurther items → total f items ≤ 1
  further_unique v w f x =
      let o : total l.focus l.items ≤ 1 = v.unique l.focus in
      let t : total f l.items ≤ 1 = v.unique f in
      let i = x.ids f in
      elim (Bool-cases (c == f)) [
        | inl e ↦
            let k : c ≡ f = ground arith in
            let z : total f l.items ≡ 0 = rw (sym k) w.c_new in
            let i' : total f items ≤ total f l.items + total l.focus l.items = i in
            omega (arith, z, i', o)
        | inr e ↦ elim (Bool-cases (sub == f)) [
          | inl e' ↦
              let k : sub ≡ f = ground arith in
              let z : total f l.items ≡ 0 = rw (sym k) w.sub_new in
              let i' : total f items ≤ total f l.items + total l.focus l.items = i in
              omega (arith, z, i', o)
          | inr e' ↦
              let i' : total f items ≤ total f l.items = x.other_ids f e e' in omega (arith, i', t)
        ]
      ]

not_same : (a b : ℕ) → a ≢ b → bit (a == b) ≡ 0
not_same a b h = ground arith

differ_test : (a b : ℕ) → a ≢ b → (a == b) ≡ false
differ_test a b h = ground arith

root_apart :
    (l : Layout) (c sub nbuf : ℕ) (dir : MoveDir)
    → IsValid l
    → IsNew l c sub
    → IsFurther l c sub nbuf dir (items l c sub nbuf dir)
    → total l.root.id (items l c sub nbuf dir) ≡ 0
root_apart l c sub nbuf dir v w x =
    let r = l.root.id in
    omega (
      arith,
      x.other_ids r (differ_test c r w.not_root.0) (differ_test sub r w.not_root.1),
      v.apart,
    )

-- layout_add_buffer keeps the layout valid, when its two containers are new: the new container has the
-- focus, and is a leaf.
pub layout_add_buffer-IsValid :
    (l : Layout) (c sub nbuf : ℕ) (dir : MoveDir) (l' : Layout)
    → IsValid l
    → IsNew l c sub
    → layout_add_buffer l c sub nbuf dir ≡ some l'
    → IsValid l'
layout_add_buffer-IsValid l c sub nbuf dir l' v w e =
    let u = layout_add_buffer-Updated l c sub nbuf dir l' e in
    elim (Bool-cases (focus_is_root l)) [
      | inl r ↦
          let x = items-IsFirst l c sub nbuf dir v r (u.fits r) in
          Updated-IsValid l c sub nbuf dir l' u v.dir (x.count_one ∙ sym x.one) x.horiz x.alone
            (λ f. rw (x.ids f) (ground arith))
            (rw (x.ids l.root.id) (not_same c l.root.id w.not_root.0)) (rw x.leaf (omega arith))
      | inr r ↦
          let x = items-IsFurther l c sub nbuf dir v w.differ r in
          Updated-IsValid l c sub nbuf dir l' u v.dir x.counted x.horiz x.right
            (λ f. further_unique l c sub nbuf dir v w f x) (root_apart l c sub nbuf dir v w x)
            x.leaf
    ]

no_more : (b nbuf : ℕ) → bit (b == nbuf) ≡ shown b empty + bit (b == nbuf)
unfolding shown
no_more b nbuf = omega arith

-- A layout_add_buffer to a valid layout shows the buffer in one more leaf, and each other buffer in as
-- many as before.
layout_add_buffer-shown :
    (l : Layout) (c sub nbuf : ℕ) (dir : MoveDir) (l' : Layout)
    → IsValid l
    → IsNew l c sub
    → layout_add_buffer l c sub nbuf dir ≡ some l'
    → (b : ℕ) → shown b l'.items ≡ shown b l.items + bit (b == nbuf)
layout_add_buffer-shown l c sub nbuf dir l' v w e b =
    let u = layout_add_buffer-Updated l c sub nbuf dir l' e in
    elim (Bool-cases (focus_is_root l)) [
      | inl r ↦
          let x = items-IsFirst l c sub nbuf dir v r (u.fits r) in
          rw (u.same.shown_eq b, x.shown_one b, no_containers l.items (u.fits r)) (no_more b nbuf)
      | inr r ↦ u.same.shown_eq b ∙ (items-IsFurther l c sub nbuf dir v w.differ r).shown_more b
    ]
