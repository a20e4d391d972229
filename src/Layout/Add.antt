-- ===== src/Layout/Add.antt =====
-- tui/layout.c, layout_add_buffer: the tree of containers afterwards.
use fnav.Prelude.{
  ℕ, suc, ◌+◌, ◌≤◌, ◌≡◌, ◌≢◌, refl, sym, ap, ◌∙◌, Bool, true, false, ◌||◌, Option, leb, ◌==◌,
  if◌then◌else◌, arith, Bool-cases, inl, inr, ◌⊎◌,
}
use fnav.Layout.{
  shows, Container, Containers, empty, entry, DirType, l_horiz, l_vert, same_dir, tailq_empty,
  append, takes_sibling, insert_items,
}
use fnav.Layout.Tiles.{Uniform, Shape, n_items, bit}
use fnav.Layout.Ids.{total, leaf_total, shown, LeafOnly, leaf_le_total}

-- The directions agree along the queue, and in each container's queue; the counts are right.
n_items-append : (p r : Containers) → n_items (append p r) ≡ n_items p + n_items r
unfolding append
n_items-append empty r = omega arith
n_items-append (entry c p next) r = omega (arith, n_items-append next r)

Uniform-append :
    (d : DirType) (p r : Containers) → Uniform d p → Uniform d r → Uniform d (append p r)
unfolding append
Uniform-append d empty r u v = v
Uniform-append d (entry c p next) r u v = (u.0, Uniform-append d next r u.1 v)

Shape-append : (p r : Containers) → Shape p → Shape r → Shape (append p r)
unfolding append
Shape-append empty r u v = v
Shape-append (entry c p next) r u v = (u.0, u.1, u.2, Shape-append next r u.3 v)

total-append : (f : ℕ) (p r : Containers) → total f (append p r) ≡ total f p + total f r
unfolding append total
total-append f empty r = omega arith
total-append f (entry c p next) r = omega (arith, total-append f next r)

pub no_sibling :
    (f : ℕ) (d : DirType) (q : Containers) → total f q ≡ 0 → takes_sibling f d q ≡ false
unfolding takes_sibling total
no_sibling f d empty h = refl
no_sibling f d (entry it p next) h = ground (arith, no_sibling f d next)

leaf_total-append :
    (f : ℕ) (p r : Containers) → leaf_total f (append p r) ≡ leaf_total f p + leaf_total f r
unfolding append leaf_total
leaf_total-append f empty r = omega arith
leaf_total-append f (entry c p next) r = omega (arith, leaf_total-append f next r)

-- No container is named `f`.
insert_items-absent :
    (f : ℕ) (c sub : Container) (q : Containers) → total f q ≡ 0 → insert_items f c sub q ≡ q
unfolding insert_items total
insert_items-absent f c sub empty h = refl
insert_items-absent f c sub (entry it p next) h =
    let e : it.id == f ≡ false = ground arith in
    let a = insert_items-absent f c sub p (ground arith) in
    let b = insert_items-absent f c sub next (ground arith) in
    rw (e, a, b, no_sibling f c.dir p (ground arith)) refl

pub n_items-insert_items :
    (f : ℕ) (c sub : Container) (q : Containers)
    → total f q ≤ 1
    → n_items (insert_items f c sub q)
      ≡ (if takes_sibling f c.dir q then suc (n_items q) else n_items q)
unfolding takes_sibling total insert_items
n_items-insert_items f c sub empty h = refl
n_items-insert_items f c sub (entry it p next) h =
    ground (arith, n_items-insert_items f c sub next, no_sibling f c.dir next)

no_items : (p : Containers) → tailq_empty p ≡ true → n_items p ≡ 0
no_items empty h = refl
no_items (entry it q next) h = absurd (ground arith)

same_dir_refl : (a : DirType) → same_dir a a ≡ true
same_dir_refl l_horiz = refl
same_dir_refl l_vert = refl

same_dir_trans : (d a b : DirType) → same_dir d b ≡ true → same_dir a b ≡ true → same_dir d a ≡ true
same_dir_trans l_horiz l_horiz b h k = refl
same_dir_trans l_horiz l_vert l_horiz h k = k
same_dir_trans l_horiz l_vert l_vert h k = h
same_dir_trans l_vert l_vert b h k = refl
same_dir_trans l_vert l_horiz l_horiz h k = h
same_dir_trans l_vert l_horiz l_vert h k = k

-- The new containers: `c` shows the buffer, and `sub` takes that of the container of the focus.
module _ (f : ℕ) (c sub : Container) where
  pub Uniform-insert_items :
      (d : DirType) (q : Containers) → Uniform d q → Uniform d (insert_items f c sub q)
  unfolding insert_items
  Uniform-insert_items d empty u = u
  Uniform-insert_items d (entry it p next) u =
      go (it.id == f) (same_dir c.dir it.dir) (Uniform-insert_items d next u.1) refl refl
    where
      go :
          (b b' : Bool)
          → Uniform d (insert_items f c sub next)
          → (it.id == f) ≡ b
          → same_dir c.dir it.dir ≡ b'
          → Uniform d (insert_items f c sub (entry it p next))
      go true true r e e' = rw (e, e') (same_dir_trans d c.dir it.dir u.0 e', u)
      go true false r e e' = rw (e, e') u
      go false b' r e e' = rw e (u.0, r)

  -- The queue of the focus, where `sub` and `c` are alone.
  nested_shape :
      (p : Containers) (b : Option ℕ)
      → tailq_empty p ≡ true
      → c.count ≡ 0
      → sub.count ≡ 0
      → sub.dir ≡ c.dir
      → (2 ≡ n_items (append p (entry c empty (entry (record sub { buf = b }) empty empty))))
        × ((d : DirType) × Uniform d
              (append p (entry c empty (entry (record sub { buf = b }) empty empty))))
        × Shape (append p (entry c empty (entry (record sub { buf = b }) empty empty)))
  unfolding append
  nested_shape empty b h zc sc sd = (
    refl,
    (c.dir, (same_dir_refl c.dir, (rw sd (same_dir_refl c.dir), tt))),
    (zc, (l_horiz, tt), tt, (sc, (l_horiz, tt), tt, tt)),
  )
  nested_shape (entry it q next) b h zc sc sd = absurd (ground arith)

  pub Shape-insert_items :
      (q : Containers)
      → total f q ≤ 1
      → LeafOnly f q
      → c.count ≡ 0
      → sub.count ≡ 0
      → sub.dir ≡ c.dir
      → Shape q
      → Shape (insert_items f c sub q)
  unfolding insert_items total
  Shape-insert_items empty h l zc sc sd w = w
  Shape-insert_items (entry it p next) h l zc sc sd w =
      let inner = Shape-insert_items p (ground arith) l.1 zc sc sd w.2 in
      let rest = Shape-insert_items next (ground arith) l.2 zc sc sd w.3 in
      go (it.id == f) (same_dir c.dir it.dir) inner rest refl refl
    where
      go :
          (b b' : Bool)
          → Shape (insert_items f c sub p)
          → Shape (insert_items f c sub next)
          → (it.id == f) ≡ b
          → same_dir c.dir it.dir ≡ b'
          → Shape (insert_items f c sub (entry it p next))
      go true true x y e e' = rw (e, e') (zc, (l_horiz, tt), tt, w)
      go true false x y e e' =
          let z : 0 ≡ n_items p = sym (no_items p (l.0 (ground arith))) in
          let k : 0 ≡ it.count = z ∙ sym w.0 in
          let m = nested_shape p it.buf (l.0 (ground arith)) zc sc sd in
          rw (e, e') (omega (arith, m.0, k), m.1, m.2, w.3)
      go false b' x y e e' = rw e (
        ap (λ n. if takes_sibling f c.dir p then suc n else n) w.0
            ∙ sym (n_items-insert_items f c sub p (ground arith)),
        (w.1.0, Uniform-insert_items w.1.0 p w.1.1),
        x,
        y,
      )

  -- The container of the focus shows its buffer in `sub`, beside the new one.
  nested_counts :
      (b : ℕ) (it : Container) (p next : Containers)
      → tailq_empty p ≡ true
      → shown b (
          entry
            (record it { count = it.count + 2 })
            (append p (entry c empty (entry (record sub { buf = it.buf }) empty empty)))
            next)
        ≡ shown b (entry it p next) + bit (shows b c.buf)
  unfolding append shown
  nested_counts b it empty next h = omega arith
  nested_counts b it (entry i q r) next h = absurd (ground arith)

  tailq_empty-insert_items : (q : Containers) → tailq_empty (insert_items f c sub q) ≡ tailq_empty q
  unfolding insert_items
  tailq_empty-insert_items empty = refl
  tailq_empty-insert_items (entry it p next) = ground arith

  pub shown-insert_items :
      (b : ℕ) (q : Containers)
      → total f q ≤ 1
      → LeafOnly f q
      → shown b (insert_items f c sub q) ≡ shown b q + (if shows b c.buf then leaf_total f q else 0)
  unfolding insert_items shown leaf_total total
  shown-insert_items b empty h l = ground arith
  shown-insert_items b (entry it p next) h l =
      let x = shown-insert_items b p (ground arith) l.1 in
      let y = shown-insert_items b next (ground arith) l.2 in
      let i = leaf_le_total f p in
      let j = leaf_le_total f next in
      go (it.id == f) (same_dir c.dir it.dir) (λ e. ground arith) x y refl refl
    where
      go :
          (k k' : Bool)
          → ((it.id == f) ≡ true → leaf_total f (entry it p next) ≡ 1)
          → shown b (insert_items f c sub p)
            ≡ shown b p + (if shows b c.buf then leaf_total f p else 0)
          → shown b (insert_items f c sub next)
            ≡ shown b next + (if shows b c.buf then leaf_total f next else 0)
          → (it.id == f) ≡ k
          → same_dir c.dir it.dir ≡ k'
          → shown b (insert_items f c sub (entry it p next))
            ≡ shown b (entry it p next)
              + (if shows b c.buf then leaf_total f (entry it p next) else 0)
      go true true z x y e e' = rw (z e) (rw (e, e') (ground arith))
      go true false z x y e e' =
          rw (z e) (rw (e, e', nested_counts b it p next (l.0 (ground arith))) (ground arith))
      go false k' z x y e e' = rw (e, tailq_empty-insert_items p, x, y) (ground arith)

  pub total-insert_items :
      (g : ℕ) (q : Containers)
      → c.id ≢ sub.id
      → total g (insert_items f c sub q)
        ≤ total g q + (if c.id == g || sub.id == g then total f q else 0)
  unfolding insert_items total
  total-insert_items g empty ne = omega arith
  total-insert_items g (entry it p next) ne =
      go (it.id == f) (same_dir c.dir it.dir) (c.id == g || sub.id == g) (total-insert_items g p ne)
        (total-insert_items g next ne) refl refl refl
    where
      go :
          (k k' m : Bool)
          → total g (insert_items f c sub p) ≤ total g p + (if m then total f p else 0)
          → total g (insert_items f c sub next) ≤ total g next + (if m then total f next else 0)
          → (it.id == f) ≡ k
          → same_dir c.dir it.dir ≡ k'
          → (c.id == g || sub.id == g) ≡ m
          → total g (insert_items f c sub (entry it p next))
            ≤ total g (entry it p next) + (if m then total f (entry it p next) else 0)
      go true true m x y e e' em = rw (e, e') (ground arith)
      go true false m x y e e' em = rw (e, e', total-append g p) (ground arith)
      go false k' true x y e e' em = rw e (omega (arith, x, y))
      go false k' false x y e e' em = rw e (omega (arith, x, y))

  pub leaf_total-insert_items :
      (q : Containers) → 1 ≤ leaf_total f q → 1 ≤ leaf_total c.id (insert_items f c sub q)
  unfolding insert_items leaf_total
  leaf_total-insert_items empty h = absurd (omega arith)
  leaf_total-insert_items (entry it p next) h =
      let below : (it.id == f) ≡ false → (1 ≤ leaf_total f p) ⊎ (1 ≤ leaf_total f next) =
        λ e. leaf_below e in
      go (it.id == f) (same_dir c.dir it.dir) (leaf_total-insert_items p)
        (leaf_total-insert_items next) below refl refl
    where
      leaf_below : (it.id == f) ≡ false → (1 ≤ leaf_total f p) ⊎ (1 ≤ leaf_total f next)
      leaf_below e = elim (Bool-cases (leb 1 (leaf_total f p))) [
        | inl k ↦ inl (ground arith)
        | inr k ↦ inr (ground arith)
      ]

      go :
          (k k' : Bool)
          → (1 ≤ leaf_total f p → 1 ≤ leaf_total c.id (insert_items f c sub p))
          → (1 ≤ leaf_total f next → 1 ≤ leaf_total c.id (insert_items f c sub next))
          → ((it.id == f) ≡ false → (1 ≤ leaf_total f p) ⊎ (1 ≤ leaf_total f next))
          → (it.id == f) ≡ k
          → same_dir c.dir it.dir ≡ k'
          → 1 ≤ leaf_total c.id (insert_items f c sub (entry it p next))
      go true true x y w e e' = rw (e, e') (ground arith)
      go true false x y w e e' = rw (e, e', leaf_total-append c.id p) (ground arith)
      go false k' x y w e e' =
          rw e (elim (w e) [ inl l ↦ omega (arith, x l) | inr l ↦ omega (arith, y l) ])
