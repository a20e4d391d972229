-- ===== src/Layout/Ids.antt =====
-- tui/layout.c: containers and buffers of a tree, counted, and what layout_update leaves as it is.
use fnav.Prelude.{ℕ, suc, ◌+◌, ◌≤◌, ◌≡◌, refl, sym, ap, ◌∙◌, true, ◌&&◌, some, ◌==◌, arith}
use fnav.Layout.{
  Container, Containers, empty, entry, DirType, tailq_empty, shows, place, update_items,
}
use fnav.Layout.Tiles.{Uniform, Shape, n_items, bit, update_items-Step}

-- How many containers are named `f`, and how many of the leaves.
unfoldable pub total : ℕ → Containers → ℕ
total f empty = 0
total f (entry it p next) = bit (it.id == f) + total f p + total f next

unfoldable pub leaf_total : ℕ → Containers → ℕ
leaf_total f empty = 0
leaf_total f (entry it p next) =
    bit (tailq_empty p && it.id == f) + leaf_total f p + leaf_total f next

-- How many leaves show the buffer `b`.
unfoldable pub shown : ℕ → Containers → ℕ
shown b empty = 0
shown b (entry it p next) = bit (tailq_empty p && shows b it.buf) + shown b p + shown b next

-- A container named `f` holds nothing.
abbrev pub LeafOnly : ℕ → Containers → Type 0
LeafOnly f empty = Unit
LeafOnly f (entry it p next) = (it.id ≡ f → tailq_empty p ≡ true) × LeafOnly f p × LeafOnly f next

pub leaf_le_total : (f : ℕ) (q : Containers) → leaf_total f q ≤ total f q
unfolding leaf_total total
leaf_le_total f empty = omega arith
leaf_le_total f (entry it p next) = ground (arith, leaf_le_total f p, leaf_le_total f next)

-- Where all containers of a name are leaves, they hold nothing.
pub LeafOnly-total : (f : ℕ) (q : Containers) → total f q ≤ leaf_total f q → LeafOnly f q
unfolding leaf_total total
LeafOnly-total f empty h = tt
LeafOnly-total f (entry it p next) h =
    let a = leaf_le_total f p in
    let b = leaf_le_total f next in
    (ground arith, LeafOnly-total f p (ground arith), LeafOnly-total f next (ground arith))

-- The steps of layout_update change sizes and offsets only.
pub record Same (p q : Containers) : Type 0 where
  pub empty_eq : tailq_empty q ≡ tailq_empty p
  pub items_eq : n_items q ≡ n_items p
  pub total_eq : (f : ℕ) → total f q ≡ total f p
  pub leaf_eq : (f : ℕ) → leaf_total f q ≡ leaf_total f p
  pub shown_eq : (b : ℕ) → shown b q ≡ shown b p
  pub uniform_eq : (d : DirType) → Uniform d p → Uniform d q
  pub shape_eq : Shape p → Shape q

Same-empty : Same empty empty
Same-empty = record {
  empty_eq = refl;
  items_eq = refl;
  total_eq = λ f. refl;
  leaf_eq = λ f. refl;
  shown_eq = λ b. refl;
  uniform_eq = λ d u. u;
  shape_eq = λ u. u;
}

Same-entry :
    (c it : Container) (i : ℕ) (p p' next next' : Containers)
    → Same p p'
    → Same next next'
    → Same (entry it p next) (entry (place c i it) p' next')
unfolding total leaf_total shown place
Same-entry c it i p p' next next' a b = record {
  empty_eq = refl;
  items_eq = ap suc b.items_eq;
  total_eq = λ f. rw (a.total_eq f, b.total_eq f) refl;
  leaf_eq = λ f. rw (a.empty_eq, a.leaf_eq f, b.leaf_eq f) refl;
  shown_eq = λ f. rw (a.empty_eq, a.shown_eq f, b.shown_eq f) refl;
  uniform_eq = λ d u. (u.0, b.uniform_eq d u.1);
  shape_eq = λ w.
      (w.0 ∙ sym a.items_eq, (w.1.0, a.uniform_eq w.1.0 w.1.1), a.shape_eq w.2, b.shape_eq w.3);
}

pub Same-update_items :
    (c : Container) (i : ℕ) (p q : Containers) → update_items c i p ≡ some q → Same p q
unfolding update_items
Same-update_items c i empty empty e = Same-empty
Same-update_items c i empty (entry it p next) e = absurd (ground arith)
Same-update_items c i (entry it p next) q e =
    let s = update_items-Step c i it p next q e in
    rw s.result (
      Same-entry c it i p s.inner next s.rest
        (Same-update_items (place c i it) 1 p s.inner s.inner_eq)
        (Same-update_items c (suc i) next s.rest s.rest_eq))
