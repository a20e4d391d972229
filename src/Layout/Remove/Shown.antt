-- ===== src/Layout/Remove/Shown.antt =====
-- tui/layout.c, layout_remove_buffer: the buffers that the leaves show afterwards.
use fnav.Prelude.{
  ℕ, ◌+◌, ◌≤◌, ◌≡◌, refl, ap, ◌∙◌, true, false, Option, ◌==◌, if◌then◌else◌, arith, Bool-cases, inl,
  inr,
}
use fnav.Layout.{Container, Containers, empty, entry, tailq_empty, holds, shows}
use fnav.Layout.Tiles.{Shape, n_items}
use fnav.Layout.Ids.{total, shown}
use fnav.Layout.Remove.{merge_single, remove_items}
use fnav.Layout.Remove.Parent.{
  Forked, LeafBuf, NextIn, total_of_holds, remove_items-absent, IsMerged, merge_single-IsMerged,
}

nonempty : (p : Containers) → 1 ≤ n_items p → tailq_empty p ≡ false
nonempty empty h = absurd (omega arith)
nonempty (entry it p next) h = refl

shown_empty : (b : ℕ) (p : Containers) → tailq_empty p ≡ true → shown b p ≡ 0
unfolding shown
shown_empty b empty h = refl
shown_empty b (entry it p next) h = absurd (ground arith)

holds_some : (f : ℕ) (p : Containers) → holds f p ≡ true → tailq_empty p ≡ false
unfolding holds
holds_some f empty h = absurd (ground arith)
holds_some f (entry it p next) h = refl

module _ (f : ℕ) (nx : Option (Container × Containers)) (o : Option ℕ) where
  tailq_empty-remove_items :
      (p : Containers) → holds f p ≡ false → tailq_empty (remove_items f nx p) ≡ tailq_empty p
  unfolding remove_items holds
  tailq_empty-remove_items empty h = refl
  tailq_empty-remove_items (entry it p next) h =
      let e : it.id == f ≡ false = ground arith in
      rw e (elim (Bool-cases (holds f p)) [ inl k ↦ rw k refl | inr k ↦ rw k refl ])

  -- The merged container shows what was left of its items.
  shown-merge_single :
      (b : ℕ) (hc : Container) (p rest : Containers)
      → IsMerged f nx hc p
      → shown b (
          entry
            (merge_single nx hc (remove_items f nx p)).0
            (merge_single nx hc (remove_items f nx p)).1
            rest)
        ≡ shown b (remove_items f nx p) + shown b rest
  unfolding shown
  shown-merge_single b hc p rest (inl (n, np, a, k, e)) = rw (e, a) (omega arith)
  shown-merge_single b hc p rest (inr (k, m, e)) =
      rw (e, nonempty (remove_items f nx p) (omega arith)) (omega arith)

  pub shown-remove_items :
      (b : ℕ) (q : Containers)
      → total f q ≤ 1
      → LeafBuf f o q
      → Shape q
      → Forked q
      → NextIn f nx q
      → shown b q ≡ shown b (remove_items f nx q) + (if shows b o then total f q else 0)
  unfolding shown remove_items total
  shown-remove_items b empty t l w k n = ground arith
  shown-remove_items b (entry it p next) t l w k n = elim (Bool-cases (it.id == f)) [
    | inl e ↦
        let m = l.0 (ground arith) in
        let z : total f p ≡ 0 = ground arith in
        let z' : total f next ≡ 0 = ground arith in
        rw (e, z, z', m.0, m.1) (rw (shown_empty b p m.0) (ground arith))
    | inr e ↦ elim (Bool-cases (holds f p)) [
      | inl h ↦
          let i = total_of_holds f p h in
          let z : total f p ≡ 1 = ground arith in
          let z' : total f next ≡ 0 = ground arith in
          let x = shown-remove_items b p (ground arith) l.1 w.2 k.1 n.1 in
          let y =
            shown-merge_single b it p next
              (merge_single-IsMerged f nx it p (ground arith) h (n.0 h) k.0 w.0) in
          let x' : shown b p ≡ shown b (remove_items f nx p) + (if shows b o then 1 else 0) =
            x ∙ ap (λ k. shown b (remove_items f nx p) + (if shows b o then k else 0)) z in
          rw (e, h, remove_items-absent f nx next z', y, z, z', holds_some f p h)
            (ground (arith, x'))
      | inr h ↦
          let x = shown-remove_items b p (ground arith) l.1 w.2 k.1 n.1 in
          let y = shown-remove_items b next (ground arith) l.2 w.3 k.2 n.2 in
          rw (e, h, tailq_empty-remove_items p h) (ground (arith, x, y))
    ]
  ]
