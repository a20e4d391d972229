-- ===== src/Layout/Remove/Parent.antt =====
-- tui/layout.c, layout_remove_buffer: the container that is removed and the one that holds it.
use fnav.Prelude.{
  ℕ, suc, ◌-◌, ◌≤◌, ◌≡◌, ◌≢◌, refl, ap, ◌∙◌, true, false, Option, none, some, ◌==◌, arith,
  Bool-cases, inl, inr, ◌⊎◌,
}
use fnav.Layout.{Container, Containers, empty, entry, tailq_empty, holds}
use fnav.Layout.Tiles.{n_items}
use fnav.Layout.Ids.{total}
use fnav.Layout.Remove.{next_or_prev, merge_single, remove_items}

-- A container with items has two of them at least.
abbrev pub Forked : Containers → Type 0
Forked empty = Unit
Forked (entry it p next) = (n_items p ≢ 1) × Forked p × Forked next

-- A container named `f` is a leaf with the buffer `o`.
abbrev pub LeafBuf : ℕ → Option ℕ → Containers → Type 0
LeafBuf f o empty = Unit
LeafBuf f o (entry it p next) =
    (it.id ≡ f → (tailq_empty p ≡ true) × (it.buf ≡ o)) × LeafBuf f o p × LeafBuf f o next

-- `nx` is beside `f` in the queue of the container that holds `f`.
abbrev pub NextIn : ℕ → Option (Container × Containers) → Containers → Type 0
NextIn f nx empty = Unit
NextIn f nx (entry it p next) =
    (holds f p ≡ true → nx ≡ next_or_prev f none p) × NextIn f nx p × NextIn f nx next

pub holds-absent : (f : ℕ) (q : Containers) → total f q ≡ 0 → holds f q ≡ false
unfolding holds total
holds-absent f empty h = refl
holds-absent f (entry it p next) h =
    let e : it.id == f ≡ false = ground arith in rw e (holds-absent f next (ground arith))

pub total_of_holds : (f : ℕ) (q : Containers) → holds f q ≡ true → 1 ≤ total f q
unfolding holds total
total_of_holds f empty h = absurd (ground arith)
total_of_holds f (entry it p next) h = elim (Bool-cases (it.id == f)) [
  | inl e ↦ rw e (omega arith)
  | inr e ↦ let k : holds f next ≡ true = ground arith in omega (arith, total_of_holds f next k)
]

module _ (f : ℕ) (nx : Option (Container × Containers)) where
  pub remove_items-absent : (q : Containers) → total f q ≡ 0 → remove_items f nx q ≡ q
  unfolding remove_items total
  remove_items-absent empty h = refl
  remove_items-absent (entry it p next) h =
      let e : it.id == f ≡ false = ground arith in
      let a = remove_items-absent p (ground arith) in
      let b = remove_items-absent next (ground arith) in
      rw (e, holds-absent f p (ground arith), a, b) refl

  pub n_items-remove_items :
      (q : Containers)
      → total f q ≤ 1
      → holds f q ≡ true
      → suc (n_items (remove_items f nx q)) ≡ n_items q
  unfolding remove_items total holds
  n_items-remove_items empty h k = absurd (ground arith)
  n_items-remove_items (entry it p next) h k = elim (Bool-cases (it.id == f)) [
    | inl e ↦ rw e refl
    | inr e ↦
        let k' : holds f next ≡ true = ground arith in
        let z : holds f p ≡ false = holds-absent f p (ground (arith, total_of_holds f next k')) in
        rw (e, z) (ap suc (n_items-remove_items next (ground arith) k'))
  ]

  -- An item of two is removed: the other is alone, with its queue, and is `nx`.
  pub record IsOther (p : Containers) : Type 0 where
    pub n : Container
    pub np : Containers
    pub alone : remove_items f nx p ≡ entry n np empty
    pub beside : next_or_prev f none p ≡ some (n, np)

  pub two_items-IsOther :
      (p : Containers) → total f p ≤ 1 → holds f p ≡ true → n_items p ≡ 2 → IsOther p
  unfolding remove_items total holds next_or_prev
  two_items-IsOther empty t h k = absurd (omega arith)
  two_items-IsOther (entry a pa empty) t h k = absurd (omega arith)
  two_items-IsOther (entry a pa (entry b pb (entry c pc r))) t h k = absurd (omega arith)
  two_items-IsOther (entry a pa (entry b pb empty)) t h k = elim (Bool-cases (a.id == f)) [
    | inl e ↦ record { n = b; np = pb; alone = rw e refl; beside = rw e refl }
    | inr e ↦
        let e' : b.id == f ≡ true = ground arith in
        let z : total f pa ≡ 0 = ground arith in
        record {
          n = a;
          np = pa;
          alone = rw (e, e', holds-absent f pa z, remove_items-absent pa z) refl;
          beside = rw (e, e') refl;
        }
  ]

  -- What the container that holds `f` becomes: it takes over the other of two items, or keeps two.
  abbrev pub IsMerged : Container → Containers → Type 0
  IsMerged hc p =
      ((n : Container) × (np : Containers) × (remove_items f nx p ≡ entry n np empty)
        × (nx ≡ some (n, np))
        × (merge_single nx hc (remove_items f nx p)
            ≡ (record hc { buf = n.buf; count = n.count }, np)))
      ⊎ ((2 ≤ n_items (remove_items f nx p))
          × (n_items p ≢ 2)
          × (merge_single nx hc (remove_items f nx p)
              ≡ (record hc { count = hc.count - 1 }, remove_items f nx p)))

  takes_over :
      (hc : Container) (p : Containers) (n : Container) (np : Containers)
      → hc.count ≡ 2
      → nx ≡ some (n, np)
      → merge_single nx hc p ≡ (record hc { buf = n.buf; count = n.count }, np)
  unfolding merge_single
  takes_over hc p n np c e = let m : (hc.count - 1 == 1) ≡ true = ground arith in rw (m, e) refl

  keeps_items :
      (hc : Container) (p : Containers)
      → hc.count ≢ 2
      → merge_single nx hc p ≡ (record hc { count = hc.count - 1 }, p)
  unfolding merge_single
  keeps_items hc p c = let m : (hc.count - 1 == 1) ≡ false = ground arith in rw m refl

  pub merge_single-IsMerged :
      (hc : Container) (p : Containers)
      → total f p ≤ 1
      → holds f p ≡ true
      → nx ≡ next_or_prev f none p
      → n_items p ≢ 1
      → hc.count ≡ n_items p
      → IsMerged hc p
  merge_single-IsMerged hc p t h k two c = elim (Bool-cases (n_items p == 2)) [
    | inl e ↦
        let x = two_items-IsOther p t h (ground arith) in
        let nx_eq : nx ≡ some (x.n, x.np) = k ∙ x.beside in
        let c' : hc.count ≡ 2 = ground arith in
        inl (x.n, x.np, x.alone, nx_eq, takes_over hc (remove_items f nx p) x.n x.np c' nx_eq)
    | inr e ↦
        let i = n_items-remove_items p t h in
        let c' : hc.count ≢ 2 = ground arith in
        inr (ground arith, ground arith, keeps_items hc (remove_items f nx p) c')
  ]
