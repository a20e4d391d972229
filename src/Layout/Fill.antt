-- ===== src/Layout/Fill.antt =====
-- tui/layout.c, layout_update: when the items of a container use up its size.
use fnav.Prelude.{
  ℕ, suc, ◌+◌, ◌*◌, ◌/◌, ◌%◌, ◌≤◌, ◌<◌, ◌≡◌, ◌∙◌, refl, sym, ap, true, false, some, ◌==◌,
  if◌then◌else◌, arith, ◌≢◌, ◌↔◌,
}
use native.Mathlib.Nat.{div-add-mod', mul-add-mod_self_left, mod-lt, mod-eq_of_lt, max-eq_left}
use fnav.Layout.{
  Container, Containers, empty, entry, DirType, l_horiz, l_vert, same_dir, new_lnum, new_col,
  item_size, place, divides, update_items, layout_update,
}
use fnav.Layout.Tiles.{Uniform, n_items, share, along, update_items-Step}

-- The sizes of the containers of a queue, added up.
pub extent : DirType → Containers → ℕ
extent d empty = 0
extent d (entry c p next) = along d c.size + extent d next

along-place :
    (d : DirType) (c it : Container) (i : ℕ)
    → same_dir d it.dir ≡ true
    → along d (place c i it).size
      ≡ (if i == c.count then share d c + along d c.size % share d c else share d c)
unfolding place item_size
along-place d c it i h = elim d [ l_horiz ↦ ground arith | l_vert ↦ ground arith ]

extent-empty :
    (d : DirType) (c : Container) (i : ℕ) (q : Containers)
    → update_items c i empty ≡ some q
    → extent d q ≡ 0
unfolding update_items extent
extent-empty d c i empty e = refl
extent-empty d c i (entry it p next) e = absurd (ground arith)

extent-update_items :
    (d : DirType) (c : Container) (i : ℕ) (p q : Containers)
    → Uniform d p
    → suc c.count ≡ i + n_items p
    → 1 ≤ n_items p
    → update_items c i p ≡ some q
    → extent d q ≡ share d c * n_items p + along d c.size % share d c
unfolding extent
extent-update_items d c i empty q u n m e = absurd (omega arith)
extent-update_items d c i (entry it p empty) q u n m e =
    let s = update_items-Step c i it p empty q e in
    let k : i == c.count ≡ true = ground arith in
    rw (s.result, along-place d c it i u.0, k, extent-empty d c (suc i) s.rest s.rest_eq)
      (omega arith)
extent-update_items d c i (entry it p (entry it₁ p₁ next)) q u n m e =
    let s = update_items-Step c i it p (entry it₁ p₁ next) q e in
    let k : i == c.count ≡ false = ground arith in
    let r =
      extent-update_items d c (suc i) (entry it₁ p₁ next) s.rest u.1 (omega arith) (omega arith)
        s.rest_eq in
    rw (s.result, along-place d c it i u.0, k, r) (grind arith)

-- `s` in `n` shares of `q`, with the remainder by `q`.
shares_exact : (s n q : ℕ) → q ≡ s / n → q ≢ 0 → (q * n + s % q ≡ s) ↔ (s % n < q)
shares_exact s n q e h =
    let a : q * n + s % n ≡ s = rw e (div-add-mod' s n) in
    let b : s % q ≡ s % n % q = ap (λ (z : ℕ). z % q) (sym a) ∙ mul-add-mod_self_left q n (s % n) in
    (λ k. omega (arith, mod-lt s {m = q} (omega arith)), λ k. omega (arith, mod-eq_of_lt k))

share-div : (d : DirType) (c : Container) → 1 ≤ c.count → share d c ≡ along d c.size / c.count
unfolding new_lnum new_col
share-div l_horiz c m = ap (λ (z : ℕ). c.size.lnum / z) (max-eq_left m)
share-div l_vert c m = ap (λ (z : ℕ). c.size.col / z) (max-eq_left m)

share_positive : (d : DirType) (c : Container) → divides c ≡ true → share d c ≢ 0
unfolding divides
share_positive d c v = elim d [ l_horiz ↦ ground arith | l_vert ↦ ground arith ]

-- layout_update of a container that counts its items, of one direction: the sizes of the items add up
-- to the size of the container exactly when the remainder by the number of items is less than the
-- share of an item, since the code takes the remainder by the share.
layout_update-extent_iff :
    (d : DirType) (c : Container) (p q : Containers)
    → Uniform d p
    → c.count ≡ n_items p
    → 1 ≤ c.count
    → layout_update c p ≡ some q
    → (extent d q ≡ along d c.size) ↔ (along d c.size % c.count < share d c)
unfolding layout_update
layout_update-extent_iff d c p q u n m e =
    let v : divides c ≡ true = ground arith in
    let e' : update_items c 1 p ≡ some q = ground arith in
    let k : extent d q ≡ share d c * c.count + along d c.size % share d c =
      simp n (extent-update_items d c 1 p q u (omega arith) (omega arith) e') in
    rw k
      (shares_exact (along d c.size) c.count (share d c) (share-div d c m) (share_positive d c v))
