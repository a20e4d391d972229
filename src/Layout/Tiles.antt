-- ===== src/Layout/Tiles.antt =====
-- tui/layout.c, layout_update: where the leaves are.
use fnav.Prelude.{
  ℕ, zero, suc, ◌+◌, ◌-◌, ◌*◌, ◌/◌, ◌%◌, ◌≤◌, max, ◌≡◌, refl, sym, Bool, true, false, ◌&&◌, Option,
  none, some, ltb, leb, ◌==◌, if◌then◌else◌, arith, Bool-cases, inl, inr, ◌≢◌,
}
use native.Mathlib.Nat.{mul-le-mul_left, mul-suc}
use fnav.Layout.{
  Pos, Container, Containers, empty, entry, DirType, l_horiz, l_vert, same_dir, tailq_empty,
  new_lnum, new_col, item_size, item_ofs, place, divides, update_items, layout_update,
}

abbrev pub n_items : Containers → ℕ
n_items empty = 0
n_items (entry c p next) = suc (n_items next)

-- All containers of a queue have the direction `d`.
abbrev pub Uniform : DirType → Containers → Type 0
Uniform d empty = Unit
Uniform d (entry it p next) = (same_dir d it.dir ≡ true) × Uniform d next

-- Each container counts its items, and they have one direction.
abbrev pub Shape : Containers → Type 0
Shape empty = Unit
Shape (entry it p next) =
    (it.count ≡ n_items p) × ((d : DirType) × Uniform d p) × Shape p × Shape next

abbrev pub bit : Bool → ℕ
bit true = 1
bit false = 0

abbrev band : ℕ → ℕ → ℕ → Bool
band x o s = leb o x && ltb x (o + s)

-- The cell `x` of the screen is in the rectangle of `c`.
pub inside : Pos → Container → Bool
inside x c = band x.lnum c.ofs.lnum c.size.lnum && band x.col c.ofs.col c.size.col

-- How many leaves of a queue have the cell `x`.
pub covers : Pos → Containers → ℕ
covers x empty = 0
covers x (entry it p next) =
    (if tailq_empty p then bit (inside x it) else covers x p) + covers x next

abbrev pub along : DirType → Pos → ℕ
along l_horiz x = x.lnum
along l_vert x = x.col

abbrev pub across : DirType → Pos → ℕ
across l_horiz x = x.col
across l_vert x = x.lnum

abbrev pub share : DirType → Container → ℕ
share l_horiz c = new_lnum c
share l_vert c = new_col c

-- What is left of `c` from its item `i` on.
abbrev strip : DirType → Pos → Container → ℕ → Bool
strip d x c i =
    leb (along d c.ofs + share d c * (i - 1)) (along d x)
    && ltb (along d x) (along d c.ofs + along d c.size)
    && band (across d x) (across d c.ofs) (across d c.size)

-- The share of `n` items, times `n`, and the remainder that the code takes, are within the size.
shares_fit : (s n q : ℕ) → q ≡ s / n → q ≢ 0 → 1 ≤ n → q * n + s % q ≤ s
shares_fit s n q e h k = elim (Bool-cases (leb n (s / q))) [
  | inl l ↦ let k' : n ≤ s / q = ground arith in omega (arith, mul-le-mul_left q k')
  | inr l ↦ let k' : suc (s / q) ≤ n = ground arith in absurd (grind (arith, mul-le-mul_left q k'))
]

rest_fits : (s n : ℕ) → s / max n 1 ≢ 0 → 1 ≤ n → s / max n 1 * n + s % (s / max n 1) ≤ s
rest_fits s n h k =
    let e : max n 1 ≡ n = omega arith in shares_fit s n (s / max n 1) (rw e refl) h k

share_fits :
    (d : DirType) (c : Container)
    → divides c ≡ true
    → 1 ≤ c.count
    → share d c * c.count + along d c.size % share d c ≤ along d c.size
unfolding divides new_lnum new_col
share_fits l_horiz c h k = rest_fits c.size.lnum c.count (ground arith) k
share_fits l_vert c h k = rest_fits c.size.col c.count (ground arith) k

inside-place :
    (d : DirType) (x : Pos) (c it : Container) (i : ℕ)
    → same_dir d it.dir ≡ true
    → inside x (place c i it) ≡ (
        band
          (along d x)
          (along d c.ofs + share d c * (i - 1))
          (if i == c.count then share d c + along d c.size % share d c else share d c)
        && band (across d x) (across d c.ofs) (across d c.size))
unfolding inside place item_size item_ofs
inside-place d x c it i h = elim d [ l_horiz ↦ ground arith | l_vert ↦ ground arith ]

-- Numbers of one direction: an item of the share `q` at `a`, and the strip behind it.
cut_strip :
    (x a q o s : ℕ) (b : Bool)
    → a + q ≤ o + s
    → bit ((leb a x && ltb x (a + q)) && b) + bit (leb (a + q) x && ltb x (o + s) && b)
      ≤ bit (leb a x && ltb x (o + s) && b)
cut_strip x a q o s b h = ground arith

last_strip :
    (x a q o s : ℕ) (b : Bool)
    → a + q ≤ o + s
    → bit ((leb a x && ltb x (a + q)) && b) ≤ bit (leb a x && ltb x (o + s) && b)
last_strip x a q o s b h = ground arith

-- The steps of the loop at one item.
pub record Step (c : Container) (i : ℕ) (it : Container) (p next q : Containers) : Type 0 where
  pub inner : Containers
  pub rest : Containers
  pub inner_eq : update_items (place c i it) 1 p ≡ some inner
  pub rest_eq : update_items c (suc i) next ≡ some rest
  pub result : q ≡ entry (place c i it) inner rest
  pub guard : tailq_empty p ≡ false → divides (place c i it) ≡ true

pub update_items-Step :
    (c : Container) (i : ℕ) (it : Container) (p next q : Containers)
    → update_items c i (entry it p next) ≡ some q
    → Step c i it p next q
unfolding update_items
update_items-Step c i it p next q e =
    go (update_items (place c i it) 1 p) (update_items c (suc i) next) (tailq_empty p)
      (divides (place c i it)) refl refl refl refl
  where
    go :
        (a b : Option Containers) (m v : Bool)
        → update_items (place c i it) 1 p ≡ a
        → update_items c (suc i) next ≡ b
        → tailq_empty p ≡ m
        → divides (place c i it) ≡ v
        → Step c i it p next q
    go none b m v ea eb em ev = absurd (ground arith)
    go (some a) none m v ea eb em ev = absurd (ground arith)
    go (some a) (some b) m v ea eb em ev = record {
      inner = a;
      rest = b;
      inner_eq = ea;
      rest_eq = eb;
      result = ground arith;
      guard = ground arith;
    }

-- The leaves of an item, of which those that it holds are in its strip.
leaves_bound :
    (x : Pos) (it : Container) (p : Containers)
    → (tailq_empty p ≡ false → covers x p ≤ bit (inside x it))
    → (if tailq_empty p then bit (inside x it) else covers x p) ≤ bit (inside x it)
leaves_bound x it empty h = omega arith
leaves_bound x it (entry c p next) h = h refl

strip_inside : (x : Pos) (d : DirType) (c : Container) → strip d x c 1 ≡ inside x c
unfolding inside
strip_inside x d c = elim d [ l_horiz ↦ ground arith | l_vert ↦ ground arith ]

n_items_zero :
    (c : Container) (i : ℕ) (p q : Containers) (x : Pos)
    → n_items p ≡ 0
    → update_items c i p ≡ some q
    → covers x q ≡ 0
unfolding update_items covers
n_items_zero c i empty empty x h e = refl
n_items_zero c i empty (entry it p next) x h e = absurd (ground arith)
n_items_zero c i (entry it p next) q x h e = absurd (omega arith)

-- An item, and the strip behind it, are in the strip.
tailq_empty-update_items :
    (c : Container) (i : ℕ) (p q : Containers)
    → update_items c i p ≡ some q
    → tailq_empty q ≡ tailq_empty p
unfolding update_items
tailq_empty-update_items c i empty q e = ground arith
tailq_empty-update_items c i (entry it p next) q e =
    rw (update_items-Step c i it p next q e).result refl

item_strip :
    (x : Pos) (d : DirType) (c it : Container) (i r : ℕ)
    → same_dir d it.dir ≡ true
    → divides c ≡ true
    → 1 ≤ i
    → i ≤ c.count
    → r ≤ bit (strip d x c (suc i))
    → (i ≡ c.count → r ≡ 0)
    → bit (inside x (place c i it)) + r ≤ bit (strip d x c i)
item_strip x d c it zero r h v one l b z = absurd (omega arith)
item_strip x d c it (suc j) r h v one l b z =
    let q = share d c in
    let a = along d c.ofs + q * j in
    let j₁ : suc j - 1 ≡ j = omega arith in
    let j₂ : suc (suc j) - 1 ≡ suc j = omega arith in
    let m : along d c.ofs + q * suc j ≡ a + q = omega (arith, mul-suc q j) in
    let f : q * c.count + along d c.size % q ≤ along d c.size = share_fits d c v (omega arith) in
    let g : q * suc j ≤ q * c.count = mul-le-mul_left q l in
    let t = band (across d x) (across d c.ofs) (across d c.size) in
    rw (inside-place d x c it (suc j) h) (elim (Bool-cases (suc j == c.count)) [
      | inl e ↦
          let z' : r ≡ 0 = z (ground arith) in
          rw (e, z', j₁)
            (omega (
              arith,
              last_strip (along d x) a (q + along d c.size % q) (along d c.ofs) (along d c.size) t
                  (omega (arith, mul-suc q j)),
            ))
      | inr e ↦
          let b' : r
              ≤ bit (
                  leb (a + q) (along d x)
                  && ltb (along d x) (along d c.ofs + along d c.size)
                  && t) =
            rw (sym m) (rw (sym j₂) b) in
          rw (e, j₁)
            (omega (
              arith,
              b',
              cut_strip (along d x) a q (along d c.ofs) (along d c.size) t
                  (omega (arith, mul-suc q j)),
            ))
    ])

update_items-strip :
    (x : Pos) (d : DirType) (c : Container) (i : ℕ) (p q : Containers)
    → Uniform d p
    → Shape p
    → suc c.count ≡ i + n_items p
    → 1 ≤ i
    → divides c ≡ true
    → update_items c i p ≡ some q
    → covers x q ≤ bit (strip d x c i)
unfolding update_items covers place
update_items-strip x d c i empty empty u w n one v e = omega arith
update_items-strip x d c i empty (entry it p next) u w n one v e = absurd (ground arith)
update_items-strip x d c i (entry it p next) q u w n one v e =
    let s = update_items-Step c i it p next q e in
    let it' = place c i it in
    let below : tailq_empty s.inner ≡ false → covers x s.inner ≤ bit (inside x it') = λ h.
      let g : tailq_empty p ≡ false =
        ground (arith, tailq_empty-update_items it' 1 p s.inner s.inner_eq) in
      rw (sym (strip_inside x w.1.0 it')) (
        update_items-strip x w.1.0 it' 1 p s.inner w.1.1 w.2 (omega (arith, w.0)) (omega arith)
          (s.guard g) s.inner_eq) in
    let behind : covers x s.rest ≤ bit (strip d x c (suc i)) =
      update_items-strip x d c (suc i) next s.rest u.1 w.3 (omega arith) (omega arith) v
        s.rest_eq in
    let a : (if tailq_empty s.inner then bit (inside x it') else covers x s.inner)
        ≤ bit (inside x it') =
      leaves_bound x it' s.inner below in
    let b : bit (inside x it') + covers x s.rest ≤ bit (strip d x c i) =
      item_strip x d c it i (covers x s.rest) u.0 v one (omega arith) behind
        (λ k. n_items_zero c (suc i) next s.rest x (omega arith) s.rest_eq) in
    rw s.result (omega (arith, a, b))

-- layout_update of a container whose tree has the right counts, and in which the items of each queue,
-- its own and those of the containers below, have one direction, without a division by zero: a cell
-- of the screen is in at most one leaf, and in none when it is outside the container.
pub layout_update-covers :
    (x : Pos) (d : DirType) (c : Container) (p q : Containers)
    → Uniform d p
    → Shape p
    → c.count ≡ n_items p
    → layout_update c p ≡ some q
    → covers x q ≤ bit (inside x c)
unfolding layout_update
layout_update-covers x d c p q u w n e =
    let v : divides c ≡ true = ground arith in
    let e' : update_items c 1 p ≡ some q = ground arith in
    rw (sym (strip_inside x d c))
      (update_items-strip x d c 1 p q u w (omega arith) (omega arith) v e')
