-- ===== src/Layout/Remove/Found.antt =====
-- tui/layout.c, layout_remove_buffer: what find_container and the search for the parent give.
use fnav.Prelude.{
  ℕ, ◌≤◌, ◌≡◌, ◌≢◌, refl, sym, ap, Bool, true, false, Option, none, some, leb, ◌==◌, arith,
  Bool-cases, inl, inr,
}
use fnav.Layout.{
  Container, Containers, empty, entry, tailq_empty, holds, holder_in, holder_of, shows,
}
use fnav.Layout.Ids.{total, leaf_total, leaf_le_total, shown}
use fnav.Layout.Remove.{next_or_prev, find_container}
use fnav.Layout.Remove.Parent.{LeafBuf, NextIn, total_of_holds}

-- A container with items that has `b` for its own buffer shows it in one of its leaves.
abbrev pub Backed : ℕ → Containers → Type 0
Backed b empty = Unit
Backed b (entry it p next) =
    (tailq_empty p ≡ false → shows b it.buf ≡ true → 1 ≤ shown b p) × Backed b p × Backed b next

LeafBuf-absent : (f : ℕ) (o : Option ℕ) (q : Containers) → total f q ≡ 0 → LeafBuf f o q
unfolding total
LeafBuf-absent f o empty h = tt
LeafBuf-absent f o (entry it p next) h = (
  λ e. absurd (ground arith),
  LeafBuf-absent f o p (ground arith),
  LeafBuf-absent f o next (ground arith),
)

NextIn-absent :
    (f : ℕ) (nx : Option (Container × Containers)) (q : Containers) → total f q ≡ 0 → NextIn f nx q
unfolding total
NextIn-absent f nx empty h = tt
NextIn-absent f nx (entry it p next) h = (
  λ e. absurd (ground (arith, total_of_holds f p e)),
  NextIn-absent f nx p (ground arith),
  NextIn-absent f nx next (ground arith),
)

shown-find_none :
    (b : ℕ) (q : Containers)
    → (1 ≤ shown b q → find_container b q ≢ none)
    → find_container b q ≡ none
    → shown b q ≡ 0
shown-find_none b q f e = elim (Bool-cases (leb 1 (shown b q))) [
  | inl h ↦ absurd (f (ground arith) e)
  | inr h ↦ ground arith
]

find_container-some : (b : ℕ) (q : Containers) → 1 ≤ shown b q → find_container b q ≢ none
unfolding shown find_container
find_container-some b empty h e = absurd (omega arith)
find_container-some b (entry it p next) h e =
    go (find_container b p) (find_container b next) (shows b it.buf) refl refl refl
      (find_container-some b p) (find_container-some b next)
  where
    go :
        (x y : Option Container) (k : Bool)
        → find_container b p ≡ x
        → find_container b next ≡ y
        → shows b it.buf ≡ k
        → (1 ≤ shown b p → find_container b p ≢ none)
        → (1 ≤ shown b next → find_container b next ≢ none)
        → ⊥
    go (some x) y k ex ey ek f g = absurd (ground arith)
    go none y true ex ey ek f g = absurd (ground arith)
    go none (some y) false ex ey ek f g = absurd (ground arith)
    go none none false ex ey ek f g =
        let a : shown b p ≡ 0 = shown-find_none b p f ex in
        let c : shown b next ≡ 0 = shown-find_none b next g ey in ground arith

backed_leaf :
    (b : ℕ) (it : Container) (p : Containers)
    → (tailq_empty p ≡ false → shows b it.buf ≡ true → 1 ≤ shown b p)
    → shows b it.buf ≡ true
    → find_container b p ≡ none
    → tailq_empty p ≡ true
backed_leaf b it p k e n = elim (Bool-cases (tailq_empty p)) [
  | inl h ↦ h
  | inr h ↦ absurd (find_container-some b p (k h e) n)
]

-- What find_container finds.
pub record IsFound (b : ℕ) (c : Container) (q : Containers) : Type 0 where
  pub buf : shows b c.buf ≡ true
  pub leaf : 1 ≤ leaf_total c.id q
  pub only : LeafBuf c.id c.buf q

pub find_container-IsFound :
    (b : ℕ) (c : Container) (q : Containers)
    → Backed b q
    → total c.id q ≤ 1
    → find_container b q ≡ some c
    → IsFound b c q
unfolding find_container total leaf_total
find_container-IsFound b c empty k t e = absurd (ground arith)
find_container-IsFound b c (entry it p next) k t e =
    go (find_container b p) (shows b it.buf) refl refl
      (λ h. find_container-IsFound b c p k.1 (ground arith) h)
      (λ h. find_container-IsFound b c next k.2 (ground arith) h)
  where
    go :
        (x : Option Container) (m : Bool)
        → find_container b p ≡ x
        → shows b it.buf ≡ m
        → (find_container b p ≡ some c → IsFound b c p)
        → (find_container b next ≡ some c → IsFound b c next)
        → IsFound b c (entry it p next)
    go (some x) m ex em f g =
        let i = f (ground arith) in
        let l = i.leaf in
        let z = leaf_le_total c.id p in
        record {
          buf = i.buf;
          leaf = omega (arith, l);
          only =
              (λ n. absurd (ground arith), i.only, LeafBuf-absent c.id c.buf next (ground arith));
        }
    go none true ex em f g =
        let i : it ≡ c = ground arith in
        let m : tailq_empty p ≡ true = backed_leaf b it p k.0 em ex in
        record {
          buf = rw (sym i) em;
          leaf = rw (m, i) (ground arith);
          only = (
            λ n. (m, rw i refl),
            LeafBuf-absent c.id c.buf p (ground arith),
            LeafBuf-absent c.id c.buf next (ground arith),
          );
        }
    go none false ex em f g =
        let i = g (ground arith) in
        let l = i.leaf in
        let z = leaf_le_total c.id next in
        record {
          buf = i.buf;
          leaf = omega (arith, l);
          only = (λ n. absurd (ground arith), LeafBuf-absent c.id c.buf p (ground arith), i.only);
        }

-- Where the queue itself holds `f`, no container of it does.
NextIn-root :
    (f : ℕ) (nx : Option (Container × Containers)) (q : Containers)
    → total f q ≤ 1
    → holds f q ≡ true
    → NextIn f nx q
unfolding total holds
NextIn-root f nx empty t h = tt
NextIn-root f nx (entry it p next) t h = elim (Bool-cases (it.id == f)) [
  | inl e ↦ NextIn-entry f nx it p next (ground arith) (NextIn-absent f nx next (ground arith))
  | inr e ↦
      let k : holds f next ≡ true = ground arith in
      let i = total_of_holds f next k in
      NextIn-entry f nx it p next (ground arith) (NextIn-root f nx next (ground arith) k)
]
  where
    NextIn-entry :
        (f : ℕ) (nx : Option (Container × Containers)) (it : Container) (p next : Containers)
        → total f p ≡ 0
        → NextIn f nx next
        → NextIn f nx (entry it p next)
    NextIn-entry f nx it p next z n =
        (λ e. absurd (ground (arith, total_of_holds f p e)), NextIn-absent f nx p z, n)

holder_in-none : (f : ℕ) (q : Containers) → holder_in f q ≡ none → holds f q ≡ false → total f q ≡ 0
unfolding holder_in holds total
holder_in-none f empty e h = refl
holder_in-none f (entry it p next) e h =
    go (holds f p) (holder_in f p) refl refl (holder_in-none f p) (holder_in-none f next)
  where
    go :
        (m : Bool) (x : Option (Container × Containers))
        → holds f p ≡ m
        → holder_in f p ≡ x
        → (holder_in f p ≡ none → holds f p ≡ false → total f p ≡ 0)
        → (holder_in f next ≡ none → holds f next ≡ false → total f next ≡ 0)
        → total f (entry it p next) ≡ 0
    go true x em ex a b = absurd (ground arith)
    go false (some x) em ex a b = absurd (ground arith)
    go false none em ex a b =
        let z = a ex em in
        let z' = b (ground arith) (ground arith) in
        let k : it.id == f ≡ false = ground arith in rw (z, z', k) refl

holder_in-some :
    (f : ℕ) (q : Containers) (x : Container × Containers) → holder_in f q ≡ some x → 1 ≤ total f q
unfolding holder_in total
holder_in-some f empty x e = absurd (ground arith)
holder_in-some f (entry it p next) x e =
    go (holds f p) (holder_in f p) refl refl (holder_in-some f p) (holder_in-some f next x)
  where
    go :
        (m : Bool) (y : Option (Container × Containers))
        → holds f p ≡ m
        → holder_in f p ≡ y
        → ((x : Container × Containers) → holder_in f p ≡ some x → 1 ≤ total f p)
        → (holder_in f next ≡ some x → 1 ≤ total f next)
        → 1 ≤ total f (entry it p next)
    go true y em ey a b = omega (arith, total_of_holds f p em)
    go false (some y) em ey a b = omega (arith, a y ey)
    go false none em ey a b = omega (arith, b (ground arith))

NextIn-inner :
    (f : ℕ) (hc : Container) (hp q : Containers)
    → total f q ≤ 1
    → holds f q ≡ false
    → holder_in f q ≡ some (hc, hp)
    → NextIn f (next_or_prev f none hp) q
unfolding total holds holder_in
NextIn-inner f hc hp empty t h e = tt
NextIn-inner f hc hp (entry it p next) t h e =
    go (holds f p) (holder_in f p) refl refl (NextIn-inner f hc hp p) (NextIn-inner f hc hp next)
  where
    go :
        (m : Bool) (y : Option (Container × Containers))
        → holds f p ≡ m
        → holder_in f p ≡ y
        → (total f p ≤ 1
            → holds f p ≡ false
            → holder_in f p ≡ some (hc, hp)
            → NextIn f (next_or_prev f none hp) p)
        → (total f next ≤ 1
            → holds f next ≡ false
            → holder_in f next ≡ some (hc, hp)
            → NextIn f (next_or_prev f none hp) next)
        → NextIn f (next_or_prev f none hp) (entry it p next)
    go true y em ey a b =
        let k : ◌≡◌ {A = Container × Containers} (it, p) (hc, hp) = ground arith in
        let i = total_of_holds f p em in
        (
          λ e. ap (λ (z : Container × Containers). next_or_prev f none z.1) (sym k),
          NextIn-root f (next_or_prev f none hp) p (ground arith) em,
          NextIn-absent f (next_or_prev f none hp) next (ground arith),
        )
    go false (some y) em ey a b =
        let i = holder_in-some f p y ey in
        (
          λ e. absurd (ground arith),
          a (ground arith) em (ground arith),
          NextIn-absent f (next_or_prev f none hp) next (ground arith),
        )
    go false none em ey a b =
        let z = holder_in-none f p ey em in
        (
          λ e. absurd (ground arith),
          NextIn-absent f (next_or_prev f none hp) p z,
          b (ground arith) (ground arith) (ground arith),
        )

pub holder_of-NextIn :
    (f : ℕ) (root hc : Container) (hp q : Containers)
    → total f q ≤ 1
    → holder_of f root q ≡ some (hc, hp)
    → NextIn f (next_or_prev f none hp) q
unfolding holder_of
holder_of-NextIn f root hc hp q t e = elim (Bool-cases (holds f q)) [
  | inl h ↦ NextIn-root f (next_or_prev f none hp) q t h
  | inr h ↦ NextIn-inner f hc hp q t h (ground arith)
]
