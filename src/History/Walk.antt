-- ===== src/History/Walk.antt =====
-- tui/history.c: walking a history by hist_prev and hist_next.
use fnav.Prelude.{
  ℕ, suc, ◌≤◌, ◌≡◌, refl, Option, none, some, List, [], ◌∷◌, arith, ◌==◌, Bool-cases, inl, inr,
}
use fnav.History.{Item, Hist, hist_prev, hist_next, find_prev, find_next, step_to}
use fnav.History.Order.{Span}
use fnav.History.Keeps.{IsHist}

-- The item behind the one that `find_prev` answers is the one that it was asked about.
next_of_prev :
    (lo hi id : ℕ) (y x : Item) (p : List Item)
    → Span lo hi (y ∷ p)
    → find_prev id (some y) p ≡ some (some x)
    → (z : Item) × (find_next x.id (y ∷ p) ≡ some (some z)) × (z.id ≡ id) × (y.id ≤ x.id)
next_of_prev lo hi id y x [] h e = absurd (ground arith)
next_of_prev lo hi id y x (w ∷ p) h e = elim (Bool-cases (w.id == id)) [
  | inl t ↦ (w, ground arith, ground arith, ground arith)
  | inr t ↦
      let (z, f, g, k) = next_of_prev (suc y.id) hi id w x p h.1 (rw t at e) in
      (z, ground (arith, f), g, omega (arith, h.1.0))
]

next_of_first_prev :
    (hi id : ℕ) (x : Item) (p : List Item)
    → Span 0 hi p
    → find_prev id none p ≡ some (some x)
    → (z : Item) × (find_next x.id p ≡ some (some z)) × (z.id ≡ id)
next_of_first_prev hi id x [] h e = absurd (ground arith)
next_of_first_prev hi id x (w ∷ p) h e = elim (Bool-cases (w.id == id)) [
  | inl t ↦ absurd (ground arith)
  | inr t ↦ let (z, f, g, k) = next_of_prev 0 hi id w x p h (rw t at e) in (z, f, g)
]

-- The item in front of the one that `find_next` answers is the one that it was asked about.
prev_of_next :
    (lo hi id : ℕ) (before : Option Item) (x : Item) (p : List Item)
    → Span lo hi p
    → find_next id p ≡ some (some x)
    → (z : Item) × (find_prev x.id before p ≡ some (some z)) × (z.id ≡ id) × (lo ≤ x.id)
prev_of_next lo hi id before x [] h e = absurd (ground arith)
prev_of_next lo hi id before x (y ∷ []) h e = elim (Bool-cases (y.id == id)) [
  | inl t ↦ absurd (ground arith)
  | inr t ↦ absurd (ground arith)
]
prev_of_next lo hi id before x (y ∷ w ∷ p) h e = elim (Bool-cases (y.id == id)) [
  | inl t ↦ (y, ground arith, ground arith, ground arith)
  | inr t ↦
      let (z, f, g, k) = prev_of_next (suc y.id) hi id (some y) x (w ∷ p) h.1 (rw t at e) in
      (z, ground (arith, f, k), g, omega (arith, h.0, k))
]

step_to-some :
    (h : Hist) (o : Option (Option Item)) (l : List ℕ) (h' : Hist)
    → step_to h o ≡ some (some l, h')
    → (x : Item) × (o ≡ some (some x)) × (h' ≡ record h { cur = some x.id }) × (l ≡ x.line)
step_to-some h none l h' e = absurd (ground arith)
step_to-some h (some none) l h' e = absurd (ground arith)
step_to-some h (some (some x)) l h' e = (x, refl, ground arith, ground arith)

module _ (next id : ℕ) (h h' : Hist) (l : List ℕ) (v : IsHist next h)
    (at_item : h.cur ≡ some id) where
  -- Where `hist_prev` moves to an older line, `hist_next` moves back: to the item that the history
  -- was at, and nothing else changes.
  pub next-prev :
      hist_prev h ≡ some (some l, h') → (back : List ℕ) × (hist_next h' ≡ some (some back, h))
  unfolding hist_prev hist_next
  next-prev e =
      let (x, o, e', _) = step_to-some h (find_prev id none h.p) l h' (ground (arith, at_item)) in
      let (z, f, g) = next_of_first_prev next id x h.p v.rising o in (z.line, ground arith)

  -- Where `hist_next` moves to a newer line, `hist_prev` moves back in the same way.
  pub prev-next :
      hist_next h ≡ some (some l, h') → (back : List ℕ) × (hist_prev h' ≡ some (some back, h))
  unfolding hist_prev hist_next
  prev-next e =
      let (x, o, e', _) = step_to-some h (find_next id h.p) l h' (ground (arith, at_item)) in
      let (z, f, g, _) = prev_of_next 0 next id none x h.p v.rising o in (z.line, ground arith)
