-- ===== src/History/Order.antt =====
-- tui/history.c: lists of items whose identities rise, as the TAILQ of a history.
use fnav.Prelude.{ℕ, suc, ◌+◌, ◌-◌, ◌≤◌, ◌≡◌, refl, ap, List, [], ◌∷◌, ◌++◌, arith, length}
use fnav.History.{Item, last, drop_first, drop_last, before_last, set_last, lines_of}

-- The identities rise, from `lo` on and below `hi`.
abbrev pub Span : ℕ → ℕ → List Item → Type 0
Span lo hi [] = lo ≤ hi
Span lo hi (x ∷ xs) = (lo ≤ x.id) × Span (suc x.id) hi xs

pub Span-le : (lo hi : ℕ) (p : List Item) → Span lo hi p → lo ≤ hi
Span-le lo hi [] h = h
Span-le lo hi (x ∷ xs) h = let r = Span-le (suc x.id) hi xs h.1 in omega arith

pub Span-lower : (lo lo' hi : ℕ) (p : List Item) → lo' ≤ lo → Span lo hi p → Span lo' hi p
Span-lower lo lo' hi [] k h = omega arith
Span-lower lo lo' hi (x ∷ xs) k h = (omega arith, h.1)

pub Span-raise : (lo hi : ℕ) (p : List Item) → Span lo hi p → Span lo (suc hi) p
Span-raise lo hi [] h = omega arith
Span-raise lo hi (x ∷ xs) h = (h.0, Span-raise (suc x.id) hi xs h.1)

pub Span-snoc :
    (lo hi : ℕ) (p : List Item) (x : Item)
    → x.id ≡ hi
    → Span lo hi p
    → Span lo (suc hi) (p ++ (x ∷ []))
Span-snoc lo hi [] x e h = omega arith
Span-snoc lo hi (y ∷ ys) x e h = (h.0, Span-snoc (suc y.id) hi ys x e h.1)

pub Span-drop_first : (lo hi : ℕ) (p : List Item) → Span lo hi p → Span lo hi (drop_first p)
Span-drop_first lo hi [] h = h
Span-drop_first lo hi (x ∷ xs) h = Span-lower (suc x.id) lo hi xs (omega arith) h.1

pub Span-drop_last : (lo hi : ℕ) (p : List Item) → Span lo hi p → Span lo hi (drop_last p)
Span-drop_last lo hi [] h = h
Span-drop_last lo hi (x ∷ []) h = omega arith
Span-drop_last lo hi (x ∷ y ∷ xs) h = (h.0, Span-drop_last (suc x.id) hi (y ∷ xs) h.1)

pub Span-set_last :
    (lo hi : ℕ) (p : List Item) (line : List ℕ) → Span lo hi p → Span lo hi (set_last p line)
Span-set_last lo hi [] line h = h
Span-set_last lo hi (x ∷ []) line h = h
Span-set_last lo hi (x ∷ y ∷ xs) line h = (h.0, Span-set_last (suc x.id) hi (y ∷ xs) line h.1)

pub length-drop_last :
    (x : Item) (xs : List Item) → length (drop_last (x ∷ xs)) + 1 ≡ length (x ∷ xs)
length-drop_last x [] = omega arith
length-drop_last x (y ∷ xs) = omega (arith, length-drop_last y xs)

pub length-set_last : (p : List Item) (line : List ℕ) → length (set_last p line) ≡ length p
length-set_last [] line = refl
length-set_last (x ∷ []) line = refl
length-set_last (x ∷ y ∷ xs) line = ap suc (length-set_last (y ∷ xs) line)

module _ (x : Item) where
  pub drop_last-snoc : (p : List Item) → drop_last (p ++ (x ∷ [])) ≡ p
  drop_last-snoc [] = refl
  drop_last-snoc (y ∷ []) = refl
  drop_last-snoc (y ∷ z ∷ p) = ap (λ r. y ∷ r) (drop_last-snoc (z ∷ p))

  pub before_last-snoc : (p : List Item) → before_last (p ++ (x ∷ [])) ≡ last p
  before_last-snoc [] = refl
  before_last-snoc (y ∷ []) = refl
  before_last-snoc (y ∷ z ∷ []) = refl
  before_last-snoc (y ∷ z ∷ w ∷ p) = before_last-snoc (z ∷ w ∷ p)

  pub set_last-snoc :
      (p : List Item) (line : List ℕ)
      → set_last (p ++ (x ∷ [])) line ≡ p ++ (record x { line = line } ∷ [])
  set_last-snoc [] line = refl
  set_last-snoc (y ∷ []) line = refl
  set_last-snoc (y ∷ z ∷ p) line = ap (λ r. y ∷ r) (set_last-snoc (z ∷ p) line)

  pub lines_of-snoc : (p : List Item) → lines_of (p ++ (x ∷ [])) ≡ lines_of p ++ (x.line ∷ [])
  lines_of-snoc [] = refl
  lines_of-snoc (y ∷ p) = ap (λ r. y.line ∷ r) (lines_of-snoc p)

pub length-drop_first : (p : List Item) → length (drop_first p) ≡ length p - 1
length-drop_first [] = omega arith
length-drop_first (x ∷ p) = omega arith
