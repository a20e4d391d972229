-- ===== src/Text/Search/Count.antt =====
-- util.c: what count_strstr returns, with enough fuel for the loop.
use fnav.Prelude.{
  ℕ, zero, suc, ◌+◌, ◌<◌, ◌≡◌, inl, inr, refl, Option, none, some, List, [], ◌∷◌, arith,
  if◌then◌else◌, length, Bool-cases,
}
use fnav.Text.Search.{starts_with, strstr, count_strstr}

-- The positions of the string at which `fnd` stands.
pub occurrences : List ℕ → List ℕ → ℕ
occurrences [] fnd = 0
occurrences (c ∷ s) fnd = (if starts_with (c ∷ s) fnd then 1 else 0) + occurrences s fnd

-- What the search of the next occurrence skips holds no occurrence.
record Found (s fnd : List ℕ) (c : ℕ) (r : List ℕ) : Type 0 where
  shorter : length r < length s
  counted : occurrences s fnd ≡ 1 + occurrences r fnd

strstr-none : (s fnd : List ℕ) → strstr s fnd ≡ none → occurrences s fnd ≡ 0
unfolding strstr occurrences
strstr-none [] fnd h = refl
strstr-none (c ∷ s) fnd h = elim (Bool-cases (starts_with (c ∷ s) fnd)) [
  | inl e ↦ absurd (ground arith)
  | inr e ↦ ground (arith, strstr-none s fnd)
]

strstr-nil : (s : List ℕ) (f : ℕ) (fnd : List ℕ) → strstr s (f ∷ fnd) ≡ some [] → ⊥
unfolding strstr starts_with
strstr-nil [] f fnd h = cc
strstr-nil (c ∷ s) f fnd h = elim (Bool-cases (starts_with (c ∷ s) (f ∷ fnd))) [
  | inl e ↦ ground arith
  | inr e ↦ ground (arith, strstr-nil s f fnd)
]

strstr-Found : (s fnd : List ℕ) (c : ℕ) (r : List ℕ) → strstr s fnd ≡ some (c ∷ r) → Found s fnd c r
unfolding strstr occurrences
strstr-Found [] fnd c r h = absurd (ground arith)
strstr-Found (d ∷ s) fnd c r h = elim (Bool-cases (starts_with (d ∷ s) fnd)) [
  | inl e ↦ ground arith
  | inr e ↦ ground (arith, strstr-Found s fnd c r)
]

-- For a text to find that is not empty, `count_strstr` never steps past the NUL, ends within one
-- round more than the string has bytes, and counts the positions at which the text stands, the
-- overlapping ones too.
count_strstr-occurrences :
    (fuel : ℕ) (s : List ℕ) (f : ℕ) (fnd : List ℕ)
    → length s < fuel
    → count_strstr fuel s (f ∷ fnd) ≡ some (occurrences s (f ∷ fnd))
unfolding count_strstr
count_strstr-occurrences zero s f fnd h = absurd (omega arith)
count_strstr-occurrences (suc fuel) s f fnd h =
    go (strstr s (f ∷ fnd)) refl (λ r. count_strstr-occurrences fuel r f fnd)
  where
    go :
        (o : Option (List ℕ))
        → strstr s (f ∷ fnd) ≡ o
        → ((r : List ℕ)
            → length r < fuel
            → count_strstr fuel r (f ∷ fnd) ≡ some (occurrences r (f ∷ fnd)))
        → count_strstr (suc fuel) s (f ∷ fnd) ≡ some (occurrences s (f ∷ fnd))
    go none e ih = ground (arith, strstr-none s (f ∷ fnd) e)
    go (some []) e ih = absurd (strstr-nil s f fnd e)
    go (some (c ∷ r)) e ih =
        let found = strstr-Found s (f ∷ fnd) c r e in ground (arith, found, ih r (omega arith))
