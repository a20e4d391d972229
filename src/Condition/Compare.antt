-- ===== src/Condition/Compare.antt =====
-- cmd.c: the comparison of strings, against the order of their bytes.
use fnav.Prelude.{
  ℕ, ◌<◌, ◌≡◌, ◌↔◌, ◌⊎◌, refl, sym, Bool, true, false, List, [], ◌∷◌, arith, ltb, ◌==◌,
  if◌then◌else◌, ℤ, pos, negsuc, inl, inr,
}
use fnav.Condition.{strcmp, cmd_str_comp}

-- The order of the dictionary.
abbrev pub Before : List ℕ → List ℕ → Type 0
Before s [] = ⊥
Before [] (d ∷ t) = Unit
Before (c ∷ s) (d ∷ t) = (c < d) ⊎ ((c ≡ d) × Before s t)

-- The three ways two strings can lie, with what strcmp answers.
pub data Order : List ℕ → List ℕ → ℤ → Type 0 where
  before : {s t : List ℕ} → Before s t → Order s t (negsuc 0)
  same : (s : List ℕ) → Order s s (pos 0)
  behind : {s t : List ℕ} → Before t s → Order s t (pos 1)

Order-later : (c : ℕ) (s t : List ℕ) (n : ℤ) → Order s t n → Order (c ∷ s) (c ∷ t) n
Order-later c s t n (before b) = before (inr (refl, b))
Order-later c s t n (same u) = same (c ∷ u)
Order-later c s t n (behind b) = behind (inr (refl, b))

strcmp-Order : (s t : List ℕ) → Order s t (strcmp s t)
unfolding strcmp
strcmp-Order [] [] = same []
strcmp-Order [] (d ∷ t) = before tt
strcmp-Order (c ∷ s) [] = behind tt
strcmp-Order (c ∷ s) (d ∷ t) = go (c == d) refl (ltb c d) refl (strcmp-Order s t)
  where
    go :
        (b : Bool)
        → (c == d) ≡ b
        → (b' : Bool) → ltb c d ≡ b'
        → Order s t (strcmp s t)
        → Order
            (c ∷ s)
            (d ∷ t)
            (elim b [ true ↦ strcmp s t | false ↦ if b' then negsuc 0 else pos 1 ])
    go true e b' f ih = let q : d ≡ c = ground arith in rw q (Order-later c s t (strcmp s t) ih)
    go false e true f ih = before (inl (ground arith))
    go false e false f ih = behind (inl (ground arith))

Before-asym : (s t : List ℕ) → Before s t → ¬ Before t s
Before-asym [] [] b d = b
Before-asym [] (e ∷ t) b d = d
Before-asym (c ∷ s) [] b d = b
Before-asym (c ∷ s) (e ∷ t) (inl h) (inl k) = omega arith
Before-asym (c ∷ s) (e ∷ t) (inl h) (inr k) = omega (arith, k.0)
Before-asym (c ∷ s) (e ∷ t) (inr h) (inl k) = omega (arith, h.0)
Before-asym (c ∷ s) (e ∷ t) (inr h) (inr k) = Before-asym s t h.1 k.1

Before-ne : (s t : List ℕ) → s ≡ t → ¬ Before s t
Before-ne s t e b = let b' : Before t t = rw e at b in Before-asym t t b' b'

-- On strings `<`, `>` and `==` answer 1 exactly where the first is before the second in the order of
-- the dictionary, behind it, and the same.
cmd_str_comp-Before :
    (s t : List ℕ) (ret : ℤ)
    → ((cmd_str_comp s t b'<' 0 ret ≡ pos 1) ↔ Before s t)
      × ((cmd_str_comp s t b'>' 0 ret ≡ pos 1) ↔ Before t s)
      × ((cmd_str_comp s t b'=' b'=' ret ≡ pos 1) ↔ (s ≡ t))
unfolding cmd_str_comp
cmd_str_comp-Before s t ret = go s t (strcmp s t) refl (strcmp-Order s t)
  where
    go :
        (s t : List ℕ) (n : ℤ)
        → strcmp s t ≡ n
        → Order s t n
        → ((cmd_str_comp s t b'<' 0 ret ≡ pos 1) ↔ Before s t)
          × ((cmd_str_comp s t b'>' 0 ret ≡ pos 1) ↔ Before t s)
          × ((cmd_str_comp s t b'=' b'=' ret ≡ pos 1) ↔ (s ≡ t))
    go s t n e (before b) = (
      (λ h. b, λ h. ground arith),
      (λ h. absurd (ground arith), λ h. absurd (Before-asym s t b h)),
      (λ h. absurd (ground arith), λ h. absurd (Before-ne s t h b)),
    )
    go s t n e (same u) = (
      (λ h. absurd (ground arith), λ h. absurd (Before-ne s s refl h)),
      (λ h. absurd (ground arith), λ h. absurd (Before-ne s s refl h)),
      (λ h. refl, λ h. ground arith),
    )
    go s t n e (behind b) = (
      (λ h. absurd (ground arith), λ h. absurd (Before-asym s t h b)),
      (λ h. b, λ h. ground arith),
      (λ h. absurd (ground arith), λ h. absurd (Before-ne t s (sym h) b)),
    )
