-- ===== src/Regex/Build.antt =====
-- regex.c: which lines regex_build takes.
use fnav.Prelude.{
  ℕ, zero, suc, ◌+◌, ◌≡◌, ◌<◌, refl, ap, ◌∙◌, Bool, false, ◌||◌, Option, none, some, List, [], ◌∷◌,
  sym, ◌↔◌, ◌==◌, ==_iff, true, get_elem?, All, ℤ, pos, negsuc, ltb_ℤ, ◌<ℤ◌, arith, Bool-cases,
  Option-cases, inl, inr,
}
use fnav.Regex.{Comp, LineMatch, has_end, takes_line, build_from, regex_build, nsubexp_pairs}

-- The indices rise.
unfoldable pub IsAscending : List ℕ → Type 0
IsAscending [] = Unit
IsAscending (m ∷ ms) = All (λ k. m < k) ms × IsAscending ms

unfoldable pub is_match : ℕ → List ℕ → Bool
is_match i [] = false
is_match i (m ∷ ms) = (i == m) || is_match i ms

module _ (exec : List ℕ → List ℕ → ℤ × (ℕ → ℤ)) (text : List ℕ) where
  -- Whether the line `i` is there and matches.
  matches_at : List (List ℕ) → ℕ → Bool
  matches_at subjects i = elim (get_elem? subjects i) [
    | none ↦ false
    | some s ↦ takes_line (exec text s)
  ]

  build_from-above :
      (i : ℕ) (subjects : List (List ℕ)) (k : ℕ)
      → k < i
      → All (λ m. k < m) (build_from exec text i subjects)
  unfolding build_from
  build_from-above i [] k h = tt
  build_from-above i (s ∷ rest) k h = elim (Bool-cases (takes_line (exec text s))) [
    | inl e ↦ rw e (h, build_from-above (suc i) rest k (omega arith))
    | inr e ↦ rw e (build_from-above (suc i) rest k (omega arith))
  ]

  build_from-IsAscending :
      (i : ℕ) (subjects : List (List ℕ)) → IsAscending (build_from exec text i subjects)
  unfolding build_from IsAscending
  build_from-IsAscending i [] = tt
  build_from-IsAscending i (s ∷ rest) = elim (Bool-cases (takes_line (exec text s))) [
    | inl e ↦
        rw e (build_from-above (suc i) rest i (omega arith), build_from-IsAscending (suc i) rest)
    | inr e ↦ rw e (build_from-IsAscending (suc i) rest)
  ]

  holds_above :
      (k i : ℕ) (subjects : List (List ℕ))
      → k < i
      → is_match k (build_from exec text i subjects) ≡ false
  unfolding build_from is_match
  holds_above k i [] h = refl
  holds_above k i (s ∷ rest) h = ground (arith, holds_above k (suc i) rest)

  holds_at :
      (j i : ℕ) (subjects : List (List ℕ))
      → is_match (j + i) (build_from exec text i subjects) ≡ matches_at subjects j
  unfolding build_from is_match matches_at
  holds_at j i [] = refl
  holds_at zero i (s ∷ rest) = ground (arith, holds_above i (suc i) rest)
  holds_at (suc j) i (s ∷ rest) = ground (arith, holds_at j (suc i) rest)

-- The substrings that pcre_exec reports by its answer: their number, or 0 where they are more than the
-- vector has place for, which is one.
pub Reported : ℤ → ℕ → Type 0
Reported (pos zero) j = j ≡ 0
Reported (pos (suc n)) j = j < suc n
Reported (negsuc n) j = ⊥

-- One of the reported substrings does not end at the start of the line.
pub FindsText : ℤ × (ℕ → ℤ) → Type 0
FindsText r = (j : ℕ) × Reported r.0 j × (pos 0 <ℤ r.1 j)

has_end-found :
    (n : ℕ) (ends : ℕ → ℤ) → has_end n ends ≡ true → (j : ℕ) × (j < n) × (pos 0 <ℤ ends j)
unfolding has_end
has_end-found zero ends h = absurd (ground arith)
has_end-found (suc n) ends h = elim (Bool-cases (ltb_ℤ (pos 0) (ends n))) [
  | inl e ↦ (n, omega arith, ground arith)
  | inr e ↦ let (j, l, k) = has_end-found n ends (ground arith) in (j, omega arith, k)
]

or_left : (a b : Bool) → a ≡ true → (a || b) ≡ true
or_left a b e = rw e refl

or_right : (a b : Bool) → b ≡ true → (a || b) ≡ true
or_right true b e = refl
or_right false b e = e

found-has_end : (n j : ℕ) (ends : ℕ → ℤ) → j < n → pos 0 <ℤ ends j → has_end n ends ≡ true
unfolding has_end
found-has_end zero j ends l k = absurd (omega arith)
found-has_end (suc n) j ends l k = elim (Bool-cases (j == n)) [
  | inl e ↦
      let p : ends j ≡ ends n = ap ends ((==_iff j n).0 e) in
      let q : ltb_ℤ (pos 0) (ends j) ≡ true = ground arith in
      or_right (has_end n ends) (ltb_ℤ (pos 0) (ends n)) (sym (ap (ltb_ℤ (pos 0)) p) ∙ q)
  | inr e ↦
      or_left (has_end n ends) (ltb_ℤ (pos 0) (ends n)) (found-has_end n j ends (ground arith) k)
]

takes_line_iff : (r : ℤ × (ℕ → ℤ)) → (takes_line r ≡ true) ↔ FindsText r
unfolding takes_line FindsText Reported
takes_line_iff (pos zero, ends) = (
  λ e. let (j, l, k) = has_end-found nsubexp_pairs ends e in (j, omega arith, k),
  λ (j, l, k). found-has_end nsubexp_pairs j ends (omega arith) k,
)
takes_line_iff (pos (suc n), ends) = (
  λ e. let (j, l, k) = has_end-found (suc n) ends e in (j, l, k),
  λ (j, l, k). found-has_end (suc n) j ends l k,
)
takes_line_iff (negsuc n, ends) = (λ e. absurd (ground arith), λ (j, l, k). elim l [ ])

matches_at_iff :
    (exec : List ℕ → List ℕ → ℤ × (ℕ → ℤ)) (text : List ℕ) (subjects : List (List ℕ)) (i : ℕ)
    → (matches_at exec text subjects i ≡ true)
      ↔ ((s : List ℕ) × (get_elem? subjects i ≡ some s) × FindsText (exec text s))
unfolding matches_at
matches_at_iff exec text subjects i = elim (Option-cases (get_elem? subjects i)) [
  | inl e ↦ (λ h. absurd (ground arith), λ w. absurd (ground arith))
  | inr (s, e) ↦ (
    λ h. (s, e, (takes_line_iff (exec text s)).0 (ground arith)),
    λ (s', e', f).
        let p : s' ≡ s = same s s' e e' in
        let t : takes_line (exec text s) ≡ true =
          ap (λ x. takes_line (exec text x)) (sym p) ∙ (takes_line_iff (exec text s')).1 f in
        ground arith,
  )
]
  where
    same : (s s' : List ℕ) → get_elem? subjects i ≡ some s → get_elem? subjects i ≡ some s' → s' ≡ s
    same s s' e e' = let q : some s' ≡ some s = sym e' ∙ e in cc

-- Of a pattern, the matches that regex_build stores rise, and hold a line exactly when it is there
-- and one of the substrings that pcre_exec reports of it does not end at its start.
pub regex_build-matches :
    (exec : List ℕ → List ℕ → ℤ × (ℕ → ℤ)) (subjects : List (List ℕ)) (line : Comp)
    (g : Option Comp) (lm : LineMatch)
    → (ms : List ℕ) × (regex_build exec subjects (some line) (g, lm)
        ≡ (some line, record lm { gcomp = some line; lines = some ms }))
      × IsAscending ms
      × ((i : ℕ)
          → (is_match i ms ≡ true)
            ↔ ((s : List ℕ) × (get_elem? subjects i ≡ some s) × FindsText (exec line.text s)))
unfolding regex_build
regex_build-matches exec subjects line g lm =
    let ms = build_from exec line.text 0 subjects in
    (
      ms,
      refl,
      build_from-IsAscending exec line.text 0 subjects,
      λ i.
          let e : i ≡ i + 0 = omega arith in
          let m = ap (λ x. is_match x ms) e ∙ holds_at exec line.text i 0 subjects in
          let w = matches_at_iff exec line.text subjects i in
          (λ h. w.0 (sym m ∙ h), λ h. m ∙ w.1 h),
    )
