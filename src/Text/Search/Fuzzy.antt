-- ===== src/Text/Search/Fuzzy.antt =====
-- util.c: what fuzzy_match decides.
use fnav.Prelude.{
  ℕ, ◌≤◌, ◌≡◌, ◌↔◌, ◌⊎◌, inl, inr, refl, ◌∙◌, true, false, ◌||◌, Option, none, some, List, [], ◌∷◌,
  arith, ◌==◌, length, Bool-cases, Option-cases,
}
use fnav.Text.Search.{toupper_asc, tolower_asc, strchr, pick, fuzzy_from, fuzzy_match}

-- `d` is the letter `c` in one case or the other (or the byte itself, if it is no letter).
abbrev pub SameLetter : ℕ → ℕ → Type 0
SameLetter c d = (d ≡ tolower_asc c) ⊎ (d ≡ toupper_asc c)

-- The bytes of the pattern occur in the string in order, where one byte of the string may serve for
-- several bytes of the pattern that follow one another.
pub data Fuzzy : List ℕ → List ℕ → Type 0 where
  done : (s : List ℕ) → Fuzzy s []
  here : {c d : ℕ} {s a : List ℕ} → SameLetter c d → Fuzzy (d ∷ s) a → Fuzzy (d ∷ s) (c ∷ a)
  skip : {d : ℕ} {s a : List ℕ} → Fuzzy s a → Fuzzy (d ∷ s) a

-- The first suffix that begins with `lo` or `hi`.
nearest : List ℕ → ℕ → ℕ → Option (List ℕ)
nearest [] lo hi = none
nearest (d ∷ s) lo hi = elim (d == lo || d == hi) [ true ↦ some (d ∷ s) | false ↦ nearest s lo hi ]

length-strchr : (s : List ℕ) (c : ℕ) (r : List ℕ) → strchr s c ≡ some r → length r ≤ length s
unfolding strchr
length-strchr [] c r h = absurd (cc)
length-strchr (d ∷ s) c r h = elim (Bool-cases (d == c)) [
  | inl e ↦ ground (arith)
  | inr e ↦ ground (arith, length-strchr s c r)
]

pick-nearest : (s : List ℕ) (lo hi : ℕ) → pick true (strchr s lo) (strchr s hi) ≡ nearest s lo hi
unfolding pick strchr nearest
pick-nearest [] lo hi = refl
pick-nearest (d ∷ s) lo hi = elim (Option-cases (strchr s lo)) [
  | inl nl ↦ elim (Option-cases (strchr s hi)) [
    | inl nh ↦ ground (arith, pick-nearest s lo hi)
    | inr (h, eh) ↦ ground (arith, pick-nearest s lo hi, length-strchr s hi h)
  ]
  | inr (l, el) ↦ elim (Option-cases (strchr s hi)) [
    | inl nh ↦ ground (arith, pick-nearest s lo hi, length-strchr s lo l)
    | inr (h, eh) ↦ ground (arith, pick-nearest s lo hi, length-strchr s lo l, length-strchr s hi h)
  ]
]

-- What `nearest` finds begins with the letter, and what the rest matches, the string matches.
nearest_sound :
    (s : List ℕ) (c : ℕ) (r a : List ℕ)
    → nearest s (tolower_asc c) (toupper_asc c) ≡ some r
    → Fuzzy r a
    → Fuzzy s (c ∷ a)
unfolding nearest
nearest_sound [] c r a h f = absurd (cc)
nearest_sound (d ∷ s) c r a h f = elim (Bool-cases (d == tolower_asc c || d == toupper_asc c)) [
  | inl e ↦
      let same : SameLetter c d = ground arith in
      let eq : r ≡ d ∷ s = ground arith in here same (rw eq at f)
  | inr e ↦ skip (nearest_sound s c r a (rw (e, nearest) at h) f)
]

nearest_complete :
    (c : ℕ) (s a : List ℕ)
    → Fuzzy s (c ∷ a)
    → (r : List ℕ) × (nearest s (tolower_asc c) (toupper_asc c) ≡ some r)
      × Fuzzy r a
      × (Fuzzy r a → Fuzzy s a)
unfolding nearest
nearest_complete c [] a f = elim f [ ]
nearest_complete c (d ∷ s) a (here same f) = (d ∷ s, ground arith, f, λ g. g)
nearest_complete c (d ∷ s) a (skip f) =
    let (r, e, g, up) = nearest_complete c s a f in
    elim (Bool-cases (d == tolower_asc c || d == toupper_asc c)) [
      | inl t ↦ (d ∷ s, rw (t, nearest) refl, skip (up g), λ x. x)
      | inr t ↦ (r, rw (t, nearest) e, g, λ x. skip (up x))
    ]

fuzzy_sound : (s a : List ℕ) → fuzzy_from true s a ≡ true → Fuzzy s a
unfolding fuzzy_from
fuzzy_sound s [] h = done s
fuzzy_sound s (c ∷ a) h =
    elim (Option-cases (pick true (strchr s (tolower_asc c)) (strchr s (toupper_asc c)))) [
      | inl n ↦ absurd (ground arith)
      | inr (r, e) ↦
          nearest_sound s c r a (rw (pick-nearest s (tolower_asc c) (toupper_asc c)) at e)
            (fuzzy_sound r a (rw (e, fuzzy_from) at h))
    ]

fuzzy_complete : (s a : List ℕ) → Fuzzy s a → fuzzy_from true s a ≡ true
unfolding fuzzy_from
fuzzy_complete s [] f = refl
fuzzy_complete s (c ∷ a) f =
    let (r, e, g, up) = nearest_complete c s a f in
    let e' = pick-nearest s (tolower_asc c) (toupper_asc c) ∙ e in
    rw (e', fuzzy_from) (fuzzy_complete r a g)

-- Where a null pointer lies below the string, `fuzzy_match` answers true exactly when the bytes of
-- the pattern occur in the string in order, letters in either case, and one byte of the string may
-- stand for several bytes of the pattern that follow one another.
pub fuzzy_match-Fuzzy : (s accept : List ℕ) → (fuzzy_match true s accept ≡ true) ↔ Fuzzy s accept
unfolding fuzzy_match
fuzzy_match-Fuzzy s accept = (fuzzy_sound s accept, fuzzy_complete s accept)
