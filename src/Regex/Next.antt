-- ===== src/Regex/Next.antt =====
-- regex.c: where regex_next and regex_hover go.
use fnav.Prelude.{
  ℕ, suc, ◌≡◌, ◌≤◌, ◌<◌, ◌⊎◌, refl, ap, ◌∙◌, Bool, true, false, some, List, [], ◌∷◌, ◌++◌, ltb,
  length, get_elem?, get_elem?-middle, All, All-append, ltb→lt, ==_refl, arith, Bool-cases, inl,
  inr, snoc_append, Last, nothing, last, last_of,
}
use fnav.Regex.{nearest_next_match}
use fnav.Regex.Build.{IsAscending, is_match}
use fnav.Regex.Around.{
  all_before, at, around, IsForward, IsBackward, All-weaken, Answers, answers_at, place_at, at_next,
  after_next, after_last, earlier_match, answers_behind, answers_front, suffix, first_round,
  first_none, last_round,
}

-- From a match: the one behind it, and from the last the first.
answers_on :
    (line : ℕ) (pre post : List ℕ)
    → IsAscending (pre ++ line ∷ post)
    → All (λ k. k < line) pre
    → All (λ k. line < k) post
    → nearest_next_match (pre ++ line ∷ post) line ≡ some (length pre)
    → Answers (pre ++ line ∷ post) line true (IsForward line (pre ++ line ∷ post))
unfolding IsForward IsAscending
answers_on line pre (k ∷ post) asc b a n =
    answers_at (pre ++ line ∷ k ∷ post) line true _ (suc (length pre)) k
      (place_at _ line true (length pre) line n (get_elem?-middle pre line (k ∷ post))
        ∙ rw (==_refl line, after_next pre line k post) refl)
      (at_next pre line k post)
      (inl (
        a.0,
        All-append (λ j. (j ≤ line) ⊎ (k ≤ j)) pre (line ∷ k ∷ post)
            (All-weaken (λ j. j < line) _ (λ j h. inl (omega arith)) pre b)
            (
              inl (omega arith),
              (
                inr (omega arith),
                All-weaken (λ j. k < j) _ (λ j h. inr (omega arith)) post
                    (suffix pre (line ∷ k ∷ post) asc).1.0,
              ),
            ),
      ))
answers_on line [] [] asc b a n =
    answers_at (line ∷ []) line true _ 0 line
      (place_at _ line true 0 line n refl
        ∙ rw (==_refl line, after_last [] line, first_round line []) refl)
      refl (inr ((omega arith, tt), (omega arith, tt)))
answers_on line (p ∷ pre) [] asc b a n =
    answers_at (p ∷ pre ++ line ∷ []) line true _ 0 p
      (place_at _ line true (suc (length pre)) line n (get_elem?-middle (p ∷ pre) line [])
        ∙ rw (==_refl line, after_last (p ∷ pre) line, first_round p (pre ++ line ∷ [])) refl)
      refl
      (inr (
        All-append (λ k. k ≤ line) (p ∷ pre) (line ∷ [])
            (All-weaken (λ k. k < line) _ (λ k h. omega arith) (p ∷ pre) b) (omega arith, tt),
        (omega arith, All-weaken (λ k. p < k) _ (λ k h. omega arith) (pre ++ line ∷ []) asc.0),
      ))

below :
    (pre : List ℕ) (k : ℕ) (rest : List ℕ) → IsAscending (pre ++ k ∷ rest) → All (λ j. j < k) pre
unfolding IsAscending
below [] k rest h = tt
below (p ∷ pre) k rest h = (at_middle pre h.0, below pre k rest h.1)
  where
    at_middle : (xs : List ℕ) → All (λ j. p < j) (xs ++ k ∷ rest) → p < k
    at_middle [] a = a.0
    at_middle (x ∷ xs) a = at_middle xs a.1

-- The last match is the greatest.
greatest :
    (m : ℕ) (ms : List ℕ)
    → IsAscending (m ∷ ms)
    → (q : List ℕ) × (k : ℕ) × (m ∷ ms ≡ q ++ (k ∷ [])) × All (λ j. j ≤ k) (m ∷ ms)
unfolding IsAscending
greatest m [] h = ([], m, refl, (omega arith, tt))
greatest m (n ∷ ms) h =
    let (q, k, e, a) = greatest n ms h.1 in (m ∷ q, k, ap (m ∷◌) e, (omega (arith, a.0, h.0.0), a))

at_snoc :
    (pre : List ℕ) (k : ℕ) (rest : List ℕ)
    → get_elem? ((pre ++ (k ∷ [])) ++ rest) (length pre) ≡ some k
at_snoc pre k rest = rw (snoc_append pre k rest) (get_elem?-middle pre k rest)

-- From a match: the one in front of it, and from the first the last.
answers_back :
    (line : ℕ) (pre post : List ℕ)
    → Last pre
    → IsAscending (pre ++ line ∷ post)
    → All (λ k. k < line) pre
    → All (λ k. line < k) post
    → nearest_next_match (pre ++ line ∷ post) line ≡ some (length pre)
    → Answers (pre ++ line ∷ post) line false (IsBackward line (pre ++ line ∷ post))
unfolding IsBackward IsAscending
answers_back line _ post (last pre k) asc b a n =
    let ms = (pre ++ (k ∷ [])) ++ line ∷ post in
    let asc' : IsAscending (pre ++ k ∷ line ∷ post) = rw (← snoc_append pre k (line ∷ post)) asc in
    answers_at ms line false _ (length pre) k
      (place_at ms line false (length (pre ++ (k ∷ []))) line n
          (get_elem?-middle (pre ++ (k ∷ [])) line post)
        ∙ rw (==_refl line, earlier_match ms pre k) refl)
      (at_snoc pre k (line ∷ post))
      (inl (
        (suffix pre (k ∷ line ∷ post) asc').0.0,
        All-append (λ j. (j ≤ k) ⊎ (line ≤ j)) (pre ++ (k ∷ [])) (line ∷ post)
            (All-append (λ j. (j ≤ k) ⊎ (line ≤ j)) pre (k ∷ [])
              (All-weaken (λ j. j < k) _ (λ j h. inl (omega arith)) pre
                (below pre k (line ∷ post) asc'))
              (inl (omega arith), tt))
            (inr (omega arith), All-weaken (λ j. line < j) _ (λ j h. inr (omega arith)) post a),
      ))
answers_back line _ post nothing asc b a n =
    let (q, k, e, g) = greatest line post asc in
    answers_at (line ∷ post) line false _ (length q) k
      (place_at (line ∷ post) line false 0 line n refl
        ∙ rw (==_refl line, first_none line post, e) (last_round q k))
      (rw e (get_elem?-middle q k []))
      (inr ((omega arith, All-weaken (λ j. line < j) _ (λ j h. omega arith) post a), g))

holds_none : (line : ℕ) (ms : List ℕ) → All (λ k. k < line) ms → is_match line ms ≡ false
unfolding is_match
holds_none line [] h = refl
holds_none line (m ∷ ms) h = ground (arith, holds_none line ms h.1)

holds_middle : (line : ℕ) (pre post : List ℕ) → is_match line (pre ++ line ∷ post) ≡ true
unfolding is_match
holds_middle line [] post = ground arith
holds_middle line (p ∷ pre) post = ground (arith, holds_middle line pre post)

holds_behind :
    (line : ℕ) (pre : List ℕ) (m : ℕ) (post : List ℕ)
    → All (λ k. k < line) pre
    → line < m
    → All (λ k. m < k) post
    → is_match line (pre ++ m ∷ post) ≡ false
unfolding is_match
holds_behind line [] m post b l a = ground (arith, holds_above post a)
  where
    holds_above : (xs : List ℕ) → All (λ k. m < k) xs → is_match line xs ≡ false
    holds_above [] h = refl
    holds_above (x ∷ xs) h = ground (arith, holds_above xs h.1)
holds_behind line (p ∷ pre) m post b l a = ground (arith, holds_behind line pre m post b.1 l a)

-- The same at a list that is equal to its parts.
module _ (line : ℕ) (ms pre : List ℕ) (k : ℕ) (post : List ℕ) (e : ms ≡ pre ++ k ∷ post) where
  go_behind :
      (forward : Bool)
      → All (λ j. j < line) pre
      → line < k
      → All (λ j. k < j) post
      → nearest_next_match ms line ≡ some (length pre)
      → Answers ms line forward (IsForward line ms)
  go_behind forward b l a n = rw e (answers_behind line forward pre k post b l a (rw (← e) n))

  module _ (q : k ≡ line) (asc : IsAscending ms) where
    parts : ms ≡ pre ++ line ∷ post
    parts = e ∙ ap (λ x. pre ++ x ∷ post) q

    go_on :
        All (λ j. j < line) pre
        → All (λ j. k < j) post
        → nearest_next_match ms line ≡ some (length pre)
        → Answers ms line true (IsForward line ms)
    go_on b a n = rw parts (
        answers_on line pre post (rw (← parts) asc) b
          (All-weaken (λ j. k < j) _ (λ j h. omega (arith, q)) post a) (rw (← parts) n))

    go_back :
        All (λ j. j < line) pre
        → All (λ j. k < j) post
        → nearest_next_match ms line ≡ some (length pre)
        → Answers ms line false (IsBackward line ms)
    go_back b a n = rw parts (
        answers_back line pre post (last_of pre) (rw (← parts) asc) b
          (All-weaken (λ j. k < j) _ (λ j h. omega (arith, q)) post a) (rw (← parts) n))

  on_match :
      All (λ j. j < line) pre
      → line ≤ k
      → All (λ j. k < j) post
      → is_match line ms ≡ true
      → k ≡ line
  on_match b l a h = elim (Bool-cases (ltb line k)) [
    | inl lt ↦
        let off : is_match line ms ≡ false =
          rw e (holds_behind line pre k post b (ltb→lt line k lt) a) in
        cc
    | inr ge ↦ ground arith
  ]

-- On matches that rise, at least one: regex_next forward, or from a line that is no match in either
-- direction, answers the place of the least match behind the line, or of the first match where there
-- is none behind it, and goes there.
pub regex_next-IsForward :
    (m : ℕ) (ms : List ℕ) (line : ℕ) (forward : Bool)
    → IsAscending (m ∷ ms)
    → (forward ≡ true) ⊎ (is_match line (m ∷ ms) ≡ false)
    → Answers (m ∷ ms) line forward (IsForward line (m ∷ ms))
regex_next-IsForward m ms line forward asc d = elim (around line (m ∷ ms) asc) [
  | all_before b n ↦ answers_front line forward m ms asc b n
  | at pre k post e b l a n ↦ elim (Bool-cases (ltb line k)) [
    | inl lt ↦ go_behind line (m ∷ ms) pre k post e forward b (ltb→lt line k lt) a n
    | inr ge ↦
        let q : k ≡ line = ground arith in
        elim d [
          | inl f ↦ rw f (go_on line (m ∷ ms) pre k post e q asc b a n)
          | inr off ↦
              let on : is_match line (m ∷ ms) ≡ true =
                rw (parts line (m ∷ ms) pre k post e q asc) (holds_middle line pre post) in
              cc
        ]
  ]
]

-- On matches that rise, from one of them: regex_next backward answers the place of the greatest match
-- in front of it, or of the last match where it is the first, and goes there.
pub regex_next-IsBackward :
    (ms : List ℕ) (line : ℕ)
    → IsAscending ms
    → is_match line ms ≡ true
    → Answers ms line false (IsBackward line ms)
regex_next-IsBackward ms line asc h = elim (around line ms asc) [
  | all_before b n ↦ cc (holds_none line ms b)
  | at pre k post e b l a n ↦
      go_back line ms pre k post e (on_match line ms pre k post e b l a h) asc b a n
]
