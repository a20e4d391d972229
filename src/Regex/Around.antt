-- ===== src/Regex/Around.antt =====
-- regex.c: the matches around a line, and what regex_next answers at them.
use fnav.Prelude.{
  ℕ, suc, ◌≡◌, ◌≤◌, ◌<◌, ◌⊎◌, refl, ap, ◌∙◌, Bool, ◌||◌, none, some, List, [], ◌∷◌, ◌++◌, ltb, ◌==◌,
  if◌then◌else◌, length, get_elem?, get_elem?-middle, All, All-append, length-append, arith,
  Bool-cases, inl, inr, snoc_length,
}
use fnav.Regex.{nearest_next_match, next_place, regex_next, after, last_before, or_round}
use fnav.Regex.Build.{IsAscending}

-- The matches around a line: those in front of it, and those from it on.
pub data Around (line : ℕ) (ms : List ℕ) : Type 0 where
  all_before : All (λ k. k < line) ms → nearest_next_match ms line ≡ none → Around line ms
  at :
      (pre : List ℕ) (m : ℕ) (post : List ℕ)
      → ms ≡ pre ++ m ∷ post
      → All (λ k. k < line) pre
      → line ≤ m
      → All (λ k. m < k) post
      → nearest_next_match ms line ≡ some (length pre)
      → Around line ms

pub around : (line : ℕ) (ms : List ℕ) → IsAscending ms → Around line ms
unfolding IsAscending nearest_next_match
around line [] h = all_before tt refl
around line (m ∷ ms) h = elim (Bool-cases ((m == line) || ltb line m)) [
  | inl e ↦ at [] m ms refl tt (ground arith) h.0 (rw e refl)
  | inr e ↦ elim (around line ms h.1) [
    | all_before b n ↦ all_before (ground arith, b) (rw (e, n) refl)
    | at pre k post p b l a n ↦
        at (m ∷ pre) k post (ap (m ∷◌) p) (ground arith, b) l a (rw (e, n) refl)
  ]
]

-- The least match behind the line, or the first of all where there is none.
unfoldable pub IsForward : ℕ → List ℕ → ℕ → Type 0
IsForward line ms to =
    ((line < to) × All (λ k. (k ≤ line) ⊎ (to ≤ k)) ms)
    ⊎ (All (λ k. k ≤ line) ms × All (λ k. to ≤ k) ms)

-- The greatest match in front of the line, or the last of all where there is none.
unfoldable pub IsBackward : ℕ → List ℕ → ℕ → Type 0
IsBackward line ms to =
    ((to < line) × All (λ k. (k ≤ to) ⊎ (line ≤ k)) ms)
    ⊎ (All (λ k. line ≤ k) ms × All (λ k. k ≤ to) ms)

pub All-weaken : (P Q : ℕ → Type 0) → ((k : ℕ) → P k → Q k) → (ms : List ℕ) → All P ms → All Q ms
All-weaken P Q f [] h = tt
All-weaken P Q f (m ∷ ms) h = (f m h.0, All-weaken P Q f ms h.1)

-- regex_next where the place is known.
unfoldable pub Answers : List ℕ → ℕ → Bool → (ℕ → Type 0) → Type 0
Answers ms line forward P =
    (j : ℕ) × (to : ℕ) × (regex_next ms line forward ≡ some (j, to))
    × (get_elem? ms j ≡ some to)
    × P to

pub answers_at :
    (ms : List ℕ) (line : ℕ) (forward : Bool) (P : ℕ → Type 0) (j to : ℕ)
    → next_place ms line forward ≡ some j
    → get_elem? ms j ≡ some to
    → P to
    → Answers ms line forward P
unfolding Answers regex_next
answers_at ms line forward P j to e g p = (j, to, rw (regex_next, e, g) refl, g, p)

-- At the first match from the line on.
pub place_at :
    (ms : List ℕ) (line : ℕ) (forward : Bool) (j m : ℕ)
    → nearest_next_match ms line ≡ some j
    → get_elem? ms j ≡ some m
    → next_place ms line forward ≡ (
        if m == line
        then (if forward
            then or_round (after ms) (after ms (some j))
            else or_round (last_before ms) (last_before ms (some j)))
        else some j)
unfolding next_place
place_at ms line forward j m n g = rw (next_place, n, g) refl

place_front :
    (m : ℕ) (ms : List ℕ) (line : ℕ) (forward : Bool)
    → nearest_next_match (m ∷ ms) line ≡ none
    → m < line
    → next_place (m ∷ ms) line forward ≡ some 0
unfolding next_place
place_front m ms line forward n h = rw (n, next_place) (ground arith)

pub at_next :
    (pre : List ℕ) (m k : ℕ) (post : List ℕ)
    → get_elem? (pre ++ m ∷ k ∷ post) (suc (length pre)) ≡ some k
at_next [] m k post = refl
at_next (p ∷ pre) m k post = at_next pre m k post

pub after_next :
    (pre : List ℕ) (m k : ℕ) (post : List ℕ)
    → after (pre ++ m ∷ k ∷ post) (some (length pre)) ≡ some (suc (length pre))
unfolding after
after_next pre m k post = rw (length-append pre (m ∷ k ∷ post)) (ground arith)

pub after_last : (pre : List ℕ) (m : ℕ) → after (pre ++ m ∷ []) (some (length pre)) ≡ none
unfolding after
after_last pre m = rw (length-append pre (m ∷ [])) (ground arith)

pub earlier_match :
    (ms pre : List ℕ) (k : ℕ) → last_before ms (some (length (pre ++ (k ∷ [])))) ≡ some (length pre)
unfolding last_before
earlier_match ms pre k = rw (snoc_length pre k) (ground arith)

-- The first match from the line on, where it is not the line itself.
pub answers_behind :
    (line : ℕ) (forward : Bool) (pre : List ℕ) (m : ℕ) (post : List ℕ)
    → All (λ k. k < line) pre
    → line < m
    → All (λ k. m < k) post
    → nearest_next_match (pre ++ m ∷ post) line ≡ some (length pre)
    → Answers (pre ++ m ∷ post) line forward (IsForward line (pre ++ m ∷ post))
unfolding IsForward
answers_behind line forward pre m post b l a n =
    answers_at (pre ++ m ∷ post) line forward _ (length pre) m
      (place_at (pre ++ m ∷ post) line forward (length pre) m n (get_elem?-middle pre m post)
        ∙ ground arith)
      (get_elem?-middle pre m post)
      (inl (
        l,
        All-append (λ k. (k ≤ line) ⊎ (m ≤ k)) pre (m ∷ post)
            (All-weaken (λ k. k < line) _ (λ k h. inl (omega arith)) pre b)
            (inr (omega arith), All-weaken (λ k. m < k) _ (λ k h. inr (omega arith)) post a),
      ))

pub answers_front :
    (line : ℕ) (forward : Bool) (m : ℕ) (ms : List ℕ)
    → IsAscending (m ∷ ms)
    → All (λ k. k < line) (m ∷ ms)
    → nearest_next_match (m ∷ ms) line ≡ none
    → Answers (m ∷ ms) line forward (IsForward line (m ∷ ms))
unfolding IsForward IsAscending
answers_front line forward m ms asc b n =
    answers_at (m ∷ ms) line forward _ 0 m (place_front m ms line forward n b.0) refl (
      inr (
        (omega (arith, b.0), All-weaken (λ k. k < line) _ (λ k h. omega arith) ms b.1),
        (omega arith, All-weaken (λ k. m < k) _ (λ k h. omega arith) ms asc.0),
      ))

pub suffix : (pre ms : List ℕ) → IsAscending (pre ++ ms) → IsAscending ms
unfolding IsAscending
suffix [] ms h = h
suffix (p ∷ pre) ms h = suffix pre ms h.1

pub first_round : (m : ℕ) (ms : List ℕ) → after (m ∷ ms) none ≡ some 0
unfolding after
first_round m ms = refl

pub first_none : (m : ℕ) (ms : List ℕ) → last_before (m ∷ ms) (some 0) ≡ none
unfolding last_before
first_none m ms = refl

pub last_round : (pre : List ℕ) (k : ℕ) → last_before (pre ++ (k ∷ [])) none ≡ some (length pre)
unfolding last_before
last_round [] k = refl
last_round (p ∷ pre) k = ap some (snoc_length pre k)
