-- ===== src/Regex/Tests.antt =====
-- regex.c: concrete matches.
use fnav.Prelude.{
  ℕ, ◌↔◌, get_elem?, ◌≡◌, refl, true, false, none, some, List, [], ◌∷◌, inr, ℤ, pos, negsuc, codes,
  str_eq, if◌then◌else◌, arith,
}
use fnav.Regex.{
  LineMatch, has_end, takes_line, build_from, regex_build, regex_next, next_place, regex_hover,
  nearest_next_match, after, last_before,
}
use fnav.Regex.Build.{IsAscending, is_match, FindsText, regex_build-matches}
use fnav.Regex.Around.{Answers, IsForward, IsBackward}
use fnav.Regex.Next.{regex_next-IsForward, regex_next-IsBackward}

-- A pattern that matches where the line is the same.
abbrev same_text : List ℕ → List ℕ → ℤ × (ℕ → ℤ)
same_text pattern subject = (if str_eq pattern subject then pos 1 else negsuc 0, λ j. pos 1)

abbrev lines : List (List ℕ)
lines = codes "a" ∷ codes "b" ∷ codes "a" ∷ []

abbrev unmatched : LineMatch
unmatched = record { lines = none; pivot_top = pos 0; pivot_lnum = pos 0; gcomp = none }

abbrev found : List ℕ
found = 2 ∷ 5 ∷ 9 ∷ []

found-IsAscending : IsAscending found
unfolding IsAscending
found-IsAscending = omega arith

build_matches : build_from same_text (codes "a") 0 lines ≡ 0 ∷ 2 ∷ []
unfolding build_from takes_line has_end str_eq
build_matches = refl

goes_forward : regex_next found 5 true ≡ some (2, 9)
unfolding regex_next next_place nearest_next_match after
goes_forward = refl

goes_round : regex_next found 9 true ≡ some (0, 2)
unfolding regex_next next_place nearest_next_match after
goes_round = refl

-- Backward from a line between two matches goes forward.
between_matches : regex_next found 6 false ≡ some (2, 9)
unfolding regex_next next_place nearest_next_match last_before
between_matches = refl

hovers_over : regex_hover (record unmatched { lines = some found }) 10 ≡ some 2
unfolding regex_hover nearest_next_match after
hovers_over = refl

regex_build-matches_example :
    (ms : List ℕ) × (regex_build same_text lines
        (some (record { addr = 1; text = codes "a" }))
        (none, unmatched)
      ≡ (
        some (record { addr = 1; text = codes "a" }),
        record unmatched { gcomp = some (record { addr = 1; text = codes "a" }); lines = some ms },
      ))
    × IsAscending ms
    × ((i : ℕ)
        → (is_match i ms ≡ true)
          ↔ ((s : List ℕ) × (get_elem? lines i ≡ some s) × FindsText (same_text (codes "a") s)))
regex_build-matches_example =
    regex_build-matches same_text lines (record { addr = 1; text = codes "a" }) none unmatched

regex_next-IsForward_example : Answers found 6 false (IsForward 6 found)
unfolding is_match
regex_next-IsForward_example =
    regex_next-IsForward 2 (5 ∷ 9 ∷ []) 6 false found-IsAscending (inr refl)

regex_next-IsBackward_example : Answers found 5 false (IsBackward 5 found)
unfolding is_match
regex_next-IsBackward_example = regex_next-IsBackward found 5 found-IsAscending refl
