-- ===== src/Text/Search.antt =====
-- util.c and macros.h: TOLOWER_ASC, TOUPPER_ASC, fuzzy_match, count_strstr, count_lines and
-- rev_strchr_pos. A pointer into a string is the suffix that it points at, and NULL is `none`; of
-- two pointers into one string the smaller has the longer suffix.
pub mod Fuzzy
pub mod Count
use fnav.Prelude.{
  ℕ, zero, suc, ◌+◌, ◌-◌, Bool, true, false, ◌||◌, Option, none, some, List, [], ◌∷◌, ltb, ◌==◌,
  if◌then◌else◌, length,
}
use fnav.Text.{byte_at}

pub toupper_asc : ℕ → ℕ
toupper_asc c = if ltb c 97 || ltb 122 c then c else c - 32

unfoldable pub tolower_asc : ℕ → ℕ
tolower_asc c = if ltb c 65 || ltb 90 c then c else c + 32

-- strchr, for a byte that is not 0.
pub strchr : List ℕ → ℕ → Option (List ℕ)
strchr [] c = none
strchr (d ∷ s) c = elim (d == c) [ true ↦ some (d ∷ s) | false ↦ strchr s c ]

-- The choice of fuzzy_match between `lc` and `hc`. A pointer found lies at or above `s`; the sign
-- of `(int)(NULL - s)` is the sign bit of a truncated address, and a parameter.
pub pick : Bool → Option (List ℕ) → Option (List ℕ) → Option (List ℕ)
pick null_neg none none = none
pick null_neg none (some h) = if null_neg then some h else none
pick null_neg (some l) none = if null_neg then some l else none
pick null_neg (some l) (some h) = if ltb (length h) (length l) then some l else some h

-- fuzzy_match from the pointer `sub`, over the bytes left of `accept`.
pub fuzzy_from : Bool → List ℕ → List ℕ → Bool
unfolding pick
fuzzy_from null_neg sub [] = true
fuzzy_from null_neg sub (c ∷ accept) =
    elim (pick null_neg (strchr sub (tolower_asc c)) (strchr sub (toupper_asc c))) [
      | none ↦ false
      | some sub' ↦ fuzzy_from null_neg sub' accept
    ]

pub fuzzy_match : Bool → List ℕ → List ℕ → Bool
unfolding fuzzy_from
fuzzy_match null_neg s accept = fuzzy_from null_neg s accept

-- `fnd` stands at the front of the string.
pub starts_with : List ℕ → List ℕ → Bool
starts_with s [] = true
starts_with [] (f ∷ fnd) = false
starts_with (c ∷ s) (f ∷ fnd) = elim (c == f) [ true ↦ starts_with s fnd | false ↦ false ]

-- strstr
pub strstr : List ℕ → List ℕ → Option (List ℕ)
unfolding starts_with
strstr [] fnd = elim (starts_with [] fnd) [ true ↦ some [] | false ↦ none ]
strstr (c ∷ s) fnd = elim (starts_with (c ∷ s) fnd) [ true ↦ some (c ∷ s) | false ↦ strstr s fnd ]

-- count_strstr with fuel for the loop; `tmp++` at the NUL would leave the string, and is `none`.
pub count_strstr : ℕ → List ℕ → List ℕ → Option ℕ
count_strstr zero tmp fnd = none
count_strstr (suc fuel) tmp fnd = elim (strstr tmp fnd) [
  | none ↦ some 0
  | some [] ↦ none
  | some (c ∷ s) ↦ elim (count_strstr fuel s fnd) [ none ↦ none | some n ↦ some (n + 1) ]
]

-- count_lines with fuel: `next` is the string behind the next newline.
pub count_lines : ℕ → List ℕ → Option ℕ
unfolding byte_at
count_lines zero src = none
count_lines (suc fuel) src = elim (strchr src 10) [
  | none ↦ some 0
  | some [] ↦ some 0
  | some (_ ∷ next) ↦ elim (count_lines fuel next) [
    | none ↦ none
    | some n ↦ some (if byte_at src 0 == 35 then n else n + 1)
  ]
]

-- The inner loop of rev_strchr_pos.
unfoldable pub accepts : List ℕ → ℕ → Bool
accepts [] c = false
accepts (a ∷ accept) c = elim (a == c) [ true ↦ true | false ↦ accepts accept c ]

-- rev_strchr_pos, from the index `i` down.
unfoldable pub rev_from : List ℕ → ℕ → List ℕ → ℕ
unfolding byte_at
rev_from src zero accept = 0
rev_from src (suc i) accept = elim (accepts accept (byte_at src (suc i))) [
  | true ↦ suc i
  | false ↦ rev_from src i accept
]

unfoldable pub rev_strchr_pos : List ℕ → ℕ → List ℕ → ℕ
unfolding rev_from
rev_strchr_pos src n accept = rev_from src (n - 1) accept
