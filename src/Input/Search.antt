-- ===== src/Input/Search.antt =====
-- event/input.c: find_command on a table that input_setup_tbl has set up.
use fnav.Prelude.{
  ◌>>=◌, bind-some, leb→le, ℕ, zero, suc, ◌+◌, ◌-◌, ◌/◌, ◌<◌, ◌≤◌, ◌≡◌, ◌≢◌, ◌∙◌, refl, Bool, true,
  false, Option, none, some, List, ltb, leb, ◌==◌, length, get_elem?, arith, Bool-cases, inl, inr,
}
use fnav.Input.{magnitude, NvKey, NvKeytbl, char_at, search}

-- The index that qsort_r gives: each place has a command, in the order of the magnitudes, and each
-- command of the table has a place.
pub record IsSorted (tbl : List NvKey) (cmd_idx : List ℕ) : Type 0 where
  pub full : (i : ℕ) → i < length cmd_idx → (c : ℕ) × (char_at tbl cmd_idx i ≡ some c)
  pub ordered :
      (i j a b : ℕ)
      → i ≤ j
      → char_at tbl cmd_idx i ≡ some a
      → char_at tbl cmd_idx j ≡ some b
      → a ≤ b
  pub complete : (j : ℕ) → j < length tbl → (i : ℕ) × (get_elem? cmd_idx i ≡ some j)

-- `r` is a command of the character, or there is none at a place from `bot` up to below `top`.
abbrev pub Within : NvKeytbl → ℕ → ℕ → ℕ → Option ℕ → Type 0
Within kt c bot top none =
    (i d : ℕ) → bot ≤ i → i < top → char_at kt.tbl kt.cmd_idx i ≡ some d → d ≢ c
Within kt c bot top (some j) =
    (k : NvKey) × (get_elem? kt.tbl j ≡ some k) × (magnitude k.cmd_char ≡ c)

pub char_at-parts :
    (tbl : List NvKey) (cmd_idx : List ℕ) (i d : ℕ)
    → char_at tbl cmd_idx i ≡ some d
    → (j : ℕ) × (k : NvKey) × (get_elem? cmd_idx i ≡ some j)
      × (get_elem? tbl j ≡ some k)
      × (magnitude k.cmd_char ≡ d)
unfolding char_at
char_at-parts tbl cmd_idx i d e =
    let (j, ej, e₁) =
      bind-some (get_elem? cmd_idx i) (λ j. get_elem? tbl j >>= λ k. some (magnitude k.cmd_char)) d
        e in
    let (k, ek, e₂) = bind-some (get_elem? tbl j) (λ k. some (magnitude k.cmd_char)) d e₁ in
    (j, k, ej, ek, ground arith)

module _ (fuel : ℕ) (kt : NvKeytbl) (c bot top : ℕ) where
  abbrev middle : ℕ
  middle = (top - 1 + bot) / 2

  search_ends : ltb bot top ≡ false → search (suc fuel) kt c bot top ≡ some none
  unfolding search
  search_ends b = rw b refl

  search_hits :
      (d j : ℕ)
      → ltb bot top ≡ true
      → char_at kt.tbl kt.cmd_idx middle ≡ some d
      → (c == d) ≡ true
      → get_elem? kt.cmd_idx middle ≡ some j
      → search (suc fuel) kt c bot top ≡ some (some j)
  unfolding search
  search_hits d j b e t ej = rw (b, e, t, ej) refl

  search_goes_up :
      (d : ℕ)
      → ltb bot top ≡ true
      → char_at kt.tbl kt.cmd_idx middle ≡ some d
      → (c == d) ≡ false
      → ltb d c ≡ true
      → search (suc fuel) kt c bot top ≡ search fuel kt c (suc middle) top
  unfolding search
  search_goes_up d b e t u = rw (b, e, t, u) refl

  search_goes_down :
      (d : ℕ)
      → ltb bot top ≡ true
      → char_at kt.tbl kt.cmd_idx middle ≡ some d
      → (c == d) ≡ false
      → ltb d c ≡ false
      → search (suc fuel) kt c bot top ≡ search fuel kt c bot middle
  unfolding search
  search_goes_down d b e t u = rw (b, e, t, u) refl

-- A half without the character, and what is found in the other.
Within-up :
    (kt : NvKeytbl) (c bot top m d : ℕ) (r : Option ℕ)
    → IsSorted kt.tbl kt.cmd_idx
    → char_at kt.tbl kt.cmd_idx m ≡ some d
    → d < c
    → Within kt c (suc m) top r
    → Within kt c bot top r
Within-up kt c bot top m d none s e l w = λ i x h k ex q. elim (Bool-cases (leb i m)) [
  | inl t ↦ absurd (omega (arith, s.ordered i m x d (leb→le i m t) ex e))
  | inr t ↦ w i x (ground arith) k ex q
]
Within-up kt c bot top m d (some j) s e l w = w

Within-down :
    (kt : NvKeytbl) (c bot top m d : ℕ) (r : Option ℕ)
    → IsSorted kt.tbl kt.cmd_idx
    → char_at kt.tbl kt.cmd_idx m ≡ some d
    → c < d
    → Within kt c bot m r
    → Within kt c bot top r
Within-down kt c bot top m d none s e l w = λ i x h k ex q. elim (Bool-cases (leb m i)) [
  | inl t ↦ absurd (omega (arith, s.ordered m i d x (leb→le m i t) e ex))
  | inr t ↦ w i x h (ground arith) ex q
]
Within-down kt c bot top m d (some j) s e l w = w

pub search-Within :
    (fuel : ℕ) (kt : NvKeytbl) (c bot top : ℕ)
    → IsSorted kt.tbl kt.cmd_idx
    → top ≤ length kt.cmd_idx
    → top - bot < fuel
    → (r : Option ℕ) × (search fuel kt c bot top ≡ some r) × Within kt c bot top r
search-Within zero kt c bot top s l f = absurd (omega arith)
search-Within (suc fuel) kt c bot top s l f =
    let m : ℕ = (top - 1 + bot) / 2 in
    go (ltb bot top) refl (λ b. search-Within fuel kt c (suc m) top s l (ground arith))
      (λ b. search-Within fuel kt c bot m s (ground arith) (ground arith))
  where
    go :
        (b : Bool)
        → ltb bot top ≡ b
        → (ltb bot top ≡ true
            → (r : Option ℕ) × (search fuel kt c (suc ((top - 1 + bot) / 2)) top ≡ some r)
              × Within kt c (suc ((top - 1 + bot) / 2)) top r)
        → (ltb bot top ≡ true
            → (r : Option ℕ) × (search fuel kt c bot ((top - 1 + bot) / 2) ≡ some r)
              × Within kt c bot ((top - 1 + bot) / 2) r)
        → (r : Option ℕ) × (search (suc fuel) kt c bot top ≡ some r) × Within kt c bot top r
    go false b up down = (none, search_ends fuel kt c bot top b, λ i d h k e. absurd (ground arith))
    go true b up down =
        let m : ℕ = (top - 1 + bot) / 2 in
        let (d, e) = s.full m (ground arith) in
        elim (Bool-cases (c == d)) [
          | inl t ↦
              let (j, k, ej, ek, q) = char_at-parts kt.tbl kt.cmd_idx m d e in
              (some j, search_hits fuel kt c bot top d j b e t ej, (k, ek, ground arith))
          | inr t ↦ elim (Bool-cases (ltb d c)) [
            | inl u ↦
                let (r, er, w) = up b in
                (
                  r,
                  search_goes_up fuel kt c bot top d b e t u ∙ er,
                  Within-up kt c bot top m d r s e (ground arith) w,
                )
            | inr u ↦
                let (r, er, w) = down b in
                (
                  r,
                  search_goes_down fuel kt c bot top d b e t u ∙ er,
                  Within-down kt c bot top m d r s e (ground arith) w,
                )
          ]
        ]
