-- ===== src/Input/Linear.antt =====
-- event/input.c: find_command over the whole table that input_setup_tbl has set up.
use fnav.Prelude.{
  ◌>>=◌, bind-some, ltb→lt, ℕ, zero, suc, ◌+◌, ◌<◌, ◌≤◌, ◌≡◌, ◌≢◌, ◌∙◌, ap, refl, true, false,
  Option, none, some, List, ltb, ◌==◌, length, get_elem?, ℤ, pos, negsuc, eqb_ℤ, ltb_ℤ, arith,
  Bool-cases, inl, inr, lt-get_elem?,
}
use fnav.Input.{
  magnitude, NvKey, NvKeytbl, char_at, linear_from, input_setup_tbl, search, find_command,
}
use fnav.Input.Search.{IsSorted, Within, char_at-parts, search-Within}

-- `r` is a command of the table with the magnitude of the key, or the table has none.
abbrev pub Finds : List NvKey → ℤ → Option ℕ → Type 0
Finds tbl key none =
    ltb_ℤ key (pos 256) ≡ true
    → (j : ℕ) (k : NvKey) → get_elem? tbl j ≡ some k
    → magnitude k.cmd_char ≢ magnitude key
Finds tbl key (some j) =
    (ltb_ℤ key (pos 256) ≡ true)
    × ((k : NvKey) × (get_elem? tbl j ≡ some k) × (magnitude k.cmd_char ≡ magnitude key))

char_at-at :
    (tbl : List NvKey) (cmd_idx : List ℕ) (i j : ℕ) (k : NvKey)
    → get_elem? cmd_idx i ≡ some j
    → get_elem? tbl j ≡ some k
    → char_at tbl cmd_idx i ≡ some (magnitude k.cmd_char)
unfolding char_at
char_at-at tbl cmd_idx i j k ei ej = rw (ei, ej) refl

eqb_pos : (i : ℕ) (z : ℤ) → eqb_ℤ (pos i) z ≡ true → magnitude z ≡ i
eqb_pos i (pos n) h = ground arith
eqb_pos i (negsuc n) h = absurd (ground arith)

-- The first part of the index: the character of each place is the place.
module _ (tbl : List NvKey) (cmd_idx : List ℕ) where
  linear_bound : (n i : ℕ) → linear_from tbl cmd_idx n i ≤ i + n
  unfolding linear_from
  linear_bound zero i = omega arith
  linear_bound (suc n) i = ground (arith, linear_bound n (suc i))

  stops :
      (n i : ℕ)
      → (get_elem? cmd_idx i >>= λ j. get_elem? tbl j) ≡ none
      → linear_from tbl cmd_idx (suc n) i ≡ i
  unfolding linear_from
  stops n i e = rw (linear_from, e) refl

  goes_on :
      (n i : ℕ) (k : NvKey)
      → (get_elem? cmd_idx i >>= λ j. get_elem? tbl j) ≡ some k
      → eqb_ℤ (pos i) k.cmd_char ≡ true
      → linear_from tbl cmd_idx (suc n) i ≡ linear_from tbl cmd_idx n (suc i)
  unfolding linear_from
  goes_on n i k e q = rw (linear_from, e, q) refl

  fails :
      (n i : ℕ) (k : NvKey)
      → (get_elem? cmd_idx i >>= λ j. get_elem? tbl j) ≡ some k
      → eqb_ℤ (pos i) k.cmd_char ≡ false
      → linear_from tbl cmd_idx (suc n) i ≡ i
  unfolding linear_from
  fails n i k e q = rw (linear_from, e, q) refl

  linear_from-char_at :
      (n i x : ℕ) → i ≤ x → x < linear_from tbl cmd_idx n i → char_at tbl cmd_idx x ≡ some x
  unfolding linear_from
  linear_from-char_at zero i x l h = absurd (omega arith)
  linear_from-char_at (suc n) i x l h =
      go (get_elem? cmd_idx i >>= λ j. get_elem? tbl j) refl
        (λ k. linear_from-char_at n (suc i) x k)
    where
      go :
          (o : Option NvKey)
          → (get_elem? cmd_idx i >>= λ j. get_elem? tbl j) ≡ o
          → (suc i ≤ x → x < linear_from tbl cmd_idx n (suc i) → char_at tbl cmd_idx x ≡ some x)
          → char_at tbl cmd_idx x ≡ some x
      go none e ih = absurd (omega (arith, stops n i e, h))
      go (some k) e ih = elim (Bool-cases (eqb_ℤ (pos i) k.cmd_char)) [
        | inl q ↦ elim (Bool-cases (x == i)) [
          | inl t ↦
              let (j, ej, ek) = bind-some (get_elem? cmd_idx i) (λ j. get_elem? tbl j) k e in
              let z : x ≡ i = ground arith in
              rw z (char_at-at tbl cmd_idx i j k ej ek ∙ ap some (eqb_pos i k.cmd_char q))
          | inr t ↦ ih (ground arith) (omega (arith, goes_on n i k e q, h))
        ]
        | inr q ↦ absurd (omega (arith, fails n i k e q, h))
      ]

ltb-ge : (a b : ℕ) → ltb a b ≡ false → b ≤ a
ltb-ge a b h = ground arith

module _ (address : ℕ) (tbl : List NvKey) (sorted : List ℕ) (s : IsSorted tbl sorted)
    (key : ℤ) where
  abbrev linear : ℕ
  linear = linear_from tbl sorted (length sorted) 0

  abbrev kt : NvKeytbl
  kt = input_setup_tbl address tbl sorted

  -- What the search of the second part does not find is not in the first one.
  Within-Finds :
      (r : Option ℕ)
      → ltb_ℤ key (pos 256) ≡ true
      → linear ≤ magnitude key
      → Within kt (magnitude key) linear (length sorted) r
      → Finds tbl key r
  unfolding input_setup_tbl
  Within-Finds none h l w = λ h' j k ek q.
      let (i, ei) = s.complete j (lt-get_elem? tbl j k ek) in
      let c = char_at-at tbl sorted i j k ei ek in
      elim (Bool-cases (ltb i linear)) [
        | inl t ↦
            let c' : char_at tbl sorted i ≡ some i =
              linear_from-char_at tbl sorted (length sorted) 0 i (omega arith) (ground arith) in
            let z : magnitude k.cmd_char ≡ i = ground arith in absurd (ground arith)
        | inr t ↦ w i (magnitude k.cmd_char) (ground arith) (lt-get_elem? sorted i j ei) c q
      ]
  Within-Finds (some j) h l (k, ek, e) = (h, (k, ek, e))

  searched :
      (r : Option ℕ) × (search (suc (length sorted)) kt (magnitude key) linear (length sorted)
        ≡ some r)
      × Within kt (magnitude key) linear (length sorted) r
  unfolding input_setup_tbl
  searched =
      search-Within (suc (length sorted)) kt (magnitude key) linear (length sorted) s (omega arith)
        (omega arith)

  too_great : ltb_ℤ key (pos 256) ≡ false → find_command kt key ≡ some none
  unfolding find_command
  too_great h = rw h refl

  in_linear :
      (j : ℕ)
      → ltb_ℤ key (pos 256) ≡ true
      → ltb (magnitude key) linear ≡ true
      → get_elem? sorted (magnitude key) ≡ some j
      → find_command kt key ≡ some (some j)
  unfolding find_command input_setup_tbl
  in_linear j h l e = rw (h, l, e) refl

  behind_linear :
      (r : Option ℕ)
      → ltb_ℤ key (pos 256) ≡ true
      → ltb (magnitude key) linear ≡ false
      → search (suc (length sorted)) kt (magnitude key) linear (length sorted) ≡ some r
      → find_command kt key ≡ some r
  unfolding find_command input_setup_tbl
  behind_linear r h l e = rw (h, l) e

  -- find_command on a table that is set up returns within its fuel: for a key below 256 it gives a
  -- command of the same magnitude, or -1 where there is none in the table; for a greater key, -1.
  pub find_command-Finds :
      (r : Option ℕ) × (find_command (input_setup_tbl address tbl sorted) key ≡ some r)
      × Finds tbl key r
  find_command-Finds = elim (Bool-cases (ltb_ℤ key (pos 256))) [
    | inr h ↦ (none, too_great h, λ h'. absurd (ground arith))
    | inl h ↦ elim (Bool-cases (ltb (magnitude key) linear)) [
      | inl l ↦
          let i = magnitude key in
          let c : char_at tbl sorted i ≡ some i =
            linear_from-char_at tbl sorted (length sorted) 0 i (omega arith) (ltb→lt i linear l) in
          let (j, k, ej, ek, q) = char_at-parts tbl sorted i i c in
          (some j, in_linear j h l ej, (h, (k, ek, q)))
      | inr l ↦
          let (r, er, w) = searched in
          let l' : linear ≤ magnitude key = ltb-ge (magnitude key) linear l in
          (r, behind_linear r h l er, Within-Finds r h l' w)
    ]
  ]
