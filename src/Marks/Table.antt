-- ===== src/Marks/Table.antt =====
-- info.c: what a new mark changes.
use fnav.Prelude.{
  ℕ, zero, suc, ℤ, ◌≡◌, refl, sym, ap, ◌∙◌, Bool, true, false, none, some, List, [], ◌∷◌, ◌++◌,
  arith, ◌==◌, if◌then◌else◌, str_eq, str_eq→eq, str_eq_refl, str_eq_comm, str_eq_second,
  Option-cases, Bool-cases, inl, inr,
}
use fnav.Marks.{
  Mark, find_path, mark_del, put_mark, label_key, mark_label_dir, mark_path, mark_chr_str, mark_str,
  byte_of, chr_key,
}

-- No key stands twice in the table.
abbrev pub Distinct : List Mark → Type 0
Distinct [] = Unit
Distinct (m ∷ tbl) = (find_path m.key tbl ≡ none) × Distinct tbl

find_path-append :
    (key : List ℕ) (m : Mark) (tbl : List Mark)
    → find_path key (tbl ++ (m ∷ [])) ≡ elim (find_path key tbl) [
      | some p ↦ some p
      | none ↦ if str_eq m.key key then some m.path else none
    ]
unfolding find_path
find_path-append key m [] = elim (Bool-cases (str_eq m.key key)) [
  | inl e ↦ ground arith
  | inr e ↦ ground arith
]
find_path-append key m (n ∷ tbl) = elim (Bool-cases (str_eq n.key key)) [
  | inl e ↦ ground arith
  | inr e ↦ ground (arith, find_path-append key m tbl)
]

-- A deleted key is in the table no longer, and the others are as before.
find_path-mark_del :
    (key key' : List ℕ) (tbl : List Mark)
    → Distinct tbl
    → find_path key' (mark_del key tbl) ≡ (if str_eq key key' then none else find_path key' tbl)
unfolding find_path mark_del
find_path-mark_del key key' [] d = ground arith
find_path-mark_del key key' (m ∷ tbl) d = elim (Bool-cases (str_eq m.key key)) [
  | inl e ↦
      let p : m.key ≡ key = str_eq→eq m.key key e in
      elim (Bool-cases (str_eq key key')) [
        | inl f ↦
            let q : find_path key' tbl ≡ none = rw (p ∙ str_eq→eq key key' f) at d.0 in
            ground (arith, q)
        | inr f ↦
            let q : str_eq m.key key' ≡ false = ap (λ x. str_eq x key') p ∙ f in ground (arith, q)
      ]
  | inr e ↦ elim (Bool-cases (str_eq m.key key')) [
    | inl f ↦
        let p : m.key ≡ key' = str_eq→eq m.key key' f in
        let q : str_eq key key' ≡ false =
          ap (λ x. str_eq key x) (sym p) ∙ str_eq_comm key m.key ∙ e in
        ground (arith, q)
    | inr f ↦ ground (arith, find_path-mark_del key key' tbl d.1)
  ]
]

Distinct-mark_del : (key : List ℕ) (tbl : List Mark) → Distinct tbl → Distinct (mark_del key tbl)
unfolding mark_del
Distinct-mark_del key [] d = tt
Distinct-mark_del key (m ∷ tbl) d = go (str_eq m.key key) refl (Distinct-mark_del key tbl d.1)
  where
    go :
        (b : Bool)
        → str_eq m.key key ≡ b
        → Distinct (mark_del key tbl)
        → Distinct (elim b [ true ↦ tbl | false ↦ m ∷ mark_del key tbl ])
    go true e k = d.1
    go false e k =
        let q = str_eq_comm m.key key in
        (ground (arith, find_path-mark_del key m.key tbl d.1, d.0, q), k)

Distinct-append :
    (m : Mark) (tbl : List Mark)
    → Distinct tbl
    → find_path m.key tbl ≡ none
    → Distinct (tbl ++ (m ∷ []))
unfolding find_path
Distinct-append m [] d h = (refl, tt)
Distinct-append m (n ∷ tbl) d h = elim (Bool-cases (str_eq n.key m.key)) [
  | inl e ↦ absurd (ground arith)
  | inr e ↦ (
    ground (arith, find_path-append n.key m tbl, d.0, str_eq_comm n.key m.key),
    Distinct-append m tbl d.1 (rw (e, find_path) at h),
  )
]

put_mark-Distinct :
    (key dir : List ℕ) (tbl : List Mark) → Distinct tbl → Distinct (put_mark key dir tbl)
unfolding put_mark
put_mark-Distinct key dir tbl d =
    Distinct-append (record { key = key; path = dir }) (mark_del key tbl)
      (Distinct-mark_del key tbl d)
      (ground (arith, find_path-mark_del key key tbl d, str_eq_refl key))

find_path-put_mark :
    (key key' dir : List ℕ) (tbl : List Mark)
    → Distinct tbl
    → find_path key' (put_mark key dir tbl)
      ≡ (if str_eq key key' then some dir else find_path key' tbl)
unfolding put_mark
find_path-put_mark key key' dir tbl d =
    find_path-append key' (record { key = key; path = dir }) (mark_del key tbl)
    ∙ elim (Bool-cases (str_eq key key')) [
      | inl e ↦ ground (arith, find_path-mark_del key key' tbl d)
      | inr e ↦ elim (Option-cases (find_path key' tbl)) [
        | inl n ↦ ground (arith, find_path-mark_del key key' tbl d)
        | inr (x, n) ↦ ground (arith, find_path-mark_del key key' tbl d)
      ]
    ]

str_eq-chr_key : (a b : ℤ) → str_eq (chr_key a) (chr_key b) ≡ (byte_of a == byte_of b)
unfolding chr_key str_eq
str_eq-chr_key a b = key_cases (byte_of a) (byte_of b)
  where
    key_cases :
        (m n : ℕ)
        → str_eq (if m == 0 then 39 ∷ [] else 39 ∷ m ∷ []) (if n == 0 then 39 ∷ [] else 39 ∷ n ∷ [])
          ≡ (m == n)
    key_cases zero zero = str_eq_refl (39 ∷ [])
    key_cases zero (suc n) = ground arith
    key_cases (suc m) zero = ground arith
    key_cases (suc m) (suc n) =
        let a : (suc m == 0) ≡ false = ground arith in
        let b : (suc n == 0) ≡ false = ground arith in rw (a, b) (str_eq_second 39 (suc m) (suc n))

-- Where no key stands twice in the tables: a mark that is set is found under its own key with its new
-- path, whether or not it was set before, every other key is found as before, and no key stands twice
-- again: for labels, with or without their `@`, and for characters, whose key is their lowest byte.
pub marks_set :
    (label dir key : List ℕ) (chr chr' : ℤ) (lbl_marks chr_marks : List Mark)
    → Distinct lbl_marks
    → Distinct chr_marks
    → (mark_path key (mark_label_dir label dir lbl_marks)
        ≡ (if str_eq (label_key label) key then some dir else mark_path key lbl_marks))
      × Distinct (mark_label_dir label dir lbl_marks)
      × (mark_str chr' (mark_chr_str chr dir chr_marks)
          ≡ (if byte_of chr == byte_of chr' then some dir else mark_str chr' chr_marks))
      × Distinct (mark_chr_str chr dir chr_marks)
unfolding mark_path mark_label_dir mark_str mark_chr_str
marks_set label dir key chr chr' l c dl dc = (
  find_path-put_mark (label_key label) key dir l dl,
  put_mark-Distinct (label_key label) dir l dl,
  find_path-put_mark (chr_key chr) (chr_key chr') dir c dc
      ∙ ap (λ b. if b then some dir else find_path (chr_key chr') c) (str_eq-chr_key chr chr'),
  put_mark-Distinct (chr_key chr) dir c dc,
)
