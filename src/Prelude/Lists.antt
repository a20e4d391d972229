-- ===== src/Prelude/Lists.antt =====
-- Lists measured and indexed by native numbers, and byte strings as lists.
use Prim.Native.Nat.{ℕ, zero, suc, ◌+◌, ◌-◌, ◌<◌, compare, Ordering, min}
use mathlib.Core.Path.{◌≡◌, refl, ap}
use mathlib.Core.Logic.{◌≢◌, ◌↔◌}
use mathlib.Core.Bool.{Bool, true, false}
use mathlib.Core.List.{List, [], ◌∷◌, ◌++◌}
use mathlib.Core.Option.{Option, none, some}
use native.Mathlib.Omega.{arith}
use fnav.Prelude.Tests.{◌==◌, ltb, if◌then◌else◌}

module _ {ℓ} {A : Type ℓ} where
  abbrev pub length : List A → ℕ
  length [] = 0
  length (x ∷ xs) = suc (length xs)

  abbrev pub get_elem? : List A → ℕ → Option A
  get_elem? [] i = none
  get_elem? (x ∷ xs) zero = some x
  get_elem? (x ∷ xs) (suc i) = get_elem? xs i

  abbrev pub set : List A → ℕ → A → List A
  set [] i v = []
  set (x ∷ xs) zero v = v ∷ xs
  set (x ∷ xs) (suc i) v = x ∷ set xs i v

  abbrev pub take : ℕ → List A → List A
  take zero xs = []
  take (suc n) [] = []
  take (suc n) (x ∷ xs) = x ∷ take n xs

  abbrev pub drop : ℕ → List A → List A
  drop zero xs = xs
  drop (suc n) [] = []
  drop (suc n) (x ∷ xs) = drop n xs

  abbrev pub replicate : ℕ → A → List A
  replicate zero a = []
  replicate (suc n) a = a ∷ replicate n a

  pub length-append : (xs ys : List A) → length (xs ++ ys) ≡ length xs + length ys
  length-append [] ys = omega arith
  length-append (x ∷ xs) ys = omega (arith, length-append xs ys)

  pub length-set : (xs : List A) (i : ℕ) (v : A) → length (set xs i v) ≡ length xs
  length-set [] i v = refl
  length-set (x ∷ xs) zero v = refl
  length-set (x ∷ xs) (suc i) v = ap suc (length-set xs i v)

  pub get_elem?-set_self :
      (xs : List A) (i : ℕ) (v : A) → i < length xs → get_elem? (set xs i v) i ≡ some v
  get_elem?-set_self [] i v h = elim h [ ]
  get_elem?-set_self (x ∷ xs) zero v h = refl
  get_elem?-set_self (x ∷ xs) (suc i) v h = get_elem?-set_self xs i v (omega arith)

  pub get_elem?-set_ne :
      (xs : List A) (i j : ℕ) (v : A) → i ≢ j → get_elem? (set xs i v) j ≡ get_elem? xs j
  get_elem?-set_ne [] i j v h = refl
  get_elem?-set_ne (x ∷ xs) zero zero v h = absurd (h refl)
  get_elem?-set_ne (x ∷ xs) zero (suc j) v h = refl
  get_elem?-set_ne (x ∷ xs) (suc i) zero v h = refl
  get_elem?-set_ne (x ∷ xs) (suc i) (suc j) v h = get_elem?-set_ne xs i j v (λ e. h (ap suc e))

  pub get_elem?-replicate : (n i : ℕ) (a : A) → i < n → get_elem? (replicate n a) i ≡ some a
  get_elem?-replicate zero i a h = elim h [ ]
  get_elem?-replicate (suc n) zero a h = refl
  get_elem?-replicate (suc n) (suc i) a h = get_elem?-replicate n i a (omega arith)

  pub length-replicate : (n : ℕ) (a : A) → length (replicate n a) ≡ n
  length-replicate zero a = refl
  length-replicate (suc n) a = ap suc (length-replicate n a)

  pub length-take : (n : ℕ) (xs : List A) → length (take n xs) ≡ min n (length xs)
  length-take zero xs = omega arith
  length-take (suc n) [] = omega arith
  length-take (suc n) (x ∷ xs) = omega (arith, length-take n xs)

  pub length-drop : (n : ℕ) (xs : List A) → length (drop n xs) ≡ length xs - n
  length-drop zero xs = omega arith
  length-drop (suc n) [] = omega arith
  length-drop (suc n) (x ∷ xs) = omega (arith, length-drop n xs)

-- A predicate on each element, by recursion.
abbrev pub All {ℓ κ} : {A : Type ℓ} → (A → Type κ) → List A → Type κ
All P [] = Unit
All P (x ∷ xs) = P x × All P xs

pub All-append {ℓ κ} :
    {A : Type ℓ} (P : A → Type κ) (xs ys : List A) → All P xs → All P ys → All P (xs ++ ys)
All-append P [] ys hx hy = hy
All-append P (x ∷ xs) ys hx hy = (hx.0, All-append P xs ys hx.1 hy)

-- `strcmp(a, b) == 0` on two strings.
unfoldable pub str_eq : List ℕ → List ℕ → Bool
str_eq [] [] = true
str_eq [] (b ∷ ys) = false
str_eq (a ∷ xs) [] = false
str_eq (a ∷ xs) (b ∷ ys) = elim (compare a b) [ Ordering.eq ↦ str_eq xs ys | _ ↦ false ]

pub str_eq_refl : (a : List ℕ) → str_eq a a ≡ true
unfolding str_eq
str_eq_refl [] = refl
str_eq_refl (a ∷ xs) = ground (arith, str_eq_refl xs)

pub str_eq→eq : (a b : List ℕ) → str_eq a b ≡ true → a ≡ b
unfolding str_eq
str_eq→eq [] [] h = refl
str_eq→eq [] (b ∷ ys) h = cc
str_eq→eq (a ∷ xs) [] h = cc
str_eq→eq (a ∷ xs) (b ∷ ys) h = ground (arith, str_eq→eq xs ys)

pub str_eq_comm : (a b : List ℕ) → str_eq a b ≡ str_eq b a
unfolding str_eq
str_eq_comm [] [] = refl
str_eq_comm [] (b ∷ ys) = refl
str_eq_comm (a ∷ xs) [] = refl
str_eq_comm (a ∷ xs) (b ∷ ys) = ground (arith, str_eq_comm xs ys)

pub str_eq_second : (a b c : ℕ) → str_eq (a ∷ b ∷ []) (a ∷ c ∷ []) ≡ (b == c)
unfolding str_eq
str_eq_second a b c = ground arith

pub str_eq_iff : (a b : List ℕ) → (str_eq a b ≡ true) ↔ (a ≡ b)
str_eq_iff a b = (str_eq→eq a b, λ e. rw e (str_eq_refl b))

module _ {ℓ} {A : Type ℓ} where
  pub get_elem?-lt : (xs : List A) (i : ℕ) → i < length xs → (x : A) × (get_elem? xs i ≡ some x)
  get_elem?-lt [] i h = elim h [ ]
  get_elem?-lt (x ∷ xs) zero h = (x, refl)
  get_elem?-lt (x ∷ xs) (suc i) h = get_elem?-lt xs i (omega arith)

  pub lt-get_elem? : (xs : List A) (i : ℕ) (x : A) → get_elem? xs i ≡ some x → i < length xs
  lt-get_elem? [] i x h = absurd (ground arith)
  lt-get_elem? (y ∷ xs) zero x h = omega arith
  lt-get_elem? (y ∷ xs) (suc i) x h = omega (arith, lt-get_elem? xs i x h)

module _ {ℓ} {A : Type ℓ} where
  pub replicate_at :
      (n j : ℕ) (a : A) → get_elem? (replicate n a) j ≡ (if ltb j n then some a else none)
  replicate_at zero j a = ground arith
  replicate_at (suc n) zero a = ground arith
  replicate_at (suc n) (suc j) a = ground (arith, replicate_at n j a)

-- A list in two parts, and an element between them.
module _ {ℓ} {A : Type ℓ} where
  pub get_elem?-middle :
      (done : List A) (h : A) (r : List A) → get_elem? (done ++ h ∷ r) (length done) ≡ some h
  get_elem?-middle [] h r = refl
  get_elem?-middle (d ∷ done) h r = get_elem?-middle done h r

  pub get_elem?-end : (done : List A) → get_elem? done (length done) ≡ none
  get_elem?-end [] = refl
  get_elem?-end (d ∷ done) = get_elem?-end done

  pub get_elem?-past : (done : List A) → get_elem? done (suc (length done)) ≡ none
  get_elem?-past [] = refl
  get_elem?-past (d ∷ done) = get_elem?-past done

  pub snoc_length : (done : List A) (h : A) → length (done ++ (h ∷ [])) ≡ suc (length done)
  snoc_length [] h = refl
  snoc_length (d ∷ done) h = ap suc (snoc_length done h)

  pub snoc_append : (done : List A) (h : A) (r : List A) → (done ++ (h ∷ [])) ++ r ≡ done ++ h ∷ r
  snoc_append [] h r = refl
  snoc_append (d ∷ done) h r = ap (d ∷◌) (snoc_append done h r)

-- A list from its end.
module _ {ℓ} {A : Type ℓ} where
  pub data Last : List A → Type ℓ where
    nothing : Last []
    last : (pre : List A) (k : A) → Last (pre ++ (k ∷ []))

  pub last_of : (ms : List A) → Last ms
  last_of [] = nothing
  last_of (m ∷ ms) = go ms (last_of ms)
    where
      go : (xs : List A) → Last xs → Last (m ∷ xs)
      go _ nothing = last [] m
      go _ (last pre k) = last (m ∷ pre) k
