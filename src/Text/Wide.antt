-- ===== src/Text/Wide.antt =====
-- util.c: next_widechar and prev_widechar, the steps of one UTF-8 character. A byte is below 256,
-- so a masked test such as `(c & 0xe0) == 0xc0` is a test of the quotient by the mask's lowest bit.
use fnav.Prelude.{
  ℕ, ◌/◌, ◌<◌, ◌≡◌, Bool, Option, none, some, List, [], ◌∷◌, ◌++◌, arith, ◌==◌, if◌then◌else◌,
  length, reverse,
}
use fnav.Text.{byte_at}

-- (c & 0xc0) == 0x80
abbrev is_cont : ℕ → Bool
is_cont c = c / 64 == 2

-- The bytes that the pointer moves on; the string is not empty, or the NUL is passed.
unfoldable pub next_widechar : List ℕ → ℕ
next_widechar s =
    if byte_at s 0 / 32 == 6
    then (if byte_at s 1 == 0 then 1 else 2)
    else if byte_at s 0 / 16 == 14
    then (if byte_at s 1 == 0 then 1 else if byte_at s 2 == 0 then 2 else 3)
    else if byte_at s 0 / 8 == 30
    then (if byte_at s 1 == 0
        then 1
        else if byte_at s 2 == 0
        then 2
        else if byte_at s 3 == 0
        then 3
        else 4)
    else 1

-- The bytes that the pointer moves back, over the bytes in front of it, the nearest first; `none` is
-- the NULL at the start of the string.
unfoldable pub prev_widechar : List ℕ → Option ℕ
prev_widechar [] = none
prev_widechar (a ∷ []) = some 1
prev_widechar (a ∷ b ∷ []) = if is_cont a then some 2 else some 1
prev_widechar (a ∷ b ∷ c ∷ []) =
    if is_cont a then (if is_cont b then some 3 else some 2) else some 1
prev_widechar (a ∷ b ∷ c ∷ d ∷ s) =
    if is_cont a
    then (if is_cont b then (if is_cont c then some 4 else some 3) else some 2)
    else some 1

-- The bytes of one encoded character.
pub data IsChar : List ℕ → Type 0 where
  one : {a : ℕ} → a < 128 → IsChar (a ∷ [])
  two : {a b : ℕ} → a / 32 ≡ 6 → b / 64 ≡ 2 → IsChar (a ∷ b ∷ [])
  three : {a b c : ℕ} → a / 16 ≡ 14 → b / 64 ≡ 2 → c / 64 ≡ 2 → IsChar (a ∷ b ∷ c ∷ [])
  four :
      {a b c d : ℕ}
      → a / 8 ≡ 30
      → b / 64 ≡ 2
      → c / 64 ≡ 2
      → d / 64 ≡ 2
      → IsChar (a ∷ b ∷ c ∷ d ∷ [])

-- Before an encoded character, whatever follows, `next_widechar` moves over exactly its bytes, and
-- behind it, whatever stands in front, `prev_widechar` moves back over exactly its bytes.
pub widechar_step :
    {u : List ℕ} (rest before : List ℕ)
    → IsChar u
    → (next_widechar (u ++ rest) ≡ length u)
      × (prev_widechar (reverse u ++ before) ≡ some (length u))
unfolding next_widechar prev_widechar byte_at
widechar_step rest [] (one h) = (ground arith, ground arith)
widechar_step rest (x ∷ []) (one h) = (ground arith, ground arith)
widechar_step rest (x ∷ y ∷ []) (one h) = (ground arith, ground arith)
widechar_step rest (x ∷ y ∷ z ∷ w) (one h) = (ground arith, ground arith)
widechar_step rest [] (two h k) = (ground arith, ground arith)
widechar_step rest (x ∷ []) (two h k) = (ground arith, ground arith)
widechar_step rest (x ∷ y ∷ w) (two h k) = (ground arith, ground arith)
widechar_step rest [] (three h k l) = (ground arith, ground arith)
widechar_step rest (x ∷ w) (three h k l) = (ground arith, ground arith)
widechar_step rest before (four h k l m) = (ground arith, ground arith)
