-- ===== src/Select/Fill.antt =====
-- tui/select.c: the loops that set a range of lines.
use fnav.Prelude.{
  ℕ, zero, suc, ◌+◌, ◌≤◌, ◌<◌, ◌≡◌, refl, Bool, ◌&&◌, some, List, arith, leb, ltb, ◌==◌,
  if◌then◌else◌, length, get_elem?, set, length-set, get_elem?-set_self, get_elem?-set_ne,
  get_elem?-lt, Bool-cases, inl, inr,
}
use fnav.Select.{fill}

-- `r` is `ls` with `v` at the `n` indices from `i` on.
pub record IsFilled (i n : ℕ) (v : Bool) (ls r : List Bool) : Type 0 where
  pub len : length r ≡ length ls
  pub at : (j : ℕ) → get_elem? r j ≡ (if leb i j && ltb j (i + n) then some v else get_elem? ls j)

pub set_at :
    (ls : List Bool) (i j : ℕ) (v : Bool)
    → i < length ls
    → get_elem? (set ls i v) j ≡ (if i == j then some v else get_elem? ls j)
set_at ls i j v h = elim (Bool-cases (i == j)) [
  | inl e ↦ let e' : j ≡ i = ground arith in rw (e, e') (get_elem?-set_self ls i v h)
  | inr e ↦ rw e (get_elem?-set_ne ls i j v (ground arith))
]

pub fill-IsFilled :
    (n i : ℕ) (v : Bool) (ls : List Bool)
    → i + n ≤ length ls
    → (r : List Bool) × (fill n i v ls ≡ some r) × IsFilled i n v ls r
unfolding fill
fill-IsFilled zero i v ls h = (ls, refl, record { len = refl; at = λ j. ground arith })
fill-IsFilled (suc n) i v ls h =
    let (x, e) = get_elem?-lt ls i (omega arith) in
    let (r, f, g) = fill-IsFilled n (suc i) v (set ls i v) (omega (arith, length-set ls i v)) in
    (
      r,
      ground arith,
      record {
        len = omega (arith, g.len, length-set ls i v);
        at = λ j. ground (arith, g.at j, set_at ls i j v (omega arith));
      },
    )
