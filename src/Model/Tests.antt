-- ===== src/Model/Tests.antt =====
-- model.c and filter.c: concrete models.
use fnav.Prelude.{
  ℕ, ◌≡◌, refl, true, false, none, some, List, [], ◌∷◌, ℤ, pos, negsuc, codes, str_eq,
  if◌then◌else◌, arith,
}
use fnav.Cursor.{Buf}
use fnav.Cursor.Move.{at_lines}
use fnav.Model.{
  Model, Lis, SortEnt, filter_build, regex_match, refit, has_value, model_sort, sort_refit,
  model_set_prev, model_curs_value,
}
use fnav.Model.Filter.{matching, left_out, filter_build-matching}
use fnav.Model.Refit.{Shows, refit-inside}
use fnav.Model.Sort.{OnValue, model_sort-OnValue}

abbrev by_name : SortEnt
by_name = record { i = pos 0; rev = false }

abbrev names : List (List ℕ)
names = codes "b" ∷ codes "ab" ∷ codes "c" ∷ []

-- A record is its name; the cursor is on the second line.
abbrev three : Model (List ℕ)
three = record {
  lines = names;
  cur = some (codes "ab");
  head = some names;
  blocking = false;
  pfval = none;
  plnum = pos 0;
  ptop = pos 0;
  sort = by_name;
}

-- A pattern that matches a "b" at the start or behind one byte.
abbrev has_b : List ℕ → ℤ
has_b [] = negsuc 0
has_b (c ∷ s) =
    if str_eq (c ∷ []) (codes "b") then pos 1 else if str_eq s (codes "b") then pos 1 else negsuc 0

filter_build-matching_example :
    filter_build some has_b three
    ≡ some (record three { lines = matching some has_b names }, left_out some has_b names)
filter_build-matching_example = filter_build-matching some has_b three names refl

names_left : matching some has_b names ≡ codes "b" ∷ codes "ab" ∷ []
unfolding matching regex_match str_eq
names_left = refl

refit-inside_example : (i : ℕ) × Shows 3 2 i (refit (pos 3) (pos 2) (pos 9, pos 7))
refit-inside_example = refit-inside 3 2 9 7 (omega arith) (omega arith)

abbrev sorted : List (List ℕ) → List (List ℕ)
sorted ls = codes "ab" ∷ codes "b" ∷ codes "c" ∷ []

model_sort-OnValue_example :
    (s : Model (List ℕ) × Buf) × (model_sort
        (λ n. n)
        (λ v. true)
        (λ ls v. some 0)
        sorted
        (three, at_lines 1 0 5 (pos 0))
      ≡ some s)
    × OnValue (λ n. n) (sorted names) (codes "ab") 5 s
unfolding has_value str_eq
model_sort-OnValue_example =
    model_sort-OnValue (λ n. n) (λ v. true) (λ ls v. some 0) sorted three (codes "ab") 1 0 5 0 0
      (pos 0) refl refl (omega arith) refl refl refl

-- A sort of a model without a current record and an old value is a fault.
sort_without_record :
    model_sort
      (λ n. n)
      (λ v. true)
      (λ ls v. some 0)
      sorted
      (record three { cur = none }, at_lines 0 0 5 (pos 0))
    ≡ none
unfolding model_sort sort_refit model_set_prev model_curs_value
sort_without_record = refl

abbrev listed : Lis (List ℕ)
listed = record { rec = some (codes "b"); index = pos 0; lnum = pos 0; fval = [] }
