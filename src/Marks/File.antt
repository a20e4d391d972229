-- ===== src/Marks/File.antt =====
-- info.c: the marks of the info file, written and read again.
use fnav.Prelude.{ℕ, ◌≡◌, ◌≢◌, none, List, [], ◌∷◌, ◌++◌, All}
use fnav.Marks.{Mark, find_path}

-- A text of one byte or more, none of them a space.
abbrev pub IsWord : List ℕ → Type 0
IsWord [] = ⊥
IsWord (c ∷ s) = All (λ d. d ≢ 32) (c ∷ s)

-- The key of a label is `@` and a label without a space; its path is not empty and has no space.
abbrev pub IsLabelKey : List ℕ → Type 0
IsLabelKey [] = ⊥
IsLabelKey (c ∷ s) = (c ≡ 64) × All (λ d. d ≢ 32) s

pub record IsLabelMark (m : Mark) : Type 0 where
  pub keyed : IsLabelKey m.key
  pub pathed : IsWord m.path

-- No key of the second table is in the first, or before its entry.
abbrev pub AreNew : List Mark → List Mark → Type 0
AreNew acc [] = Unit
AreNew acc (m ∷ tbl) = (find_path m.key acc ≡ none) × AreNew (acc ++ (m ∷ [])) tbl
