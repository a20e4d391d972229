-- ===== src/Marks/Tests.antt =====
-- info.c: concrete marks.
use fnav.Prelude.{pos, ◌≡◌, ◌==◌, refl, none, some, List, [], ◌∷◌, if◌then◌else◌, str_eq}
use fnav.History.{cmds}
use fnav.Marks.{
  byte_of, Mark, find_path, label_key, mark_label_dir, mark_path, mark_chr_str, mark_str, Info,
  two_words, strtok, skip_spaces, word, behind_word,
}
use fnav.Marks.Table.{Distinct, marks_set}

-- @a /x, @b /y
abbrev mark_a : Mark
mark_a = record { key = 64 ∷ 97 ∷ []; path = 47 ∷ 120 ∷ [] }

abbrev mark_b : Mark
mark_b = record { key = 64 ∷ 98 ∷ []; path = 47 ∷ 121 ∷ [] }

abbrev table : List Mark
table = mark_a ∷ mark_b ∷ []

table-Distinct : Distinct table
unfolding find_path str_eq
table-Distinct = (refl, (refl, tt))

-- The label a gets the path of b; the character a is set for the first time.
marks_set_example :
    (mark_path mark_a.key (mark_label_dir (97 ∷ []) mark_b.path table) ≡ (
      if str_eq (label_key (97 ∷ [])) mark_a.key
      then some mark_b.path
      else mark_path mark_a.key table))
    × Distinct (mark_label_dir (97 ∷ []) mark_b.path table)
    × (mark_str (pos 98) (mark_chr_str (pos 97) mark_b.path [])
        ≡ (if byte_of (pos 97) == byte_of (pos 98) then some mark_b.path else mark_str (pos 98) []))
    × Distinct (mark_chr_str (pos 97) mark_b.path [])
marks_set_example =
    marks_set (97 ∷ []) mark_b.path mark_a.key (pos 97) (pos 98) table [] table-Distinct tt

abbrev empty_info : Info
empty_info = record {
  lbl_marks = [];
  chr_marks = [];
  hists = record {
    cmd_hist = record { p = []; cur = none; count = 0; max = 5 };
    reg_hist = record { p = []; cur = none; count = 0; max = 5 };
    which = cmds;
    next_id = 0;
    limit = 5;
  };
}

-- A path with a space is read up to the space: @a /x y
cut_path : two_words (64 ∷ 97 ∷ 32 ∷ 47 ∷ 120 ∷ 32 ∷ 121 ∷ []) ≡ some (64 ∷ 97 ∷ [], 47 ∷ 120 ∷ [])
unfolding two_words strtok skip_spaces word behind_word
cut_path = refl
