-- ===== src/Marks.antt =====
-- info.c: the two tables of marks and the lines of the info file. A hash table is the list of its
-- entries in the order of insertion, in which uthash iterates. `none` is a fault: strdup of NULL, or
-- the first line of an empty history.
pub mod Table
pub mod File
mod Tests
use fnav.Prelude.{
  ℕ, zero, suc, ◌+◌, ◌-◌, ◌%◌, ℤ, pos, negsuc, Bool, true, false, Option, none, some, List, [], ◌∷◌,
  ◌++◌, ◌==◌, if◌then◌else◌, length, str_eq,
}
use fnav.Text.{byte_at}
use fnav.History.{
  Which, cmds, Hist, Histories, current, hist_set_state, hist_insert, hist_first, hist_next,
}

-- nv_mark
pub record Mark : Type 0 where
  pub key : List ℕ
  pub path : List ℕ

-- HASH_FIND_STR, the path that it finds.
pub find_path : List ℕ → List Mark → Option (List ℕ)
find_path key [] = none
find_path key (m ∷ tbl) = elim (str_eq m.key key) [ true ↦ some m.path | false ↦ find_path key tbl ]

-- mark_del of the entry with a key, if there is one.
pub mark_del : List ℕ → List Mark → List Mark
mark_del key [] = []
mark_del key (m ∷ tbl) = elim (str_eq m.key key) [ true ↦ tbl | false ↦ m ∷ mark_del key tbl ]

-- The common end of mark_label_dir and mark_chr_str.
pub put_mark : List ℕ → List ℕ → List Mark → List Mark
put_mark key dir tbl = mark_del key tbl ++ (record { key = key; path = dir } ∷ [])

-- The key of a label: one `@` in front of it is its own.
pub label_key : List ℕ → List ℕ
label_key [] = 64 ∷ []
label_key (c ∷ label) = elim (c == 64) [ true ↦ 64 ∷ label | false ↦ 64 ∷ c ∷ label ]

-- mark_label_dir
pub mark_label_dir : List ℕ → List ℕ → List Mark → List Mark
mark_label_dir label dir lbl_marks = put_mark (label_key label) dir lbl_marks

-- The byte that `%c` prints of an int.
unfoldable pub byte_of : ℤ → ℕ
byte_of (pos n) = n % 256
byte_of (negsuc n) = 255 - n % 256

-- The string "'%c"; a NUL ends it.
unfoldable pub chr_key : ℤ → List ℕ
chr_key chr = if byte_of chr == 0 then 39 ∷ [] else 39 ∷ byte_of chr ∷ []

-- mark_chr_str
pub mark_chr_str : ℤ → List ℕ → List Mark → List Mark
mark_chr_str chr dir chr_marks = put_mark (chr_key chr) dir chr_marks

-- mark_path and mark_str
pub mark_path : List ℕ → List Mark → Option (List ℕ)
mark_path key lbl_marks = find_path key lbl_marks

pub mark_str : ℤ → List Mark → Option (List ℕ)
mark_str chr chr_marks = find_path (chr_key chr) chr_marks

-- mark_strchr_str, where the path is not NULL.
pub mark_strchr_str : List ℕ → List ℕ → List Mark → List Mark
mark_strchr_str str dir chr_marks =
    if length str == 2 then mark_chr_str (pos (byte_at str 1)) dir chr_marks else chr_marks

-- strtok with " ": the bytes in front of the next space, and what is behind it.
pub skip_spaces : List ℕ → List ℕ
skip_spaces [] = []
skip_spaces (c ∷ s) = elim (c == 32) [ true ↦ skip_spaces s | false ↦ c ∷ s ]

pub word : List ℕ → List ℕ
word [] = []
word (c ∷ s) = elim (c == 32) [ true ↦ [] | false ↦ c ∷ word s ]

pub behind_word : List ℕ → List ℕ
behind_word [] = []
behind_word (c ∷ s) = elim (c == 32) [ true ↦ s | false ↦ behind_word s ]

pub strtok : List ℕ → Option (List ℕ × List ℕ)
unfolding skip_spaces word behind_word
strtok s = elim (skip_spaces s) [ [] ↦ none | c ∷ t ↦ some (word (c ∷ t), behind_word (c ∷ t)) ]

-- The two words of a line.
pub two_words : List ℕ → Option (List ℕ × List ℕ)
two_words line = elim (strtok line) [
  | none ↦ none
  | some (label, rest) ↦ elim (strtok rest) [ none ↦ none | some (dir, _) ↦ some (label, dir) ]
]

-- The state that the info file is read into and written from.
pub record Info : Type 0 where
  pub lbl_marks : List Mark
  pub chr_marks : List Mark
  pub hists : Histories

-- info_parse of a line. A mark of one character keeps its line if its name has another length, but
-- `strdup` meets NULL only behind that test.
pub info_parse : List ℕ → Info → Option Info
info_parse line s =
    if byte_at line 0 == 64
    then elim (two_words line) [
      | none ↦ none
      | some (label, dir) ↦ some (record s { lbl_marks = mark_label_dir label dir s.lbl_marks })
    ]
    else if byte_at line 0 == 39
    then chr_line (strtok line)
    else if byte_at line 0 == 58
    then some (record s { hists = hist_insert cmds (tail line) s.hists })
    else some s
  where
    tail : List ℕ → List ℕ
    tail [] = []
    tail (c ∷ l) = l

    chr_line : Option (List ℕ × List ℕ) → Option Info
    chr_line none = none
    chr_line (some (label, rest)) = elim (strtok rest) [
      | none ↦ if length label == 2 then none else some s
      | some (dir, _) ↦ some (record s { chr_marks = mark_strchr_str label dir s.chr_marks })
    ]

pub info_parse_all : List (List ℕ) → Info → Option Info
info_parse_all [] s = some s
info_parse_all (l ∷ ls) s = elim (info_parse l s) [ none ↦ none | some t ↦ info_parse_all ls t ]

-- write_mark_info: a line for each entry, without its newline.
pub write_mark_info : List Mark → List (List ℕ)
write_mark_info [] = []
write_mark_info (m ∷ tbl) = (m.key ++ (32 ∷ m.path)) ∷ write_mark_info tbl

-- The loop of write_hist_info, from a line on, with fuel.
pub write_lines : ℕ → Option (List ℕ) → Hist → Option (List (List ℕ))
write_lines fuel none h = some []
write_lines zero (some line) h = none
write_lines (suc fuel) (some line) h = elim (hist_next h) [
  | none ↦ none
  | some (next, h') ↦ elim (write_lines fuel next h') [
    | none ↦ none
    | some ls ↦ some ((58 ∷ line) ∷ ls)
  ]
]

pub write_hist_info : ℕ → Histories → Option (List (List ℕ))
write_hist_info fuel s = elim (hist_first (current (hist_set_state cmds s))) [
  | none ↦ none
  | some (line, h) ↦ write_lines fuel (some line) h
]

-- info_write_file
pub info_write_file : ℕ → Info → Option (List (List ℕ))
info_write_file fuel s = elim (write_hist_info fuel s.hists) [
  | none ↦ none
  | some ls ↦ some (write_mark_info s.lbl_marks ++ (write_mark_info s.chr_marks ++ ls))
]
