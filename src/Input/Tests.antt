-- ===== src/Input/Tests.antt =====
-- event/input.c: concrete tables and keys.
use fnav.Prelude.{
  codes, ℕ, zero, suc, ◌≤◌, ◌<◌, ◌≡◌, refl, Bool, true, false, Option, none, some, List, [], ◌∷◌,
  arith, ℤ, pos, negsuc, get_elem?,
}
use fnav.Text.Search.{tolower_asc}
use fnav.Input.{
  get_special_key_code, special_key_code, key_names_table, name_matches, termcap2key, NvKey, Keyarg,
  no_oparg, nch, char_at, linear_from, input_setup_tbl, find_command, search, op_pending,
  find_do_op,
}
use fnav.Input.Search.{IsSorted}
use fnav.Input.Linear.{Finds, find_command-Finds}
use fnav.Input.Keys.{Ended, find_do_op-ends}

-- The name of the delete key begins with the name of the backspace key.
delete_is_backspace : get_special_key_code (codes "Delete") ≡ pos 8
unfolding get_special_key_code special_key_code key_names_table name_matches tolower_asc
delete_is_backspace = refl

up_key : get_special_key_code (codes "up") ≡ negsuc 30058
unfolding get_special_key_code special_key_code key_names_table name_matches tolower_asc termcap2key
up_key = refl

abbrev command : ℤ → NvKey
command c = record { cmd_char = c; cmd_flags = 0; cmd_arg = 0 }

-- The key up and j: the index is in the order of the magnitudes.
abbrev commands : List NvKey
commands = command (negsuc 30058) ∷ command (pos 106) ∷ []

abbrev index : List ℕ
index = 1 ∷ 0 ∷ []

index_full : (i : ℕ) → i < 2 → (c : ℕ) × (char_at commands index i ≡ some c)
unfolding char_at
index_full zero h = (106, refl)
index_full (suc zero) h = (30059, refl)
index_full (suc (suc i)) h = absurd (omega arith)

index_ordered :
    (i j a b : ℕ)
    → i ≤ j
    → char_at commands index i ≡ some a
    → char_at commands index j ≡ some b
    → a ≤ b
unfolding char_at
index_ordered zero zero a b h e k = ground arith
index_ordered zero (suc zero) a b h e k = ground arith
index_ordered (suc i) zero a b h e k = absurd (omega arith)
index_ordered (suc zero) (suc zero) a b h e k = ground arith
index_ordered (suc (suc i)) (suc j) a b h e k = absurd (ground arith)
index_ordered zero (suc (suc j)) a b h e k = absurd (ground arith)
index_ordered (suc zero) (suc (suc j)) a b h e k = absurd (ground arith)

index_complete : (j : ℕ) → j < 2 → (i : ℕ) × (get_elem? index i ≡ some j)
index_complete zero h = (1, refl)
index_complete (suc zero) h = (0, refl)
index_complete (suc (suc j)) h = absurd (omega arith)

index-IsSorted : IsSorted commands index
index-IsSorted = record { full = index_full; ordered = index_ordered; complete = index_complete }

command_up : find_command (input_setup_tbl 0 commands index) (negsuc 30058) ≡ some (some 0)
unfolding find_command input_setup_tbl linear_from search char_at
command_up = refl

find_command-Finds_example :
    (r : Option ℕ) × (find_command (input_setup_tbl 0 commands index) (pos 106) ≡ some r)
    × Finds commands (pos 106) r
find_command-Finds_example = find_command-Finds 0 commands index index-IsSorted (pos 106)

abbrev no_keys : Keyarg
no_keys = record {
  optbl = none;
  oap = no_oparg;
  opcount = 0;
  type = 0;
  key = pos 0;
  nkey = pos 0;
  mkey = pos 0;
  arg = 0;
}

abbrev ignore : ℕ → Keyarg → ℕ → Keyarg × ℕ
ignore f ca s = (ca, suc s)

-- The operator 1 is pending, with y for its key.
abbrev yank : Keyarg
yank = record no_keys { type = nch; nkey = pos 121; oap = record { key = 1; is_unused = false } }

yank_pending : op_pending yank ≡ true
unfolding op_pending
yank_pending = refl

find_do_op-ends_example :
    (r : Bool × (Keyarg × ℕ)) × (find_do_op {S = ℕ} ignore ignore (λ s. s) yank 0 ≡ some r)
    × Ended {S = ℕ} ignore ignore (λ s. s) yank 0 r
find_do_op-ends_example = find_do_op-ends {S = ℕ} ignore ignore (λ s. s) yank 0 yank_pending
