-- ===== src/Prompt/Tests.antt =====
-- tui/ex_cmd.c: a prompt with `ls fo`, with the cursor at its end.
use fnav.Prelude.{
  ℕ, ◌≡◌, refl, inr, true, Option, none, some, List, [], ◌∷◌, codes, pos, arith, reverse, take,
}
use fnav.Text.{byte_at}
use fnav.Text.Wide.{IsChar}
use fnav.Prompt.{ex_bckspc, ex_getchar, Ex, Near, Action, ex_killword, run_key, count_blanks}
use fnav.Prompt.Edit.{ex_bckspc-ex_getchar}
use fnav.Prompt.Words.{Cut, ex_killword-Cut}
use fnav.Prompt.Keeps.{CanRun, HasWord, IsValid, run_key-IsValid}

-- A byte is a column.
abbrev one_each : List ℕ → Option (ℕ × ℕ)
one_each s = some (1, 1)

abbrev at_root : Near
at_root = record { cur_pos = pos 3 }

abbrev ls_fo : Ex
ls_fo = record {
  line = codes "ls fo";
  curofs = 5;
  curpos = pos 5;
  maxpos = 78;
  cmd_state = true;
  state = 16;
  menu = [];
}

abbrev blank : Ex
blank = record ls_fo { line = codes "  "; curofs = 2; curpos = pos 2 }

ls_fo-IsValid : IsValid ls_fo
ls_fo-IsValid = record { cursor = omega arith; fits = omega arith }

-- ex_killword reads in front of a line of two blanks.
blanks_fault : ex_killword one_each at_root blank ≡ none
unfolding ex_killword count_blanks byte_at
blanks_fault = refl

e_acute-IsChar : IsChar (195 ∷ 169 ∷ [])
e_acute-IsChar = IsChar.two (omega arith) (omega arith)

ex_bckspc-ex_getchar_example :
    (ex' : Ex) × (ex_bckspc one_each at_root
        (ex_getchar one_each (pos 0) (some (195 ∷ 169 ∷ [])) ls_fo)
      ≡ some ex')
    × (ex'.line ≡ ls_fo.line)
    × (ex'.curofs ≡ ls_fo.curofs)
    × (ex'.curpos ≡ ls_fo.curpos)
ex_bckspc-ex_getchar_example =
    ex_bckspc-ex_getchar one_each at_root 0 (195 ∷ 169 ∷ []) ls_fo (omega arith) e_acute-IsChar

two_letters : count_blanks (reverse (take 5 ls_fo.line)) ≡ some 0
unfolding count_blanks
two_letters = refl

ex_killword-Cut_example :
    (ex' : Ex) × (ex_killword one_each at_root ls_fo ≡ some ex') × Cut ls_fo ex'
ex_killword-Cut_example =
    ex_killword-Cut one_each at_root ls_fo 0 (omega arith) (omega arith) two_letters

run_key-IsValid_example :
    (ex' : Ex) × (run_key one_each at_root Action.killword ls_fo ≡ some ex') × IsValid ex'
unfolding CanRun HasWord
run_key-IsValid_example =
    run_key-IsValid one_each at_root Action.killword ls_fo ls_fo-IsValid (inr (0, two_letters))
