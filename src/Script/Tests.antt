-- ===== src/Script/Tests.antt =====
-- cmd.c: blocks evaluated on concrete scripts. A line is one number; the conditions are 1 and 0, and
-- the environment is the list of the lines that were executed, the latest first.
use fnav.Prelude.{
  ℕ, ◌++◌, if◌then◌else◌, arith, pos, ◌≡◌, refl, Bool, true, false, Option, none, some, List, [],
  ◌∷◌, ◌==◌,
}
use fnav.Script.{
  Event, begin, other, close, text, Nvs, start_nvs, cmd_evals, cmd_eval, eval_event, eval_text,
  cmd_ifblock, cmd_elseblock, cmd_endblock, close_block, cmd_start, cmd_loop, cmd_step, branch,
  find_from, stack_push, end_ahead, modify, cmd_next, cmd_flush, cmd_reset, cmd_loop, first_child,
  root,
}
use fnav.Script.Callstack.{Callstack}
use fnav.Script.Tape.{effect}
use fnav.Script.Blocks.{texts, runs}
use fnav.Script.Blocks.Record.{if_else_runs}
use fnav.Script.Nesting.Record.{nested_if_runs}
use fnav.Script.Hang.{hang_script, Rounds, script_hangs}

abbrev log_line : List ℕ → List (List ℕ) → List (List ℕ)
log_line l e = l ∷ e

abbrev truth : List ℕ → List (List ℕ) → Option Bool × List (List ℕ)
truth [] e = (some false, e)
truth (c ∷ _) e = (some (c == 1), e)

abbrev ran : List Event → Option (List (List ℕ))
unfolding cmd_evals cmd_eval eval_event eval_text cmd_ifblock cmd_elseblock cmd_endblock close_block
    cmd_start cmd_loop cmd_step branch find_from stack_push end_ahead modify cmd_next cmd_flush
    cmd_reset start_nvs
ran evs = elim (cmd_evals log_line truth evs (start_nvs, [])) [ none ↦ none | some (_, e) ↦ some e ]

abbrev line : ℕ → Event
line n = text (n ∷ [])

abbrev test : ℕ → Event
test n = begin [] (n ∷ [])

if_else_test :
    ran (test 1 ∷ line 5 ∷ line 6 ∷ other [] [] ∷ line 7 ∷ close [] ∷ line 8 ∷ [])
    ≡ some ((8 ∷ []) ∷ (6 ∷ []) ∷ (5 ∷ []) ∷ [])
unfolding cmd_evals cmd_eval eval_event eval_text cmd_ifblock cmd_elseblock cmd_endblock close_block
    cmd_start cmd_loop cmd_step branch find_from stack_push end_ahead modify cmd_next cmd_flush
    cmd_reset start_nvs
if_else_test = refl

nested_test :
    ran (test 1 ∷ test 1 ∷ line 5 ∷ close [] ∷ line 6 ∷ close [] ∷ line 8 ∷ [])
    ≡ some ((8 ∷ []) ∷ (5 ∷ []) ∷ [])
unfolding cmd_evals cmd_eval eval_event eval_text cmd_ifblock cmd_elseblock cmd_endblock close_block
    cmd_start cmd_loop cmd_step branch find_from stack_push end_ahead modify cmd_next cmd_flush
    cmd_reset start_nvs
nested_test = refl

second_test :
    ran (test 1 ∷ line 5 ∷ close [] ∷ test 1 ∷ line 6 ∷ close [] ∷ line 8 ∷ [])
    ≡ some ((8 ∷ []) ∷ (5 ∷ []) ∷ (5 ∷ []) ∷ [])
unfolding cmd_evals cmd_eval eval_event eval_text cmd_ifblock cmd_elseblock cmd_endblock close_block
    cmd_start cmd_loop cmd_step branch find_from stack_push end_ahead modify cmd_next cmd_flush
    cmd_reset start_nvs
second_test = refl

abbrev yes_line : List ℕ
yes_line = 1 ∷ []

abbrev no_line : List ℕ
no_line = 0 ∷ []

abbrev two_lines : List (List ℕ)
two_lines = (5 ∷ []) ∷ (6 ∷ []) ∷ []

abbrev one_line : List (List ℕ)
one_line = (7 ∷ []) ∷ []

if_else_runs_example :
    effect (
      cmd_evals log_line truth
        (begin yes_line yes_line
          ∷ (texts two_lines ++ (other [] [] ∷ (texts one_line ++ (close [] ∷ [])))))
        (start_nvs, []))
    ≡ some (if true then runs log_line truth two_lines [] else runs log_line truth one_line [])
if_else_runs_example =
    if_else_runs log_line truth true yes_line yes_line [] [] [] two_lines one_line [] []
      (omega arith) refl

nested_if_runs_example :
    effect (
      cmd_evals log_line truth
        (begin yes_line yes_line
          ∷ begin no_line no_line
          ∷ (texts two_lines ++ (close [] ∷ (texts one_line ++ (close [] ∷ [])))))
        (start_nvs, []))
    ≡ some (if false then runs log_line truth two_lines [] else runs log_line truth one_line [])
nested_if_runs_example =
    nested_if_runs log_line truth false yes_line yes_line no_line no_line [] [] two_lines one_line
      [] [] [] (omega arith) refl refl

abbrev endless : List Event
endless = hang_script yes_line no_line no_line yes_line no_line (5 ∷ []) (6 ∷ []) (7 ∷ []) (8 ∷ [])

script_hangs_example :
    (s : Nvs) × (u : Nvs) × (cmd_evals log_line truth endless (start_nvs, []) ≡ some (s, []))
    × (close_block (record s { lvl = pos 0 }) ≡ some u)
    × (first_child u.tape root ≡ some 0)
    × ((n : ℕ)
        → Rounds log_line truth n u.tape 0 []
          × (cmd_loop log_line truth n u.tape (some 0) [] ≡ none))
script_hangs_example =
    script_hangs yes_line no_line no_line yes_line no_line (5 ∷ []) (6 ∷ []) (7 ∷ []) (8 ∷ [])
      log_line truth [] [] [] [] [] [] refl refl refl refl refl

-- The scope of a module on top of nothing.
abbrev in_module : Callstack
in_module = record { top = some 0; parent = λ b. b; cleared = [] }
