-- ===== src/History/Tests.antt =====
-- tui/history.c: the histories on concrete sessions.
use fnav.Prelude.{ℕ, ◌≡◌, refl, ◌||◌, if◌then◌else◌, none, some, List, [], ◌∷◌, ◌++◌, arith, ltb}
use fnav.History.{
  Item, Hist, cmds, Histories, hist_init, hist_new, current, hist_insert, hist_push, hist_save,
  hist_prev, hist_next, insert_line, lines_of, last, same_line, hist_set_state, hst_chk_limits,
  Call, push, save, put_back, call, calls, hist_pop,
}
use fnav.History.Keeps.{IsHist, IsValid}
use fnav.History.Calls.{calls-IsValid}
use fnav.History.Session.{session, kept}

abbrev line_a : List ℕ
line_a = 97 ∷ []

abbrev line_b : List ℕ
line_b = 98 ∷ []

-- Two lines, at the newer one and at the older one.
abbrev two_items : List Item
two_items = record { id = 0; line = line_a } ∷ record { id = 1; line = line_b } ∷ []

abbrev at_newer : Hist
at_newer = record { p = two_items; cur = some 1; count = 2; max = 5 }

abbrev at_older : Hist
at_older = record { p = two_items; cur = some 0; count = 2; max = 5 }

at_newer-IsHist : IsHist 2 at_newer
at_newer-IsHist = record { rising = ground arith; counted = refl }

at_older-IsHist : IsHist 2 at_older
at_older-IsHist = record { rising = ground arith; counted = refl }

newer-prev : hist_prev at_newer ≡ some (some line_a, at_older)
unfolding hist_prev
newer-prev = refl

older-next : hist_next at_older ≡ some (some line_b, at_newer)
unfolding hist_next
older-next = refl

abbrev filled : Histories
filled = record { cmd_hist = at_newer; reg_hist = hist_new 5; which = cmds; next_id = 2; limit = 5 }

filled-IsValid : IsValid filled
unfolding hist_new
filled-IsValid = record {
  cmd_ok = at_newer-IsHist;
  reg_ok = record { rising = omega arith; counted = refl };
}

session_example :
    (h' : Hist) × (hist_save line_b 1 (current (hist_push cmds filled)) ≡ some h')
    × (lines_of h'.p ≡ (
        if same_line (last (kept 5 two_items)) line_b || ltb 1 1
        then lines_of (kept 5 two_items)
        else lines_of (kept 5 two_items) ++ (line_b ∷ [])))
session_example = session cmds line_b 1 filled (omega arith) refl filled-IsValid

abbrev tiny : Histories
tiny = record {
  cmd_hist = record { p = []; cur = none; count = 0; max = 1 };
  reg_hist = hist_new 1;
  which = cmds;
  next_id = 0;
  limit = 1;
}

-- The command line opened and left once.
abbrev one_session : List Call
one_session = push cmds ∷ save line_a 1 ∷ []

abbrev after_one : Histories
after_one = record {
  cmd_hist = record { p = record { id = 0; line = line_a } ∷ []; cur = some 0; count = 1; max = 5 };
  reg_hist = record { p = []; cur = none; count = 0; max = 5 };
  which = cmds;
  next_id = 1;
  limit = 5;
}

one_session_run : calls one_session (hist_init 5) ≡ some after_one
unfolding hist_init hist_new calls call put_back hist_push hist_insert hist_set_state insert_line
    hst_chk_limits hist_save hist_pop
one_session_run = refl

calls-IsValid_example : IsValid after_one
calls-IsValid_example = calls-IsValid 5 one_session after_one one_session_run
