-- ===== src/Syntax/Parse/Lines.antt =====
-- cmdline.c: lines of words, quoted strings, lists and bars.
use fnav.Prelude.{
  ℕ, zero, suc, Bool, true, false, ◌&&◌, ◌||◌, Option, List, [], ◌∷◌, length, get_elem?, ◌≡◌, ◌<◌,
  ◌≤◌, refl, ℤ, pos, ◌+ℤ◌, arith,
}
use fnav.Syntax.{Token}
use fnav.Syntax.Parse.{
  Parts, Cmdstr, Cmds, Cmdline, append_parts, append_cmds, no_parts, part, no_cmds, command,
}
use fnav.Syntax.Parse.Loop.{first_is, parse_loop, after_command, build_loop, start_parser, finish}
use fnav.Syntax.Parse.Plain.{
  is_plain, is_bar, loop_goes, loop_leaves, loop_ends, again_at, add_part, Built, Built-after,
  Built-end, round_plain, round_bar, fits,
}
use fnav.Syntax.Parse.Lists.{
  At, At-head, At-next, At-peek, Items, no_items, item, comma, list_item, tokens_then, list_part,
  parts_of, is_symbol, well_formed, in_list, round_comma, with_arys,
}
use fnav.Syntax.Parse.Nested.{Passed, array-Passed}

-- A line by its parts.
pub data Line : Type 0 where
  end_of_line : Line
  argument : (t : Token) (next : Line) → Line
  separator : (t : Token) (next : Line) → Line
  bar : (t : Token) (next : Line) → Line
  array : (left right : Token) (items : Items) (next : Line) → Line

unfoldable pub line_tokens : Line → List Token
line_tokens end_of_line = []
line_tokens (argument t next) = t ∷ line_tokens next
line_tokens (separator t next) = t ∷ line_tokens next
line_tokens (bar t next) = t ∷ line_tokens next
line_tokens (array left right items next) = left ∷ tokens_then items (right ∷ line_tokens next)

unfoldable pub line_well_formed : Line → Bool
line_well_formed end_of_line = true
line_well_formed (argument t next) = is_plain t && line_well_formed next
line_well_formed (separator t next) =
    (is_symbol b',' t || is_symbol b'.' t) && line_well_formed next
line_well_formed (bar t next) = is_bar t && line_well_formed next
line_well_formed (array left right items next) =
    is_symbol b'[' left && is_symbol b']' right && well_formed items && line_well_formed next

-- The commands of the line: of each its arguments, its subexpressions, and whether a bar ends it. `ws`
-- are the arguments that the first has already.
unfoldable pub line_commands : Parts → Line → List (Parts × Cmds × Bool)
line_commands ws end_of_line = (ws, no_cmds, false) ∷ []
line_commands ws (argument t next) = line_commands (add_part t ws) next
line_commands ws (separator t next) = line_commands ws next
line_commands ws (bar t next) = (ws, no_cmds, true) ∷ line_commands no_parts next
line_commands ws (array left right items next) =
    line_commands (append_parts ws (part (list_part left right) (parts_of items) no_parts)) next

-- What the loop adds to the commands; but for the indices of lists the line is as before.
unfoldable pub IsBuilt :
    Option (Cmds × Cmdline) → Cmds → Cmdline → List (Parts × Cmds × Bool) → Type 0
IsBuilt r cmds cl spec = (a : List ℕ) × Built r cmds (with_arys cl a) spec

line_no_colon :
    (ln : Line) → line_well_formed ln ≡ true → first_is b':' (get_elem? (line_tokens ln) 0) ≡ false
unfolding line_well_formed line_tokens is_symbol is_plain is_bar
line_no_colon end_of_line h = refl
line_no_colon (argument t next) h = ground arith
line_no_colon (separator t next) h = ground arith
line_no_colon (bar t next) h = ground arith
line_no_colon (array left right items next) h = ground arith

argument_parts :
    (t : Token) (next : Line)
    → line_well_formed (argument t next) ≡ true
    → (is_plain t ≡ true) × (line_well_formed next ≡ true)
unfolding line_well_formed
argument_parts t next h = ground arith

separator_parts :
    (t : Token) (next : Line)
    → line_well_formed (separator t next) ≡ true
    → ((is_symbol b',' t || is_symbol b'.' t) ≡ true) × (line_well_formed next ≡ true)
unfolding line_well_formed
separator_parts t next h = ground arith

bar_parts :
    (t : Token) (next : Line)
    → line_well_formed (bar t next) ≡ true
    → (is_bar t ≡ true) × (line_well_formed next ≡ true)
unfolding line_well_formed
bar_parts t next h = ground arith

array_parts :
    (left right : Token) (its : Items) (next : Line)
    → line_well_formed (array left right its next) ≡ true
    → (is_symbol b'[' left ≡ true)
      × (is_symbol b']' right ≡ true)
      × (well_formed its ≡ true)
      × (line_well_formed next ≡ true)
unfolding line_well_formed
array_parts left right its next h = ground arith

At-fits : (cl : Cmdline) (i : ℕ) (ts : List Token) → At cl i ts → length ts < suc (length cl.tokens)
unfolding At
At-fits cl i ts (pre, e, p) = fits cl pre ts e

fewer : (its : Items) (k : List Token) → length k ≤ length (tokens_then its k)
unfolding tokens_then
fewer no_items k = omega arith
fewer (item t next) k = omega (arith, fewer next k)
fewer (comma t next) k = omega (arith, fewer next k)
fewer (list_item left right inner next) k =
    omega (arith, fewer inner (right ∷ tokens_then next k), fewer next k)

module _ (q : Bool) where
  pub line-IsBuilt :
      (ln : Line) (cl : Cmdline) (f1 f2 i : ℕ) (c : Cmdstr) (ws : Parts) (n : ℤ) (cmds : Cmds)
      → At cl i (line_tokens ln)
      → cl.lvl ≡ 0
      → line_well_formed ln ≡ true
      → c.bar ≡ false
      → length (line_tokens ln) < f1
      → length (line_tokens ln) < suc f2
      → IsBuilt
          (after_command (build_loop f2 q) cmds (parse_loop f1 q i (cl, in_list c [] ws n)))
          cmds
          cl
          (line_commands ws ln)
  unfolding finish start_parser line_tokens line_commands IsBuilt At Passed
  line-IsBuilt ln cl zero f2 i c ws n cmds at z h b l1 l2 = absurd (omega arith)
  line-IsBuilt (bar t next) cl (suc f1) zero i c ws n cmds at z h b l1 l2 = absurd (omega arith)
  line-IsBuilt end_of_line cl (suc f1) f2 i c ws n cmds at z h b l1 l2 = (
    cl.arys,
    Built-end cmds cl c ws (build_loop f2 q) _
        (loop_ends q f1 i cl (in_list c [] ws n) (At-peek cl i [] at)) b,
  )
  line-IsBuilt (argument t next) cl (suc f1) f2 i c ws n cmds at z h b l1 l2 =
      let w = argument_parts t next h in
      let at' = At-next cl i t (line_tokens next) at in
      let colon : first_is b':' (get_elem? cl.tokens (suc i)) ≡ false =
        rw (At-peek cl (suc i) (line_tokens next) at') (line_no_colon next w.1) in
      rw
        (loop_goes q f1 i i cl (in_list c [] ws n) t _ (At-head cl i t (line_tokens next) at)
          (round_plain cl c ws n i t w.0 colon))
        (line-IsBuilt next cl f1 f2 (suc i) c (add_part t ws) (n +ℤ pos 1) cmds at' z w.1 b
          (omega arith) (omega arith))
  line-IsBuilt (separator t next) cl (suc f1) f2 i c ws n cmds at z h b l1 l2 =
      let w = separator_parts t next h in
      rw
        (loop_goes q f1 i i cl (in_list c [] ws n) t _ (At-head cl i t (line_tokens next) at)
          (round_comma i t (cl, in_list c [] ws n) w.0))
        (line-IsBuilt next cl f1 f2 (suc i) c ws n cmds (At-next cl i t (line_tokens next) at) z w.1
          b (omega arith) (omega arith))
  line-IsBuilt (bar t next) cl (suc f1) (suc f2) i c ws n cmds at z h b l1 l2 =
      let w = bar_parts t next h in
      let head = At-head cl i t (line_tokens next) at in
      let at' = At-next cl i t (line_tokens next) at in
      let c' = record c { bar = true; ed = t.start } in
      let one = command (record c' { args = ws }) no_cmds no_cmds in
      let rest =
        line-IsBuilt next cl (suc (length cl.tokens)) f2 (suc i) ((start_parser q cl t.start).cmd)
          no_parts (pos 0) (append_cmds cmds one) at' z w.1 refl
          (At-fits cl (suc i) (line_tokens next) at') (omega arith) in
      (
        rest.0,
        rw
            (
              loop_leaves q f1 i cl cl (in_list c [] ws n) (in_list c' [] ws n) t head
                  (round_bar cl (in_list c [] ws n) i t w.0 z),
              again_at q f2 i cmds one cl t head,
            )
            (Built-after _ cmds (with_arys cl rest.0) c' ws (line_commands no_parts next) rest.1),
      )
  line-IsBuilt (array left right its next) cl (suc f1) f2 i c ws n cmds at z h b l1 l2 =
      let w = array_parts left right its next h in
      let p =
        array-Passed q left right its (line_tokens next) cl c ws n f1 i w.0 w.1 w.2 at
          (omega arith) in
      rw p.4 (
        line-IsBuilt next (with_arys cl p.0) p.3 f2 p.1 c _ p.2 cmds p.5 z w.3 b p.6
          (omega (arith, fewer its (right ∷ line_tokens next))))
