-- ===== src/Syntax/Parse/Variable.antt =====
-- cmdline.c: a variable as the first word of a line.
use fnav.Prelude.{
  ℕ, suc, Bool, true, ◌&&◌, ◌||◌, not, some, List, [], ◌∷◌, ◌==◌, length, ◌≡◌, refl, pos, arith,
}
use fnav.Syntax.{Token, tokenchars}
use fnav.Syntax.Parse.{Cmds, Cmdline, Parser, no_parts, no_cmds, append_cmds}
use fnav.Syntax.Parse.Loop.{
  goes_on, round, switch, exec_or_word, touches_first, is_var, mark_var, has_one_of, expanchars,
  build_loop, start_parser, start_line, cmdline_build,
}
use fnav.Syntax.Parse.Plain.{first, cmds_list, Built, loop_goes}
use fnav.Syntax.Parse.Lists.{At, with_arys}
use fnav.Syntax.Parse.Lines.{
  Line, line_tokens, line_well_formed, line_commands, IsBuilt, line-IsBuilt,
}

-- The two tokens of a variable: the symbol, and behind it without a gap a name.
unfoldable pub is_variable : Token → Token → Bool
is_variable symbol name =
    not symbol.quoted
    && ((first symbol == b'$') || (first symbol == b'%'))
    && (name.start == symbol.end)
    && (has_one_of expanchars name.v_string || not (has_one_of tokenchars name.v_string))

module _ (q : Bool) (line : List ℕ) (symbol name : Token) (ln : Line) where
  abbrev marked : Cmdline
  marked = start_line line (symbol ∷ record name { symb = first symbol } ∷ line_tokens ln)

  abbrev reversed : Cmdline → Parser
  reversed cl = record (start_parser q cl 0) {
    cmd = record ((start_parser q cl 0).cmd) { rev = true };
  }

  round_variable :
      is_variable symbol name ≡ true
      → round 0 symbol (
        start_line line (symbol ∷ name ∷ line_tokens ln),
        start_parser q (start_line line (symbol ∷ name ∷ line_tokens ln)) 0,
      )
        ≡ some (goes_on 1 (marked, reversed (start_line line (symbol ∷ name ∷ line_tokens ln))))
  unfolding round is_variable switch is_var exec_or_word touches_first mark_var start_line
      start_parser
  round_variable h = ground arith

  -- A line that begins with a variable and goes on with words and quoted strings that do not begin
  -- with a colon, lists of them however deep, the separators comma and dot, and bars: cmdline_build
  -- returns, and the variable is neither an argument nor among the variables of the line; the
  -- commands are those of the line behind it.
  pub cmdline_build-leading_variable :
      is_variable symbol name ≡ true
      → line_well_formed ln ≡ true
      → (arys : List ℕ) × (cmds : Cmds) × (cmdline_build q line (symbol ∷ name ∷ line_tokens ln)
          ≡ some (cmds, with_arys marked arys))
        × (cmds_list cmds ≡ line_commands no_parts ln)
  unfolding cmdline_build build_loop start_parser start_line append_cmds Built IsBuilt At
  cmdline_build-leading_variable v h =
      let ts = line_tokens ln in
      let cl = start_line line (symbol ∷ name ∷ ts) in
      let named = record name { symb = first symbol } in
      let c = record ((start_parser q cl 0).cmd) { rev = true } in
      let w =
        line-IsBuilt q ln marked (suc (suc (length ts))) (suc (suc (length ts))) 2 c no_parts
          (pos 0) no_cmds (symbol ∷ named ∷ [], refl, refl) refl h refl (omega arith)
          (omega arith) in
      (
        w.0,
        w.1.0,
        rw
            (loop_goes q (suc (suc (length ts))) 0 1 cl (start_parser q cl 0) symbol
              (marked, reversed cl) refl (round_variable v))
            (w.1.1),
        w.1.2,
      )
