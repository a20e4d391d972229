-- ===== src/Syntax/Tests.antt =====
-- cmdline.c: concrete lines.
use Prim.Native.String.{String}
use fnav.Prelude.{
  Option, true, ℕ, ◌≡◌, refl, Bool, none, some, List, [], ◌∷◌, length, codes, ◌++◌, false,
}
use fnav.Text.{byte_at}
use fnav.Syntax.{
  Token, cmdline_tokenize, lex_from, lex_char, lex_quote, lex_symbol, create_token, start_lexer,
  chr_len, is_one_of,
}
use fnav.Syntax.Parse.{
  Parts, Cmds, var_string, var_pair, var_list, no_parts, part, no_cmds, command, append_parts,
  append_cmds, part_of, push_var, lowest, set_lowest, pop_pair, pop, n_parts,
}
use fnav.Syntax.Parse.Loop.{
  head_is_list, is_key, new_pair, take_word, new_list, close_list, has_one_of, is_var, mark_var,
  touches_first, exec_or_word, switch, round, check_flags, start_parser, set_back_idx, finish,
  parse_loop, after_command, build_loop, start_line, cmdline_build,
}
use fnav.Syntax.Parse.Plain.{is_bar, is_special, is_plain, cmds_list}
use fnav.Syntax.Parse.Lists.{no_items, item, comma, list_item, tokens_then, is_symbol, with_arys}
use fnav.Syntax.Parse.Lines.{
  Line, end_of_line, argument, bar, array, line_tokens, line_well_formed, line_commands,
}
use fnav.Syntax.Parse.Variable.{is_variable, cmdline_build-leading_variable}
use fnav.Syntax.Tokens.{Chain, cmdline_tokenize-Chain}

-- The values of the tokens.
abbrev strings : List Token → List (List ℕ)
strings [] = []
strings (t ∷ ts) = t.v_string ∷ strings ts

abbrev tokens_of : List ℕ → List (List ℕ)
unfolding cmdline_tokenize lex_from lex_char lex_quote lex_symbol create_token start_lexer chr_len
    is_one_of byte_at
tokens_of line = elim (cmdline_tokenize line) [ none ↦ [] | some (ts, _) ↦ strings ts ]

-- 1 == 2
abbrev comparison : List ℕ
comparison = 49 ∷ 32 ∷ 61 ∷ 61 ∷ 32 ∷ 50 ∷ []

comparison_tokens : tokens_of comparison ≡ (49 ∷ []) ∷ (61 ∷ []) ∷ (61 ∷ []) ∷ (50 ∷ []) ∷ []
unfolding cmdline_tokenize lex_from lex_char lex_quote lex_symbol create_token start_lexer chr_len
    is_one_of byte_at
comparison_tokens = refl

-- a"b": the text in front of the quote is in no token.
glued_tokens : tokens_of (97 ∷ 34 ∷ 98 ∷ 34 ∷ []) ≡ (98 ∷ []) ∷ []
unfolding cmdline_tokenize lex_from lex_char lex_quote lex_symbol create_token start_lexer chr_len
    is_one_of byte_at
glued_tokens = refl

cmdline_tokenize-Chain_example :
    (ts : List Token) × (cont : Bool) × (cmdline_tokenize comparison ≡ some (ts, cont))
    × Chain comparison 0 (length comparison) ts
cmdline_tokenize-Chain_example = cmdline_tokenize-Chain comparison

abbrev lexed : List ℕ → List Token
unfolding cmdline_tokenize lex_from lex_char lex_quote lex_symbol create_token start_lexer chr_len
    is_one_of byte_at
lexed line = elim (cmdline_tokenize line) [ none ↦ [] | some (ts, _) ↦ ts ]

abbrev token_at : String → ℕ → ℕ → Token
token_at s st ed = record { quoted = false; symb = 0; start = st; end = ed; v_string = codes s }

-- $dir up | quit
abbrev rest_of_variable : Line
rest_of_variable =
    argument (token_at "up" 5 7)
      (bar (token_at "|" 8 9) (argument (token_at "quit" 10 14) end_of_line))

-- echo "a|b" [x, [y]] | quit
abbrev lists_line : List ℕ
lists_line = codes "echo \"a|b\" [x, [y]] | quit"

abbrev lists : Line
lists = argument (token_at "echo" 0 4) (
    argument (record (token_at "a|b" 6 9) { quoted = true })
      (array (token_at "[" 11 12) (token_at "]" 18 19)
        (item (token_at "x" 12 13) (
          comma (token_at "," 13 14) (
            list_item (token_at "[" 15 16) (token_at "]" 17 18) (item (token_at "y" 16 17) no_items)
              no_items)))
        (bar (token_at "|" 20 21) (argument (token_at "quit" 22 26) end_of_line))))

lists_tokens : lexed lists_line ≡ line_tokens lists
unfolding lexed line_tokens tokens_then
lists_tokens = refl

the_variable :
    lexed (codes "$dir up | quit")
    ≡ token_at "$" 0 1 ∷ token_at "dir" 1 4 ∷ line_tokens rest_of_variable
unfolding lexed line_tokens
the_variable = refl

-- The values of the arguments; a pair is a colon with its parts behind it, a list a bracket with its
-- items behind it.
abbrev values : Parts → List (List ℕ)
values no_parts = []
values (part p held next) = elim p.kind [
  | var_string ↦ p.v_string ∷ values next
  | var_pair ↦ codes ":" ∷ values held ++ values next
  | var_list ↦ codes "[" ∷ values held ++ values next
]

abbrev arguments : Cmds → List (List (List ℕ))
arguments no_cmds = []
arguments (command c chlds next) = values c.args ∷ arguments next

-- Of a line, the arguments of its commands and whether the parser found an error.
abbrev parsed : List ℕ → Option (List (List (List ℕ)) × Bool)
unfolding cmdline_build build_loop after_command parse_loop round switch take_word is_key
    head_is_list new_pair new_list close_list pop pop_pair set_lowest lowest append_parts
    append_cmds part_of check_flags start_parser set_back_idx finish start_line byte_at push_var
    exec_or_word touches_first is_var mark_var has_one_of is_one_of n_parts
parsed line = elim (cmdline_build false line (lexed line)) [
  | none ↦ none
  | some (cmds, cl) ↦ some (arguments cmds, cl.err)
]

parses :
    parsed (codes "echo a | quit")
    ≡ some ((codes "echo" ∷ codes "a" ∷ []) ∷ (codes "quit" ∷ []) ∷ [], false)
unfolding parsed lexed
parses = refl

-- A quoted string that begins with a colon makes the word in front of it a key.
quoted_colon :
    parsed (codes "echo x \":y\"")
    ≡ some ((codes "echo" ∷ codes ":" ∷ codes "x" ∷ codes ":y" ∷ []) ∷ [], false)
unfolding parsed lexed
quoted_colon = refl

-- A pair in a list is an error, and the command has no arguments.
pair_in_list : parsed (codes "echo [a:b]") ≡ some ((codes "echo" ∷ []) ∷ [], true)
unfolding parsed lexed
pair_in_list = refl

list_of_words :
    parsed (codes "echo [a,b]")
    ≡ some ((codes "echo" ∷ codes "[" ∷ codes "a" ∷ codes "b" ∷ []) ∷ [], false)
unfolding parsed lexed
list_of_words = refl

cmdline_build-leading_variable_example :
    (arys : List ℕ) × (cmds : Cmds) × (cmdline_build false
        (codes "$dir up | quit")
        (token_at "$" 0 1 ∷ token_at "dir" 1 4 ∷ line_tokens rest_of_variable)
      ≡ some (
        cmds,
        with_arys
            (start_line (codes "$dir up | quit") (
              token_at "$" 0 1
              ∷ record (token_at "dir" 1 4) { symb = 36 }
              ∷ line_tokens rest_of_variable))
            arys,
      ))
    × (cmds_list cmds ≡ line_commands no_parts rest_of_variable)
unfolding is_variable line_well_formed is_symbol is_bar is_plain is_special byte_at has_one_of
    is_one_of
cmdline_build-leading_variable_example =
    cmdline_build-leading_variable false (codes "$dir up | quit") (token_at "$" 0 1)
      (token_at "dir" 1 4) rest_of_variable refl refl
