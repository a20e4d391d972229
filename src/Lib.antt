-- ===== src/Lib.antt =====
-- fnav, a file navigator for the terminal with vi keys, commands and scripts. The development models
-- the parts that keep state or transform text, from their C source; paths are from the repository's
-- root.
--
--   Text       src/nav/util.c, macros.h: quoting for the shell, stripping, searching, UTF-8 steps
--   History    src/nav/tui/history.c: the histories of commands and of searches
--   Select     src/nav/tui/select.c: the selection of lines of a buffer
--   Script     src/nav/cmd.c: blocks of a script, their recording and execution; call stack
--   Event      src/nav/event/event.c: the two queues of the main loop
--   Marks      src/nav/info.c: the marks and the info file
--   Cursor     src/nav/tui/buffer.c: the cursor and the scrolling of a buffer, and its selection
--   Syntax     src/nav/cmdline.c: the tokenizer of a command line, the parser of its commands, lists,
--              pairs and variables, and the accessors of its tokens
--   Condition  src/nav/cmd.c: the value of a condition over the arguments of its line
--   Layout     src/nav/tui/layout.c: the tree of panes, its sizes, and how buffers come and go
--   Hook       src/nav/event/hook.c: the hooks of the events, their groups, and how they are called
--   Input      src/nav/event/input.c, ascii.h: the names of keys, the tables of commands, operators and
--              counts
--   Regex      src/nav/regex.c: the matches of a pattern in a buffer, and the moves between them
--   Model      src/nav/model.c, filter.c: the lines of a buffer, their filter and their order, and how
--              the place in them is found again
--   Table      src/nav/table.c: the tables of records, with the rings of their values and listeners
--   Prompt     src/nav/tui/ex_cmd.c: the line of the prompt, its cursor, and the keys that edit it
--   Prelude    shared tests, lists and integers
--
-- How they interact: the prompt (`ex_cmd.c`) edits its line and opens a history by `hist_push` and
-- leaves it by `hist_save`, and gives its line to `cmd_eval`, which executes it or, inside a block,
-- pushes it on the tape. Moving the cursor of a buffer (`buf_mv`) calls `select_enter` with the new
-- line (`buf_curs_move`). Lines of a selection are quoted by `lines2argv` for the shell. The info file
-- is read by `info_parse` into the marks and the history of commands. The layout gives each buffer its
-- size, which `buf_set_size` takes. A hook is a command, which runs as a line, or a function of a
-- plugin or a module. The key of a window or a buffer goes to `find_do_key` with its table. A
-- condition of a script is a line that the tokenizer splits and `cond_args` evaluates. A commit is an
-- event that inserts a record into a table; a listener of the table hands the records of a directory
-- to the model of a buffer, which `filter_build` narrows, `model_sort` orders, and `regex_build`
-- searches; `regex_next` ends in a `buf_move`, and `model_sort` in a new cursor of the buffer.
--
-- Correspondence. Functions keep their names. A string is the list of its bytes in front of its NUL, a
-- pointer into it a suffix or an index, an array a list. `none` is a fault (a NULL or freed item, an
-- access outside an array), or NULL where a comment says so. Of an `int` the value is modelled as a
-- natural number or an integer without a bound: counts of lines and lengths stay far below 2^31. The
-- key of a mark is a byte. A row of a window is counted from 0, and a cursor may come to rest on the
-- row just below the last. The static state of a file is a record, and each function takes it and
-- returns it.
--
-- Fuel. The tokenizer takes one more than the length of the line, since each round moves on; the loops
-- of count_strstr and count_lines, which shorten the string, take theirs from the caller, as do the
-- loops of the main loop: handlers that queue events for ever are not excluded by the code, and where
-- each queues less than its event weighs, the weight of the queue and one is enough. The loop of `cmd_start` takes the length of
-- the tape, since a script without a cycle meets each entry once at most. `erase_loop` of the hooks
-- takes the length of the list and one, and the search for a key the length of the index and one. Each
-- round of `cmdline_parse` moves on by a token or more, so that it takes the number of tokens and one,
-- and so does the loop of `cmdline_build` around it.
--
-- Parameters. The handlers of the events, of the hooks and of the keys, libuv and its clock; the
-- effect of a line of a script and the value of its condition (`run`, `cond`); the sign of a null
-- pointer's difference in `fuzzy_match`; and the two floating-point tests of `buf_mv`, of which only
-- `AreEdges` is relied on. The character that mbrtowc and wcwidth find at the start of a string
-- (`width`). What `pcre_exec` finds in a line (`exec`), the answers of `fnd_val` and `bsearch_r` and
-- the order that `qsort_r` makes are parameters of the buffer's lines. The hash tables of a table are
-- functions from their keys.
--
-- Not modelled: drawing (ncurses), processes and files (libuv), the third-party code under
-- src/nav/lib, src/nav/vt and src/nav/rbuffer.c; the execution of a parsed command, variables,
-- options, completion, menus, plugins, key maps and registers; of the prompt `ex_word`, which writes
-- behind its array, and the update of its menu; of the tables, the data of a field with
-- TYP_STAT and the readers of a record.
pub mod Prelude
pub mod Text
pub mod History
pub mod Select
pub mod Script
pub mod Cursor
pub mod Event
pub mod Marks
pub mod Syntax
pub mod Prompt
pub mod Layout
pub mod Hook
pub mod Input
pub mod Regex
pub mod Model
pub mod Table
pub mod Condition
