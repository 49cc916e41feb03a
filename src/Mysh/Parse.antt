-- ===== src/Mysh/Parse.antt =====
-- mysh/shell/shell.c, mysh/shell/shell.h: a line is cut into its arguments. The line is the list of the bytes before its NUL.
pub mod Words
use my_exercise.Prelude.{
  ℕ, zero, suc, ◌+◌, ◌-◌, ◌*◌, ◌==◌, leb, ltb, ◌&&◌, if◌then◌else◌, Bool, true, false, Option, none,
  some, List, [], ◌∷◌,
}
use my_exercise.Bytes.{Memory, store8}
use my_exercise.Mysh.Text.{codes, sh_string}
use my_exercise.Mysh.Editor.{command_buf_size, blank, when_some}

abbrev pub arg_max_count : ℕ
arg_max_count = 10

abbrev pub quote : ℕ
quote = 34

-- `cmd_parsed_t`: `argv[i]` is a row of `args`, or 0.
pub record CmdParsed : Type 0 where
  pub argc : ℕ
  pub argv : ℕ → Option ℕ
  pub args : Memory

-- `args[row]` as a string.
abbrev pub row_string : Memory → ℕ → Option (List ℕ)
row_string args row =
    sh_string (command_buf_size * arg_max_count - command_buf_size * row) args
      (command_buf_size * row)

-- `argv[i]` as a string.
abbrev pub argument : CmdParsed → ℕ → Option (List ℕ)
argument cmd i = when_some (cmd.argv i) (row_string cmd.args)

unfoldable pub is_blank : List ℕ → Bool
is_blank [] = true
is_blank (c ∷ line) = if c == blank then is_blank line else false

-- The variables of the loop of `parse_command`.
pub record Parsing : Type 0 where
  pub args_done : ℕ
  pub oi : ℕ
  pub flag : Bool
  pub rows : Memory

-- What the call returns: 0, or -1 after a message; or an access outside `args` or `argv`.
pub data Parse : Type 0 where
  parsed : CmdParsed → Parse
  args_refused : List ℕ → Parse
  outside_args : Parse

abbrev pub args_too_long : List ℕ
args_too_long = codes "error: args too long!\n"

abbrev pub too_many_args : List ℕ
too_many_args = codes "error: too many args !\n"

-- `args[argc][oi] = c`
abbrev pub put_arg : ℕ → Parsing → Option Parsing
put_arg c st =
    if ltb (command_buf_size * st.args_done + st.oi) (command_buf_size * arg_max_count)
    then some (record st { rows = store8 st.rows (command_buf_size * st.args_done + st.oi) c })
    else none

abbrev pub then_parse : (Parsing → Parse) → Option Parsing → Parse
then_parse f none = outside_args
then_parse f (some st) = f st

-- A NUL ends the argument.
unfoldable pub end_arg : Parsing → Option Parsing
unfolding store8
end_arg st = when_some (put_arg 0 st) (λ st1. some (record st1 { args_done = st.args_done + 1 }))

abbrev pub toggle : ℕ → Bool → Bool
toggle c flag = if c == quote then (if flag then false else true) else flag

-- A byte of an argument, and whether it is the last of the line.
unfoldable pub arg_byte : ℕ → Bool → Parsing → Option Parsing
unfolding end_arg store8
arg_byte c last st = when_some (put_arg c st) (λ st1.
    let st2 = record st1 { oi = st.oi + 1; flag = toggle c st.flag } in
    if last then end_arg st2 else some st2)

-- A blank that is not quoted.
unfoldable pub arg_gap : Parsing → Option Parsing
unfolding end_arg
arg_gap st =
    if st.oi == 0 then some st else when_some (end_arg st) (λ st1. some (record st1 { oi = 0 }))

abbrev pub is_last : List ℕ → Bool
is_last [] = true
is_last (c ∷ line) = false

abbrev pub in_arg : ℕ → Bool → Bool
in_arg c flag = if c == blank then flag else true

-- `argv` is filled, and gets its 0.
unfoldable pub fill_argv : Parsing → Parse
fill_argv st =
    if ltb st.args_done arg_max_count
    then parsed (record {
      argc = st.args_done;
      argv = λ i. if ltb i st.args_done then some i else none;
      args = st.rows;
    })
    else outside_args

unfoldable pub parse_loop : List ℕ → Parsing → Parse
unfolding fill_argv arg_byte arg_gap
parse_loop [] st = fill_argv st
parse_loop (c ∷ line) st =
    if in_arg c st.flag
    then if leb command_buf_size st.oi
      then args_refused args_too_long
      else if leb arg_max_count st.args_done
      then args_refused too_many_args
      else then_parse (parse_loop line) (arg_byte c (is_last line) st)
    else then_parse (parse_loop line) (arg_gap st)

unfoldable pub parse_command : List ℕ → Memory → Parse
unfolding parse_loop
parse_command line args =
    parse_loop line (record { args_done = 0; oi = 0; flag = false; rows = args })
