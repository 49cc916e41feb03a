-- ===== src/Mysh/Input.antt =====
-- mysh/shell/shell.c: the loop of `read_input`, which takes one byte of the terminal a step. A key of several bytes is
-- read by several calls of `shell_getch`, which are the modes here.
pub mod Press
pub mod Edits
use my_exercise.Prelude.{
  ℕ, zero, suc, ◌+◌, ◌-◌, ◌==◌, leb, ltb, ◌&&◌, ◌||◌, if◌then◌else◌, Bool, true, false, Option,
  none, some, List, [], ◌∷◌, ◌++◌, length,
}
use my_exercise.Bytes.{Memory, store8}
use my_exercise.Mysh.Text.{codes, crlf, positive_string}
use my_exercise.Mysh.Editor.{
  command_buf_size, key_up, key_down, key_right, key_left, key_del, key_backspace, CmdRecords,
  ShellKeywords, Line, Edit, when_some, put_buf, behind, key_backspace_process, key_left_process,
  key_right_process, key_del_process, history_process, insert_char,
}
use my_exercise.Mysh.Complete.{auto_complete}

-- What the next byte is: one of its own, one behind 0x1b or behind 0x1b 0x5b, or the one that `KEY_DEL` discards.
pub data Mode : Type 0 where
  plain escape bracket discard : Mode

-- `back` is `-offset`.
pub record Reader : Type 0 where
  pub line : Line
  pub back : ℕ
  pub mode : Mode

pub data Step : Type 0 where
  goes_on : Reader → List ℕ → Step
  entered : Memory → List ℕ → Step
  too_long : List ℕ → Step
  outside : Step

-- The reader goes on with what a key made of the line.
abbrev pub edited : ℕ → Edit → Step
edited back none = outside
edited back (some (l, out)) = goes_on (record { line = l; back = back; mode = plain }) out

-- The text behind the cursor goes to the end of the line, which gets its NUL.
unfoldable pub join_line : List ℕ → Line → Option Line
join_line [] l = put_buf l.i 0 l
join_line (c ∷ after) l =
    when_some (put_buf l.i c l) (λ l1. join_line after (record l1 { i = l.i + 1 }))

abbrev pub ended : Option Line → Step
ended none = outside
ended (some l) = entered l.buf crlf

unfoldable pub enter : Line → Step
unfolding join_line store8 positive_string
enter l = ended (when_some (behind l) (λ after. join_line after l))

abbrev pub message_too_long : List ℕ
message_too_long = codes "error! input exceed COMMAND_BUF_SIZE(2048)\n"

module _ (records : CmdRecords) (keywords : ShellKeywords) (prompt : List ℕ) where
  -- A byte of its own.
  unfoldable pub plain_byte : ℕ → Reader → Step
  unfolding enter key_backspace_process auto_complete insert_char store8
  plain_byte c r =
      if c == 10 || c == 13
      then enter r.line
      else if c == key_backspace
      then edited r.back (key_backspace_process r.line)
      else if c == 0x1b
      then goes_on (record r { mode = escape }) []
      else if c == 9
      then edited r.back
          (when_some (put_buf r.line.i 0 r.line) (λ l. auto_complete keywords prompt l))
      else if leb command_buf_size r.line.i
      then too_long message_too_long
      else edited r.back (insert_char c r.line)

  -- `offset--`, which stops at `-level`, and `offset++`, which stops at -1
  abbrev pub further_back : ℕ → ℕ
  further_back back = if ltb records.level (back + 1) then records.level else back + 1

  abbrev pub less_back : ℕ → ℕ
  less_back back = if leb back 2 then 1 else back - 1

  unfoldable pub bracket_byte : ℕ → Reader → Step
  unfolding history_process key_left_process key_right_process
  bracket_byte c r =
      if c == key_up
      then edited (further_back r.back) (history_process records (further_back r.back) r.line)
      else if c == key_down
      then edited (less_back r.back) (history_process records (less_back r.back) r.line)
      else if c == key_left
      then edited r.back (key_left_process r.line)
      else if c == key_right
      then edited r.back (key_right_process r.line)
      else if c == key_del
      then goes_on (record r { mode = discard }) []
      else goes_on (record r { mode = plain }) []

  unfoldable pub read_byte : ℕ → Reader → Mode → Step
  unfolding plain_byte bracket_byte key_del_process
  read_byte c r plain = plain_byte c r
  read_byte c r escape = goes_on (record r { mode = if c == 0x5b then bracket else plain }) []
  read_byte c r bracket = bracket_byte c r
  read_byte c r discard = edited r.back (key_del_process r.line)

-- How a call of `read_input` ends: with the line and the bytes that are not read yet, with -1, or not before more bytes
-- come.
pub data Read : Type 0 where
  line_read : Memory → List ℕ → List ℕ → Read
  refused : List ℕ → List ℕ → Read
  waits : Reader → List ℕ → Read
  faults : Read

-- The loop after a step, where `loop` goes over the bytes behind it.
abbrev pub go_on : (Reader → List ℕ → Read) → List ℕ → List ℕ → Step → Read
go_on loop bytes out (goes_on r more) = loop r (out ++ more)
go_on loop bytes out (entered line more) = line_read line bytes (out ++ more)
go_on loop bytes out (too_long more) = refused bytes (out ++ more)
go_on loop bytes out outside = faults

abbrev pub no_line : Memory → Line
no_line buf = record { buf = buf; i = 0; exbuf = λ a. 0; ex = command_buf_size - 1 }

module _ (records : CmdRecords) (keywords : ShellKeywords) (prompt : List ℕ) where
  -- `out` is what was printed so far.
  unfoldable pub read_loop : List ℕ → Reader → List ℕ → Read
  unfolding read_byte
  read_loop [] r out = waits r out
  read_loop (c ∷ bytes) r out =
      go_on (read_loop bytes) bytes out (read_byte records keywords prompt c r r.mode)

  unfoldable pub read_input : Memory → List ℕ → Read
  unfolding read_loop
  read_input input bytes =
      read_loop bytes (record { line = no_line input; back = 0; mode = plain }) []
