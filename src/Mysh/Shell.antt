-- ===== src/Mysh/Shell.antt =====
-- mysh/shell/shell.c, mysh/shell/shell.h: the state of the shell, its prompt and its list of past lines. Printing is the
-- list of the calls: `shell_printf` with its format and arguments, or bytes that are put out one by one.
pub mod History
use Prim.Native.String.{String}
use my_exercise.Prelude.{
  ℕ, zero, suc, ◌+◌, ◌-◌, ◌*◌, ◌%◌, ◌==◌, leb, ltb, if◌then◌else◌, Bool, true, false, Option, none,
  some, List, [], ◌∷◌, ◌++◌, length, take,
}
use my_exercise.Bytes.{Memory, memcpy}
use my_exercise.Mysh.Text.{codes}
use my_exercise.Mysh.Editor.{command_buf_size, history_maxitems, CmdRecords, ShellKeywords}

-- `cli_status_t`
pub data CliStatus : Type 0 where
  cli_ok cli_cmd_not_found cli_invalid_args cli_exe_error : CliStatus

abbrev pub status_to_str : CliStatus → List ℕ
status_to_str cli_cmd_not_found = codes "CLI_CMD_NOT_FOUND"
status_to_str cli_invalid_args = codes "CLI_INVALID_ARGS"
status_to_str cli_exe_error = codes "CLI_EXE_ERROR"
status_to_str cli_ok = []

pub data Value : Type 0 where
  str : List ℕ → Value
  num : ℕ → Value

pub data Call : Type 0 where
  printf : List ℕ → List Value → Call
  putchars : List ℕ → Call

abbrev pub Output : Type 0
Output = List Call

abbrev pub say : String → Output
say s = printf (codes s) [] ∷ []

-- What a command comes to: it returns, it makes an access outside an array, or a loop over a directory has not met the
-- end of the directory in the rounds that it has.
pub data Run (A : Type 0) : Type 0 where
  finishes : A → Run A
  beyond endless : Run A

abbrev pub when_ran : {A B : Type 0} → Run A → (A → Run B) → Run B
when_ran (finishes a) f = f a
when_ran beyond f = beyond
when_ran endless f = endless

-- `none` is an access outside an array.
abbrev pub try_some : {A B : Type 0} → Option A → (A → Run B) → Run B
try_some none f = beyond
try_some (some a) f = f a

-- The globals of the shell; `fs` is what the file system keeps, and `cur_dir_full` the path of its directory.
pub record Shell (Fs : Type 0) : Type 0 where
  pub cmd_records : CmdRecords
  pub shell_keywords : ShellKeywords
  pub prompt : List ℕ
  pub shell_should_exit : Bool
  pub cmd_tbl_items : ℕ
  pub cur_dir_full : Memory
  pub fs : Fs

abbrev pub prompt_size : ℕ
prompt_size = 255

-- The prompt that `shell_set_prompt(p)` leaves, and what it prints.
unfoldable pub shell_set_prompt : List ℕ → List ℕ × Output
shell_set_prompt p = (
  take (prompt_size - 3) p ++ codes ">>",
  if ltb (prompt_size - 3) (length p) then say "prompt is too long!\r\n" else [],
)

-- The line goes into the list of past lines.
unfoldable pub add_record : Memory → CmdRecords → Option CmdRecords
unfolding memcpy
add_record line r =
    if ltb r.cmd_idx history_maxitems
    then some (record {
      cmd_idx = (r.cmd_idx + 1) % history_maxitems;
      level = if ltb r.level history_maxitems then r.level + 1 else r.level;
      cmd_buf = λ k.
          if k == r.cmd_idx then memcpy (r.cmd_buf k) 0 line 0 command_buf_size else r.cmd_buf k;
    })
    else none
