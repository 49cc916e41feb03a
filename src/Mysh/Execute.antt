-- ===== src/Mysh/Execute.antt =====
-- mysh/shell/shell.c: `shell_execute`, on the bytes that the terminal sends. Each round takes a line from them, so as many
-- rounds as there are bytes, and one, are enough.
pub mod Rounds
pub mod Lines
pub mod Echo
use my_exercise.Prelude.{
  ℕ, zero, suc, ◌+◌, ◌*◌, ◌==◌, ltb, ◌&&◌, if◌then◌else◌, Bool, true, false, Option, none, some,
  List, [], ◌∷◌, ◌++◌, length,
}
use my_exercise.Bytes.{Memory}
use my_exercise.Mysh.Text.{codes, sh_string}
use my_exercise.Mysh.Editor.{command_buf_size, when_some}
use my_exercise.Mysh.Complete.{match_cmd}
use my_exercise.Mysh.Input.{Reader, Read, line_read, refused, waits, faults, read_input}
use my_exercise.Mysh.Parse.{
  CmdParsed, argument, Parse, parsed, args_refused, outside_args, parse_command, is_blank,
}
use my_exercise.Mysh.Shell.{
  Run, finishes, beyond, endless, when_ran, try_some, CliStatus, cli_ok, status_to_str, str, Call,
  printf, putchars, Output, say, Shell, shell_set_prompt, add_record,
}
use my_exercise.Mysh.Vfat.{Ufat, Ran}
use my_exercise.Mysh.Command.{execute_command}

abbrev pub zeros : Memory
zeros a = 0

-- How the shell stands when the bytes are used up: it was left, it waits for more of a line, it made an access outside an
-- array, a loop over a directory met no end, or the rounds were not enough.
pub data Session (Fs : Type 0) : Type 0 where
  left : Shell Fs → List ℕ → Output → Session Fs
  reading : Shell Fs → Output → Session Fs
  crashed : Session Fs
  hangs : Session Fs
  unfinished : Session Fs

-- `error: ` and the status, between two rules, for a status that is not CLI_OK.
abbrev pub report : CliStatus → Output
report cli_ok = []
report status =
    say "---------------------\r\n"
    ++ printf (codes "error: %s\r\n") (str (status_to_str status) ∷ [])
      ∷ say "---------------------\r\n"

module _ {Fs : Type 0} (u : Ufat Fs) (reads : ℕ) where
  -- `history` itself is not kept.
  unfoldable pub keep_line : Memory → List ℕ → Shell Fs → Option (Shell Fs)
  unfolding match_cmd add_record
  keep_line line name sh =
      if match_cmd (codes "history") name
      then some sh
      else when_some (add_record line sh.cmd_records) (λ r. some (record sh { cmd_records = r }))

  unfoldable pub run_parsed : Memory → Shell Fs → Parse → Run (Shell Fs × Output)
  unfolding keep_line execute_command sh_string
  run_parsed line sh outside_args = beyond
  run_parsed line sh (args_refused message) =
      finishes (sh, printf message [] ∷ say "error! parse_command error\r\n")
  run_parsed line sh (parsed cmd) = try_some (argument cmd 0) (λ name.
      try_some (keep_line line name sh) (λ sh1.
        when_ran (execute_command u reads cmd sh1)
          (λ (sh2, out, status). finishes (sh2, out ++ report status))))

  -- What a round does with a line.
  unfoldable pub run_line : Memory → Shell Fs → Run (Shell Fs × Output)
  unfolding sh_string is_blank parse_command run_parsed
  run_line line sh =
      try_some (sh_string command_buf_size line 0)
        (λ s. if is_blank s then finishes (sh, []) else run_parsed line sh (parse_command s zeros))

  abbrev pub next_round :
      (List ℕ → Shell Fs → Output → Session Fs)
      → List ℕ
      → Output
      → Run (Shell Fs × Output)
      → Session Fs
  next_round loop bytes out beyond = crashed
  next_round loop bytes out endless = hangs
  next_round loop bytes out (finishes (sh, out1)) = loop bytes sh (out ++ out1)

  abbrev pub after_read :
      (List ℕ → Shell Fs → Output → Session Fs) → Shell Fs → Output → Read → Session Fs
  after_read loop sh out faults = crashed
  after_read loop sh out (waits r echo) = reading sh (out ++ putchars echo ∷ [])
  after_read loop sh out (refused rest echo) =
      loop rest sh (out ++ putchars echo ∷ say "error! read_input error\r\n")
  after_read loop sh out (line_read line rest echo) =
      next_round loop rest (out ++ putchars echo ∷ []) (run_line line sh)

  unfoldable pub execute_loop : ℕ → List ℕ → Shell Fs → Output → Session Fs
  unfolding read_input run_line
  execute_loop zero bytes sh out = unfinished
  execute_loop (suc n) bytes sh out =
      let loop = execute_loop n in
      if sh.shell_should_exit
      then left sh bytes out
      else after_read loop sh (out ++ printf sh.prompt [] ∷ [])
          (read_input sh.cmd_records sh.shell_keywords sh.prompt zeros bytes)

  unfoldable pub shell_execute : List ℕ → Shell Fs → Session Fs
  unfolding execute_loop shell_set_prompt
  shell_execute bytes sh =
      let (prompt, out) = shell_set_prompt [] in
      execute_loop (suc (length bytes)) bytes (record sh { prompt = prompt }) out
