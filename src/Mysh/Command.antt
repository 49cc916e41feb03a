-- ===== src/Mysh/Command.antt =====
-- mysh/shell/shell_cmd_tbl.c and mysh/shell/shell.c: the table of the commands, and the commands of the shell itself.
use Prim.Native.String.{String}
use my_exercise.Prelude.{
  ℕ, zero, suc, ◌+◌, ◌-◌, ◌*◌, ◌%◌, ◌^◌, ◌==◌, ltb, ◌&&◌, if◌then◌else◌, true, Option, none, some,
  List, [], ◌∷◌, ◌++◌, length,
}
use my_exercise.Mysh.Text.{codes, sh_string}
use my_exercise.Mysh.Editor.{
  command_buf_size, history_maxitems, when_some, CmdRecords, ShellKeywords, history_index,
}
use my_exercise.Mysh.Complete.{match_cmd, shell_add_keyword, keyword}
use my_exercise.Mysh.Parse.{CmdParsed, argument}
use my_exercise.Mysh.Shell.{
  finishes, beyond, when_ran, try_some, CliStatus, cli_ok, cli_cmd_not_found, cli_invalid_args, str,
  num, printf, Output, say, Shell,
}
use my_exercise.Mysh.Vfat.Files.{ufat_func, touch_func, mkdir_func, sync_func, ls_func}
use my_exercise.Mysh.Vfat.{Ufat, Ran, usage_error, cd_func}

-- The value of a string of digits, a 32-bit `int` in two's complement; -1 for any other string.
unfoldable pub to_int_loop : List ℕ → ℕ → ℕ
to_int_loop [] res = res
to_int_loop (c ∷ s) res =
    if ltb 48 c && ltb c 57 then to_int_loop s ((res * 10 + (c - 48)) % 2 ^ 32) else 2 ^ 32 - 1

unfoldable pub string_to_int : List ℕ → ℕ
unfolding to_int_loop
string_to_int s = to_int_loop s 0

-- The names in the table.
abbrev pub cmd_names : List String
cmd_names =
    "help" ∷ "echo" ∷ "history" ∷ "exit" ∷ "ufat" ∷ "touch" ∷ "mkdir" ∷ "sync" ∷ "ls" ∷ "cd" ∷ []

-- `"%d.%s \r\n"` for the entries from `i` on.
abbrev pub numbered : ℕ → ℕ → List String → Output
numbered zero i names = []
numbered (suc n) i [] = []
numbered (suc n) i (s ∷ names) =
    printf (codes "%d.%s \r\n") (num i ∷ str (codes s) ∷ []) ∷ numbered n (i + 1) names

abbrev pub help_usage : ℕ → Output
help_usage items =
    say "usage: help <cmd-name>\r\n" ++ say "<cmd-name> can be: \r\n" ++ numbered items 0 cmd_names

abbrev pub history_usage : Output
history_usage =
    say "usage: history <cmd-name>\r\n"
    ++ say "<cmd-name> can be: \r\n"
    ++ say "1.show\r\n2.clear\r\n3.<selected-history-cmd>\r\n"

-- The column `usage` of the table.
abbrev pub usages : ℕ → List (List ℕ × Output)
usages items =
    (codes "help", help_usage items)
    ∷ (codes "echo", say "usage: echo <string>\r\n")
    ∷ (codes "history", history_usage)
    ∷ (codes "exit", say "usage: exit shell\r\n")
    ∷ (codes "ufat", say "usage: ufat <cmd>\r\n" ++ say "<cmd> can be 1.format 2.open 3.info\r\n")
    ∷ (
      codes "touch",
      say "usage: touch <filname>\r\n" ++ say "create a empty file in current dir.\r\n",
    )
    ∷ (
      codes "mkdir",
      say "usage: mkdir <dirname>\r\n" ++ say "create a empty dir in current dir.\r\n",
    )
    ∷ (codes "sync", say "usage: sync\r\n" ++ say "sync ufat system.\r\n")
    ∷ (codes "ls", say "usage: ls\r\n" ++ say "list all items in cur directory.\r\n")
    ∷ (codes "cd", say "usage: cd <dirname>\r\n" ++ say "enter a dir (which is in cur dir).\r\n")
    ∷ []

-- The entry of the first `n` that has the name.
unfoldable pub find_cmd {ℓ} : {A : Type ℓ} → ℕ → List ℕ → List (List ℕ × A) → Option A
unfolding match_cmd
find_cmd zero name tbl = none
find_cmd (suc n) name [] = none
find_cmd (suc n) name ((cmd, a) ∷ tbl) =
    let rest = find_cmd n name tbl in if match_cmd cmd name then some a else rest

-- The past lines that `history show` prints, from the one `i` lines ago on.
unfoldable pub show_loop : ℕ → ℕ → CmdRecords → Option Output
unfolding history_index sh_string
show_loop zero i r = some []
show_loop (suc n) i r = when_some (history_index r.cmd_idx i) (λ idx.
    when_some (sh_string command_buf_size (r.cmd_buf idx) 0) (λ s.
      when_some (show_loop n (i + 1) r)
        (λ out. some (printf (codes "%d: %s\r\n") (num idx ∷ str s ∷ []) ∷ out))))

module _ {Fs : Type 0} (u : Ufat Fs) (reads : ℕ) where
  unfoldable pub help_func : CmdParsed → Shell Fs → Ran Fs
  unfolding find_cmd sh_string
  help_func cmd sh =
      if cmd.argc == 2
      then try_some (argument cmd 1) (λ name.
        elim (find_cmd sh.cmd_tbl_items name (usages sh.cmd_tbl_items)) [
          | some usage ↦ finishes (sh, usage, cli_ok)
          | none ↦ finishes (sh, say "error! not match any cmd.\r\n", cli_invalid_args)
        ])
      else usage_error sh

  unfoldable pub echo_func : CmdParsed → Shell Fs → Ran Fs
  unfolding sh_string
  echo_func cmd sh =
      if cmd.argc == 2
      then try_some (argument cmd 1)
          (λ s. finishes (sh, printf (codes "%s\r\n") (str s ∷ []) ∷ [], cli_ok))
      else usage_error sh

  -- The past line `v`, which is not compared with the number of lines that there are.
  unfoldable pub history_line : ℕ → Shell Fs → Ran Fs
  unfolding sh_string
  history_line v sh =
      if ltb v (2 ^ 31)
      then if ltb v history_maxitems
        then try_some (sh_string command_buf_size (sh.cmd_records.cmd_buf v) 0)
            (λ s. finishes (sh, printf (codes "%s\r\n") (str s ∷ []) ∷ [], cli_ok))
        else beyond
      else finishes (sh, [], cli_ok)

  unfoldable pub history_func : CmdParsed → Shell Fs → Ran Fs
  unfolding show_loop history_line string_to_int match_cmd sh_string
  history_func cmd sh =
      if cmd.argc == 2
      then try_some (argument cmd 1) (λ a.
        if match_cmd (codes "show") a
        then try_some (show_loop sh.cmd_records.level 1 sh.cmd_records)
            (λ out. finishes (sh, out, cli_ok))
        else if match_cmd (codes "clear") a
        then finishes (record sh { cmd_records = record sh.cmd_records { level = 0 } }, [], cli_ok)
        else history_line (string_to_int a) sh)
      else usage_error sh

  unfoldable pub exit_func : CmdParsed → Shell Fs → Ran Fs
  exit_func cmd sh = finishes (record sh { shell_should_exit = true }, say "Bye.\r\n", cli_ok)

  -- The column `func` of the table.
  abbrev pub funcs : List (List ℕ × (CmdParsed → Shell Fs → Ran Fs))
  funcs =
      (codes "help", help_func)
      ∷ (codes "echo", echo_func)
      ∷ (codes "history", history_func)
      ∷ (codes "exit", exit_func)
      ∷ (codes "ufat", ufat_func u reads)
      ∷ (codes "touch", touch_func u reads)
      ∷ (codes "mkdir", mkdir_func u reads)
      ∷ (codes "sync", sync_func u reads)
      ∷ (codes "ls", ls_func u reads)
      ∷ (codes "cd", cd_func u reads)
      ∷ []

  -- The usage of a command that says its arguments are wrong.
  abbrev pub with_usage : List ℕ → Shell Fs × Output × CliStatus → Shell Fs × Output × CliStatus
  with_usage name (sh, out, cli_invalid_args) = (
    sh,
    out ++ elim (find_cmd sh.cmd_tbl_items name (usages sh.cmd_tbl_items)) [
      | some usage ↦ usage
      | none ↦ []
    ],
    cli_invalid_args,
  )
  with_usage name (sh, out, status) = (sh, out, status)

  abbrev pub run_func :
      CmdParsed → Shell Fs → List ℕ → Option (CmdParsed → Shell Fs → Ran Fs) → Ran Fs
  run_func cmd sh name none = finishes (sh, [], cli_cmd_not_found)
  run_func cmd sh name (some func) =
      when_ran (func cmd sh) (λ result. finishes (with_usage name result))

  unfoldable pub execute_command : CmdParsed → Shell Fs → Ran Fs
  unfolding find_cmd help_func echo_func history_func exit_func ufat_func touch_func mkdir_func
      sync_func ls_func cd_func sh_string
  execute_command cmd sh =
      try_some (argument cmd 0)
        (λ name. run_func cmd sh name (find_cmd sh.cmd_tbl_items name funcs))

  -- The names of the first `n` commands become keywords.
  abbrev pub add_names : ℕ → List String → ShellKeywords → Option ShellKeywords
  add_names zero names k = some k
  add_names (suc n) [] k = some k
  add_names (suc n) (s ∷ names) k =
      when_some (shell_add_keyword (codes s) k) (λ k1. add_names n names k1)

  -- `"%s "` for `n` keywords from `i` on.
  abbrev pub say_keywords : ℕ → ℕ → ShellKeywords → Option Output
  say_keywords zero i k = some []
  say_keywords (suc n) i k = when_some (keyword k i) (λ s.
      when_some (say_keywords n (i + 1) k) (λ out. some (printf (codes "%s ") (str s ∷ []) ∷ out)))

  -- `cmd_tbl_init()` and `shell_init()`
  abbrev pub cmd_tbl_size : ℕ
  cmd_tbl_size = length cmd_names

  unfoldable pub shell_init : Shell Fs → Option (Shell Fs × Output)
  unfolding shell_add_keyword keyword
  shell_init sh = when_some (add_names cmd_tbl_size cmd_names sh.shell_keywords) (λ k.
      when_some (say_keywords k.keywords_cnt 0 k) (λ names. some (
        record sh { cmd_tbl_items = cmd_tbl_size; shell_keywords = k },
        say "********************************************************************\r\n"
            ++ say "** this is a simple cli, type 'help' to see what cmds is supported.\r\n"
            ++ say "********************************************************************\r\n"
            ++ say "all supported keywords are { "
            ++ names
            ++ say "}\r\n"
            ++ say "\r\n",
      )))
