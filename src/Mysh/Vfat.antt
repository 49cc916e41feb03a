-- ===== src/Mysh/Vfat.antt =====
-- mysh/fs/vfat.c: the commands on files. The library ufat is a parameter, the record `Ufat`: each of its calls takes and
-- gives what the library keeps, with `true` for a return code that is not 0.
pub mod Path
pub mod Cd
pub mod Files
use Prim.Native.String.{String}
use my_exercise.Prelude.{
  ℕ, zero, suc, ◌+◌, ◌-◌, ◌*◌, ◌^◌, ◌==◌, leb, ltb, ◌||◌, if◌then◌else◌, Bool, true, false, Option,
  none, some, List, [], ◌∷◌, ◌++◌, length, map,
}
use my_exercise.Bytes.{Memory, store8}
use my_exercise.Mysh.Text.{codes, sh_string}
use my_exercise.Mysh.Editor.{when_some, ShellKeywords}
use my_exercise.Mysh.Complete.{match_cmd, put_bytes, shell_add_keyword}
use my_exercise.Mysh.Parse.{CmdParsed, argument}
use my_exercise.Mysh.Shell.{
  CliStatus, cli_ok, cli_invalid_args, cli_exe_error, Value, str, num, Call, printf, Output, say,
  Shell, shell_set_prompt, Run, finishes, beyond, endless, when_ran, try_some,
}

abbrev pub full_path_len : ℕ
full_path_len = 2048

-- `struct ufat_dirent`: the numbers of its date and of its time, its attributes A, S, H, R, D, and its size.
pub record Dirent : Type 0 where
  pub date : List ℕ
  pub time : List ℕ
  pub attributes : List Bool
  pub file_size : ℕ

-- What `ufat_dir_read` returns: a file and its name, 1 at the end, or a negative code.
pub data DirRead : Type 0 where
  entry : Dirent → List ℕ → DirRead
  at_end dir_error : DirRead

pub record Ufat (Fs : Type 0) : Type 0 where
  pub ufat_mkfs : Fs → Fs × Bool
  pub ufat_open : Fs → Fs × Bool
  pub ufat_open_root : Fs → Fs
  pub has_dev : Fs → Bool
  -- `log2_blocks_per_cluster`, and the other numbers of `struct ufat_bpb` in the order of their lines
  pub log2_blocks_per_cluster : Fs → ℕ
  pub bpb_type : Fs → ℕ
  pub bpb_numbers : Fs → List ℕ
  pub ufat_sync : Fs → Fs × Bool
  pub ufat_dir_read : Fs → Fs × DirRead
  pub ufat_dir_rewind : Fs → Fs
  pub ufat_dir_mkfile : List ℕ → Fs → Fs × Bool
  pub ufat_dir_create : List ℕ → Fs → Fs × Bool
  pub ufat_dir_find : List ℕ → Fs → Fs × Option Dirent
  pub ufat_open_subdir : Dirent → Fs → Fs × Bool

abbrev pub Ran : Type 0 → Type 0
Ran Fs = Run (Shell Fs × Output × CliStatus)

abbrev pub usage_error : {Fs : Type 0} → Shell Fs → Ran Fs
usage_error sh = finishes (sh, [], cli_invalid_args)

-- `cur_dir_full` as a string.
abbrev pub cur_path : Memory → Option (List ℕ)
cur_path p = sh_string full_path_len p 0

abbrev pub slash : ℕ
slash = 47

-- The last '/' at or before `i`.
unfoldable pub last_slash : ℕ → Memory → Option ℕ
last_slash zero p = if p 0 == slash then some 0 else none
last_slash (suc i) p =
    let rest = last_slash i p in if p (suc i) == slash then some (suc i) else rest

-- The path without its last name.
unfoldable pub path_up : Memory → Option Memory
unfolding last_slash store8 sh_string
path_up p =
    when_some (cur_path p)
      (λ s. when_some (last_slash (length s) p) (λ i. some (store8 p (if i == 0 then 1 else i) 0)))

-- With a name added: the path, or that there is no room for it, or a write behind the end of the array.
pub data PathDown : Type 0 where
  longer : Memory → PathDown
  no_room : PathDown
  behind_end : PathDown

unfoldable pub path_down : List ℕ → ℕ → Memory → PathDown
unfolding store8
path_down name orilen p =
    if ltb full_path_len (orilen + 1 + length name)
    then no_room
    else if orilen == 1
    then longer (store8 (put_bytes p orilen name) (orilen + length name) 0)
    else if orilen + 1 + length name == full_path_len
    then behind_end
    else longer
        (store8 (put_bytes (store8 p orilen slash) (orilen + 1) name) (orilen + 1 + length name) 0)

module _ {Fs : Type 0} (u : Ufat Fs) (reads : ℕ) where
  -- `CHECK_FS_OPEN()`
  abbrev pub when_open : Shell Fs → Ran Fs → Ran Fs
  when_open sh go =
      if u.has_dev sh.fs
      then go
      else finishes (sh, say "ufat has not open, you should open it first!\r\n", cli_exe_error)

  -- A call of the library, with CLI_EXE_ERROR for a return code that is not 0.
  abbrev pub by_rc : Shell Fs → Fs × Bool → Ran Fs
  by_rc sh (fs, true) = finishes (record sh { fs = fs }, [], cli_exe_error)
  by_rc sh (fs, false) = finishes (record sh { fs = fs }, [], cli_ok)

  -- The loops over a directory, which do `visit` for each file, for at most `n` reads. `true` is an error of the library.
  abbrev pub Visit : Type 0
  Visit = Dirent → List ℕ → ShellKeywords → Option (ShellKeywords × Output)

  abbrev pub Visited : Type 0
  Visited = Run (Fs × ShellKeywords × Output × Bool)

  unfoldable pub each_file : ℕ → Visit → Fs → ShellKeywords → Visited
  each_file zero visit fs k = endless
  each_file (suc n) visit fs k =
      let (fs1, read) = u.ufat_dir_read fs in
      elim read [
        | dir_error ↦ finishes (fs1, k, [], true)
        | at_end ↦ finishes (fs1, k, [], false)
        | entry inf name ↦ try_some (visit inf name k) (λ (k1, out1).
            when_ran (each_file n visit fs1 k1)
              (λ (fs2, k2, out2, failed). finishes (fs2, k2, out1 ++ out2, failed)))
      ]

  abbrev pub say_name : String → Visit
  say_name fmt inf name k = some (k, printf (codes fmt) (str name ∷ []) ∷ [])

  abbrev pub status_of : Bool → CliStatus
  status_of failed = if failed then cli_exe_error else cli_ok

  abbrev pub new_prompt : Shell Fs → List ℕ → Shell Fs × Output
  new_prompt sh p = let (prompt, out) = shell_set_prompt p in (record sh { prompt = prompt }, out)

  -- The names `.` and `..` are not told.
  abbrev pub say_added : Visit
  say_added inf name k =
      if match_cmd (codes ".") name || match_cmd (codes "..") name
      then some (k, [])
      else say_name "adding %s\r\n" inf name k

  -- The path that is set, and the prompt that shows it.
  abbrev pub set_path : Shell Fs → Memory → Ran Fs
  set_path sh p = try_some (cur_path p) (λ s.
      let (sh1, out) = new_prompt sh s in finishes (record sh1 { cur_dir_full = p }, out, cli_ok))

  abbrev pub go_down : Shell Fs → PathDown → Ran Fs
  go_down sh no_room = finishes (sh, say "FULL_PATH_LEN limit!\r\n", cli_exe_error)
  go_down sh behind_end = beyond
  go_down sh (longer p) = set_path sh p

  -- The end of `cd`.
  unfoldable pub change_path : List ℕ → Shell Fs → Ran Fs
  unfolding match_cmd path_up path_down shell_set_prompt sh_string
  change_path name sh =
      if match_cmd (codes ".") name
      then finishes (sh, [], cli_ok)
      else if match_cmd (codes "..") name
      then try_some (path_up sh.cur_dir_full) (set_path sh)
      else try_some (cur_path sh.cur_dir_full)
          (λ s. go_down sh (path_down name (length s) sh.cur_dir_full))

  -- `cd` behind the loop over the new directory.
  abbrev pub after_added : List ℕ → Shell Fs → Fs × ShellKeywords × Output × Bool → Ran Fs
  after_added name sh (fs2, k, out2, failed2) =
      if failed2
      then finishes (record sh { fs = fs2 }, out2, cli_exe_error)
      else when_ran (change_path name (record sh { fs = fs2 }))
          (λ (sh3, out3, status). finishes (sh3, out2 ++ out3, status))

  -- `cd` from what `ufat_open_subdir` gives on: the files of the directory are told, and the path is changed.
  abbrev pub in_subdir : List ℕ → Shell Fs → Fs × Bool → Ran Fs
  in_subdir name sh (fs1, failed1) =
      if failed1
      then finishes (record sh { fs = fs1 }, [], cli_exe_error)
      else when_ran (each_file reads say_added fs1 sh.shell_keywords) (after_added name sh)

  unfoldable pub enter_dir : List ℕ → Dirent → Shell Fs → Ran Fs
  unfolding each_file match_cmd change_path
  enter_dir name inf sh = in_subdir name sh (u.ufat_open_subdir inf sh.fs)

  -- `cd` behind the loop over the old directory.
  abbrev pub after_removed :
      List ℕ → Dirent → Shell Fs → Fs × ShellKeywords × Output × Bool → Ran Fs
  after_removed name inf sh (fs2, k, out2, failed2) =
      if failed2
      then finishes (record sh { fs = fs2 }, out2, cli_exe_error)
      else when_ran (enter_dir name inf (record sh { fs = fs2 }))
          (λ (sh3, out3, status). finishes (sh3, out2 ++ out3, status))

  -- `cd` from what `ufat_dir_find` gives on.
  abbrev pub in_found : List ℕ → Shell Fs → Fs × Option Dirent → Ran Fs
  in_found name sh (fs1, none) =
      finishes (record sh { fs = fs1 }, say "cannot find this dir.\r\n", cli_exe_error)
  in_found name sh (fs1, some inf) =
      when_ran (each_file reads (say_name "removing %s\r\n") fs1 sh.shell_keywords)
        (after_removed name inf sh)

  unfoldable pub cd_func : CmdParsed → Shell Fs → Ran Fs
  unfolding each_file enter_dir sh_string
  cd_func cmd sh =
      if cmd.argc == 2
      then when_open sh
          (try_some (argument cmd 1) (λ name. in_found name sh (u.ufat_dir_find name sh.fs)))
      else usage_error sh
