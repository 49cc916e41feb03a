-- ===== src/Mysh/Vfat/Files.antt =====
-- mysh/fs/vfat.c: the commands on files and on the file system as a whole.
use Prim.Native.String.{String}
use my_exercise.Prelude.{ℕ, ◌^◌, ◌==◌, if◌then◌else◌, Bool, some, List, [], ◌∷◌, ◌++◌}
use my_exercise.Bytes.{store8}
use my_exercise.Mysh.Text.{codes, sh_string}
use my_exercise.Mysh.Editor.{when_some}
use my_exercise.Mysh.Complete.{match_cmd, shell_add_keyword}
use my_exercise.Mysh.Parse.{CmdParsed, argument}
use my_exercise.Mysh.Shell.{
  cli_ok, cli_exe_error, Value, str, num, printf, Output, Shell, shell_set_prompt, finishes,
  when_ran, try_some,
}
use my_exercise.Mysh.Vfat.{
  Ufat, Ran, usage_error, Visit, each_file, when_open, by_rc, status_of, new_prompt, slash,
}

-- The numbers of `ufat info`, a line each.
abbrev info_lines : List String → List ℕ → Output
info_lines [] ns = []
info_lines (s ∷ names) [] = []
info_lines (s ∷ names) (n ∷ ns) = printf (codes s) (num n ∷ []) ∷ info_lines names ns

module _ {Fs : Type 0} (u : Ufat Fs) (reads : ℕ) where
  abbrev pub add_name : Visit u reads
  add_name inf name k = when_some (shell_add_keyword name k) (λ k1. some (k1, []))

  unfoldable pub ufat_open_func : Shell Fs → Ran Fs
  unfolding each_file shell_set_prompt store8
  ufat_open_func sh =
      let (fs1, failed) = u.ufat_open sh.fs in
      if failed
      then finishes (record sh { fs = fs1 }, [], cli_exe_error)
      else let (sh1, out1) = new_prompt u reads sh (slash ∷ []) in
        when_ran (each_file u reads reads add_name (u.ufat_open_root fs1) sh.shell_keywords)
          (λ (fs2, k, out2, failed2). finishes (
            record sh1 {
              fs = fs2;
              shell_keywords = k;
              cur_dir_full = store8 (store8 sh.cur_dir_full 0 slash) 1 0;
            },
            out1 ++ out2,
            status_of u reads failed2,
          ))

  unfoldable pub ufat_info_func : Shell Fs → Output
  ufat_info_func sh =
      printf (codes "Type:                       FAT%d\r\n") (num (u.bpb_type sh.fs) ∷ [])
      ∷ printf (codes "Blocks per cluster:         %u\r\n")
          (num (2 ^ u.log2_blocks_per_cluster sh.fs) ∷ [])
      ∷ info_lines
          ("FAT size (blocks):          %u\r\n" ∷ "FAT offset (block):         %u\r\n"
            ∷ "FAT count:                  %u\r\n" ∷ "Cluster starting block:     %u\r\n"
            ∷ "Clusters:                   %u\r\n" ∷ "Root directory block start: %u\r\n"
            ∷ "Root directory block count: %u\r\n" ∷ "Root directory cluster:     %u\r\n" ∷ [])
          (u.bpb_numbers sh.fs)

  unfoldable pub ufat_func : CmdParsed → Shell Fs → Ran Fs
  unfolding ufat_open_func ufat_info_func match_cmd sh_string
  ufat_func cmd sh =
      if cmd.argc == 2
      then try_some (argument cmd 1) (λ a.
        if match_cmd (codes "format") a
        then by_rc u reads sh (u.ufat_mkfs sh.fs)
        else if match_cmd (codes "open") a
        then ufat_open_func sh
        else if match_cmd (codes "info") a
        then when_open u reads sh (finishes (sh, ufat_info_func sh, cli_ok))
        else usage_error sh)
      else usage_error sh

  unfoldable pub touch_func : CmdParsed → Shell Fs → Ran Fs
  unfolding sh_string
  touch_func cmd sh =
      if cmd.argc == 2
      then when_open u reads sh
          (try_some (argument cmd 1) (λ a. by_rc u reads sh (u.ufat_dir_mkfile a sh.fs)))
      else usage_error sh

  unfoldable pub mkdir_func : CmdParsed → Shell Fs → Ran Fs
  unfolding sh_string
  mkdir_func cmd sh =
      if cmd.argc == 2
      then when_open u reads sh
          (try_some (argument cmd 1) (λ a. by_rc u reads sh (u.ufat_dir_create a sh.fs)))
      else usage_error sh

  unfoldable pub sync_func : CmdParsed → Shell Fs → Ran Fs
  sync_func cmd sh =
      if cmd.argc == 1
      then when_open u reads sh (by_rc u reads sh (u.ufat_sync sh.fs))
      else usage_error sh

  abbrev pub nums : List ℕ → List Value
  nums [] = []
  nums (n ∷ ns) = num n ∷ nums ns

  -- The letters of the attributes that are set.
  abbrev pub letters : List ℕ → List Bool → List Value
  letters [] bs = []
  letters (c ∷ cs) [] = []
  letters (c ∷ cs) (b ∷ bs) = num (if b then c else 32) ∷ letters cs bs

  abbrev pub list_file : Visit u reads
  list_file inf name k = some (
    k,
    printf (codes "%04d-%02d-%02d ") (nums inf.date)
        ∷ printf (codes "%2d:%02d:%02d ") (nums inf.time)
        ∷ printf (codes "%c%c%c%c%c ") (letters (codes "ASHRD") inf.attributes)
        ∷ printf (codes "%9u ") (num inf.file_size ∷ [])
        ∷ printf (codes "%s\r\n") (str name ∷ [])
        ∷ [],
  )

  unfoldable pub ls_func : CmdParsed → Shell Fs → Ran Fs
  unfolding each_file
  ls_func cmd sh =
      if cmd.argc == 1
      then when_open u reads sh (
          when_ran (each_file u reads reads list_file (u.ufat_dir_rewind sh.fs) sh.shell_keywords)
            (λ (fs1, k, out, failed).
              finishes (record sh { fs = fs1; shell_keywords = k }, out, status_of u reads failed)))
      else usage_error sh
