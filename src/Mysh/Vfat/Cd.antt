-- ===== src/Mysh/Vfat/Cd.antt =====
-- mysh/fs/vfat.c: `cd`, from the calls of the library to the path and the prompt.
use my_exercise.Prelude.{
  ℕ, suc, ◌+◌, ◌<◌, ◌≡◌, ◌≢◌, ◌∙◌, refl, ap, sym, true, false, some, List, [], ◌∷◌, ◌++◌, length,
  take, ◌==◌, ◌||◌, if◌then◌else◌, Bool-cases, inl, inr, arith,
}
use my_exercise.Bytes.{Memory}
use my_exercise.Mysh.Text.{codes}
use my_exercise.Mysh.Editor.{ShellKeywords}
use my_exercise.Mysh.Complete.{match_cmd}
use my_exercise.Mysh.Complete.Match.{match_cmd-differ}
use my_exercise.Mysh.Parse.{CmdParsed, argument}
use my_exercise.Mysh.Shell.{
  Shell, Output, say, printf, str, cli_ok, cli_exe_error, shell_set_prompt, finishes, when_ran,
  try_some,
}
use my_exercise.Mysh.Vfat.{
  Ufat, Ran, Visited, Dirent, DirRead, dir_error, entry, at_end, Visit, say_name, say_added,
  each_file, when_open, usage_error, after_added, in_subdir, enter_dir, after_removed, in_found,
  cd_func, change_path, cur_path, path_up, path_down, full_path_len, set_path, go_down,
}
use my_exercise.Mysh.Vfat.Path.{
  path_of, IsName, AreNames, HasString, cur_path-HasString, path_down-path_of, path_up-path_of,
}

module _ {Fs : Type 0} (u : Ufat Fs) (reads : ℕ) where
  -- The shell with another path, and a prompt of its first 252 bytes and `>>`.
  abbrev pub with_path : Memory → List ℕ → Shell Fs → Shell Fs
  with_path p s sh = record sh { prompt = take 252 s ++ codes ">>"; cur_dir_full = p }

  set_path_lem :
      (sh : Shell Fs) (p : Memory) (s : List ℕ)
      → HasString p s
      → set_path u reads sh p ≡ finishes (with_path p s sh, (shell_set_prompt s).1, cli_ok)
  unfolding shell_set_prompt
  set_path_lem sh p s held =
      ap (λ o. try_some o (λ s. finishes (with_path p s sh, (shell_set_prompt s).1, cli_ok)))
        (cur_path-HasString p s held)

  abbrev down : Shell Fs → List ℕ → Ran Fs
  down sh name =
      try_some (cur_path sh.cur_dir_full)
        (λ s. go_down u reads sh (path_down name (length s) sh.cur_dir_full))

  -- The end of `cd` into a directory.
  change_path-down :
      (name : List ℕ) (names : List (List ℕ)) (sh : Shell Fs)
      → HasString sh.cur_dir_full (path_of names)
      → AreNames names
      → IsName name
      → match_cmd (codes ".") name ≡ false
      → match_cmd (codes "..") name ≡ false
      → length (path_of names) + 1 + length name < full_path_len
      → (p : Memory) × (change_path u reads name sh
          ≡ finishes (
            with_path p (path_of (name ∷ names)) sh,
            (shell_set_prompt (path_of (name ∷ names))).1,
            cli_ok,
          ))
        × HasString p (path_of (name ∷ names))
  unfolding change_path
  change_path-down name names sh v a n not_dot not_up room =
      let (p, done, held) = path_down-path_of name names sh.cur_dir_full v a n room in
      (
        p,
        ap
              (λ b.
                if b
                then finishes (sh, [], cli_ok)
                else if match_cmd (codes "..") name
                then try_some (path_up sh.cur_dir_full) (set_path u reads sh)
                else down sh name)
              not_dot
            ∙ ap
                (λ b.
                  if b
                  then try_some (path_up sh.cur_dir_full) (set_path u reads sh)
                  else down sh name)
                not_up
            ∙ ap
                (λ o.
                  try_some o (λ s. go_down u reads sh (path_down name (length s) sh.cur_dir_full)))
                (cur_path-HasString sh.cur_dir_full (path_of names) v)
            ∙ ap (go_down u reads sh) done
            ∙ set_path_lem sh p (path_of (name ∷ names)) held,
        held,
      )

  -- The end of `cd ..`.
  change_path-up :
      (name : List ℕ) (names : List (List ℕ)) (sh : Shell Fs)
      → HasString sh.cur_dir_full (path_of (name ∷ names))
      → AreNames (name ∷ names)
      → (p : Memory) × (change_path u reads (codes "..") sh
          ≡ finishes (with_path p (path_of names) sh, (shell_set_prompt (path_of names)).1, cli_ok))
        × HasString p (path_of names)
  unfolding change_path
  change_path-up name names sh v a =
      let (p, done, held) = path_up-path_of name names sh.cur_dir_full v a.1 a.2 in
      (
        p,
        ap (λ o. try_some o (set_path u reads sh)) done ∙ set_path_lem sh p (path_of names) held,
        held,
      )

-- Within `n` reads the library comes to the end of the directory.
pub data DirEnds {Fs : Type 0} (u : Ufat Fs) : ℕ → Fs → Fs → Type 0 where
  dir_end : {n : ℕ} {fs fs1 : Fs} → u.ufat_dir_read fs ≡ (fs1, at_end) → DirEnds u (suc n) fs fs1
  next_file :
      {n : ℕ} {fs fs1 fs2 : Fs} {inf : Dirent} {name : List ℕ}
      → u.ufat_dir_read fs ≡ (fs1, entry inf name)
      → DirEnds u n fs1 fs2
      → DirEnds u (suc n) fs fs2

-- The library finds the directory and opens it, and comes to the end of the old directory and of the new one
-- within `reads` reads each. It keeps `before` at first, and `after` then.
pub record Opens {Fs : Type 0} (u : Ufat Fs) (reads : ℕ) (name : List ℕ) (before after : Fs)
    : Type 0 where
  pub found : Fs
  pub left : Fs
  pub opened : Fs
  pub inf : Dirent
  pub finds : u.ufat_dir_find name before ≡ (found, some inf)
  pub reads_old : DirEnds u reads found left
  pub opens : u.ufat_open_subdir inf left ≡ (opened, false)
  pub reads_new : DirEnds u reads opened after

module _ {Fs : Type 0} (u : Ufat Fs) (reads : ℕ) where
  abbrev visit_read : ℕ → Visit u reads → ShellKeywords → Fs × DirRead → Visited u reads
  visit_read n visit k r =
      let (fs1, read) = r in
      elim read [
        | dir_error ↦ finishes (fs1, k, [], true)
        | at_end ↦ finishes (fs1, k, [], false)
        | entry inf name ↦ try_some (visit inf name k) (λ (k1, out1).
            when_ran (each_file u reads n visit fs1 k1)
              (λ (fs2, k2, out2, failed). finishes (fs2, k2, out1 ++ out2, failed)))
      ]

  each_file-read :
      (n : ℕ) (visit : Visit u reads) (fs : Fs) (k : ShellKeywords) (r : Fs × DirRead)
      → u.ufat_dir_read fs ≡ r
      → each_file u reads (suc n) visit fs k ≡ visit_read n visit k r
  unfolding each_file
  each_file-read n visit fs k r e = ap (visit_read n visit k) e

  -- A loop whose visits keep the keywords.
  each_file-DirEnds :
      (n : ℕ) (visit : Visit u reads) (fs fs1 : Fs) (k : ShellKeywords)
      → ((inf : Dirent) (name : List ℕ) → (out : Output) × (visit inf name k ≡ some (k, out)))
      → DirEnds u n fs fs1
      → (out : Output) × (each_file u reads n visit fs k ≡ finishes (fs1, k, out, false))
  each_file-DirEnds _ visit fs fs1 k keeps (dir_end {n} e) = ([], each_file-read n visit fs k _ e)
  each_file-DirEnds _ visit fs fs1 k keeps (next_file {n} {fs1 = fs2} {inf} {name} e rest) =
      let (out1, e1) = keeps inf name in
      let (out2, e2) = each_file-DirEnds n visit fs2 fs1 k keeps rest in
      (out1 ++ out2, each_file-read n visit fs k _ e ∙ rw (e1, e2) refl)

  say_added-keeps :
      (k : ShellKeywords) (inf : Dirent) (name : List ℕ)
      → (out : Output) × (say_added u reads inf name k ≡ some (k, out))
  say_added-keeps k inf name =
      elim (Bool-cases (match_cmd (codes ".") name || match_cmd (codes "..") name)) [
        | inl y ↦ ([], rw y refl)
        | inr n ↦ (printf (codes "adding %s\r\n") (str name ∷ []) ∷ [], rw n refl)
      ]

  enter_dir-opened :
      (name : List ℕ) (inf : Dirent) (opened after : Fs) (sh t : Shell Fs) (out : Output)
      → u.ufat_open_subdir inf sh.fs ≡ (opened, false)
      → DirEnds u reads opened after
      → change_path u reads name (record sh { fs = after }) ≡ finishes (t, out, cli_ok)
      → (out : Output) × (enter_dir u reads name inf sh ≡ finishes (t, out, cli_ok))
  unfolding enter_dir
  enter_dir-opened name inf opened after sh t out opens ends done =
      let (out2, e2) =
        each_file-DirEnds reads (say_added u reads) opened after sh.shell_keywords
          (say_added-keeps sh.shell_keywords) ends in
      (
        out2 ++ out,
        ap (in_subdir u reads name sh) opens
            ∙ ap (λ ran. when_ran ran (after_added u reads name sh)) e2
            ∙ ap (λ ran. when_ran ran (λ (sh3, out3, status). finishes (sh3, out2 ++ out3, status)))
                done,
      )

  cd_func-entered :
      (cmd : CmdParsed) (name : List ℕ) (sh t : Shell Fs) (after : Fs) (out : Output)
      → cmd.argc ≡ 2
      → argument cmd 1 ≡ some name
      → u.has_dev sh.fs ≡ true
      → Opens u reads name sh.fs after
      → change_path u reads name (record sh { fs = after }) ≡ finishes (t, out, cli_ok)
      → (out : Output) × (cd_func u reads cmd sh ≡ finishes (t, out, cli_ok))
  unfolding cd_func
  cd_func-entered cmd name sh t after out two arg dev o done =
      let count : (cmd.argc == 2) ≡ true = ground (arith, two) in
      let (out1, e1) =
        each_file-DirEnds reads (say_name u reads "removing %s\r\n") o.found o.left
          sh.shell_keywords (λ inf name. (_, refl)) o.reads_old in
      let (out2, e2) =
        enter_dir-opened name o.inf o.opened after (record sh { fs = o.left }) t out o.opens
          o.reads_new done in
      let find : List ℕ → Ran Fs = λ name. in_found u reads name sh (u.ufat_dir_find name sh.fs) in
      (
        out1 ++ out2,
        ap
              (λ b.
                if b then when_open u reads sh (try_some (argument cmd 1) find) else usage_error sh)
              count
            ∙ ap
                (λ b.
                  if b
                  then try_some (argument cmd 1) find
                  else finishes
                      (sh, say "ufat has not open, you should open it first!\r\n", cli_exe_error))
                dev
            ∙ ap (λ o. try_some o find) arg
            ∙ ap (in_found u reads name sh) o.finds
            ∙ ap (λ ran. when_ran ran (after_removed u reads name o.inf sh)) e1
            ∙ ap (λ ran. when_ran ran (λ (sh3, out3, status). finishes (sh3, out1 ++ out3, status)))
                e2,
      )

  -- Where the file system is open, `cur_dir_full` holds the path of some names, none of them empty or with a '/', and
  -- the library finds a directory whose name has no '/' and is neither `.` nor `..`, opens it, and reads both
  -- directories to their ends within `reads` reads each: `cd` with this name returns CLI_OK. `cur_dir_full` then holds the
  -- path of these names with the new one behind them, when it fits with a byte to spare, and the prompt is the first 252
  -- bytes of this path and `>>`. The file system is what the library makes of it; nothing else of the shell changes.
  pub cd_func-down :
      (cmd : CmdParsed) (name : List ℕ) (names : List (List ℕ)) (sh : Shell Fs) (after : Fs)
      → cmd.argc ≡ 2
      → argument cmd 1 ≡ some name
      → u.has_dev sh.fs ≡ true
      → Opens u reads name sh.fs after
      → HasString sh.cur_dir_full (path_of names)
      → AreNames names
      → IsName name
      → name ≢ codes "."
      → name ≢ codes ".."
      → length (path_of names) + 1 + length name < full_path_len
      → (p : Memory) × (out : Output) × (cd_func u reads cmd sh
          ≡ finishes (
            record sh {
              fs = after;
              cur_dir_full = p;
              prompt = take 252 (path_of (name ∷ names)) ++ codes ">>";
            },
            out,
            cli_ok,
          ))
        × HasString p (path_of (name ∷ names))
  cd_func-down cmd name names sh after two arg dev o v a n not_dot not_up room =
      let (p, done, held) =
        change_path-down u reads name names (record sh { fs = after }) v a n
          (match_cmd-differ (codes ".") name (λ e. not_dot (sym e)))
          (match_cmd-differ (codes "..") name (λ e. not_up (sym e))) room in
      let (out, e) = cd_func-entered cmd name sh _ after _ two arg dev o done in (p, out, e, held)

  -- Where the file system is open, `cur_dir_full` holds the path of some names, at least one, none of them empty or with
  -- a '/', and the library finds the directory `..`, opens it, and reads both directories to their ends within `reads`
  -- reads each: `cd ..` returns CLI_OK. `cur_dir_full` then holds the path without the innermost name, and the prompt is the
  -- first 252 bytes of this path and `>>`. The file system is what the library makes of it; nothing else of the shell changes.
  pub cd_func-up :
      (cmd : CmdParsed) (name : List ℕ) (names : List (List ℕ)) (sh : Shell Fs) (after : Fs)
      → cmd.argc ≡ 2
      → argument cmd 1 ≡ some (codes "..")
      → u.has_dev sh.fs ≡ true
      → Opens u reads (codes "..") sh.fs after
      → HasString sh.cur_dir_full (path_of (name ∷ names))
      → AreNames (name ∷ names)
      → (p : Memory) × (out : Output) × (cd_func u reads cmd sh
          ≡ finishes (
            record sh {
              fs = after;
              cur_dir_full = p;
              prompt = take 252 (path_of names) ++ codes ">>";
            },
            out,
            cli_ok,
          ))
        × HasString p (path_of names)
  cd_func-up cmd name names sh after two arg dev o v a =
      let (p, done, held) = change_path-up u reads name names (record sh { fs = after }) v a in
      let (out, e) = cd_func-entered cmd (codes "..") sh _ after _ two arg dev o done in
      (p, out, e, held)
