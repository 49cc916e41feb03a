-- ===== src/Mysh/Tests.antt =====
-- mysh/: the theorems at concrete inputs.
use my_exercise.Prelude.{
  ℕ, zero, suc, ◌<◌, ◌≡◌, ◌≢◌, refl, ap, length, ◌+◌, true, false, none, some, List, [], ◌∷◌, ◌++◌,
  arith, leb, ◌==◌, ◌||◌, ◌&&◌, if◌then◌else◌, get_elem?,
}
use my_exercise.Bytes.{Memory, store8}
use my_exercise.CString.{has_prefix}
use my_exercise.Mysh.Text.{codes, sh_string}
use my_exercise.Mysh.Editor.{command_buf_size, CmdRecords, ShellKeywords, Line}
use my_exercise.Mysh.Editor.Zipper.{Key, typed, move_left}
use my_exercise.Mysh.Editor.Screen.{Displays, feed}
use my_exercise.Mysh.Input.{Reader, line_read, waits, read_input}
use my_exercise.Mysh.Complete.{put_bytes, auto_complete}
use my_exercise.Mysh.Complete.Candidates.{HasKeywords}
use my_exercise.Mysh.Complete.Tab.{auto_complete-candidates}
use my_exercise.Mysh.Command.{cmd_names}
use my_exercise.Mysh.Execute.Echo.{execute_loop-echo}
use my_exercise.Mysh.Execute.Lines.{AllDiffer, run_line-not_found}
use my_exercise.Mysh.Input.Press.{AreTypeable, keys_bytes}
use my_exercise.Mysh.Input.Edits.{read_input-edit_all, read_input-Displays}
use my_exercise.Mysh.Parse.{CmdParsed, parse_command}
use my_exercise.Mysh.Parse.Words.{Outcome}
use my_exercise.Mysh.Parse.Words.Whole.{parse_command-Outcome}
use my_exercise.Mysh.Shell.{Shell, Output, finishes, printf, putchars, str, cli_ok, add_record}
use my_exercise.Mysh.Shell.History.{Remembers, recalled, add_record-Remembers, recalled-past}
use my_exercise.Mysh.Vfat.{Ufat, Dirent, entry, at_end, cd_func}
use my_exercise.Mysh.Vfat.Path.{HasString, path_of}
use my_exercise.Mysh.Vfat.Cd.{Opens, next_file, dir_end, cd_func-down, cd_func-up}
use my_exercise.Mysh.Execute.{zeros, execute_loop, run_line}

abbrev records : CmdRecords
records = record { cmd_idx = 0; level = 0; cmd_buf = λ k. zeros }

abbrev keywords : ShellKeywords
keywords = record { keywords_cnt = 0; keywords_buf = zeros }

-- `a`, `b`, left, `c`
abbrev keys : List Key
keys = typed 97 ∷ typed 98 ∷ move_left ∷ typed 99 ∷ []

keys-AreTypeable : AreTypeable keys
keys-AreTypeable =
    ((omega arith, omega arith), ((omega arith, omega arith), ((omega arith, omega arith), tt)))

read_input-edit_all_example :
    (line : Memory) × (out : List ℕ) × (read_input records keywords [] zeros
        (keys_bytes keys ++ 13 ∷ 120 ∷ [])
      ≡ line_read line (120 ∷ []) out)
    × (sh_string command_buf_size line 0 ≡ some (97 ∷ 99 ∷ 98 ∷ []))
read_input-edit_all_example =
    read_input-edit_all records keywords [] zeros keys (120 ∷ []) keys-AreTypeable (omega arith)

read_input-Displays_example :
    (r : Reader) × (out : List ℕ) × (read_input records keywords [] zeros (keys_bytes keys)
      ≡ waits r out)
    × Displays (62 ∷ 62 ∷ []) (99 ∷ 97 ∷ []) (98 ∷ []) (feed out (62 ∷ 62 ∷ [], []))
read_input-Displays_example =
    read_input-Displays records keywords [] zeros keys (62 ∷ 62 ∷ []) keys-AreTypeable (omega arith)

-- The line `e "a b"` has two words.
parse_command-Outcome_example :
    Outcome (codes "e" ∷ codes "\"a b\"" ∷ []) (parse_command (codes "e \"a b\"") zeros)
parse_command-Outcome_example =
    parse_command-Outcome (codes "e \"a b\"") zeros
      (
        omega arith,
        omega arith,
        (
          omega arith,
          omega arith,
          (
            omega arith,
            omega arith,
            (
              omega arith,
              omega arith,
              (
                omega arith,
                omega arith,
                (omega arith, omega arith, (omega arith, omega arith, tt)),
              ),
            ),
          ),
        ),
      )
      (omega arith)

-- A file system that has no files.
abbrev empty_fs : Ufat Unit
empty_fs = record {
  ufat_mkfs = λ fs. (fs, false);
  ufat_open = λ fs. (fs, false);
  ufat_open_root = λ fs. fs;
  has_dev = λ fs. true;
  log2_blocks_per_cluster = λ fs. 0;
  bpb_type = λ fs. 32;
  bpb_numbers = λ fs. [];
  ufat_sync = λ fs. (fs, false);
  ufat_dir_read = λ fs. (fs, at_end);
  ufat_dir_rewind = λ fs. fs;
  ufat_dir_mkfile = λ name fs. (fs, true);
  ufat_dir_create = λ name fs. (fs, true);
  ufat_dir_find = λ name fs. (fs, none);
  ufat_open_subdir = λ inf fs. (fs, true);
}

-- The path `/`, and `/d`.
abbrev root_path : Memory
root_path a = if a == 0 then 47 else 0

abbrev d_path : Memory
d_path a = if a == 0 then 47 else if a == 1 then 100 else 0

abbrev shell_at : Memory → Shell Unit
shell_at p = record {
  cmd_records = records;
  shell_keywords = keywords;
  prompt = codes ">>";
  shell_should_exit = false;
  cmd_tbl_items = 10;
  cur_dir_full = p;
  fs = tt;
}

records-Remembers : Remembers records []
records-Remembers = record {
  slot = refl;
  level_past = omega arith;
  level_max = omega arith;
  lines = λ k near known. absurd (omega arith);
}

d_string : sh_string command_buf_size d_path 0 ≡ some (codes "/d")
unfolding sh_string
d_string = refl

add_record-Remembers_example :
    (r : CmdRecords) × (add_record d_path records ≡ some r) × Remembers r (codes "/d" ∷ [])
add_record-Remembers_example =
    add_record-Remembers records [] d_path (codes "/d") records-Remembers d_string

-- One line is kept, and it is the one before.
abbrev one_line : CmdRecords
one_line = record { cmd_idx = 1; level = 1; cmd_buf = λ k. d_path }

only_line :
    (k : ℕ) → k < 50 → k < 1 → sh_string command_buf_size d_path 0 ≡ get_elem? (codes "/d" ∷ []) k
only_line zero near known = d_string
only_line (suc k) near known = absurd (omega arith)

one_line-Remembers : Remembers one_line (codes "/d" ∷ [])
one_line-Remembers = record {
  slot = refl;
  level_past = omega arith;
  level_max = omega arith;
  lines = only_line;
}

recalled-past_example :
    recalled one_line 1
    ≡ (if leb 1 1 || (1 == 50 && 1 == 0) then get_elem? (codes "/d" ∷ []) 0 else none)
recalled-past_example =
    recalled-past one_line (codes "/d" ∷ []) 1 one_line-Remembers (omega arith) (omega arith)

root_path-HasString : HasString root_path (path_of [])
root_path-HasString = ((refl, tt), refl, (omega arith, tt), omega arith)

d_path-HasString : HasString d_path (path_of (codes "d" ∷ []))
d_path-HasString = ((refl, (refl, tt)), refl, (omega arith, (omega arith, tt)), omega arith)

-- A file system with a directory that is found under every name; the directory that it is found in has a file.
abbrev some_dir : Dirent
some_dir = record { date = []; time = []; attributes = []; file_size = 0 }

abbrev dir_fs : Ufat ℕ
dir_fs = record {
  ufat_mkfs = λ fs. (fs, false);
  ufat_open = λ fs. (fs, false);
  ufat_open_root = λ fs. fs;
  has_dev = λ fs. true;
  log2_blocks_per_cluster = λ fs. 0;
  bpb_type = λ fs. 32;
  bpb_numbers = λ fs. [];
  ufat_sync = λ fs. (fs, false);
  ufat_dir_read = λ fs. if fs == 1 then (2, entry some_dir (codes "f")) else (fs, at_end);
  ufat_dir_rewind = λ fs. fs;
  ufat_dir_mkfile = λ name fs. (fs, true);
  ufat_dir_create = λ name fs. (fs, true);
  ufat_dir_find = λ name fs. (fs + 1, some some_dir);
  ufat_open_subdir = λ inf fs. (fs + 1, false);
}

dir_fs-Opens : (name : List ℕ) → Opens dir_fs 2 name 0 3
dir_fs-Opens name = record {
  found = 1;
  left = 2;
  opened = 3;
  inf = some_dir;
  finds = refl;
  reads_old = next_file refl (dir_end refl);
  opens = refl;
  reads_new = dir_end refl;
}

abbrev dir_shell : Memory → Shell ℕ
dir_shell p = record {
  cmd_records = records;
  shell_keywords = keywords;
  prompt = codes ">>";
  shell_should_exit = false;
  cmd_tbl_items = 10;
  cur_dir_full = p;
  fs = 0;
}

abbrev cd_to : List ℕ → CmdParsed
cd_to name = record {
  argc = 2;
  argv = λ i. some i;
  args = put_bytes (put_bytes zeros 0 (codes "cd")) command_buf_size name;
}

first : List ℕ → ℕ
first [] = 0
first (c ∷ s) = c

cd_func-down_example :
    (p : Memory) × (out : Output) × (cd_func dir_fs 2 (cd_to (codes "d")) (dir_shell root_path)
      ≡ finishes (
        record (dir_shell root_path) { fs = 3; cur_dir_full = p; prompt = codes "/d>>" },
        out,
        cli_ok,
      ))
    × HasString p (codes "/d")
unfolding sh_string store8 first
cd_func-down_example =
    cd_func-down dir_fs 2 (cd_to (codes "d")) (codes "d") [] (dir_shell root_path) 3 refl refl refl
      (dir_fs-Opens (codes "d")) root_path-HasString tt (omega arith, omega arith, ground arith, tt)
      (λ e. omega (arith, ap first e)) (λ e. omega (arith, ap length e)) (omega arith)

cd_func-up_example :
    (p : Memory) × (out : Output) × (cd_func dir_fs 2 (cd_to (codes "..")) (dir_shell d_path)
      ≡ finishes (
        record (dir_shell d_path) { fs = 3; cur_dir_full = p; prompt = codes "/>>" },
        out,
        cli_ok,
      ))
    × HasString p (codes "/")
unfolding sh_string store8
cd_func-up_example =
    cd_func-up dir_fs 2 (cd_to (codes "..")) (codes "d") [] (dir_shell d_path) 3 refl refl refl
      (dir_fs-Opens (codes "..")) d_path-HasString
      (omega arith, (omega arith, omega arith, ground arith, tt), tt)

-- Two keywords, and the text `ls ec`.
abbrev two_keywords : ShellKeywords
two_keywords = record {
  keywords_cnt = 2;
  keywords_buf = put_bytes (put_bytes zeros 0 (codes "echo")) 32 (codes "exit");
}

two_keywords-HasKeywords : HasKeywords two_keywords (codes "echo" ∷ codes "exit" ∷ [])
unfolding store8
two_keywords-HasKeywords = record {
  count = refl;
  fits = omega arith;
  rows = (
    (
      (refl, (refl, (refl, (refl, tt)))),
      refl,
      (omega arith, (omega arith, (omega arith, (omega arith, tt)))),
      omega arith,
    ),
    (
      (
        (refl, (refl, (refl, (refl, tt)))),
        refl,
        (omega arith, (omega arith, (omega arith, (omega arith, tt)))),
        omega arith,
      ),
      tt,
    ),
  );
}

abbrev ls_ec : Line
ls_ec = record { buf = put_bytes zeros 0 (codes "ls ec"); i = 5; exbuf = zeros; ex = 2047 }

auto_complete-candidates_example :
    (l : Line) × (auto_complete two_keywords [] ls_ec ≡ some (l, codes "ho"))
    × (sh_string command_buf_size l.buf 0 ≡ some (codes "ls echo"))
    × (l.i ≡ 7)
unfolding store8 has_prefix
auto_complete-candidates_example =
    auto_complete-candidates two_keywords (codes "echo" ∷ codes "exit" ∷ []) [] (some (codes "ls"))
      (codes "ec") (codes "ho") 0 ls_ec two_keywords-HasKeywords
      (
        refl,
        (refl, (refl, (refl, (refl, (refl, tt))))),
        (omega arith, (omega arith, (omega arith, (omega arith, (omega arith, tt))))),
      )
      (ground arith, (ground arith, tt)) refl (omega arith, (omega arith, tt)) (omega arith)

-- `echo a`
abbrev echo_keys : List Key
echo_keys = typed 101 ∷ typed 99 ∷ typed 104 ∷ typed 111 ∷ typed 32 ∷ typed 97 ∷ []

echo_keys-AreTypeable : AreTypeable echo_keys
echo_keys-AreTypeable = (
  (omega arith, omega arith),
  (
    (omega arith, omega arith),
    (
      (omega arith, omega arith),
      ((omega arith, omega arith), ((omega arith, omega arith), ((omega arith, omega arith), tt))),
    ),
  ),
)

execute_loop-echo_example :
    (r : CmdRecords) × (echo : List ℕ) × (execute_loop empty_fs 1 2
        (keys_bytes echo_keys ++ 13 ∷ [])
        (shell_at root_path)
        []
      ≡ execute_loop empty_fs 1 1 []
          (record (shell_at root_path) { cmd_records = r })
          (printf (codes ">>") []
            ∷ putchars echo
            ∷ printf (codes "%s\r\n") (str (codes "a") ∷ [])
            ∷ []))
    × Remembers r (codes "echo a" ∷ [])
execute_loop-echo_example =
    execute_loop-echo empty_fs 1 1 echo_keys [] (codes "a") [] (shell_at root_path) [] refl refl
      records-Remembers echo_keys-AreTypeable (omega arith)
      (
        omega arith,
        omega arith,
        (
          omega arith,
          omega arith,
          (
            omega arith,
            omega arith,
            (omega arith, omega arith, (omega arith, omega arith, (omega arith, omega arith, tt))),
          ),
        ),
      )
      (omega arith) refl

-- The first character of `/d` is that of no command.

other_word : (s : List ℕ) → leb 97 (first s) ≡ true → s ≢ codes "/d"
unfolding first
other_word s h e = let f : first s ≡ 47 = ap first e in ground (arith, f, h)

slash_d-AllDiffer : AllDiffer (codes "/d") cmd_names
unfolding first
slash_d-AllDiffer = (
  other_word _ refl,
  (
    other_word _ refl,
    (
      other_word _ refl,
      (
        other_word _ refl,
        (
          other_word _ refl,
          (
            other_word _ refl,
            (other_word _ refl, (other_word _ refl, (other_word _ refl, (other_word _ refl, tt)))),
          ),
        ),
      ),
    ),
  ),
)

run_line-not_found_example :
    (r : CmdRecords) × (run_line empty_fs 1 d_path (shell_at root_path)
      ≡ finishes (
        record (shell_at root_path) { cmd_records = r },
        printf (codes "---------------------\r\n") []
            ∷ printf (codes "error: %s\r\n") (str (codes "CLI_CMD_NOT_FOUND") ∷ [])
            ∷ printf (codes "---------------------\r\n") []
            ∷ [],
      ))
    × Remembers r (codes "/d" ∷ [])
run_line-not_found_example =
    run_line-not_found empty_fs 1 d_path (codes "/d") (codes "/d") [] [] (shell_at root_path)
      d_string (omega arith, omega arith, (omega arith, omega arith, tt)) (omega arith) refl
      (omega arith) refl slash_d-AllDiffer records-Remembers
