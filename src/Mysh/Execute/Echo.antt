-- ===== src/Mysh/Execute/Echo.antt =====
-- mysh/: a round of the shell as a whole, from the keys to what the command prints.
use my_exercise.Prelude.{ℕ, suc, ◌<◌, ◌≡◌, ◌∙◌, ap, false, List, [], ◌∷◌, ◌++◌, length}
use my_exercise.Mysh.Text.{codes}
use my_exercise.Mysh.Editor.{CmdRecords, command_buf_size}
use my_exercise.Mysh.Editor.Zipper.{Key, edit_all, text}
use my_exercise.Mysh.Input.Press.{AreTypeable, typed_count, keys_bytes}
use my_exercise.Mysh.Parse.Words.{words, IsText}
use my_exercise.Mysh.Shell.{Shell, Output, printf, putchars, str}
use my_exercise.Mysh.Shell.History.{Remembers, add_record-Remembers}
use my_exercise.Mysh.Vfat.{Ufat}
use my_exercise.Mysh.Execute.{execute_loop, next_round}
use my_exercise.Mysh.Execute.Rounds.{execute_loop-run_line}
use my_exercise.Mysh.Execute.Lines.{run_line-echo}

module _ {Fs : Type 0} (u : Ufat Fs) (reads : ℕ) where
  -- In a shell that is initialised and not to be left, and whose ring holds its past lines: when keys as
  -- for `read_input` make a text of fewer than 2048 bytes and of two words, the first of them `echo`,
  -- and enter is pressed, the shell prints its prompt, what the editor prints, and the second word. Of
  -- the shell only the past lines change: the text is the newest of them. The next round reads on behind
  -- the enter key.
  pub execute_loop-echo :
      (n : ℕ) (keys : List Key) (rest w : List ℕ) (past : List (List ℕ)) (sh : Shell Fs)
      (out : Output)
      → sh.shell_should_exit ≡ false
      → sh.cmd_tbl_items ≡ 10
      → Remembers sh.cmd_records past
      → AreTypeable keys
      → typed_count keys < command_buf_size
      → IsText (text (edit_all keys ([], [])))
      → length (text (edit_all keys ([], []))) < command_buf_size
      → words (text (edit_all keys ([], []))) ≡ codes "echo" ∷ w ∷ []
      → (r : CmdRecords) × (echo : List ℕ) × (execute_loop u reads
            (suc n)
            (keys_bytes keys ++ 13 ∷ rest)
            sh
            out
          ≡ execute_loop u reads n rest
              (record sh { cmd_records = r })
              (((out ++ printf sh.prompt [] ∷ []) ++ putchars echo ∷ [])
                ++ printf (codes "%s\r\n") (str w ∷ []) ∷ []))
        × Remembers r (text (edit_all keys ([], [])) ∷ past)
  execute_loop-echo n keys rest w past sh out stays items known a room t short split =
      let s = text (edit_all keys ([], [])) in
      let (line, echo, read, looped) =
        execute_loop-run_line u reads n keys rest sh out stays a room in
      let (r, kept, known') = add_record-Remembers sh.cmd_records past line s known read in
      let ran = run_line-echo u reads line s w sh r read t short split items kept in
      (
        r,
        echo,
        looped
            ∙ ap
                (next_round u reads (execute_loop u reads n) rest
                  ((out ++ printf sh.prompt [] ∷ []) ++ putchars echo ∷ []))
                ran,
        known',
      )
