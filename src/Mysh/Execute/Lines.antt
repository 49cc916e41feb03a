-- ===== src/Mysh/Execute/Lines.antt =====
-- mysh/shell/shell.c: what a round does with a line, from its words.
use Prim.Native.String.{String}
use mathlib.Core.Path.{subst}
use my_exercise.Prelude.{
  ℕ, zero, suc, ◌+◌, ◌<◌, ◌≡◌, ◌≢◌, ◌∙◌, refl, ap, sym, inl, inr, true, false, Bool-cases, Option,
  none, some, List, [], ◌∷◌, ◌++◌, length, arith, ◌==◌, if◌then◌else◌,
}
use my_exercise.Bytes.{Memory}
use my_exercise.Mysh.Text.{codes, sh_string}
use my_exercise.Mysh.Editor.{CmdRecords, command_buf_size, when_some}
use my_exercise.Mysh.Complete.{match_cmd}
use my_exercise.Mysh.Complete.Match.{match_cmd-differ}
use my_exercise.Mysh.Parse.{
  CmdParsed, argument, Parse, parsed, args_refused, outside_args, arg_max_count, parse_command,
  is_blank,
}
use my_exercise.Mysh.Parse.Words.{words, arguments, arguments_from, Outcome, IsText}
use my_exercise.Mysh.Parse.Words.Whole.{parse_command-Outcome}
use my_exercise.Mysh.Shell.{
  Run, finishes, when_ran, try_some, Shell, Output, CliStatus, cli_ok, cli_cmd_not_found, printf,
  str, add_record,
}
use my_exercise.Mysh.Shell.History.{Remembers, add_record-Remembers}
use my_exercise.Mysh.Vfat.{Ufat, usage_error}
use my_exercise.Mysh.Command.{
  execute_command, echo_func, find_cmd, cmd_names, funcs, run_func, with_usage,
}
use my_exercise.Mysh.Execute.{run_line, run_parsed, keep_line, report, zeros}

when_some-some :
    {A B : Type 0} (o : Option A) (f : A → Option B) (b : B)
    → when_some o f ≡ some b
    → (a : A) × (o ≡ some a) × (f a ≡ some b)
when_some-some none f b h = absurd (ground (arith, h))
when_some-some (some a) f b h = (a, refl, h)

-- Only blanks make no word.
is_blank-words : (s : List ℕ) → is_blank s ≡ true → words s ≡ []
unfolding is_blank
is_blank-words [] h = refl
is_blank-words (c ∷ s) h = elim (Bool-cases (c == 32)) [
  | inl e ↦
      let e34 : (c == 34) ≡ false = ground arith in
      let h1 : is_blank s ≡ true = ap (λ b. if b then is_blank s else false) (sym e) ∙ h in
      rw (e, e34) (is_blank-words s h1)
  | inr e ↦
      let h1 : false ≡ true = ap (λ b. if b then is_blank s else false) (sym e) ∙ h in
      absurd (ground (arith, h1))
]

abbrev head_of : List ℕ → Option (List (List ℕ)) → List ℕ
head_of d none = d
head_of d (some []) = d
head_of d (some (w ∷ ws)) = w

abbrev tail_of : Option (List (List ℕ)) → List (List ℕ)
tail_of none = []
tail_of (some []) = []
tail_of (some (w ∷ ws)) = ws

arguments_from-cons :
    (n i : ℕ) (cmd : CmdParsed) (w : List ℕ) (ws : List (List ℕ))
    → arguments_from (suc n) i cmd ≡ some (w ∷ ws)
    → (argument cmd i ≡ some w) × (arguments_from n (i + 1) cmd ≡ some ws)
arguments_from-cons n i cmd w ws h =
    let (v, read, then_) =
      when_some-some (argument cmd i)
        (λ w. when_some (arguments_from n (i + 1) cmd) (λ ws. some (w ∷ ws))) (w ∷ ws) h in
    let (vs, rest, all) =
      when_some-some (arguments_from n (i + 1) cmd) (λ ws. some (v ∷ ws)) (w ∷ ws) then_ in
    (read ∙ ap some (ap (head_of []) all), rest ∙ ap some (ap tail_of all))

-- Fewer than ten words are parsed.
Outcome-parsed :
    (ws : List (List ℕ)) (p : Parse)
    → Outcome ws p
    → length ws < arg_max_count
    → (cmd : CmdParsed) × (p ≡ parsed cmd) × (cmd.argc ≡ length ws) × (arguments cmd ≡ some ws)
Outcome-parsed ws (parsed cmd) o few = (cmd, refl, o.1, o.2)
Outcome-parsed ws (args_refused message) o few = let many = o.0 in absurd (omega (arith, many))
Outcome-parsed ws outside_args o few = absurd (omega (arith, o))

-- The word is none of the names.
abbrev pub AllDiffer : List ℕ → List String → Type 0
AllDiffer w [] = Unit
AllDiffer w (s ∷ names) = (codes s ≢ w) × AllDiffer w names

abbrev NoKey {ℓ} : {A : Type ℓ} → List ℕ → List (List ℕ × A) → Type 0
NoKey w [] = Unit
NoKey w ((cmd, a) ∷ tbl) = (cmd ≢ w) × NoKey w tbl

find_cmd-none {ℓ} :
    {A : Type ℓ} (n : ℕ) (w : List ℕ) (tbl : List (List ℕ × A))
    → NoKey w tbl
    → find_cmd n w tbl ≡ none
unfolding find_cmd
find_cmd-none zero w tbl h = refl
find_cmd-none (suc n) w [] h = refl
find_cmd-none (suc n) w ((cmd, a) ∷ tbl) h =
    rw (match_cmd-differ cmd w h.0) (find_cmd-none n w tbl h.1)

module _ {Fs : Type 0} (u : Ufat Fs) (reads : ℕ) where
  run_line-parsed :
      (line : Memory) (s w : List ℕ) (ws : List (List ℕ)) (sh : Shell Fs)
      → sh_string command_buf_size line 0 ≡ some s
      → IsText s
      → length s < command_buf_size
      → words s ≡ w ∷ ws
      → length (w ∷ ws) < arg_max_count
      → (cmd : CmdParsed) × (cmd.argc ≡ length (w ∷ ws))
        × (arguments cmd ≡ some (w ∷ ws))
        × (run_line u reads line sh ≡ run_parsed u reads line sh (parsed cmd))
  unfolding run_line
  run_line-parsed line s w ws sh read t short split few =
      let o =
        subst (λ v. Outcome v (parse_command s zeros)) split
          (parse_command-Outcome s zeros t short) in
      let (cmd, done, count, args) = Outcome-parsed (w ∷ ws) (parse_command s zeros) o few in
      let run : List ℕ → Run (Shell Fs × Output) = λ s.
        if is_blank s
        then finishes (sh, [])
        else run_parsed u reads line sh (parse_command s zeros) in
      let some_word : is_blank s ≡ false = elim (Bool-cases (is_blank s)) [
        | inl e ↦
            let n : 0 ≡ suc (length ws) = ap length (sym (is_blank-words s e) ∙ split) in
            absurd (omega (arith, n))
        | inr e ↦ e
      ] in
      (
        cmd,
        count,
        args,
        ap (λ o. try_some o run) read
            ∙ ap
                (λ b.
                  if b
                  then finishes (sh, [])
                  else run_parsed u reads line sh (parse_command s zeros))
                some_word
            ∙ ap (run_parsed u reads line sh) done,
      )

  run_parsed_lem :
      (line : Memory) (w : List ℕ) (sh : Shell Fs) (r : CmdRecords) (cmd : CmdParsed) (out : Output)
      (status : CliStatus)
      → argument cmd 0 ≡ some w
      → match_cmd (codes "history") w ≡ false
      → add_record line sh.cmd_records ≡ some r
      → execute_command u reads cmd (record sh { cmd_records = r })
        ≡ finishes (record sh { cmd_records = r }, out, status)
      → run_parsed u reads line sh (parsed cmd)
        ≡ finishes (record sh { cmd_records = r }, out ++ report status)
  unfolding run_parsed keep_line
  run_parsed_lem line w sh r cmd out status name other kept done =
      let finish : Shell Fs × Output × CliStatus → Run (Shell Fs × Output) =
        λ (sh2, out, status). finishes (sh2, out ++ report status) in
      let go : Shell Fs → Run (Shell Fs × Output) =
        λ sh1. when_ran (execute_command u reads cmd sh1) finish in
      let keep : CmdRecords → Option (Shell Fs) = λ r. some (record sh { cmd_records = r }) in
      ap (λ o. try_some o (λ name. try_some (keep_line u reads line name sh) go)) name
      ∙ ap
          (λ b.
            try_some (if b then some sh else when_some (add_record line sh.cmd_records) keep) go)
          other
      ∙ ap (λ o. try_some (when_some o keep) go) kept
      ∙ ap (λ o. when_ran o finish) done

  -- In a shell that is initialised, a line whose two words are `echo` and another is kept as a past line, and prints
  -- the other word.
  pub run_line-echo :
      (line : Memory) (s w : List ℕ) (sh : Shell Fs) (r : CmdRecords)
      → sh_string command_buf_size line 0 ≡ some s
      → IsText s
      → length s < command_buf_size
      → words s ≡ codes "echo" ∷ w ∷ []
      → sh.cmd_tbl_items ≡ 10
      → add_record line sh.cmd_records ≡ some r
      → run_line u reads line sh
        ≡ finishes (record sh { cmd_records = r }, printf (codes "%s\r\n") (str w ∷ []) ∷ [])
  unfolding execute_command echo_func find_cmd match_cmd
  run_line-echo line s w sh r read t short split items kept =
      let (cmd, count, args, run) =
        run_line-parsed line s (codes "echo") (w ∷ []) sh read t short split (omega arith) in
      let (name, rest) =
        arguments_from-cons 1 0 cmd (codes "echo") (w ∷ [])
          (ap (λ n. arguments_from n 0 cmd) (sym count) ∙ args) in
      let (word, none_left) = arguments_from-cons 0 1 cmd w [] rest in
      let sh1 = record sh { cmd_records = r } in
      let two : (cmd.argc == 2) ≡ true = ground (arith, count) in
      let said = printf (codes "%s\r\n") (str w ∷ []) ∷ [] in
      let echoed : echo_func u reads cmd sh1 ≡ finishes (sh1, said, cli_ok) =
        ap
          (λ b.
            if b
            then try_some (argument cmd 1)
                (λ s. finishes (sh1, printf (codes "%s\r\n") (str s ∷ []) ∷ [], cli_ok))
            else usage_error sh1)
          two
        ∙ ap
            (λ o.
              try_some o (λ s. finishes (sh1, printf (codes "%s\r\n") (str s ∷ []) ∷ [], cli_ok)))
            word in
      let done : execute_command u reads cmd sh1 ≡ finishes (sh1, said, cli_ok) =
        ap
          (λ o. try_some o (λ name.
            run_func u reads cmd sh1 name (find_cmd sh.cmd_tbl_items name (funcs u reads))))
          name
        ∙ ap
            (λ n.
              run_func u reads cmd sh1 (codes "echo") (find_cmd n (codes "echo") (funcs u reads)))
            items
        ∙ ap (λ o. when_ran o (λ result. finishes (with_usage u reads (codes "echo") result)))
            echoed in
      run ∙ run_parsed_lem line (codes "echo") sh r cmd said cli_ok name refl kept done

  -- In a shell that is initialised and whose ring holds its past lines, a line of fewer than 2048 bytes and fewer
  -- than ten words, whose first word differs from the names of all ten commands, is kept as the newest past
  -- line and answered by the error CLI_CMD_NOT_FOUND between two rules. Nothing else of the shell changes.
  pub run_line-not_found :
      (line : Memory) (s w : List ℕ) (ws past : List (List ℕ)) (sh : Shell Fs)
      → sh_string command_buf_size line 0 ≡ some s
      → IsText s
      → length s < command_buf_size
      → words s ≡ w ∷ ws
      → length (w ∷ ws) < arg_max_count
      → sh.cmd_tbl_items ≡ 10
      → AllDiffer w cmd_names
      → Remembers sh.cmd_records past
      → (r : CmdRecords) × (run_line u reads line sh
          ≡ finishes (
            record sh { cmd_records = r },
            printf (codes "---------------------\r\n") []
                ∷ printf (codes "error: %s\r\n") (str (codes "CLI_CMD_NOT_FOUND") ∷ [])
                ∷ printf (codes "---------------------\r\n") []
                ∷ [],
          ))
        × Remembers r (s ∷ past)
  unfolding execute_command
  run_line-not_found line s w ws past sh read t short split few items other past_lines =
      let (cmd, count, args, run) = run_line-parsed line s w ws sh read t short split few in
      let (r, kept, newest) = add_record-Remembers sh.cmd_records past line s past_lines read in
      let (name, rest) =
        arguments_from-cons (length ws) 0 cmd w ws
          (ap (λ n. arguments_from n 0 cmd) (sym count) ∙ args) in
      let sh1 = record sh { cmd_records = r } in
      let unknown = find_cmd-none sh.cmd_tbl_items w (funcs u reads) other in
      let done : execute_command u reads cmd sh1 ≡ finishes (sh1, [], cli_cmd_not_found) =
        ap
          (λ o. try_some o (λ name.
            run_func u reads cmd sh1 name (find_cmd sh.cmd_tbl_items name (funcs u reads))))
          name
        ∙ ap (run_func u reads cmd sh1 w) unknown in
      (
        r,
        run
            ∙ run_parsed_lem line w sh r cmd [] cli_cmd_not_found name
                (match_cmd-differ (codes "history") w other.1.1.0) kept done,
        newest,
      )
