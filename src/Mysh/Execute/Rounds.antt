-- ===== src/Mysh/Execute/Rounds.antt =====
-- mysh/shell/shell.c: the rounds of `shell_execute`.
use my_exercise.Prelude.{
  ℕ, zero, suc, ◌<◌, ◌≡◌, ◌∙◌, refl, ap, inl, inr, Bool, true, false, Bool-cases, some, List, [],
  ◌∷◌, ◌++◌, length, arith, if◌then◌else◌,
}
use my_exercise.Bytes.{Memory}
use my_exercise.Mysh.Text.{sh_string}
use my_exercise.Mysh.Editor.{command_buf_size, CmdRecords, ShellKeywords}
use my_exercise.Mysh.Editor.Zipper.{Key, edit_all, text}
use my_exercise.Mysh.Input.{
  Reader, Read, Step, goes_on, entered, too_long, outside, go_on, line_read, refused, waits, faults,
  read_byte, read_loop, read_input,
}
use my_exercise.Mysh.Input.Press.{AreTypeable, typed_count, keys_bytes}
use my_exercise.Mysh.Input.Edits.{read_input-edit_all}
use my_exercise.Mysh.Shell.{Run, finishes, beyond, endless, Shell, Output, printf, putchars}
use my_exercise.Mysh.Vfat.{Ufat}
use my_exercise.Mysh.Execute.{
  Session, left, reading, crashed, hangs, unfinished, run_line, next_round, after_read,
  execute_loop, shell_execute, zeros,
}

-- The bytes that a call of `read_input` leaves.
abbrev Leaves : ℕ → Read → Type 0
Leaves n (line_read line rest out) = length rest < n
Leaves n (refused rest out) = length rest < n
Leaves n (waits r out) = Unit
Leaves n faults = Unit

Leaves-suc : (n : ℕ) (r : Read) → Leaves n r → Leaves (suc n) r
Leaves-suc n (line_read line rest out) h = omega (arith, h)
Leaves-suc n (refused rest out) h = omega (arith, h)
Leaves-suc n (waits r out) h = tt
Leaves-suc n faults h = tt

go_on-Leaves :
    (loop : Reader → List ℕ → Read) (bytes out : List ℕ) (s : Step)
    → ((r : Reader) (out1 : List ℕ) → Leaves (length bytes) (loop r out1))
    → Leaves (suc (length bytes)) (go_on loop bytes out s)
go_on-Leaves loop bytes out (goes_on r more) h =
    Leaves-suc (length bytes) (loop r (out ++ more)) (h r (out ++ more))
go_on-Leaves loop bytes out (entered line more) h = omega arith
go_on-Leaves loop bytes out (too_long more) h = omega arith
go_on-Leaves loop bytes out outside h = tt

read_loop-Leaves :
    (records : CmdRecords) (keywords : ShellKeywords) (prompt bytes : List ℕ) (r : Reader)
    (out : List ℕ)
    → Leaves (length bytes) (read_loop records keywords prompt bytes r out)
unfolding read_loop
read_loop-Leaves records keywords prompt [] r out = tt
read_loop-Leaves records keywords prompt (c ∷ bytes) r out =
    go_on-Leaves (read_loop records keywords prompt bytes) bytes out
      (read_byte records keywords prompt c r r.mode)
      (read_loop-Leaves records keywords prompt bytes)

-- The rounds were enough.
abbrev pub returns : {Fs : Type 0} → Session Fs → Bool
returns (left sh rest out) = true
returns (reading sh out) = true
returns crashed = true
returns hangs = true
returns unfinished = false

module _ {Fs : Type 0} (u : Ufat Fs) (reads : ℕ) where
  abbrev Loop : Type 0
  Loop = List ℕ → Shell Fs → Output → Session Fs

  next_round-returns :
      (loop : Loop) (bytes : List ℕ) (out : Output) (ran : Run (Shell Fs × Output))
      → ((sh : Shell Fs) (out1 : Output) → returns (loop bytes sh out1) ≡ true)
      → returns (next_round u reads loop bytes out ran) ≡ true
  next_round-returns loop bytes out beyond h = refl
  next_round-returns loop bytes out endless h = refl
  next_round-returns loop bytes out (finishes (sh, out1)) h = h sh (out ++ out1)

  after_read-returns :
      (loop : Loop) (n : ℕ) (sh : Shell Fs) (out : Output) (r : Read)
      → Leaves n r
      → ((bytes : List ℕ) (sh1 : Shell Fs) (out1 : Output)
          → length bytes < n
          → returns (loop bytes sh1 out1) ≡ true)
      → returns (after_read u reads loop sh out r) ≡ true
  after_read-returns loop n sh out faults l h = refl
  after_read-returns loop n sh out (waits r echo) l h = refl
  after_read-returns loop n sh out (refused rest echo) l h = h rest sh _ l
  after_read-returns loop n sh out (line_read line rest echo) l h =
      next_round-returns loop rest (out ++ putchars echo ∷ []) (run_line u reads line sh)
        (λ sh1 out1. h rest sh1 out1 l)

  round :
      (n : ℕ) (bytes : List ℕ) (sh : Shell Fs) (out : Output) (b : Bool)
      → sh.shell_should_exit ≡ b
      → execute_loop u reads (suc n) bytes sh out ≡ (
          if b
          then left sh bytes out
          else after_read u reads
              (execute_loop u reads n)
              sh
              (out ++ printf sh.prompt [] ∷ [])
              (read_input sh.cmd_records sh.shell_keywords sh.prompt zeros bytes))
  unfolding execute_loop
  round n bytes sh out b e =
      ap
        (λ b.
          if b
          then left sh bytes out
          else after_read u reads (execute_loop u reads n) sh (out ++ printf sh.prompt [] ∷ [])
              (read_input sh.cmd_records sh.shell_keywords sh.prompt zeros bytes))
        e

  execute_loop-returns :
      (n : ℕ) (bytes : List ℕ) (sh : Shell Fs) (out : Output)
      → length bytes < n
      → returns (execute_loop u reads n bytes sh out) ≡ true
  unfolding read_input
  execute_loop-returns zero bytes sh out l = absurd (omega arith)
  execute_loop-returns (suc n) bytes sh out l = elim (Bool-cases sh.shell_should_exit) [
    | inl e ↦ ap returns (round n bytes sh out true e)
    | inr e ↦
        ap returns (round n bytes sh out false e)
        ∙ after_read-returns (execute_loop u reads n) (length bytes) sh
            (out ++ printf sh.prompt [] ∷ [])
            (read_input sh.cmd_records sh.shell_keywords sh.prompt zeros bytes)
            (read_loop-Leaves sh.cmd_records sh.shell_keywords sh.prompt bytes _ [])
            (λ rest sh1 out1 l1. execute_loop-returns n rest sh1 out1 (omega arith))
  ]

  -- The rounds are enough for the bytes: `shell_execute` is left, or it waits for the rest of a line, it stops at an access
  -- outside an array, or a loop over a directory hangs, whatever the bytes and the state of the shell are.
  pub shell_execute-returns :
      (bytes : List ℕ) (sh : Shell Fs) → returns (shell_execute u reads bytes sh) ≡ true
  unfolding shell_execute
  shell_execute-returns bytes sh = execute_loop-returns (suc (length bytes)) bytes _ _ (omega arith)

  -- A round of a shell that is not to be left: it prints its prompt, and runs the text of the editor on which the keys were
  -- pressed; the next round begins behind the enter key.
  pub execute_loop-run_line :
      (n : ℕ) (keys : List Key) (rest : List ℕ) (sh : Shell Fs) (out : Output)
      → sh.shell_should_exit ≡ false
      → AreTypeable keys
      → typed_count keys < command_buf_size
      → (line : Memory) × (echo : List ℕ) × (sh_string command_buf_size line 0
          ≡ some (text (edit_all keys ([], []))))
        × (execute_loop u reads (suc n) (keys_bytes keys ++ 13 ∷ rest) sh out
            ≡ next_round u reads
                (execute_loop u reads n)
                rest
                ((out ++ printf sh.prompt [] ∷ []) ++ putchars echo ∷ [])
                (run_line u reads line sh))
  execute_loop-run_line n keys rest sh out stays a room =
      let (line, echo, done, read) =
        read_input-edit_all sh.cmd_records sh.shell_keywords sh.prompt zeros keys rest a room in
      (
        line,
        echo,
        read,
        round n (keys_bytes keys ++ 13 ∷ rest) sh out false stays
            ∙ ap (after_read u reads (execute_loop u reads n) sh (out ++ printf sh.prompt [] ∷ []))
                done,
      )
