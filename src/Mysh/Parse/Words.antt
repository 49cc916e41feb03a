-- ===== src/Mysh/Parse/Words.antt =====
-- mysh/shell/shell.c: the arguments that `parse_command` finds are the words of the line.
pub mod Rows
pub mod Loop
pub mod Whole
use my_exercise.Prelude.{
  ℕ, zero, suc, ◌+◌, ◌*◌, ◌≤◌, ◌<◌, ◌≡◌, ◌∙◌, refl, ap, sym, Bool, true, false, Option, none, some,
  List, [], ◌∷◌, ◌++◌, length, arith, ◌==◌, ltb, leb, if◌then◌else◌,
}
use my_exercise.Bytes.{Memory}
use my_exercise.Mysh.Editor.{command_buf_size, when_some}
use my_exercise.Mysh.Parse.{
  arg_max_count, Parsing, arg_gap, arg_byte, parse_loop, parse_command, fill_argv, is_last,
  then_parse, CmdParsed, argument, Parse, parsed, args_refused, outside_args, too_many_args, in_arg,
  toggle,
}

-- The rest of the word that the line begins in, and the words behind it.
abbrev pub add_word : List ℕ → List (List ℕ) → List (List ℕ)
add_word [] ws = ws
add_word (c ∷ w) ws = (c ∷ w) ∷ ws

abbrev pub words_from : Bool → List ℕ → List ℕ × List (List ℕ)
words_from quoted [] = ([], [])
words_from quoted (c ∷ line) =
    let (w, ws) = words_from (toggle c quoted) line in
    if in_arg c quoted then (c ∷ w, ws) else ([], add_word w ws)

-- The words of a line: what stands between blanks, where those between two quotes do not count.
abbrev pub words : List ℕ → List (List ℕ)
words line = let (w, ws) = words_from false line in add_word w ws

-- `n` arguments from `argv[i]` on.
abbrev pub arguments_from : ℕ → ℕ → CmdParsed → Option (List (List ℕ))
arguments_from zero i cmd = some []
arguments_from (suc n) i cmd =
    when_some (argument cmd i) (λ w. when_some (arguments_from n (i + 1) cmd) (λ ws. some (w ∷ ws)))

abbrev pub arguments : CmdParsed → Option (List (List ℕ))
arguments cmd = arguments_from cmd.argc 0 cmd

-- At most nine words become the arguments, which a 0 in `argv` ends; more than ten are refused; and ten write behind the
-- end of `argv`.
abbrev pub Outcome : List (List ℕ) → Parse → Type 0
Outcome ws (parsed cmd) =
    (length ws < arg_max_count)
    × (cmd.argc ≡ length ws)
    × (arguments cmd ≡ some ws)
    × (cmd.argv cmd.argc ≡ none)
Outcome ws (args_refused message) = (arg_max_count < length ws) × (message ≡ too_many_args)
Outcome ws outside_args = length ws ≡ arg_max_count

-- The bytes of a string.
abbrev pub IsText : List ℕ → Type 0
IsText [] = Unit
IsText (c ∷ line) = (0 < c) × (c < 256) × IsText line
