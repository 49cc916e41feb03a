-- ===== src/SimpleDb/Main.antt =====
-- simpledb/inputs.c and main.c: reading a line, and the loop that prepares and executes each.
pub mod Session
use my_exercise.Prelude.{
  ℕ, zero, suc, if◌then◌else◌, Bool, true, false, List, [], ◌∷◌, ◌++◌, map, Option, none, some,
}
use my_exercise.CString.{has_prefix, take_token}
use my_exercise.SimpleDb.Exit.{Result, ok, exits, end_of_input, no_file_name}
use my_exercise.SimpleDb.Row.{Row, RowText}
use my_exercise.SimpleDb.Pager.{System, Pager}
use my_exercise.SimpleDb.Table.{db_open}
use my_exercise.SimpleDb.Statement.{
  PrepareResult, insert_text, prepare_success, prepare_syntax_error, prepare_string_too_long,
  prepare_negative_id, prepare_unrecognized, Statement, ExecuteResult, execute_success,
  execute_duplicate_key, execute_table_full, prepare_statement, execute_statement,
}
use my_exercise.SimpleDb.Meta.{
  Line, welcome, prompt, unrecognized_command, syntax_error, unrecognized_statement,
  string_too_long, negative_id, executed, duplicate_key, table_full, row_line, Outcome, goes_on,
  quits, is_meta_command, do_meta_command,
}

-- `input_buffer->buffer[bytes_read - 1] = 0` on the bytes that `getline` has read
unfoldable pub drop_last : List ℕ → List ℕ
drop_last [] = []
drop_last (c ∷ []) = []
drop_last (c ∷ d ∷ line) = c ∷ drop_last (d ∷ line)

-- `getline` reads no byte at the end of the input.
unfoldable pub read_input : List ℕ → Result (List ℕ)
unfolding drop_last
read_input [] = exits end_of_input
read_input (c ∷ line) = ok (drop_last (c ∷ line))

-- What `strtok` leaves in the buffer of an insertion: it ends the first word with a NUL.
unfoldable pub buffer_after : List ℕ → List ℕ
buffer_after line = if has_prefix line insert_text then take_token 32 line else line

-- The message for a line that is not prepared, from the buffer as it is then.
unfoldable pub prepare_lines : List ℕ → PrepareResult → List Line
prepare_lines line prepare_success = []
prepare_lines line prepare_string_too_long = string_too_long ∷ []
prepare_lines line prepare_negative_id = negative_id ∷ []
prepare_lines line prepare_syntax_error = syntax_error line ∷ []
prepare_lines line prepare_unrecognized = unrecognized_statement line ∷ []

unfoldable pub execute_line : ExecuteResult → Line
execute_line execute_success = executed
execute_line execute_duplicate_key = duplicate_key
execute_line execute_table_full = table_full

abbrev pub succeeded : PrepareResult → Bool
succeeded prepare_success = true
succeeded prepare_syntax_error = false
succeeded prepare_string_too_long = false
succeeded prepare_negative_id = false
succeeded prepare_unrecognized = false

-- `statement` and `row` are the local variables as a round of the loop finds them.
module _ {F : Type 0} (os : System F) (statement : Statement) (row : Row) where
  unfoldable pub do_statement : List ℕ → Pager F → Result (Outcome F)
  unfolding execute_line buffer_after
  do_statement line s =
      let (result, st) = prepare_statement line statement in
      if succeeded result
      then elim (execute_statement os row st s) [
        | ok ((done, rows), s') ↦ ok (goes_on (map row_line rows ++ execute_line done ∷ []) s')
        | exits e ↦ exits e
      ]
      else ok (goes_on (prepare_lines (buffer_after line) result) s)

  -- One round of `while (true)`, from the line that was read.
  unfoldable pub do_line : List ℕ → Pager F → Result (Outcome F)
  do_line line s = if is_meta_command line then do_meta_command os line s else do_statement line s

  -- The loop on the lines that `getline` gives until the end of the input.
  unfoldable pub main_loop : List (List ℕ) → Pager F → Result (List Line × F)
  main_loop [] s = exits end_of_input
  main_loop (bytes ∷ input) s = elim (read_input bytes) [
    | exits e ↦ exits e
    | ok line ↦ elim (do_line line s) [
      | exits e ↦ exits e
      | ok (quits lines f) ↦ ok (prompt ∷ lines, f)
      | ok (goes_on lines s') ↦ elim (main_loop input s') [
        | exits e ↦ exits e
        | ok (more, f) ↦ ok (prompt ∷ lines ++ more, f)
      ]
    ]
  ]

  -- What the process prints and the file it leaves, when it ends by `.exit`.
  -- No argument is no name of a file.
  unfoldable pub main : Option (Option F) → List (List ℕ) → Result (List Line × F)
  main none input = exits no_file_name
  main (some file) input = elim (db_open os file) [
    | exits e ↦ exits e
    | ok s ↦ elim (main_loop input s) [
      | exits e ↦ exits e
      | ok (lines, f) ↦ ok (welcome ∷ lines, f)
    ]
  ]
