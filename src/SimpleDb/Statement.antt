-- ===== src/SimpleDb/Statement.antt =====
-- simpledb/statement.h and statement.c: the two statements, from the text of the command to the table.
pub mod Insert
pub mod Select
pub mod Rows
pub mod Prepare
use my_exercise.Prelude.{
  ℕ, zero, suc, ◌+◌, ◌*◌, ◌==◌, ltb, ◌&&◌, if◌then◌else◌, Bool, true, false, Option, none, some,
  List, [], ◌∷◌,
}
use my_exercise.Bytes.{load32}
use my_exercise.CString.{strtok, strcmp_eq, has_prefix}
use my_exercise.SimpleDb.Exit.{Exit, out_of_fuel}
use my_exercise.SimpleDb.Row.{
  Row, RowInitResult, row_init_success, row_negative_id, row_string_null, row_string_too_long,
  row_init, row_get_key, RowText, row_print, row_read_from_buffer,
}
use my_exercise.SimpleDb.Node.{leaf_node_num_cells, leaf_node_key, leaf_node_max_cells}
use my_exercise.SimpleDb.Pager.{System, M, pure, fail, ◌>>=◌, ◌>>◌, pager_get_page, table_max_pages}
use my_exercise.SimpleDb.Tree.{Position, branch, leaf_node_insert}
use my_exercise.SimpleDb.Table.{
  Cursor, root_page_num, table_find, table_start, cursor_value, cursor_advance,
}

pub data PrepareResult : Type 0 where
  prepare_success prepare_syntax_error prepare_string_too_long prepare_negative_id : PrepareResult
  prepare_unrecognized : PrepareResult

pub data StatementType : Type 0 where
  statement_insert statement_select : StatementType

pub record Statement : Type 0 where
  pub type : StatementType
  pub row_insert : Row

pub data ExecuteResult : Type 0 where
  execute_success execute_duplicate_key execute_table_full : ExecuteResult

abbrev pub insert_text : List ℕ
insert_text = b'i' ∷ b'n' ∷ b's' ∷ b'e' ∷ b'r' ∷ b't' ∷ []

abbrev pub select_text : List ℕ
select_text = b's' ∷ b'e' ∷ b'l' ∷ b'e' ∷ b'c' ∷ b't' ∷ []

unfoldable pub prepare_result : RowInitResult → PrepareResult
prepare_result row_init_success = prepare_success
prepare_result row_negative_id = prepare_negative_id
prepare_result row_string_null = prepare_syntax_error
prepare_result row_string_too_long = prepare_string_too_long

-- The tokens of a line, as the successive calls of `strtok` give them: keyword, id, username, email.
unfoldable pub insert_tokens : List ℕ → Option (List ℕ) × Option (List ℕ) × Option (List ℕ)
insert_tokens line =
    let (keyword, rest) = strtok 32 line in
    let (id, rest') = strtok 32 rest in
    let (username, rest'') = strtok 32 rest' in
    let (email, rest''') = strtok 32 rest'' in (id, username, email)

unfoldable pub row_or : Option Row → Row → Row
row_or none r = r
row_or (some s) r = s

unfoldable pub prepare_insert : List ℕ → Statement → PrepareResult × Statement
unfolding insert_tokens prepare_result row_or
prepare_insert line st =
    let (id, username, email) = insert_tokens line in
    let (result, row) = row_init id username email (some st.row_insert) in
    (
      prepare_result result,
      record { type = statement_insert; row_insert = row_or row st.row_insert },
    )

unfoldable pub prepare_statement : List ℕ → Statement → PrepareResult × Statement
unfolding prepare_insert
prepare_statement line st =
    if has_prefix line insert_text
    then prepare_insert line st
    else if strcmp_eq line select_text
    then (prepare_success, record st { type = statement_select })
    else (prepare_unrecognized, st)

-- Each page holds at most `LEAF_NODE_MAX_CELLS` rows, and each is visited once.
abbrev pub select_fuel : ℕ
select_fuel = table_max_pages * leaf_node_max_cells + 1

module _ {F : Type 0} (os : System F) where
  unfoldable pub execute_insert : Statement → M F ExecuteResult
  execute_insert st = do
    let row = st.row_insert
    let key = row_get_key row
    cur ← table_find os key
    node ← pager_get_page os cur.page_num
    let taken =
        ltb cur.cell_num (load32 node leaf_node_num_cells)
        && (load32 node (leaf_node_key cur.cell_num) == key)
    branch taken (pure execute_duplicate_key)
        (do leaf_node_insert os root_page_num cur key row; pure execute_success)

  -- The rows that `execute_select` prints; `row` is its local variable.
  unfoldable pub select_loop : ℕ → Row → Cursor → M F (List RowText)
  select_loop zero row cur = fail out_of_fuel
  select_loop (suc fuel) row cur = elim cur.end_of_table [
    | true ↦ pure []
    | false ↦ do
      (page, o) ← cursor_value os cur
      let row' = row_read_from_buffer page o row
      next ← cursor_advance os cur
      rest ← select_loop fuel row' next
      pure (row_print row' ∷ rest)
  ]

  unfoldable pub execute_select : Row → M F (ExecuteResult × List RowText)
  execute_select row = do
    cur ← table_start os
    rows ← select_loop select_fuel row cur
    pure (execute_success, rows)

  -- With what it prints; `row` is the uninitialised row of `execute_select`.
  unfoldable pub execute_statement : Row → Statement → M F (ExecuteResult × List RowText)
  execute_statement row st = elim st.type [
    | statement_insert ↦ do r ← execute_insert st; pure (r, [])
    | statement_select ↦ execute_select row
  ]
