-- ===== src/SimpleDb/Tests/Session.antt =====
-- simpledb/statement.c, meta.c and main.c: a line that is prepared, and a session on the table of one row.
use my_exercise.Prelude.{ℕ, ◌+◌, ◌≡◌, refl, List, [], ◌∷◌, map, arith}
use my_exercise.Bytes.{load32}
use my_exercise.CString.{strcmp_eq, has_prefix, atoi}
use my_exercise.SimpleDb.Exit.{ok}
use my_exercise.SimpleDb.Row.{row_print}
use my_exercise.SimpleDb.Pager.{pager_flush}
use my_exercise.SimpleDb.Table.{db_close}
use my_exercise.SimpleDb.Leaf.Keys.{leaf_keys}
use my_exercise.SimpleDb.Statement.{Statement, prepare_success, statement_insert, prepare_statement}
use my_exercise.SimpleDb.Statement.Prepare.{insert_line, prepare_statement-insert}
use my_exercise.SimpleDb.Meta.{
  Line, prompt, bye, leaf_line, leaf_key_line, goes_on, btree_text, print_tree, do_meta_command,
  is_meta_command,
}
use my_exercise.SimpleDb.Meta.PrintTree.{print_tree-leaf_keys}
use my_exercise.SimpleDb.Main.{do_line, main_loop, drop_last, read_input}
use my_exercise.SimpleDb.Main.Session.{do_line-unchanged}
use my_exercise.SimpleDb.Tests.{
  disk, zeros, seven, table, row_of, table-IsLeafTable, last_seven, closed_file,
}

abbrev id_text : List ℕ
id_text = b'1' ∷ b'2' ∷ []

abbrev name_text : List ℕ
name_text = b'a' ∷ b'b' ∷ []

id_text_value : atoi id_text ≡ 12
unfolding atoi
id_text_value = refl

prepare_statement-insert_example :
    (st : Statement) × (prepare_statement (insert_line id_text name_text name_text) (row_of 9)
      ≡ (prepare_success, st))
    × (st.type ≡ statement_insert)
    × (row_print st.row_insert
        ≡ record { id = atoi id_text; username = name_text; email = name_text })
prepare_statement-insert_example =
    prepare_statement-insert id_text name_text name_text (ground arith) (ground arith)
      (ground arith) (ground arith) (ground arith) (omega arith) (omega arith)
      (omega (arith, id_text_value)) (row_of 9)

print_tree-leaf_keys_example :
    print_tree disk 3 0 1 table
    ≡ ok (leaf_line 1 (load32 seven 6) ∷ map (leaf_key_line (1 + 1)) (leaf_keys seven), table)
print_tree-leaf_keys_example = print_tree-leaf_keys disk table-IsLeafTable 2 1

do_line-unchanged_example :
    (lines : List Line) × (do_line disk (row_of 9) zeros btree_text table
      ≡ ok (goes_on lines table))
unfolding has_prefix strcmp_eq
do_line-unchanged_example =
    do_line-unchanged disk (row_of 9) zeros table-IsLeafTable last_seven btree_text refl refl

-- The input is the line `.exit` and its newline.
abbrev exit_input : List (List ℕ)
exit_input = (b'.' ∷ b'e' ∷ b'x' ∷ b'i' ∷ b't' ∷ 10 ∷ []) ∷ []

exit_session :
    main_loop disk (row_of 9) zeros exit_input table ≡ ok (prompt ∷ bye ∷ [], closed_file)
unfolding main_loop do_line do_meta_command is_meta_command read_input drop_last strcmp_eq db_close
    pager_flush
exit_session = refl
