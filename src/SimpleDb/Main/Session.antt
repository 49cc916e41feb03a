-- ===== src/SimpleDb/Main/Session.antt =====
-- simpledb/main.c and meta.c: which lines of a session change the table, and when it is saved.
use my_exercise.Prelude.{
  ℕ, suc, ◌≡◌, refl, List, [], ◌∷◌, get_elem?, true, false, some, arith, inl, inr, Bool-cases,
}
use my_exercise.Bytes.{load32}
use my_exercise.CString.{strcmp_eq, has_prefix}
use my_exercise.SimpleDb.Exit.{ok, Result-cases}
use my_exercise.SimpleDb.Row.{Row}
use my_exercise.SimpleDb.Node.{Page, leaf_node_next_leaf}
use my_exercise.SimpleDb.Pager.{System, Pager}
use my_exercise.SimpleDb.Table.{db_close}
use my_exercise.SimpleDb.Table.Single.{IsLeafTable}
use my_exercise.SimpleDb.Statement.{
  Statement, insert_text, select_text, prepare_statement, execute_statement,
}
use my_exercise.SimpleDb.Statement.Select.{execute_select-rows_from}
use my_exercise.SimpleDb.Meta.{
  Line, goes_on, quits, exit_text, constants_text, btree_text, is_meta_command, do_meta_command,
}
use my_exercise.SimpleDb.Meta.PrintTree.{print_tree-leaf_keys}
use my_exercise.SimpleDb.Main.{do_statement, do_line, drop_last, read_input, main_loop}

module _ {F : Type 0} (os : System F) (st : Statement) (row : Row) where
  do_statement-unchanged :
      {s : Pager F} {p : Page} (t : IsLeafTable s p)
      → load32 p leaf_node_next_leaf ≡ 0
      → (line : List ℕ) → has_prefix line insert_text ≡ false
      → (lines : List Line) × (do_statement os st row line s ≡ ok (goes_on lines s))
  unfolding do_statement prepare_statement execute_statement
  do_statement-unchanged t last line e = elim (Bool-cases (strcmp_eq line select_text)) [
    | inl y ↦ rw (e, y) (rw (execute_select-rows_from os t last row) (_, refl))
    | inr n ↦ rw (e, n) (_, refl)
  ]

  do_meta_command-unchanged :
      {s : Pager F} {p : Page} (t : IsLeafTable s p) (line : List ℕ)
      → strcmp_eq line exit_text ≡ false
      → (lines : List Line) × (do_meta_command os line s ≡ ok (goes_on lines s))
  unfolding do_meta_command
  do_meta_command-unchanged t line e = rw e (elim (Bool-cases (strcmp_eq line constants_text)) [
    | inl y ↦ rw y (_, refl)
    | inr n ↦ rw n (elim (Bool-cases (strcmp_eq line btree_text)) [
      | inl y ↦ rw y (rw (print_tree-leaf_keys os t 99 0) (_, refl))
      | inr n' ↦ rw n' (_, refl)
    ])
  ])

  -- On a table of one leaf, a line that is not `.exit` and does not begin with `insert` is answered, and
  -- leaves the table as it was, whether it is a command, a statement or neither.
  pub do_line-unchanged :
      {s : Pager F} {p : Page} (t : IsLeafTable s p)
      → load32 p leaf_node_next_leaf ≡ 0
      → (line : List ℕ) → has_prefix line insert_text ≡ false
      → strcmp_eq line exit_text ≡ false
      → (lines : List Line) × (do_line os st row line s ≡ ok (goes_on lines s))
  unfolding do_line
  do_line-unchanged t last line i e = elim (Bool-cases (is_meta_command line)) [
    | inl y ↦ let (lines, h) = do_meta_command-unchanged t line e in (lines, ground (arith, h))
    | inr n ↦ let (lines, h) = do_statement-unchanged t last line i in (lines, ground (arith, h))
  ]

  -- The only line that ends a session with success.
  do_line-exit :
      (line : List ℕ) (s : Pager F) (lines : List Line) (f : F)
      → do_line os st row line s ≡ ok (quits lines f)
      → (strcmp_eq line exit_text ≡ true) × (db_close os s ≡ ok f)
  unfolding do_line do_meta_command do_statement
  do_line-exit line s lines f e = ground arith

  -- When the loop of `main` ends by closing the table, its input has a line `.exit`.
  pub main_loop-exit :
      (input : List (List ℕ)) (s : Pager F) (lines : List Line) (f : F)
      → main_loop os st row input s ≡ ok (lines, f)
      → (i : ℕ) × (bytes : List ℕ) × (get_elem? input i ≡ some bytes)
        × (strcmp_eq (drop_last bytes) exit_text ≡ true)
  unfolding main_loop read_input drop_last
  main_loop-exit [] s lines f e = ground arith
  main_loop-exit ([] ∷ input) s lines f e = ground arith
  main_loop-exit ((c ∷ line) ∷ input) s lines f e =
      elim (Result-cases (do_line os st row (drop_last (c ∷ line)) s)) [
        | inr (x, h) ↦ absurd (ground (arith, e, h))
        | inl (quits l g, h) ↦ (0, c ∷ line, refl, (do_line-exit (drop_last (c ∷ line)) s l g h).0)
        | inl (goes_on l s', h) ↦ elim (Result-cases (main_loop os st row input s')) [
          | inr (x, h') ↦ absurd (ground (arith, e, h, h'))
          | inl ((l', f'), h') ↦
              let (i, bytes, at, typed) = main_loop-exit input s' l' f' h' in
              (suc i, bytes, at, typed)
        ]
      ]
