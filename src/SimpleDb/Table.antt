-- ===== src/SimpleDb/Table.antt =====
-- simpledb/table.h and table.c: opening and closing a table, and cursors over its rows.
pub mod Close
pub mod Find
pub mod Single
use my_exercise.Prelude.{
  ℕ, zero, suc, ◌+◌, ◌*◌, ◌==◌, leb, if◌then◌else◌, Bool, true, false, Option, none, some,
}
use my_exercise.Bytes.{load32}
use my_exercise.Word.{add32}
use my_exercise.SimpleDb.Exit.{Result, ok, exits, error_closing}
use my_exercise.SimpleDb.Node.{
  Page, node_leaf, get_node_type, set_node_root, initialize_leaf_node, leaf_node_num_cells,
  leaf_node_next_leaf, leaf_node_value,
}
use my_exercise.SimpleDb.Pager.{
  System, Pager, M, pure, fail, ◌>>=◌, ◌>>◌, deref, modify, set_page, pager_open, pager_get_page,
  pager_flush, table_max_pages,
}
use my_exercise.SimpleDb.Tree.{Position, leaf_node_find, internal_node_find, branch}

-- `root_page_num`, which `db_open` sets once and for all
abbrev pub root_page_num : ℕ
root_page_num = 0

pub record Cursor : Type 0 where
  pub page_num : ℕ
  pub cell_num : ℕ
  pub end_of_table : Bool

-- The body of `cursor_advance` on the page of the cursor.
unfoldable pub advance_on : Page → Cursor → Cursor
advance_on node cur =
    let cell_num = add32 cur.cell_num 1 in
    let next_page_num = load32 node leaf_node_next_leaf in
    if leb (load32 node leaf_node_num_cells) cell_num
    then if next_page_num == 0
      then record cur { cell_num = cell_num; end_of_table = true }
      else record cur { page_num = next_page_num; cell_num = 0 }
    else record cur { cell_num = cell_num }

module _ {F : Type 0} (os : System F) where
  -- A path down the tree meets each page once at most: the fuel is the number of pages.
  unfoldable pub table_find : ℕ → M F Position
  table_find key = do
    root_node ← pager_get_page os root_page_num
    branch (get_node_type root_node == node_leaf) (leaf_node_find os root_page_num key)
        (internal_node_find os table_max_pages root_page_num key)

  unfoldable pub table_start : M F Cursor
  table_start = do
    cursor ← table_find 0
    node ← pager_get_page os cursor.page_num
    pure (record {
      page_num = cursor.page_num;
      cell_num = cursor.cell_num;
      end_of_table = load32 node leaf_node_num_cells == 0;
    })

  -- The page of the cursor; the row stands at `leaf_node_value` of the cursor's cell.
  unfoldable pub cursor_value : Cursor → M F (Page × ℕ)
  cursor_value cur = do
    page ← pager_get_page os cur.page_num
    pure (page, leaf_node_value cur.cell_num)

  unfoldable pub cursor_advance : Cursor → M F Cursor
  unfolding advance_on
  cursor_advance cur = do node ← pager_get_page os cur.page_num; pure (advance_on node cur)

  -- Page 0 of a new file becomes an empty leaf, the root.
  unfoldable pub init_root : Pager F → Result (Pager F)
  unfolding modify
  init_root s =
      elim ((do pager_get_page os 0; modify 0 (λ p. set_node_root (initialize_leaf_node p) true))
        s) [ ok (u, s') ↦ ok s' | exits e ↦ exits e ]

  unfoldable pub db_open : Option F → Result (Pager F)
  db_open file = elim (pager_open os file) [
    | exits e ↦ exits e
    | ok s ↦ if s.num_pages == 0 then init_root s else ok s
  ]

  -- `for (i = n; i < n + k; i++)`: flush and free the pages that are cached.
  unfoldable pub close_loop : ℕ → ℕ → Pager F → Result (Pager F)
  unfolding set_page
  close_loop zero n s = ok s
  close_loop (suc k) n s = elim (s.pages n) [
    | none ↦ close_loop k (n + 1) s
    | some p ↦ elim (pager_flush os n s) [
      | exits e ↦ exits e
      | ok (u, s') ↦ close_loop k (n + 1) (set_page s' n none)
    ]
  ]

  -- The file as `db_close` leaves it. What is freed after that has no state left.
  unfoldable pub db_close : Pager F → Result F
  unfolding close_loop
  db_close s = elim (close_loop s.num_pages 0 s) [
    | exits e ↦ exits e
    | ok s' ↦ if os.close s'.file then ok s'.file else exits error_closing
  ]
