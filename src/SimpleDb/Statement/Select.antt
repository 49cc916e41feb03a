-- ===== src/SimpleDb/Statement/Select.antt =====
-- simpledb/statement.c and table.c: `execute_select` on a table whose root is a leaf.
use my_exercise.Prelude.{
  ℕ, zero, suc, ◌+◌, ◌<◌, ◌≡◌, refl, List, [], ◌∷◌, arith, ◌==◌, some, dec_lt,
}
use my_exercise.Bytes.{load32}
use my_exercise.Bytes.Laws.{load32_cong}
use my_exercise.CString.{c_string}
use my_exercise.SimpleDb.Exit.{ok}
use my_exercise.SimpleDb.Row.{Row, RowText, row_print, row_read_from_buffer}
use my_exercise.SimpleDb.Row.Layout.{row_read_from_buffer_lem}
use my_exercise.SimpleDb.Row.Init.{c_string_cong}
use my_exercise.SimpleDb.Node.{Page, leaf_node_num_cells, leaf_node_next_leaf, leaf_node_value}
use my_exercise.SimpleDb.Pager.{System, Pager}
use my_exercise.SimpleDb.Search.{leaf_find_index}
use my_exercise.SimpleDb.Search.Loops.{leaf_find_index-Locates}
use my_exercise.SimpleDb.Table.{Cursor, table_start, cursor_value, cursor_advance}
use my_exercise.SimpleDb.Statement.{execute_success, select_loop, select_fuel, execute_select}
use my_exercise.SimpleDb.Table.Single.{IsLeafTable, root_cached, table_find_leaf}

-- The row that is stored at an offset of a page.
unfoldable pub row_at : Page → ℕ → RowText
row_at p o = record {
  id = load32 p o;
  username = c_string p (o + 4) 33;
  email = c_string p (o + 37) 33;
}

-- The rows of `k` cells from cell `c` on.
unfoldable pub rows_from : Page → ℕ → ℕ → List RowText
rows_from p c zero = []
rows_from p c (suc k) = row_at p (leaf_node_value c) ∷ rows_from p (c + 1) k

-- Printing a row that was read prints what the page holds, whatever the variable held before.
pub row_print-row_read :
    (p : Page) (o : ℕ) (row : Row) → row_print (row_read_from_buffer p o row) ≡ row_at p o
unfolding row_print row_at
row_print-row_read p o row = cc (
  load32_cong copy p 0 o (ground (arith, byte 0)) (byte 1 (omega arith)) (byte 2 (omega arith))
      (byte 3 (omega arith)),
  c_string_cong copy p 4 (o + 4) 33 (λ k h. ground (arith, byte (4 + k))),
  c_string_cong copy p 37 (o + 37) 33 (λ k h. ground (arith, byte (37 + k))),
)
  where
    copy : Row
    copy = row_read_from_buffer p o row

    byte : (a : ℕ) → a < 71 → copy a ≡ p (o + a)
    byte a h = ground (arith, row_read_from_buffer_lem p o row a)

module _ {F : Type 0} (os : System F) {s : Pager F} {p : Page} (t : IsLeafTable s p) where
  -- The cursor at cell `c` of the root, with `k` rows to come.
  abbrev at_cell : ℕ → ℕ → Cursor
  at_cell c k = record { page_num = 0; cell_num = c; end_of_table = k == 0 }

  -- Nothing is below key 0, so the search for it ends at the first cell.
  find_zero : leaf_find_index p 0 ≡ some 0
  find_zero =
      let (r, e, located) = leaf_find_index-Locates p 0 (omega (arith, t.small)) t.ascending in
      let first : r ≡ 0 = elim (dec_lt 0 r) [
        | yes h ↦ absurd (omega (arith, located.1 0 h))
        | no nh ↦ omega arith
      ] in
      rw first at e

  table_start_leaf : table_start os s ≡ ok (at_cell 0 (load32 p leaf_node_num_cells), s)
  unfolding table_start
  table_start_leaf = ground (arith, root_cached os t, table_find_leaf os t 0 0 find_zero)

  module _ (last : load32 p leaf_node_next_leaf ≡ 0) where
    advance_leaf :
        (c k : ℕ)
        → c + suc k ≡ load32 p leaf_node_num_cells
        → cursor_advance os (at_cell c (suc k)) s ≡ ok (at_cell (c + 1) k, s)
    unfolding cursor_advance
    advance_leaf c k e = ground (arith, root_cached os t, t.small)

    select_loop-rows_from :
        (fuel c k : ℕ) (row : Row)
        → k < fuel
        → c + k ≡ load32 p leaf_node_num_cells
        → select_loop os fuel row (at_cell c k) s ≡ ok (rows_from p c k, s)
    unfolding select_loop cursor_value rows_from
    select_loop-rows_from zero c k row h e = absurd (omega arith)
    select_loop-rows_from (suc fuel) c zero row h e = refl
    select_loop-rows_from (suc fuel) c (suc k) row h e = ground (
      arith,
      root_cached os t,
      advance_leaf c k e,
      row_print-row_read p (leaf_node_value c) row,
      select_loop-rows_from fuel (c + 1) k (row_read_from_buffer p (leaf_node_value c) row),
    )

    -- On a table of one leaf, `execute_select` ends and prints the row of every cell, in the order of
    -- the keys, whatever its variable `row` held before, and leaves the table as it was.
    pub execute_select-rows_from :
        (row : Row)
        → execute_select os row s
          ≡ ok ((execute_success, rows_from p 0 (load32 p leaf_node_num_cells)), s)
    unfolding execute_select
    execute_select-rows_from row = ground (
      arith,
      table_start_leaf,
      select_loop-rows_from select_fuel 0 (load32 p leaf_node_num_cells) row
          (omega (arith, t.small)) (omega arith),
    )
