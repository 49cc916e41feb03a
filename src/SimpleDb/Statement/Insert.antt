-- ===== src/SimpleDb/Statement/Insert.antt =====
-- simpledb/statement.c: `execute_insert` on a table whose root is a leaf.
use my_exercise.Prelude.{ℕ, ◌^◌, ◌<◌, ◌≡◌, ◌≢◌, ◌∙◌, sym, ap, some, arith}
use my_exercise.Bytes.{load32}
use my_exercise.SimpleDb.Exit.{ok}
use my_exercise.SimpleDb.Row.{row_size, row_get_key}
use my_exercise.SimpleDb.Node.{Page, leaf_node_num_cells, leaf_node_cell, leaf_node_max_cells}
use my_exercise.SimpleDb.Pager.{System, Pager, set_page, modify}
use my_exercise.SimpleDb.Pager.Cache.{set_page_here}
use my_exercise.SimpleDb.Search.{leaf_find_index}
use my_exercise.SimpleDb.Search.Loops.{leaf_key, Locates, leaf_find_index-Locates, Locates-same}
use my_exercise.SimpleDb.Leaf.{leaf_insert_here}
use my_exercise.SimpleDb.Leaf.Insert.{leaf_insert_count}
use my_exercise.SimpleDb.Leaf.Keys.{
  leaf_keys, ordered_insert, leaf_insert-ordered, leaf_insert-IsAscending, leaf_insert_type,
}
use my_exercise.SimpleDb.Tree.{leaf_node_insert}
use my_exercise.SimpleDb.Table.Single.{IsLeafTable, root_cached, table_find_leaf}
use my_exercise.SimpleDb.Statement.{
  Statement, execute_success, execute_duplicate_key, execute_insert,
}

module _ {F : Type 0} (os : System F) {s : Pager F} {p : Page} (t : IsLeafTable s p) where
  -- A key that is at the place that the search gives is refused, and the table is as before.
  execute_insert_taken :
      (st : Statement) (r : ℕ)
      → leaf_find_index p (row_get_key st.row_insert) ≡ some r
      → r < load32 p leaf_node_num_cells
      → leaf_key p r ≡ row_get_key st.row_insert
      → execute_insert os st s ≡ ok (execute_duplicate_key, s)
  unfolding execute_insert
  execute_insert_taken st r e l k =
      ground (arith, root_cached os t, table_find_leaf os t (row_get_key st.row_insert) r e)

  execute_insert_new :
      (st : Statement) (r : ℕ)
      → leaf_find_index p (row_get_key st.row_insert) ≡ some r
      → (r < load32 p leaf_node_num_cells → leaf_key p r ≢ row_get_key st.row_insert)
      → load32 p leaf_node_num_cells < leaf_node_max_cells
      → execute_insert os st s
        ≡ ok (
          execute_success,
          set_page s 0 (some (leaf_insert_here p r (row_get_key st.row_insert) st.row_insert)),
        )
  unfolding execute_insert leaf_node_insert modify
  execute_insert_new st r e l k =
      ground (arith, root_cached os t, t.root, table_find_leaf os t (row_get_key st.row_insert) r e)

  module _ (st : Statement) where
    abbrev new_key : ℕ
    new_key = row_get_key st.row_insert

    place :
        (r : ℕ) × (leaf_find_index p new_key ≡ some r)
        × Locates (leaf_key p) (load32 p leaf_node_num_cells) new_key r
    place = leaf_find_index-Locates p new_key (omega (arith, t.small)) t.ascending

    -- On a table of one leaf, `execute_insert` refuses a key that is in it, and changes nothing.
    pub execute_insert-duplicate :
        (i : ℕ)
        → i < load32 p leaf_node_num_cells
        → leaf_key p i ≡ row_get_key st.row_insert
        → execute_insert os st s ≡ ok (execute_duplicate_key, s)
    execute_insert-duplicate i l e =
        let (r, f, located) = place in
        let same : i ≡ r =
          Locates-same (leaf_key p) (load32 p leaf_node_num_cells) new_key r i located l e in
        execute_insert_taken st r f (omega arith) (ap (leaf_key p) (sym same) ∙ e)

    -- On a table of one leaf with room, `execute_insert` puts a new key in its place among the keys,
    -- and the table stays one of a single ascending leaf. It is asked that the row's padding byte be the
    -- lowest byte of the next greater key, if there is one.
    pub execute_insert-ordered :
        load32 p leaf_node_num_cells < leaf_node_max_cells
        → new_key < 2 ^ 32
        → ((i : ℕ) → i < load32 p leaf_node_num_cells → leaf_key p i ≢ new_key)
        → ((i : ℕ)
            → Locates (leaf_key p) (load32 p leaf_node_num_cells) new_key i
            → i < load32 p leaf_node_num_cells
            → st.row_insert row_size ≡ p (leaf_node_cell i))
        → (q : Page) × (execute_insert os st s ≡ ok (execute_success, set_page s 0 (some q)))
          × (leaf_keys q ≡ ordered_insert new_key (leaf_keys p))
          × IsLeafTable (set_page s 0 (some q)) q
    execute_insert-ordered room small fresh quiet = (
      leaf_insert_here p r new_key st.row_insert,
      execute_insert_new st r place.1 (λ l. fresh r l) room,
      leaf_insert-ordered p r new_key st.row_insert (omega arith) small place.2 apart
          (quiet r place.2),
      record {
        root = set_page_here s 0 (some (leaf_insert_here p r new_key st.row_insert));
        leaf = leaf_insert_type p r new_key st.row_insert (omega arith) small place.2.0 ∙ t.leaf;
        small =
            rw (leaf_insert_count p r new_key st.row_insert place.2.0 (omega arith)) (omega arith);
        ascending =
            leaf_insert-IsAscending p r new_key st.row_insert (omega arith) small place.2 apart
              (quiet r place.2) t.ascending;
      },
    )
      where
        r : ℕ
        r = place.0

        apart : r < load32 p leaf_node_num_cells → new_key ≢ leaf_key p r
        apart l e = fresh r l (sym e)
