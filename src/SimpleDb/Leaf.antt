-- ===== src/SimpleDb/Leaf.antt =====
-- simpledb/node_btree.c: what insertion does to the bytes of a leaf. `leaf_node_insert` on a leaf with
-- room, and the loop of `leaf_node_split_and_insert` that spreads the cells over two pages.
pub mod Gap
pub mod Insert
pub mod Keys
pub mod Split
pub mod SplitKeys
use my_exercise.Prelude.{
  ℕ, zero, suc, ◌+◌, ◌-◌, ◌*◌, ◌%◌, ◌^◌, ◌==◌, leb, ltb, if◌then◌else◌, Bool, true, false,
}
use my_exercise.Bytes.{Memory, load32, store32, memcpy}
use my_exercise.Word.{add32}
use my_exercise.SimpleDb.Row.{Row, row_write_to_buffer}
use my_exercise.SimpleDb.Node.{
  Page, leaf_node_num_cells, leaf_node_cell, leaf_node_key, leaf_node_value, leaf_node_cell_size,
  leaf_node_left_split_count, leaf_node_right_split_count, leaf_node_max_cells, leaf_node_next_leaf,
  node_parent, initialize_leaf_node,
}

-- `for (i = c + k; i > c; i--) memcpy(cell i, cell (i - 1), LEAF_NODE_CELL_SIZE)`, by the rounds left
unfoldable pub open_gap : Page → ℕ → ℕ → Page
open_gap p c zero = p
open_gap p c (suc k) =
    open_gap (memcpy p (leaf_node_cell (c + suc k)) p (leaf_node_cell (c + k)) leaf_node_cell_size)
      c k

unfoldable pub make_room : Page → ℕ → ℕ → Page
unfolding open_gap
make_room p c num_cells = if ltb c num_cells then open_gap p c (num_cells - c) else p

-- A leaf with room, with the cursor at cell `c`.
unfoldable pub leaf_insert_here : Page → ℕ → ℕ → Row → Page
leaf_insert_here p c key value =
    let q = make_room p c (load32 p leaf_node_num_cells) in
    row_write_to_buffer value
      (store32 (store32 q leaf_node_num_cells (add32 (load32 q leaf_node_num_cells) 1))
        (leaf_node_key c) key)
      (leaf_node_value c)

-- The old leaf and the new one, side by side.
pub record Halves : Type 0 where
  pub old : Page
  pub new : Page

-- Whether the cell numbered `i` before the split goes to the new leaf.
abbrev pub to_new : ℕ → Bool
to_new i = leb leaf_node_left_split_count i

abbrev pub destination : ℕ → Halves → Page
destination i h = if to_new i then h.new else h.old

abbrev pub set_destination : ℕ → Page → Halves → Halves
set_destination i p h = if to_new i then record h { new = p } else record h { old = p }

abbrev pub index_within_node : ℕ → ℕ
index_within_node i = i % leaf_node_left_split_count

-- One round of the loop: what the page that takes cell `i` becomes.
unfoldable pub split_cell : ℕ → ℕ → Row → ℕ → Halves → Page
split_cell c key value i h =
    let j = index_within_node i in
    if i == c
    then row_write_to_buffer value (store32 (destination i h) (leaf_node_key j) key)
        (leaf_node_value j)
    else if ltb c i
    then memcpy (destination i h) (leaf_node_cell j) h.old (leaf_node_cell (i - 1))
        leaf_node_cell_size
    else memcpy (destination i h) (leaf_node_cell j) h.old (leaf_node_cell i) leaf_node_cell_size

-- `for (i = k - 1; i >= 0; i--)`, by the rounds left
unfoldable pub split_loop : ℕ → ℕ → Row → ℕ → Halves → Halves
unfolding split_cell
split_loop c key value zero h = h
split_loop c key value (suc i) h =
    split_loop c key value i (set_destination i (split_cell c key value i h) h)

-- Everything that `leaf_node_split_and_insert` does to the two leaves before it turns to the parent:
-- the new leaf is initialised and linked behind the old one, the cells are spread, the counts set.
unfoldable pub link_new_leaf : ℕ → Halves → Halves
link_new_leaf new_page_num h =
    let new = store32 (initialize_leaf_node h.new) node_parent (load32 h.old node_parent) in
    record {
      old = store32 h.old leaf_node_next_leaf new_page_num;
      new = store32 new leaf_node_next_leaf (load32 h.old leaf_node_next_leaf);
    }

unfoldable pub set_counts : Halves → Halves
set_counts h = record {
  old = store32 h.old leaf_node_num_cells leaf_node_left_split_count;
  new = store32 h.new leaf_node_num_cells leaf_node_right_split_count;
}

unfoldable pub split_leaves : ℕ → ℕ → Row → ℕ → Halves → Halves
unfolding link_new_leaf set_counts
split_leaves c key value new_page_num h =
    set_counts (split_loop c key value (leaf_node_max_cells + 1) (link_new_leaf new_page_num h))
