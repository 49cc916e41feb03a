-- ===== src/SimpleDb/Search.antt =====
-- simpledb/node_btree.c: the two binary searches within a page. Each `while` takes fuel, one more than
-- the width of its range; `none` means that the fuel ran out.
pub mod Loops
use my_exercise.Prelude.{
  ℕ, zero, suc, ◌+◌, ◌/◌, ◌%◌, Option, none, some, ◌==◌, leb, ltb, if◌then◌else◌,
}
use my_exercise.Bytes.{load32}
use my_exercise.Word.{add32}
use my_exercise.SimpleDb.Node.{
  Page, leaf_node_key, leaf_node_num_cells, internal_node_key, internal_node_num_keys,
}

-- `(min_index + one_past_max_index) / 2`
abbrev pub midpoint : ℕ → ℕ → ℕ
midpoint lo hi = add32 lo hi / 2

-- The loop of `leaf_node_find`: the index that the cursor gets.
unfoldable pub leaf_find_loop : Page → ℕ → ℕ → ℕ → ℕ → Option ℕ
leaf_find_loop p key zero lo hi = none
leaf_find_loop p key (suc fuel) lo hi =
    let index = midpoint lo hi in
    let left = leaf_find_loop p key fuel lo index in
    let right = leaf_find_loop p key fuel (add32 index 1) hi in
    if hi == lo
    then some lo
    else if key == load32 p (leaf_node_key index)
    then some index
    else if ltb key (load32 p (leaf_node_key index))
    then left
    else right

unfoldable pub leaf_find_index : Page → ℕ → Option ℕ
leaf_find_index p key =
    leaf_find_loop p key (suc (load32 p leaf_node_num_cells)) 0 (load32 p leaf_node_num_cells)

unfoldable pub find_child_loop : Page → ℕ → ℕ → ℕ → ℕ → Option ℕ
find_child_loop p key zero lo hi = none
find_child_loop p key (suc fuel) lo hi =
    let index = midpoint lo hi in
    let left = find_child_loop p key fuel lo index in
    let right = find_child_loop p key fuel (add32 index 1) hi in
    if lo == hi
    then some lo
    else if leb key (load32 p (internal_node_key index))
    then left
    else right

unfoldable pub internal_node_find_child : Page → ℕ → Option ℕ
internal_node_find_child p key =
    find_child_loop p key (suc (load32 p internal_node_num_keys)) 0
      (load32 p internal_node_num_keys)
