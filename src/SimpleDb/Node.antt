-- ===== src/SimpleDb/Node.antt =====
-- simpledb/node.h and node.c: a page read as a node of the B-tree. A function that returns a pointer
-- into the page returns its offset; `load32 page` and `store32 page` go through it.
use my_exercise.Prelude.{
  ℕ, ◌+◌, ◌-◌, ◌*◌, ◌/◌, Option, none, some, Bool, true, false, ◌==◌, ltb, if◌then◌else◌,
}
use my_exercise.Bytes.{Memory, store8, load32, store32}
use my_exercise.Word.{sub32}
use my_exercise.SimpleDb.Row.{row_size}

abbrev pub Page : Type 0
Page = Memory

abbrev pub page_size : ℕ
page_size = 4096

-- `NodeType`, by its values: the byte in a page may hold any.
abbrev pub node_internal : ℕ
node_internal = 0

abbrev pub node_leaf : ℕ
node_leaf = 1

-- The common header.
abbrev pub node_type_offset : ℕ
node_type_offset = 0

abbrev pub is_root_offset : ℕ
is_root_offset = node_type_offset + 1

abbrev pub parent_pointer_offset : ℕ
parent_pointer_offset = is_root_offset + 1

abbrev pub common_node_header_size : ℕ
common_node_header_size = 1 + 1 + 4

-- The leaf's header and cells.
abbrev pub leaf_node_num_cells_offset : ℕ
leaf_node_num_cells_offset = common_node_header_size

abbrev pub leaf_node_next_leaf_offset : ℕ
leaf_node_next_leaf_offset = leaf_node_num_cells_offset + 4

abbrev pub leaf_node_header_size : ℕ
leaf_node_header_size = common_node_header_size + 4 + 4

abbrev pub leaf_node_key_size : ℕ
leaf_node_key_size = 4

abbrev pub leaf_node_value_size : ℕ
leaf_node_value_size = row_size

abbrev pub leaf_node_cell_size : ℕ
leaf_node_cell_size = leaf_node_key_size + leaf_node_value_size

abbrev pub leaf_node_space_for_cells : ℕ
leaf_node_space_for_cells = page_size - leaf_node_header_size

abbrev pub leaf_node_max_cells : ℕ
leaf_node_max_cells = leaf_node_space_for_cells / leaf_node_cell_size

abbrev pub leaf_node_right_split_count : ℕ
leaf_node_right_split_count = (leaf_node_max_cells + 1) / 2

abbrev pub leaf_node_left_split_count : ℕ
leaf_node_left_split_count = leaf_node_max_cells + 1 - leaf_node_right_split_count

-- The internal node's header and cells.
abbrev pub internal_node_num_keys_offset : ℕ
internal_node_num_keys_offset = common_node_header_size

abbrev pub internal_node_right_child_offset : ℕ
internal_node_right_child_offset = internal_node_num_keys_offset + 4

abbrev pub internal_node_header_size : ℕ
internal_node_header_size = common_node_header_size + 4 + 4

abbrev pub internal_node_child_size : ℕ
internal_node_child_size = 4

abbrev pub internal_node_cell_size : ℕ
internal_node_cell_size = internal_node_child_size + 4

abbrev pub internal_node_max_cells : ℕ
internal_node_max_cells = 3

unfoldable pub get_node_type : Page → ℕ
get_node_type p = p node_type_offset

unfoldable pub set_node_type : Page → ℕ → Page
set_node_type p type = store8 p node_type_offset type

unfoldable pub is_node_root : Page → Bool
is_node_root p = if p is_root_offset == 0 then false else true

unfoldable pub set_node_root : Page → Bool → Page
set_node_root p is_root = store8 p is_root_offset (if is_root then 1 else 0)

abbrev pub node_parent : ℕ
node_parent = parent_pointer_offset

abbrev pub leaf_node_num_cells : ℕ
leaf_node_num_cells = leaf_node_num_cells_offset

abbrev pub leaf_node_cell : ℕ → ℕ
leaf_node_cell cell_num = leaf_node_header_size + cell_num * leaf_node_cell_size

abbrev pub leaf_node_key : ℕ → ℕ
leaf_node_key cell_num = leaf_node_cell cell_num

abbrev pub leaf_node_value : ℕ → ℕ
leaf_node_value cell_num = leaf_node_cell cell_num + leaf_node_key_size

abbrev pub leaf_node_next_leaf : ℕ
leaf_node_next_leaf = leaf_node_next_leaf_offset

abbrev pub internal_node_num_keys : ℕ
internal_node_num_keys = internal_node_num_keys_offset

abbrev pub internal_node_right_child : ℕ
internal_node_right_child = internal_node_right_child_offset

abbrev pub internal_node_cell : ℕ → ℕ
internal_node_cell cell_num = internal_node_header_size + cell_num * internal_node_cell_size

-- `none` is the error exit of `child_num > num_keys`.
unfoldable pub internal_node_child : Page → ℕ → Option ℕ
internal_node_child p child_num =
    if ltb (load32 p internal_node_num_keys) child_num
    then none
    else if child_num == load32 p internal_node_num_keys
    then some internal_node_right_child
    else some (internal_node_cell child_num)

-- `internal_node_cell` is a `uint32_t *`, so `+ INTERNAL_NODE_CHILD_SIZE` moves by that many words.
abbrev pub internal_node_key : ℕ → ℕ
internal_node_key key_num = internal_node_cell key_num + internal_node_child_size * 4

unfoldable pub get_node_max_key : Page → ℕ
unfolding get_node_type
get_node_max_key p =
    if get_node_type p == node_internal
    then load32 p (internal_node_key (sub32 (load32 p internal_node_num_keys) 1))
    else if get_node_type p == node_leaf
    then load32 p (leaf_node_key (sub32 (load32 p leaf_node_num_cells) 1))
    else 0

unfoldable pub initialize_leaf_node : Page → Page
unfolding set_node_type set_node_root
initialize_leaf_node p =
    store32 (store32 (set_node_root (set_node_type p node_leaf) false) leaf_node_num_cells 0)
      leaf_node_next_leaf 0

unfoldable pub initialize_internal_node : Page → Page
unfolding set_node_type set_node_root
initialize_internal_node p =
    store32 (set_node_root (set_node_type p node_internal) false) internal_node_num_keys 0
