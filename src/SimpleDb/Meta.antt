-- ===== src/SimpleDb/Meta.antt =====
-- simpledb/meta.h and meta.c: the commands that begin with a dot. What a command prints is a list of
-- lines.
pub mod PrintTree
use my_exercise.Prelude.{
  ℕ, zero, suc, ◌+◌, ◌==◌, if◌then◌else◌, Bool, true, false, List, [], ◌∷◌, ◌++◌, map,
}
use my_exercise.Bytes.{load32}
use my_exercise.Word.{add32}
use my_exercise.CString.{strcmp_eq}
use my_exercise.SimpleDb.Exit.{Result, ok, exits, out_of_fuel}
use my_exercise.SimpleDb.Row.{RowText, row_size}
use my_exercise.SimpleDb.Node.{
  Page, node_leaf, node_internal, get_node_type, common_node_header_size, leaf_node_header_size,
  leaf_node_cell_size, leaf_node_space_for_cells, leaf_node_max_cells, leaf_node_num_cells,
  leaf_node_key, internal_node_num_keys, internal_node_child, internal_node_key,
  internal_node_right_child,
}
use my_exercise.SimpleDb.Pager.{
  System, Pager, M, pure, fail, ◌>>=◌, ◌>>◌, deref, pager_get_page, table_max_pages,
}
use my_exercise.SimpleDb.Tree.{branch, child_offset}
use my_exercise.SimpleDb.Table.{root_page_num, db_close}

-- A line of output, the prompt included. Those of the tree carry their level of indentation.
pub data Line : Type 0 where
  welcome prompt bye tree_title constants_title : Line
  constant : ℕ → Line
  leaf_line leaf_key_line internal_line internal_key_line : ℕ → ℕ → Line
  unrecognized_command syntax_error unrecognized_statement : List ℕ → Line
  string_too_long negative_id executed duplicate_key table_full : Line
  row_line : RowText → Line

-- A command returns to the loop, or ends the process and leaves the file.
pub data Outcome (F : Type 0) : Type 0 where
  goes_on : List Line → Pager F → Outcome F
  quits : List Line → F → Outcome F

abbrev pub exit_text : List ℕ
exit_text = b'.' ∷ b'e' ∷ b'x' ∷ b'i' ∷ b't' ∷ []

abbrev pub constants_text : List ℕ
constants_text = b'.' ∷ b'c' ∷ b'o' ∷ b'n' ∷ b's' ∷ b't' ∷ b'a' ∷ b'n' ∷ b't' ∷ b's' ∷ []

abbrev pub btree_text : List ℕ
btree_text = b'.' ∷ b'b' ∷ b't' ∷ b'r' ∷ b'e' ∷ b'e' ∷ []

-- The first byte of the buffer; that of an empty string is its NUL.
unfoldable pub is_meta_command : List ℕ → Bool
is_meta_command [] = false
is_meta_command (c ∷ line) = c == b'.'

unfoldable pub print_constants : List Line
print_constants = map constant (
    row_size ∷ common_node_header_size ∷ leaf_node_header_size ∷ leaf_node_cell_size
    ∷ leaf_node_space_for_cells ∷ leaf_node_max_cells ∷ root_page_num ∷ [])

-- `for (i = n; i < n + k; i++)` over the keys of a leaf
unfoldable pub print_keys : Page → ℕ → ℕ → ℕ → List Line
print_keys node level n zero = []
print_keys node level n (suc k) =
    leaf_key_line level (load32 node (leaf_node_key n)) ∷ print_keys node level (n + 1) k

unfoldable pub print_leaf : ℕ → Page → List Line
unfolding print_keys
print_leaf level node =
    leaf_line level (load32 node leaf_node_num_cells)
    ∷ print_keys node (level + 1) 0 (load32 node leaf_node_num_cells)

-- `for (i = n; i < n + k; i++)` over the children of an internal node; `visit` prints a child.
unfoldable pub print_children :
    {F : Type 0} → (ℕ → M F (List Line)) → ℕ → ℕ → ℕ → ℕ → M F (List Line)
unfolding deref internal_node_child
print_children visit page_num level n zero = pure []
print_children visit page_num level n (suc k) = do
  node ← deref page_num
  o ← child_offset (internal_node_child node n)
  lines ← visit (load32 node o)
  node' ← deref page_num
  rest ← print_children visit page_num level (n + 1) k
  pure (lines ++ internal_key_line level (load32 node' (internal_node_key n)) ∷ rest)

module _ {F : Type 0} (os : System F) where
  -- The fuel bounds the height of the tree.
  unfoldable pub print_tree : ℕ → ℕ → ℕ → M F (List Line)
  unfolding print_children print_leaf
  print_tree zero page_num level = fail out_of_fuel
  print_tree (suc fuel) page_num level = do
    node ← pager_get_page os page_num
    branch (get_node_type node == node_leaf) (pure (print_leaf level node)) (
        branch (get_node_type node == node_internal)
          (do
            let num_keys = load32 node internal_node_num_keys
            lines ←
                print_children (λ child. print_tree fuel child (level + 1)) page_num level 0
                  num_keys
            node' ← deref page_num
            last ← print_tree fuel (load32 node' internal_node_right_child) (level + 1)
            pure (internal_line level num_keys ∷ lines ++ last))
          (pure []))

  unfoldable pub do_meta_command : List ℕ → Pager F → Result (Outcome F)
  do_meta_command line s =
      if strcmp_eq line exit_text
      then elim (db_close os s) [ ok f ↦ ok (quits (bye ∷ []) f) | exits e ↦ exits e ]
      else if strcmp_eq line constants_text
      then ok (goes_on (constants_title ∷ print_constants) s)
      else if strcmp_eq line btree_text
      then elim (print_tree table_max_pages 0 0 s) [
        | ok (lines, s') ↦ ok (goes_on (tree_title ∷ lines) s')
        | exits e ↦ exits e
      ]
      else ok (goes_on (unrecognized_command line ∷ []) s)
