-- ===== src/SimpleDb/Table/Find.antt =====
-- simpledb/node_btree.c and table.c: `table_find` in a tree of an internal root over leaves.
use my_exercise.Prelude.{ℕ, suc, ◌^◌, ◌≤◌, ◌<◌, ◌≡◌, refl, some, arith, ◌==◌, if◌then◌else◌}
use my_exercise.Bytes.{load32}
use my_exercise.SimpleDb.Exit.{ok}
use my_exercise.SimpleDb.Node.{
  Page, node_leaf, node_internal, get_node_type, internal_node_num_keys, internal_node_child,
  internal_node_right_child, internal_node_cell, leaf_node_num_cells,
}
use my_exercise.SimpleDb.Pager.{System, Pager, table_max_pages}
use my_exercise.SimpleDb.Pager.Cache.{pager_get_page_cached}
use my_exercise.SimpleDb.Search.{leaf_find_index, internal_node_find_child}
use my_exercise.SimpleDb.Search.Loops.{
  leaf_key, internal_key, IsAscending, Locates, LowerBound, leaf_find_index-Locates,
  internal_node_find_child-LowerBound,
}
use my_exercise.SimpleDb.Tree.{Position, leaf_node_find, internal_node_find}
use my_exercise.SimpleDb.Table.{root_page_num, table_find}

-- The page number of child `i`: the right child behind the last key.
abbrev pub child_page : Page → ℕ → ℕ
child_page p i = load32 p (
    if i == load32 p internal_node_num_keys
    then internal_node_right_child
    else internal_node_cell i)

-- A cached leaf with ascending keys.
pub record IsLeafPage {F : Type 0} (s : Pager F) (n : ℕ) (p : Page) : Type 0 where
  pub cached : s.pages n ≡ some p
  pub in_bounds : n < table_max_pages
  pub leaf : get_node_type p ≡ node_leaf
  pub small : load32 p leaf_node_num_cells < 2 ^ 31
  pub ascending : IsAscending (leaf_key p) (load32 p leaf_node_num_cells)

-- A cached internal root with ascending keys, every child of which is such a leaf.
pub record IsTwoLevel {F : Type 0} (s : Pager F) (p : Page) (leaves : ℕ → Page) : Type 0 where
  pub root : s.pages root_page_num ≡ some p
  pub internal : get_node_type p ≡ node_internal
  pub small : load32 p internal_node_num_keys < 2 ^ 31
  pub ascending : IsAscending (internal_key p) (load32 p internal_node_num_keys)
  pub children :
      (i : ℕ) → i ≤ load32 p internal_node_num_keys → IsLeafPage s (child_page p i) (leaves i)

-- Where a key is looked for: the child `i` that the root's keys choose, and the place in that leaf.
pub record Found (p : Page) (leaves : ℕ → Page) (key : ℕ) (at : Position) (i : ℕ) : Type 0 where
  pub chosen : LowerBound (internal_key p) (load32 p internal_node_num_keys) key i
  pub page : at.page_num ≡ child_page p i
  pub located :
      Locates (leaf_key (leaves i)) (load32 (leaves i) leaf_node_num_cells) key at.cell_num

child_offset_of :
    (p : Page) (i : ℕ)
    → i ≤ load32 p internal_node_num_keys
    → internal_node_child p i
      ≡ some (
          if i == load32 p internal_node_num_keys
          then internal_node_right_child
          else internal_node_cell i)
unfolding internal_node_child
child_offset_of p i h = ground arith

module _ {F : Type 0} (os : System F) (s : Pager F) where
  leaf_node_find_cached :
      (n key r : ℕ) (p : Page)
      → n < table_max_pages
      → s.pages n ≡ some p
      → leaf_find_index p key ≡ some r
      → leaf_node_find os n key s ≡ ok (record { page_num = n; cell_num = r }, s)
  unfolding leaf_node_find
  leaf_node_find_cached n key r p h e f = ground (arith, pager_get_page_cached os n s p h e)

  internal_node_find_leaf :
      (fuel n key i r : ℕ) (p child : Page)
      → n < table_max_pages
      → s.pages n ≡ some p
      → internal_node_find_child p key ≡ some i
      → i ≤ load32 p internal_node_num_keys
      → IsLeafPage s (child_page p i) child
      → leaf_find_index child key ≡ some r
      → internal_node_find os (suc fuel) n key s
        ≡ ok (record { page_num = child_page p i; cell_num = r }, s)
  unfolding internal_node_find
  internal_node_find_leaf fuel n key i r p child h e f l c g = ground (
    arith,
    pager_get_page_cached os n s p h e,
    child_offset_of p i l,
    pager_get_page_cached os (child_page p i) s child c.in_bounds c.cached,
    leaf_node_find_cached (child_page p i) key r child c.in_bounds c.cached g,
  )

  -- In a tree of two levels with every page cached and keys that ascend, `table_find` ends in the leaf that the root's keys choose for the key, at the
  -- place where the key is or belongs there, and changes nothing.
  pub table_find-Found :
      (p : Page) (leaves : ℕ → Page) (key : ℕ)
      → IsTwoLevel s p leaves
      → (at : Position) × (i : ℕ) × (table_find os key s ≡ ok (at, s)) × Found p leaves key at i
  unfolding table_find
  table_find-Found p leaves key t =
      let (i, f, chosen) = internal_node_find_child-LowerBound p key t.small t.ascending in
      let c : IsLeafPage s (child_page p i) (leaves i) = t.children i chosen.0 in
      let (r, g, located) = leaf_find_index-Locates (leaves i) key c.small c.ascending in
      (
        record { page_num = child_page p i; cell_num = r },
        i,
        ground (
          arith,
          pager_get_page_cached os 0 s p (omega arith) t.root,
          internal_node_find_leaf 99 0 key i r p (leaves i) (omega arith) t.root f chosen.0 c g,
        ),
        record { chosen = chosen; page = refl; located = located },
      )
