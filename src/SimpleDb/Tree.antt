-- ===== src/SimpleDb/Tree.antt =====
-- simpledb/node_btree.c: the B-tree over the pager's pages. A `void *` node is its page number; what it
-- points to is read by `deref` and written by `modify`, after `pager_get_page` has brought it in.
pub mod Internal
use my_exercise.Prelude.{
  ℕ, zero, suc, ◌+◌, ◌-◌, ◌*◌, ◌==◌, leb, ltb, if◌then◌else◌, Bool, true, false, Option, none, some,
}
use my_exercise.Bytes.{load32, store32, memcpy}
use my_exercise.Word.{add32}
use my_exercise.SimpleDb.Exit.{
  Result, ok, exits, Exit, child_out_of_range, need_internal_split, null_cursor, out_of_fuel,
}
use my_exercise.SimpleDb.Row.{Row}
use my_exercise.SimpleDb.Node.{
  Page, page_size, node_internal, node_leaf, get_node_type, get_node_max_key, is_node_root,
  set_node_root, node_parent, leaf_node_num_cells, leaf_node_max_cells, internal_node_num_keys,
  internal_node_right_child, internal_node_cell, internal_node_cell_size, internal_node_child,
  internal_node_key, internal_node_max_cells, initialize_internal_node,
}
use my_exercise.SimpleDb.Pager.{
  System, Pager, M, pure, fail, ◌>>=◌, ◌>>◌, deref, modify, pager_get_page,
  pager_get_unused_page_num,
}
use my_exercise.SimpleDb.Search.{leaf_find_index, internal_node_find_child}
use my_exercise.SimpleDb.Leaf.{Halves, leaf_insert_here, split_leaves}

-- A `Cursor` as `leaf_node_find` leaves it: `end_of_table` is not set yet.
pub record Position : Type 0 where
  pub page_num : ℕ
  pub cell_num : ℕ

-- `for (i = c + k; i > c; i--) memcpy(cell i, cell (i - 1), INTERNAL_NODE_CELL_SIZE)`
unfoldable pub internal_open_gap : Page → ℕ → ℕ → Page
internal_open_gap p c zero = p
internal_open_gap p c (suc k) =
    internal_open_gap
      (memcpy p (internal_node_cell (c + suc k)) p (internal_node_cell (c + k))
        internal_node_cell_size)
      c k

-- The index that a search gave, or the end of its fuel.
abbrev pub found : {F : Type 0} → Option ℕ → M F ℕ
found none s = exits out_of_fuel
found (some i) s = ok (i, s)

abbrev pub child_offset : {F : Type 0} → Option ℕ → M F ℕ
child_offset none s = exits child_out_of_range
child_offset (some o) s = ok (o, s)

-- `*internal_node_child(node, child_num) = v`
unfoldable pub store_child : {F : Type 0} → ℕ → ℕ → ℕ → M F (Unit {0})
unfolding deref modify internal_node_child
store_child n child_num v = do
  p ← deref n
  o ← child_offset (internal_node_child p child_num)
  modify n (λ q. store32 q o v)

abbrev pub branch : {F A : Type 0} → Bool → M F A → M F A → M F A
branch true m k = m
branch false m k = k

abbrev pub require : {F : Type 0} → Bool → Exit → M F (Unit {0})
require true e s = ok (tt, s)
require false e s = exits e

-- `*(p + offset) = v` in a page
abbrev pub store_at : {F : Type 0} → ℕ → ℕ → ℕ → M F (Unit {0})
store_at n o v = modify n (λ q. store32 q o v)

abbrev pub unused : {F : Type 0} → M F ℕ
unused s = ok (pager_get_unused_page_num s, s)

-- `switch (get_node_type(child))`; without a case the cursor is NULL.
abbrev pub by_type : {F A : Type 0} → ℕ → M F A → M F A → M F A
by_type t leaf internal =
    if t == node_leaf then leaf else if t == node_internal then internal else fail null_cursor

module _ {F : Type 0} (os : System F) where
  unfoldable pub leaf_node_find : ℕ → ℕ → M F Position
  leaf_node_find page_num key = do
    node ← pager_get_page os page_num
    i ← found (leaf_find_index node key)
    pure (record { page_num = page_num; cell_num = i })

  -- The fuel bounds the depth of the tree.
  unfoldable pub internal_node_find : ℕ → ℕ → ℕ → M F Position
  internal_node_find zero page_num key = fail out_of_fuel
  internal_node_find (suc fuel) page_num key = do
    node ← pager_get_page os page_num
    child_index ← found (internal_node_find_child node key)
    o ← child_offset (internal_node_child node child_index)
    child ← pager_get_page os (load32 node o)
    let deeper = internal_node_find fuel (load32 node o) key
    by_type (get_node_type child) (leaf_node_find (load32 node o) key) deeper

  unfoldable pub create_new_root : ℕ → ℕ → M F (Unit {0})
  unfolding deref modify store_child
  create_new_root root right_child_page_num = do
    pager_get_page os root
    pager_get_page os right_child_page_num
    left_child_page_num ← unused
    pager_get_page os left_child_page_num
    old_root ← deref root
    modify left_child_page_num (λ q. set_node_root (memcpy q 0 old_root 0 page_size) false)
    modify root (λ q. set_node_root (initialize_internal_node q) true)
    store_at root internal_node_num_keys 1
    store_child root 0 left_child_page_num
    left_child ← deref left_child_page_num
    store_at root (internal_node_key 0) (get_node_max_key left_child)
    store_child root 1 right_child_page_num
    store_at left_child_page_num node_parent root
    store_at right_child_page_num node_parent root

  -- `update_internal_node_key(parent, old_key, new_key)`
  unfoldable pub update_internal_node_key : ℕ → ℕ → ℕ → M F (Unit {0})
  unfolding deref modify
  update_internal_node_key n old_key new_key = do
    p ← deref n
    old_child_index ← found (internal_node_find_child p old_key)
    store_at n (internal_node_key old_child_index) new_key

  -- The branch of `internal_node_insert` in which the new child becomes the right child.
  unfoldable pub replace_right_child : ℕ → ℕ → ℕ → ℕ → M F (Unit {0})
  unfolding deref modify store_child
  replace_right_child parent child original_num_keys right_child = do
    store_child parent original_num_keys right_child
    right ← deref right_child
    store_at parent (internal_node_key original_num_keys) (get_node_max_key right)
    store_at parent internal_node_right_child child

  -- The branch that puts the new child in at `index`.
  unfoldable pub put_child : ℕ → ℕ → ℕ → ℕ → ℕ → M F (Unit {0})
  unfolding deref modify store_child internal_open_gap
  put_child parent child original_num_keys index child_max_key = do
    modify parent (λ q. internal_open_gap q index (original_num_keys - index))
    store_child parent index child
    store_at parent (internal_node_key index) child_max_key

  unfoldable pub internal_node_insert : ℕ → ℕ → M F (Unit {0})
  unfolding deref modify replace_right_child put_child
  internal_node_insert parent child = do
    pager_get_page os parent
    new_child ← pager_get_page os child
    p ← deref parent
    index ← found (internal_node_find_child p (get_node_max_key new_child))
    store_at parent internal_node_num_keys (add32 (load32 p internal_node_num_keys) 1)
    require (ltb (load32 p internal_node_num_keys) internal_node_max_cells) need_internal_split
    counted ← deref parent
    right ← pager_get_page os (load32 counted internal_node_right_child)
    branch (ltb (get_node_max_key right) (get_node_max_key new_child))
        (replace_right_child parent child (load32 p internal_node_num_keys)
          (load32 counted internal_node_right_child))
        (put_child parent child (load32 p internal_node_num_keys) index
          (get_node_max_key new_child))

  unfoldable pub set_leaves : ℕ → ℕ → Halves → M F (Unit {0})
  unfolding modify
  set_leaves old new h = do modify old (λ _. h.old); modify new (λ _. h.new)

  -- What follows in the parent once the leaf is split.
  unfoldable pub update_parent : ℕ → ℕ → ℕ → ℕ → M F (Unit {0})
  unfolding deref create_new_root update_internal_node_key internal_node_insert
  update_parent root page_num old_max new_page_num = do
    old ← deref page_num
    branch (is_node_root old) (create_new_root root new_page_num) (do
      pager_get_page os (load32 old node_parent)
      update_internal_node_key (load32 old node_parent) old_max (get_node_max_key old)
      internal_node_insert (load32 old node_parent) new_page_num)

  unfoldable pub leaf_node_split_and_insert : ℕ → Position → ℕ → Row → M F (Unit {0})
  unfolding deref set_leaves update_parent
  leaf_node_split_and_insert root cursor key value = do
    old ← pager_get_page os cursor.page_num
    new_page_num ← unused
    new ← pager_get_page os new_page_num
    set_leaves cursor.page_num new_page_num
        (split_leaves cursor.cell_num key value new_page_num (record { old = old; new = new }))
    update_parent root cursor.page_num (get_node_max_key old) new_page_num

  unfoldable pub leaf_node_insert : ℕ → Position → ℕ → Row → M F (Unit {0})
  unfolding modify
  leaf_node_insert root cursor key value = do
    node ← pager_get_page os cursor.page_num
    branch (leb leaf_node_max_cells (load32 node leaf_node_num_cells))
        (leaf_node_split_and_insert root cursor key value)
        (modify cursor.page_num (λ p. leaf_insert_here p cursor.cell_num key value))
