-- ===== src/SimpleDb/Table/Single.antt =====
-- simpledb/table.c: a table whose root is a leaf, as `db_open` makes it on a new file.
use my_exercise.Prelude.{
  ℕ, ◌≤◌, ◌≡◌, ◌∙◌, refl, sym, none, some, true, arith, inl, inr, Option-cases,
}
use my_exercise.Bytes.{load32, store8, store32}
use my_exercise.SimpleDb.Exit.{ok}
use my_exercise.SimpleDb.Node.{
  Page, node_leaf, get_node_type, is_node_root, set_node_root, initialize_leaf_node,
  leaf_node_num_cells, leaf_node_next_leaf, leaf_node_max_cells,
}
use my_exercise.SimpleDb.Pager.{
  System, Pager, pager_open, pager_get_page, load_page, grow, set_page, modify,
}
use my_exercise.SimpleDb.Pager.Cache.{pager_get_page_cached, set_page_here}
use my_exercise.SimpleDb.Search.{leaf_find_index}
use my_exercise.SimpleDb.Search.Loops.{leaf_key, IsAscending}
use my_exercise.SimpleDb.Tree.{leaf_node_find}
use my_exercise.SimpleDb.Table.{root_page_num, table_find, init_root, db_open}

-- The root is cached and is a leaf with its keys in order.
pub record IsLeafTable {F : Type 0} (s : Pager F) (p : Page) : Type 0 where
  pub root : s.pages root_page_num ≡ some p
  pub leaf : get_node_type p ≡ node_leaf
  pub small : load32 p leaf_node_num_cells ≤ leaf_node_max_cells
  pub ascending : IsAscending (leaf_key p) (load32 p leaf_node_num_cells)

module _ {F : Type 0} (os : System F) {s : Pager F} {p : Page} (t : IsLeafTable s p) where
  pub root_cached : pager_get_page os 0 s ≡ ok (p, s)
  root_cached = pager_get_page_cached os 0 s p (omega arith) t.root

  pub table_find_leaf :
      (key r : ℕ)
      → leaf_find_index p key ≡ some r
      → table_find os key s ≡ ok (record { page_num = 0; cell_num = r }, s)
  unfolding table_find leaf_node_find
  table_find_leaf key r e = ground (arith, root_cached, t.leaf)

-- A page that `db_open` has made the root of a new file.
pub record IsEmptyRoot (p : Page) : Type 0 where
  pub leaf : get_node_type p ≡ node_leaf
  pub root : is_node_root p ≡ true
  pub empty : load32 p leaf_node_num_cells ≡ 0
  pub last : load32 p leaf_node_next_leaf ≡ 0

new_root-IsEmptyRoot : (p : Page) → IsEmptyRoot (set_node_root (initialize_leaf_node p) true)
unfolding initialize_leaf_node get_node_type is_node_root load32 store32 store8
new_root-IsEmptyRoot p = record { leaf = refl; root = refl; empty = refl; last = refl }

module _ {F : Type 0} (os : System F) (f : F) where
  abbrev pub new_pager : Pager F
  new_pager = record { file = f; file_length = 0; num_pages = 0; pages = λ _. none }

  open_new : os.file_size f ≡ 0 → db_open os (some f) ≡ init_root os new_pager
  unfolding db_open pager_open
  open_new e = ground arith

  -- The pager once page 0, which came as `m`, is initialised.
  abbrev pub with_root : Page → Pager F
  with_root m =
      set_page (grow 0 (set_page new_pager 0 (some m))) 0
        (some (set_node_root (initialize_leaf_node m) true))

  init_root_lem : (s : Pager F) → init_root os new_pager ≡ ok s → (m : Page) × (s ≡ with_root m)
  unfolding init_root pager_get_page modify
  init_root_lem s e = elim (Option-cases (load_page os 0 new_pager)) [
    | inl lost ↦ ground arith
    | inr (m, got) ↦ (m, ground arith)
  ]

  -- `db_open` on a file with no page in it, when it returns, has made an empty table: page 0 is a leaf,
  -- the root, without cells and without a leaf behind it.
  pub db_open-IsLeafTable :
      (s : Pager F)
      → os.file_size f ≡ 0
      → db_open os (some f) ≡ ok s
      → (p : Page) × IsLeafTable s p × IsEmptyRoot p
  db_open-IsLeafTable s e o =
      let (m, same) = init_root_lem s (sym (open_new e) ∙ o) in
      let q : Page = set_node_root (initialize_leaf_node m) true in
      let new : IsEmptyRoot q = new_root-IsEmptyRoot m in
      (
        q,
        record {
          root = rw same (set_page_here (grow 0 (set_page new_pager 0 (some m))) 0 (some q));
          leaf = new.leaf;
          small = omega (arith, new.empty);
          ascending = λ i j h l. absurd (omega (arith, new.empty));
        },
        new,
      )
