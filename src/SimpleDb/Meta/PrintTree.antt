-- ===== src/SimpleDb/Meta/PrintTree.antt =====
-- simpledb/meta.c: `print_tree` on a table whose root is a leaf.
use my_exercise.Prelude.{ℕ, zero, suc, ◌+◌, ◌≡◌, refl, ap, ◌∷◌, map, arith}
use my_exercise.Bytes.{load32}
use my_exercise.SimpleDb.Exit.{ok}
use my_exercise.SimpleDb.Node.{Page, leaf_node_num_cells}
use my_exercise.SimpleDb.Pager.{System, Pager}
use my_exercise.SimpleDb.Leaf.Keys.{leaf_keys, tabulate, tabulate_cong}
use my_exercise.SimpleDb.Search.Loops.{leaf_key}
use my_exercise.SimpleDb.Table.Single.{IsLeafTable, root_cached}
use my_exercise.SimpleDb.Meta.{leaf_line, leaf_key_line, print_keys, print_leaf, print_tree}

print_keys-tabulate :
    (p : Page) (level n k : ℕ)
    → print_keys p level n k ≡ map (leaf_key_line level) (tabulate (λ i. leaf_key p (n + i)) k)
unfolding print_keys
print_keys-tabulate p level n zero = refl
print_keys-tabulate p level n (suc k) = cc (
  ap (λ c. leaf_key_line level (leaf_key p c)) here,
  print_keys-tabulate p level (n + 1) k,
  tabulate_cong (λ i. leaf_key p (n + 1 + i)) (λ i. leaf_key p (n + suc i)) k
      (λ i h. ap (leaf_key p) (omega arith)),
)
  where
    here : n ≡ n + 0
    here = omega arith

module _ {F : Type 0} (os : System F) {s : Pager F} {p : Page} (t : IsLeafTable s p) where
  -- On a table of one leaf, `print_tree` ends, with any fuel above 0, and prints the number of keys
  -- and then the keys in order, one level deeper. It changes nothing.
  pub print_tree-leaf_keys :
      (fuel level : ℕ)
      → print_tree os (suc fuel) 0 level s
        ≡ ok (
          leaf_line level (load32 p leaf_node_num_cells)
              ∷ map (leaf_key_line (level + 1)) (leaf_keys p),
          s,
        )
  unfolding print_tree print_leaf
  print_tree-leaf_keys fuel level = ground (
    arith,
    root_cached os t,
    t.leaf,
    print_keys-tabulate p (level + 1) 0 (load32 p leaf_node_num_cells),
  )
