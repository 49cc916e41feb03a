-- ===== src/SimpleDb/Statement/Rows.antt =====
-- simpledb: the rows of a leaf before and after an insertion.
use my_exercise.Prelude.{
  ℕ, zero, suc, ◌+◌, ◌-◌, ◌^◌, ◌≤◌, ◌<◌, ◌≡◌, ◌∙◌, refl, ap, ◌∷◌, ◌++◌, arith,
}
use my_exercise.Bytes.{load32}
use my_exercise.Bytes.Laws.{load32_cong}
use my_exercise.SimpleDb.Row.{Row, row_print}
use my_exercise.SimpleDb.Row.Init.{c_string_cong}
use my_exercise.SimpleDb.Node.{Page, leaf_node_num_cells, leaf_node_value}
use my_exercise.SimpleDb.Leaf.{leaf_insert_here}
use my_exercise.SimpleDb.Leaf.Insert.{Inserted, leaf_insert_here-Inserted}
use my_exercise.SimpleDb.Statement.Select.{row_at, rows_from}

row_at_cong :
    (p q : Page) (o u : ℕ) → ((k : ℕ) → k < 70 → p (o + k) ≡ q (u + k)) → row_at p o ≡ row_at q u
unfolding row_at
row_at_cong p q o u h = cc (
  load32_cong p q o u (ground (arith, h 0)) (h 1 (omega arith)) (h 2 (omega arith))
      (h 3 (omega arith)),
  c_string_cong p q (o + 4) (u + 4) 33 (λ k l. ground (arith, h (4 + k))),
  c_string_cong p q (o + 37) (u + 37) 33 (λ k l. ground (arith, h (37 + k))),
)

row_at-row_print :
    (p : Page) (o : ℕ) (row : Row)
    → ((k : ℕ) → k < 70 → p (o + k) ≡ row k)
    → row_at p o ≡ row_print row
unfolding row_at row_print
row_at-row_print p o row h = cc (
  load32_cong p row o 0 (ground (arith, h 0)) (h 1 (omega arith)) (h 2 (omega arith))
      (h 3 (omega arith)),
  c_string_cong p row (o + 4) 4 33 (λ k l. ground (arith, h (4 + k))),
  c_string_cong p row (o + 37) 37 33 (λ k l. ground (arith, h (37 + k))),
)

rows_from_cong :
    (p q : Page) (a b k : ℕ)
    → ((i : ℕ) → i < k → row_at p (leaf_node_value (a + i)) ≡ row_at q (leaf_node_value (b + i)))
    → rows_from p a k ≡ rows_from q b k
unfolding rows_from
rows_from_cong p q a b zero h = refl
rows_from_cong p q a b (suc k) h = ground (
  arith,
  h 0,
  rows_from_cong p q (a + 1) (b + 1) k (λ (i : ℕ) (l : i < k). ground (arith, h (suc i))),
)

rows_from-append :
    (p : Page) (a c k : ℕ) → rows_from p a (c + k) ≡ rows_from p a c ++ rows_from p (a + c) k
unfolding rows_from
rows_from-append p a zero k = ground arith
rows_from-append p a (suc c) k =
    let e : suc c + k ≡ suc (c + k) = omega arith in
    rw e (ground (arith, rows_from-append p (a + 1) c k))

module _ (p : Page) (c key : ℕ) (value : Row) (small : load32 p leaf_node_num_cells + 1 < 2 ^ 32)
    (small_key : key < 2 ^ 32) (le : c ≤ load32 p leaf_node_num_cells) where
  abbrev inserted : Page
  inserted = leaf_insert_here p c key value

  ins : Inserted p inserted c key value
  ins = leaf_insert_here-Inserted p c key value le small small_key

  -- Inserting into a leaf with room at cell `c` keeps the row of every cell before it, stores the new row
  -- there, and moves the rows of the cells from `c` on up by one.
  pub leaf_insert_rows :
      rows_from inserted 0 (load32 inserted leaf_node_num_cells)
      ≡ rows_from p 0 c ++ (row_print value ∷ rows_from p c (load32 p leaf_node_num_cells - c))
  unfolding rows_from
  leaf_insert_rows =
      ap (rows_from inserted 0) (ins.count ∙ split)
      ∙ rows_from-append inserted 0 c (suc (load32 p leaf_node_num_cells - c))
      ∙ cc (
        rows_from_cong inserted p 0 0 c (λ i l. row_at_cong inserted p _ _ (λ k h. early i k l h)),
        ap (λ j. rows_from inserted j (suc (load32 p leaf_node_num_cells - c))) zero_left,
        row_at-row_print inserted (leaf_node_value c) value ins.value_here,
        rows_from_cong inserted p (c + 1) c (load32 p leaf_node_num_cells - c)
            (λ i l. row_at_cong inserted p _ _ (λ k h. late i k l h)),
      )
    where
      split : load32 p leaf_node_num_cells + 1 ≡ c + suc (load32 p leaf_node_num_cells - c)
      split = omega arith

      zero_left : 0 + c ≡ c
      zero_left = omega arith

      early :
          (i k : ℕ)
          → i < c
          → k < 70
          → inserted (leaf_node_value (0 + i) + k) ≡ p (leaf_node_value (0 + i) + k)
      early i k l h = ground (arith, ins.before i (4 + k))

      late :
          (i k : ℕ)
          → i < load32 p leaf_node_num_cells - c
          → k < 70
          → inserted (leaf_node_value (c + 1 + i) + k) ≡ p (leaf_node_value (c + i) + k)
      late i k l h = ground (arith, ins.after (c + i) (4 + k))
