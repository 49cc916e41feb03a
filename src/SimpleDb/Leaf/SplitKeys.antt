-- ===== src/SimpleDb/Leaf/SplitKeys.antt =====
-- simpledb/node_btree.c: the two leaves that `leaf_node_split_and_insert` makes of a full one.
use my_exercise.Prelude.{
  ℕ, zero, suc, ◌+◌, ◌-◌, ◌^◌, ◌≤◌, ◌<◌, ◌≡◌, ◌≢◌, ◌⊎◌, ◌∙◌, inl, inr, sym, ap, ◌++◌, arith, dec_lt,
  ℕ_discrete, ltb, ◌==◌, if◌then◌else◌,
}
use mathlib.Core.Path.{ap₂}
use my_exercise.Bytes.{load32, store32}
use my_exercise.Bytes.Laws.{load32_cong, store32_ne, load32-store32_self}
use my_exercise.SimpleDb.Row.{Row, row_size}
use my_exercise.SimpleDb.Node.{Page, leaf_node_num_cells, leaf_node_cell, leaf_node_key}
use my_exercise.SimpleDb.Leaf.{
  Halves, destination, index_within_node, link_new_leaf, set_counts, split_loop, split_leaves,
}
use my_exercise.SimpleDb.Leaf.Keys.{
  tabulate, leaf_keys, ordered_insert, tabulate_insert, tabulate_cong,
}
use my_exercise.SimpleDb.Leaf.Split.{new_cell, merged, placed, split_loop-merged, split_loop_spill}
use my_exercise.SimpleDb.Search.Loops.{leaf_key, Locates}

-- The key of cell number `i` once the new one is in at `c`.
abbrev merged_key : ℕ → ℕ → (ℕ → ℕ) → ℕ → ℕ
merged_key c key keys i = if i == c then key else if ltb c i then keys (i - 1) else keys i

tabulate-append :
    (f : ℕ → ℕ) (m n : ℕ) → tabulate f (m + n) ≡ tabulate f m ++ tabulate (λ i. f (m + i)) n
tabulate-append f zero n =
    let e : 0 + n ≡ n = omega arith in
    rw e (tabulate_cong f (λ i. f (0 + i)) n (λ i h. ap f (omega arith)))
tabulate-append f (suc m) n =
    let e : suc m + n ≡ suc (m + n) = omega arith in
    rw e (
      cc (
        tabulate-append (λ i. f (suc i)) m n,
        tabulate_cong (λ i. f (suc (m + i))) (λ i. f (suc m + i)) n (λ i h. ap f (omega arith)),
      ))

dec_spilled : (c i b : ℕ) → ((i ≢ c + 1) ⊎ (0 < b) ⊎ (i ≡ 28)) ⊎ ((i ≡ c + 1) × (b ≡ 0) × (i ≢ 28))
dec_spilled c i b = grind arith

module _ (p new : Page) (c key new_page_num : ℕ) (value : Row) where
  abbrev linked : Halves
  linked = link_new_leaf new_page_num (record { old = p; new = new })

  abbrev spread : Halves
  spread = split_loop c key value 56 linked

  abbrev leaves : Halves
  leaves = split_leaves c key value new_page_num (record { old = p; new = new })

  -- Below the header the old leaf is still as it was when the loop starts.
  linked_old : (a : ℕ) → 14 ≤ a → linked.old a ≡ p a
  unfolding link_new_leaf
  linked_old a h = store32_ne p 10 new_page_num a (omega arith)

  placed-leaves : (i b : ℕ) → placed leaves i b ≡ placed spread i b
  unfolding split_leaves
  placed-leaves i b = ground (
    arith,
    store32_ne spread.old 6 28 (leaf_node_cell (index_within_node i) + b),
    store32_ne spread.new 6 28 (leaf_node_cell (index_within_node i) + b),
  )

  merged-linked : (i b : ℕ) → merged c key value linked.old i b ≡ merged c key value p i b
  unfolding merged
  merged-linked i b = ground (
    arith,
    linked_old (leaf_node_cell (i - 1) + b) (omega arith),
    linked_old (leaf_node_cell i + b) (omega arith),
  )

  merged_here : (b : ℕ) → b < 4 → merged c key value p c b ≡ store32 (λ _. 0) 0 key b
  unfolding merged new_cell
  merged_here b h = ground arith

  merged_moved : (i b : ℕ) → c < i → merged c key value p i b ≡ p (leaf_node_cell (i - 1) + b)
  unfolding merged
  merged_moved i b h = ground arith

  merged_kept : (i b : ℕ) → i < c → merged c key value p i b ≡ p (leaf_node_cell i + b)
  unfolding merged
  merged_kept i b h = ground arith

  merged_word :
      key < 2 ^ 32
      → (i : ℕ) → load32 (λ b. merged c key value p i b) 0 ≡ merged_key c key (leaf_key p) i
  merged_word small i = elim (ℕ_discrete i c) [
    | yes e ↦ rw e (
        load32_cong (λ b. merged c key value p c b) (store32 (λ _. 0) 0 key) 0 0
          (merged_here 0 (omega arith)) (merged_here 1 (omega arith)) (merged_here 2 (omega arith))
          (merged_here 3 (omega arith))
        ∙ load32-store32_self (λ _. 0) 0 key
        ∙ ground arith)
    | no ne ↦ elim (dec_lt c i) [
      | yes h ↦
          load32_cong (λ b. merged c key value p i b) p 0 (leaf_node_key (i - 1))
            (ground (arith, merged_moved i 0 h)) (merged_moved i 1 h) (merged_moved i 2 h)
            (merged_moved i 3 h)
          ∙ ground arith
      | no nh ↦
          let below : i < c = omega arith in
          load32_cong (λ b. merged c key value p i b) p 0 (leaf_node_key i)
            (ground (arith, merged_kept i 0 below)) (merged_kept i 1 below) (merged_kept i 2 below)
            (merged_kept i 3 below)
          ∙ ground arith
    ]
  ]

  -- The padding byte is the lowest byte of the key that comes behind the new one in the same leaf.
  abbrev pub Quiet : Type 0
  Quiet = c < 55 → c ≢ 27 → value row_size ≡ p (leaf_node_cell c)

  module _ (le : c ≤ 55) (small : key < 2 ^ 32) (quiet : Quiet) where
    -- Every byte of the 56 cells is where it belongs.
    leaves-merged : (i b : ℕ) → i < 56 → b < 74 → placed leaves i b ≡ merged c key value p i b
    leaves-merged i b l m = elim (dec_spilled c i b) [
      | inl e ↦
          placed-leaves i b
          ∙ split_loop-merged c key value 56 i linked b (omega arith) l m e
          ∙ merged-linked i b
      | inr (e, z, n) ↦
          rw (e, z)
            (placed-leaves (c + 1) 0
              ∙ split_loop_spill c key value 56 linked (omega arith) (omega arith) (omega arith)
                  (omega arith)
              ∙ quiet (omega arith) (omega arith)
              ∙ sym (ground (arith, merged_moved (c + 1) 0)))
    ]

    leaf_key-leaves :
        (i : ℕ)
        → i < 56
        → leaf_key (destination i leaves) (index_within_node i) ≡ merged_key c key (leaf_key p) i
    leaf_key-leaves i l =
        load32_cong (destination i leaves) (λ b. merged c key value p i b)
          (leaf_node_key (index_within_node i)) 0
          (ground (arith, leaves-merged i 0 l (omega arith))) (leaves-merged i 1 l (omega arith))
          (leaves-merged i 2 l (omega arith)) (leaves-merged i 3 l (omega arith))
        ∙ merged_word small i

    counts : (load32 leaves.old 6 ≡ 28) × (load32 leaves.new 6 ≡ 28)
    unfolding split_leaves set_counts
    counts = (load32-store32_self spread.old 6 28, load32-store32_self spread.new 6 28)

    -- A leaf of 55 ascending keys is split into two, of 28 cells each, that hold its keys and the new one,
    -- in order: the lower half in the old leaf, the upper half in the new. It is asked that the new key
    -- is not there, and of the row's padding byte that it be the lowest byte of the next greater key,
    -- unless that goes to the other leaf.
    pub split_leaves-ordered :
        load32 p leaf_node_num_cells ≡ 55
        → Locates (leaf_key p) 55 key c
        → (c < 55 → key ≢ leaf_key p c)
        → (leaf_keys leaves.old ++ leaf_keys leaves.new ≡ ordered_insert key (leaf_keys p))
          × (load32 leaves.old leaf_node_num_cells ≡ 28)
          × (load32 leaves.new leaf_node_num_cells ≡ 28)
    split_leaves-ordered full located fresh = (all_keys, counts.0, counts.1)
      where
        mk : ℕ → ℕ
        mk = merged_key c key (leaf_key p)

        old_keys : tabulate (leaf_key leaves.old) 28 ≡ tabulate (merged_key c key (leaf_key p)) 28
        old_keys =
            tabulate_cong (leaf_key leaves.old) mk 28 (λ i h. ground (arith, leaf_key-leaves i))

        new_keys :
            tabulate (leaf_key leaves.new) 28
            ≡ tabulate (λ i. merged_key c key (leaf_key p) (28 + i)) 28
        new_keys =
            tabulate_cong (leaf_key leaves.new) (λ i. mk (28 + i)) 28
              (λ i h. ground (arith, leaf_key-leaves (28 + i)))

        all_keys : leaf_keys leaves.old ++ leaf_keys leaves.new ≡ ordered_insert key (leaf_keys p)
        all_keys =
            ap₂ ◌++◌ (ap (tabulate (leaf_key leaves.old)) counts.0 ∙ old_keys)
              (ap (tabulate (leaf_key leaves.new)) counts.1 ∙ new_keys)
            ∙ sym (tabulate-append mk 28 28)
            ∙ tabulate_insert (leaf_key p) mk 55 c key le (λ i h. ground arith) (ground arith)
                (λ i h k. ground arith) located.1 (λ h. omega (arith, located.3 h, fresh h))
            ∙ ap (λ n. ordered_insert key (tabulate (leaf_key p) n)) (sym full)
