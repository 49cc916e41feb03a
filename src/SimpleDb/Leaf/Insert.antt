-- ===== src/SimpleDb/Leaf/Insert.antt =====
-- simpledb/node_btree.c: the cells of a leaf after `leaf_node_insert` found room in it.
use my_exercise.Prelude.{
  ℕ, ◌+◌, ◌-◌, ◌^◌, ◌≤◌, ◌<◌, ◌≡◌, ◌⊎◌, ◌&&◌, leb, ltb, if◌then◌else◌, arith, ◌∙◌,
}
use my_exercise.Bytes.{load32, store32}
use my_exercise.Bytes.Laws.{Apart, load32_cong, load32-store32_self, store32_ne}
use my_exercise.Word.{add32}
use my_exercise.SimpleDb.Row.{Row, row_size}
use my_exercise.SimpleDb.Row.Layout.{row_write_to_buffer_lem, row_write_out}
use my_exercise.SimpleDb.Node.{
  Page, leaf_node_num_cells, leaf_node_cell, leaf_node_key, leaf_node_value,
}
use my_exercise.SimpleDb.Leaf.{make_room, leaf_insert_here}
use my_exercise.SimpleDb.Leaf.Gap.{open_gap_lem}

module _ (p : Page) (c num_cells : ℕ) (le : c ≤ num_cells) where
  make_room_lem :
      (a : ℕ)
      → make_room p c num_cells a ≡ (
          if leb (leaf_node_cell (c + 1)) a && ltb a (leaf_node_cell (num_cells + 1))
          then p (a - 74)
          else p a)
  unfolding make_room
  make_room_lem a = ground (arith, open_gap_lem p c (num_cells - c) a)

-- The page `q` is `p` with a cell of `key` and `value` put in at `c`. The first byte of the cell behind
-- it is the padding byte of `value`.
pub record Inserted (p q : Page) (c key : ℕ) (value : Row) : Type 0 where
  pub count : load32 q leaf_node_num_cells ≡ load32 p leaf_node_num_cells + 1
  pub header : (a : ℕ) → a < 14 → Apart 6 4 a 1 → q a ≡ p a
  pub before : (i k : ℕ) → i < c → k < 74 → q (leaf_node_cell i + k) ≡ p (leaf_node_cell i + k)
  pub key_here : load32 q (leaf_node_key c) ≡ key
  pub value_here : (k : ℕ) → k < 70 → q (leaf_node_value c + k) ≡ value k
  pub after :
      (i k : ℕ)
      → c ≤ i
      → i < load32 p leaf_node_num_cells
      → k < 74
      → c < i ⊎ 0 < k
      → q (leaf_node_cell (i + 1) + k) ≡ p (leaf_node_cell i + k)
  pub spill : q (leaf_node_cell (c + 1)) ≡ value row_size

module _ (p : Page) (c key : ℕ) (value : Row) (le : c ≤ load32 p leaf_node_num_cells) where
  abbrev room : Page
  room = make_room p c (load32 p leaf_node_num_cells)

  abbrev counted : Page
  counted = store32 room leaf_node_num_cells (add32 (load32 room leaf_node_num_cells) 1)

  -- A byte that is not of the header's count, of the new cell or of its spill.
  leaf_insert_byte :
      (a : ℕ)
      → Apart 6 4 a 1
      → Apart (leaf_node_cell c) 75 a 1
      → leaf_insert_here p c key value a ≡ (
          if leb (leaf_node_cell (c + 1)) a
            && ltb a (leaf_node_cell (load32 p leaf_node_num_cells + 1))
          then p (a - 74)
          else p a)
  unfolding leaf_insert_here
  leaf_insert_byte a h k =
      row_write_out value (store32 counted (leaf_node_key c) key) (leaf_node_value c) a
        (grind arith)
      ∙ store32_ne counted (leaf_node_key c) key a (grind arith)
      ∙ store32_ne room 6 (add32 (load32 room 6) 1) a h
      ∙ make_room_lem p c (load32 p 6) le a

  room-count : load32 room 6 ≡ load32 p 6
  room-count =
      load32_cong room p 6 6 (part 6 (omega arith)) (part 7 (omega arith)) (part 8 (omega arith))
        (part 9 (omega arith))
    where
      part : (a : ℕ) → a < 10 → room a ≡ p a
      part a h = ground (arith, make_room_lem p c (load32 p 6) le a)

  pub leaf_insert_count :
      load32 p 6 + 1 < 2 ^ 32 → load32 (leaf_insert_here p c key value) 6 ≡ load32 p 6 + 1
  unfolding leaf_insert_here
  leaf_insert_count h =
      load32_cong (leaf_insert_here p c key value) counted 6 6 (part 6 (omega arith))
        (part 7 (omega arith)) (part 8 (omega arith)) (part 9 (omega arith))
      ∙ load32-store32_self room 6 (add32 (load32 room 6) 1)
      ∙ omega (arith, room-count)
    where
      part : (a : ℕ) → a < 14 → leaf_insert_here p c key value a ≡ counted a
      part a k =
          row_write_out value (store32 counted (leaf_node_key c) key) (leaf_node_value c) a
            (grind arith)
          ∙ store32_ne counted (leaf_node_key c) key a (grind arith)

  leaf_insert_key : key < 2 ^ 32 → load32 (leaf_insert_here p c key value) (leaf_node_key c) ≡ key
  unfolding leaf_insert_here
  leaf_insert_key h =
      load32_cong (leaf_insert_here p c key value) keyed (leaf_node_key c) (leaf_node_key c)
        (part (leaf_node_key c) (omega arith)) (part (leaf_node_key c + 1) (omega arith))
        (part (leaf_node_key c + 2) (omega arith)) (part (leaf_node_key c + 3) (omega arith))
      ∙ load32-store32_self counted (leaf_node_key c) key
      ∙ omega arith
    where
      keyed : Page
      keyed = store32 counted (leaf_node_key c) key

      part : (a : ℕ) → a < leaf_node_value c → leaf_insert_here p c key value a ≡ keyed a
      part a k = row_write_out value keyed (leaf_node_value c) a (grind arith)

  leaf_insert_value :
      (k : ℕ) → k < 71 → leaf_insert_here p c key value (leaf_node_value c + k) ≡ value k
  unfolding leaf_insert_here
  leaf_insert_value k h = ground (
    arith,
    row_write_to_buffer_lem value (store32 counted (leaf_node_key c) key) (leaf_node_value c)
        (leaf_node_value c + k),
  )

  -- `leaf_node_insert` on a leaf with room, at a cell up to the count, puts the cell in as `Inserted` says, and
  -- spills over the next one.
  pub leaf_insert_here-Inserted :
      load32 p leaf_node_num_cells + 1 < 2 ^ 32
      → key < 2 ^ 32
      → Inserted p (leaf_insert_here p c key value) c key value
  leaf_insert_here-Inserted small small_key = record {
    count = leaf_insert_count small;
    header = λ a h k. ground (arith, leaf_insert_byte a k);
    before = λ i k h l. ground (arith, leaf_insert_byte (leaf_node_cell i + k));
    key_here = leaf_insert_key small_key;
    value_here = λ k h. leaf_insert_value k (omega arith);
    after = λ i k h l m n. ground (arith, leaf_insert_byte (leaf_node_cell (i + 1) + k));
    spill = ground (arith, leaf_insert_value 70 (omega arith));
  }
