-- ===== src/SimpleDb/Leaf/Split.antt =====
-- simpledb/node_btree.c: where the loop of `leaf_node_split_and_insert` puts every byte of every cell.
use my_exercise.Prelude.{
  ℕ, zero, suc, ◌+◌, ◌-◌, ◌≤◌, ◌<◌, ◌≡◌, ◌≢◌, ◌⊎◌, ◌∙◌, refl, ◌==◌, ltb, if◌then◌else◌, arith, ap,
  dec_lt, inl, inr,
}
use my_exercise.Bytes.{Memory, store32, memcpy}
use my_exercise.Bytes.Laws.{Apart, store32_ne, memcpy_out}
use my_exercise.SimpleDb.Row.{Row, row_size, row_write_to_buffer}
use my_exercise.SimpleDb.Row.Layout.{row_write_to_buffer_lem, row_write_out, row_write_spill}
use my_exercise.SimpleDb.Node.{Page, leaf_node_cell}
use my_exercise.SimpleDb.Leaf.{
  Halves, destination, set_destination, index_within_node, split_cell, split_loop,
}

-- The bytes of a cell made of a key and a row.
unfoldable pub new_cell : ℕ → Row → ℕ → ℕ
new_cell key value b = if ltb b 4 then store32 (λ _. 0) 0 key b else value (b - 4)

-- Byte `b` of the cell that is number `i` once the new one is in at `c`.
unfoldable pub merged : ℕ → ℕ → Row → Page → ℕ → ℕ → ℕ
merged c key value old i b =
    if i == c
    then new_cell key value b
    else if ltb c i
    then old (leaf_node_cell (i - 1) + b)
    else old (leaf_node_cell i + b)

-- Byte `b` of the place where cell number `i` goes.
abbrev pub placed : Halves → ℕ → ℕ → ℕ
placed h i b = destination i h (leaf_node_cell (index_within_node i) + b)

store32_shift : (p : Memory) (o v b : ℕ) → b < 4 → store32 p o v (o + b) ≡ store32 (λ _. 0) 0 v b
unfolding store32
store32_shift p o v b h = ground arith

new_cell_lem :
    (p : Page) (o key : ℕ) (value : Row) (b : ℕ)
    → b < 74
    → row_write_to_buffer value (store32 p o key) (o + 4) (o + b) ≡ new_cell key value b
unfolding new_cell
new_cell_lem p o key value b h = ground (
  arith,
  row_write_to_buffer_lem value (store32 p o key) (o + 4) (o + b),
  store32_shift p o key b,
)

module _ (c key : ℕ) (value : Row) where
  split_cell_here :
      (i : ℕ) (h : Halves) (b : ℕ)
      → b < 74
      → split_cell c key value i h (leaf_node_cell (index_within_node i) + b)
        ≡ merged c key value h.old i b
  unfolding split_cell merged memcpy
  split_cell_here i h b l =
      ground
        (arith, new_cell_lem (destination i h) (leaf_node_cell (index_within_node i)) key value b l)

  -- A round writes its own cell, and the first byte behind it if it is the round of the new cell.
  split_cell_out :
      (i : ℕ) (h : Halves) (a : ℕ)
      → Apart (leaf_node_cell (index_within_node i)) 74 a 1
      → i ≢ c ⊎ Apart (leaf_node_cell (index_within_node i)) 75 a 1
      → split_cell c key value i h a ≡ destination i h a
  unfolding split_cell
  split_cell_out i h a l m = ground (
    arith,
    row_write_out value (store32 (destination i h) o key) (o + 4) a,
    store32_ne (destination i h) o key a,
    memcpy_out (destination i h) o h.old (leaf_node_cell (i - 1)) 74 a,
    memcpy_out (destination i h) o h.old (leaf_node_cell i) 74 a,
  )
    where
      o : ℕ
      o = leaf_node_cell (index_within_node i)

  -- The halves after the round of cell `i`.
  abbrev after_round : ℕ → Halves → Halves
  after_round i h = set_destination i (split_cell c key value i h) h

  round_here :
      (i : ℕ) (h : Halves) (b : ℕ)
      → b < 74
      → placed (after_round i h) i b ≡ merged c key value h.old i b
  round_here i h b l = ground (arith, split_cell_here i h b l)

  -- Byte `b` of cell `j` is not the first byte behind the new cell, in the same leaf.
  abbrev pub Unspilled : ℕ → ℕ → Type 0
  Unspilled j b = (j ≢ c + 1) ⊎ (0 < b) ⊎ (j ≡ 28)

  -- It leaves the cells above alone, but for the first byte of the one behind the new cell.
  round_above :
      (i j : ℕ) (h : Halves) (b : ℕ)
      → i < j
      → j < 56
      → b < 74
      → i ≢ c ⊎ Unspilled j b
      → placed (after_round i h) j b ≡ placed h j b
  round_above i j h b l m n e =
      ground (arith, split_cell_out i h (leaf_node_cell (index_within_node j) + b))

  -- It leaves the part of the old leaf alone from which the cells below are taken.
  round_source :
      (i : ℕ) (h : Halves) (a : ℕ)
      → a < leaf_node_cell i
      → i < 56
      → (after_round i h).old a ≡ h.old a
  round_source i h a l m = ground (arith, split_cell_out i h a)

  loop_stop : (h : Halves) → split_loop c key value zero h ≡ h
  unfolding split_loop
  loop_stop h = refl

  loop_step :
      (i : ℕ) (h : Halves)
      → split_loop c key value (suc i) h ≡ split_loop c key value i (after_round i h)
  unfolding split_loop
  loop_step i h = refl

  -- The rounds from `k - 1` down leave the cells from `k` on alone.
  split_loop_above :
      (k j : ℕ) (h : Halves) (b : ℕ)
      → k ≤ j
      → j < 56
      → b < 74
      → k ≤ c ⊎ Unspilled j b
      → placed (split_loop c key value k h) j b ≡ placed h j b
  split_loop_above zero j h b l m n e = loop_none
    where
      loop_none : placed (split_loop c key value zero h) j b ≡ placed h j b
      loop_none = ap (λ g. placed g j b) (loop_stop h)
  split_loop_above (suc k) j h b l m n e =
      ap (λ g. placed g j b) (loop_step k h)
      ∙ split_loop_above k j (after_round k h) b (omega arith) m n (omega arith)
      ∙ round_above k j h b l m n (omega arith)

  merged_cong :
      (p q : Page) (k i b : ℕ)
      → i < k
      → b < 74
      → ((a : ℕ) → a < leaf_node_cell k → p a ≡ q a)
      → merged c key value p i b ≡ merged c key value q i b
  unfolding merged
  merged_cong p q k i b l m h =
      ground (arith, h (leaf_node_cell (i - 1) + b), h (leaf_node_cell i + b))

  -- After the rounds from `k - 1` down, each cell below `k` is where it belongs: cell `i` of the old
  -- leaf with the new one put in at `c`, all but
  -- the first byte of the cell behind the new one.
  pub split_loop-merged :
      (k i : ℕ) (h : Halves) (b : ℕ)
      → k ≤ 56
      → i < k
      → b < 74
      → Unspilled i b
      → placed (split_loop c key value k h) i b ≡ merged c key value h.old i b
  split_loop-merged zero i h b l m n e = absurd (omega arith)
  split_loop-merged (suc k) i h b l m n e =
      ap (λ g. placed g i b) (loop_step k h) ∙ (elim (dec_lt i k) [
        | yes below ↦
            split_loop-merged k i (after_round k h) b (omega arith) below n e
            ∙ merged_cong (after_round k h).old h.old k i b below n
                (λ a q. round_source k h a q (omega arith))
        | no nb ↦
            let same : k ≡ i = omega arith in
            split_loop_above k i (after_round k h) b (omega arith) (omega arith) n (inr e)
            ∙ rw same (round_here i h b n)
      ])

  round_spill :
      (h : Halves) → c + 1 < 56 → c + 1 ≢ 28 → placed (after_round c h) (c + 1) 0 ≡ value row_size
  unfolding split_cell
  round_spill h l m =
      ground (arith, row_write_spill value (store32 (destination c h) o key) (o + 4))
    where
      o : ℕ
      o = leaf_node_cell (index_within_node c)

  -- The first byte behind the new cell, if that is in the same leaf, is the padding byte of the row.
  pub split_loop_spill :
      (k : ℕ) (h : Halves)
      → c < k
      → k ≤ 56
      → c + 1 < 56
      → c + 1 ≢ 28
      → placed (split_loop c key value k h) (c + 1) 0 ≡ value row_size
  split_loop_spill zero h l m n e = absurd (omega arith)
  split_loop_spill (suc k) h l m n e =
      ap (λ g. placed g (c + 1) 0) (loop_step k h) ∙ (elim (dec_lt c k) [
        | yes later ↦ split_loop_spill k (after_round k h) later (omega arith) n e
        | no now ↦
            let same : k ≡ c = omega arith in
            split_loop_above k (c + 1) (after_round k h) 0 (omega arith) n (omega arith)
              (inl (omega arith))
            ∙ rw same (round_spill h n e)
      ])

  -- The headers stay as they were.
  pub split_loop_header :
      (k : ℕ) (h : Halves) (a : ℕ)
      → a < 14
      → ((split_loop c key value k h).old a ≡ h.old a)
        × ((split_loop c key value k h).new a ≡ h.new a)
  split_loop_header zero h a l = ground (arith, loop_stop h)
  split_loop_header (suc k) h a l =
      ground (arith, loop_step k h, split_loop_header k (after_round k h) a l, split_cell_out k h a)
