-- ===== src/SimpleDb/Leaf/Keys.antt =====
-- simpledb/node_btree.c: the keys of a leaf as a list, and what insertion does to that list.
use my_exercise.Prelude.{
  ℕ, zero, suc, ◌+◌, ◌^◌, ◌≤◌, ◌<◌, ◌≡◌, ◌≢◌, inl, inr, refl, ap, List, [], ◌∷◌, ltb, if◌then◌else◌,
  arith, dec_lt, ℕ_discrete,
}
use native.Mathlib.Numerals.{add-one}
use my_exercise.Bytes.{load32}
use my_exercise.Bytes.Laws.{load32_cong}
use my_exercise.SimpleDb.Row.{Row, row_size}
use my_exercise.SimpleDb.Node.{
  Page, leaf_node_num_cells, leaf_node_cell, leaf_node_key, get_node_type,
}
use my_exercise.SimpleDb.Leaf.{leaf_insert_here}
use my_exercise.SimpleDb.Leaf.Insert.{Inserted, leaf_insert_here-Inserted}
use my_exercise.SimpleDb.Search.Loops.{leaf_key, IsAscending, Locates}

-- The values of `f` at the first `n` numbers.
abbrev pub tabulate : (ℕ → ℕ) → ℕ → List ℕ
tabulate f zero = []
tabulate f (suc n) = f 0 ∷ tabulate (λ i. f (suc i)) n

-- The keys of a leaf, in the order of its cells.
abbrev pub leaf_keys : Page → List ℕ
leaf_keys p = tabulate (leaf_key p) (load32 p leaf_node_num_cells)

-- What an ordered table of keys does with a new key.
unfoldable pub ordered_insert : ℕ → List ℕ → List ℕ
ordered_insert k [] = k ∷ []
ordered_insert k (x ∷ xs) = if ltb k x then k ∷ x ∷ xs else x ∷ ordered_insert k xs

pub tabulate_cong :
    (f g : ℕ → ℕ) (n : ℕ) → ((i : ℕ) → i < n → f i ≡ g i) → tabulate f n ≡ tabulate g n
tabulate_cong f g zero h = refl
tabulate_cong f g (suc n) h = cc (
  h 0 (omega arith),
  tabulate_cong (λ i. f (suc i)) (λ i. g (suc i)) n (λ i l. h (suc i) (omega arith)),
)

-- A table with one value put in where the order wants it.
pub tabulate_insert :
    (f g : ℕ → ℕ) (n c k : ℕ)
    → c ≤ n
    → ((i : ℕ) → i < c → g i ≡ f i)
    → g c ≡ k
    → ((i : ℕ) → c ≤ i → i < n → g (suc i) ≡ f i)
    → ((i : ℕ) → i < c → f i < k)
    → (c < n → k < f c)
    → tabulate g (suc n) ≡ ordered_insert k (tabulate f n)
unfolding ordered_insert
tabulate_insert f g zero zero k le same here moved below above = rw here
tabulate_insert f g zero (suc c) k le same here moved below above = absurd (omega arith)
tabulate_insert f g (suc n) zero k le same here moved below above = ground (
  arith,
  above (omega arith),
  tabulate_cong (λ i. g (suc i)) f (suc n) (λ i l. moved i (omega arith) l),
)
tabulate_insert f g (suc n) (suc c) k le same here moved below above = ground (
  arith,
  same 0,
  below 0,
  tabulate_insert (λ i. f (suc i)) (λ i. g (suc i)) n c k (omega arith)
      (λ i l. same (suc i) (omega arith)) here (λ i l m. moved (suc i) (omega arith) (omega arith))
      (λ i l. below (suc i) (omega arith)) (λ l. above (omega arith)),
)

module _ {p q : Page} {c key : ℕ} {value : Row} (ins : Inserted p q c key value) where
  key_before : (i : ℕ) → i < c → leaf_key q i ≡ leaf_key p i
  key_before i h =
      load32_cong q p (leaf_node_key i) (leaf_node_key i) (ground (arith, ins.before i 0))
        (ins.before i 1 h (omega arith)) (ins.before i 2 h (omega arith))
        (ins.before i 3 h (omega arith))

  key_after : (i : ℕ) → c < i → i < load32 p leaf_node_num_cells → leaf_key q (i + 1) ≡ leaf_key p i
  key_after i h l =
      load32_cong q p (leaf_node_key (i + 1)) (leaf_node_key i) (ground (arith, ins.after i 0))
        (byte 1 (omega arith)) (byte 2 (omega arith)) (byte 3 (omega arith))
    where
      byte : (k : ℕ) → k < 4 → q (leaf_node_key (i + 1) + k) ≡ p (leaf_node_key i + k)
      byte k m = ins.after i k (omega arith) l (omega arith) (inl h)

  -- The key behind the new cell has the padding byte of the row for its lowest byte.
  key_spill :
      c < load32 p leaf_node_num_cells
      → leaf_key q (c + 1) + p (leaf_node_cell c) ≡ leaf_key p c + value row_size
  unfolding load32
  key_spill h = omega (
    arith,
    ins.spill,
    ins.after c 1 (omega arith) h (omega arith) (inr (omega arith)),
    ins.after c 2 (omega arith) h (omega arith) (inr (omega arith)),
    ins.after c 3 (omega arith) h (omega arith) (inr (omega arith)),
  )

-- A value put in where it belongs keeps an ascending table ascending.
IsAscending-insert :
    (f g : ℕ → ℕ) (n c k : ℕ)
    → c ≤ n
    → ((i : ℕ) → i < c → g i ≡ f i)
    → g c ≡ k
    → ((i : ℕ) → c ≤ i → i < n → g (suc i) ≡ f i)
    → ((i : ℕ) → i < c → f i < k)
    → ((i : ℕ) → c ≤ i → i < n → k < f i)
    → IsAscending f n
    → IsAscending g (n + 1)
IsAscending-insert f g n c k le same here moved below above asc i zero l m = absurd (omega arith)
IsAscending-insert f g n c k le same here moved below above asc i (suc j) l m = elim (dec_lt j c) [
  | yes jc ↦ elim (ℕ_discrete (suc j) c) [
    | yes e ↦ ground (arith, ap g e, here, same i, below i)
    | no ne ↦ ground (arith, same i, same (suc j), asc i (suc j))
  ]
  | no cj ↦ elim (dec_lt i c) [
    | yes ic ↦ ground (arith, same i, moved j, asc i j, below i, above j)
    | no ci ↦ ascending_tail i ci l
  ]
]
  where
    ascending_tail : (i : ℕ) → ¬ (i < c) → i < suc j → g i < g (suc j)
    ascending_tail zero ci l = ground (arith, here, moved j, above j)
    ascending_tail (suc i) ci l = elim (ℕ_discrete (suc i) c) [
      | yes e ↦ ground (arith, ap g e, here, moved j, above j)
      | no ne ↦ ground (arith, moved i, moved j, asc i j)
    ]

module _ (p : Page) (c key : ℕ) (value : Row) (small : load32 p leaf_node_num_cells + 1 < 2 ^ 32)
    (small_key : key < 2 ^ 32) where
  pub leaf_insert_type :
      c ≤ load32 p leaf_node_num_cells
      → get_node_type (leaf_insert_here p c key value) ≡ get_node_type p
  unfolding get_node_type
  leaf_insert_type le =
      (leaf_insert_here-Inserted p c key value le small small_key).header 0 (omega arith)
        (inr (omega arith))

  module _ (located : Locates (leaf_key p) (load32 p leaf_node_num_cells) key c)
      (fresh : c < load32 p leaf_node_num_cells → key ≢ leaf_key p c)
      (quiet : c < load32 p leaf_node_num_cells → value row_size ≡ p (leaf_node_cell c)) where
    abbrev inserted : Page
    inserted = leaf_insert_here p c key value

    ins : Inserted p inserted c key value
    ins = leaf_insert_here-Inserted p c key value located.0 small small_key

    moved :
        (i : ℕ)
        → c ≤ i
        → i < load32 p leaf_node_num_cells
        → leaf_key inserted (suc i) ≡ leaf_key p i
    moved i l m = elim (dec_lt c i) [
      | yes h ↦ ground (arith, key_after ins i h m)
      | no h ↦
          let e : i ≡ c = omega arith in
          ground (arith, key_spill ins (omega arith), quiet (omega arith))
    ]

    above : (i : ℕ) → c ≤ i → i < load32 p leaf_node_num_cells → key < leaf_key p i
    above i l m = elim (ℕ_discrete i c) [
      | yes e ↦ ground (arith, located.3, fresh)
      | no ne ↦ located.2 i (omega arith) m
    ]

    -- Inserting a key that is not there at the place that the search gives, into a leaf with room,
    -- gives the keys of the leaf with the new key in order, if the row's padding byte is the lowest
    -- byte of the key that stood at that place (when there is one).
    pub leaf_insert-ordered : leaf_keys inserted ≡ ordered_insert key (leaf_keys p)
    leaf_insert-ordered = rw ins.count (
        rw add-one (
          tabulate_insert (leaf_key p) (leaf_key inserted) (load32 p leaf_node_num_cells) c key
            located.0 (key_before ins) ins.key_here moved located.1 (λ l. above c (omega arith) l)))

    pub leaf_insert-IsAscending :
        IsAscending (leaf_key p) (load32 p leaf_node_num_cells)
        → IsAscending (leaf_key inserted) (load32 inserted leaf_node_num_cells)
    leaf_insert-IsAscending asc = rw ins.count (
        IsAscending-insert (leaf_key p) (leaf_key inserted) (load32 p leaf_node_num_cells) c key
          located.0 (key_before ins) ins.key_here moved located.1 above asc)

  -- Inserting before an existing cell replaces the lowest byte of that cell's key, now at `c + 1`, by
  -- the row's padding byte; the row is 70 bytes wide and 71 are copied.
  pub leaf_insert_spill :
      c < load32 p leaf_node_num_cells
      → leaf_key (leaf_insert_here p c key value) (c + 1) + p (leaf_node_cell c)
        ≡ leaf_key p c + value row_size
  leaf_insert_spill h =
      key_spill (leaf_insert_here-Inserted p c key value (omega arith) small small_key) h
