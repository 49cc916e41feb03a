-- ===== src/SimpleDb/Search/Loops.antt =====
-- simpledb/node_btree.c: the binary searches end, and find where a key is or belongs.
use my_exercise.Prelude.{
  ℕ, zero, suc, ◌+◌, ◌-◌, ◌/◌, ◌^◌, ◌≤◌, ◌<◌, ◌≡◌, sym, dec_lt, Option, some, arith,
}
use my_exercise.Bytes.{load32}
use my_exercise.Word.{add32}
use my_exercise.SimpleDb.Node.{
  Page, leaf_node_key, leaf_node_num_cells, internal_node_key, internal_node_num_keys,
}
use my_exercise.SimpleDb.Search.{
  midpoint, leaf_find_loop, leaf_find_index, find_child_loop, internal_node_find_child,
}

abbrev pub leaf_key : Page → ℕ → ℕ
leaf_key p i = load32 p (leaf_node_key i)

abbrev pub internal_key : Page → ℕ → ℕ
internal_key p i = load32 p (internal_node_key i)

-- The first `n` values of `keys` ascend strictly.
abbrev pub IsAscending : (ℕ → ℕ) → ℕ → Type 0
IsAscending keys n = (i j : ℕ) → i < j → j < n → keys i < keys j

-- `r` is where `key` stands among the first `n` of `keys`, or where it would be inserted.
abbrev pub Locates : (ℕ → ℕ) → ℕ → ℕ → ℕ → Type 0
Locates keys n key r =
    (r ≤ n)
    × ((i : ℕ) → i < r → keys i < key)
    × ((i : ℕ) → r < i → i < n → key < keys i)
    × (r < n → key ≤ keys r)

-- One round of the loop of `leaf_node_find`, by cases on the range and on the key at the middle.
leaf_find_stop : (p : Page) (key fuel lo : ℕ) → leaf_find_loop p key (suc fuel) lo lo ≡ some lo
unfolding leaf_find_loop
leaf_find_stop p key fuel lo = ground arith

module _ (p : Page) (key fuel lo hi : ℕ) (open_range : lo < hi) (small : hi < 2 ^ 31) where
  leaf_find_hit :
      key ≡ leaf_key p ((lo + hi) / 2)
      → leaf_find_loop p key (suc fuel) lo hi ≡ some ((lo + hi) / 2)
  unfolding leaf_find_loop
  leaf_find_hit h = let e : midpoint lo hi ≡ (lo + hi) / 2 = omega arith in rw e (ground arith)

  leaf_find_left :
      key < leaf_key p ((lo + hi) / 2)
      → leaf_find_loop p key (suc fuel) lo hi ≡ leaf_find_loop p key fuel lo ((lo + hi) / 2)
  unfolding leaf_find_loop
  leaf_find_left h = let e : midpoint lo hi ≡ (lo + hi) / 2 = omega arith in rw e (ground arith)

  leaf_find_right :
      leaf_key p ((lo + hi) / 2) < key
      → leaf_find_loop p key (suc fuel) lo hi ≡ leaf_find_loop p key fuel ((lo + hi) / 2 + 1) hi
  unfolding leaf_find_loop
  leaf_find_right h =
      let e : midpoint lo hi ≡ (lo + hi) / 2 = omega arith in
      let e' : add32 ((lo + hi) / 2) 1 ≡ (lo + hi) / 2 + 1 = omega arith in
      rw (e, e') (ground arith)

find_child_stop : (p : Page) (key fuel lo : ℕ) → find_child_loop p key (suc fuel) lo lo ≡ some lo
unfolding find_child_loop
find_child_stop p key fuel lo = ground arith

module _ (p : Page) (key fuel lo hi : ℕ) (open_range : lo < hi) (small : hi < 2 ^ 31) where
  find_child_left :
      key ≤ internal_key p ((lo + hi) / 2)
      → find_child_loop p key (suc fuel) lo hi ≡ find_child_loop p key fuel lo ((lo + hi) / 2)
  unfolding find_child_loop
  find_child_left h = let e : midpoint lo hi ≡ (lo + hi) / 2 = omega arith in rw e (ground arith)

  find_child_right :
      internal_key p ((lo + hi) / 2) < key
      → find_child_loop p key (suc fuel) lo hi ≡ find_child_loop p key fuel ((lo + hi) / 2 + 1) hi
  unfolding find_child_loop
  find_child_right h =
      let e : midpoint lo hi ≡ (lo + hi) / 2 = omega arith in
      let e' : add32 ((lo + hi) / 2) 1 ≡ (lo + hi) / 2 + 1 = omega arith in
      rw (e, e') (ground arith)

-- What the loops know of their range `[lo, hi)`: the key is above all before, and below all after it.
record Inv (above_key : ℕ → ℕ → Type 0) (keys : ℕ → ℕ) (n key lo hi : ℕ) : Type 0 where
  ordered : lo ≤ hi
  inside : hi ≤ n
  before : (i : ℕ) → i < lo → keys i < key
  after : (i : ℕ) → hi ≤ i → i < n → above_key key (keys i)

-- The result of a loop that has ended.
abbrev Ends : (ℕ → Type 0) → Option ℕ → Type 0
Ends P o = (r : ℕ) × (o ≡ some r) × P r

module _ (keys : ℕ → ℕ) (n key lo hi : ℕ) (asc : IsAscending keys n) where
  Inv-Locates : Inv ◌<◌ keys n key lo hi → lo ≡ hi → Locates keys n key lo
  Inv-Locates inv e = (
    omega arith,
    inv.before,
    λ i h k. inv.after i (omega arith) k,
    λ h. omega (arith, inv.after lo),
  )

  hit-Locates : (r : ℕ) → r < n → keys r ≡ key → Locates keys n key r
  hit-Locates r h e = (
    omega arith,
    λ i k. omega (arith, asc i r k h),
    λ i k l. omega (arith, asc r i k l),
    λ _. omega arith,
  )

  module _ (mid : ℕ) (inv : Inv ◌<◌ keys n key lo hi) (le : lo ≤ mid) (lt : mid < hi) where
    Inv-left : key < keys mid → Inv ◌<◌ keys n key lo mid
    Inv-left h = grind (arith, inv.before, inv.after, asc)

    Inv-right : keys mid < key → Inv ◌<◌ keys n key (mid + 1) hi
    Inv-right h = grind (arith, inv.before, inv.after, asc)

leaf_find_loop-Locates :
    (p : Page) (key n : ℕ)
    → n < 2 ^ 31
    → IsAscending (leaf_key p) n
    → (fuel lo hi : ℕ) → hi - lo < fuel
    → Inv ◌<◌ (leaf_key p) n key lo hi
    → Ends (Locates (leaf_key p) n key) (leaf_find_loop p key fuel lo hi)
leaf_find_loop-Locates p key n small asc zero lo hi m inv = absurd (omega arith)
leaf_find_loop-Locates p key n small asc (suc fuel) lo hi m inv = elim (dec_lt lo hi) [
  | no shut ↦
      let e : hi ≡ lo = omega arith in
      (
        lo,
        rw e (leaf_find_stop p key fuel lo),
        Inv-Locates (leaf_key p) n key lo hi asc inv (sym e),
      )
  | yes h ↦
      let mid = (lo + hi) / 2 in
      let small' : hi < 2 ^ 31 = omega arith in
      elim (dec_lt key (leaf_key p mid)) [
        | yes l ↦ rw (leaf_find_left p key fuel lo hi h small' l) (
            leaf_find_loop-Locates p key n small asc fuel lo mid (omega arith)
              (Inv-left (leaf_key p) n key lo hi asc mid inv (omega arith) (omega arith) l))
        | no nl ↦ elim (dec_lt (leaf_key p mid) key) [
          | yes g ↦ rw (leaf_find_right p key fuel lo hi h small' g) (
              leaf_find_loop-Locates p key n small asc fuel (mid + 1) hi (omega arith)
                (Inv-right (leaf_key p) n key lo hi asc mid inv (omega arith) (omega arith) g))
          | no ng ↦ (
            mid,
            leaf_find_hit p key fuel lo hi h small' (omega arith),
            hit-Locates (leaf_key p) n key lo hi asc mid (omega arith) (omega arith),
          )
        ]
      ]
]

-- On a page whose keys ascend, the search of `leaf_node_find` ends, at the cell that holds the key
-- or at the cell before which it belongs.
pub leaf_find_index-Locates :
    (p : Page) (key : ℕ)
    → load32 p leaf_node_num_cells < 2 ^ 31
    → IsAscending (leaf_key p) (load32 p leaf_node_num_cells)
    → (r : ℕ) × (leaf_find_index p key ≡ some r)
      × Locates (leaf_key p) (load32 p leaf_node_num_cells) key r
unfolding leaf_find_index
leaf_find_index-Locates p key small asc =
    leaf_find_loop-Locates p key (load32 p leaf_node_num_cells) small asc
      (suc (load32 p leaf_node_num_cells)) 0 (load32 p leaf_node_num_cells) (omega arith)
      (record {
        ordered = omega arith;
        inside = omega arith;
        before = λ i h. absurd (omega arith);
        after = λ i h k. absurd (omega arith);
      })

-- The first of `n` ascending keys that is not below `key`; `n` if all are.
abbrev pub LowerBound : (ℕ → ℕ) → ℕ → ℕ → ℕ → Type 0
LowerBound keys n key r =
    (r ≤ n) × ((i : ℕ) → i < r → keys i < key) × ((i : ℕ) → r ≤ i → i < n → key ≤ keys i)

find_child_loop-LowerBound :
    (p : Page) (key n : ℕ)
    → n < 2 ^ 31
    → IsAscending (internal_key p) n
    → (fuel lo hi : ℕ) → hi - lo < fuel
    → Inv ◌≤◌ (internal_key p) n key lo hi
    → Ends (LowerBound (internal_key p) n key) (find_child_loop p key fuel lo hi)
find_child_loop-LowerBound p key n small asc zero lo hi m inv = absurd (omega arith)
find_child_loop-LowerBound p key n small asc (suc fuel) lo hi m inv = elim (dec_lt lo hi) [
  | no shut ↦
      let e : hi ≡ lo = omega arith in
      (
        lo,
        rw e (find_child_stop p key fuel lo),
        (omega arith, inv.before, λ i k l. inv.after i (omega arith) l),
      )
  | yes h ↦
      let mid = (lo + hi) / 2 in
      let small' : hi < 2 ^ 31 = omega arith in
      elim (dec_lt (internal_key p mid) key) [
        | yes g ↦ rw (find_child_right p key fuel lo hi h small' g) (
            find_child_loop-LowerBound p key n small asc fuel (mid + 1) hi (omega arith)
              (grind (arith, inv.before, inv.after, asc)))
        | no ng ↦ rw (find_child_left p key fuel lo hi h small' (omega arith)) (
            find_child_loop-LowerBound p key n small asc fuel lo mid (omega arith)
              (grind (arith, inv.before, inv.after, asc)))
      ]
]

-- On an internal node whose keys ascend, `internal_node_find_child` ends, at the first key that is
-- not below the one sought.
pub internal_node_find_child-LowerBound :
    (p : Page) (key : ℕ)
    → load32 p internal_node_num_keys < 2 ^ 31
    → IsAscending (internal_key p) (load32 p internal_node_num_keys)
    → (r : ℕ) × (internal_node_find_child p key ≡ some r)
      × LowerBound (internal_key p) (load32 p internal_node_num_keys) key r
unfolding internal_node_find_child
internal_node_find_child-LowerBound p key small asc =
    find_child_loop-LowerBound p key (load32 p internal_node_num_keys) small asc
      (suc (load32 p internal_node_num_keys)) 0 (load32 p internal_node_num_keys) (omega arith)
      (record {
        ordered = omega arith;
        inside = omega arith;
        before = λ i h. absurd (omega arith);
        after = λ i h k. absurd (omega arith);
      })

-- A key that is there is at the place that was found.
pub Locates-same :
    (keys : ℕ → ℕ) (n key r i : ℕ) → Locates keys n key r → i < n → keys i ≡ key → i ≡ r
Locates-same keys n key r i located l e = elim (dec_lt i r) [
  | yes h ↦ absurd (omega (arith, located.1 i h))
  | no nh ↦ elim (dec_lt r i) [
    | yes g ↦ absurd (omega (arith, located.2 i g l))
    | no ng ↦ omega arith
  ]
]
