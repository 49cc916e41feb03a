-- ===== src/SimpleDb/Leaf/Gap.antt =====
-- simpledb/node_btree.c: the loop that makes room for a cell moves a block of bytes up by one cell.
use my_exercise.Prelude.{ℕ, zero, suc, ◌+◌, ◌-◌, ◌≡◌, ◌&&◌, leb, ltb, if◌then◌else◌, arith}
use my_exercise.Bytes.{memcpy}
use my_exercise.SimpleDb.Node.{Page, leaf_node_cell, leaf_node_cell_size}
use my_exercise.SimpleDb.Leaf.{open_gap}

-- One copy of the loop.
copy_up :
    (p : Page) (c k a : ℕ)
    → memcpy p (leaf_node_cell (c + suc k)) p (leaf_node_cell (c + k)) leaf_node_cell_size a ≡ (
        if leb (leaf_node_cell (c + suc k)) a && ltb a (leaf_node_cell (c + suc k) + 74)
        then p (a - 74)
        else p a)
unfolding memcpy
copy_up p c k a = ground arith

pub open_gap_lem :
    (p : Page) (c k a : ℕ)
    → open_gap p c k a ≡ (
        if leb (leaf_node_cell (c + 1)) a && ltb a (leaf_node_cell (c + 1 + k))
        then p (a - 74)
        else p a)
unfolding open_gap
open_gap_lem p c zero a = ground arith
open_gap_lem p c (suc k) a = ground (
  arith,
  open_gap_lem
      (memcpy p (leaf_node_cell (c + suc k)) p (leaf_node_cell (c + k)) leaf_node_cell_size) c k a,
  copy_up p c k a,
  copy_up p c k (a - 74),
)
