-- ===== src/WorkThread/List.antt =====
-- workthread/list.h: `struct list_node`, two links by address.
pub mod Reverse
use my_exercise.Prelude.{ℕ, zero, suc, ◌==◌, if◌then◌else◌, Bool, Option, none, some}
use my_exercise.Tcpip.Links.{Links, set_next, set_prev}

unfoldable pub list_init : ℕ → Links → Links
list_init node h = set_prev node node (set_next node node h)

unfoldable pub list_add_tail : ℕ → ℕ → Links → Links
list_add_tail head item h0 =
    let h1 = set_next item head h0 in
    let h2 = set_prev item (h1.prev head) h1 in
    let h3 = set_next (h2.prev head) item h2 in set_prev head item h3

unfoldable pub list_add_head : ℕ → ℕ → Links → Links
list_add_head head item h0 =
    let h1 = set_next item (h0.next head) h0 in
    let h2 = set_prev item head h1 in
    let h3 = set_prev (h2.next head) item h2 in set_next head item h3

unfoldable pub list_append : ℕ → ℕ → Links → Links
list_append head1 head2 h0 =
    let h1 = set_next (h0.prev head2) head1 h0 in
    let h2 = set_prev (h1.next head2) (h1.prev head1) h1 in
    let h3 = set_next (h2.prev head1) (h2.next head2) h2 in
    let h4 = set_prev head1 (h3.prev head2) h3 in
    let h5 = set_prev head2 head2 h4 in set_next head2 head2 h5

-- The three writes that swap the links of a node.
unfoldable pub swap_links : ℕ → Links → Links
swap_links node h = set_prev node (h.next node) (set_next node (h.prev node) h)

-- The loop of `ListReverse` from a node on: the node where it stops, and the links then. `none` means that the fuel
-- ran out.
unfoldable pub reverse_loop : ℕ → ℕ → ℕ → Links → Option (ℕ × Links)
unfolding swap_links
reverse_loop zero head node h = none
reverse_loop (suc fuel) head node h =
    let rest = reverse_loop fuel head (h.next node) (swap_links node h) in
    if h.next node == head then some (node, h) else rest

unfoldable pub list_reverse : ℕ → ℕ → Links → Option Links
unfolding reverse_loop
list_reverse fuel head h = elim (reverse_loop fuel head head h) [
  | none ↦ none
  | some (node, h') ↦ some (swap_links node h')
]

unfoldable pub list_remove : ℕ → Links → Links
list_remove item h0 =
    let h1 = set_prev (h0.next item) (h0.prev item) h0 in set_next (h1.prev item) (h1.next item) h1

unfoldable pub list_is_empty : ℕ → Links → Bool
list_is_empty list h = list == h.next list
