-- ===== src/Tcpip/Links.antt =====
-- tcpip/include/utils.h: `struct list_head`, the links of the lists that are woven through the other
-- structures, in a heap of two fields by address.
pub mod Ring
pub mod Remove
use my_exercise.Prelude.{ℕ, zero, suc, ◌==◌, if◌then◌else◌, Bool, List, [], ◌∷◌}

pub record Links : Type 0 where
  pub next : ℕ → ℕ
  pub prev : ℕ → ℕ

abbrev pub set_next : ℕ → ℕ → Links → Links
set_next a v h = record h { next = λ j. if j == a then v else h.next j }

abbrev pub set_prev : ℕ → ℕ → Links → Links
set_prev a v h = record h { prev = λ j. if j == a then v else h.prev j }

unfoldable pub list_init : ℕ → Links → Links
list_init head h = let h1 = set_next head head h in set_prev head (h1.next head) h1

unfoldable pub list_add : ℕ → ℕ → Links → Links
list_add new head h0 =
    let h1 = set_prev (h0.next head) new h0 in
    let h2 = set_next new (h1.next head) h1 in let h3 = set_prev new head h2 in set_next head new h3

unfoldable pub list_add_tail : ℕ → ℕ → Links → Links
list_add_tail new head h0 =
    let h1 = set_next (h0.prev head) new h0 in
    let h2 = set_prev new (h1.prev head) h1 in let h3 = set_next new head h2 in set_prev head new h3

unfoldable pub list_del : ℕ → Links → Links
list_del elem h0 =
    let prev = h0.prev elem in
    let next = h0.next elem in let h1 = set_next prev next h0 in set_prev next prev h1

unfoldable pub list_empty : ℕ → Links → Bool
list_empty head h = h.next head == head

-- The elements that `list_for_each` visits from `pos` on, at most as many as the fuel.
unfoldable pub list_for_each : ℕ → ℕ → ℕ → Links → List ℕ
list_for_each zero head pos h = []
list_for_each (suc fuel) head pos h =
    let rest = list_for_each fuel head (h.next pos) h in if pos == head then [] else pos ∷ rest
