-- ===== src/Tcpip/Tests/Rings.antt =====
-- tcpip: the theorems on lists at a ring of two elements.
use my_exercise.Prelude.{[], ◌∷◌, arith}
use my_exercise.Tcpip.Links.{Links, list_init, list_add_tail, list_del}
use my_exercise.Tcpip.Links.Remove.{list_del-IsRing}
use my_exercise.Tcpip.Links.Ring.{IsRing}

abbrev blank : Links
blank = record { next = λ j. 0; prev = λ j. 0 }

abbrev two : Links
two = list_add_tail 5 3 (list_add_tail 4 3 (list_init 3 blank))

two-IsRing : IsRing two 3 (4 ∷ 5 ∷ [])
unfolding list_init list_add_tail
two-IsRing = record { chain = ground arith; distinct = ground arith }

list_del-IsRing_example : IsRing (list_del 4 two) 3 (5 ∷ [])
list_del-IsRing_example = list_del-IsRing two 3 4 [] (5 ∷ []) two-IsRing
