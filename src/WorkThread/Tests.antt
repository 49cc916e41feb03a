-- ===== src/WorkThread/Tests.antt =====
-- workthread/: the theorems at concrete inputs.
use my_exercise.Prelude.{true, ◌≡◌, refl, some, [], ◌∷◌, arith, inr}
use my_exercise.Tcpip.Links.{Links}
use my_exercise.Tcpip.Links.Ring.{IsRing}
use my_exercise.WorkThread.List.{list_init, list_add_tail, list_reverse}
use my_exercise.WorkThread.List.Reverse.{list_reverse-IsRing}
use my_exercise.WorkThread.Worker.{Manager, worker_enter, enters, IsManaging, Moves-IsManaging}
use my_exercise.WorkThread.Bsem.{wake, Bsem, bsem_wait}

abbrev blank : Links
blank = record { next = λ j. 0; prev = λ j. 0 }

abbrev two : Links
two = list_add_tail 3 5 (list_add_tail 3 4 (list_init 3 blank))

two-IsRing : IsRing two 3 (4 ∷ 5 ∷ [])
unfolding list_init list_add_tail
two-IsRing = record { chain = ground arith; distinct = ground arith }

list_reverse-IsRing_example :
    (g : Links) × (list_reverse 3 3 two ≡ some g) × IsRing g 3 (5 ∷ 4 ∷ [])
list_reverse-IsRing_example = list_reverse-IsRing two 3 (4 ∷ 5 ∷ []) 3 two-IsRing (omega arith)

-- A thread waits on 0 and sleeps, another posts and wakes it, and it goes on.
abbrev start : Bsem
start = record { v = 0; asleep = 0; woken = 0; posted = 0; passed = 0; taken = 0 }

abbrev slept : Bsem
slept = bsem_wait start

abbrev woke : Bsem
woke = wake 1 (record slept { v = 1; posted = 1 })

abbrev manager : Manager
manager = record { b_init = true; threads_num = 2; links = two }

Moves-IsManaging_example : IsManaging 3 (worker_enter 3 6 manager) (4 ∷ 5 ∷ 6 ∷ [])
Moves-IsManaging_example =
    Moves-IsManaging 3 manager (worker_enter 3 6 manager) (4 ∷ 5 ∷ []) (4 ∷ 5 ∷ 6 ∷ [])
      (enters 6 (4 ∷ 5 ∷ []) (ground arith)) (inr (refl, two-IsRing, refl))
