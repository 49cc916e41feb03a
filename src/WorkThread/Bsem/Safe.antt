-- ===== src/WorkThread/Bsem/Safe.antt =====
-- workthread/bsem.h: no unit is lost and no wake-up is missed, in whatever order the threads take their steps.
use my_exercise.Prelude.{ℕ, ◌+◌, ◌^◌, ◌<◌, ◌≤◌, ◌≡◌, ◌⊎◌}
use my_exercise.WorkThread.Bsem.{Bsem}

-- The units are accounted for, `v` is in the range of an int, and while a thread sleeps there are no more units than
-- threads that have been woken.
pub record IsSafe (n : ℕ) (s : Bsem) : Type 0 where
  pub units : s.passed + s.v + s.taken ≡ s.posted + n
  pub awake : (s.asleep ≡ 0) ⊎ (s.v ≤ s.woken)
  pub bounded : s.v < 2 ^ 31
