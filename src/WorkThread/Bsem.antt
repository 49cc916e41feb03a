-- ===== src/WorkThread/Bsem.antt =====
-- workthread/bsem.h: a semaphore of a mutex and a condition variable. Each part of a call that holds the mutex is one
-- function on the state; the steps put them in any order. Of the condition variable it is used that
-- `pthread_cond_wait` gives up the mutex and sleeps at once, and that a signal wakes at least one sleeper.
pub mod Safe
use my_exercise.Prelude.{
  ℕ, zero, suc, ◌+◌, ◌-◌, ◌^◌, ◌≤◌, ◌≡◌, ◌⊎◌, ◌==◌, ltb, ◌||◌, if◌then◌else◌, Option, none, some,
}
use my_exercise.Prelude.Int.{ℤ, pos, negsuc}

-- `v` is a member of the struct. `asleep` counts the threads in `pthread_cond_wait`, `woken` those that it is about to
-- let go. The others count what was done: posts, waits that returned, and units that a reset took away.
pub record Bsem : Type 0 where
  pub v : ℕ
  pub asleep : ℕ
  pub woken : ℕ
  pub posted : ℕ
  pub passed : ℕ
  pub taken : ℕ

-- `none` is `exit(1)`.
unfoldable pub bsem_init : ℤ → Option Bsem
bsem_init (pos n) =
    some (record { v = n; asleep = 0; woken = 0; posted = 0; passed = 0; taken = 0 })
bsem_init (negsuc n) = none

-- The mutex and the condition variable are made anew: `none`, undefined, while a thread is in `pthread_cond_wait`.
unfoldable pub bsem_reset : Bsem → Option Bsem
bsem_reset s =
    if ltb 0 s.asleep || ltb 0 s.woken
    then none
    else some (record s { v = 0; taken = s.taken + s.v })

-- `k` sleepers wake.
unfoldable pub wake : ℕ → Bsem → Bsem
wake k s = record s { asleep = s.asleep - k; woken = s.woken + k }

-- `v += 1` on an int: `none` is the overflow.
abbrev add_unit : Bsem → (Bsem → Bsem) → Option Bsem
add_unit s go =
    if ltb (s.v + 1) (2 ^ 31)
    then some (go (record s { v = s.v + 1; posted = s.posted + 1 }))
    else none

unfoldable pub bsem_post : ℕ → Bsem → Option Bsem
unfolding wake
bsem_post k s = add_unit s (wake k)

unfoldable pub bsem_post_all : Bsem → Option Bsem
unfolding wake
bsem_post_all s = add_unit s (wake s.asleep)

-- A thread that holds the mutex tests `v`, then sleeps or returns.
unfoldable pub bsem_wait : Bsem → Bsem
bsem_wait s =
    if s.v == 0
    then record s { asleep = s.asleep + 1 }
    else record s { v = s.v - 1; passed = s.passed + 1 }

-- What can happen next. After `none`, whose end the language does not define, nothing is said.
pub data Step : Bsem → Option Bsem → Type 0 where
  posts : {s : Bsem} (k : ℕ) → k ≤ s.asleep → (s.asleep ≡ 0) ⊎ (1 ≤ k) → Step s (bsem_post k s)
  posts_all : {s : Bsem} → Step s (bsem_post_all s)
  waits : {s : Bsem} → Step s (some (bsem_wait s))
  goes_on : {s : Bsem} → 1 ≤ s.woken → Step s (some (bsem_wait (record s { woken = s.woken - 1 })))
  wakes : {s : Bsem} (k : ℕ) → k ≤ s.asleep → Step s (some (wake k s))
  resets : {s : Bsem} → Step s (bsem_reset s)

pub data Reaches : Bsem → Option Bsem → Type 0 where
  here : {s : Bsem} → Reaches s (some s)
  then_step : {s t : Bsem} {u : Option Bsem} → Reaches s (some t) → Step t u → Reaches s u
