-- ===== src/WorkThread/Worker.antt =====
-- workthread/workThread.c: the list of workers and its count. Two workers that enter or leave at once are
-- not modelled: the code does not guard the list.
use my_exercise.Prelude.{
  ℕ, ◌+◌, ◌-◌, ◌≡◌, ◌≢◌, ◌⊎◌, ◌∙◌, refl, Bool, true, false, List, [], ◌∷◌, ◌++◌, arith, length, inl,
  inr, if◌then◌else◌,
}
use my_exercise.Tcpip.Links.{Links}
use my_exercise.Tcpip.Links as Tcp
use my_exercise.Tcpip.Links.Ring.{Misses, IsChain, IsRing, prev_of, list_add_tail-IsRing}
use my_exercise.Tcpip.Links.Remove.{list_del-IsRing}
use my_exercise.WorkThread.List.{list_init, list_add_tail, list_remove}

-- `gManager`; `linkHead` is at an address that the functions take.
pub record Manager : Type 0 where
  pub b_init : Bool
  pub threads_num : ℕ
  pub links : Links

-- The first use of the list sets it up.
unfoldable pub ready : ℕ → Manager → Manager
unfolding list_init
ready head m =
    if m.b_init
    then m
    else record m { links = list_init head m.links; threads_num = 0; b_init = true }

-- `workerDo` before it calls the function of the worker, and after.
unfoldable pub worker_enter : ℕ → ℕ → Manager → Manager
unfolding ready list_add_tail
worker_enter head w m =
    let m1 = ready head m in
    record m1 { links = list_add_tail head w m1.links; threads_num = m1.threads_num + 1 }

unfoldable pub worker_leave : ℕ → Manager → Manager
unfolding list_remove
worker_leave w m = record m { links = list_remove w m.links; threads_num = m.threads_num - 1 }

-- A worker that is not in the list enters, or one in it leaves; beside the manager the list that it stands for.
pub data Moves (head : ℕ) (m : Manager) : List ℕ → Manager → List ℕ → Type 0 where
  enters :
      (w : ℕ) (ws : List ℕ)
      → Misses w (head ∷ ws)
      → Moves head m ws (worker_enter head w m) (ws ++ w ∷ [])
  leaves :
      (ws : List ℕ) (w : ℕ) (vs : List ℕ)
      → Moves head m (ws ++ w ∷ vs) (worker_leave w m) (ws ++ vs)

-- The manager stands for a list: the ring does, and the count is its length, or it is not set up and the list is
-- empty.
abbrev pub IsManaging : ℕ → Manager → List ℕ → Type 0
IsManaging head m ws =
    ((m.b_init ≡ false) × (ws ≡ []))
    ⊎ ((m.b_init ≡ true) × IsRing m.links head ws × (m.threads_num ≡ length ws))

IsChain-cong :
    (h g : Links) (a : ℕ) (xs : List ℕ) (b : ℕ)
    → ((j : ℕ) → g.next j ≡ h.next j)
    → ((j : ℕ) → g.prev j ≡ h.prev j)
    → IsChain h a xs b
    → IsChain g a xs b
IsChain-cong h g a [] b n p k = (n a ∙ k.0, p b ∙ k.1)
IsChain-cong h g a (x ∷ xs) b n p k = (n a ∙ k.0, p x ∙ k.1, IsChain-cong h g x xs b n p k.2)

add_tail-IsRing :
    (h : Links) (head w : ℕ) (ws : List ℕ)
    → IsRing h head ws
    → Misses w (head ∷ ws)
    → IsRing (list_add_tail head w h) head (ws ++ w ∷ [])
unfolding list_add_tail my_exercise.Tcpip.Links.list_add_tail
add_tail-IsRing h head w ws r m =
    let last : w ≢ h.prev head = prev_of h head ws head w r.chain m in
    let t = list_add_tail-IsRing h head w ws r m in
    record {
      chain =
          IsChain-cong (Tcp.list_add_tail w head h) (list_add_tail head w h) head (ws ++ w ∷ [])
            head (λ j. ground arith) (λ j. ground arith) t.chain;
      distinct = t.distinct;
    }

remove-IsRing :
    (h : Links) (head w : ℕ) (ws vs : List ℕ)
    → IsRing h head (ws ++ w ∷ vs)
    → IsRing (list_remove w h) head (ws ++ vs)
unfolding list_remove my_exercise.Tcpip.Links.list_del
remove-IsRing h head w ws vs r =
    let t = list_del-IsRing h head w ws vs r in
    record {
      chain =
          IsChain-cong (Tcp.list_del w h) (list_remove w h) head (ws ++ vs) head (λ j. ground arith)
            (λ j. ground arith) t.chain;
      distinct = t.distinct;
    }

length-add : (ws : List ℕ) (w : ℕ) → length (ws ++ w ∷ []) ≡ length ws + 1
length-add [] w = refl
length-add (v ∷ ws) w = omega (arith, length-add ws w)

length-remove : (ws : List ℕ) (w : ℕ) (vs : List ℕ) → length (ws ++ w ∷ vs) ≡ length (ws ++ vs) + 1
length-remove [] w vs = omega arith
length-remove (v ∷ ws) w vs = omega (arith, length-remove ws w vs)

init-IsRing : (h : Links) (head : ℕ) → IsRing (list_init head h) head []
unfolding list_init
init-IsRing h head = record { chain = ground arith; distinct = ground arith }

-- What `ready` leaves stands for the list in any case.
ready-IsManaging :
    (head : ℕ) (m : Manager) (ws : List ℕ)
    → IsManaging head m ws
    → ((ready head m).b_init ≡ true)
      × IsRing (ready head m).links head ws
      × ((ready head m).threads_num ≡ length ws)
unfolding ready
ready-IsManaging head m ws (inr (i, r, n)) = rw i (refl, r, n)
ready-IsManaging head m ws (inl (i, e)) = rw (i, e) (refl, init-IsRing m.links head, refl)

no_middle : (ws : List ℕ) (w : ℕ) (vs : List ℕ) → ws ++ w ∷ vs ≢ []
no_middle [] w vs e = absurd (cc e)
no_middle (v ∷ ws) w vs e = absurd (cc e)

-- Whenever the manager stands for a list of workers and a worker that is not in it enters, or one that is in it leaves, the manager then
-- stands for the list with the worker at its end, or without it. The count is the length of the list.
pub Moves-IsManaging :
    (head : ℕ) (m n : Manager) (ws vs : List ℕ)
    → Moves head m ws n vs
    → IsManaging head m ws
    → IsManaging head n vs
unfolding worker_enter worker_leave
Moves-IsManaging head m _ ws _ (enters w _ out) v =
    let (i, r, count) = ready-IsManaging head m ws v in
    inr (
      i,
      add_tail-IsRing (ready head m).links head w ws r out,
      omega (arith, count, length-add ws w),
    )
Moves-IsManaging head m _ _ _ (leaves ws w vs) (inl (i, e)) = absurd (no_middle ws w vs e)
Moves-IsManaging head m _ _ _ (leaves ws w vs) (inr (i, r, count)) =
    inr (i, remove-IsRing m.links head w ws vs r, omega (arith, count, length-remove ws w vs))
