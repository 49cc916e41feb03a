-- ===== src/Tcpip/Route/Order.antt =====
-- tcpip/ip/route.c: `rt_add` keeps the table in descending order of the netmasks.
use my_exercise.Prelude.{ℕ, ◌≤◌, List, [], ◌∷◌, arith}
use my_exercise.Tcpip.Route.{Rtentry, rt_add}

-- Every entry of the table has a netmask of at most `m`.
abbrev pub IsBelow : ℕ → List Rtentry → Type 0
IsBelow m [] = Unit
IsBelow m (rt ∷ table) = (rt.rt_netmask ≤ m) × IsBelow m table

abbrev pub IsDescending : List Rtentry → Type 0
IsDescending [] = Unit
IsDescending (rt ∷ table) = IsBelow rt.rt_netmask table × IsDescending table

pub IsBelow-trans : (m n : ℕ) (table : List Rtentry) → m ≤ n → IsBelow m table → IsBelow n table
IsBelow-trans m n [] l b = tt
IsBelow-trans m n (rt ∷ table) l (h, b) = (omega arith, IsBelow-trans m n table l b)

rt_add-IsBelow :
    (m : ℕ) (rt : Rtentry) (table : List Rtentry)
    → rt.rt_netmask ≤ m
    → IsBelow m table
    → IsBelow m (rt_add rt table)
unfolding rt_add
rt_add-IsBelow m rt [] l b = (l, tt)
rt_add-IsBelow m rt (rte ∷ table) l b = ground (arith, rt_add-IsBelow m rt table l)

-- `rt_add` into a table in descending order of the netmasks gives one.
pub rt_add-IsDescending :
    (rt : Rtentry) (table : List Rtentry) → IsDescending table → IsDescending (rt_add rt table)
unfolding rt_add
rt_add-IsDescending rt [] d = (tt, tt)
rt_add-IsDescending rt (rte ∷ table) d = ground (
  arith,
  rt_add-IsDescending rt table,
  rt_add-IsBelow rte.rt_netmask rt table,
  IsBelow-trans rte.rt_netmask rt.rt_netmask table,
)
