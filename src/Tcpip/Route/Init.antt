-- ===== src/Tcpip/Route/Init.antt =====
-- tcpip/ip/route.c: the table that `rt_init` makes.
use Prim.Native.Nat.{bit_and, bit_and-bitwise}
use my_exercise.Prelude.{ℕ, ◌-◌, ◌^◌, ◌<◌, ◌≡◌, refl, List, [], true, some, arith}
use my_exercise.Tcpip.Route.{
  Netdev, Rtentry, in_net, rt_lookup, rt_add, loop_route, host_route, net_route, default_route,
  rt_init,
}
use my_exercise.Tcpip.Route.Order.{IsDescending, rt_add-IsDescending}
use my_exercise.Tcpip.Route.Best.{better, rt_lookup-rt_add}

module _ (loop veth : Netdev) where
  abbrev with_loop : List Rtentry
  with_loop = rt_add (loop_route loop) []

  abbrev with_host : List Rtentry
  with_host = rt_add (host_route loop veth) with_loop

  abbrev with_net : List Rtentry
  with_net = rt_add (net_route veth) with_host

  with_loop-IsDescending : IsDescending with_loop
  with_loop-IsDescending = rt_add-IsDescending (loop_route loop) [] tt

  with_host-IsDescending : IsDescending with_host
  with_host-IsDescending =
      rt_add-IsDescending (host_route loop veth) with_loop with_loop-IsDescending

  with_net-IsDescending : IsDescending with_net
  with_net-IsDescending = rt_add-IsDescending (net_route veth) with_host with_host-IsDescending

  default_matches : (ip : ℕ) → in_net (default_route veth) ip ≡ true
  unfolding in_net
  default_matches ip =
      let nothing : (b : ℕ) → bit_and 0 b ≡ 0 = λ b. bit_and-bitwise 0 b in
      ground (arith, nothing ip, nothing 0)

  -- After `rt_init` on an empty table every address has a route.
  pub rt_init-total : (ip : ℕ) → (rt : Rtentry) × (rt_lookup (rt_init loop veth []) ip ≡ some rt)
  unfolding rt_init
  rt_init-total ip = (
    better (default_route veth) (rt_lookup with_net ip),
    rw (rt_lookup-rt_add (default_route veth) with_net ip with_net-IsDescending)
        (rw (default_matches ip) refl),
  )

  host_matches : in_net (host_route loop veth) veth.net_ipaddr ≡ true
  unfolding in_net
  host_matches = ground arith

  -- After `rt_init` on an empty table the address of `veth` is routed to the loopback interface, if the mask
  -- of `veth` is less than 2 ^ 32 - 1 and that of `loop` less than 2 ^ 32.
  pub rt_init-local :
      veth.net_mask < 2 ^ 32 - 1
      → loop.net_mask < 2 ^ 32
      → rt_lookup (rt_init loop veth []) veth.net_ipaddr ≡ some (host_route loop veth)
  unfolding rt_init rt_lookup rt_add
  rt_init-local v l = ground (arith, host_matches)
