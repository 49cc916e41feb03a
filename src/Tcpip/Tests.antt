-- ===== src/Tcpip/Tests.antt =====
-- tcpip: the theorems at concrete inputs. An IP header without its checksum, and a table of two routes.
mod Rings
mod Stack
use my_exercise.Prelude.{
  ℕ, ◌+◌, ◌≤◌, ◌≡◌, refl, List, [], ◌∷◌, true, some, arith, inl, inr, ◌==◌, if◌then◌else◌,
}
use my_exercise.Bytes.{Memory}
use my_exercise.Tcpip.Checksum.{checksum, store16, fold_loop, fold_fuel}
use my_exercise.Tcpip.Checksum.Fold.{Folded, fold_loop-Folded}
use my_exercise.Tcpip.Checksum.Verify.{checksum-verify}
use my_exercise.Tcpip.Route.{
  Netdev, Rtentry, in_net, rt_lookup, rt_add, rt_init, host_route, net_route, default_route,
}
use my_exercise.Tcpip.Route.Order.{IsDescending, rt_add-IsDescending}
use my_exercise.Tcpip.Route.Best.{better, rt_lookup-rt_add, rt_lookup-best}
use my_exercise.Tcpip.Route.Init.{rt_init-total, rt_init-local}

abbrev header : Memory
header a = if a == 0 then 0x45 else if a == 3 then 20 else if a == 8 then 64 else 0

checksum-verify_example :
    (c : ℕ) × (checksum header 0 20 0 ≡ some c) × (checksum (store16 header 10 c) 0 20 0 ≡ some 0)
checksum-verify_example =
    checksum-verify header 0 20 10 5 (λ a. ground arith) (omega arith) refl refl (omega arith)

-- 127.0.0.1/8 and 10.0.0.1/24, with the first byte lowest
abbrev loop : Netdev
loop = record {
  net_index = 0;
  net_mtu = 1500;
  net_hwaddr = λ a. 0;
  net_ipaddr = 0x0100007f;
  net_mask = 0xff;
}

abbrev veth : Netdev
veth = record {
  net_index = 1;
  net_mtu = 1500;
  net_hwaddr = λ a. a + 2;
  net_ipaddr = 0x0100000a;
  net_mask = 0xffffff;
}

abbrev two_routes : List Rtentry
two_routes = net_route veth ∷ default_route veth ∷ []

two_routes-IsDescending : IsDescending two_routes
two_routes-IsDescending = ground arith

rt_lookup-rt_add_example : rt_lookup (rt_add (host_route loop veth) two_routes) 0x0200000a ≡ (
    if in_net (host_route loop veth) 0x0200000a
    then some (better (host_route loop veth) (rt_lookup two_routes 0x0200000a))
    else rt_lookup two_routes 0x0200000a)
rt_lookup-rt_add_example =
    rt_lookup-rt_add (host_route loop veth) two_routes 0x0200000a two_routes-IsDescending

default_matches : in_net (default_route veth) 0x0200000a ≡ true
unfolding in_net
default_matches = refl

rt_lookup-best_example :
    (best : Rtentry) × (rt_lookup two_routes 0x0200000a ≡ some best)
    × (in_net best 0x0200000a ≡ true)
    × (0 ≤ best.rt_netmask)
rt_lookup-best_example =
    rt_lookup-best two_routes 0x0200000a (default_route veth) two_routes-IsDescending
      (inr (inl refl)) default_matches
