-- ===== src/Tcpip/Route.antt =====
-- tcpip/ip/route.c and include/route.h: the routing table, a list that the code keeps in descending
-- order of the netmasks.
pub mod Order
pub mod Best
pub mod Init
use Prim.Native.Nat.{bit_and}
use my_exercise.Prelude.{
  ℕ, ◌-◌, ◌^◌, ◌==◌, leb, if◌then◌else◌, Bool, Option, none, some, List, [], ◌∷◌,
}
use my_exercise.Bytes.{Memory}

-- An interface, without its name and its statistics. `net_index` stands for the address of the struct.
pub record Netdev : Type 0 where
  pub net_index : ℕ
  pub net_mtu : ℕ
  pub net_hwaddr : Memory
  pub net_ipaddr : ℕ
  pub net_mask : ℕ

pub record Rtentry : Type 0 where
  pub rt_net : ℕ
  pub rt_netmask : ℕ
  pub rt_gw : ℕ
  pub rt_flags : ℕ
  pub rt_metric : ℕ
  pub rt_dev : Netdev

abbrev pub rt_none : ℕ
rt_none = 0

abbrev pub rt_localhost : ℕ
rt_localhost = 1

abbrev pub rt_default : ℕ
rt_default = 2

-- The test of `rt_lookup`: the address is in the net of the entry.
unfoldable pub in_net : Rtentry → ℕ → Bool
in_net rt ipaddr = bit_and rt.rt_netmask ipaddr == bit_and rt.rt_netmask rt.rt_net

-- `list_for_each` over the table; `none` is NULL.
unfoldable pub rt_lookup : List Rtentry → ℕ → Option Rtentry
unfolding in_net
rt_lookup [] ipaddr = none
rt_lookup (rt ∷ table) ipaddr = if in_net rt ipaddr then some rt else rt_lookup table ipaddr

-- In front of the first entry whose netmask is not greater, or at the end.
unfoldable pub rt_add : Rtentry → List Rtentry → List Rtentry
rt_add rt [] = rt ∷ []
rt_add rt (rte ∷ table) =
    let rest = rt_add rt table in
    if leb rte.rt_netmask rt.rt_netmask then rt ∷ rte ∷ table else rte ∷ rest

-- `LOCALNET(dev)`
abbrev pub localnet : Netdev → ℕ
localnet dev = bit_and dev.net_ipaddr dev.net_mask

abbrev pub loop_route : Netdev → Rtentry
loop_route loop = record {
  rt_net = localnet loop;
  rt_netmask = loop.net_mask;
  rt_gw = 0;
  rt_flags = rt_localhost;
  rt_metric = 0;
  rt_dev = loop;
}

abbrev pub host_route : Netdev → Netdev → Rtentry
host_route loop veth = record {
  rt_net = veth.net_ipaddr;
  rt_netmask = 2 ^ 32 - 1;
  rt_gw = 0;
  rt_flags = rt_localhost;
  rt_metric = 0;
  rt_dev = loop;
}

abbrev pub net_route : Netdev → Rtentry
net_route veth = record {
  rt_net = localnet veth;
  rt_netmask = veth.net_mask;
  rt_gw = 0;
  rt_flags = rt_none;
  rt_metric = 0;
  rt_dev = veth;
}

abbrev pub fake_tap_addr : ℕ
fake_tap_addr = 0x0200000a

abbrev pub default_route : Netdev → Rtentry
default_route veth = record {
  rt_net = 0;
  rt_netmask = 0;
  rt_gw = fake_tap_addr;
  rt_flags = rt_default;
  rt_metric = 0;
  rt_dev = veth;
}

-- What `rt_init` adds for the interfaces `loop` and `veth`.
unfoldable pub rt_init : Netdev → Netdev → List Rtentry → List Rtentry
rt_init loop veth table =
    rt_add (default_route veth)
      (rt_add (net_route veth) (rt_add (host_route loop veth) (rt_add (loop_route loop) table)))
