-- ===== src/Tcpip/Ip.antt =====
-- tcpip/ip/ip.c, include/ip.h and the receiving half of ip/route.c. The IP header stands at 14 in a
-- buffer. What the code has commented out (reassembly, ICMP, sending on) is not there.
pub mod Forward
use Prim.Native.Nat.{bit_and}
use my_exercise.Prelude.{
  ℕ, zero, suc, ◌+◌, ◌-◌, ◌*◌, ◌/◌, ◌%◌, ◌==◌, ◌&&◌, ◌||◌, ltb, leb, if◌then◌else◌, Bool, true,
  false, Option, none, some,
}
use my_exercise.Prelude.Int.{ℤ, pos, negsuc}
use my_exercise.Bytes.{Memory, load32, store8, store32}
use my_exercise.Tcpip.Checksum.{load16, store16, checksum}
use my_exercise.Tcpip.Route.{Netdev, Rtentry, rt_lookup, rt_localhost}
use my_exercise.Tcpip.Net.{
  Pkbuf, pkt_otherhost, Net, M, pure, fail, dangling, out_of_fuel, ◌>>=◌, ◌>>◌, branch, gets,
  pkb_at, put_pkb, free_pkb, pkb_trim,
}
use my_exercise.Tcpip.Eth.{eth_hdr_len, htons}

abbrev pub ip_hdr_len : ℕ
ip_hdr_len = 20

abbrev pub ip_header : ℕ
ip_header = 14

abbrev pub ip_len : ℕ
ip_len = 16

abbrev pub ip_id : ℕ
ip_id = 18

abbrev pub ip_frag_offset : ℕ
ip_frag_offset = 20

abbrev pub ip_ttl : ℕ
ip_ttl = 22

abbrev pub ip_proto : ℕ
ip_proto = 23

abbrev pub ip_csum : ℕ
ip_csum = 24

abbrev pub ip_saddr : ℕ
ip_saddr = 26

abbrev pub ip_daddr : ℕ
ip_daddr = 30

abbrev pub ip_version_4 : ℕ
ip_version_4 = 4

abbrev pub ip_frag_df : ℕ
ip_frag_df = 0x4000

abbrev pub ip_frag_mask : ℕ
ip_frag_mask = 0x3fff

abbrev pub ip_p_icmp : ℕ
ip_p_icmp = 1

abbrev pub ip_p_tcp : ℕ
ip_p_tcp = 6

abbrev pub ip_p_udp : ℕ
ip_p_udp = 17

-- The two bit fields of the first byte, and `ihl << 2`.
unfoldable pub ipver : Memory → ℕ
ipver p = p ip_header / 16 % 16

unfoldable pub iphlen : Memory → ℕ
iphlen p = p ip_header % 16 * 4

unfoldable pub ip_ntoh : Memory → Memory
ip_ntoh p0 =
    let p1 = store16 p0 ip_len (htons (load16 p0 ip_len)) in
    let p2 = store16 p1 ip_id (htons (load16 p1 ip_id)) in
    store16 p2 ip_frag_offset (htons (load16 p2 ip_frag_offset))

-- `checksum(iphdr, iphlen(iphdr), 0)`
abbrev pub header_checksum : Memory → Option ℕ
header_checksum p = checksum p ip_header (iphlen p) 0

abbrev pub is_zero : Option ℕ → Bool
is_zero none = false
is_zero (some c) = c == 0

-- The tests of `ip_in` on the packet as it came.
unfoldable pub ip_accepts : Pkbuf → Bool
unfolding ipver iphlen
ip_accepts pkb =
    if pkb.pk_type == pkt_otherhost
    then false
    else if ltb pkb.pk_len (eth_hdr_len + ip_hdr_len)
    then false
    else if ipver pkb.pk_data == ip_version_4
    then if ltb (iphlen pkb.pk_data) ip_hdr_len
      then false
      else is_zero (header_checksum pkb.pk_data)
    else false

-- The test on the lengths, once the header is in host order.
unfoldable pub ip_size_known : ℕ → Memory → Bool
ip_size_known pk_len p =
    leb (iphlen p) (load16 p ip_len) && leb (eth_hdr_len + load16 p ip_len) pk_len

unfoldable pub rt_input : ℕ → M ℤ
unfolding pkb_at put_pkb ip_ntoh
rt_input n = do
  pkb ← pkb_at n
  rt ← gets (λ s. rt_lookup s.rt_head (load32 pkb.pk_data ip_daddr))
  elim rt [
    | none ↦ do
      put_pkb n (record pkb { pk_data = ip_ntoh pkb.pk_data })
      free_pkb n
      pure (negsuc 0)
    | some r ↦ do put_pkb n (record pkb { pk_rtdst = some r }); pure (pos 0)
  ]

unfoldable pub rt_output : ℕ → M ℤ
unfolding pkb_at put_pkb
rt_output n = do
  pkb ← pkb_at n
  rt ← gets (λ s. rt_lookup s.rt_head (load32 pkb.pk_data ip_daddr))
  elim rt [
    | none ↦ pure (negsuc 0)
    | some r ↦ do
      put_pkb n (record pkb {
        pk_rtdst = some r;
        pk_data = store32 pkb.pk_data ip_saddr r.rt_dev.net_ipaddr;
      })
      pure (pos 0)
  ]

-- The protocols whose handlers are commented out keep the packet.
unfoldable pub ip_recv_local : ℕ → M (Unit {0})
unfolding pkb_at
ip_recv_local n = do
  pkb ← pkb_at n
  let frag = load16 pkb.pk_data ip_frag_offset
  let proto = pkb.pk_data ip_proto
  branch
      (if bit_and frag ip_frag_mask == 0
        then false
        else if bit_and frag ip_frag_df == 0
        then false
        else true)
      (free_pkb n)
      (branch (proto == ip_p_icmp || proto == ip_p_tcp || proto == ip_p_udp) (pure tt) (free_pkb n))

abbrev pub the_route : Option Rtentry → M Rtentry
the_route none = fail dangling
the_route (some r) = pure r

-- What `csum` gets.
abbrev pub checksum_of : Option ℕ → M ℕ
checksum_of none = fail out_of_fuel
checksum_of (some c) = pure c

-- `iphdr->ttl--`
unfoldable pub age : Memory → Memory
age p = store8 p ip_ttl (p ip_ttl - 1)

-- The header that `ip_forward` writes.
unfoldable pub forwarded : Memory → M Memory
unfolding age
forwarded p = do c ← checksum_of (header_checksum (age p)); pure (store16 (age p) ip_csum c)

-- The next hop and the test for a redirect change nothing here: their messages are commented out.
unfoldable pub ip_forward : ℕ → M (Unit {0})
unfolding forwarded pkb_at put_pkb
ip_forward n = do
  pkb ← pkb_at n
  let p = pkb.pk_data
  branch (leb (p ip_ttl) 1) (free_pkb n) (do
    q ← forwarded p
    put_pkb n (record pkb { pk_data = q })
    rt ← the_route pkb.pk_rtdst
    branch (ltb rt.rt_dev.net_mtu (htons (load16 q ip_len)))
        (branch (bit_and (load16 q ip_frag_offset) (htons ip_frag_df) == 0) (pure tt) (free_pkb n))
        (pure tt))

unfoldable pub ip_recv_route : ℕ → M (Unit {0})
unfolding pkb_at put_pkb
ip_recv_route n = do
  found ← rt_input n
  elim found [
    | negsuc k ↦ pure tt
    | pos k ↦ do
      pkb ← pkb_at n
      rt ← the_route pkb.pk_rtdst
      branch (bit_and rt.rt_flags rt_localhost == 0)
          (do put_pkb n (record pkb { pk_data = ip_ntoh pkb.pk_data }); ip_forward n)
          (ip_recv_local n)
  ]

unfoldable pub ip_in : ℕ → M (Unit {0})
unfolding ip_accepts ip_size_known pkb_at put_pkb
ip_in n = do
  pkb ← pkb_at n
  branch (ip_accepts pkb)
      (do
        let p = ip_ntoh pkb.pk_data
        put_pkb n (record pkb { pk_data = p })
        branch (ip_size_known pkb.pk_len p)
            (do
              branch (ltb (eth_hdr_len + load16 p ip_len) pkb.pk_len)
                  (pkb_trim n (eth_hdr_len + load16 p ip_len)) (pure tt)
              ip_recv_route n)
            (free_pkb n))
      (free_pkb n)
