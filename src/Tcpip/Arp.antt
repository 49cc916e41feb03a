-- ===== src/Tcpip/Arp.antt =====
-- tcpip/arp/arp.c: ARP packets. The ARP header stands at 14 in a buffer: `hwtype`, `protype`, `hwsize`,
-- `prosize`, `opcode`; at 22 the addresses: `smac`, `sip`, `dmac`, `dip`.
pub mod Learn
pub mod Receive
pub mod Fields
use Prim.Native.Nat.{bit_and}
use my_exercise.Prelude.{
  ℕ, zero, suc, ◌+◌, ◌%◌, ◌==◌, ◌&&◌, ◌||◌, ltb, if◌then◌else◌, Bool, true, false, Option, none,
  some,
}
use my_exercise.Prelude.Int.{ℤ, pos, negsuc}
use my_exercise.Bytes.{Memory, load32, store8, store32, memcpy}
use my_exercise.Tcpip.Checksum.{load16, store16}
use my_exercise.Tcpip.Route.{Netdev}
use my_exercise.Tcpip.Net.{
  Pkbuf, pkt_otherhost, Arpentry, Net, M, pure, fail, overrun, ◌>>=◌, ◌>>◌, branch, gets, put_entry,
  pkb_at, put_pkb, alloc_pkb, free_pkb, arp_ttl_timeout, arp_state_waiting, arp_state_resolved,
}
use my_exercise.Tcpip.Eth.{eth_hdr_len, eth_smac, netdev_alen, htons, mac_eq, apart, within, net_tx}
use my_exercise.Tcpip.ArpCache.{
  eth_p_ip, arp_cache_insert, arp_cache_lookup, arp_queue_send, the_dev, arp_timer,
}

abbrev pub eth_p_arp : ℕ
eth_p_arp = 0x0806

abbrev pub arp_ethernet : ℕ
arp_ethernet = 1

abbrev pub arp_op_request : ℕ
arp_op_request = 1

abbrev pub arp_op_reply : ℕ
arp_op_reply = 2

abbrev pub ip_alen : ℕ
ip_alen = 4

abbrev pub arp_hdr_len : ℕ
arp_hdr_len = 8

abbrev pub arp_data_len : ℕ
arp_data_len = 20

abbrev pub arp_hwtype : ℕ
arp_hwtype = 14

abbrev pub arp_protype : ℕ
arp_protype = 16

abbrev pub arp_hwsize : ℕ
arp_hwsize = 18

abbrev pub arp_prosize : ℕ
arp_prosize = 19

abbrev pub arp_opcode : ℕ
arp_opcode = 20

abbrev pub arp_smac : ℕ
arp_smac = 22

abbrev pub arp_sip : ℕ
arp_sip = 28

abbrev pub arp_dmac : ℕ
arp_dmac = 32

abbrev pub arp_dip : ℕ
arp_dip = 38

abbrev pub broadcast_hw : Memory
broadcast_hw a = 0xff

-- `MULTICAST(netip)`
abbrev pub multicast : ℕ → Bool
multicast netip = bit_and 0x000000f0 netip == 0x000000e0

-- What `arp_request` writes into its packet.
unfoldable pub request_packet : Netdev → ℕ → Memory → Memory
request_packet dev ipaddr p0 =
    let p1 = store16 p0 arp_hwtype (htons arp_ethernet) in
    let p2 = store16 p1 arp_protype (htons eth_p_ip) in
    let p3 = store8 (store8 p2 arp_hwsize netdev_alen) arp_prosize ip_alen in
    let p4 = store16 p3 arp_opcode (htons arp_op_request) in
    let p5 = store32 p4 arp_sip dev.net_ipaddr in
    let p6 = memcpy p5 arp_smac dev.net_hwaddr 0 netdev_alen in
    let p7 = store32 p6 arp_dip ipaddr in memcpy p7 arp_dmac broadcast_hw 0 netdev_alen

-- What `arp_reply` writes into the packet that it answers.
unfoldable pub reply_packet : Netdev → Memory → Memory
reply_packet dev p0 =
    let p1 = store16 p0 arp_opcode arp_op_reply in
    let p2 = memcpy p1 arp_dmac p1 arp_smac netdev_alen in
    let p3 = store32 p2 arp_dip (load32 p2 arp_sip) in
    let p4 = memcpy p3 arp_smac dev.net_hwaddr 0 netdev_alen in
    let p5 = store32 p4 arp_sip dev.net_ipaddr in
    let p6 = store16 p5 arp_hwtype (htons (load16 p5 arp_hwtype)) in
    let p7 = store16 p6 arp_protype (htons (load16 p6 arp_protype)) in
    store16 p7 arp_opcode (htons (load16 p7 arp_opcode))

-- The three fields that `arp_in` turns to host order.
unfoldable pub arp_ntoh : Memory → Memory
arp_ntoh p0 =
    let p1 = store16 p0 arp_hwtype (htons (load16 p0 arp_hwtype)) in
    let p2 = store16 p1 arp_protype (htons (load16 p1 arp_protype)) in
    store16 p2 arp_opcode (htons (load16 p2 arp_opcode))

-- The tests of `arp_in` before it changes the packet, and after.
unfoldable pub arp_accepts : Pkbuf → Bool
unfolding mac_eq
arp_accepts p =
    if p.pk_type == pkt_otherhost
    then false
    else if ltb p.pk_len (eth_hdr_len + arp_hdr_len)
    then false
    else mac_eq p.pk_data arp_smac p.pk_data eth_smac

unfoldable pub arp_supported : Memory → Bool
arp_supported p =
    load16 p arp_hwtype == arp_ethernet
    && load16 p arp_protype == eth_p_ip
    && p arp_hwsize == netdev_alen
    && p arp_prosize == ip_alen
    && (load16 p arp_opcode == arp_op_request || load16 p arp_opcode == arp_op_reply)

-- An entry once its address is known.
unfoldable pub refreshed_entry : Arpentry → Arpentry
refreshed_entry ae = record ae { ae_state = arp_state_resolved; ae_ttl = pos arp_ttl_timeout }

-- `junk` is what a fresh buffer holds. The packet of `arp_request` reaches 42 bytes into its buffer.
module _ (xmit : Netdev → ℕ → M ℤ) (junk : Memory) where
  unfoldable pub arp_request : ℕ → M ℤ
  unfolding request_packet pkb_at put_pkb
  arp_request i = do
    n ← alloc_pkb junk (eth_hdr_len + arp_hdr_len)
    ae ← gets (λ s. s.arp_cache i)
    dev ← the_dev ae.ae_dev
    p ← pkb_at n
    branch (ltb p.pk_room (eth_hdr_len + arp_hdr_len + arp_data_len)) (fail overrun) (do
      put_pkb n (record p { pk_data = request_packet dev ae.ae_ipaddr p.pk_data })
      net_tx xmit dev n (arp_hdr_len + arp_data_len) eth_p_arp (apart broadcast_hw))

  unfoldable pub arp_reply : Netdev → ℕ → M ℤ
  unfolding reply_packet pkb_at put_pkb
  arp_reply dev n = do
    p ← pkb_at n
    put_pkb n (record p { pk_data = reply_packet dev p.pk_data })
    net_tx xmit dev n (arp_hdr_len + arp_data_len) eth_p_arp (within eth_smac)

  -- The entry `i` of the sender gets the address that the packet `p` brings.
  unfoldable pub update_entry : ℕ → Memory → M (Unit {0})
  unfolding put_entry refreshed_entry
  update_entry i p = do
    ae ← gets (λ s. s.arp_cache i)
    let known = record ae { ae_hwaddr = memcpy ae.ae_hwaddr 0 p arp_smac netdev_alen }
    put_entry i known
    branch (ae.ae_state == arp_state_waiting) (arp_queue_send xmit i) (pure tt)
    ae' ← gets (λ s. s.arp_cache i)
    put_entry i (refreshed_entry ae')

  -- What `arp_recv` learns of the sender of the packet `p`.
  unfoldable pub learn : Netdev → Memory → M (Unit {0})
  unfolding update_entry
  learn dev p = do
    found ← gets (λ s. arp_cache_lookup s.arp_cache (load16 p arp_protype) (load32 p arp_sip))
    elim found [
      | some i ↦ update_entry i p
      | none ↦
          branch (load16 p arp_opcode == arp_op_request)
            (do arp_cache_insert dev (load16 p arp_protype) (load32 p arp_sip) p arp_smac; pure tt)
            (pure tt)
    ]

  unfoldable pub arp_recv : Netdev → ℕ → M (Unit {0})
  unfolding learn pkb_at
  arp_recv dev n = do
    pkb ← pkb_at n
    let p = pkb.pk_data
    branch (multicast (load32 p arp_dip)) (free_pkb n) (
        branch (load32 p arp_dip == dev.net_ipaddr)
          (do
            learn dev p
            branch (load16 p arp_opcode == arp_op_request) (do arp_reply dev n; pure tt)
                (free_pkb n))
          (free_pkb n))

  unfoldable pub arp_in : Netdev → ℕ → M ℤ
  unfolding arp_accepts arp_ntoh arp_supported pkb_at put_pkb
  arp_in dev n = do
    pkb ← pkb_at n
    branch (arp_accepts pkb)
        (do
          let p = arp_ntoh pkb.pk_data
          put_pkb n (record pkb { pk_data = p })
          branch (arp_supported p) (do arp_recv dev n; pure (pos 0))
              (do free_pkb n; pure (negsuc 0)))
        (do free_pkb n; pure (negsuc 0))
