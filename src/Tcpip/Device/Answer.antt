-- ===== src/Tcpip/Device/Answer.antt =====
-- tcpip/arp/arp.c with the cache and the tap interface: `arp_in` on a packet that nobody else holds.
use my_exercise.Prelude.{
  ℕ, suc, ◌+◌, ◌<◌, ◌≡◌, ◌≢◌, ◌⊎◌, ◌∙◌, Option, none, some, true, false, ◌∷◌, arith, inl, inr, ◌==◌,
  if◌then◌else◌, Bool-cases, ℕ_discrete,
}
use my_exercise.Prelude.Int.{ℤ, pos, negsuc}
use my_exercise.Bytes.{Memory, load32}
use my_exercise.Tcpip.Route.{Netdev}
use my_exercise.Tcpip.Checksum.{load16}
use my_exercise.Tcpip.Net.{Pkbuf, Netstats, Net, M, ok, update, arp_cache_sz}
use my_exercise.Tcpip.ArpCache.Alloc.{Cache}
use my_exercise.Tcpip.ArpCache.Insert.{IsUnique}
use my_exercise.Tcpip.Arp.{
  arp_op_request, arp_opcode, arp_dip, multicast, arp_ntoh, arp_accepts, arp_supported, arp_in,
}
use my_exercise.Tcpip.Arp.Fields.{IsAnswer, reply-IsAnswer}
use my_exercise.Tcpip.Arp.Receive.{
  in_host_order, arp_in-accepts, arp_recv-replies, arp_recv-learns, arp_recv-ignores, free_lem,
  arp_in-refuses,
}
use my_exercise.Tcpip.Arp.Learn.{IsDrained, Learned, learn-Learned}
use my_exercise.Tcpip.Device.{xmit}
use my_exercise.Tcpip.Device.Reply.{answer_frame, arp_reply-sends}

module _ (xmit : Netdev → ℕ → M ℤ) (junk : Memory) (dev : Netdev) (n : ℕ) (s : Net)
    (p : Pkbuf) where
  -- The packet in host order.
  abbrev q : Memory
  q = arp_ntoh p.pk_data

  abbrev Freed : (ℕ → Option Pkbuf) → Type 0
  Freed heap = (j : ℕ) → heap j ≡ (if j == n then none else s.pkbs j)

  -- What `arp_in` can do with a packet, and when.
  pub data Received : Type 0 where
    refused :
        (arp_accepts p ≡ false) ⊎ (arp_supported q ≡ false)
        → (heap : ℕ → Option Pkbuf)
        → arp_in xmit junk dev n s
          ≡ ok (negsuc 0, record s { pkbs = heap; free_pkbs = s.free_pkbs + 1 })
        → Freed heap
        → Received
    ignored :
        (multicast (load32 q arp_dip) ≡ true) ⊎ (load32 q arp_dip ≢ dev.net_ipaddr)
        → (heap : ℕ → Option Pkbuf)
        → arp_in xmit junk dev n s
          ≡ ok (pos 0, record s { pkbs = heap; free_pkbs = s.free_pkbs + 1 })
        → Freed heap
        → Received
    learned :
        load16 q arp_opcode ≢ arp_op_request
        → load32 q arp_dip ≡ dev.net_ipaddr
        → (heap : ℕ → Option Pkbuf) (after : Cache) (next : ℕ)
        → arp_in xmit junk dev n s
          ≡ ok (
            pos 0,
            record s { pkbs = heap; free_pkbs = s.free_pkbs + 1; arp_cache = after; next = next },
          )
        → Freed heap
        → Learned s.arp_cache q after
        → Received
    answered :
        load16 q arp_opcode ≡ arp_op_request
        → load32 q arp_dip ≡ dev.net_ipaddr
        → (heap : ℕ → Option Pkbuf) (after : Cache) (next : ℕ) (stats : ℕ → Netstats)
        → arp_in xmit junk dev n s
          ≡ ok (
            pos 0,
            record s {
              pkbs = heap;
              free_pkbs = s.free_pkbs + 1;
              arp_cache = after;
              next = next;
              stats = stats;
              sent = answer_frame dev p.pk_data ∷ s.sent;
            },
          )
        → IsAnswer dev p.pk_data (answer_frame dev p.pk_data).bytes
        → Freed heap
        → Learned s.arp_cache q after
        → Received

module _ (tap_write : Memory → ℕ → ℤ) (fuel loop : ℕ) (junk : Memory) (dev : Netdev) (n : ℕ)
    (s : Net) (p : Pkbuf) (e : s.pkbs n ≡ some p) (held : p.pk_refcnt ≡ 1) where
  abbrev send : Netdev → ℕ → M ℤ
  send = xmit tap_write (suc fuel) loop junk

  -- The state that `arp_recv` gets.
  abbrev p1 : Pkbuf
  p1 = in_host_order send junk dev n p

  abbrev s1 : Net
  s1 = record s { pkbs = update s.pkbs n (some p1) }

  there : s1.pkbs n ≡ some p1
  there = ground arith

  answer :
      dev.net_index ≢ loop
      → s.next < arp_cache_sz
      → IsDrained s.arp_cache
      → IsUnique s.arp_cache
      → arp_accepts p ≡ true
      → arp_supported p1.pk_data ≡ true
      → multicast (load32 p1.pk_data arp_dip) ≡ false
      → load32 p1.pk_data arp_dip ≡ dev.net_ipaddr
      → load16 p1.pk_data arp_opcode ≡ arp_op_request
      → Received send junk dev n s p
  unfolding answer_frame
  answer tap l drained unique acc sup uni ours req =
      let (c, nx, learns, known) = learn-Learned send junk dev p1.pk_data s1 l drained unique in
      let s2 = record s1 { arp_cache = c; next = nx } in
      let (f, heap, r, replies, rest) =
        arp_reply-sends tap_write fuel loop junk dev n s2 p1 tap there held in
      answered req ours heap c nx f
        (arp_in-accepts send junk dev n s _ p e acc sup
          (arp_recv-replies send junk dev n s1 s2 _ p1 r there uni ours req learns replies))
        (reply-IsAnswer dev p.pk_data) (λ j. rest j ∙ ground arith) known

  learn_reply :
      s.next < arp_cache_sz
      → IsDrained s.arp_cache
      → IsUnique s.arp_cache
      → arp_accepts p ≡ true
      → arp_supported p1.pk_data ≡ true
      → multicast (load32 p1.pk_data arp_dip) ≡ false
      → load32 p1.pk_data arp_dip ≡ dev.net_ipaddr
      → load16 p1.pk_data arp_opcode ≢ arp_op_request
      → Received send junk dev n s p
  learn_reply l drained unique acc sup uni ours other =
      let (c, nx, learns, known) = learn-Learned send junk dev p1.pk_data s1 l drained unique in
      let s2 = record s1 { arp_cache = c; next = nx } in
      learned other ours (update s1.pkbs n none) c nx
        (arp_in-accepts send junk dev n s _ p e acc sup (
          arp_recv-learns send junk dev n s1 s2 _ p1 there uni ours other learns
            (free_lem send junk dev n s2 p1 there held)))
        (λ j. ground arith) known

  ignore :
      arp_accepts p ≡ true
      → arp_supported p1.pk_data ≡ true
      → (multicast (load32 p1.pk_data arp_dip) ≡ true)
        ⊎ (load32 p1.pk_data arp_dip ≢ dev.net_ipaddr)
      → Received send junk dev n s p
  ignore acc sup why =
      ignored why (update s1.pkbs n none)
        (arp_in-accepts send junk dev n s _ p e acc sup (
          arp_recv-ignores send junk dev n s1 _ p1 there why
            (free_lem send junk dev n s1 p1 there held)))
        (λ j. ground arith)

  refuse :
      (arp_accepts p ≡ false) ⊎ (arp_supported p1.pk_data ≡ false) → Received send junk dev n s p
  refuse why =
      let (heap, refuses, rest) = arp_in-refuses send junk dev n s p e held why in
      refused why heap refuses rest

  -- `arp_in` on a packet that nobody else holds, from an interface that is not the loopback, where no packet waits
  -- in the cache, its variable `next` is below its size and it holds no address twice: it returns, and the packet
  -- is freed. A packet that fails the tests, or is not for the interface, changes nothing else. One for the interface makes the hardware address
  -- of its sender known to the cache, unless it brings an unknown sender in a reply or finds no free entry. A request is
  -- answered by one frame of 42 bytes, a reply with the interface as its sender and the sender of the request as
  -- its target.
  pub arp_in-Received :
      dev.net_index ≢ loop
      → s.next < arp_cache_sz
      → IsDrained s.arp_cache
      → IsUnique s.arp_cache
      → Received send junk dev n s p
  arp_in-Received tap l drained unique = elim (Bool-cases (arp_accepts p)) [
    | inr bad ↦ refuse (inl bad)
    | inl acc ↦ elim (Bool-cases (arp_supported p1.pk_data)) [
      | inr bad ↦ refuse (inr bad)
      | inl sup ↦ elim (Bool-cases (multicast (load32 p1.pk_data arp_dip))) [
        | inl y ↦ ignore acc sup (inl y)
        | inr uni ↦ elim (ℕ_discrete (load32 p1.pk_data arp_dip) dev.net_ipaddr) [
          | no other ↦ ignore acc sup (inr other)
          | yes ours ↦ elim (ℕ_discrete (load16 p1.pk_data arp_opcode) arp_op_request) [
            | yes req ↦ answer tap l drained unique acc sup uni ours req
            | no other ↦ learn_reply l drained unique acc sup uni ours other
          ]
        ]
      ]
    ]
  ]
