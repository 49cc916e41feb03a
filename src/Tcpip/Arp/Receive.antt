-- ===== src/Tcpip/Arp/Receive.antt =====
-- tcpip/arp/arp.c: the steps of `arp_in` and `arp_recv`, one lemma to a branch.
use my_exercise.Prelude.{
  ℕ, ◌+◌, ◌≡◌, ◌≢◌, ◌⊎◌, refl, Option, none, some, true, false, arith, inl, inr, ◌==◌,
  if◌then◌else◌, Bool-cases,
}
use my_exercise.Prelude.Int.{ℤ, pos, negsuc}
use my_exercise.Bytes.{Memory, load32}
use my_exercise.Tcpip.Route.{Netdev}
use my_exercise.Tcpip.Checksum.{load16}
use my_exercise.Tcpip.Net.{Pkbuf, Net, M, ok, ◌>>=◌, ◌>>◌, update, pkb_at, put_pkb, free_pkb}
use my_exercise.Tcpip.Arp.{
  arp_op_request, arp_opcode, arp_dip, multicast, arp_ntoh, arp_accepts, arp_supported, arp_reply,
  learn, arp_recv, arp_in,
}

module _ (send : Netdev → ℕ → M ℤ) (junk : Memory) (dev : Netdev) (n : ℕ) where
  -- The packet that `arp_recv` gets.
  abbrev pub in_host_order : Pkbuf → Pkbuf
  in_host_order p = record p { pk_data = arp_ntoh p.pk_data }

  -- `arp_in` gives the packet to `arp_recv` when its tests pass.
  pub arp_in-accepts :
      (s t : Net) (p : Pkbuf)
      → s.pkbs n ≡ some p
      → arp_accepts p ≡ true
      → arp_supported (arp_ntoh p.pk_data) ≡ true
      → arp_recv send junk dev n (record s { pkbs = update s.pkbs n (some (in_host_order p)) })
        ≡ ok (tt, t)
      → arp_in send junk dev n s ≡ ok (pos 0, t)
  unfolding arp_in pkb_at put_pkb
  arp_in-accepts s t p e acc sup received = rw (e, ◌>>=◌, ◌>>◌, acc, sup, received) refl

  -- `arp_recv` learns of the sender of a request for the address of the interface, and replies.
  pub arp_recv-replies :
      (s s2 t : Net) (p : Pkbuf) (r : ℤ)
      → s.pkbs n ≡ some p
      → multicast (load32 p.pk_data arp_dip) ≡ false
      → load32 p.pk_data arp_dip ≡ dev.net_ipaddr
      → load16 p.pk_data arp_opcode ≡ arp_op_request
      → learn send junk dev p.pk_data s ≡ ok (tt, s2)
      → arp_reply send junk dev n s2 ≡ ok (r, t)
      → arp_recv send junk dev n s ≡ ok (tt, t)
  unfolding arp_recv pkb_at
  arp_recv-replies s s2 t p r e uni ours req learns replies =
      let mine : (load32 p.pk_data arp_dip == dev.net_ipaddr) ≡ true = ground (arith, ours) in
      rw (e, ◌>>=◌, ◌>>◌, uni, mine, learns, req, replies) refl

  -- `arp_recv` learns of the sender of a reply to the interface, and frees the packet.
  pub arp_recv-learns :
      (s s2 t : Net) (p : Pkbuf)
      → s.pkbs n ≡ some p
      → multicast (load32 p.pk_data arp_dip) ≡ false
      → load32 p.pk_data arp_dip ≡ dev.net_ipaddr
      → load16 p.pk_data arp_opcode ≢ arp_op_request
      → learn send junk dev p.pk_data s ≡ ok (tt, s2)
      → free_pkb n s2 ≡ ok (tt, t)
      → arp_recv send junk dev n s ≡ ok (tt, t)
  unfolding arp_recv pkb_at
  arp_recv-learns s s2 t p e uni ours n_req learns frees =
      let other : (load16 p.pk_data arp_opcode == arp_op_request) ≡ false = ground (arith, n_req) in
      let mine : (load32 p.pk_data arp_dip == dev.net_ipaddr) ≡ true = ground (arith, ours) in
      rw (e, ◌>>=◌, ◌>>◌, uni, mine, learns, other, frees) refl

  -- `arp_recv` frees a packet that is for a group of hosts or for another host.
  pub arp_recv-ignores :
      (s t : Net) (p : Pkbuf)
      → s.pkbs n ≡ some p
      → (multicast (load32 p.pk_data arp_dip) ≡ true) ⊎ (load32 p.pk_data arp_dip ≢ dev.net_ipaddr)
      → free_pkb n s ≡ ok (tt, t)
      → arp_recv send junk dev n s ≡ ok (tt, t)
  unfolding arp_recv pkb_at
  arp_recv-ignores s t p e why frees = elim (Bool-cases (multicast (load32 p.pk_data arp_dip))) [
    | inl y ↦ rw (e, ◌>>=◌, ◌>>◌, y, frees) refl
    | inr uni ↦
        let other : (load32 p.pk_data arp_dip == dev.net_ipaddr) ≡ false =
          ground (arith, why, uni) in
        rw (e, ◌>>=◌, ◌>>◌, uni, other, frees) refl
  ]

  pub free_lem :
      (s : Net) (p : Pkbuf)
      → s.pkbs n ≡ some p
      → p.pk_refcnt ≡ 1
      → free_pkb n s
        ≡ ok (tt, record s { pkbs = update s.pkbs n none; free_pkbs = s.free_pkbs + 1 })
  unfolding free_pkb
  free_lem s p e held = rw (free_pkb, e, held) refl

  -- A packet that fails the tests of `arp_in` is freed.
  pub arp_in-refuses :
      (s : Net) (p : Pkbuf)
      → s.pkbs n ≡ some p
      → p.pk_refcnt ≡ 1
      → (arp_accepts p ≡ false) ⊎ (arp_supported (arp_ntoh p.pk_data) ≡ false)
      → (heap : ℕ → Option Pkbuf) × (arp_in send junk dev n s
          ≡ ok (negsuc 0, record s { pkbs = heap; free_pkbs = s.free_pkbs + 1 }))
        × ((j : ℕ) → heap j ≡ (if j == n then none else s.pkbs j))
  unfolding arp_in pkb_at put_pkb
  arp_in-refuses s p e held why = elim (Bool-cases (arp_accepts p)) [
    | inr bad ↦ (
      update s.pkbs n none,
      rw (e, ◌>>=◌, ◌>>◌, bad, free_lem s p e held) refl,
      λ j. ground arith,
    )
    | inl acc ↦
        let t = record s { pkbs = update s.pkbs n (some (in_host_order p)) } in
        let there : t.pkbs n ≡ some (in_host_order p) = ground arith in
        let unsup : arp_supported (arp_ntoh p.pk_data) ≡ false = elim why [
          | inl bad ↦ absurd (cc (acc, bad))
          | inr bad ↦ bad
        ] in
        (
          update t.pkbs n none,
          rw (e, ◌>>=◌, ◌>>◌, acc, unsup, free_lem t (in_host_order p) there held) refl,
          λ j. ground arith,
        )
  ]
