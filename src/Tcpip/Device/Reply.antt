-- ===== src/Tcpip/Device/Reply.antt =====
-- tcpip/arp/arp.c: `arp_reply` over the tap interface.
use my_exercise.Prelude.{
  ℕ, suc, ◌+◌, ◌≡◌, ◌≢◌, ◌∙◌, refl, Option, none, some, ◌∷◌, arith, ◌==◌, if◌then◌else◌,
}
use my_exercise.Prelude.Int.{ℤ}
use my_exercise.Bytes.{Memory}
use my_exercise.Tcpip.Route.{Netdev}
use my_exercise.Tcpip.Net.{Pkbuf, Frame, Netstats, Net, ok, ◌>>=◌, ◌>>◌, update, pkb_at, put_pkb}
use my_exercise.Tcpip.Eth.{within, eth_smac, eth_header}
use my_exercise.Tcpip.Arp.{eth_p_arp, arp_hdr_len, arp_data_len, reply_packet, arp_ntoh, arp_reply}
use my_exercise.Tcpip.Device.{xmit}
use my_exercise.Tcpip.Device.Send.{net_tx-sends}

-- The answer to the ARP packet `p`, as it goes out.
unfoldable pub answer_frame : Netdev → Memory → Frame
answer_frame dev p = record {
  dev = dev;
  len = 42;
  bytes = eth_header dev eth_p_arp (within eth_smac) (reply_packet dev (arp_ntoh p));
}

-- `arp_reply` sends the packet back as its answer, and frees it.
pub arp_reply-sends :
    (tap_write : Memory → ℕ → ℤ) (fuel loop : ℕ) (junk : Memory) (dev : Netdev) (n : ℕ) (s : Net)
    (p : Pkbuf)
    → dev.net_index ≢ loop
    → s.pkbs n ≡ some p
    → p.pk_refcnt ≡ 1
    → (f : ℕ → Netstats) × (heap : ℕ → Option Pkbuf) × (r : ℤ) × (arp_reply
          (xmit tap_write (suc fuel) loop junk)
          junk
          dev
          n
          s
        ≡ ok (
          r,
          record s {
            pkbs = heap;
            free_pkbs = s.free_pkbs + 1;
            stats = f;
            sent =
                record {
                  dev = dev;
                  len = 42;
                  bytes = eth_header dev eth_p_arp (within eth_smac) (reply_packet dev p.pk_data);
                }
                ∷ s.sent;
          },
        ))
      × ((j : ℕ) → heap j ≡ (if j == n then none else s.pkbs j))
unfolding arp_reply pkb_at put_pkb
arp_reply-sends tap_write fuel loop junk dev n s p tap e held =
    let p2 = record p { pk_data = reply_packet dev p.pk_data } in
    let s2 = record s { pkbs = update s.pkbs n (some p2) } in
    let there : s2.pkbs n ≡ some p2 = ground arith in
    let (f, heap, sends, rest) =
      net_tx-sends tap_write fuel loop junk dev n (arp_hdr_len + arp_data_len) eth_p_arp
        (within eth_smac) s2 p2 tap there held in
    (
      f,
      heap,
      tap_write (eth_header dev eth_p_arp (within eth_smac) p2.pk_data) 42,
      rw (e, ◌>>=◌, ◌>>◌, sends) refl,
      λ j. rest j ∙ ground arith,
    )
