-- ===== src/Tcpip/Device/Send.antt =====
-- tcpip/netdev/netdev.c and tap_if.c: sending a frame over the tap interface.
use my_exercise.Prelude.{
  ℕ, suc, ◌+◌, ◌≡◌, ◌≢◌, refl, Option, none, some, ◌∷◌, arith, ◌==◌, if◌then◌else◌, Bool-cases, inl,
  inr, false,
}
use my_exercise.Prelude.Int.{ℤ}
use my_exercise.Bytes.{Memory}
use my_exercise.Word.{add32}
use my_exercise.Tcpip.Route.{Netdev}
use my_exercise.Tcpip.Net.{
  put_pkb, Pkbuf, Net, Netstats, Frame, ok, ◌>>=◌, ◌>>◌, update, pkb_at, free_pkb,
}
use my_exercise.Tcpip.Eth.{eth_hdr_len, HwAddr, eth_header, net_tx}
use my_exercise.Tcpip.Device.{veth_dev_xmit, xmit, written, record_frame, count_stats}

-- The buffers, the counters and the frames, where `f` is what the statistics have become.
module _ (tap_write : Memory → ℕ → ℤ) (fuel loop : ℕ) (junk : Memory) (dev : Netdev) (n : ℕ) where
  -- The frame of a buffer.
  abbrev pub frame_of : Pkbuf → Frame
  frame_of p = record { dev = dev; len = p.pk_len; bytes = p.pk_data }

  xmit_tap :
      (s : Net) (p : Pkbuf)
      → dev.net_index ≢ loop
      → s.pkbs n ≡ some p
      → (f : ℕ → Netstats) × (xmit tap_write (suc fuel) loop junk dev n s
          ≡ ok (tap_write p.pk_data p.pk_len, record s { stats = f; sent = frame_of p ∷ s.sent }))
  unfolding xmit veth_dev_xmit pkb_at record_frame count_stats
  xmit_tap s p tap e =
      let other : (dev.net_index == loop) ≡ false = ground (arith, tap) in
      elim (Bool-cases (written (tap_write p.pk_data p.pk_len) p.pk_len)) [
        | inl y ↦ rw (other, veth_dev_xmit, pkb_at, ◌>>=◌, ◌>>◌, e, y) (_, refl)
        | inr x ↦ rw (other, veth_dev_xmit, pkb_at, ◌>>=◌, ◌>>◌, e, x) (_, refl)
      ]

  -- The buffer as `net_tx` hands it to the interface.
  abbrev pub as_sent : ℕ → ℕ → HwAddr → Pkbuf → Pkbuf
  as_sent len proto dst p = record p {
    pk_len = add32 len eth_hdr_len;
    pk_data = eth_header dev proto dst p.pk_data;
  }

  -- `net_tx` of a buffer that nobody else holds, over an interface that is not the loopback, returns what the write
  -- returns. One frame goes out: the buffer's bytes under a fresh header. The buffer is freed, and beside the
  -- statistics nothing else changes.
  pub net_tx-sends :
      (len proto : ℕ) (dst : HwAddr) (s : Net) (p : Pkbuf)
      → dev.net_index ≢ loop
      → s.pkbs n ≡ some p
      → p.pk_refcnt ≡ 1
      → (f : ℕ → Netstats) × (heap : ℕ → Option Pkbuf) × (net_tx
            (xmit tap_write (suc fuel) loop junk)
            dev
            n
            len
            proto
            dst
            s
          ≡ ok (
            tap_write (eth_header dev proto dst p.pk_data) (add32 len eth_hdr_len),
            record s {
              pkbs = heap;
              free_pkbs = s.free_pkbs + 1;
              stats = f;
              sent = frame_of (as_sent len proto dst p) ∷ s.sent;
            },
          ))
        × ((j : ℕ) → heap j ≡ (if j == n then none else s.pkbs j))
  unfolding net_tx pkb_at put_pkb free_pkb
  net_tx-sends len proto dst s p tap e held =
      let q = as_sent len proto dst p in
      let there : update s.pkbs n (some q) n ≡ some q = ground arith in
      let (f, sends) = xmit_tap (record s { pkbs = update s.pkbs n (some q) }) q tap there in
      (
        f,
        update (update s.pkbs n (some q)) n none,
        rw (e, ◌>>=◌, sends, there, held) refl,
        λ j. ground arith,
      )
