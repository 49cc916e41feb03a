-- ===== src/Tcpip/Device.antt =====
-- tcpip/netdev: `net_rx`, the loopback interface (loop_if.c) and the tap interface (tap_if.c). A frame
-- that is sent to the loopback interface is received within the call, which is the recursion on fuel here.
pub mod Send
pub mod Request
pub mod Expiry
pub mod Reply
pub mod Answer
use my_exercise.Prelude.{
  ℕ, zero, suc, ◌+◌, ◌==◌, if◌then◌else◌, Bool, true, false, Option, none, some, List, [], ◌∷◌,
}
use my_exercise.Prelude.Int.{ℤ, pos, negsuc}
use my_exercise.Bytes.{Memory}
use my_exercise.Word.{add32}
use my_exercise.Tcpip.Route.{Netdev}
use my_exercise.Tcpip.Net.{
  Pkbuf, Net, Netstats, Frame, M, pure, fail, out_of_fuel, ok, ◌>>=◌, ◌>>◌, branch, gets, update,
  pkb_at, put_pkb, alloc_pkb, free_pkb, get_pkb,
}
use my_exercise.Tcpip.Eth.{eth_hdr_len, eth_init}
use my_exercise.Tcpip.ArpCache.{eth_p_ip}
use my_exercise.Tcpip.Arp.{eth_p_arp, arp_in}

abbrev pub eth_p_rarp : ℕ
eth_p_rarp = 0x8035

unfoldable pub count_stats : Netdev → (Netstats → Netstats) → M (Unit {0})
count_stats dev f s =
    ok (tt, record s { stats = update s.stats dev.net_index (f (s.stats dev.net_index)) })

-- Frames of RARP and IP are left to handlers that are commented out.
unfoldable pub net_rx : (Netdev → ℕ → M ℤ) → Memory → Netdev → ℕ → M ℤ
unfolding pkb_at put_pkb
net_rx xmit junk dev n = do
  pkb ← pkb_at n
  elim (eth_init dev pkb) [
    | none ↦ do free_pkb n; pure (negsuc 0)
    | some p ↦ do
      put_pkb n p
      branch (p.pk_pro == eth_p_rarp) (pure (pos 0)) (
          branch (p.pk_pro == eth_p_arp) (do arp_in xmit junk dev n; pure (pos 0))
            (branch (p.pk_pro == eth_p_ip) (pure (pos 0)) (do free_pkb n; pure (pos 0))))
  ]

-- `loop_recv`, and `loop_dev_xmit` after it; `xmit` is what the frames of the answer go through.
unfoldable pub loop_recv : (Netdev → ℕ → M ℤ) → Memory → Netdev → ℕ → M (Unit {0})
unfolding count_stats pkb_at
loop_recv xmit junk dev n = do
  pkb ← pkb_at n
  count_stats dev
      (λ t. record t { rx_packets = add32 t.rx_packets 1; rx_bytes = add32 t.rx_bytes pkb.pk_len })
  net_rx xmit junk dev n
  pure tt

unfoldable pub loop_dev_xmit : (Netdev → ℕ → M ℤ) → Memory → Netdev → ℕ → M ℤ
unfolding loop_recv count_stats pkb_at
loop_dev_xmit xmit junk dev n = do
  get_pkb n
  loop_recv xmit junk dev n
  pkb ← pkb_at n
  count_stats dev
      (λ t. record t { tx_packets = add32 t.tx_packets 1; tx_bytes = add32 t.tx_bytes pkb.pk_len })
  pure (pos pkb.pk_len)

unfoldable pub record_frame : Frame → M (Unit {0})
record_frame f s = ok (tt, record s { sent = f ∷ s.sent })

abbrev pub written : ℤ → ℕ → Bool
written (pos k) len = k == len
written (negsuc k) len = false

-- `tap_write` tells how many bytes of a frame `write` took, or is negative.
module _ (tap_write : Memory → ℕ → ℤ) where
  unfoldable pub veth_dev_xmit : Netdev → ℕ → M ℤ
  unfolding record_frame count_stats pkb_at
  veth_dev_xmit dev n = do
    pkb ← pkb_at n
    let ret = tap_write pkb.pk_data pkb.pk_len
    record_frame (record { dev = dev; len = pkb.pk_len; bytes = pkb.pk_data })
    branch (written ret pkb.pk_len)
        (count_stats dev (λ t. record t {
          tx_packets = add32 t.tx_packets 1;
          tx_bytes = add32 t.tx_bytes pkb.pk_len;
        }))
        (count_stats dev (λ t. record t { tx_errors = add32 t.tx_errors 1 }))
    pure ret

  -- `dev->net_ops->xmit` of the two interfaces; `loop` is the index of the loopback interface.
  unfoldable pub xmit : ℕ → ℕ → Memory → Netdev → ℕ → M ℤ
  unfolding veth_dev_xmit loop_dev_xmit
  xmit zero loop junk dev n = fail out_of_fuel
  xmit (suc fuel) loop junk dev n =
      branch (dev.net_index == loop) (loop_dev_xmit (xmit fuel loop junk) junk dev n)
        (veth_dev_xmit dev n)

  -- One round of `recv_interrupt`: `tap_read` gives the bytes and their number, or none.
  unfoldable pub recv_frame : ℕ → ℕ → Memory → Netdev → Option (ℕ × Memory) → M Bool
  unfolding count_stats pkb_at put_pkb
  recv_frame fuel loop junk veth frame = do
    n ← alloc_pkb junk (veth.net_mtu + eth_hdr_len)
    elim frame [
      | none ↦ do
        count_stats veth (λ t. record t { rx_errors = add32 t.rx_errors 1 })
        free_pkb n
        pure false
      | some (len, bytes) ↦ do
        count_stats veth
            (λ t. record t { rx_packets = add32 t.rx_packets 1; rx_bytes = add32 t.rx_bytes len })
        pkb ← pkb_at n
        put_pkb n (record pkb { pk_len = len; pk_data = bytes })
        net_rx (xmit fuel loop junk) junk veth n
        pure true
    ]
