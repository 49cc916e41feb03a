-- ===== src/Tcpip/Eth.antt =====
-- tcpip/netdev/netdev.c and include/netdev.h: Ethernet headers, and `net_tx`. The header stands at the
-- start of a buffer: `dmac` at 0, `smac` at 6, `ethertype` at 12, the payload at 14.
use Prim.Native.Nat.{bit_and}
use my_exercise.Prelude.{
  ℕ, ◌+◌, ◌*◌, ◌/◌, ◌%◌, ◌==◌, ltb, ◌&&◌, if◌then◌else◌, Bool, Option, none, some,
}
use my_exercise.Prelude.Int.{ℤ}
use my_exercise.Bytes.{Memory, memcpy}
use my_exercise.Word.{add32}
use my_exercise.Tcpip.Checksum.{load16, store16}
use my_exercise.Tcpip.Route.{Netdev}
use my_exercise.Tcpip.Net.{
  Pkbuf, pkt_localhost, pkt_otherhost, pkt_multicast, pkt_broadcast, M, pure, ◌>>=◌, ◌>>◌, pkb_at,
  put_pkb, free_pkb,
}

abbrev pub netdev_alen : ℕ
netdev_alen = 6

abbrev pub eth_hdr_len : ℕ
eth_hdr_len = 14

abbrev pub eth_dmac : ℕ
eth_dmac = 0

abbrev pub eth_smac : ℕ
eth_smac = 6

abbrev pub eth_ethertype : ℕ
eth_ethertype = 12

-- `htons` and `ntohs` on a machine with the least significant byte first
abbrev pub htons : ℕ → ℕ
htons x = x % 256 * 256 + x / 256 % 256

-- `mac_cmp(p + o, q + u) == 0`
unfoldable pub mac_eq : Memory → ℕ → Memory → ℕ → Bool
mac_eq p o q u =
    p o == q u
    && p (o + 1) == q (u + 1)
    && p (o + 2) == q (u + 2)
    && p (o + 3) == q (u + 3)
    && p (o + 4) == q (u + 4)
    && p (o + 5) == q (u + 5)

unfoldable pub is_eth_multicast : Memory → ℕ → Bool
is_eth_multicast p o = bit_and (p o) 1 == 1

unfoldable pub is_eth_broadcast : Memory → ℕ → Bool
is_eth_broadcast p o =
    bit_and
      (bit_and (bit_and (bit_and (bit_and (p o) (p (o + 1))) (p (o + 2))) (p (o + 3))) (p (o + 4)))
      (p (o + 5))
    == 0xff

-- The type of a frame by its destination.
unfoldable pub eth_type : Netdev → Memory → ℕ
unfolding is_eth_multicast is_eth_broadcast mac_eq
eth_type dev p =
    if is_eth_multicast p eth_dmac
    then if is_eth_broadcast p eth_dmac then pkt_broadcast else pkt_multicast
    else if mac_eq p eth_dmac dev.net_hwaddr 0
    then pkt_localhost
    else pkt_otherhost

-- `none` is NULL, for a frame that is too short.
unfoldable pub eth_init : Netdev → Pkbuf → Option Pkbuf
unfolding eth_type
eth_init dev p =
    if ltb p.pk_len eth_hdr_len
    then none
    else some (record p {
      pk_type = eth_type dev p.pk_data;
      pk_pro = htons (load16 p.pk_data eth_ethertype);
      pk_indev = some dev;
    })

-- The hardware address that `net_tx` gets, in memory of its own or in the packet.
pub data HwAddr : Type 0 where
  apart : Memory → HwAddr
  within : ℕ → HwAddr

abbrev pub copy_hwaddr : Memory → ℕ → HwAddr → Memory
copy_hwaddr p o (apart q) = memcpy p o q 0 netdev_alen
copy_hwaddr p o (within u) = memcpy p o p u netdev_alen

-- The header that `net_tx` writes, in the order of its writes.
unfoldable pub eth_header : Netdev → ℕ → HwAddr → Memory → Memory
eth_header dev proto dst p =
    memcpy (copy_hwaddr (store16 p eth_ethertype (htons proto)) eth_dmac dst) eth_smac
      dev.net_hwaddr 0 netdev_alen

-- `xmit` is `dev->net_ops->xmit`.
module _ (xmit : Netdev → ℕ → M ℤ) where
  unfoldable pub net_tx : Netdev → ℕ → ℕ → ℕ → HwAddr → M ℤ
  unfolding eth_header pkb_at put_pkb
  net_tx dev n len proto dst = do
    p ← pkb_at n
    put_pkb n
        (record p { pk_len = add32 len eth_hdr_len; pk_data = eth_header dev proto dst p.pk_data })
    ret ← xmit dev n
    free_pkb n
    pure ret
