-- ===== src/Tcpip/Tests/Stack.antt =====
-- tcpip: the theorems on ARP and IP at concrete inputs. The interface is 10.0.0.1 on the tap device; the cache
-- asks for 10.0.0.7 in its first entry, and its other entries are free.
use my_exercise.Prelude.{
  ℕ, zero, suc, Bool-cases, ◌+◌, ◌<◌, ◌≤◌, ◌≡◌, ◌↔◌, ◌⊎◌, refl, List, [], ◌∷◌, some, none, arith,
  inl, inr, ◌==◌, if◌then◌else◌,
}
use my_exercise.Prelude.Int.{ℤ, pos}
use my_exercise.Bytes.{Memory, IsBytes}
use my_exercise.Tcpip.Checksum.{load16, checksum}
use my_exercise.Tcpip.Route.{Netdev}
use my_exercise.Tcpip.Net.{
  Pkbuf, Arpentry, Net, ok, arp_cache_sz, arp_state_free, arp_state_waiting, arp_state_resolved,
  stops, overrun,
}
use my_exercise.Tcpip.ArpCache.{eth_p_ip, arp_cache_lookup, lookup_loop, entry_matches}
use my_exercise.Tcpip.ArpCache.Alloc.{Cache}
use my_exercise.Tcpip.ArpCache.Insert.{IsUnique, Inserted, arp_cache_insert-Inserted}
use my_exercise.Tcpip.ArpCache.Expiry.{IsQuiet, lifetime, timers}
use my_exercise.Tcpip.Arp.{arp_request}
use my_exercise.Tcpip.Device.Request.{arp_request-overruns}
use my_exercise.Tcpip.Device.Expiry.{send, ask, timers-free_iff}
use my_exercise.Tcpip.Device.Answer.{Received, arp_in-Received}
use my_exercise.Tcpip.Ip.{ipver, iphlen, ip_csum, ip_ttl, header_checksum, forwarded}
use my_exercise.Tcpip.Ip.Forward.{forwarded-checksum}

abbrev veth : Netdev
veth = record {
  net_index = 1;
  net_mtu = 1500;
  net_hwaddr = λ a. a + 2;
  net_ipaddr = 0x0100000a;
  net_mask = 0xffffff;
}

abbrev asking : Arpentry
asking = record {
  ae_list = [];
  ae_dev = some veth;
  ae_retry = pos 4;
  ae_ttl = pos 1;
  ae_state = arp_state_waiting;
  ae_pro = eth_p_ip;
  ae_ipaddr = 0x0700000a;
  ae_hwaddr = λ a. 0;
}

abbrev unused : Arpentry
unused = record asking { ae_dev = none; ae_state = arp_state_free }

abbrev cache : Cache
cache j = if j == 0 then asking else unused

abbrev bytes_of : List ℕ → Memory
bytes_of [] a = 0
bytes_of (x ∷ xs) zero = x
bytes_of (x ∷ xs) (suc a) = bytes_of xs a

-- A request from 10.0.0.7, whose hardware address is 6:7:8:9:10:11, for 10.0.0.1.
abbrev request : Memory
request = bytes_of (
    255 ∷ 255 ∷ 255 ∷ 255 ∷ 255 ∷ 255 ∷ 6 ∷ 7 ∷ 8 ∷ 9 ∷ 10 ∷ 11 ∷ 8 ∷ 6 ∷ 0 ∷ 1 ∷ 8 ∷ 0 ∷ 6 ∷ 4 ∷ 0
    ∷ 1 ∷ 6 ∷ 7 ∷ 8 ∷ 9 ∷ 10 ∷ 11 ∷ 10 ∷ 0 ∷ 0 ∷ 7 ∷ 0 ∷ 0 ∷ 0 ∷ 0 ∷ 0 ∷ 0 ∷ 10 ∷ 0 ∷ 0 ∷ 1 ∷ [])

abbrev packet : Pkbuf
packet = record {
  pk_pro = 0x0806;
  pk_type = 4;
  pk_len = 42;
  pk_refcnt = 1;
  pk_indev = some veth;
  pk_rtdst = none;
  pk_room = 1514;
  pk_data = request;
}

abbrev junk : Memory
junk a = 0

abbrev tap_write : Memory → ℕ → ℤ
tap_write p len = pos len

abbrev net : Net
net = record {
  pkbs = λ j. if j == 0 then some packet else none;
  fresh = 1;
  alloc_pkbs = 1;
  free_pkbs = 0;
  arp_cache = cache;
  next = 0;
  rt_head = [];
  stats = λ j. record {
    rx_packets = 0;
    tx_packets = 0;
    rx_errors = 0;
    tx_errors = 0;
    rx_bytes = 0;
    tx_bytes = 0;
  };
  sent = [];
}

abbrev known : Arpentry
known = record asking { ae_state = arp_state_resolved; ae_ttl = pos 3; ae_ipaddr = 0x0800000a }

-- The cache without the entry that waits.
abbrev settled : Net
settled = record net { arp_cache = λ j. if j == 1 then known else unused }

cache_case : (P : Arpentry → Type 0) → P asking → P unused → (j : ℕ) → P (cache j)
cache_case P a u j = elim (Bool-cases (j == 0)) [ inl y ↦ rw y a | inr n ↦ rw n u ]

settled-IsQuiet : (j : ℕ) → j < arp_cache_sz → IsQuiet (settled.arp_cache j)
settled-IsQuiet j l = elim (Bool-cases (j == 1)) [
  | inl y ↦
      rw y
        (record { idle = record { none_wait = refl; state = inr refl }; time = inr (ground arith) })
  | inr n ↦ rw n (record { idle = record { none_wait = refl; state = inl refl }; time = inl refl })
]

cache-IsUnique : IsUnique cache
cache-IsUnique = ground arith

timers-free_iff_example :
    (c : Cache) × (timers (ask tap_write 0 0 junk) 3 settled
      ≡ ok (tt, record settled { arp_cache = c }))
    × ((j : ℕ)
        → j < arp_cache_sz
        → IsQuiet (c j)
          × (((c j).ae_state ≡ arp_state_free) ↔ (lifetime (settled.arp_cache j) ≤ 3)))
timers-free_iff_example = timers-free_iff tap_write 0 0 junk 3 settled settled-IsQuiet

arp_request-overruns_example : arp_request (send tap_write 0 0 junk) junk 0 net ≡ stops overrun
arp_request-overruns_example = arp_request-overruns (send tap_write 0 0 junk) junk 0 net

arp_cache_insert-Inserted_example : Inserted veth eth_p_ip 0x0900000a request 6 net
unfolding arp_cache_lookup lookup_loop entry_matches
arp_cache_insert-Inserted_example =
    arp_cache_insert-Inserted veth eth_p_ip 0x0900000a request 6 net (omega arith) cache-IsUnique
      refl

arp_in-Received_example : Received (send tap_write 0 0 junk) junk veth 0 net packet
arp_in-Received_example =
    arp_in-Received tap_write 0 0 junk veth 0 net packet refl refl (omega arith) (omega arith)
      (λ j. cache_case (λ ae. ae.ae_list ≡ []) refl refl j) cache-IsUnique

abbrev All : List ℕ → Type 0
All [] = Unit
All (x ∷ xs) = (x < 256) × All xs

-- A header from 10.0.0.7 to 8.8.8.8 with its checksum.
abbrev ip_bytes : List ℕ
ip_bytes =
    0 ∷ 0 ∷ 0 ∷ 0 ∷ 0 ∷ 0 ∷ 0 ∷ 0 ∷ 0 ∷ 0 ∷ 0 ∷ 0 ∷ 8 ∷ 0 ∷ 69 ∷ 0 ∷ 0 ∷ 20 ∷ 0 ∷ 0 ∷ 0 ∷ 0 ∷ 64 ∷ 1
    ∷ 96 ∷ 211 ∷ 10 ∷ 0 ∷ 0 ∷ 7 ∷ 8 ∷ 8 ∷ 8 ∷ 8 ∷ []

abbrev ip_packet : Memory
ip_packet = bytes_of ip_bytes

bytes_of-IsBytes : (xs : List ℕ) → All xs → IsBytes (bytes_of xs)
bytes_of-IsBytes [] h a = omega arith
bytes_of-IsBytes (x ∷ xs) h zero = h.0
bytes_of-IsBytes (x ∷ xs) h (suc a) = bytes_of-IsBytes xs h.1 a

ip_packet-IsBytes : IsBytes ip_packet
ip_packet-IsBytes = bytes_of-IsBytes ip_bytes (ground arith)

forwarded-checksum_example :
    (q : Memory) × (forwarded ip_packet net ≡ ok (q, net))
    × (load16 q ip_csum ≡ 1)
    × (q ip_ttl ≡ 63)
    × ((header_checksum q ≡ some 0)
        ↔ ((load16 ip_packet ip_csum ≡ 0) ⊎ (load16 ip_packet ip_csum ≡ 65535)))
unfolding ipver iphlen checksum
forwarded-checksum_example =
    forwarded-checksum ip_packet net ip_packet-IsBytes refl (omega arith) (omega arith) refl
