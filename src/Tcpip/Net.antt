-- ===== src/Tcpip/Net.antt =====
-- tcpip/common/skbuff.c, include/skbuff.h and the state that the other files share: packet buffers in
-- a heap, the ARP cache, the counters. A step returns or ends the process.
use my_exercise.Prelude.{
  ℕ, ◌+◌, ◌-◌, ◌==◌, ltb, if◌then◌else◌, Bool, true, false, Option, none, some, List,
}
use my_exercise.Prelude.Int.{ℤ}
use my_exercise.Bytes.{Memory}
use my_exercise.Tcpip.Route.{Netdev, Rtentry}

-- A `struct pkbuf`. `pk_room` is not a member: the bytes that were allocated for `pk_data`.
pub record Pkbuf : Type 0 where
  pub pk_pro : ℕ
  pub pk_type : ℕ
  pub pk_len : ℕ
  pub pk_refcnt : ℕ
  pub pk_indev : Option Netdev
  pub pk_rtdst : Option Rtentry
  pub pk_room : ℕ
  pub pk_data : Memory

abbrev pub pkt_none : ℕ
pkt_none = 0

abbrev pub pkt_localhost : ℕ
pkt_localhost = 1

abbrev pub pkt_otherhost : ℕ
pkt_otherhost = 2

abbrev pub pkt_multicast : ℕ
pkt_multicast = 3

abbrev pub pkt_broadcast : ℕ
pkt_broadcast = 4

abbrev pub arp_cache_sz : ℕ
arp_cache_sz = 20

abbrev pub arp_ttl_timeout : ℕ
arp_ttl_timeout = 600

abbrev pub arp_ttl_waittime : ℕ
arp_ttl_waittime = 1

abbrev pub arp_state_free : ℕ
arp_state_free = 1

abbrev pub arp_state_waiting : ℕ
arp_state_waiting = 2

abbrev pub arp_state_resolved : ℕ
arp_state_resolved = 3

abbrev pub arp_req_retry : ℕ
arp_req_retry = 4

-- A `struct arpentry`; the packets that wait in its list are named by their addresses.
pub record Arpentry : Type 0 where
  pub ae_list : List ℕ
  pub ae_dev : Option Netdev
  pub ae_retry : ℤ
  pub ae_ttl : ℤ
  pub ae_state : ℕ
  pub ae_pro : ℕ
  pub ae_ipaddr : ℕ
  pub ae_hwaddr : Memory

-- `net_stats` of an interface, the counters that the code changes.
pub record Netstats : Type 0 where
  pub rx_packets : ℕ
  pub tx_packets : ℕ
  pub rx_errors : ℕ
  pub tx_errors : ℕ
  pub rx_bytes : ℕ
  pub tx_bytes : ℕ

-- A frame that went out: the interface, its length and its bytes.
pub record Frame : Type 0 where
  pub dev : Netdev
  pub len : ℕ
  pub bytes : Memory

-- `pkbs` is the heap of buffers, by address; `fresh` is the address that `malloc` gives next, and
-- `sent` what the tap interface got, the latest first. `next` is the static variable of `arp_entry_alloc`.
pub record Net : Type 0 where
  pub pkbs : ℕ → Option Pkbuf
  pub fresh : ℕ
  pub alloc_pkbs : ℕ
  pub free_pkbs : ℕ
  pub arp_cache : ℕ → Arpentry
  pub next : ℕ
  pub rt_head : List Rtentry
  pub stats : ℕ → Netstats
  pub sent : List Frame

-- How a run can end before it returns. The code has only `too_many_pkbufs`: `dangling` is a use of a buffer that was
-- freed or of a NULL pointer, `overrun` a write behind the end of a buffer, `out_of_fuel` a recursion that outran its fuel.
pub data Fault : Type 0 where
  dangling too_many_pkbufs overrun out_of_fuel : Fault

pub data Result {ℓ} (A : Type ℓ) : Type ℓ where
  ok : A → Result A
  stops : Fault → Result A

abbrev pub M : Type 0 → Type 0
M A = Net → Result (A × Net)

abbrev pub pure : {A : Type 0} → A → M A
pure a s = ok (a, s)

abbrev pub fail : {A : Type 0} → Fault → M A
fail e s = stops e

infixl 5 ◌>>=◌ ◌>>◌
abbrev pub ◌>>=◌ : {A B : Type 0} → M A → (A → M B) → M B
◌>>=◌ m f s = elim (m s) [ ok (a, s') ↦ f a s' | stops e ↦ stops e ]

abbrev pub ◌>>◌ : {A B : Type 0} → M A → M B → M B
m >> k = m >>= λ _. k

abbrev pub branch : {A : Type 0} → Bool → M A → M A → M A
branch true m k = m
branch false m k = k

abbrev pub gets : {A : Type 0} → (Net → A) → M A
gets f s = ok (f s, s)

abbrev pub update : {A : Type 0} → (ℕ → A) → ℕ → A → ℕ → A
update f n a j = if j == n then a else f j

-- A write to an entry of the cache.
unfoldable pub put_entry : ℕ → Arpentry → M (Unit {0})
put_entry i ae s = ok (tt, record s { arp_cache = update s.arp_cache i ae })

-- What a pointer to a buffer points to.
unfoldable pub pkb_at : ℕ → M Pkbuf
pkb_at n s = elim (s.pkbs n) [ none ↦ stops dangling | some p ↦ ok (p, s) ]

unfoldable pub put_pkb : ℕ → Pkbuf → M (Unit {0})
put_pkb n p s = ok (tt, record s { pkbs = update s.pkbs n (some p) })

-- `malloc` of a buffer, whose bytes come as the argument says.
unfoldable pub new_pkb : Pkbuf → M ℕ
new_pkb p s = ok (s.fresh, record s { pkbs = update s.pkbs s.fresh (some p); fresh = s.fresh + 1 })

abbrev pub max_pkbs : ℕ
max_pkbs = 200

-- `alloc_pkbs++; pkb_safe()`, where `free_pkbs` is at most `alloc_pkbs`
unfoldable pub count_alloc : M (Unit {0})
count_alloc s =
    if ltb max_pkbs (s.alloc_pkbs + 1 - s.free_pkbs)
    then stops too_many_pkbufs
    else ok (tt, record s { alloc_pkbs = s.alloc_pkbs + 1 })

-- The bytes of the new buffer are not determined: they are `junk`.
unfoldable pub alloc_pkb : Memory → ℕ → M ℕ
unfolding new_pkb count_alloc
alloc_pkb junk size = do
  n ← new_pkb (record {
    pk_pro = 0xffff;
    pk_type = 0;
    pk_len = size;
    pk_refcnt = 1;
    pk_indev = none;
    pk_rtdst = none;
    pk_room = size;
    pk_data = junk;
  })
  count_alloc
  pure n

-- `free_pkb`; the second test reads the buffer that the first branch has freed, where the count is 0.
unfoldable pub free_pkb : ℕ → M (Unit {0})
unfolding pkb_at put_pkb
free_pkb n s = elim (s.pkbs n) [
  | none ↦ stops dangling
  | some p ↦
      if p.pk_refcnt == 1
      then ok (tt, record s { pkbs = update s.pkbs n none; free_pkbs = s.free_pkbs + 1 })
      else put_pkb n (record p { pk_refcnt = p.pk_refcnt - 1 }) s
]

unfoldable pub get_pkb : ℕ → M (Unit {0})
unfolding pkb_at put_pkb
get_pkb n = do p ← pkb_at n; put_pkb n (record p { pk_refcnt = p.pk_refcnt + 1 })

-- `realloc` to a smaller size leaves the buffer where it is.
unfoldable pub pkb_trim : ℕ → ℕ → M (Unit {0})
unfolding pkb_at put_pkb
pkb_trim n len = do p ← pkb_at n; put_pkb n (record p { pk_len = len; pk_room = len })
