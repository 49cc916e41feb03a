-- ===== src/Tcpip/ArpCache.antt =====
-- tcpip/arp/arp_cache.c and include/arp.h: the cache of hardware addresses. The mutex is left out:
-- a call here runs to its end before the next.
pub mod Alloc
pub mod Insert
pub mod Timer
pub mod Expiry
use my_exercise.Prelude.{
  ℕ, zero, suc, ◌+◌, ◌%◌, ◌==◌, ◌&&◌, ltb, if◌then◌else◌, Bool, true, false, Option, none, some,
  List, [], ◌∷◌,
}
use my_exercise.Prelude.Int.{ℤ, pos, negsuc, ◌-ℤ◌, leb_ℤ, ltb_ℤ}
use my_exercise.Bytes.{Memory, memcpy}
use my_exercise.Word.{sub32}
use my_exercise.Tcpip.Route.{Netdev}
use my_exercise.Tcpip.Net.{
  Pkbuf, Arpentry, Net, M, pure, fail, dangling, ◌>>=◌, ◌>>◌, branch, gets, update, put_entry, ok,
  pkb_at, free_pkb, arp_cache_sz, arp_ttl_timeout, arp_ttl_waittime, arp_state_free,
  arp_state_waiting, arp_state_resolved, arp_req_retry,
}
use my_exercise.Tcpip.Eth.{eth_hdr_len, netdev_alen, HwAddr, apart, net_tx}

abbrev pub eth_p_ip : ℕ
eth_p_ip = 0x0800

-- The search of `arp_entry_alloc`, by the rounds left: whether it met a free entry, and where `next` is then.
unfoldable pub free_entry : ℕ → (ℕ → Arpentry) → ℕ → Bool × ℕ
free_entry zero cache next = (false, next)
free_entry (suc k) cache next =
    if (cache next).ae_state == arp_state_free
    then (true, next)
    else free_entry k cache ((next + 1) % arp_cache_sz)

-- An entry as `arp_entry_alloc` leaves it; it does not touch the addresses.
unfoldable pub waiting_entry : Arpentry → Arpentry
waiting_entry ae = record ae {
  ae_dev = none;
  ae_retry = pos arp_req_retry;
  ae_ttl = pos arp_ttl_waittime;
  ae_state = arp_state_waiting;
  ae_pro = eth_p_ip;
  ae_list = [];
}

-- The index of the entry; `none` is NULL.
unfoldable pub arp_entry_alloc : M (Option ℕ)
unfolding free_entry waiting_entry
arp_entry_alloc s =
    let (found, i) = free_entry arp_cache_sz s.arp_cache s.next in
    if found
    then ok (
      some i,
      record s {
        arp_cache = update s.arp_cache i (waiting_entry (s.arp_cache i));
        next = (i + 1) % arp_cache_sz;
      },
    )
    else ok (none, record s { next = i })

unfoldable pub resolved_entry : Netdev → ℕ → ℕ → Memory → ℕ → Arpentry → Arpentry
resolved_entry nd pro ipaddr p o ae = record ae {
  ae_dev = some nd;
  ae_pro = pro;
  ae_ttl = pos arp_ttl_timeout;
  ae_ipaddr = ipaddr;
  ae_state = arp_state_resolved;
  ae_hwaddr = memcpy ae.ae_hwaddr 0 p o netdev_alen;
}

-- The hardware address is at `p + o`.
unfoldable pub arp_cache_insert : Netdev → ℕ → ℕ → Memory → ℕ → M ℤ
unfolding resolved_entry put_entry
arp_cache_insert nd pro ipaddr p o = do
  i ← arp_entry_alloc
  elim i [
    | none ↦ pure (negsuc 0)
    | some i' ↦ do
      ae ← gets (λ s. s.arp_cache i')
      put_entry i' (resolved_entry nd pro ipaddr p o ae)
      pure (pos 0)
  ]

unfoldable pub arp_cache_init : (ℕ → Arpentry) → ℕ → Arpentry
arp_cache_init cache i =
    if ltb i arp_cache_sz then record (cache i) { ae_state = arp_state_free } else cache i

unfoldable pub entry_matches : ℕ → ℕ → Arpentry → Bool
entry_matches pro ipaddr ae =
    if ae.ae_state == arp_state_free then false else ae.ae_pro == pro && ae.ae_ipaddr == ipaddr

-- The loop of `arp_cache_lookup` from entry `i` on, by the rounds left.
unfoldable pub lookup_loop : ℕ → (ℕ → Arpentry) → ℕ → ℕ → ℕ → Option ℕ
unfolding entry_matches
lookup_loop zero cache pro ipaddr i = none
lookup_loop (suc k) cache pro ipaddr i =
    if entry_matches pro ipaddr (cache i) then some i else lookup_loop k cache pro ipaddr (i + 1)

unfoldable pub arp_cache_lookup : (ℕ → Arpentry) → ℕ → ℕ → Option ℕ
unfolding lookup_loop
arp_cache_lookup cache pro ipaddr = lookup_loop arp_cache_sz cache pro ipaddr 0

-- `arp_queue_drop` on the packets of a list
unfoldable pub drop_all : List ℕ → M (Unit {0})
drop_all [] = pure tt
drop_all (n ∷ queue) = do free_pkb n; drop_all queue

-- The packets leave the list one by one in the code, here before the first is dropped or sent: no call
-- adds to the list meanwhile.
unfoldable pub arp_queue_drop : ℕ → M (Unit {0})
unfolding drop_all put_entry
arp_queue_drop i = do
  ae ← gets (λ s. s.arp_cache i)
  put_entry i (record ae { ae_list = [] })
  drop_all ae.ae_list

abbrev pub count_all : List ℕ → ℕ
count_all [] = 0
count_all (n ∷ queue) = suc (count_all queue)

abbrev pub the_dev : Option Netdev → M Netdev
the_dev none = fail dangling
the_dev (some d) = pure d

module _ (xmit : Netdev → ℕ → M ℤ) where
  -- The first packet leaves the list, and goes out.
  unfoldable pub send_first : ℕ → Arpentry → M (Unit {0})
  unfolding put_entry pkb_at
  send_first i ae = elim ae.ae_list [
    | [] ↦ pure tt
    | n ∷ queue ↦ do
      put_entry i (record ae { ae_list = queue })
      p ← pkb_at n
      d ← the_dev ae.ae_dev
      net_tx xmit d n (sub32 p.pk_len eth_hdr_len) p.pk_pro (apart ae.ae_hwaddr)
      pure tt
  ]

  -- The loop of `arp_queue_send`, by the rounds left; a round finds the entry as the last one left it.
  unfoldable pub send_loop : ℕ → ℕ → M (Unit {0})
  unfolding send_first
  send_loop zero i = pure tt
  send_loop (suc k) i = do ae ← gets (λ s. s.arp_cache i); send_first i ae; send_loop k i

  -- Nothing adds to the list, so that it is empty after as many rounds as it had packets.
  unfoldable pub arp_queue_send : ℕ → M (Unit {0})
  unfolding send_loop
  arp_queue_send i = do ae ← gets (λ s. s.arp_cache i); send_loop (count_all ae.ae_list) i

-- `arp_request` is a parameter here, since it stands in arp.c.
module _ (arp_request : ℕ → M ℤ) where
  unfoldable pub ask_again : ℕ → Arpentry → M (Unit {0})
  unfolding put_entry
  ask_again i ae = do
    put_entry i (record ae { ae_ttl = pos arp_ttl_waittime })
    arp_request i
    pure tt

  unfoldable pub give_up : ℕ → Arpentry → M (Unit {0})
  unfolding put_entry
  give_up i ae = do
    put_entry i ae
    arp_queue_drop i
    ae' ← gets (λ s. s.arp_cache i)
    put_entry i (record ae' { ae_state = arp_state_free })

  -- The branch of `arp_timer` for an entry whose time has run out; `ae` holds the new time.
  unfoldable pub entry_expires : ℕ → Arpentry → M (Unit {0})
  unfolding put_entry ask_again give_up
  entry_expires i ae =
      let tried = record ae { ae_retry = ae.ae_retry -ℤ pos 1 } in
      branch (ae.ae_state == arp_state_waiting)
        (branch (ltb_ℤ tried.ae_retry (pos 0)) (give_up i tried) (ask_again i tried))
        (branch (ae.ae_state == arp_state_resolved)
          (put_entry i (record ae { ae_state = arp_state_free })) (ask_again i ae))

  unfoldable pub timer_entry : ℤ → ℕ → M (Unit {0})
  unfolding entry_expires put_entry
  timer_entry delta i = do
    ae ← gets (λ s. s.arp_cache i)
    let aged = record ae { ae_ttl = ae.ae_ttl -ℤ delta }
    branch (ae.ae_state == arp_state_free) (pure tt)
        (branch (leb_ℤ aged.ae_ttl (pos 0)) (entry_expires i aged) (put_entry i aged))

  -- The loop of `arp_timer` from entry `i` on, by the rounds left.
  unfoldable pub timer_loop : ℕ → ℤ → ℕ → M (Unit {0})
  unfolding timer_entry
  timer_loop zero delta i = pure tt
  timer_loop (suc k) delta i = do timer_entry delta i; timer_loop k delta (i + 1)

  unfoldable pub arp_timer : ℤ → M (Unit {0})
  unfolding timer_loop
  arp_timer delta = timer_loop arp_cache_sz delta 0
