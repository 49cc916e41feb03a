-- ===== src/Tcpip/Device/Expiry.antt =====
-- tcpip/arp/arp_cache.c with arp.c and tap_if.c: `arp_timer` with the requests of arp.c, over the tap interface.
use my_exercise.Prelude.{ℕ, suc, ◌<◌, ◌≤◌, ◌≡◌, ◌↔◌}
use my_exercise.Prelude.Int.{ℤ}
use my_exercise.Bytes.{Memory}
use my_exercise.Tcpip.Route.{Netdev}
use my_exercise.Tcpip.Net.{Net, M, ok, arp_cache_sz, arp_state_free}
use my_exercise.Tcpip.Arp.{arp_request}
use my_exercise.Tcpip.ArpCache.Alloc.{Cache}
use my_exercise.Tcpip.ArpCache.Expiry.{IsQuiet, lifetime, timers, timers_lem}
use my_exercise.Tcpip.Device.{xmit}

module _ (tap_write : Memory → ℕ → ℤ) (fuel loop : ℕ) (junk : Memory) where
  -- What the interface sends with, and `arp_request` over it.
  abbrev pub send : Netdev → ℕ → M ℤ
  send = xmit tap_write (suc fuel) loop junk

  abbrev pub ask : ℕ → M ℤ
  ask = arp_request send junk

  -- Where every entry of the cache is free or resolved, no packet waits, and what is resolved has time left: with the
  -- timer once a second and no packet that refreshes an entry, `n` calls of the timer return, change nothing
  -- but the cache, and an entry is free after them exactly if its time was at most `n` seconds or it was free. The cache is
  -- again as was assumed.
  pub timers-free_iff :
      (n : ℕ) (s : Net)
      → ((j : ℕ) → j < arp_cache_sz → IsQuiet (s.arp_cache j))
      → (c : Cache) × (timers ask n s ≡ ok (tt, record s { arp_cache = c }))
        × ((j : ℕ)
            → j < arp_cache_sz
            → IsQuiet (c j) × (((c j).ae_state ≡ arp_state_free) ↔ (lifetime (s.arp_cache j) ≤ n)))
  timers-free_iff = timers_lem ask
