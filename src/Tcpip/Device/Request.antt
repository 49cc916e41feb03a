-- ===== src/Tcpip/Device/Request.antt =====
-- tcpip/arp/arp.c: `arp_request` writes behind the end of the buffer that it allocates.
use my_exercise.Prelude.{
  ℕ, ◌+◌, ◌-◌, ◌≡◌, refl, Option, none, some, arith, Bool, true, false, if◌then◌else◌, ltb,
}
use my_exercise.Prelude.Int.{ℤ}
use my_exercise.Bytes.{Memory}
use my_exercise.Tcpip.Route.{Netdev}
use my_exercise.Tcpip.Net.{
  Pkbuf, Net, M, Fault, dangling, too_many_pkbufs, overrun, ok, stops, ◌>>=◌, update, pkb_at,
  alloc_pkb, new_pkb, count_alloc, max_pkbs,
}
use my_exercise.Tcpip.Arp.{arp_request}

-- What a request for an entry of the interface `d` ends with, where the buffers have been counted.
abbrev pub request_fault : Option Netdev → Fault
request_fault none = dangling
request_fault (some dev) = overrun

-- The buffer that `alloc_pkb` gives.
abbrev fresh_pkb : Memory → ℕ → Pkbuf
fresh_pkb junk size = record {
  pk_pro = 0xffff;
  pk_type = 0;
  pk_len = size;
  pk_refcnt = 1;
  pk_indev = none;
  pk_rtdst = none;
  pk_room = size;
  pk_data = junk;
}

-- The state with that buffer.
abbrev allocated : Memory → ℕ → Net → Net
allocated junk size s = record s {
  pkbs = update s.pkbs s.fresh (some (fresh_pkb junk size));
  fresh = s.fresh + 1;
  alloc_pkbs = s.alloc_pkbs + 1;
}

alloc_pkb_lem :
    (junk : Memory) (size : ℕ) (s : Net) (full : Bool)
    → ltb max_pkbs (s.alloc_pkbs + 1 - s.free_pkbs) ≡ full
    → alloc_pkb junk size s
      ≡ (if full then stops too_many_pkbufs else ok (s.fresh, allocated junk size s))
unfolding alloc_pkb new_pkb count_alloc
alloc_pkb_lem junk size s true e = rw (e, ◌>>=◌) refl
alloc_pkb_lem junk size s false e = rw (e, ◌>>=◌) refl

module _ (xmit : Netdev → ℕ → M ℤ) (junk : Memory) where
  with_dev :
      (i : ℕ) (s : Net) (full : Bool) (d : Option Netdev)
      → ltb max_pkbs (s.alloc_pkbs + 1 - s.free_pkbs) ≡ full
      → (s.arp_cache i).ae_dev ≡ d
      → arp_request xmit junk i s ≡ stops (if full then too_many_pkbufs else request_fault d)
  unfolding arp_request pkb_at
  with_dev i s true d e has = rw (alloc_pkb_lem junk 22 s true e, ◌>>=◌) refl
  with_dev i s false none e has = rw (alloc_pkb_lem junk 22 s false e, ◌>>=◌, has) refl
  with_dev i s false (some dev) e has =
      let there : update s.pkbs s.fresh (some (fresh_pkb junk 22)) s.fresh
          ≡ some (fresh_pkb junk 22) =
        ground arith in
      rw (alloc_pkb_lem junk 22 s false e, ◌>>=◌, has, there) refl

  -- `arp_request` never returns properly, whatever the state and the entry: when `pkb_safe` finds more than
  -- 200 buffers in use, it ends the process; else the entry has no interface, a NULL pointer; else the packet of 42 bytes
  -- overruns the buffer of 22 that was allocated for it, before anything is sent.
  pub arp_request-overruns :
      (i : ℕ) (s : Net)
      → arp_request xmit junk i s
        ≡ stops (
            if ltb max_pkbs (s.alloc_pkbs + 1 - s.free_pkbs)
            then too_many_pkbufs
            else request_fault (s.arp_cache i).ae_dev)
  arp_request-overruns i s = with_dev i s _ _ refl refl
