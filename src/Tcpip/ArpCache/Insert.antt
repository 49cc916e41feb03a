-- ===== src/Tcpip/ArpCache/Insert.antt =====
-- tcpip/arp/arp_cache.c: `arp_cache_insert` of an address that the cache does not hold.
use my_exercise.Prelude.{ℕ, ◌+◌, ◌%◌, ◌<◌, ◌≡◌, ◌≢◌, ◌∙◌, refl, sym, none, some, true, false, arith}
use my_exercise.Prelude.Int.{pos, negsuc}
use my_exercise.Bytes.{Memory, memcpy}
use my_exercise.Tcpip.Route.{Netdev}
use my_exercise.Tcpip.Net.{Net, ok, ◌>>=◌, update, arp_cache_sz, arp_state_resolved}
use my_exercise.Tcpip.ArpCache.{
  waiting_entry, resolved_entry, arp_cache_insert, entry_matches, arp_cache_lookup,
}
use my_exercise.Tcpip.ArpCache.Alloc.{
  Cache, IsFreeEntry, Allocated, taken, full, arp_entry_alloc-Allocated, Looked, hit, miss,
  lookup_loop-Looked, entry_matches_iff,
}

-- No two entries in use have the same protocol and address.
abbrev pub IsUnique : Cache → Type 0
IsUnique cache =
    (i j : ℕ)
    → i < arp_cache_sz
    → j < arp_cache_sz
    → ¬ IsFreeEntry cache i
    → ¬ IsFreeEntry cache j
    → (cache i).ae_pro ≡ (cache j).ae_pro
    → (cache i).ae_ipaddr ≡ (cache j).ae_ipaddr
    → i ≡ j

-- The lookup gives the entry in use that has the protocol and the address, or there is none.
pub lookup_only :
    (cache : Cache) (pro ip i : ℕ)
    → IsUnique cache
    → i < arp_cache_sz
    → entry_matches pro ip (cache i) ≡ true
    → arp_cache_lookup cache pro ip ≡ some i
unfolding arp_cache_lookup
lookup_only cache pro ip i u l m = found (lookup_loop-Looked arp_cache_sz cache pro ip 0)
  where
    here : (¬ IsFreeEntry cache i) × ((cache i).ae_pro ≡ pro) × ((cache i).ae_ipaddr ≡ ip)
    here = (entry_matches_iff pro ip (cache i)).0 m

    found : Looked arp_cache_sz cache pro ip 0 → arp_cache_lookup cache pro ip ≡ some i
    found (hit j a b match before e) =
        let there = (entry_matches_iff pro ip (cache j)).0 match in
        let same : j ≡ i = u j i b l there.0 here.0 (there.1 ∙ sym here.1) (there.2 ∙ sym here.2) in
        rw (← same) e
    found (miss before e) = absurd (cc (m, before i (omega arith) l))

lookup_none :
    (cache : Cache) (pro ip : ℕ)
    → arp_cache_lookup cache pro ip ≡ none
    → (j : ℕ) → j < arp_cache_sz
    → entry_matches pro ip (cache j) ≡ false
unfolding arp_cache_lookup
lookup_none cache pro ip e j l = none_found (lookup_loop-Looked arp_cache_sz cache pro ip 0)
  where
    none_found : Looked arp_cache_sz cache pro ip 0 → entry_matches pro ip (cache j) ≡ false
    none_found (hit i a b match before e') = absurd (cc (e, e'))
    none_found (miss before e') = before j (omega arith) l

-- What `arp_cache_insert` can do.
pub data Inserted (nd : Netdev) (pro ip : ℕ) (p : Memory) (o : ℕ) (s : Net) : Type 0 where
  stored :
      (i : ℕ) (after : Cache) (next : ℕ)
      → arp_cache_insert nd pro ip p o s ≡ ok (pos 0, record s { arp_cache = after; next = next })
      → IsFreeEntry s.arp_cache i
      → arp_cache_lookup after pro ip ≡ some i
      → (after i).ae_state ≡ arp_state_resolved
      → ((k : ℕ) → k < 6 → (after i).ae_hwaddr k ≡ p (o + k))
      → ((j : ℕ) → j ≢ i → after j ≡ s.arp_cache j)
      → IsUnique after
      → Inserted nd pro ip p o s
  no_room :
      ((i : ℕ) → i < arp_cache_sz → ¬ IsFreeEntry s.arp_cache i)
      → arp_cache_insert nd pro ip p o s ≡ ok (negsuc 0, s)
      → Inserted nd pro ip p o s

module _ (nd : Netdev) (pro ip : ℕ) (p : Memory) (o : ℕ) (s : Net) where
  -- The cache with entry `i` resolved.
  abbrev with_entry : ℕ → Cache
  with_entry i =
      let waiting = update s.arp_cache i (waiting_entry (s.arp_cache i)) in
      update waiting i (resolved_entry nd pro ip p o (waiting i))

  with_entry-IsUnique :
      (i : ℕ)
      → IsUnique s.arp_cache
      → ((j : ℕ) → j < arp_cache_sz → entry_matches pro ip (s.arp_cache j) ≡ false)
      → IsUnique (with_entry i)
  unfolding resolved_entry waiting_entry entry_matches
  with_entry-IsUnique i u fresh a b la lb fa fb same_pro same_ip =
      ground (arith, u a b la lb, fresh a, fresh b)

  with_entry_matches : (i : ℕ) → entry_matches pro ip (with_entry i i) ≡ true
  unfolding entry_matches resolved_entry
  with_entry_matches i = ground arith

  with_entry_hwaddr : (i k : ℕ) → k < 6 → (with_entry i i).ae_hwaddr k ≡ p (o + k)
  unfolding resolved_entry memcpy
  with_entry_hwaddr i k l = ground arith

  inserted :
      IsUnique s.arp_cache
      → arp_cache_lookup s.arp_cache pro ip ≡ none
      → Allocated s
      → Inserted nd pro ip p o s
  unfolding arp_cache_insert resolved_entry
  inserted u e (full none_free a) = no_room none_free (rw (a, ◌>>=◌) refl)
  inserted u e (taken i l free a) =
      let unique : IsUnique (with_entry i) =
        with_entry-IsUnique i u (lookup_none s.arp_cache pro ip e) in
      stored i (with_entry i) ((i + 1) % arp_cache_sz) (rw (a, ◌>>=◌) refl) free
        (lookup_only (with_entry i) pro ip i unique l (with_entry_matches i)) (ground arith)
        (with_entry_hwaddr i) (λ j n. ground arith) unique

-- On a cache that holds an address at most once, `arp_cache_insert` of one that it does not hold stores it in an
-- entry that was free, where a lookup finds it resolved and with the hardware address that was given, leaves
-- the other entries and the rest of the state, and again holds no address twice; or no entry is free, it fails, and changes nothing.
pub arp_cache_insert-Inserted :
    (nd : Netdev) (pro ip : ℕ) (p : Memory) (o : ℕ) (s : Net)
    → s.next < arp_cache_sz
    → IsUnique s.arp_cache
    → arp_cache_lookup s.arp_cache pro ip ≡ none
    → Inserted nd pro ip p o s
arp_cache_insert-Inserted nd pro ip p o s l u e =
    inserted nd pro ip p o s u e (arp_entry_alloc-Allocated s l)
