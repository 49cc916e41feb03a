-- ===== src/Tcpip/Arp/Learn.antt =====
-- tcpip/arp/arp.c: what `arp_recv` learns of the sender, where no packet waits in the cache.
use my_exercise.Prelude.{
  ℕ, ◌+◌, ◌<◌, ◌≡◌, ◌≢◌, ◌⊎◌, ◌∙◌, refl, ap, Option, none, some, true, false, [], arith, inl, inr,
  ◌==◌, Bool-cases, ℕ_discrete,
}
use my_exercise.Prelude.Int.{ℤ}
use my_exercise.Bytes.{Memory, load32, memcpy}
use my_exercise.Tcpip.Route.{Netdev}
use my_exercise.Tcpip.Checksum.{load16}
use my_exercise.Tcpip.Net.{
  Arpentry, Net, M, ok, ◌>>=◌, ◌>>◌, update, put_entry, arp_cache_sz, arp_state_waiting,
  arp_state_resolved,
}
use my_exercise.Tcpip.ArpCache.{arp_cache_lookup, entry_matches, arp_queue_send, send_loop}
use my_exercise.Tcpip.ArpCache.Alloc.{
  Cache, IsFreeEntry, hit, miss, lookup_loop-Looked, entry_matches_iff,
}
use my_exercise.Tcpip.ArpCache.Insert.{
  IsUnique, lookup_only, Inserted, stored, no_room, arp_cache_insert-Inserted,
}
use my_exercise.Tcpip.Arp.{
  arp_op_request, arp_protype, arp_opcode, arp_smac, arp_sip, refreshed_entry, update_entry, learn,
}

-- No packet waits at any entry.
abbrev pub IsDrained : Cache → Type 0
IsDrained cache = (i : ℕ) → (cache i).ae_list ≡ []

-- A lookup of the sender of the packet `p` finds a resolved entry with its hardware address.
abbrev pub Knows : Cache → Memory → Type 0
Knows cache p =
    (i : ℕ) × (arp_cache_lookup cache (load16 p arp_protype) (load32 p arp_sip) ≡ some i)
    × ((cache i).ae_state ≡ arp_state_resolved)
    × ((k : ℕ) → k < 6 → (cache i).ae_hwaddr k ≡ p (arp_smac + k))

-- An entry with the hardware address of the sender.
abbrev known_entry : Memory → Arpentry → Arpentry
known_entry p ae = record ae { ae_hwaddr = memcpy ae.ae_hwaddr 0 p arp_smac 6 }

abbrev refreshed_cache : Memory → ℕ → Cache → Cache
refreshed_cache p i cache =
    let known = update cache i (known_entry p (cache i)) in
    update known i (refreshed_entry (known i))

drained_send :
    (xmit : Netdev → ℕ → M ℤ) (i : ℕ) (s : Net)
    → (s.arp_cache i).ae_list ≡ []
    → arp_queue_send xmit i s ≡ ok (tt, s)
unfolding arp_queue_send send_loop
drained_send xmit i s e = rw (e, ◌>>=◌) refl

module _ (xmit : Netdev → ℕ → M ℤ) (junk : Memory) where
  update_entry_lem :
      (i : ℕ) (p : Memory) (s : Net)
      → (s.arp_cache i).ae_list ≡ []
      → update_entry xmit junk i p s
        ≡ ok (tt, record s { arp_cache = refreshed_cache p i s.arp_cache })
  unfolding update_entry put_entry
  update_entry_lem i p s e =
      let t = record s { arp_cache = update s.arp_cache i (known_entry p (s.arp_cache i)) } in
      let still : (t.arp_cache i).ae_list ≡ [] = ap (λ x. x.ae_list) same ∙ e in
      elim (Bool-cases ((s.arp_cache i).ae_state == arp_state_waiting)) [
        | inl y ↦ rw (y, drained_send xmit i t still, ◌>>=◌, ◌>>◌) refl
        | inr n ↦ rw (n, ◌>>=◌, ◌>>◌) refl
      ]
    where
      same : update s.arp_cache i (known_entry p (s.arp_cache i)) i ≡ known_entry p (s.arp_cache i)
      same = ground arith

refreshed-IsUnique :
    (p : Memory) (i : ℕ) (cache : Cache)
    → ¬ IsFreeEntry cache i
    → IsUnique cache
    → IsUnique (refreshed_cache p i cache)
unfolding refreshed_entry
refreshed-IsUnique p i cache used u a b la lb fa fb pro ip = ground (arith, used, u a b la lb)

-- The entry that the lookup finds.
found_entry :
    (cache : Cache) (pro ip i : ℕ)
    → arp_cache_lookup cache pro ip ≡ some i
    → (i < arp_cache_sz) × (entry_matches pro ip (cache i) ≡ true)
unfolding arp_cache_lookup
found_entry cache pro ip i e = elim (lookup_loop-Looked arp_cache_sz cache pro ip 0) [
  | hit j a b m before e' ↦ let same : j ≡ i = ground (arith, e, e') in rw (← same) (omega arith, m)
  | miss before e' ↦ absurd (cc (e, e'))
]

refreshed-Knows :
    (p : Memory) (i : ℕ) (cache : Cache)
    → IsUnique cache
    → arp_cache_lookup cache (load16 p arp_protype) (load32 p arp_sip) ≡ some i
    → Knows (refreshed_cache p i cache) p
unfolding refreshed_entry memcpy
refreshed-Knows p i cache u e =
    let pro = load16 p arp_protype in
    let ip = load32 p arp_sip in
    let (l, m) = found_entry cache pro ip i e in
    let (used, same_pro, same_ip) = (entry_matches_iff pro ip (cache i)).0 m in
    let c = refreshed_cache p i cache in
    let fits : (¬ IsFreeEntry c i) × ((c i).ae_pro ≡ pro) × ((c i).ae_ipaddr ≡ ip) =
      ground (arith, same_pro, same_ip) in
    (
      i,
      lookup_only c pro ip i (refreshed-IsUnique p i cache used u) l
          ((entry_matches_iff pro ip (c i)).1 fits),
      ground arith,
      λ k h. ground (arith, h),
    )

-- What is known after `learn`: the sender, or the packet is no request or no entry is free, and the cache is as before.
abbrev pub Learned : Cache → Memory → Cache → Type 0
Learned before p after =
    Knows after p
    ⊎ (((j : ℕ) → after j ≡ before j)
        × ((load16 p arp_opcode ≢ arp_op_request)
            ⊎ ((j : ℕ) → j < arp_cache_sz → ¬ IsFreeEntry before j)))

module _ (xmit : Netdev → ℕ → M ℤ) (junk : Memory) (dev : Netdev) (p : Memory) (s : Net) where
  -- `learn` returns, and changes nothing but the cache and its variable.
  abbrev Learns : Type 0
  Learns =
      (after : Cache) × (next : ℕ) × (learn xmit junk dev p s
        ≡ ok (tt, record s { arp_cache = after; next = next }))
      × Learned s.arp_cache p after

  learns_new :
      arp_cache_lookup s.arp_cache (load16 p arp_protype) (load32 p arp_sip) ≡ none
      → load16 p arp_opcode ≡ arp_op_request
      → Inserted dev (load16 p arp_protype) (load32 p arp_sip) p arp_smac s
      → Learns
  unfolding learn
  learns_new e r (no_room none_free ins) =
      (s.arp_cache, s.next, rw (e, r, ins, ◌>>=◌, ◌>>◌) refl, inr (λ j. refl, inr none_free))
  learns_new e r (stored i after next ins free found resolved hw others u) =
      (after, next, rw (e, r, ins, ◌>>=◌, ◌>>◌) refl, inl (i, found, resolved, hw))

  learns_found :
      (i : ℕ)
      → IsDrained s.arp_cache
      → IsUnique s.arp_cache
      → arp_cache_lookup s.arp_cache (load16 p arp_protype) (load32 p arp_sip) ≡ some i
      → Learns
  unfolding learn
  learns_found i d u e = (
    refreshed_cache p i s.arp_cache,
    s.next,
    rw (e, ◌>>=◌, ◌>>◌) (update_entry_lem xmit junk i p s (d i)),
    inl (refreshed-Knows p i s.arp_cache u e),
  )

  learns_none :
      s.next < arp_cache_sz
      → IsUnique s.arp_cache
      → arp_cache_lookup s.arp_cache (load16 p arp_protype) (load32 p arp_sip) ≡ none
      → Learns
  unfolding learn
  learns_none l u e = elim (ℕ_discrete (load16 p arp_opcode) arp_op_request) [
    | yes r ↦
        learns_new e r (
          arp_cache_insert-Inserted dev (load16 p arp_protype) (load32 p arp_sip) p arp_smac s l u
            e)
    | no n ↦
        let other : (load16 p arp_opcode == arp_op_request) ≡ false = ground (arith, n) in
        (s.arp_cache, s.next, rw (e, other, ◌>>=◌, ◌>>◌) refl, inr (λ j. refl, inl n))
  ]

  pub learn-Learned : s.next < arp_cache_sz → IsDrained s.arp_cache → IsUnique s.arp_cache → Learns
  learn-Learned l d u =
      by_lookup (arp_cache_lookup s.arp_cache (load16 p arp_protype) (load32 p arp_sip)) refl
    where
      by_lookup :
          (found : Option ℕ)
          → arp_cache_lookup s.arp_cache (load16 p arp_protype) (load32 p arp_sip) ≡ found
          → Learns
      by_lookup none e = learns_none l u e
      by_lookup (some i) e = learns_found i d u e
