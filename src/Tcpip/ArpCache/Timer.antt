-- ===== src/Tcpip/ArpCache/Timer.antt =====
-- tcpip/arp/arp_cache.c: `arp_timer` on a cache whose entries are free or resolved with no packet waiting, as
-- `arp_cache_init` and `arp_cache_insert` leave them.
use my_exercise.Prelude.{
  ℕ, zero, suc, ◌+◌, ◌<◌, ◌≤◌, ◌≡◌, ◌⊎◌, ◌∙◌, refl, ap, [], if◌then◌else◌, ◌==◌, arith, inl, inr,
  Bool-cases, ℕ_discrete,
}
use my_exercise.Prelude.Int.{ℤ, pos, ◌-ℤ◌, leb_ℤ}
use my_exercise.Tcpip.Net.{
  Arpentry, Net, M, ok, ◌>>=◌, put_entry, arp_cache_sz, arp_state_free, arp_state_resolved,
}
use my_exercise.Tcpip.ArpCache.{entry_expires, timer_entry, timer_loop, arp_timer}
use my_exercise.Tcpip.ArpCache.Alloc.{Cache}

-- What the timer makes of an entry that is free or resolved.
unfoldable pub tick : ℤ → Arpentry → Arpentry
tick delta ae =
    let aged = record ae { ae_ttl = ae.ae_ttl -ℤ delta } in
    if ae.ae_state == arp_state_free
    then ae
    else if leb_ℤ aged.ae_ttl (pos 0)
    then record aged { ae_state = arp_state_free }
    else aged

-- No packet waits at the entry, and it is free or resolved.
pub record IsIdle (ae : Arpentry) : Type 0 where
  pub none_wait : ae.ae_list ≡ []
  pub state : (ae.ae_state ≡ arp_state_free) ⊎ (ae.ae_state ≡ arp_state_resolved)

pub tick-IsIdle : (delta : ℤ) (ae : Arpentry) → IsIdle ae → IsIdle (tick delta ae)
unfolding tick
tick-IsIdle delta ae v = ground arith

-- The step returns, and changes entry `i` of the cache and nothing else.
abbrev Sets : M (Unit {0}) → Net → ℕ → Arpentry → Type 0
Sets m s i ae =
    (c : Cache) × (m s ≡ ok (tt, record s { arp_cache = c }))
    × ((j : ℕ) → c j ≡ (if j == i then ae else s.arp_cache j))

module _ (arp_request : ℕ → M ℤ) where
  expires_lem :
      (i : ℕ) (ae : Arpentry) (s : Net)
      → ae.ae_state ≡ arp_state_resolved
      → Sets (entry_expires arp_request i ae) s i (record ae { ae_state = arp_state_free })
  unfolding entry_expires put_entry
  expires_lem i ae s e = rw e (_, refl, λ j. refl)

  timer_entry_lem :
      (delta : ℤ) (i : ℕ) (s : Net)
      → IsIdle (s.arp_cache i)
      → Sets (timer_entry arp_request delta i) s i (tick delta (s.arp_cache i))
  unfolding timer_entry put_entry tick
  timer_entry_lem delta i s idle = elim (Bool-cases ((s.arp_cache i).ae_state == arp_state_free)) [
    | inl y ↦ rw y (s.arp_cache, refl, λ j. ground arith)
    | inr n ↦ elim (Bool-cases (leb_ℤ ((s.arp_cache i).ae_ttl -ℤ delta) (pos 0))) [
      | inl due ↦
          rw (n, due)
            (expires_lem i (record (s.arp_cache i) { ae_ttl = (s.arp_cache i).ae_ttl -ℤ delta }) s
              (elim idle.state [ inl free ↦ absurd (ground arith) | inr resolved ↦ resolved ]))
      | inr later ↦ rw (n, later) (_, refl, λ j. refl)
    ]
  ]

  after_tick :
      (i : ℕ) (delta : ℤ) (s : Net) (j : ℕ)
      → IsIdle (s.arp_cache j)
      → IsIdle (s.arp_cache i)
      → IsIdle (if j == i then tick delta (s.arp_cache i) else s.arp_cache j)
  after_tick i delta s j e e' = elim (Bool-cases (j == i)) [
    | inl y ↦ rw y (tick-IsIdle delta (s.arp_cache i) e')
    | inr n ↦ rw n e
  ]

  timer_loop_lem :
      (k : ℕ) (delta : ℤ) (i : ℕ) (s : Net)
      → ((j : ℕ) → j < i + k → IsIdle (s.arp_cache j))
      → (c : Cache) × (timer_loop arp_request k delta i s ≡ ok (tt, record s { arp_cache = c }))
        × ((j : ℕ) → j < i → c j ≡ s.arp_cache j)
        × ((j : ℕ) → i ≤ j → j < i + k → c j ≡ tick delta (s.arp_cache j))
  unfolding timer_loop
  timer_loop_lem zero delta i s idle =
      (s.arp_cache, refl, λ j l. refl, λ j l h. absurd (omega arith))
  timer_loop_lem (suc k) delta i s idle =
      let (c, e, set) = timer_entry_lem delta i s (idle i (omega arith)) in
      let t : Net = record s { arp_cache = c } in
      let still : (j : ℕ) → j < i + 1 + k → IsIdle (c j) =
        λ j l. rw (set j) (after_tick i delta s j (idle j (omega arith)) (idle i (omega arith))) in
      let (d, e', before, behind) = timer_loop_lem k delta (i + 1) t still in
      (
        d,
        rw (e, ◌>>=◌) e',
        λ j l. before j (omega arith) ∙ set j ∙ ground arith,
        λ j l h. elim (ℕ_discrete j i) [
          | yes here ↦ before j (omega arith) ∙ set j ∙ ground (arith, here)
          | no there ↦
              behind j (omega arith) (omega arith) ∙ ap (tick delta) (set j ∙ ground (arith, there))
        ],
      )

  -- `arp_timer` ends, ticks every entry of the cache and changes nothing else.
  pub arp_timer-tick :
      (delta : ℤ) (s : Net)
      → ((j : ℕ) → j < arp_cache_sz → IsIdle (s.arp_cache j))
      → (c : Cache) × (arp_timer arp_request delta s ≡ ok (tt, record s { arp_cache = c }))
        × ((j : ℕ) → j < arp_cache_sz → c j ≡ tick delta (s.arp_cache j))
  unfolding arp_timer
  arp_timer-tick delta s idle =
      let (c, e, before, behind) = timer_loop_lem arp_cache_sz delta 0 s idle in
      (c, e, λ j l. behind j (omega arith) l)
