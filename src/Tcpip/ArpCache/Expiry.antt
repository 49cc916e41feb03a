-- ===== src/Tcpip/ArpCache/Expiry.antt =====
-- tcpip/arp/arp_cache.c: how long an entry stays in the cache when the timer runs once a second and no
-- packet comes to refresh it.
use my_exercise.Prelude.{
  ℕ, zero, suc, ◌-◌, ◌<◌, ◌≤◌, ◌≡◌, ◌⊎◌, ◌↔◌, ◌∙◌, refl, ap, if◌then◌else◌, ◌==◌, arith,
}
use my_exercise.Prelude.Int.{ℤ, pos, pos_part, ◌-ℤ◌, ◌≤ℤ◌}
use my_exercise.Tcpip.Net.{Arpentry, Net, M, ok, pure, ◌>>=◌, ◌>>◌, arp_cache_sz, arp_state_free}
use my_exercise.Tcpip.ArpCache.{arp_timer}
use my_exercise.Tcpip.ArpCache.Alloc.{Cache}
use my_exercise.Tcpip.ArpCache.Timer.{tick, IsIdle, tick-IsIdle, arp_timer-tick}

-- The entry is idle, and has time left if it is not free.
pub record IsQuiet (ae : Arpentry) : Type 0 where
  pub idle : IsIdle ae
  pub time : (ae.ae_state ≡ arp_state_free) ⊎ (pos 1 ≤ℤ ae.ae_ttl)

-- The seconds that an entry has left.
abbrev pub lifetime : Arpentry → ℕ
lifetime ae = if ae.ae_state == arp_state_free then 0 else pos_part ae.ae_ttl

tick-IsQuiet : (ae : Arpentry) → IsQuiet ae → IsQuiet (tick (pos 1) ae)
unfolding tick ◌-ℤ◌
tick-IsQuiet ae v = record { idle = tick-IsIdle (pos 1) ae v.idle; time = ground (arith, v.time) }

lifetime-tick : (ae : Arpentry) → IsQuiet ae → lifetime (tick (pos 1) ae) ≡ lifetime ae - 1
unfolding tick ◌-ℤ◌
lifetime-tick ae v = ground (arith, v.time)

lifetime-zero : (ae : Arpentry) → IsQuiet ae → (ae.ae_state ≡ arp_state_free) ↔ (lifetime ae ≡ 0)
lifetime-zero ae v = ground (arith, v.time)

module _ (arp_request : ℕ → M ℤ) where
  -- The timer, `n` times, with a second between.
  unfoldable pub timers : ℕ → M (Unit {0})
  timers zero = pure tt
  timers (suc n) = do arp_timer arp_request (pos 1); timers n

  pub timers_lem :
      (n : ℕ) (s : Net)
      → ((j : ℕ) → j < arp_cache_sz → IsQuiet (s.arp_cache j))
      → (c : Cache) × (timers n s ≡ ok (tt, record s { arp_cache = c }))
        × ((j : ℕ)
            → j < arp_cache_sz
            → IsQuiet (c j) × (((c j).ae_state ≡ arp_state_free) ↔ (lifetime (s.arp_cache j) ≤ n)))
  unfolding timers
  timers_lem zero s q = (
    s.arp_cache,
    refl,
    λ j l.
        let (there, back) = lifetime-zero (s.arp_cache j) (q j l) in
        (q j l, (λ h. omega (arith, there h), λ h. back (omega arith))),
  )
  timers_lem (suc n) s q =
      let (c, e, ticked) = arp_timer-tick arp_request (pos 1) s (λ j l. (q j l).idle) in
      let t : Net = record s { arp_cache = c } in
      let quiet : (j : ℕ) → j < arp_cache_sz → IsQuiet (c j) =
        λ j l. rw (ticked j l) (tick-IsQuiet (s.arp_cache j) (q j l)) in
      let (d, e', free_iff) = timers_lem n t quiet in
      (
        d,
        rw (e, ◌>>=◌) e',
        λ j l.
            let (still, (there, back)) = free_iff j l in
            let left : lifetime (c j) ≡ lifetime (s.arp_cache j) - 1 =
              ap lifetime (ticked j l) ∙ lifetime-tick (s.arp_cache j) (q j l) in
            (still, (λ h. omega (arith, there h, left), λ h. back (omega (arith, left)))),
      )
