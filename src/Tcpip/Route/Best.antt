-- ===== src/Tcpip/Route/Best.antt =====
-- tcpip/ip/route.c: `rt_lookup` in a table that `rt_add` has built is the longest match.
use my_exercise.Prelude.{
  ℕ, ◌≤◌, ◌≡◌, List, [], ◌∷◌, true, Option, none, some, arith, ltb, if◌then◌else◌, Option-cases,
  Bool-cases, inl, inr, ◌⊎◌,
}
use my_exercise.Tcpip.Route.{Rtentry, in_net, rt_lookup, rt_add}
use my_exercise.Tcpip.Route.Order.{IsBelow, IsDescending}

-- Which of two matches for an address counts: the new one, unless that found so far has a greater netmask.
unfoldable pub better : Rtentry → Option Rtentry → Rtentry
better rt none = rt
better rt (some rte) = if ltb rt.rt_netmask rte.rt_netmask then rte else rt

-- Every match is an entry of the table.
lookup_below :
    (m : ℕ) (table : List Rtentry) (ip : ℕ) (rt : Rtentry)
    → IsBelow m table
    → rt_lookup table ip ≡ some rt
    → rt.rt_netmask ≤ m
unfolding rt_lookup
lookup_below m [] ip rt b e = ground arith
lookup_below m (rte ∷ table) ip rt b e = ground (arith, lookup_below m table ip rt)

-- After a route is added to a table in descending order of the netmasks, the lookup of an address finds
-- the new route if the address is in its net and no match before had a greater netmask, and what it found
-- before otherwise.
pub rt_lookup-rt_add :
    (rt : Rtentry) (table : List Rtentry) (ip : ℕ)
    → IsDescending table
    → rt_lookup (rt_add rt table) ip
      ≡ (if in_net rt ip then some (better rt (rt_lookup table ip)) else rt_lookup table ip)
unfolding rt_lookup rt_add better
rt_lookup-rt_add rt [] ip d = ground arith
rt_lookup-rt_add rt (rte ∷ table) ip d = elim (Option-cases (rt_lookup table ip)) [
  | inl e ↦ ground (arith, e, rt_lookup-rt_add rt table ip d.1)
  | inr (found, e) ↦
      let below : found.rt_netmask ≤ rte.rt_netmask =
        lookup_below rte.rt_netmask table ip found d.0 e in
      ground (arith, e, below, rt_lookup-rt_add rt table ip d.1)
]

abbrev pub IsEntry : Rtentry → List Rtentry → Type 0
IsEntry rt [] = ⊥
IsEntry rt (rte ∷ table) = (rt ≡ rte) ⊎ IsEntry rt table

entry_below :
    (m : ℕ) (table : List Rtentry) (rt : Rtentry)
    → IsBelow m table
    → IsEntry rt table
    → rt.rt_netmask ≤ m
entry_below m [] rt b h = absurd h
entry_below m (rte ∷ table) rt b (inl e) = ground (arith, e)
entry_below m (rte ∷ table) rt b (inr h) = entry_below m table rt b.1 h

-- If any entry of a table in descending order matches an address, the lookup finds an entry that
-- matches, with a netmask at least as great.
pub rt_lookup-best :
    (table : List Rtentry) (ip : ℕ) (rt : Rtentry)
    → IsDescending table
    → IsEntry rt table
    → in_net rt ip ≡ true
    → (best : Rtentry) × (rt_lookup table ip ≡ some best)
      × (in_net best ip ≡ true)
      × (rt.rt_netmask ≤ best.rt_netmask)
unfolding rt_lookup
rt_lookup-best [] ip rt d h e = absurd h
rt_lookup-best (rte ∷ table) ip rt d (inl same) e =
    (rte, ground (arith, e, same), ground (arith, e, same), ground (arith, same))
rt_lookup-best (rte ∷ table) ip rt d (inr h) e = elim (Bool-cases (in_net rte ip)) [
  | inl y ↦ (rte, ground (arith, y), y, entry_below rte.rt_netmask table rt d.0 h)
  | inr n ↦
      let (best, found, match, above) = rt_lookup-best table ip rt d.1 h e in
      (best, ground (arith, n, found), match, above)
]
