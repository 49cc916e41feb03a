-- ===== src/Tcpip/ArpCache/Alloc.antt =====
-- tcpip/arp/arp_cache.c: what `arp_entry_alloc` and `arp_cache_lookup` find.
use my_exercise.Prelude.{
  ℕ, zero, suc, ◌+◌, ◌-◌, ◌%◌, ◌<◌, ◌≤◌, ◌≡◌, ◌≢◌, ◌↔◌, ◌∙◌, inl, inr, refl, ap, none, some, Bool,
  true, false, arith, dec_lt, ℕ_discrete, Bool-cases,
}
use my_exercise.Tcpip.Net.{Arpentry, Net, ok, update, arp_cache_sz, arp_state_free}
use my_exercise.Tcpip.ArpCache.{
  free_entry, waiting_entry, arp_entry_alloc, entry_matches, lookup_loop,
}

abbrev pub Cache : Type 0
Cache = ℕ → Arpentry

abbrev pub IsFreeEntry : Cache → ℕ → Type 0
IsFreeEntry cache i = (cache i).ae_state ≡ arp_state_free

-- What a search of `k` entries from `next` on tells.
data Searched (k : ℕ) (cache : Cache) (next : ℕ) : Type 0 where
  met :
      (i : ℕ)
      → i < arp_cache_sz
      → IsFreeEntry cache i
      → free_entry k cache next ≡ (true, i)
      → Searched k cache next
  missed :
      ((d : ℕ) → d < k → ¬ IsFreeEntry cache ((next + d) % arp_cache_sz))
      → free_entry k cache next ≡ (false, (next + k) % arp_cache_sz)
      → Searched k cache next

taken_later :
    (k : ℕ) (cache : Cache) (next : ℕ)
    → next < arp_cache_sz
    → ¬ IsFreeEntry cache next
    → ((d : ℕ) → d < k → ¬ IsFreeEntry cache (((next + 1) % arp_cache_sz + d) % arp_cache_sz))
    → (d : ℕ) → d < suc k
    → ¬ IsFreeEntry cache ((next + d) % arp_cache_sz)
taken_later k cache next l taken rest zero h =
    let here : (next + 0) % arp_cache_sz ≡ next = omega arith in rw here taken
taken_later k cache next l taken rest (suc d) h =
    let here : (next + suc d) % arp_cache_sz ≡ ((next + 1) % arp_cache_sz + d) % arp_cache_sz =
      omega arith in
    rw here (rest d (omega arith))

Searched-later :
    (k : ℕ) (cache : Cache) (next : ℕ)
    → next < arp_cache_sz
    → ¬ IsFreeEntry cache next
    → Searched k cache ((next + 1) % arp_cache_sz)
    → Searched (suc k) cache next
unfolding free_entry
Searched-later k cache next l taken (met i h free e) = met i h free (ground (arith, e))
Searched-later k cache next l taken (missed rest e) =
    let there : ((next + 1) % arp_cache_sz + k) % arp_cache_sz ≡ (next + suc k) % arp_cache_sz =
      omega arith in
    missed (taken_later k cache next l taken rest) (ground (arith, e, there))

free_entry-Searched :
    (k : ℕ) (cache : Cache) (next : ℕ) → next < arp_cache_sz → Searched k cache next
unfolding free_entry
free_entry-Searched zero cache next l =
    let here : next ≡ (next + 0) % arp_cache_sz = omega arith in
    missed (λ d h. absurd (omega arith)) (ground (arith, here))
free_entry-Searched (suc k) cache next l = elim (ℕ_discrete (cache next).ae_state arp_state_free) [
  | yes free ↦ met next l free (ground arith)
  | no taken ↦
      Searched-later k cache next l taken
        (free_entry-Searched k cache ((next + 1) % arp_cache_sz) (omega arith))
]

-- `arp_entry_alloc` takes a free entry, which then waits, if there is one; else it tells so and the cache
-- and its variable are as before.
pub data Allocated (s : Net) : Type 0 where
  taken :
      (i : ℕ)
      → i < arp_cache_sz
      → IsFreeEntry s.arp_cache i
      → arp_entry_alloc s
        ≡ ok (
          some i,
          record s {
            arp_cache = update s.arp_cache i (waiting_entry (s.arp_cache i));
            next = (i + 1) % arp_cache_sz;
          },
        )
      → Allocated s
  full :
      ((i : ℕ) → i < arp_cache_sz → ¬ IsFreeEntry s.arp_cache i)
      → arp_entry_alloc s ≡ ok (none, s)
      → Allocated s

all_around :
    (cache : Cache) (next : ℕ)
    → next < arp_cache_sz
    → ((d : ℕ) → d < arp_cache_sz → ¬ IsFreeEntry cache ((next + d) % arp_cache_sz))
    → (i : ℕ) → i < arp_cache_sz
    → ¬ IsFreeEntry cache i
all_around cache next l rest i h =
    let d : ℕ = (i + arp_cache_sz - next) % arp_cache_sz in
    let here : (next + d) % arp_cache_sz ≡ i = omega arith in rw here at (rest d (omega arith))

allocated :
    (s : Net) → s.next < arp_cache_sz → Searched arp_cache_sz s.arp_cache s.next → Allocated s
unfolding arp_entry_alloc
allocated s l (met i h free e) = taken i h free (rw e refl)
allocated s l (missed rest e) =
    let back : (s.next + arp_cache_sz) % arp_cache_sz ≡ s.next = omega arith in
    full (all_around s.arp_cache s.next l rest) (rw e (rw back refl))

pub arp_entry_alloc-Allocated : (s : Net) → s.next < arp_cache_sz → Allocated s
arp_entry_alloc-Allocated s l =
    allocated s l (free_entry-Searched arp_cache_sz s.arp_cache s.next l)

-- What a lookup from entry `i` on, over `k` entries, tells.
pub data Looked (k : ℕ) (cache : Cache) (pro ip i : ℕ) : Type 0 where
  hit :
      (j : ℕ)
      → i ≤ j
      → j < i + k
      → entry_matches pro ip (cache j) ≡ true
      → ((m : ℕ) → i ≤ m → m < j → entry_matches pro ip (cache m) ≡ false)
      → lookup_loop k cache pro ip i ≡ some j
      → Looked k cache pro ip i
  miss :
      ((m : ℕ) → i ≤ m → m < i + k → entry_matches pro ip (cache m) ≡ false)
      → lookup_loop k cache pro ip i ≡ none
      → Looked k cache pro ip i

from_here :
    (f : ℕ → Bool) (i b : ℕ)
    → f i ≡ false
    → ((m : ℕ) → i + 1 ≤ m → m < b → f m ≡ false)
    → (m : ℕ) → i ≤ m
    → m < b
    → f m ≡ false
from_here f i b n rest m l h = elim (dec_lt i m) [
  | yes above ↦ rest m (omega arith) h
  | no here ↦ ap f (omega arith) ∙ n
]

Looked-later :
    (k : ℕ) (cache : Cache) (pro ip i : ℕ)
    → entry_matches pro ip (cache i) ≡ false
    → Looked k cache pro ip (i + 1)
    → Looked (suc k) cache pro ip i
unfolding lookup_loop
Looked-later k cache pro ip i n (hit j l h m before e) =
    hit j (omega arith) (omega arith) m
      (from_here (λ a. entry_matches pro ip (cache a)) i j n before) (ground (arith, n, e))
Looked-later k cache pro ip i n (miss before e) =
    miss
      (λ m l h.
        from_here (λ a. entry_matches pro ip (cache a)) i (i + suc k) n
          (λ a p q. before a p (omega arith)) m l h)
      (ground (arith, n, e))

pub lookup_loop-Looked : (k : ℕ) (cache : Cache) (pro ip i : ℕ) → Looked k cache pro ip i
unfolding lookup_loop
lookup_loop-Looked zero cache pro ip i = miss (λ m l h. absurd (omega arith)) refl
lookup_loop-Looked (suc k) cache pro ip i = elim (Bool-cases (entry_matches pro ip (cache i))) [
  | inl y ↦ hit i (omega arith) (omega arith) y (λ m l h. absurd (omega arith)) (ground (arith, y))
  | inr n ↦ Looked-later k cache pro ip i n (lookup_loop-Looked k cache pro ip (i + 1))
]

-- An entry matches where it is not free and has the protocol and the address.
pub entry_matches_iff :
    (pro ip : ℕ) (ae : Arpentry)
    → (entry_matches pro ip ae ≡ true)
      ↔ ((ae.ae_state ≢ arp_state_free) × (ae.ae_pro ≡ pro) × (ae.ae_ipaddr ≡ ip))
unfolding entry_matches
entry_matches_iff pro ip ae = ground arith
