-- ===== src/WorkThread/List/Reverse.antt =====
-- workthread/list.h: `ListReverse` on a ring of links reverses the list that it stands for.
use my_exercise.Prelude.{
  ℕ, zero, suc, ◌<◌, ◌≡◌, ap, ◌∙◌, refl, Bool, true, false, ◌==◌, if◌then◌else◌, some, List, [],
  ◌∷◌, ◌++◌, arith, length, ℕ_discrete,
}
use my_exercise.Tcpip.Links.{Links}
use my_exercise.Tcpip.Links.Ring.{
  Misses, IsDistinct, IsChain, IsRing, Misses-append, IsDistinct-append, IsChain-join,
}
use my_exercise.WorkThread.List.{swap_links, reverse_loop, list_reverse}

abbrev pub reverse : List ℕ → List ℕ
reverse [] = []
reverse (x ∷ xs) = reverse xs ++ x ∷ []

abbrev mem : ℕ → List ℕ → Bool
mem j [] = false
mem j (x ∷ xs) = if j == x then true else mem j xs

-- `next` leads from `a` through the elements to `b`.
abbrev Leads : Links → ℕ → List ℕ → ℕ → Type 0
Leads h a [] b = h.next a ≡ b
Leads h a (x ∷ xs) b = (h.next a ≡ x) × Leads h x xs b

chain-Leads : (h : Links) (a : ℕ) (xs : List ℕ) (b : ℕ) → IsChain h a xs b → Leads h a xs b
chain-Leads h a [] b k = k.0
chain-Leads h a (x ∷ xs) b k = (k.0, chain-Leads h x xs b k.2)

-- The links of `g` are those of `h`, swapped at the nodes of a list.
abbrev IsSwapped : Links → Links → List ℕ → Type 0
IsSwapped h g zs =
    (j : ℕ)
    → (g.next j ≡ (if mem j zs then h.prev j else h.next j))
      × (g.prev j ≡ (if mem j zs then h.next j else h.prev j))

mem-Misses : (a : ℕ) (xs : List ℕ) → Misses a xs → mem a xs ≡ false
mem-Misses a [] m = refl
mem-Misses a (x ∷ xs) m = ground (arith, mem-Misses a xs m.1)

Leads-swap :
    (h : Links) (c a : ℕ) (xs : List ℕ) (b : ℕ)
    → Misses c (a ∷ xs)
    → Leads h a xs b
    → Leads (swap_links c h) a xs b
unfolding swap_links
Leads-swap h c a [] b m k = ground arith
Leads-swap h c a (x ∷ xs) b m k = (ground arith, Leads-swap h c x xs b m.1 k.1)

IsSwapped-cons :
    (h u : Links) (a : ℕ) (zs : List ℕ)
    → mem a zs ≡ false
    → IsSwapped (swap_links a h) u zs
    → IsSwapped h u (a ∷ zs)
unfolding swap_links
IsSwapped-cons h u a zs off sw j = elim (ℕ_discrete j a) [
  | yes here ↦
      let off' : mem j zs ≡ false = rw here off in
      ((sw j).0 ∙ ground (arith, here, off'), (sw j).1 ∙ ground (arith, here, off'))
  | no there ↦ ((sw j).0 ∙ ground (arith, there), (sw j).1 ∙ ground (arith, there))
]

IsSwapped-from :
    (fuel head a : ℕ) (xs : List ℕ) (h : Links)
    → Leads h a xs head
    → Misses head xs
    → IsDistinct (a ∷ xs)
    → length xs < fuel
    → (node : ℕ) × (g : Links) × (reverse_loop fuel head a h ≡ some (node, g))
      × IsSwapped h (swap_links node g) (a ∷ xs)
unfolding reverse_loop
IsSwapped-from zero head a xs h k m d l = absurd (omega arith)
IsSwapped-from (suc fuel) head a [] h k m d l =
    let stop : (h.next a == head) ≡ true = ground (arith, k) in
    (a, h, rw stop refl, IsSwapped-cons h (swap_links a h) a [] refl (λ j. (refl, refl)))
IsSwapped-from (suc fuel) head a (x ∷ xs) h k m d l =
    let (node, g, e, sw) =
      IsSwapped-from fuel head x xs (swap_links a h) (Leads-swap h a x xs head d.0 k.1) m.1 d.1
        (omega arith) in
    let off : mem a (x ∷ xs) ≡ false = mem-Misses a (x ∷ xs) d.0 in
    let on : (h.next a == head) ≡ false = ground (arith, k.0, m.0) in
    let step : reverse_loop fuel head (h.next a) (swap_links a h) ≡ some (node, g) =
      ap (λ v. reverse_loop fuel head v (swap_links a h)) k.0 ∙ e in
    (node, g, rw (on, step) refl, IsSwapped-cons h (swap_links node g) a (x ∷ xs) off sw)

-- A chain whose links are swapped leads the other way.
IsChain-swapped :
    (h g : Links) (a : ℕ) (xs : List ℕ) (b : ℕ)
    → IsChain h a xs b
    → ((j : ℕ) → mem j (b ∷ xs) ≡ true → g.next j ≡ h.prev j)
    → ((j : ℕ) → mem j (a ∷ xs) ≡ true → g.prev j ≡ h.next j)
    → IsChain g b (reverse xs) a
IsChain-swapped h g a [] b k n p = (n b (ground arith) ∙ k.1, p a (ground arith) ∙ k.0)
IsChain-swapped h g a (x ∷ xs) b k n p =
    IsChain-join g b (reverse xs) x [] a
      (IsChain-swapped h g x xs b k.2 (λ j o. n j (ground (arith, o)))
        (λ j o. p j (ground (arith, o))))
      (n x (ground arith) ∙ k.1, p a (ground arith) ∙ k.0)

Misses-reverse : (a : ℕ) (xs : List ℕ) → Misses a xs → Misses a (reverse xs)
Misses-reverse a [] m = tt
Misses-reverse a (x ∷ xs) m =
    Misses-append a (reverse xs) (x ∷ []) (Misses-reverse a xs m.1) (m.0, tt)

IsDistinct-reverse : (xs : List ℕ) → IsDistinct xs → IsDistinct (reverse xs)
IsDistinct-reverse [] d = tt
IsDistinct-reverse (x ∷ xs) d =
    IsDistinct-append (reverse xs) x (IsDistinct-reverse xs d.1) (Misses-reverse x xs d.0)

-- On a ring that stands for a list, `ListReverse` ends, within as many rounds as there are elements and one more, and the ring then
-- stands for the list reversed.
pub list_reverse-IsRing :
    (h : Links) (head : ℕ) (xs : List ℕ) (fuel : ℕ)
    → IsRing h head xs
    → length xs < fuel
    → (g : Links) × (list_reverse fuel head h ≡ some g) × IsRing g head (reverse xs)
unfolding list_reverse
list_reverse-IsRing h head xs fuel r l =
    let (node, g, e, sw) =
      IsSwapped-from fuel head head xs h (chain-Leads h head xs head r.chain) r.distinct.0
        r.distinct l in
    let u = swap_links node g in
    (
      u,
      rw (list_reverse, e) refl,
      record {
        chain =
            IsChain-swapped h u head xs head r.chain (λ j o. (sw j).0 ∙ ground (arith, o))
              (λ j o. (sw j).1 ∙ ground (arith, o));
        distinct = (Misses-reverse head xs r.distinct.0, IsDistinct-reverse xs r.distinct.1);
      },
    )
