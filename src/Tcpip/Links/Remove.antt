-- ===== src/Tcpip/Links/Remove.antt =====
-- tcpip/include/utils.h: `list_del` and `list_for_each` on a ring of links.
use my_exercise.Prelude.{ℕ, zero, suc, ◌<◌, ◌≡◌, ◌≢◌, List, [], ◌∷◌, ◌++◌, arith, length}
use my_exercise.Tcpip.Links.{Links, list_del, list_for_each}
use my_exercise.Tcpip.Links.Ring.{
  Misses, IsDistinct, IsChain, IsRing, Misses-append, Misses-split, frame, prev_of, IsChain-split,
  IsChain-join, retarget, IsDistinct-middle, IsDistinct-left, append-nil,
}

-- The element before `e` is none of those of a list that is disjoint from what stands before `e`.
prev-Misses :
    (h : Links) (a : ℕ) (xs : List ℕ) (e : ℕ) (zs : List ℕ)
    → IsChain h a xs e
    → IsDistinct (xs ++ zs)
    → Misses a zs
    → Misses (h.prev e) zs
prev-Misses h a xs e [] k d m = tt
prev-Misses h a xs e (z ∷ zs) k d m =
    let (out, behind, rest) = IsDistinct-middle xs z zs d in
    let other : z ≢ h.prev e = prev_of h a xs e z k (ground arith, out) in
    (ground arith, prev-Misses h a xs e zs k rest m.1)

module _ (h : Links) (head e : ℕ) (xs : List ℕ) where
  -- The part before the element, turned to what stands behind it.
  before_deleted :
      (ys : List ℕ) (n : ℕ)
      → IsRing h head (xs ++ e ∷ ys)
      → h.next e ≡ n
      → Misses n xs
      → IsChain (list_del e h) head xs n
  unfolding list_del
  before_deleted ys n r same m =
      let (l, k) = IsChain-split h head xs e ys head r.chain in
      let (out, behind) = Misses-split head xs (e ∷ ys) r.distinct.0 in
      let (apart, unused, rest) = IsDistinct-middle xs e ys r.distinct.1 in
      retarget h (list_del e h) head xs e n e n n l (out, IsDistinct-left xs (e ∷ ys) r.distinct.1)
        m m (ground arith) (ground arith) (λ j n o. ground arith) (λ j n o. ground arith)
        (ground arith, apart)

  del-IsChain :
      (ys : List ℕ) → IsRing h head (xs ++ e ∷ ys) → IsChain (list_del e h) head (xs ++ ys) head
  unfolding list_del
  del-IsChain [] r =
      let (l, k) = IsChain-split h head xs e [] head r.chain in
      let (out, behind) = Misses-split head xs (e ∷ []) r.distinct.0 in
      rw (append-nil xs) (before_deleted [] head r k.0 out)
  del-IsChain (y ∷ ys) r =
      let (l, k) = IsChain-split h head xs e (y ∷ ys) head r.chain in
      let (out, behind) = Misses-split head xs (e ∷ y ∷ ys) r.distinct.0 in
      let (apart, unused, d) = IsDistinct-middle xs e (y ∷ ys) r.distinct.1 in
      let (y_out, y_rest, rest) = IsDistinct-middle xs y ys d in
      let p = prev-Misses h head xs e (y ∷ ys) l d behind.1 in
      IsChain-join (list_del e h) head xs y ys head (before_deleted (y ∷ ys) y r k.0 y_out) (
        frame h (list_del e h) (h.prev e) (h.prev e) y y y ys head
          (record { same_next = λ j n o. ground arith; same_prev = λ j n o. ground arith }) p p
          (ground arith, y_rest) (ground arith, y_rest) k.2)

-- `list_del` of an element takes it out of the list, wherever it stands.
pub list_del-IsRing :
    (h : Links) (head e : ℕ) (xs ys : List ℕ)
    → IsRing h head (xs ++ e ∷ ys)
    → IsRing (list_del e h) head (xs ++ ys)
list_del-IsRing h head e xs ys r =
    let (out, behind) = Misses-split head xs (e ∷ ys) r.distinct.0 in
    record {
      chain = del-IsChain h head e xs ys r;
      distinct =
          (Misses-append head xs ys out behind.1, (IsDistinct-middle xs e ys r.distinct.1).2);
    }

for_each_from :
    (h : Links) (head a : ℕ) (xs : List ℕ) (fuel : ℕ)
    → IsChain h a xs head
    → Misses head xs
    → length xs < fuel
    → list_for_each fuel head (h.next a) h ≡ xs
unfolding list_for_each
for_each_from h head a xs zero k m l = absurd (omega arith)
for_each_from h head a [] (suc fuel) k m l = ground arith
for_each_from h head a (x ∷ xs) (suc fuel) k m l =
    ground (arith, for_each_from h head x xs fuel k.2 m.1)

-- `list_for_each` ends and visits the elements of the list in order.
pub list_for_each-IsRing :
    (h : Links) (head : ℕ) (xs : List ℕ) (fuel : ℕ)
    → IsRing h head xs
    → length xs < fuel
    → list_for_each fuel head (h.next head) h ≡ xs
list_for_each-IsRing h head xs fuel r l = for_each_from h head head xs fuel r.chain r.distinct.0 l
