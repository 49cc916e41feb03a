-- ===== src/Tcpip/Links/Ring.antt =====
-- tcpip/include/utils.h: a ring of links stands for the list of the elements between its head and its head again.
use my_exercise.Prelude.{ℕ, ◌≡◌, ◌≢◌, refl, ◌∙◌, List, [], ◌∷◌, ◌++◌, arith}
use my_exercise.Tcpip.Links.{Links, list_add, list_add_tail}

-- `a` is not among the elements.
abbrev pub Misses : ℕ → List ℕ → Type 0
Misses a [] = Unit
Misses a (x ∷ xs) = (a ≢ x) × Misses a xs

abbrev pub IsDistinct : List ℕ → Type 0
IsDistinct [] = Unit
IsDistinct (x ∷ xs) = Misses x xs × IsDistinct xs

-- From `a` the links lead forth through the elements to `b`, and back again.
abbrev pub IsChain : Links → ℕ → List ℕ → ℕ → Type 0
IsChain h a [] b = (h.next a ≡ b) × (h.prev b ≡ a)
IsChain h a (x ∷ xs) b = (h.next a ≡ x) × (h.prev x ≡ a) × IsChain h x xs b

pub record IsRing (h : Links) (head : ℕ) (xs : List ℕ) : Type 0 where
  pub chain : IsChain h head xs head
  pub distinct : IsDistinct (head ∷ xs)

pub Misses-append : (a : ℕ) (xs ys : List ℕ) → Misses a xs → Misses a ys → Misses a (xs ++ ys)
Misses-append a [] ys m n = n
Misses-append a (x ∷ xs) ys m n = (m.0, Misses-append a xs ys m.1 n)

pub Misses-split : (a : ℕ) (xs ys : List ℕ) → Misses a (xs ++ ys) → Misses a xs × Misses a ys
Misses-split a [] ys m = (tt, m)
Misses-split a (x ∷ xs) ys m = ground (arith, Misses-split a xs ys m.1)

pub IsDistinct-append :
    (xs : List ℕ) (a : ℕ) → IsDistinct xs → Misses a xs → IsDistinct (xs ++ a ∷ [])
IsDistinct-append [] a d m = (tt, tt)
IsDistinct-append (x ∷ xs) a d m =
    (Misses-append x xs (a ∷ []) d.0 (omega arith, tt), IsDistinct-append xs a d.1 m.1)

-- What differs from `h` in `next` only at `p` and `p'`, and in `prev` only at `q` and `q'`.
pub record Differs (h g : Links) (p p' q q' : ℕ) : Type 0 where
  pub same_next : (j : ℕ) → j ≢ p → j ≢ p' → g.next j ≡ h.next j
  pub same_prev : (j : ℕ) → j ≢ q → j ≢ q' → g.prev j ≡ h.prev j

-- A chain reads `next` at all but its end, and `prev` at all but its start.
pub frame :
    (h g : Links) (p p' q q' a : ℕ) (xs : List ℕ) (b : ℕ)
    → Differs h g p p' q q'
    → Misses p (a ∷ xs)
    → Misses p' (a ∷ xs)
    → Misses q (b ∷ xs)
    → Misses q' (b ∷ xs)
    → IsChain h a xs b
    → IsChain g a xs b
frame h g p p' q q' a [] b d m m' n n' c = ground (arith, d.same_next a, d.same_prev b)
frame h g p p' q q' a (x ∷ xs) b d m m' n n' c = (
  ground (arith, d.same_next a),
  ground (arith, d.same_prev x),
  frame h g p p' q q' x xs b d m.1 m'.1 (n.0, n.1.1) (n'.0, n'.1.1) c.2,
)

-- The element before `e` is one of those that stand before it.
pub prev_of :
    (h : Links) (a : ℕ) (xs : List ℕ) (e c : ℕ)
    → IsChain h a xs e
    → Misses c (a ∷ xs)
    → c ≢ h.prev e
prev_of h a [] e c k m = ground arith
prev_of h a (x ∷ xs) e c k m = prev_of h x xs e c k.2 m.1

-- The element behind `e` is the first of those that stand behind it, or the end.
pub next_of :
    (h : Links) (e : ℕ) (ys : List ℕ) (b c : ℕ)
    → IsChain h e ys b
    → Misses c (b ∷ ys)
    → c ≢ h.next e
next_of h e [] b c k m = ground arith
next_of h e (y ∷ ys) b c k m = ground arith

pub IsChain-split :
    (h : Links) (a : ℕ) (xs : List ℕ) (e : ℕ) (ys : List ℕ) (b : ℕ)
    → IsChain h a (xs ++ e ∷ ys) b
    → IsChain h a xs e × IsChain h e ys b
IsChain-split h a [] e ys b k = ((k.0, k.1), k.2)
IsChain-split h a (x ∷ xs) e ys b k =
    let (l, r) = IsChain-split h x xs e ys b k.2 in ((k.0, k.1, l), r)

pub IsChain-join :
    (h : Links) (a : ℕ) (xs : List ℕ) (e : ℕ) (ys : List ℕ) (b : ℕ)
    → IsChain h a xs e
    → IsChain h e ys b
    → IsChain h a (xs ++ e ∷ ys) b
IsChain-join h a [] e ys b l r = (l.0, l.1, r)
IsChain-join h a (x ∷ xs) e ys b l r = (l.0, l.1, IsChain-join h x xs e ys b l.2 r)

-- A chain whose last link is turned to a new end.
pub retarget :
    (h g : Links) (a : ℕ) (xs : List ℕ) (b e p q q' : ℕ)
    → IsChain h a xs b
    → IsDistinct (a ∷ xs)
    → Misses q xs
    → Misses q' xs
    → g.next (h.prev b) ≡ e
    → g.prev e ≡ h.prev b
    → ((j : ℕ) → j ≢ h.prev b → j ≢ p → g.next j ≡ h.next j)
    → ((j : ℕ) → j ≢ q → j ≢ q' → g.prev j ≡ h.prev j)
    → Misses p (a ∷ xs)
    → IsChain g a xs e
retarget h g a [] b e p q q' k d m m' n v sn sp out = ground arith
retarget h g a (x ∷ xs) b e p q q' k d m m' n v sn sp out = (
  sn a (prev_of h x xs b a k.2 d.0) (ground arith) ∙ k.0,
  sp x (ground arith) (ground arith) ∙ k.1,
  retarget h g x xs b e p q q' k.2 d.1 m.1 m'.1 n v sn sp out.1,
)

pub IsDistinct-middle :
    (xs : List ℕ) (e : ℕ) (ys : List ℕ)
    → IsDistinct (xs ++ e ∷ ys)
    → Misses e xs × Misses e ys × IsDistinct (xs ++ ys)
IsDistinct-middle [] e ys d = (tt, d.0, d.1)
IsDistinct-middle (x ∷ xs) e ys d =
    let (m, n, rest) = IsDistinct-middle xs e ys d.1 in
    let (before, behind) = Misses-split x xs (e ∷ ys) d.0 in
    ((ground arith, m), n, (Misses-append x xs ys before behind.1, rest))

pub IsDistinct-left : (xs ys : List ℕ) → IsDistinct (xs ++ ys) → IsDistinct xs
IsDistinct-left [] ys d = tt
IsDistinct-left (x ∷ xs) ys d = ((Misses-split x xs ys d.0).0, IsDistinct-left xs ys d.1)

pub append-nil : (xs : List ℕ) → xs ++ [] ≡ xs
append-nil [] = refl
append-nil (x ∷ xs) = cc (append-nil xs)

-- On a ring that stands for a list, `list_add_tail` of an element that is not in it gives a ring that
-- stands for the list with the element at its end.
pub list_add_tail-IsRing :
    (h : Links) (head new : ℕ) (xs : List ℕ)
    → IsRing h head xs
    → Misses new (head ∷ xs)
    → IsRing (list_add_tail new head h) head (xs ++ new ∷ [])
unfolding list_add_tail
list_add_tail-IsRing h head new xs r m =
    let last : new ≢ h.prev head = prev_of h head xs head new r.chain m in
    record {
      chain =
          IsChain-join (list_add_tail new head h) head xs new [] head
            (retarget h (list_add_tail new head h) head xs head new new head new r.chain r.distinct
              r.distinct.0 m.1 (ground arith) (ground arith) (λ j n o. ground arith)
              (λ j n o. ground arith) m)
            (ground arith, ground arith);
      distinct = (
        Misses-append head xs (new ∷ []) r.distinct.0 (ground arith, tt),
        IsDistinct-append xs new r.distinct.1 m.1,
      );
    }

-- `list_add` puts it in front instead.
pub list_add-IsRing :
    (h : Links) (head new : ℕ) (xs : List ℕ)
    → IsRing h head xs
    → Misses new (head ∷ xs)
    → IsRing (list_add new head h) head (new ∷ xs)
unfolding list_add
list_add-IsRing h head new [] r m = record { chain = ground arith; distinct = ground arith }
list_add-IsRing h head new (x ∷ xs) r m = record {
  chain = (
    ground arith,
    ground arith,
    (
      ground arith,
      ground arith,
      frame h (list_add new head h) head new x new x xs head
          (record { same_next = λ j n o. ground arith; same_prev = λ j n o. ground arith })
          r.distinct.0 m.1 (ground arith, r.distinct.1.0) (ground arith, m.1.1) r.chain.2,
    ),
  );
  distinct = ((ground arith, r.distinct.0), (m.1, r.distinct.1));
}
