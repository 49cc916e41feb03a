-- ===== src/Mysh/Text/Holds.antt =====
-- mysh/common/lib_mem.c: bytes that stand in an array, and its strings.
use mathlib.Core.Path.{subst}
use my_exercise.Prelude.{
  ℕ, zero, suc, ◌+◌, ◌≤◌, ◌<◌, ◌≡◌, ◌⊎◌, ◌∙◌, ap, some, List, [], ◌∷◌, ◌++◌, length, arith,
}
use my_exercise.Bytes.{Memory, store8}
use my_exercise.Mysh.Text.{sh_string}

abbrev pub NoNul : List ℕ → Type 0
NoNul [] = Unit
NoNul (c ∷ s) = (0 < c) × NoNul s

-- The bytes stand at `p + o`.
abbrev pub Holds : Memory → ℕ → List ℕ → Type 0
Holds p o [] = Unit
Holds p o (c ∷ s) = (p o ≡ c) × Holds p (o + 1) s

pub Holds-store8 :
    (p : Memory) (k c o : ℕ) (s : List ℕ)
    → k < o ⊎ o + length s ≤ k
    → Holds p o s
    → Holds (store8 p k c) o s
unfolding store8
Holds-store8 p k c o [] out h = tt
Holds-store8 p k c o (d ∷ s) out h = (ground arith, Holds-store8 p k c (o + 1) s (omega arith) h.1)

pub sh_string-Holds :
    (n : ℕ) (p : Memory) (o : ℕ) (s : List ℕ)
    → NoNul s
    → Holds p o s
    → p (o + length s) ≡ 0
    → length s < n
    → sh_string n p o ≡ some s
unfolding sh_string
sh_string-Holds zero p o s a h z l = absurd (omega arith)
sh_string-Holds (suc n) p o [] a h z l =
    let nul : p o ≡ 0 = ap p (omega arith) ∙ z in ground (arith, nul)
sh_string-Holds (suc n) p o (c ∷ s) a h z l =
    let rest = sh_string-Holds n p (o + 1) s a.1 h.1 (ap p (omega arith) ∙ z) (omega arith) in
    let n = a.0 in ground (arith, rest, h.0, n)

pub Holds-agree :
    (p q : Memory) (o : ℕ) (s : List ℕ)
    → ((a : ℕ) → a < o + length s → q a ≡ p a)
    → Holds p o s
    → Holds q o s
Holds-agree p q o [] e h = tt
Holds-agree p q o (c ∷ s) e h =
    (e o (omega arith) ∙ h.0, Holds-agree p q (o + 1) s (λ a l. e a (omega arith)) h.1)

pub Holds-append :
    (p : Memory) (o : ℕ) (s t : List ℕ)
    → Holds p o s
    → Holds p (o + length s) t
    → Holds p o (s ++ t)
Holds-append p o [] t hs ht = subst (λ k. Holds p k t) (omega arith) ht
Holds-append p o (c ∷ s) t hs ht =
    (hs.0, Holds-append p (o + 1) s t hs.1 (subst (λ k. Holds p k t) (omega arith) ht))

pub Holds-split :
    (p : Memory) (o : ℕ) (s t : List ℕ)
    → Holds p o (s ++ t)
    → Holds p o s × Holds p (o + length s) t
Holds-split p o [] t h = (tt, subst (λ k. Holds p k t) (omega arith) h)
Holds-split p o (c ∷ s) t h =
    let (hs, ht) = Holds-split p (o + 1) s t h.1 in
    ((h.0, hs), subst (λ k. Holds p k t) (omega arith) ht)

pub NoNul-append : (s t : List ℕ) → NoNul s → NoNul t → NoNul (s ++ t)
NoNul-append [] t hs ht = ht
NoNul-append (c ∷ s) t hs ht = (hs.0, NoNul-append s t hs.1 ht)

pub NoNul-split : (s t : List ℕ) → NoNul (s ++ t) → NoNul s
NoNul-split [] t h = tt
NoNul-split (c ∷ s) t h = (h.0, NoNul-split s t h.1)
