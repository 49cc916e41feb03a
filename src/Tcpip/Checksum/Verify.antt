-- ===== src/Tcpip/Checksum/Verify.antt =====
-- tcpip/common/utils.c: `checksum` over data that hold their own checksum.
use my_exercise.Prelude.{
  ℕ, zero, suc, ◌+◌, ◌*◌, ◌^◌, ◌<◌, ◌≤◌, ◌≡◌, ◌≢◌, ◌∙◌, refl, ap, some, arith, ◌⊎◌, inl, inr,
}
use my_exercise.Bytes.{Memory, IsBytes, store8}
use my_exercise.Word.{add32}
use my_exercise.Tcpip.Checksum.{load16, store16, sum_loop, sum_every_16bits, complement16, checksum}
use my_exercise.Tcpip.Checksum.Fold.{Folded, fold_loop-Folded}

-- The sum of the 16-bit words, and of the byte left over, as a natural number.
unfoldable pub total : Memory → ℕ → ℕ → ℕ
total p o zero = 0
total p o (suc zero) = p o
total p o (suc (suc count)) = load16 p o + total p (o + 2) count

pub total_bound : (p : Memory) (o count : ℕ) → IsBytes p → total p o count ≤ 65535 * count
unfolding total
total_bound p o zero b = omega arith
total_bound p o (suc zero) b = omega (arith, b o)
total_bound p o (suc (suc count)) b = omega (arith, b o, b (o + 1), total_bound p (o + 2) count b)

sum_loop-total :
    (p : Memory) (o count sum : ℕ)
    → sum + total p o count < 2 ^ 32
    → sum_loop p o count sum ≡ sum + total p o count
unfolding sum_loop total
sum_loop-total p o zero sum l = omega arith
sum_loop-total p o (suc zero) sum l = omega arith
sum_loop-total p o (suc (suc count)) sum l =
    let here : add32 sum (load16 p o) ≡ sum + load16 p o = omega arith in
    rw here (sum_loop-total p (o + 2) count (sum + load16 p o) (omega arith) ∙ omega arith)

pub total_cong :
    (p q : Memory) (o count : ℕ)
    → ((a : ℕ) → o ≤ a → a < o + count → p a ≡ q a)
    → total p o count ≡ total q o count
unfolding total
total_cong p q o zero h = refl
total_cong p q o (suc zero) h = h o (omega arith) (omega arith)
total_cong p q o (suc (suc count)) h = omega (
  arith,
  h o (omega arith) (omega arith),
  h (o + 1) (omega arith) (omega arith),
  total_cong p q (o + 2) count (λ a l m. h a (omega arith) (omega arith)),
)

pub load16-store16_self : (p : Memory) (a v : ℕ) → v < 2 ^ 16 → load16 (store16 p a v) a ≡ v
unfolding store8
load16-store16_self p a v l = ground arith

pub store16_ne : (p : Memory) (a v b : ℕ) → b < a ⊎ a + 1 < b → store16 p a v b ≡ p b
unfolding store8
store16_ne p a v b h = ground arith

-- A write to a field a whole number of words from the start puts its value into the sum in place of the old.
pub total-store16 :
    (p : Memory) (a o j count v : ℕ)
    → v < 2 ^ 16
    → a ≡ o + 2 * j
    → 2 * j + 2 ≤ count
    → total (store16 p a v) o count + load16 p a ≡ total p o count + v
unfolding total
total-store16 p a o j zero v l at h = absurd (omega arith)
total-store16 p a o j (suc zero) v l at h = absurd (omega arith)
total-store16 p a o zero (suc (suc count)) v l at h =
    let here : a ≡ o = omega arith in
    omega (
      arith,
      load16-store16_self p a v l,
      ap (load16 (store16 p a v)) here,
      ap (load16 p) here,
      total_cong (store16 p a v) p (o + 2) count (λ b m n. store16_ne p a v b (inr (omega arith))),
    )
total-store16 p a o (suc j) (suc (suc count)) v l at h = omega (
  arith,
  store16_ne p a v o (inl (omega arith)),
  store16_ne p a v (o + 1) (inl (omega arith)),
  total-store16 p a (o + 2) j count v l (omega arith) (omega arith),
)

pub checksum-total :
    (p : Memory) (o count : ℕ)
    → total p o count < 2 ^ 32
    → (f : ℕ) × (checksum p o count 0 ≡ some (complement16 f)) × Folded (total p o count) f
unfolding checksum sum_every_16bits
checksum-total p o count l =
    let (f, e, h) = fold_loop-Folded (total p o count) l in
    let sum : add32 0 (sum_loop p o count 0) ≡ total p o count =
      omega (arith, sum_loop-total p o count 0 (omega arith)) in
    (f, ground (arith, sum, e), h)

-- The folded sum and its complement are 65535 together, which folds to itself.
complement-Folded : (s f g : ℕ) → Folded s f → Folded (s + complement16 f) g → complement16 g ≡ 0
complement-Folded s f g h k =
    let nonzero : g ≢ 0 = λ z.
      let none_left : s + complement16 f ≡ 0 = k.zero_iff.0 z in
      omega (arith, none_left, h.zero_iff.1 (omega (arith, none_left))) in
    omega (arith, h.small, h.same, k.small, k.same, nonzero)

-- The checksum of less than 65536 bytes ends. Once it is stored in a 16-bit field that was 0 when it was
-- computed, at an even distance from the start, the checksum of the same bytes is 0.
pub checksum-verify :
    (p : Memory) (o count a j : ℕ)
    → IsBytes p
    → count < 2 ^ 16
    → load16 p a ≡ 0
    → a ≡ o + 2 * j
    → 2 * j + 2 ≤ count
    → (c : ℕ) × (checksum p o count 0 ≡ some c) × (checksum (store16 p a c) o count 0 ≡ some 0)
checksum-verify p o count a j b small e at h =
    let (f, e', folded) = checksum-total p o count (omega (arith, bound)) in
    let sum : total (store16 p a (complement16 f)) o count ≡ total p o count + complement16 f =
      omega (arith, e, total-store16 p a o j count (complement16 f) (omega arith) at h) in
    let (g, e'', folded') =
      checksum-total (store16 p a (complement16 f)) o count (omega (arith, bound, sum)) in
    (
      complement16 f,
      e',
      e'' ∙ ap some (complement-Folded (total p o count) f g folded (rw (← sum) folded')),
    )
  where
    bound : total p o count ≤ 65535 * count
    bound = total_bound p o count b
