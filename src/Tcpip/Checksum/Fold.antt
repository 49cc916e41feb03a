-- ===== src/Tcpip/Checksum/Fold.antt =====
-- tcpip/common/utils.c: the loop that folds the sum to 16 bits.
use my_exercise.Prelude.{
  ℕ, suc, ◌+◌, ◌/◌, ◌%◌, ◌^◌, ◌<◌, ◌≤◌, ◌≡◌, ◌↔◌, refl, some, arith, dec_lt, ◌∙◌,
}
use my_exercise.Tcpip.Checksum.{fold_loop, fold_fuel}

-- What the folding of `sum` gives: a number of 16 bits that is the same modulo 65535, and 0 only for 0.
pub record Folded (sum f : ℕ) : Type 0 where
  pub small : f < 2 ^ 16
  pub same : f % 65535 ≡ sum % 65535
  pub zero_iff : (f ≡ 0) ↔ (sum ≡ 0)

fold_small : (fuel sum : ℕ) → sum < 2 ^ 16 → fold_loop (suc fuel) sum ≡ some sum
unfolding fold_loop
fold_small fuel sum h = ground arith

abbrev round : ℕ → ℕ
round sum = sum % 2 ^ 16 + sum / 2 ^ 16

fold_round :
    (fuel sum : ℕ)
    → 2 ^ 16 ≤ sum
    → sum < 2 ^ 32
    → fold_loop (suc fuel) sum ≡ fold_loop fuel (round sum)
unfolding fold_loop
fold_round fuel sum h l = ground arith

round-same : (sum : ℕ) → round sum % 65535 ≡ sum % 65535
round-same sum = omega arith

Folded-self : (sum : ℕ) → sum < 2 ^ 16 → Folded sum sum
Folded-self sum l = record { small = l; same = refl; zero_iff = (λ e. e, λ e. e) }

Folded-round : (sum f : ℕ) → Folded (round sum) f → Folded sum f
Folded-round sum f h = record {
  small = h.small;
  same = omega (arith, h.same);
  zero_iff = (λ e. omega (arith, h.zero_iff.0 e), λ e. h.zero_iff.1 (omega arith));
}

fold_from :
    (fuel sum : ℕ)
    → sum < 2 ^ 32
    → ((f : ℕ) × (fold_loop fuel (round sum) ≡ some f) × Folded (round sum) f)
    → (f : ℕ) × (fold_loop (suc fuel) sum ≡ some f) × Folded sum f
fold_from fuel sum l (f, e, h) = elim (dec_lt sum (2 ^ 16)) [
  | yes y ↦ (sum, fold_small fuel sum y, Folded-self sum y)
  | no n ↦ (f, fold_round fuel sum (omega arith) l ∙ e, Folded-round sum f h)
]

fold_last : (sum : ℕ) → sum < 2 ^ 16 → (f : ℕ) × (fold_loop 1 sum ≡ some f) × Folded sum f
fold_last sum h = (sum, fold_small 0 sum h, Folded-self sum h)

-- The folding of a sum of 32 bits ends, in a number of 16 bits that is congruent to the sum modulo
-- 65535, and that is 0 exactly if the sum is.
pub fold_loop-Folded :
    (sum : ℕ) → sum < 2 ^ 32 → (f : ℕ) × (fold_loop fold_fuel sum ≡ some f) × Folded sum f
fold_loop-Folded sum l =
    fold_from 2 sum l
      (fold_from 1 (round sum) (omega arith) (fold_last (round (round sum)) (omega arith)))
