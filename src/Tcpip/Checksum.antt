-- ===== src/Tcpip/Checksum.antt =====
-- tcpip/common/utils.c: the Internet checksum, on a machine that stores the least significant byte
-- first.
pub mod Fold
pub mod Verify
use my_exercise.Prelude.{
  ℕ, zero, suc, ◌+◌, ◌-◌, ◌*◌, ◌/◌, ◌%◌, ◌^◌, ◌==◌, if◌then◌else◌, Option, none, some,
}
use my_exercise.Bytes.{Memory, store8}
use my_exercise.Word.{add32}

-- `*(uint16_t *)(p + o)`
abbrev pub load16 : Memory → ℕ → ℕ
load16 p o = p o + 256 * p (o + 1)

-- `*(uint16_t *)(p + o) = v`
abbrev pub store16 : Memory → ℕ → ℕ → Memory
store16 p o v = store8 (store8 p o v) (o + 1) (v / 256)

-- The loop of `sum_every_16bits` on the bytes that are left, with the sum so far, and the byte left over.
unfoldable pub sum_loop : Memory → ℕ → ℕ → ℕ → ℕ
sum_loop p o zero sum = sum
sum_loop p o (suc zero) sum = add32 sum (p o)
sum_loop p o (suc (suc count)) sum = sum_loop p (o + 2) count (add32 sum (load16 p o))

unfoldable pub sum_every_16bits : Memory → ℕ → ℕ → ℕ
unfolding sum_loop
sum_every_16bits p o count = sum_loop p o count 0

-- `while (sum >> 16) sum = (sum & 0xffff) + (sum >> 16)`; `none` means that the fuel ran out.
unfoldable pub fold_loop : ℕ → ℕ → Option ℕ
fold_loop zero sum = none
fold_loop (suc fuel) sum =
    let rest = fold_loop fuel (add32 (sum % 2 ^ 16) (sum / 2 ^ 16)) in
    if sum / 2 ^ 16 == 0 then some sum else rest

-- The first round leaves at most 2 ^ 17 - 2 and the second less than 2 ^ 16.
abbrev pub fold_fuel : ℕ
fold_fuel = 3

-- `~sum` as a `uint16_t`
abbrev pub complement16 : ℕ → ℕ
complement16 sum = (2 ^ 32 - 1 - sum) % 2 ^ 16

unfoldable pub checksum : Memory → ℕ → ℕ → ℕ → Option ℕ
unfolding sum_every_16bits fold_loop
checksum p o count start_sum =
    elim (fold_loop fold_fuel (add32 start_sum (sum_every_16bits p o count))) [
      | none ↦ none
      | some sum ↦ some (complement16 sum)
    ]
