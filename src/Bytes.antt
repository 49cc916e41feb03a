-- ===== src/Bytes.antt =====
-- Byte-addressed memory as the C code sees it: an object is a function from offsets to
-- bytes, a `uint32_t` is four bytes, the least significant one first, and `memcpy` copies a range.
pub mod Laws
use my_exercise.Prelude.{ℕ, ◌+◌, ◌-◌, ◌*◌, ◌/◌, ◌%◌, ◌≤◌, ◌<◌, ◌==◌, leb, ltb, ◌&&◌, if◌then◌else◌}

abbrev pub Memory : Type 0
Memory = ℕ → ℕ

-- `*(uint8_t *)(p + o) = v`
unfoldable pub store8 : Memory → ℕ → ℕ → Memory
store8 p o v a = if a == o then v % 256 else p a

-- `*(uint32_t *)(p + o)`
unfoldable pub load32 : Memory → ℕ → ℕ
load32 p o = p o + 256 * p (o + 1) + 65536 * p (o + 2) + 16777216 * p (o + 3)

-- `*(uint32_t *)(p + o) = v`
unfoldable pub store32 : Memory → ℕ → ℕ → Memory
store32 p o v a =
    if a == o
    then v % 256
    else if a == o + 1
    then v / 256 % 256
    else if a == o + 2
    then v / 65536 % 256
    else if a == o + 3
    then v / 16777216 % 256
    else p a

-- `memcpy(dst + d, src + s, n)`
unfoldable pub memcpy : Memory → ℕ → Memory → ℕ → ℕ → Memory
memcpy dst d src s n a = if leb d a && ltb a (d + n) then src (s + (a - d)) else dst a

-- Every cell holds a byte.
abbrev pub IsBytes : Memory → Type 0
IsBytes p = (a : ℕ) → p a < 256
