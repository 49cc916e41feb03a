-- ===== src/Bytes/Laws.antt =====
-- Reads after writes, for Bytes.antt.
use my_exercise.Prelude.{ℕ, ◌+◌, ◌-◌, ◌%◌, ◌^◌, ◌≤◌, ◌<◌, ◌≡◌, ◌⊎◌, ◌≢◌, arith}
use my_exercise.Bytes.{Memory, IsBytes, store8, load32, store32, memcpy}

-- Two ranges `[a, a + m)` and `[b, b + n)` that do not meet.
abbrev pub Apart : ℕ → ℕ → ℕ → ℕ → Type 0
Apart a m b n = (a + m ≤ b) ⊎ (b + n ≤ a)

pub store8_self : (p : Memory) (o v : ℕ) → store8 p o v o ≡ v % 256
unfolding store8
store8_self p o v = ground arith

pub store8_ne : (p : Memory) (o v a : ℕ) → a ≢ o → store8 p o v a ≡ p a
unfolding store8
store8_ne p o v a h = ground arith

pub load32-store8_ne :
    (p : Memory) (o v a : ℕ) → Apart o 1 a 4 → load32 (store8 p o v) a ≡ load32 p a
unfolding load32 store8
load32-store8_ne p o v a h = ground arith

pub store32_ne : (p : Memory) (o v a : ℕ) → Apart o 4 a 1 → store32 p o v a ≡ p a
unfolding store32
store32_ne p o v a h = ground arith

pub load32-store32_self : (p : Memory) (o v : ℕ) → load32 (store32 p o v) o ≡ v % 2 ^ 32
unfolding load32 store32
load32-store32_self p o v = ground arith

pub load32-store32_ne :
    (p : Memory) (o v a : ℕ) → Apart o 4 a 4 → load32 (store32 p o v) a ≡ load32 p a
unfolding load32 store32
load32-store32_ne p o v a h = ground arith

pub memcpy_in :
    (p : Memory) (d : ℕ) (q : Memory) (s n a : ℕ)
    → d ≤ a
    → a < d + n
    → memcpy p d q s n a ≡ q (s + (a - d))
unfolding memcpy
memcpy_in p d q s n a h k = ground arith

pub memcpy_out :
    (p : Memory) (d : ℕ) (q : Memory) (s n a : ℕ) → Apart d n a 1 → memcpy p d q s n a ≡ p a
unfolding memcpy
memcpy_out p d q s n a h = ground arith

pub load32-memcpy_out :
    (p : Memory) (d : ℕ) (q : Memory) (s n a : ℕ)
    → Apart d n a 4
    → load32 (memcpy p d q s n) a ≡ load32 p a
unfolding load32 memcpy
load32-memcpy_out p d q s n a h = ground arith

-- A word is determined by its four bytes.
pub load32_cong :
    (p q : Memory) (a b : ℕ)
    → p a ≡ q b
    → p (a + 1) ≡ q (b + 1)
    → p (a + 2) ≡ q (b + 2)
    → p (a + 3) ≡ q (b + 3)
    → load32 p a ≡ load32 q b
unfolding load32
load32_cong p q a b h i j k = omega arith

pub load32-lt : (p : Memory) (a : ℕ) → IsBytes p → load32 p a < 2 ^ 32
unfolding load32
load32-lt p a h = omega (arith, h a, h (a + 1), h (a + 2), h (a + 3))
