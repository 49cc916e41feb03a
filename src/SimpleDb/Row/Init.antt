-- ===== src/SimpleDb/Row/Init.antt =====
-- simpledb/row.c: what `row_init` accepts, and what it stores.
use my_exercise.Prelude.{
  ℕ, zero, suc, ◌+◌, ◌^◌, ◌≤◌, ◌<◌, ◌≡◌, ◌↔◌, ◌∙◌, inr, refl, List, [], ◌∷◌, Option, some, arith,
  length,
}
use my_exercise.Bytes.{Memory, load32, store8, store32}
use my_exercise.Bytes.Laws.{Apart, store8_self, store8_ne, load32-store32_self, load32_cong}
use my_exercise.CString.{strcpy, c_string, atoi}
use my_exercise.SimpleDb.Row.{Row, row_init_success, row_fill, row_checked, row_init, row_print}

-- A `char *` string: bytes, none of them NUL.
abbrev pub IsText : List ℕ → Type 0
IsText [] = Unit
IsText (c ∷ s) = (0 < c) × (c < 256) × IsText s

pub strcpy_out :
    (p : Memory) (o : ℕ) (s : List ℕ) (a : ℕ) → Apart o (length s + 1) a 1 → strcpy p o s a ≡ p a
unfolding strcpy
strcpy_out p o [] a h = store8_ne p o 0 a (omega arith)
strcpy_out p o (c ∷ s) a h =
    ground (arith, strcpy_out (store8 p o c) (o + 1) s a, store8_ne p o c a)

-- A copied string is read back, if the array has room for its NUL.
pub c_string-strcpy :
    (p : Memory) (o : ℕ) (s : List ℕ) (n : ℕ)
    → IsText s
    → length s < n
    → c_string (strcpy p o s) o n ≡ s
unfolding strcpy c_string
c_string-strcpy p o s zero t h = absurd (omega arith)
c_string-strcpy p o [] (suc n) t h = ground (arith, store8_self p o 0)
c_string-strcpy p o (c ∷ s) (suc n) t h = ground (
  arith,
  c_string-strcpy (store8 p o c) (o + 1) s n,
  strcpy_out (store8 p o c) (o + 1) s o,
  store8_self p o c,
)

-- A string is determined by the bytes of its array.
pub c_string_cong :
    (p q : Memory) (o u n : ℕ)
    → ((k : ℕ) → k < n → p (o + k) ≡ q (u + k))
    → c_string p o n ≡ c_string q u n
unfolding c_string
c_string_cong p q o u zero h = refl
c_string_cong p q o u (suc n) h = ground (
  arith,
  h 0,
  c_string_cong p q (o + 1) (u + 1) n (λ (k : ℕ) (l : k < n). ground (arith, h (suc k))),
)

load32-strcpy_out :
    (p : Memory) (o : ℕ) (s : List ℕ) (a : ℕ)
    → Apart o (length s + 1) a 4
    → load32 (strcpy p o s) a ≡ load32 p a
load32-strcpy_out p o s a h =
    load32_cong (strcpy p o s) p a a (strcpy_out p o s a (grind arith))
      (strcpy_out p o s (a + 1) (grind arith)) (strcpy_out p o s (a + 2) (grind arith))
      (strcpy_out p o s (a + 3) (grind arith))

-- What `row_init` writes of an id, a name and an address that fit is what `row_print` prints.
pub row_print-row_fill :
    (id : ℕ) (username email : List ℕ) (row : Row)
    → id < 2 ^ 32
    → IsText username
    → length username ≤ 32
    → IsText email
    → length email ≤ 32
    → row_print (row_fill id username email row)
      ≡ record { id = id; username = username; email = email }
unfolding row_print row_fill
row_print-row_fill id username email row hid tu hu te he =
    cc (id_part, username_part, c_string-strcpy named 37 email 33 te (omega arith))
  where
    numbered : Memory
    numbered = store32 row 0 id

    named : Memory
    named = strcpy numbered 4 username

    id_part : load32 (strcpy named 37 email) 0 ≡ id
    id_part =
        load32-strcpy_out named 37 email 0 (inr (omega arith))
        ∙ load32-strcpy_out numbered 4 username 0 (inr (omega arith))
        ∙ load32-store32_self row 0 id
        ∙ omega arith

    username_part : c_string (strcpy named 37 email) 4 33 ≡ username
    username_part =
        c_string_cong (strcpy named 37 email) named 4 4 33
          (λ k h. strcpy_out named 37 email (4 + k) (inr (omega arith)))
        ∙ c_string-strcpy numbered 4 username 33 tu (omega arith)

-- Rows that agree on the bytes of the members print alike.
pub row_print_cong : (r s : Row) → ((a : ℕ) → a < 70 → r a ≡ s a) → row_print r ≡ row_print s
unfolding row_print
row_print_cong r s h = cc (
  load32_cong r s 0 0 (h 0 (omega arith)) (h 1 (omega arith)) (h 2 (omega arith))
      (h 3 (omega arith)),
  c_string_cong r s 4 4 33 (λ k l. h (4 + k) (omega arith)),
  c_string_cong r s 37 37 33 (λ k l. h (37 + k) (omega arith)),
)

-- Given three strings, `row_init` succeeds exactly if the id is not negative as an `int` and neither
-- of the other two is longer than 32 bytes.
pub row_init_iff :
    (id username email : List ℕ) (row : Option Row)
    → ((row_init (some id) (some username) (some email) row).0 ≡ row_init_success)
      ↔ ((atoi id < 2 ^ 31) × (length username ≤ 32) × (length email ≤ 32))
unfolding row_init row_checked
row_init_iff id username email row = ground arith
