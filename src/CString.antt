-- ===== src/CString.antt =====
-- The functions of the C library on strings that simpledb calls. A `char *` argument is the list of
-- its bytes before the NUL; a `char` array inside an object is read and written in its memory.
use Prim.Native.Nat.{min}
use my_exercise.Prelude.{
  ℕ, zero, suc, ◌+◌, ◌-◌, ◌*◌, ◌%◌, ◌^◌, List, [], ◌∷◌, Option, none, some, Bool, true, false, ◌==◌,
  leb, ◌&&◌, ◌||◌, if◌then◌else◌,
}
use my_exercise.Bytes.{Memory, store8}

-- `strcpy(p + o, s)`
unfoldable pub strcpy : Memory → ℕ → List ℕ → Memory
strcpy p o [] = store8 p o 0
strcpy p o (c ∷ s) = strcpy (store8 p o c) (o + 1) s

-- The string in an array of `n` bytes at `p + o`: what stands before its first NUL.
unfoldable pub c_string : Memory → ℕ → ℕ → List ℕ
c_string p o zero = []
c_string p o (suc n) = if p o == 0 then [] else p o ∷ c_string p (o + 1) n

-- `isspace` in the C locale
unfoldable pub isspace : ℕ → Bool
isspace c = c == 32 || (leb 9 c && leb c 13)

unfoldable pub isdigit : ℕ → Bool
isdigit c = leb b'0' c && leb c b'9'

unfoldable pub skip_spaces : List ℕ → List ℕ
unfolding isspace
skip_spaces [] = []
skip_spaces (c ∷ s) = if isspace c then skip_spaces s else c ∷ s

-- The value of the leading decimal digits.
unfoldable pub digits_value : ℕ → List ℕ → ℕ
unfolding isdigit
digits_value acc [] = acc
digits_value acc (c ∷ s) = if isdigit c then digits_value (acc * 10 + (c - b'0')) s else acc

-- The 32-bit pattern of `(int)strtol(s, NULL, 10)`, where `strtol` saturates at 64 bits.
unfoldable pub signed_value : List ℕ → ℕ
unfolding digits_value
signed_value [] = 0
signed_value (c ∷ s) =
    if c == b'-'
    then (2 ^ 64 - min (digits_value 0 s) (2 ^ 63)) % 2 ^ 32
    else if c == b'+'
    then min (digits_value 0 s) (2 ^ 63 - 1) % 2 ^ 32
    else min (digits_value 0 (c ∷ s)) (2 ^ 63 - 1) % 2 ^ 32

unfoldable pub atoi : List ℕ → ℕ
unfolding skip_spaces signed_value
atoi s = signed_value (skip_spaces s)

-- `strtok(s, d)` for the one delimiter `d`: the token, and where the next call goes on.
unfoldable pub skip_delim : ℕ → List ℕ → List ℕ
skip_delim d [] = []
skip_delim d (c ∷ s) = if c == d then skip_delim d s else c ∷ s

unfoldable pub take_token : ℕ → List ℕ → List ℕ
take_token d [] = []
take_token d (c ∷ s) = if c == d then [] else c ∷ take_token d s

unfoldable pub after_token : ℕ → List ℕ → List ℕ
after_token d [] = []
after_token d (c ∷ s) = if c == d then s else after_token d s

unfoldable pub non_empty : List ℕ → Option (List ℕ)
non_empty [] = none
non_empty (c ∷ s) = some (c ∷ s)

unfoldable pub strtok : ℕ → List ℕ → Option (List ℕ) × List ℕ
unfolding skip_delim take_token after_token non_empty
strtok d s = let t = skip_delim d s in (non_empty (take_token d t), after_token d t)

-- `strcmp(s, t) == 0`
unfoldable pub strcmp_eq : List ℕ → List ℕ → Bool
strcmp_eq [] [] = true
strcmp_eq [] (d ∷ t) = false
strcmp_eq (c ∷ s) [] = false
strcmp_eq (c ∷ s) (d ∷ t) = c == d && strcmp_eq s t

-- `strncmp(s, t, strlen(t)) == 0`
unfoldable pub has_prefix : List ℕ → List ℕ → Bool
has_prefix s [] = true
has_prefix [] (d ∷ t) = false
has_prefix (c ∷ s) (d ∷ t) = c == d && has_prefix s t
