-- ===== src/Mysh/Text.antt =====
-- mysh/common/lib_mem.c and the texts of mysh/shell. `none` is an access outside an array.
pub mod Holds
use Prim.Native.Char.{code}
use Prim.Native.String.{String}
use my_exercise.Prelude.{
  ℕ, zero, suc, ◌+◌, ◌==◌, leb, ltb, ◌&&◌, if◌then◌else◌, Bool, Option, none, some, List, [], ◌∷◌,
}
use my_exercise.Bytes.{Memory}

-- The bytes of a literal.
abbrev pub codes : String → List ℕ
codes String.[] = []
codes (String.◌∷◌ c s) = code c ∷ codes s

abbrev pub crlf : List ℕ
crlf = 13 ∷ 10 ∷ []

abbrev pub cons_some : ℕ → Option (List ℕ) → Option (List ℕ)
cons_some c none = none
cons_some c (some s) = some (c ∷ s)

-- The string at `p + o`, up to its NUL, where `n` bytes of the array are left. `sh_strlen` is its length.
unfoldable pub sh_string : ℕ → Memory → ℕ → Option (List ℕ)
sh_string zero p o = none
sh_string (suc n) p o =
    let rest = sh_string n p (o + 1) in if p o == 0 then some [] else cons_some (p o) rest

-- `c > 0` for a `char`, which is signed here.
abbrev pub positive : ℕ → Bool
positive c = ltb 0 c && ltb c 128

-- The bytes that a loop `for (ii = o; p[ii] > 0; ii++)` meets.
unfoldable pub positive_string : ℕ → Memory → ℕ → Option (List ℕ)
positive_string zero p o = none
positive_string (suc n) p o =
    let rest = positive_string n p (o + 1) in
    if positive (p o) then cons_some (p o) rest else some []

-- `sh_memset(p + o, 0, n)`
abbrev pub sh_clear : Memory → ℕ → ℕ → Memory
sh_clear p o n a = if leb o a && ltb a (o + n) then 0 else p a
