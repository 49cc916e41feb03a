-- ===== src/Mysh/Vfat/Path.antt =====
-- mysh/fs/vfat.c: the path of `cd`, as a list of names.
use mathlib.Core.Path.{subst}
use mathlib.Core.List.{append_assoc}
use my_exercise.Prelude.{
  ℕ, zero, suc, ◌+◌, ◌≤◌, ◌<◌, ◌≡◌, ◌≢◌, ◌∙◌, refl, ap, sym, inr, true, false, dec_lt, Option, some,
  List, [], ◌∷◌, ◌++◌, length, length-append, arith, ◌==◌, ltb, if◌then◌else◌,
}
use my_exercise.Bytes.{Memory, store8}
use my_exercise.Mysh.Text.Holds.{
  NoNul, Holds, Holds-store8, sh_string-Holds, Holds-agree, Holds-append, Holds-split, NoNul-append,
  NoNul-split,
}
use my_exercise.Mysh.Editor.{when_some}
use my_exercise.Mysh.Complete.{put_bytes}
use my_exercise.Mysh.Vfat.{full_path_len, slash, cur_path, last_slash, path_up, path_down, longer}

-- The path of the names, the innermost first.
abbrev below : List (List ℕ) → List ℕ
below [] = []
below (c ∷ names) = below names ++ slash ∷ c

abbrev pub path_of : List (List ℕ) → List ℕ
path_of [] = slash ∷ []
path_of (c ∷ names) = below names ++ slash ∷ c

-- A name has no NUL and no '/'.
abbrev pub IsName : List ℕ → Type 0
IsName [] = Unit
IsName (c ∷ name) = (0 < c) × (c < 256) × (c ≢ slash) × IsName name

abbrev pub AreNames : List (List ℕ) → Type 0
AreNames [] = Unit
AreNames (c ∷ names) = (0 < length c) × IsName c × AreNames names

-- What an array holds that has the string.
abbrev pub HasString : Memory → List ℕ → Type 0
HasString p s = Holds p 0 s × (p (length s) ≡ 0) × NoNul s × (length s < full_path_len)

last_slash-found :
    (i j : ℕ) (p : Memory)
    → j ≤ i
    → p j ≡ slash
    → ((a : ℕ) → j < a → a ≤ i → p a ≢ slash)
    → last_slash i p ≡ some j
unfolding last_slash
last_slash-found zero j p l at after =
    let e : j ≡ 0 = omega arith in let at0 : p 0 ≡ 47 = ap p (sym e) ∙ at in ground (arith, at0, e)
last_slash-found (suc i) j p l at after = elim (dec_lt i j) [
  | yes last ↦
      let e : j ≡ suc i = omega arith in
      let here : (p (suc i) == slash) ≡ true =
        let h : p (suc i) ≡ 47 = ap p (sym e) ∙ at in ground (arith, h) in
      rw here (ap some (sym e))
  | no inner ↦
      let n = after (suc i) (omega arith) (omega arith) in
      let other : (p (suc i) == slash) ≡ false = ground (arith, n) in
      rw other (last_slash-found i j p (omega arith) at (λ a l1 l2. after a l1 (omega arith)))
]

put_bytes-before : (p : Memory) (o : ℕ) (s : List ℕ) (a : ℕ) → a < o → put_bytes p o s a ≡ p a
unfolding store8
put_bytes-before p o [] a l = refl
put_bytes-before p o (c ∷ s) a l =
    put_bytes-before (store8 p o c) (o + 1) s a (omega arith) ∙ ground arith

put_bytes-Holds : (p : Memory) (o : ℕ) (s : List ℕ) → IsName s → Holds (put_bytes p o s) o s
unfolding store8
put_bytes-Holds p o [] n = tt
put_bytes-Holds p o (c ∷ s) (low, high, other, n) = (
  put_bytes-before (store8 p o c) (o + 1) s o (omega arith) ∙ ground arith,
  put_bytes-Holds (store8 p o c) (o + 1) s n,
)

IsName-NoNul : (s : List ℕ) → IsName s → NoNul s
IsName-NoNul [] n = tt
IsName-NoNul (c ∷ s) n = (n.0, IsName-NoNul s n.3)

pub cur_path-HasString : (p : Memory) (s : List ℕ) → HasString p s → cur_path p ≡ some s
cur_path-HasString p s (h, nul, chars, short) =
    sh_string-Holds full_path_len p 0 s chars h (ap p (omega arith) ∙ nul) short

-- A name behind what stands in the array.
name_added :
    (p : Memory) (s name : List ℕ)
    → Holds p 0 s
    → NoNul s
    → IsName name
    → length s + length name < full_path_len
    → HasString (store8 (put_bytes p (length s) name) (length s + length name) 0) (s ++ name)
unfolding store8
name_added p s name h chars n room =
    let q = put_bytes p (length s) name in
    let k = length s + length name in
    let size = length-append s name in
    let hs =
      Holds-agree p q 0 s (λ a l. put_bytes-before p (length s) name a (omega (arith, l))) h in
    let hn : Holds q (0 + length s) name =
      subst (λ o. Holds q o name) (omega arith) (put_bytes-Holds p (length s) name n) in
    (
      Holds-store8 q k 0 0 (s ++ name) (inr (omega (arith, size))) (Holds-append q 0 s name hs hn),
      ground (arith, size),
      NoNul-append s name chars (IsName-NoNul name n),
      omega (arith, size),
    )

length-path_of :
    (c : List ℕ) (names : List (List ℕ)) → 0 < length c → 1 < length (path_of (c ∷ names))
length-path_of c names some_char = omega (arith, length-append (below names) (slash ∷ c))

-- With a name added to the path.
pub path_down-path_of :
    (name : List ℕ) (names : List (List ℕ)) (p : Memory)
    → HasString p (path_of names)
    → AreNames names
    → IsName name
    → length (path_of names) + 1 + length name < full_path_len
    → (p' : Memory) × (path_down name (length (path_of names)) p ≡ longer p')
      × HasString p' (path_of (name ∷ names))
unfolding path_down store8
path_down-path_of name [] p (h, nul, chars, short) a n room =
    let fits : ltb full_path_len (1 + 1 + length name) ≡ false = ground arith in
    (_, rw fits refl, name_added p (slash ∷ []) name h chars n (omega arith))
path_down-path_of name (c ∷ names) p (h, nul, chars, short) a n room =
    let s = path_of (c ∷ names) in
    let long = length-path_of c names a.0 in
    let e1 : ltb full_path_len (length s + 1 + length name) ≡ false = ground arith in
    let e2 : (length s == 1) ≡ false = ground arith in
    let e3 : (length s + 1 + length name == full_path_len) ≡ false = ground arith in
    let p1 = store8 p (length s) slash in
    let s1 = s ++ slash ∷ [] in
    let size = length-append s (slash ∷ []) in
    let h1 =
      Holds-append p1 0 s (slash ∷ []) (Holds-store8 p (length s) slash 0 s (inr (omega arith)) h)
        (ground arith, tt) in
    let added =
      name_added p1 s1 name h1 (NoNul-append s (slash ∷ []) chars (omega arith, tt)) n
        (omega (arith, size)) in
    let at : length s1 ≡ length s + 1 = size in
    (
      _,
      rw (e1, e2, e3) refl,
      subst (HasString _) (append_assoc s (slash ∷ []) name) (
          subst (λ o. HasString (store8 (put_bytes p1 o name) (o + length name) 0) (s1 ++ name)) at
            added),
    )

no_slash :
    (p : Memory) (o : ℕ) (c : List ℕ) (a : ℕ)
    → IsName c
    → Holds p o c
    → o ≤ a
    → a < o + length c
    → p a ≢ slash
no_slash p o [] a n h low high = absurd (omega arith)
no_slash p o (d ∷ c) a n h low high = elim (dec_lt o a) [
  | yes inner ↦ no_slash p (o + 1) c a n.3 h.1 (omega arith) (omega arith)
  | no first ↦ let e : p a ≡ d = ap p (omega arith) ∙ h.0 in λ is_slash. n.2 (sym e ∙ is_slash)
]

cut_string :
    (p : Memory) (s t : List ℕ) → HasString p (s ++ t) → HasString (store8 p (length s) 0) s
unfolding store8
cut_string p s t (h, nul, chars, short) =
    let size = length-append s t in
    (
      Holds-store8 p (length s) 0 0 s (inr (omega arith)) (Holds-split p 0 s t h).0,
      ground arith,
      NoNul-split s t chars,
      omega (arith, size),
    )

-- The '/' before the innermost name.
last_slash-path_of :
    (c : List ℕ) (names : List (List ℕ)) (p : Memory)
    → HasString p (path_of (c ∷ names))
    → IsName c
    → last_slash (length (path_of (c ∷ names))) p ≡ some (length (below names))
last_slash-path_of c names p (h, nul, chars, short) n =
    let b = below names in
    let size = length-append b (slash ∷ c) in
    let parts = (Holds-split p 0 b (slash ∷ c) h).1 in
    let at : p (length b) ≡ slash = ap p (omega arith) ∙ parts.0 in
    last_slash-found (length (b ++ slash ∷ c)) (length b) p (omega (arith, size)) at (λ a low high.
      elim (dec_lt a (length (b ++ slash ∷ c))) [
        | yes inside ↦
            no_slash p (0 + length b + 1) c a n parts.1 (omega arith) (omega (arith, size))
        | no last ↦
            let e : p a ≡ 0 = ap p (omega arith) ∙ nul in
            λ is_slash. absurd (omega (arith, sym e ∙ is_slash))
      ])

path_up_lem :
    (p : Memory) (s : List ℕ) (k : ℕ)
    → cur_path p ≡ some s
    → last_slash (length s) p ≡ some k
    → path_up p ≡ some (store8 p (if k == 0 then 1 else k) 0)
unfolding path_up
path_up_lem p s k read found =
    let cut : ℕ → Option Memory = λ i. some (store8 p (if i == 0 then 1 else i) 0) in
    ap (λ o. when_some o (λ s. when_some (last_slash (length s) p) cut)) read
    ∙ ap (λ o. when_some o cut) found

-- Without the innermost name.
pub path_up-path_of :
    (c : List ℕ) (names : List (List ℕ)) (p : Memory)
    → HasString p (path_of (c ∷ names))
    → IsName c
    → AreNames names
    → (p' : Memory) × (path_up p ≡ some p') × HasString p' (path_of names)
path_up-path_of c [] p v n a =
    let read = cur_path-HasString p (path_of (c ∷ [])) v in
    let found = last_slash-path_of c [] p v n in
    (store8 p 1 0, path_up_lem p (path_of (c ∷ [])) 0 read found, cut_string p (slash ∷ []) c v)
path_up-path_of c (d ∷ names) p v n a =
    let read = cur_path-HasString p (path_of (c ∷ d ∷ names)) v in
    let found = last_slash-path_of c (d ∷ names) p v n in
    let s = path_of (d ∷ names) in
    let long = length-path_of d names a.0 in
    let deep : (length s == 0) ≡ false = ground (arith, long) in
    (
      store8 p (length s) 0,
      path_up_lem p (path_of (c ∷ d ∷ names)) (length s) read found
          ∙ ap (λ b. some (store8 p (if b then 1 else length s) 0)) deep,
      cut_string p s (slash ∷ c) v,
    )
