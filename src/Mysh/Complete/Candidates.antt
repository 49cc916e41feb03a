-- ===== src/Mysh/Complete/Candidates.antt =====
-- mysh/shell/shell.c: the loops that look for the keywords of a word.
use mathlib.Core.Path.{subst}
use mathlib.Core.List.{append_assoc, append-nil}
use my_exercise.Prelude.{
  ℕ, ◌+◌, ◌-◌, ◌*◌, ◌≤◌, ◌<◌, ◌≡◌, ◌≢◌, ◌∙◌, refl, ap, sym, inl, inr, true, false, Bool-cases,
  Option, none, some, List, [], ◌∷◌, ◌++◌, length, length-append, arith, ◌==◌, if◌then◌else◌,
}
use my_exercise.Bytes.{Memory}
use my_exercise.CString.{has_prefix}
use my_exercise.Mysh.Text.Holds.{NoNul, Holds, sh_string-Holds}
use my_exercise.Mysh.Editor.{max_key_word_size, max_key_word_cnt, blank, ShellKeywords}
use my_exercise.Mysh.Complete.{keyword, starts_at, match_loop, word_loop}

-- The rows from `row` on hold the names.
abbrev pub RowsAre : Memory → ℕ → List (List ℕ) → Type 0
RowsAre p row [] = Unit
RowsAre p row (s ∷ names) =
    (Holds p (max_key_word_size * row) s
      × (p (max_key_word_size * row + length s) ≡ 0)
      × NoNul s
      × (length s < max_key_word_size))
    × RowsAre p (row + 1) names

pub record HasKeywords (k : ShellKeywords) (names : List (List ℕ)) : Type 0 where
  pub count : k.keywords_cnt ≡ length names
  pub fits : length names ≤ max_key_word_cnt
  pub rows : RowsAre k.keywords_buf 0 names

-- The names that begin with the word, with their rows.
abbrev pub candidates : List ℕ → ℕ → List (List ℕ) → List (ℕ × List ℕ)
candidates w row [] = []
candidates w row (s ∷ names) =
    let rest = candidates w (row + 1) names in if has_prefix s w then (row, s) ∷ rest else rest

abbrev pub rows_of : List (ℕ × List ℕ) → List ℕ
rows_of [] = []
rows_of ((row, s) ∷ found) = row ∷ rows_of found

starts_at-has_prefix :
    (w s : List ℕ) (p : Memory) (o : ℕ)
    → NoNul w
    → Holds p o s
    → p (o + length s) ≡ 0
    → starts_at w p o ≡ has_prefix s w
unfolding has_prefix
starts_at-has_prefix [] s p o nw h nul = refl
starts_at-has_prefix (c ∷ w) [] p o nw h nul =
    let low = nw.0 in
    let e : p o ≡ 0 = ap p (omega arith) ∙ nul in
    let n : (c == p o) ≡ false = ground (arith, low, e) in rw n refl
starts_at-has_prefix (c ∷ w) (d ∷ s) p o nw h nul =
    let rest = starts_at-has_prefix w s p (o + 1) nw.1 h.1 (ap p (omega arith) ∙ nul) in
    let at : p o ≡ d = h.0 in
    elim (Bool-cases (d == c)) [
      | inl e ↦ let e1 : (c == p o) ≡ true = ground (arith, at, e) in rw (e1, e) rest
      | inr e ↦ let e1 : (c == p o) ≡ false = ground (arith, at, e) in rw (e1, e) refl
    ]

pub match_loop-candidates :
    (w : List ℕ) (names : List (List ℕ)) (p : Memory) (row : ℕ)
    → NoNul w
    → RowsAre p row names
    → match_loop (length names) w p row ≡ rows_of (candidates w row names)
unfolding match_loop
match_loop-candidates w [] p row nw h = refl
match_loop-candidates w (s ∷ names) p row nw (h, hs) =
    let first = starts_at-has_prefix w s p (max_key_word_size * row) nw h.0 h.1 in
    let rest = match_loop-candidates w names p (row + 1) nw hs in
    elim (Bool-cases (has_prefix s w)) [
      | inl e ↦ rw (first, rest, e) refl
      | inr e ↦ rw (first, rest, e) refl
    ]

-- What stands before the word: nothing, or something that ends in a blank.
abbrev pub front_of : Option (List ℕ) → List ℕ
front_of none = []
front_of (some f) = f ++ blank ∷ []

abbrev pub NoBlank : List ℕ → Type 0
NoBlank [] = Unit
NoBlank (c ∷ w) = (c ≢ blank) × NoBlank w

word_loop-word :
    (w : List ℕ) (buf : Memory) (o : ℕ) (tmp : List ℕ) (start : ℕ)
    → Holds buf o w
    → NoBlank w
    → word_loop (length w) buf o tmp start ≡ (tmp ++ w, start)
unfolding word_loop
word_loop-word [] buf o tmp start h n = ap (λ t. (t, start)) (sym (append-nil tmp))
word_loop-word (c ∷ w) buf o tmp start h n =
    let at : buf o ≡ c = h.0 in
    let differs = n.0 in
    let other : (buf o == blank) ≡ false = ground (arith, at, differs) in
    let rest = word_loop-word w buf (o + 1) (tmp ++ buf o ∷ []) start h.1 n.1 in
    rw other
      (rest ∙ ap (λ t. (t, start)) (append_assoc tmp (buf o ∷ []) w ∙ ap (λ b. tmp ++ b ∷ w) at))

word_loop-front :
    (f w : List ℕ) (buf : Memory) (o : ℕ) (tmp : List ℕ) (start : ℕ)
    → Holds buf o (f ++ blank ∷ w)
    → NoBlank w
    → word_loop (length (f ++ blank ∷ w)) buf o tmp start ≡ (w, o + length f + 1)
unfolding word_loop
word_loop-front [] w buf o tmp start h n =
    let here : (buf o == blank) ≡ true = (let at = h.0 in ground (arith, at)) in
    rw here (word_loop-word w buf (o + 1) [] (o + 1) h.1 n ∙ ap (λ k. (w, k)) (omega arith))
word_loop-front (c ∷ f) w buf o tmp start h n = elim (Bool-cases (buf o == blank)) [
  | inl e ↦ rw e (word_loop-front f w buf (o + 1) [] (o + 1) h.1 n ∙ ap (λ k. (w, k)) (omega arith))
  | inr e ↦ rw e (
      word_loop-front f w buf (o + 1) (tmp ++ buf o ∷ []) start h.1 n
      ∙ ap (λ k. (w, k)) (omega arith))
]

pub word_loop-front_of :
    (f : Option (List ℕ)) (w : List ℕ) (buf : Memory)
    → Holds buf 0 (front_of f ++ w)
    → NoBlank w
    → word_loop (length (front_of f ++ w)) buf 0 [] 0 ≡ (w, length (front_of f))
word_loop-front_of none w buf h n = word_loop-word w buf 0 [] 0 h n
word_loop-front_of (some f) w buf h n =
    let e : (f ++ blank ∷ []) ++ w ≡ f ++ blank ∷ w = append_assoc f (blank ∷ []) w in
    let size = length-append f (blank ∷ []) in
    ap (λ t. word_loop (length t) buf 0 [] 0) e
    ∙ word_loop-front f w buf 0 [] 0 (subst (Holds buf 0) e h) n
    ∙ ap (λ k. (w, k)) (omega (arith, size))

abbrev pub AllRead : ShellKeywords → List (ℕ × List ℕ) → Type 0
AllRead k [] = Unit
AllRead k ((row, s) ∷ found) = (keyword k row ≡ some s) × NoNul s × AllRead k found

-- The rows of the names are read back.
pub candidates-AllRead :
    (k : ShellKeywords) (names : List (List ℕ)) (w : List ℕ) (row : ℕ)
    → RowsAre k.keywords_buf row names
    → row + length names ≤ max_key_word_cnt
    → AllRead k (candidates w row names)
unfolding keyword
candidates-AllRead k [] w row h fits = tt
candidates-AllRead k (s ∷ names) w row (h, hs) fits =
    let rest = candidates-AllRead k names w (row + 1) hs (omega (arith, fits)) in
    let short = h.3 in
    let read : keyword k row ≡ some s =
      sh_string-Holds (max_key_word_size * max_key_word_cnt - max_key_word_size * row)
        k.keywords_buf (max_key_word_size * row) s h.2 h.0 h.1 (omega (arith, fits, short)) in
    elim (Bool-cases (has_prefix s w)) [ inl e ↦ rw e (read, h.2, rest) | inr e ↦ rw e rest ]
