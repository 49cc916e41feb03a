-- ===== src/Mysh/Complete/Match.antt =====
-- mysh/shell/shell.c: `match_cmd` tells whether two strings are the same.
use my_exercise.Prelude.{
  ℕ, ◌≡◌, ◌≢◌, ◌∙◌, refl, ap, sym, true, false, List, [], ◌∷◌, length, ◌==◌, if◌then◌else◌,
  Bool-cases, inl, inr, arith,
}
use my_exercise.Mysh.Complete.{same_bytes, match_cmd}

same_bytes-≡ : (a b : List ℕ) → length a ≡ length b → same_bytes a b ≡ true → a ≡ b
same_bytes-≡ [] [] l h = refl
same_bytes-≡ [] (d ∷ b) l h = absurd (omega (arith, l))
same_bytes-≡ (c ∷ a) [] l h = absurd (omega (arith, l))
same_bytes-≡ (c ∷ a) (d ∷ b) l h = elim (Bool-cases (c == d)) [
  | inl y ↦
      let same : same_bytes a b ≡ true =
        ap (λ x. if x then same_bytes a b else false) (sym y) ∙ h in
      let head : c ≡ d = ground (arith, y) in
      ap (λ x. x ∷ a) head ∙ ap (λ xs. d ∷ xs) (same_bytes-≡ a b (omega (arith, l)) same)
  | inr n ↦
      let no : false ≡ true = ap (λ x. if x then same_bytes a b else false) (sym n) ∙ h in
      absurd (ground (arith, no))
]

pub match_cmd-differ : (a b : List ℕ) → a ≢ b → match_cmd a b ≡ false
unfolding match_cmd
match_cmd-differ a b differ = elim (Bool-cases (length a == length b)) [
  | inr n ↦ rw n refl
  | inl y ↦ elim (Bool-cases (same_bytes a b)) [
    | inr n ↦ rw (y, n) refl
    | inl same ↦ absurd (differ (same_bytes-≡ a b (ground (arith, y)) same))
  ]
]
