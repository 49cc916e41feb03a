-- ===== src/Mysh/Editor/Screen.antt =====
-- mysh/shell/shell.c: what the terminal shows. It is one row of cells with a cursor: a byte goes into the cell under the
-- cursor, which moves on, and the byte 8 moves the cursor back.
use my_exercise.Prelude.{
  ℕ, zero, suc, ◌-◌, ◌≡◌, ◌∙◌, refl, ap, sym, List, [], ◌∷◌, ◌++◌, length, replicate, arith, ◌==◌,
  if◌then◌else◌, false,
}
use mathlib.Core.List.{append_assoc}
use my_exercise.Mysh.Editor.{bs, blank}
use my_exercise.Mysh.Editor.Zipper.{IsPrintable, AllPrintable}

-- The cells before the cursor, the nearest first, and those from the cursor on.
abbrev pub Screen : Type 0
Screen = List ℕ × List ℕ

abbrev pub overwrite : ℕ → Screen → Screen
overwrite c (l, []) = (c ∷ l, [])
overwrite c (l, d ∷ r) = (c ∷ l, r)

abbrev pub cursor_back : Screen → Screen
cursor_back ([], r) = ([], r)
cursor_back (c ∷ l, r) = (l, c ∷ r)

abbrev pub feed_byte : ℕ → Screen → Screen
feed_byte c s = if c == bs then cursor_back s else overwrite c s

abbrev pub feed : List ℕ → Screen → Screen
feed [] s = s
feed (c ∷ out) s = feed out (feed_byte c s)

pub feed-append : (xs ys : List ℕ) (s : Screen) → feed (xs ++ ys) s ≡ feed ys (feed xs s)
feed-append [] ys s = refl
feed-append (c ∷ xs) ys s = feed-append xs ys (feed_byte c s)

-- The row shows the text after what stands before it, and blanks after it.
abbrev pub Displays : List ℕ → List ℕ → List ℕ → Screen → Type 0
Displays prompt before after s = (m : ℕ) × (s ≡ (before ++ prompt, after ++ replicate m blank))

abbrev rest_of : List ℕ → List ℕ → List ℕ
rest_of [] cells = cells
rest_of (c ∷ xs) [] = []
rest_of (c ∷ xs) (d ∷ cells) = rest_of xs cells

pub overwrite_printable : (c : ℕ) (s : Screen) → IsPrintable c → feed_byte c s ≡ overwrite c s
overwrite_printable c s h = let n : (c == bs) ≡ false = ground arith in rw n refl

replicate-snoc : (n c : ℕ) → c ∷ replicate n c ≡ replicate n c ++ c ∷ []
replicate-snoc zero c = refl
replicate-snoc (suc n) c = ap (◌∷◌ c) (replicate-snoc n c)

rest_cells : List ℕ → List ℕ
rest_cells [] = []
rest_cells (d ∷ cells) = cells

overwrite_lem : (x : ℕ) (l cells : List ℕ) → overwrite x (l, cells) ≡ (x ∷ l, rest_cells cells)
unfolding rest_cells
overwrite_lem x l [] = refl
overwrite_lem x l (d ∷ cells) = refl

rest_of-cons : (x : ℕ) (xs cells : List ℕ) → rest_of (x ∷ xs) cells ≡ rest_of xs (rest_cells cells)
unfolding rest_cells
rest_of-cons x [] [] = refl
rest_of-cons x (y ∷ xs) [] = refl
rest_of-cons x xs (d ∷ cells) = refl

-- Bytes that are printed, and as many steps back.
pub feed_forth_back :
    (xs l cells : List ℕ)
    → AllPrintable xs
    → feed (xs ++ replicate (length xs) bs) (l, cells) ≡ (l, xs ++ rest_of xs cells)
feed_forth_back [] l cells a = refl
feed_forth_back (x ∷ xs) l cells a =
    let step : feed_byte x (l, cells) ≡ (x ∷ l, rest_cells cells) =
      overwrite_printable x (l, cells) a.0 ∙ overwrite_lem x l cells in
    let back : xs ++ (bs ∷ replicate (length xs) bs) ≡ (xs ++ replicate (length xs) bs) ++ bs ∷ [] =
      ap (λ t. xs ++ t) (replicate-snoc (length xs) bs)
      ∙ sym (append_assoc xs (replicate (length xs) bs) (bs ∷ [])) in
    ap (λ t. feed t (feed_byte x (l, cells))) back
    ∙ ap (feed ((xs ++ replicate (length xs) bs) ++ bs ∷ [])) step
    ∙ feed-append (xs ++ replicate (length xs) bs) (bs ∷ []) (x ∷ l, rest_cells cells)
    ∙ ap (feed (bs ∷ [])) (feed_forth_back xs (x ∷ l) (rest_cells cells) a.1)
    ∙ ap (λ t. (l, x ∷ (xs ++ t))) (sym (rest_of-cons x xs cells))

rest_of-append : (xs ys zs : List ℕ) → length xs ≡ length ys → rest_of xs (ys ++ zs) ≡ zs
rest_of-append [] [] zs n = refl
rest_of-append [] (y ∷ ys) zs n = absurd (omega (arith, n))
rest_of-append (x ∷ xs) [] zs n = absurd (omega (arith, n))
rest_of-append (x ∷ xs) (y ∷ ys) zs n = rest_of-append xs ys zs (omega (arith, n))

-- What is left of the blanks under text that is one byte longer.
rest_of-shifted :
    (xs : List ℕ) (m : ℕ)
    → rest_of xs (rest_cells (xs ++ replicate m blank)) ≡ replicate (m - 1) blank
unfolding rest_cells
rest_of-shifted [] zero = refl
rest_of-shifted [] (suc m) = ap (λ k. replicate k blank) (omega arith)
rest_of-shifted (x ∷ xs) m = rest_of-cons x xs (xs ++ replicate m blank) ∙ rest_of-shifted xs m

-- A byte is typed before the text `after`.
pub typed_shown :
    (c : ℕ) (l after : List ℕ) (m : ℕ)
    → IsPrintable c
    → AllPrintable after
    → feed (c ∷ (after ++ replicate (length after) bs)) (l, after ++ replicate m blank)
      ≡ (c ∷ l, after ++ replicate (m - 1) blank)
typed_shown c l after m p a =
    let step : feed_byte c (l, after ++ replicate m blank)
        ≡ (c ∷ l, rest_cells (after ++ replicate m blank)) =
      overwrite_printable c (l, after ++ replicate m blank) p
      ∙ overwrite_lem c l (after ++ replicate m blank) in
    ap (feed (after ++ replicate (length after) bs)) step
    ∙ feed_forth_back after (c ∷ l) (rest_cells (after ++ replicate m blank)) a
    ∙ ap (λ t. (c ∷ l, after ++ t)) (rest_of-shifted after m)

AllPrintable-snoc :
    (xs : List ℕ) (c : ℕ) → AllPrintable xs → IsPrintable c → AllPrintable (xs ++ c ∷ [])
AllPrintable-snoc [] c a p = (p, tt)
AllPrintable-snoc (x ∷ xs) c a p = (a.0, AllPrintable-snoc xs c a.1 p)

length-snoc : (xs : List ℕ) (c : ℕ) → length (xs ++ c ∷ []) ≡ suc (length xs)
length-snoc [] c = refl
length-snoc (x ∷ xs) c = ap suc (length-snoc xs c)

-- The byte `c` before the cursor goes away.
pub backspace_shown :
    (c : ℕ) (l after : List ℕ) (m : ℕ)
    → AllPrintable after
    → feed
        (bs ∷ (after ++ (blank ∷ (replicate (length after) bs ++ (bs ∷ [])))))
        (c ∷ l, after ++ replicate m blank)
      ≡ (l, after ++ replicate (suc m) blank)
backspace_shown c l after m a =
    let xs = after ++ blank ∷ [] in
    let size : length xs ≡ suc (length after) = length-snoc after blank in
    let printed : after ++ (blank ∷ (replicate (length after) bs ++ (bs ∷ [])))
        ≡ xs ++ replicate (length xs) bs =
      ap (λ t. after ++ blank ∷ t) (sym (replicate-snoc (length after) bs))
      ∙ sym (append_assoc after (blank ∷ []) (bs ∷ replicate (length after) bs))
      ∙ ap (λ n. xs ++ replicate n bs) (sym size) in
    let shown =
      feed_forth_back xs l (c ∷ (after ++ replicate m blank))
        (AllPrintable-snoc after blank a (omega arith, omega arith)) in
    let rest : rest_of xs (c ∷ (after ++ replicate m blank)) ≡ replicate m blank =
      rest_of-append xs (c ∷ after) (replicate m blank) size in
    ap (λ t. feed t (l, c ∷ (after ++ replicate m blank))) printed
    ∙ shown
    ∙ ap (λ t. (l, xs ++ t)) rest
    ∙ ap (λ t. (l, t)) (append_assoc after (blank ∷ []) (replicate m blank))
