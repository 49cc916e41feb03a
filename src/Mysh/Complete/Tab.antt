-- ===== src/Mysh/Complete/Tab.antt =====
-- mysh/shell/shell.c: what the tab key completes.
use mathlib.Core.Path.{subst}
use mathlib.Core.List.{append_assoc, append-nil}
use my_exercise.Prelude.{
  ℕ, ◌+◌, ◌-◌, ◌<◌, ◌≡◌, ◌∙◌, refl, ap, sym, inr, true, false, Option, none, some, List, [], ◌∷◌,
  ◌++◌, length, length-append, arith, ◌==◌, ltb, if◌then◌else◌,
}
use my_exercise.Bytes.{store8}
use my_exercise.Mysh.Text.{sh_string}
use my_exercise.Mysh.Text.Holds.{
  NoNul, Holds, Holds-store8, Holds-append, NoNul-append, sh_string-Holds,
}
use my_exercise.Mysh.Editor.{command_buf_size, ShellKeywords, Line, when_some, put_buf}
use my_exercise.Mysh.Complete.{
  keyword, match_loop, find_match, word_loop, append_bytes, after_first, complete_one, by_matches,
  until_nul, auto_complete,
}
use my_exercise.Mysh.Complete.Candidates.{
  rows_of, match_loop-candidates, word_loop-front_of, AllRead, candidates-AllRead, HasKeywords,
  candidates, front_of, NoBlank,
}

until_nul-NoNul : (w : List ℕ) → NoNul w → until_nul w ≡ w
until_nul-NoNul [] n = refl
until_nul-NoNul (c ∷ w) n =
    let low = n.0 in
    let e : (c == 0) ≡ false = ground (arith, low) in rw e (ap (λ t. c ∷ t) (until_nul-NoNul w n.1))

after_first-append : (w tail : List ℕ) → after_first (length w) (w ++ tail) ≡ tail
after_first-append [] tail = refl
after_first-append (c ∷ w) tail = after_first-append w tail

abbrev pub IsByte : List ℕ → Type 0
IsByte [] = Unit
IsByte (c ∷ s) = (c < 256) × IsByte s

append_bytes-Holds :
    (tail : List ℕ) (l : Line) (s : List ℕ)
    → l.i ≡ length s
    → Holds l.buf 0 s
    → NoNul tail
    → IsByte tail
    → length s + length tail < command_buf_size
    → (l' : Line) × (append_bytes tail l ≡ some l')
      × (l'.i ≡ length s + length tail)
      × Holds l'.buf 0 (s ++ tail)
unfolding append_bytes store8
append_bytes-Holds [] l s here h n b room =
    (l, refl, omega (arith, here), subst (Holds l.buf 0) (sym (append-nil s)) h)
append_bytes-Holds (c ∷ tail) l s here h n b room =
    let high = b.0 in
    let fits : ltb l.i command_buf_size ≡ true = ground (arith, here) in
    let p = store8 l.buf l.i c in
    let h1 =
      Holds-append p 0 s (c ∷ []) (Holds-store8 l.buf l.i c 0 s (inr (omega (arith, here))) h)
        (ground (arith, here, high), tt) in
    let size = length-append s (c ∷ []) in
    let (l', done, at, held) =
      append_bytes-Holds tail (record l { buf = p; i = l.i + 1 }) (s ++ c ∷ [])
        (omega (arith, here, size)) h1 n.1 b.1 (omega (arith, room, size)) in
    (
      l',
      rw fits done,
      omega (arith, at, size),
      subst (Holds l'.buf 0) (append_assoc s (c ∷ []) tail) held,
    )

-- The line is the text, and its cursor is behind it.
abbrev pub AtEnd : Line → List ℕ → Type 0
AtEnd l s = (l.i ≡ length s) × Holds l.buf 0 s × NoNul s

NoNul-tail : (w s : List ℕ) → NoNul (w ++ s) → NoNul s
NoNul-tail [] s n = n
NoNul-tail (c ∷ w) s n = NoNul-tail w s n.1

complete_one_lem :
    (k : ShellKeywords) (idx : ℕ) (front w tail : List ℕ) (l : Line)
    → AtEnd l (front ++ w)
    → keyword k idx ≡ some (w ++ tail)
    → NoNul tail
    → IsByte tail
    → length (front ++ w) + length tail < command_buf_size
    → (l' : Line) × (complete_one k idx (length front) l ≡ some (l', tail))
      × (sh_string command_buf_size l'.buf 0 ≡ some ((front ++ w) ++ tail))
      × (l'.i ≡ length ((front ++ w) ++ tail))
unfolding complete_one store8
complete_one_lem k idx front w tail l (here, h, chars) read n b room =
    let size = length-append front w in
    let all = length-append (front ++ w) tail in
    let (l1, done, at, held) = append_bytes-Holds tail l (front ++ w) here h n b room in
    let fits : ltb l1.i command_buf_size ≡ true = ground (arith, at) in
    let from : l.i - length front ≡ length w = omega (arith, here, size) in
    let p = store8 l1.buf l1.i 0 in
    let held1 =
      Holds-store8 l1.buf l1.i 0 0 ((front ++ w) ++ tail) (inr (omega (arith, at, all))) held in
    let last : List ℕ → Line → Option (Line × List ℕ) =
      λ t l1. when_some (put_buf l1.i 0 l1) (λ l2. some (l2, t)) in
    let write : List ℕ → Option (Line × List ℕ) = λ t. when_some (append_bytes t l) (last t) in
    (
      record l1 { buf = p },
      ap (λ o. when_some o (λ s. write (after_first (l.i - length front) s))) read
          ∙ ap (λ m. write (after_first m (w ++ tail))) from
          ∙ ap write (after_first-append w tail)
          ∙ ap (λ o. when_some o (last tail)) done
          ∙ ap
              (λ b.
                when_some (if b then some (record l1 { buf = p }) else none)
                  (λ l2. some (l2, tail)))
              fits,
      sh_string-Holds command_buf_size p 0 ((front ++ w) ++ tail)
          (NoNul-append (front ++ w) tail chars n) held1 (ground (arith, at, all))
          (omega (arith, all)),
      omega (arith, at, all),
    )

-- Where the cursor is at the end of the text, exactly one of the keywords begins with the last word,
-- and the rest of it fits, the tab key writes and prints that rest: the line is then the text with the
-- keyword for its last word.
pub auto_complete-candidates :
    (k : ShellKeywords) (names : List (List ℕ)) (prompt : List ℕ) (f : Option (List ℕ))
    (w tail : List ℕ) (idx : ℕ) (l : Line)
    → HasKeywords k names
    → AtEnd l (front_of f ++ w)
    → NoBlank w
    → candidates w 0 names ≡ (idx, w ++ tail) ∷ []
    → IsByte tail
    → length (front_of f ++ w) + length tail < command_buf_size
    → (l' : Line) × (auto_complete k prompt l ≡ some (l', tail))
      × (sh_string command_buf_size l'.buf 0 ≡ some ((front_of f ++ w) ++ tail))
      × (l'.i ≡ length ((front_of f ++ w) ++ tail))
unfolding auto_complete find_match by_matches
auto_complete-candidates k names prompt f w tail idx l v (here, h, chars) nb one b room =
    let front = front_of f in
    let nw = NoNul-tail front w chars in
    let found = word_loop-front_of f w l.buf h nb in
    let known =
      subst (AllRead k) one (candidates-AllRead k names w 0 v.rows (omega (arith, v.fits))) in
    let (l', done, read, at) =
      complete_one_lem k idx front w tail l (here, h, chars) known.0 (NoNul-tail w tail known.1) b
        room in
    let go : List ℕ × ℕ → Option (Line × List ℕ) =
      λ (tmp, start). by_matches k prompt (find_match k (until_nul tmp)) start l in
    (
      l',
      ap (λ n. go (word_loop n l.buf 0 [] 0)) here
          ∙ ap go found
          ∙ ap (λ t. by_matches k prompt (find_match k t) (length front) l) (until_nul-NoNul w nw)
          ∙ ap (λ n. by_matches k prompt (match_loop n w k.keywords_buf 0) (length front) l) v.count
          ∙ ap (λ t. by_matches k prompt t (length front) l)
              (match_loop-candidates w names k.keywords_buf 0 nw v.rows)
          ∙ ap (λ t. by_matches k prompt (rows_of t) (length front) l) one
          ∙ done,
      read,
      at,
    )
