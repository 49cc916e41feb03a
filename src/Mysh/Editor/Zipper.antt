-- ===== src/Mysh/Editor/Zipper.antt =====
-- mysh/shell/shell.c: the two arrays of `read_input` stand for a text with a cursor in it.
use my_exercise.Prelude.{
  ℕ, zero, suc, ◌+◌, ◌-◌, ◌≤◌, ◌<◌, ◌≡◌, ◌∙◌, ap, some, List, [], ◌∷◌, length, arith,
}
use my_exercise.Bytes.{Memory, store8}
use my_exercise.Mysh.Text.Holds.{Holds}
use my_exercise.Mysh.Text.{positive_string}
use my_exercise.Mysh.Editor.{Line, command_buf_size, behind}

-- The text before the cursor, the nearest byte first, and the text behind it.
abbrev pub Zipper : Type 0
Zipper = List ℕ × List ℕ

pub data Key : Type 0 where
  typed : ℕ → Key
  backspace move_left move_right delete : Key

-- What a key does to the text.
abbrev pub edit : Key → Zipper → Zipper
edit (typed c) (before, after) = (c ∷ before, after)
edit backspace ([], after) = ([], after)
edit backspace (c ∷ before, after) = (before, after)
edit move_left ([], after) = ([], after)
edit move_left (c ∷ before, after) = (before, c ∷ after)
edit move_right (before, []) = (before, [])
edit move_right (before, c ∷ after) = (c ∷ before, after)
edit delete (before, []) = (before, [])
edit delete (before, c ∷ after) = (before, after)

abbrev pub edit_all : List Key → Zipper → Zipper
edit_all [] z = z
edit_all (k ∷ keys) z = edit_all keys (edit k z)

-- The text, from its start.
abbrev pub text : Zipper → List ℕ
text ([], after) = after
text (c ∷ before, after) = text (before, c ∷ after)

-- A printable ASCII character.
abbrev pub IsPrintable : ℕ → Type 0
IsPrintable c = (32 ≤ c) × (c < 127)

abbrev pub AllPrintable : List ℕ → Type 0
AllPrintable [] = Unit
AllPrintable (c ∷ s) = IsPrintable c × AllPrintable s

-- The bytes stand before `p + length s`, the last one first in the list.
abbrev pub HoldsBack : Memory → List ℕ → Type 0
HoldsBack p [] = Unit
HoldsBack p (c ∷ s) = (p (length s) ≡ c) × HoldsBack p s

pub record StandsFor (l : Line) (before after : List ℕ) : Type 0 where
  pub here : l.i ≡ length before
  pub left : HoldsBack l.buf before
  pub right : Holds l.exbuf l.ex after
  pub ends : l.ex + length after ≡ command_buf_size - 1
  pub nul : l.exbuf (command_buf_size - 1) ≡ 0
  pub before_chars : AllPrintable before
  pub after_chars : AllPrintable after
  pub room : length before + length after < command_buf_size

pub HoldsBack-store8 :
    (p : Memory) (k c : ℕ) (s : List ℕ) → length s ≤ k → HoldsBack p s → HoldsBack (store8 p k c) s
unfolding store8
HoldsBack-store8 p k c [] out h = tt
HoldsBack-store8 p k c (d ∷ s) out h = (ground arith, HoldsBack-store8 p k c s (omega arith) h.1)

pub positive_string-Holds :
    (n : ℕ) (p : Memory) (o : ℕ) (s : List ℕ)
    → AllPrintable s
    → Holds p o s
    → p (o + length s) ≡ 0
    → length s < n
    → positive_string n p o ≡ some s
unfolding positive_string
positive_string-Holds zero p o s a h z l = absurd (omega arith)
positive_string-Holds (suc n) p o [] a h z l =
    let nul : p o ≡ 0 = ap p (omega arith) ∙ z in ground (arith, nul)
positive_string-Holds (suc n) p o (c ∷ s) a h z l =
    let rest = positive_string-Holds n p (o + 1) s a.1 h.1 (ap p (omega arith) ∙ z) (omega arith) in
    ground (arith, rest, h.0, a.0)

pub behind_lem :
    (l : Line) (before after : List ℕ) → StandsFor l before after → behind l ≡ some after
behind_lem l before after v =
    positive_string-Holds (command_buf_size - l.ex) l.exbuf l.ex after v.after_chars v.right
      (ap l.exbuf v.ends ∙ v.nul) (omega (arith, v.ends))
