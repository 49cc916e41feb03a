-- ===== src/Mysh/Input/Press.antt =====
-- mysh/shell/shell.c: what `read_input` makes of the bytes of keys.
use mathlib.Core.List.{append_assoc}
use my_exercise.Prelude.{
  ℕ, suc, ◌+◌, ◌<◌, ◌≡◌, ◌∙◌, refl, ap, List, [], ◌∷◌, ◌++◌, length, arith, ◌==◌, leb, false,
}
use my_exercise.Mysh.Editor.{
  CmdRecords, ShellKeywords, Line, Edit, command_buf_size, insert_char, key_left_process,
  key_right_process, key_backspace_process, key_del_process,
}
use my_exercise.Mysh.Editor.Zipper.{
  Zipper, Key, typed, backspace, move_left, move_right, delete, edit, edit_all, IsPrintable,
  StandsFor,
}
use my_exercise.Mysh.Editor.Screen.{Screen, feed, feed-append, Displays}
use my_exercise.Mysh.Editor.Keys.{
  Edited, insert_char-Edited, key_backspace_process-Edited, key_left_process-Edited,
  key_right_process-Edited, key_del_process-Edited,
}
use my_exercise.Mysh.Input.{
  plain, bracket, Reader, go_on, plain_byte, bracket_byte, edited, read_byte, read_loop,
}

-- The bytes that the terminal sends for a key.
abbrev pub key_bytes : Key → List ℕ
key_bytes (typed c) = c ∷ []
key_bytes backspace = 127 ∷ []
key_bytes move_left = 0x1b ∷ 0x5b ∷ 0x44 ∷ []
key_bytes move_right = 0x1b ∷ 0x5b ∷ 0x43 ∷ []
key_bytes delete = 0x1b ∷ 0x5b ∷ 0x33 ∷ 0x7e ∷ []

abbrev pub keys_bytes : List Key → List ℕ
keys_bytes [] = []
keys_bytes (k ∷ keys) = key_bytes k ++ keys_bytes keys

-- The keys type printable characters.
abbrev pub AreTypeable : List Key → Type 0
AreTypeable [] = Unit
AreTypeable (typed c ∷ keys) = IsPrintable c × AreTypeable keys
AreTypeable (backspace ∷ keys) = AreTypeable keys
AreTypeable (move_left ∷ keys) = AreTypeable keys
AreTypeable (move_right ∷ keys) = AreTypeable keys
AreTypeable (delete ∷ keys) = AreTypeable keys

abbrev pub typed_count : List Key → ℕ
typed_count [] = 0
typed_count (typed c ∷ keys) = suc (typed_count keys)
typed_count (backspace ∷ keys) = typed_count keys
typed_count (move_left ∷ keys) = typed_count keys
typed_count (move_right ∷ keys) = typed_count keys
typed_count (delete ∷ keys) = typed_count keys

abbrev pub reader : ℕ → Line → Reader
reader back l = record { line = l; back = back; mode = plain }

module _ (records : CmdRecords) (keywords : ShellKeywords) (prompt : List ℕ) where
  -- The loop goes over the bytes, and has then a line that stands for the text, which the terminal shows.
  abbrev pub Passes : List ℕ → ℕ → Line → List ℕ → List ℕ → Screen → Zipper → Type 0
  Passes bytes back l out shown s z =
      (l' : Line) × (out' : List ℕ) × ((rest : List ℕ)
        → read_loop records keywords prompt (bytes ++ rest) (reader back l) out
          ≡ read_loop records keywords prompt rest (reader back l') out')
      × StandsFor l' z.0 z.1
      × Displays shown z.0 z.1 (feed out' s)

  printable_byte :
      (c back : ℕ) (l : Line)
      → IsPrintable c
      → l.i < command_buf_size
      → plain_byte records keywords prompt c (reader back l) ≡ edited back (insert_char c l)
  unfolding plain_byte
  printable_byte c back l p room =
      let n1 : (c == 10) ≡ false = ground arith in
      let n2 : (c == 13) ≡ false = ground arith in
      let n3 : (c == 127) ≡ false = ground arith in
      let n4 : (c == 0x1b) ≡ false = ground arith in
      let n5 : (c == 9) ≡ false = ground arith in
      let n6 : leb command_buf_size l.i ≡ false = ground arith in rw (n1, n2, n3, n4, n5, n6) refl

  printed :
      (shown : List ℕ) (s : Screen) (z : Zipper) (out out1 o : List ℕ)
      → feed out1 s ≡ feed out s
      → Displays shown z.0 z.1 (feed o (feed out s))
      → Displays shown z.0 z.1 (feed (out1 ++ o) s)
  printed shown s z out out1 o h d = (d.0, feed-append out1 o s ∙ ap (feed o) h ∙ d.1)

  feed-nil : (out : List ℕ) (s : Screen) → feed (out ++ []) s ≡ feed out s
  feed-nil out s = feed-append out [] s

  -- A key of one byte, and those of three and four.
  plain_byte-Passes :
      (c back : ℕ) (l : Line) (out shown : List ℕ) (s : Screen) (z : Zipper) (e : Edit)
      → Edited shown z (feed out s) e
      → plain_byte records keywords prompt c (reader back l) ≡ edited back e
      → Passes (c ∷ []) back l out shown s z
  unfolding read_loop read_byte
  plain_byte-Passes c back l out shown s z e (l', o, done, v, d) h = (
    l',
    out ++ o,
    (λ rest.
        ap (go_on (read_loop records keywords prompt rest) rest out) (h ∙ ap (edited back) done)),
    v,
    printed shown s z out out o refl d,
  )

  bracket_byte-Passes :
      (c back : ℕ) (l : Line) (out shown : List ℕ) (s : Screen) (z : Zipper) (e : Edit)
      → Edited shown z (feed out s) e
      → bracket_byte records keywords prompt c (record { line = l; back = back; mode = bracket })
        ≡ edited back e
      → Passes (0x1b ∷ 0x5b ∷ c ∷ []) back l out shown s z
  unfolding read_loop read_byte
  bracket_byte-Passes c back l out shown s z e (l', o, done, v, d) h = (
    l',
    ((out ++ []) ++ []) ++ o,
    (λ rest.
        ap (go_on (read_loop records keywords prompt rest) rest ((out ++ []) ++ []))
          (h ∙ ap (edited back) done)),
    v,
    printed shown s z out ((out ++ []) ++ []) o (feed-nil (out ++ []) s ∙ feed-nil out s) d,
  )

  delete-Passes :
      (c back : ℕ) (l : Line) (out shown : List ℕ) (s : Screen) (z : Zipper)
      → Edited shown z (feed out s) (key_del_process l)
      → Passes (0x1b ∷ 0x5b ∷ 0x33 ∷ c ∷ []) back l out shown s z
  unfolding read_loop read_byte bracket_byte
  delete-Passes c back l out shown s z (l', o, done, v, d) =
      let before = ((out ++ []) ++ []) ++ [] in
      (
        l',
        before ++ o,
        (λ rest.
            ap (go_on (read_loop records keywords prompt rest) rest before)
              (ap (edited back) done)),
        v,
        printed shown s z out before o
            (feed-nil ((out ++ []) ++ []) s ∙ feed-nil (out ++ []) s ∙ feed-nil out s) d,
      )

  press :
      (k : Key) (keys : List Key) (before after : List ℕ) (back : ℕ) (l : Line) (out shown : List ℕ)
      (s : Screen)
      → AreTypeable (k ∷ keys)
      → length before + length after + typed_count (k ∷ keys) < command_buf_size
      → StandsFor l before after
      → Displays shown before after (feed out s)
      → Passes (key_bytes k) back l out shown s (edit k (before, after))
  unfolding plain_byte bracket_byte
  press (typed c) keys before after back l out shown s a room v d =
      plain_byte-Passes c back l out shown s (edit (typed c) (before, after)) (insert_char c l)
        (insert_char-Edited shown l before after (feed out s) v d c a.0 (omega (arith, room)))
        (printable_byte c back l a.0 (omega (arith, v.here, v.room)))
  press backspace keys before after back l out shown s a room v d =
      plain_byte-Passes 127 back l out shown s (edit backspace (before, after))
        (key_backspace_process l)
        (key_backspace_process-Edited shown l before after (feed out s) v d) refl
  press move_left keys before after back l out shown s a room v d =
      bracket_byte-Passes 0x44 back l out shown s (edit move_left (before, after))
        (key_left_process l) (key_left_process-Edited shown l before after (feed out s) v d) refl
  press move_right keys before after back l out shown s a room v d =
      bracket_byte-Passes 0x43 back l out shown s (edit move_right (before, after))
        (key_right_process l) (key_right_process-Edited shown l before after (feed out s) v d) refl
  press delete keys before after back l out shown s a room v d =
      delete-Passes 0x7e back l out shown s (edit delete (before, after))
        (key_del_process-Edited shown l before after (feed out s) v d)

  typeable_rest : (k : Key) (keys : List Key) → AreTypeable (k ∷ keys) → AreTypeable keys
  typeable_rest (typed c) keys a = a.1
  typeable_rest backspace keys a = a
  typeable_rest move_left keys a = a
  typeable_rest move_right keys a = a
  typeable_rest delete keys a = a

  abbrev size : Zipper → ℕ
  size (before, after) = length before + length after

  size-edit :
      (k : Key) (keys : List Key) (before after : List ℕ)
      → size (before, after) + typed_count (k ∷ keys) < command_buf_size
      → size (edit k (before, after)) + typed_count keys < command_buf_size
  size-edit (typed c) keys before after h = omega (arith, h)
  size-edit backspace keys [] after h = h
  size-edit backspace keys (c ∷ before) after h = omega (arith, h)
  size-edit move_left keys [] after h = h
  size-edit move_left keys (c ∷ before) after h = omega (arith, h)
  size-edit move_right keys before [] h = h
  size-edit move_right keys before (c ∷ after) h = omega (arith, h)
  size-edit delete keys before [] h = h
  size-edit delete keys before (c ∷ after) h = omega (arith, h)

  -- All the keys, one after the other.
  pub press_all :
      (keys : List Key) (before after : List ℕ) (back : ℕ) (l : Line) (out shown : List ℕ)
      (s : Screen)
      → AreTypeable keys
      → length before + length after + typed_count keys < command_buf_size
      → StandsFor l before after
      → Displays shown before after (feed out s)
      → Passes (keys_bytes keys) back l out shown s (edit_all keys (before, after))
  press_all [] before after back l out shown s a room v d = (l, out, (λ rest. refl), v, d)
  press_all (k ∷ keys) before after back l out shown s a room v d =
      let (l1, out1, pass1, v1, d1) = press k keys before after back l out shown s a room v d in
      let z = edit k (before, after) in
      let (l2, out2, pass2, v2, d2) =
        press_all keys z.0 z.1 back l1 out1 shown s (typeable_rest k keys a)
          (size-edit k keys before after room) v1 d1 in
      (
        l2,
        out2,
        (λ rest.
            ap (λ t. read_loop records keywords prompt t (reader back l) out)
              (append_assoc (key_bytes k) (keys_bytes keys) rest)
            ∙ pass1 (keys_bytes keys ++ rest)
            ∙ pass2 rest),
        v2,
        d2,
      )
