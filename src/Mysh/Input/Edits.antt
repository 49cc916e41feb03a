-- ===== src/Mysh/Input/Edits.antt =====
-- mysh/shell/shell.c: `read_input` as a line editor.
use mathlib.Core.List.{append-nil}
use mathlib.Core.Path.{subst}
use my_exercise.Prelude.{
  ℕ, ◌+◌, ◌<◌, ◌≡◌, ◌∙◌, refl, ap, sym, some, List, [], ◌∷◌, ◌++◌, length, arith, ltb, true,
}
use my_exercise.Bytes.{Memory, store8}
use my_exercise.Mysh.Text.Holds.{Holds, NoNul, sh_string-Holds}
use my_exercise.Mysh.Text.{sh_string, crlf}
use my_exercise.Mysh.Editor.{CmdRecords, ShellKeywords, Line, command_buf_size, when_some}
use my_exercise.Mysh.Editor.Zipper.{
  Key, edit_all, text, AllPrintable, HoldsBack, HoldsBack-store8, StandsFor, behind_lem,
}
use my_exercise.Mysh.Editor.Screen.{Displays, feed}
use my_exercise.Mysh.Input.{
  waits, line_read, read_input, read_loop, go_on, plain_byte, read_byte, enter, entered, ended,
  join_line, no_line, Reader,
}
use my_exercise.Mysh.Input.Press.{AreTypeable, typed_count, keys_bytes, press_all, reader}

Holds-text :
    (p : Memory) (before after : List ℕ)
    → HoldsBack p before
    → Holds p (length before) after
    → Holds p 0 (text (before, after))
Holds-text p [] after b a = a
Holds-text p (c ∷ before) after b a =
    Holds-text p before (c ∷ after) b.1 (b.0, subst (λ k. Holds p k after) (omega arith) a)

length-text : (before after : List ℕ) → length (text (before, after)) ≡ length before + length after
length-text [] after = omega arith
length-text (c ∷ before) after = length-text before (c ∷ after) ∙ omega arith

AllPrintable-text :
    (before after : List ℕ)
    → AllPrintable before
    → AllPrintable after
    → AllPrintable (text (before, after))
AllPrintable-text [] after b a = a
AllPrintable-text (c ∷ before) after b a = AllPrintable-text before (c ∷ after) b.1 (b.0, a)

AllPrintable-NoNul : (s : List ℕ) → AllPrintable s → NoNul s
AllPrintable-NoNul [] a = tt
AllPrintable-NoNul (c ∷ s) a = let p = a.0 in (ground arith, AllPrintable-NoNul s a.1)

join_line-text :
    (after : List ℕ) (l : Line) (before : List ℕ)
    → l.i ≡ length before
    → HoldsBack l.buf before
    → AllPrintable before
    → AllPrintable after
    → length before + length after < command_buf_size
    → (l' : Line) × (join_line after l ≡ some l')
      × (sh_string command_buf_size l'.buf 0 ≡ some (text (before, after)))
unfolding join_line store8
join_line-text [] l before here left b a room =
    let fits : ltb l.i command_buf_size ≡ true = ground (arith, here) in
    let size = length-text before [] in
    let p = store8 l.buf l.i 0 in
    let holds : Holds p 0 (text (before, [])) =
      Holds-text p before [] (HoldsBack-store8 l.buf l.i 0 before (omega (arith, here)) left) tt in
    (
      record l { buf = p },
      rw fits refl,
      sh_string-Holds command_buf_size p 0 (text (before, []))
          (AllPrintable-NoNul (text (before, [])) (AllPrintable-text before [] b tt)) holds
          (ground (arith, here, size)) (omega (arith, size)),
    )
join_line-text (c ∷ after) l before here left b a room =
    let fits : ltb l.i command_buf_size ≡ true = ground (arith, here) in
    let q = a.0 in
    let l1 = record l { buf = store8 l.buf l.i c; i = l.i + 1 } in
    let (l', done, read) =
      join_line-text after l1 (c ∷ before) (omega (arith, here))
        (ground (arith, here, q), HoldsBack-store8 l.buf l.i c before (omega (arith, here)) left)
        (a.0, b) a.1 (omega (arith, room)) in
    (l', rw fits done, read)

no_line-StandsFor : (input : Memory) → StandsFor (no_line input) [] []
no_line-StandsFor input = record {
  here = refl;
  left = tt;
  right = tt;
  ends = refl;
  nul = refl;
  before_chars = tt;
  after_chars = tt;
  room = omega arith;
}

enter_lem :
    (l : Line) (before after : List ℕ)
    → StandsFor l before after
    → (q : Memory) × (enter l ≡ entered q crlf)
      × (sh_string command_buf_size q 0 ≡ some (text (before, after)))
unfolding enter
enter_lem l before after v =
    let (l', done, read) =
      join_line-text after l before v.here v.left v.before_chars v.after_chars v.room in
    (
      l'.buf,
      ap (λ o. ended (when_some o (λ after. join_line after l))) (behind_lem l before after v)
          ∙ ap ended done,
      read,
    )

module _ (records : CmdRecords) (keywords : ShellKeywords) (prompt : List ℕ) (input : Memory) where
  -- For keys that type printable ASCII characters, fewer than 2048 of them, delete to the left and to the right, and move
  -- the cursor to the left and to the right, and then the enter key, `read_input` returns the text of an
  -- editor on which the same keys were pressed, as a string of its buffer, and leaves the bytes behind unread.
  pub read_input-edit_all :
      (keys : List Key) (rest : List ℕ)
      → AreTypeable keys
      → typed_count keys < command_buf_size
      → (line : Memory) × (out : List ℕ) × (read_input records keywords prompt input
            (keys_bytes keys ++ 13 ∷ rest)
          ≡ line_read line rest out)
        × (sh_string command_buf_size line 0 ≡ some (text (edit_all keys ([], []))))
  unfolding read_input read_loop read_byte plain_byte
  read_input-edit_all keys rest a room =
      let (l, out, pass, v, d) =
        press_all records keywords prompt keys [] [] 0 (no_line input) [] [] ([], []) a
          (omega (arith, room)) (no_line-StandsFor input) (0, refl) in
      let z = edit_all keys ([], []) in
      let (q, done, read) = enter_lem l z.0 z.1 v in
      (
        q,
        out ++ crlf,
        pass (13 ∷ rest) ∙ ap (go_on (read_loop records keywords prompt rest) rest out) done,
        read,
      )

  -- After any keys that type printable ASCII characters, fewer than 2048 of them, delete to the left and
  -- to the right, and move the cursor to the left and to the right, `read_input` waits for the next
  -- byte; a terminal that is given what it printed, behind what its row shows already, shows the text of
  -- an editor on which the same keys were pressed, nothing but blanks behind it, and its cursor where
  -- the editor's is.
  pub read_input-Displays :
      (keys : List Key) (shown : List ℕ)
      → AreTypeable keys
      → typed_count keys < command_buf_size
      → (r : Reader) × (out : List ℕ) × (read_input records keywords prompt input (keys_bytes keys)
          ≡ waits r out)
        × Displays shown
            (edit_all keys ([], [])).0
            (edit_all keys ([], [])).1
            (feed out (shown, []))
  unfolding read_input read_loop
  read_input-Displays keys shown a room =
      let (l, out, pass, v, d) =
        press_all records keywords prompt keys [] [] 0 (no_line input) [] shown (shown, []) a
          (omega (arith, room)) (no_line-StandsFor input) (0, refl) in
      (
        reader 0 l,
        out,
        ap (λ t. read_loop records keywords prompt t (reader 0 (no_line input)) [])
              (sym (append-nil (keys_bytes keys)))
            ∙ pass [],
        d,
      )
