-- ===== src/Mysh/Editor/Keys.antt =====
-- mysh/shell/shell.c: what the operations of the keys do to a line that stands for a text with a cursor in it, and to the
-- terminal that shows it.
use my_exercise.Prelude.{
  ℕ, suc, ◌+◌, ◌-◌, ◌≤◌, ◌<◌, ◌≡◌, ◌∙◌, refl, ap, inl, some, List, [], ◌∷◌, ◌++◌, length, replicate,
  arith, ◌==◌, ltb, if◌then◌else◌, true, false,
}
use mathlib.Core.Path.{subst}
use my_exercise.Bytes.{store8}
use my_exercise.Mysh.Text.Holds.{Holds, Holds-store8}
use my_exercise.Mysh.Text.{positive}
use my_exercise.Mysh.Editor.{
  Line, Edit, command_buf_size, when_some, key_backspace_process, key_left_process,
  key_right_process, key_del_process, insert_char, bs, blank,
}
use my_exercise.Mysh.Editor.Zipper.{
  Zipper, edit, typed, backspace, move_left, move_right, delete, IsPrintable, StandsFor,
  HoldsBack-store8, behind_lem,
}
use my_exercise.Mysh.Editor.Screen.{
  Screen, feed, feed_byte, overwrite_printable, feed-append, Displays, typed_shown, backspace_shown,
}

-- The operation makes the line stand for the text, and the terminal show it.
abbrev pub Edited : List ℕ → Zipper → Screen → Edit → Type 0
Edited prompt z s e =
    (l : Line) × (out : List ℕ) × (e ≡ some (l, out))
    × StandsFor l z.0 z.1
    × Displays prompt z.0 z.1 (feed out s)

module _ (prompt : List ℕ) (l : Line) (before after : List ℕ) (s : Screen)
    (v : StandsFor l before after) (d : Displays prompt before after s) where
  pub insert_char-Edited :
      (c : ℕ)
      → IsPrintable c
      → suc (length before + length after) < command_buf_size
      → Edited prompt (edit (typed c) (before, after)) s (insert_char c l)
  unfolding insert_char store8
  insert_char-Edited c p room =
      let l1 = record l { buf = store8 l.buf l.i c; i = l.i + 1 } in
      let fits : ltb l.i command_buf_size ≡ true = ground (arith, v.here, v.room) in
      let printed = c ∷ (after ++ replicate (length after) bs) in
      let done : insert_char c l ≡ some (l1, printed) =
        rw (fits, behind_lem l before after v) refl in
      (
        l1,
        printed,
        done,
        record {
          here = omega (arith, v.here);
          left = (
            ground (arith, v.here),
            HoldsBack-store8 l.buf l.i c before (omega (arith, v.here)) v.left,
          );
          right = v.right;
          ends = v.ends;
          nul = v.nul;
          before_chars = (p, v.before_chars);
          after_chars = v.after_chars;
          room = omega (arith, room);
        },
        (
          d.0 - 1,
          ap (feed printed) d.1 ∙ typed_shown c (before ++ prompt) after d.0 p v.after_chars,
        ),
      )

-- Whether something stands behind the cursor.
positive_lem :
    (l : Line) (before : List ℕ) (c : ℕ) (after : List ℕ)
    → StandsFor l before (c ∷ after)
    → positive (l.exbuf l.ex) ≡ true
positive_lem l before c after v =
    ap positive v.right.0 ∙ (let p = v.after_chars.0 in ground (arith, p))

positive-nil :
    (l : Line) (before : List ℕ) → StandsFor l before [] → positive (l.exbuf l.ex) ≡ false
positive-nil l before v = ap (λ k. positive (l.exbuf k)) (omega (arith, v.ends)) ∙ ap positive v.nul

erased : List ℕ → List ℕ
erased after = bs ∷ (after ++ (blank ∷ (replicate (length after) bs ++ (bs ∷ []))))

erased_lem :
    (l : Line) (before after : List ℕ)
    → StandsFor l before after
    → (if positive (l.exbuf l.ex) then erased after else bs ∷ blank ∷ bs ∷ []) ≡ erased after
unfolding erased
erased_lem l before [] v = rw (positive-nil l before v) refl
erased_lem l before (c ∷ after) v = rw (positive_lem l before c after v) refl

pub key_backspace_process-Edited :
    (prompt : List ℕ) (l : Line) (before after : List ℕ) (s : Screen)
    → StandsFor l before after
    → Displays prompt before after s
    → Edited prompt (edit backspace (before, after)) s (key_backspace_process l)
unfolding key_backspace_process store8 erased
key_backspace_process-Edited prompt l [] after s v d = (l, [], rw (v.here) refl, v, d)
key_backspace_process-Edited prompt l (c ∷ before) after s v d =
    let l1 = record l { buf = store8 l.buf l.i 0; i = l.i - 1 } in
    let some_before : (l.i == 0) ≡ false = ground (arith, v.here) in
    let fits : ltb l.i command_buf_size ≡ true = ground (arith, v.here, v.room) in
    let done : key_backspace_process l ≡ some (l1, erased after) =
      rw (some_before, behind_lem l (c ∷ before) after v, fits, erased_lem l (c ∷ before) after v)
        refl in
    (
      l1,
      erased after,
      done,
      record {
        here = omega (arith, v.here);
        left = HoldsBack-store8 l.buf l.i 0 before (omega (arith, v.here)) v.left.1;
        right = v.right;
        ends = v.ends;
        nul = v.nul;
        before_chars = v.before_chars.1;
        after_chars = v.after_chars;
        room = omega (arith, v.room);
      },
      (
        suc d.0,
        ap (feed (erased after)) d.1 ∙ backspace_shown c (before ++ prompt) after d.0 v.after_chars,
      ),
    )

pub key_left_process-Edited :
    (prompt : List ℕ) (l : Line) (before after : List ℕ) (s : Screen)
    → StandsFor l before after
    → Displays prompt before after s
    → Edited prompt (edit move_left (before, after)) s (key_left_process l)
unfolding key_left_process store8
key_left_process-Edited prompt l [] after s v d = (l, [], rw (v.here) refl, v, d)
key_left_process-Edited prompt l (c ∷ before) after s v d =
    let l1 : Line = record {
      buf = store8 l.buf (l.i - 1) 0;
      i = l.i - 1;
      exbuf = store8 l.exbuf (l.ex - 1) (l.buf (l.i - 1));
      ex = l.ex - 1;
    } in
    let some_before : (l.i == 0) ≡ false = ground (arith, v.here) in
    let some_room : (l.ex == 0) ≡ false = ground (arith, v.ends, v.room) in
    let some_ex : 1 ≤ l.ex = omega (arith, v.ends, v.room) in
    let p = v.before_chars.0 in
    let moved : l.buf (l.i - 1) ≡ c = ap l.buf (omega (arith, v.here)) ∙ v.left.0 in
    (
      l1,
      bs ∷ [],
      rw (some_before, some_room) refl,
      record {
        here = omega (arith, v.here);
        left = HoldsBack-store8 l.buf (l.i - 1) 0 before (omega (arith, v.here)) v.left.1;
        right = (
          ground (arith, moved, p),
          Holds-store8 l.exbuf (l.ex - 1) (l.buf (l.i - 1)) (l.ex - 1 + 1) after (inl (omega arith))
              (subst (λ k. Holds l.exbuf k after) (omega (arith, some_ex)) v.right),
        );
        ends = omega (arith, v.ends, v.room);
        nul = ground (arith, v.nul, v.ends, v.room);
        before_chars = v.before_chars.1;
        after_chars = (v.before_chars.0, v.after_chars);
        room = omega (arith, v.room);
      },
      (d.0, ap (feed (bs ∷ [])) d.1),
    )

pub key_right_process-Edited :
    (prompt : List ℕ) (l : Line) (before after : List ℕ) (s : Screen)
    → StandsFor l before after
    → Displays prompt before after s
    → Edited prompt (edit move_right (before, after)) s (key_right_process l)
unfolding key_right_process store8
key_right_process-Edited prompt l before [] s v d = (l, [], rw (positive-nil l before v) refl, v, d)
key_right_process-Edited prompt l before (c ∷ after) s v d =
    let l1 : Line = record {
      buf = store8 l.buf l.i (l.exbuf l.ex);
      i = l.i + 1;
      exbuf = store8 l.exbuf l.ex 0;
      ex = l.ex + 1;
    } in
    let e : l.exbuf l.ex ≡ c = v.right.0 in
    let p = v.after_chars.0 in
    let fits : ltb l.i command_buf_size ≡ true = ground (arith, v.here, v.room) in
    (
      l1,
      l.exbuf l.ex ∷ [],
      rw (positive_lem l before c after v, fits) refl,
      record {
        here = omega (arith, v.here);
        left = (
          ground (arith, v.here, e, p),
          HoldsBack-store8 l.buf l.i (l.exbuf l.ex) before (omega (arith, v.here)) v.left,
        );
        right = Holds-store8 l.exbuf l.ex 0 (l.ex + 1) after (inl (omega arith)) v.right.1;
        ends = omega (arith, v.ends);
        nul = ground (arith, v.nul, v.ends);
        before_chars = (v.after_chars.0, v.before_chars);
        after_chars = v.after_chars.1;
        room = omega (arith, v.room);
      },
      (
        d.0,
        ap (feed (l.exbuf l.ex ∷ [])) d.1
            ∙ ap (λ x. feed_byte x (before ++ prompt, c ∷ (after ++ replicate d.0 blank))) e
            ∙ overwrite_printable c (before ++ prompt, c ∷ (after ++ replicate d.0 blank)) p,
      ),
    )

pub key_del_process-Edited :
    (prompt : List ℕ) (l : Line) (before after : List ℕ) (s : Screen)
    → StandsFor l before after
    → Displays prompt before after s
    → Edited prompt (edit delete (before, after)) s (key_del_process l)
unfolding key_del_process
key_del_process-Edited prompt l before [] s v d = (l, [], rw (positive-nil l before v) refl, v, d)
key_del_process-Edited prompt l before (c ∷ after) s v d =
    let (l1, out1, done1, v1, d1) = key_right_process-Edited prompt l before (c ∷ after) s v d in
    let (l2, out2, done2, v2, d2) =
      key_backspace_process-Edited prompt l1 (c ∷ before) after (feed out1 s) v1 d1 in
    let then_erase : Line × List ℕ → Edit =
      λ (l1, out1). when_some (key_backspace_process l1) (λ (l2, out2). some (l2, out1 ++ out2)) in
    let done : key_del_process l ≡ some (l2, out1 ++ out2) =
      ap (λ b. if b then when_some (key_right_process l) then_erase else some (l, []))
        (positive_lem l before c after v)
      ∙ ap (λ e. when_some e then_erase) done1
      ∙ ap (λ e. when_some {B = Line × List ℕ} e (λ (l2, out2). some (l2, out1 ++ out2))) done2 in
    (l2, out1 ++ out2, done, v2, (d2.0, feed-append out1 out2 s ∙ d2.1))
