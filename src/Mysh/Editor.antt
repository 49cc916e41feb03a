-- ===== src/Mysh/Editor.antt =====
-- mysh/shell/shell.c, mysh/shell/shell.h: `read_input` and the functions of its keys. The line is what stands before the
-- cursor, in `buf`, and what stands behind it, at the end of `exbuf`. `none` is an access outside one of the two arrays, of
-- 2048 bytes each.
pub mod Zipper
pub mod Screen
pub mod Keys
use my_exercise.Prelude.{
  ℕ, zero, suc, ◌+◌, ◌-◌, ◌*◌, ◌%◌, ◌==◌, leb, ltb, ◌&&◌, ◌||◌, if◌then◌else◌, Bool, true, false,
  Option, none, some, List, [], ◌∷◌, ◌++◌, length, map, replicate,
}
use my_exercise.Bytes.{Memory, store8, memcpy}
use my_exercise.Mysh.Text.{codes, crlf, sh_string, positive, positive_string, sh_clear}

abbrev pub command_buf_size : ℕ
command_buf_size = 2048

abbrev pub history_maxitems : ℕ
history_maxitems = 50

abbrev pub max_key_word_size : ℕ
max_key_word_size = 32

abbrev pub max_key_word_cnt : ℕ
max_key_word_cnt = 1024

abbrev pub key_up : ℕ
key_up = 0x41

abbrev pub key_down : ℕ
key_down = 0x42

abbrev pub key_right : ℕ
key_right = 0x43

abbrev pub key_left : ℕ
key_left = 0x44

abbrev pub key_del : ℕ
key_del = 0x33

abbrev pub key_backspace : ℕ
key_backspace = 127

-- The bytes that move the cursor of the terminal to the left, and go over a cell.
abbrev pub bs : ℕ
bs = 8

abbrev pub blank : ℕ
blank = 32

-- `cmd_records_t`
pub record CmdRecords : Type 0 where
  pub cmd_idx : ℕ
  pub level : ℕ
  pub cmd_buf : ℕ → Memory

-- `shell_keywords_t`; the rows of `keywords_buf` follow one another.
pub record ShellKeywords : Type 0 where
  pub keywords_cnt : ℕ
  pub keywords_buf : Memory

-- The variables of `read_input`. `ex` is `ie + 1`, where the text behind the cursor begins.
pub record Line : Type 0 where
  pub buf : Memory
  pub i : ℕ
  pub exbuf : Memory
  pub ex : ℕ

-- A step on the line, with what it prints.
abbrev pub Edit : Type 0
Edit = Option (Line × List ℕ)

-- What stands behind the cursor.
abbrev pub behind : Line → Option (List ℕ)
behind l = positive_string (command_buf_size - l.ex) l.exbuf l.ex

abbrev pub when_some : {A B : Type 0} → Option A → (A → Option B) → Option B
when_some none f = none
when_some (some a) f = f a

-- A write to `buf[k]`.
abbrev pub put_buf : ℕ → ℕ → Line → Option Line
put_buf k c l = if ltb k command_buf_size then some (record l { buf = store8 l.buf k c }) else none

unfoldable pub key_backspace_process : Line → Edit
unfolding store8 positive_string
key_backspace_process l =
    if l.i == 0
    then some (l, [])
    else when_some (behind l) (λ after. when_some (put_buf l.i 0 l) (λ l1. some (
      record l1 { i = l.i - 1 },
      if positive (l.exbuf l.ex)
          then bs ∷ (after ++ (blank ∷ (replicate (length after) bs ++ (bs ∷ []))))
          else bs ∷ blank ∷ bs ∷ [],
    )))

unfoldable pub key_left_process : Line → Edit
unfolding store8
key_left_process l =
    if l.i == 0
    then some (l, [])
    else if l.ex == 0
    then none
    else some (
      record {
        buf = store8 l.buf (l.i - 1) 0;
        i = l.i - 1;
        exbuf = store8 l.exbuf (l.ex - 1) (l.buf (l.i - 1));
        ex = l.ex - 1;
      },
      bs ∷ [],
    )

unfoldable pub key_right_process : Line → Edit
unfolding store8
key_right_process l =
    if positive (l.exbuf l.ex)
    then when_some (put_buf l.i (l.exbuf l.ex) l) (λ l1.
      some (
        record l1 { i = l.i + 1; exbuf = store8 l.exbuf l.ex 0; ex = l.ex + 1 },
        l.exbuf l.ex ∷ [],
      ))
    else some (l, [])

unfoldable pub key_del_process : Line → Edit
unfolding key_right_process key_backspace_process
key_del_process l =
    if positive (l.exbuf l.ex)
    then when_some (key_right_process l)
        (λ (l1, out1). when_some (key_backspace_process l1) (λ (l2, out2). some (l2, out1 ++ out2)))
    else some (l, [])

-- `(cmd_idx - back) % HISTORY_MAXITEMS`; the remainder of a negative number is not positive in C, and a negative
-- index is outside the array.
unfoldable pub history_index : ℕ → ℕ → Option ℕ
history_index cmd_idx back =
    if leb back cmd_idx
    then some ((cmd_idx - back) % history_maxitems)
    else if (back - cmd_idx) % history_maxitems == 0
    then some 0
    else none

-- `history_process(-back, …)`
unfoldable pub history_process : CmdRecords → ℕ → Line → Edit
unfolding history_index positive_string sh_string memcpy
history_process records back l = when_some (history_index records.cmd_idx back) (λ cmd_idx.
    when_some (behind l) (λ after.
      let buf = memcpy l.buf 0 (records.cmd_buf cmd_idx) 0 command_buf_size in
      when_some (sh_string command_buf_size buf 0) (λ s. some (
        record {
          buf = buf;
          i = length s;
          exbuf = sh_clear l.exbuf 0 command_buf_size;
          ex = command_buf_size - 1;
        },
        replicate l.i bs
            ++ replicate l.i blank
            ++ replicate (length after) blank
            ++ replicate l.i bs
            ++ replicate (length after) bs
            ++ s,
      ))))

-- A typed byte; the text behind the cursor is printed again.
unfoldable pub insert_char : ℕ → Line → Edit
unfolding store8 positive_string
insert_char c l = when_some (put_buf l.i c l) (λ l1.
    when_some (behind l)
      (λ after. some (record l1 { i = l.i + 1 }, c ∷ (after ++ replicate (length after) bs))))
