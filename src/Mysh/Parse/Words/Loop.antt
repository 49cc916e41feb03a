-- ===== src/Mysh/Parse/Words/Loop.antt =====
-- mysh/shell/shell.c: the loop of `parse_command`.
use mathlib.Core.Path.{subst}
use mathlib.Core.List.{append_assoc, append-nil}
use my_exercise.Prelude.{
  ℕ, suc, ◌+◌, ◌≤◌, ◌<◌, ◌≡◌, ◌∙◌, refl, ap, sym, inl, inr, Bool, true, false, Bool-cases, dec_lt,
  none, some, List, [], ◌∷◌, ◌++◌, length, length-append, arith, ◌==◌, ltb, leb, if◌then◌else◌,
}
use my_exercise.Bytes.{Memory}
use my_exercise.Mysh.Editor.{command_buf_size}
use my_exercise.Mysh.Parse.{
  arg_max_count, Parsing, arg_gap, arg_byte, parse_loop, fill_argv, is_last, then_parse,
  args_refused, too_many_args, in_arg, toggle,
}
use my_exercise.Mysh.Parse.Words.{add_word, words_from, arguments_from, Outcome}
use my_exercise.Mysh.Parse.Words.Rows.{RowsHold, At, end_arg-At, arg_byte-At, row_string-RowHolds}

arguments_from-RowsHold :
    (n : ℕ) (i : ℕ) (args : Memory) (ws : List (List ℕ))
    → i + length ws ≡ n
    → n < arg_max_count
    → RowsHold args i ws
    → arguments_from
        (length ws)
        i
        (record { argc = n; argv = λ i. if ltb i n then some i else none; args = args })
      ≡ some ws
arguments_from-RowsHold n i args [] e small h = refl
arguments_from-RowsHold n i args (w ∷ ws) e small (h, hs) =
    let inside : ltb i n ≡ true = ground arith in
    let rest = arguments_from-RowsHold n (i + 1) args ws (omega arith) small hs in
    rw (inside, row_string-RowHolds args i w (omega arith) h, rest) refl

-- The end of the line.
pub fill_argv-Outcome :
    (st : Parsing) (done : List (List ℕ))
    → st.args_done ≡ length done
    → length done ≤ arg_max_count
    → RowsHold st.rows 0 done
    → Outcome done (fill_argv st)
unfolding fill_argv
fill_argv-Outcome st done count small h = elim (dec_lt (length done) arg_max_count) [
  | yes few ↦
      let fits : ltb st.args_done arg_max_count ≡ true = ground arith in
      let filled = arguments_from-RowsHold (length done) 0 st.rows done (omega arith) few h in
      let ended : ltb st.args_done st.args_done ≡ false = ground arith in
      rw fits (
        few,
        count,
        subst
            (λ n.
              arguments_from n 0
                (record { argc = n; argv = λ i. if ltb i n then some i else none; args = st.rows })
              ≡ some done)
            (sym count) filled,
        rw ended refl,
      )
  | no many ↦
      let full : ltb st.args_done arg_max_count ≡ false = ground arith in rw full (omega arith)
]

pub add_word-append :
    (cur w : List ℕ) (c : ℕ) (ws : List (List ℕ)) → add_word (cur ++ c ∷ w) ws ≡ (cur ++ c ∷ w) ∷ ws
add_word-append [] w c ws = refl
add_word-append (d ∷ cur) w c ws = refl

-- All the words of a line of which `done` and `cur` are read.
abbrev pub with_rest : List (List ℕ) → List ℕ → List ℕ × List (List ℕ) → List (List ℕ)
with_rest done cur (w, ws) = done ++ add_word (cur ++ w) ws

abbrev pub all_words : List (List ℕ) → List ℕ → Bool → List ℕ → List (List ℕ)
all_words done cur quoted line = with_rest done cur (words_from quoted line)

-- A word ends with the line.
abbrev pub Ready : List ℕ → List ℕ → Type 0
Ready [] cur = cur ≡ []
Ready (c ∷ line) cur = Unit

abbrev pub begun : List ℕ → ℕ
begun [] = 0
begun (c ∷ cur) = 1

pub Ready-nil : (line : List ℕ) → Ready line []
Ready-nil [] = refl
Ready-nil (c ∷ line) = tt

toggle-gap : (c : ℕ) (flag : Bool) → in_arg c flag ≡ false → toggle c flag ≡ flag
toggle-gap c flag h = elim (Bool-cases (c == 32)) [
  | inl e ↦ let n : (c == 34) ≡ false = ground arith in rw n refl
  | inr n ↦ ground (arith, h, n)
]

pub all_words-inside :
    (done : List (List ℕ)) (cur : List ℕ) (c : ℕ) (line : List ℕ) (flag : Bool)
    → in_arg c flag ≡ true
    → all_words done cur flag (c ∷ line) ≡ all_words done (cur ++ c ∷ []) (toggle c flag) line
all_words-inside done cur c line flag h =
    let (w, ws) = words_from (toggle c flag) line in
    ap (λ b. with_rest done cur (if b then (c ∷ w, ws) else ([], add_word w ws))) h
    ∙ ap (λ t. done ++ add_word t ws) (sym (append_assoc cur (c ∷ []) w))

pub all_words-begun :
    (done : List (List ℕ)) (cur : List ℕ) (c : ℕ) (line : List ℕ) (flag : Bool)
    → in_arg c flag ≡ true
    → length done < length (all_words done cur flag (c ∷ line))
all_words-begun done cur c line flag h =
    let (w, ws) = words_from (toggle c flag) line in
    let e = ap (λ b. with_rest done cur (if b then (c ∷ w, ws) else ([], add_word w ws))) h in
    let e2 = ap (λ t. length (done ++ t)) (add_word-append cur w c ws) in
    let e3 = length-append done ((cur ++ c ∷ w) ∷ ws) in
    let e1 = ap (λ t. length t) e in omega (arith, e1, e2, e3)

pub all_words-gap :
    (done : List (List ℕ)) (cur : List ℕ) (c : ℕ) (line : List ℕ) (flag : Bool)
    → in_arg c flag ≡ false
    → all_words done cur flag (c ∷ line) ≡ done ++ add_word cur (all_words [] [] flag line)
all_words-gap done cur c line flag h =
    let (w, ws) = words_from (toggle c flag) line in
    ap (λ b. with_rest done cur (if b then (c ∷ w, ws) else ([], add_word w ws))) h
    ∙ ap (λ t. done ++ add_word t (add_word w ws)) (append-nil cur)
    ∙ ap (λ f. done ++ add_word cur (all_words [] [] f line)) (toggle-gap c flag h)

-- The last byte of the line is in a word.
pub last-Outcome :
    (c : ℕ) (st : Parsing) (done : List (List ℕ)) (cur : List ℕ)
    → At st done cur
    → 0 < c
    → c < 256
    → suc (length cur) < command_buf_size
    → length done < arg_max_count
    → Outcome (done ++ (cur ++ c ∷ []) ∷ []) (then_parse fill_argv (arg_byte c true st))
last-Outcome c st done cur v low high short few =
    let (st1, same, last, flag, v1) = arg_byte-At st done cur v few c low high (omega arith) in
    let size = length-append cur (c ∷ []) in
    let (st2, ended, flag2, count, rows) =
      end_arg-At st1 done (cur ++ c ∷ []) v1 few (omega (arith, size)) in
    subst (λ o. Outcome (done ++ (cur ++ c ∷ []) ∷ []) (then_parse fill_argv o))
      (sym (last ∙ ended))
      (fill_argv-Outcome st2 (done ++ (cur ++ c ∷ []) ∷ []) count
        (omega (arith, length-append done ((cur ++ c ∷ []) ∷ []))) rows)

pub loop_gap :
    (c : ℕ) (line : List ℕ) (st : Parsing)
    → in_arg c st.flag ≡ false
    → parse_loop (c ∷ line) st ≡ then_parse (parse_loop line) (arg_gap st)
unfolding parse_loop
loop_gap c line st gap = rw gap refl

pub loop_full :
    (c : ℕ) (line : List ℕ) (st : Parsing)
    → in_arg c st.flag ≡ true
    → st.oi < command_buf_size
    → arg_max_count ≤ st.args_done
    → parse_loop (c ∷ line) st ≡ args_refused too_many_args
unfolding parse_loop
loop_full c line st inside short full =
    let e1 : leb command_buf_size st.oi ≡ false = ground arith in
    let e2 : leb arg_max_count st.args_done ≡ true = ground arith in rw (inside, e1, e2) refl

pub loop_byte :
    (c : ℕ) (line : List ℕ) (st : Parsing)
    → in_arg c st.flag ≡ true
    → st.oi < command_buf_size
    → st.args_done < arg_max_count
    → parse_loop (c ∷ line) st ≡ then_parse (parse_loop line) (arg_byte c (is_last line) st)
unfolding parse_loop
loop_byte c line st inside short few =
    let e1 : leb command_buf_size st.oi ≡ false = ground arith in
    let e2 : leb arg_max_count st.args_done ≡ false = ground arith in rw (inside, e1, e2) refl
