-- ===== src/Mysh/Parse/Words/Whole.antt =====
-- mysh/shell/shell.c: what `parse_command` does with a line.
use mathlib.Core.Path.{subst, subst₂}
use mathlib.Core.List.{append_assoc, append-nil}
use my_exercise.Prelude.{
  ℕ, ◌+◌, ◌≤◌, ◌<◌, ◌≡◌, ◌∙◌, refl, ap, sym, inl, inr, true, false, Bool-cases, dec_lt, List, [],
  ◌∷◌, ◌++◌, length, length-append, arith,
}
use my_exercise.Bytes.{Memory}
use my_exercise.Mysh.Editor.{command_buf_size}
use my_exercise.Mysh.Parse.{
  arg_max_count, Parsing, arg_gap, arg_byte, parse_loop, parse_command, fill_argv, is_last,
  then_parse, in_arg, toggle,
}
use my_exercise.Mysh.Parse.Words.{add_word, words, Outcome, IsText}
use my_exercise.Mysh.Parse.Words.Rows.{At, arg_byte-At, arg_gap-At, arg_gap-nil}
use my_exercise.Mysh.Parse.Words.Loop.{
  all_words, Ready, begun, Ready-nil, add_word-append, fill_argv-Outcome, all_words-inside,
  all_words-begun, all_words-gap, last-Outcome, loop_gap, loop_full, loop_byte,
}

-- What the rest of the line gives behind an argument that is finished.
gap-Outcome :
    (line : List ℕ) (st : Parsing) (done : List (List ℕ)) (cur : List ℕ)
    → At st done cur
    → length cur < command_buf_size
    → length done + begun cur ≤ arg_max_count
    → ((st1 : Parsing) (done1 : List (List ℕ))
        → At st1 done1 []
        → length done1 ≤ arg_max_count
        → Outcome (all_words done1 [] st1.flag line) (parse_loop line st1))
    → Outcome
        (done ++ add_word cur (all_words [] [] st.flag line))
        (then_parse (parse_loop line) (arg_gap st))
gap-Outcome line st done [] v short few ih =
    subst (λ o. Outcome (all_words done [] st.flag line) (then_parse (parse_loop line) o))
      (sym (arg_gap-nil st done v)) (ih st done v (omega (arith, few)))
gap-Outcome line st done (d ∷ cur) v short few ih =
    let (st1, ended, flag, v1) =
      arg_gap-At st done (d ∷ cur) v (omega (arith, few)) short (omega arith) in
    let ws = all_words [] [] st.flag line in
    let e : all_words (done ++ (d ∷ cur) ∷ []) [] st1.flag line ≡ done ++ (d ∷ cur) ∷ ws =
      ap (λ f. all_words (done ++ (d ∷ cur) ∷ []) [] f line) flag
      ∙ append_assoc done ((d ∷ cur) ∷ []) ws in
    subst (λ o. Outcome (done ++ (d ∷ cur) ∷ ws) (then_parse (parse_loop line) o)) (sym ended)
      (subst (λ ws. Outcome ws (parse_loop line st1)) e
        (ih st1 (done ++ (d ∷ cur) ∷ []) v1
          (omega (arith, few, length-append done ((d ∷ cur) ∷ [])))))

-- A byte of an argument, where the line has more bytes.
byte-Outcome :
    (c d : ℕ) (line : List ℕ) (st : Parsing) (done : List (List ℕ)) (cur : List ℕ)
    → At st done cur
    → 0 < c
    → c < 256
    → length cur < command_buf_size
    → length done < arg_max_count
    → ((st1 : Parsing)
        → At st1 done (cur ++ c ∷ [])
        → Outcome (all_words done (cur ++ c ∷ []) st1.flag (d ∷ line)) (parse_loop (d ∷ line) st1))
    → Outcome
        (all_words done (cur ++ c ∷ []) (toggle c st.flag) (d ∷ line))
        (then_parse (parse_loop (d ∷ line)) (arg_byte c false st))
byte-Outcome c d line st done cur v low high short few ih =
    let (st1, same, last, flag, v1) = arg_byte-At st done cur v few c low high short in
    subst
      (λ o.
        Outcome (all_words done (cur ++ c ∷ []) (toggle c st.flag) (d ∷ line))
          (then_parse (parse_loop (d ∷ line)) o))
      (sym same)
      (subst
        (λ f. Outcome (all_words done (cur ++ c ∷ []) f (d ∷ line)) (parse_loop (d ∷ line) st1))
        flag (ih st1 v1))

word-Outcome :
    (c : ℕ) (line : List ℕ) (st : Parsing) (done : List (List ℕ)) (cur : List ℕ)
    → At st done cur
    → 0 < c
    → c < 256
    → length cur + length (c ∷ line) < command_buf_size
    → length done < arg_max_count
    → ((st1 : Parsing)
        → At st1 done (cur ++ c ∷ [])
        → Ready line (cur ++ c ∷ [])
        → Outcome (all_words done (cur ++ c ∷ []) st1.flag line) (parse_loop line st1))
    → Outcome
        (all_words done (cur ++ c ∷ []) (toggle c st.flag) line)
        (then_parse (parse_loop line) (arg_byte c (is_last line) st))
unfolding parse_loop
word-Outcome c [] st done cur v low high short few ih =
    let e : add_word ((cur ++ c ∷ []) ++ []) [] ≡ (cur ++ c ∷ []) ∷ [] =
      ap (λ t. add_word t []) (append-nil (cur ++ c ∷ [])) ∙ add_word-append cur [] c [] in
    subst (λ ws. Outcome (done ++ ws) (then_parse (parse_loop []) (arg_byte c true st))) (sym e)
      (last-Outcome c st done cur v low high (omega (arith, short)) few)
word-Outcome c (d ∷ line) st done cur v low high short few ih =
    byte-Outcome c d line st done cur v low high (omega (arith, short)) few (λ st1 v1. ih st1 v1 tt)

begun-snoc : (cur : List ℕ) (c : ℕ) → begun (cur ++ c ∷ []) ≡ 1
begun-snoc [] c = refl
begun-snoc (d ∷ cur) c = refl

loop-Outcome :
    (line : List ℕ) (st : Parsing) (done : List (List ℕ)) (cur : List ℕ)
    → At st done cur
    → Ready line cur
    → IsText line
    → length cur + length line < command_buf_size
    → length done + begun cur ≤ arg_max_count
    → Outcome (all_words done cur st.flag line) (parse_loop line st)
unfolding parse_loop
loop-Outcome [] st done cur v ready t short few =
    let e : all_words done cur st.flag [] ≡ done =
      ap (λ k. done ++ add_word (k ++ []) []) ready ∙ append-nil done in
    subst (λ ws. Outcome ws (fill_argv st)) (sym e)
      (fill_argv-Outcome st done v.count (omega (arith, few)) v.finished)
loop-Outcome (c ∷ line) st done cur v ready t short few = elim (Bool-cases (in_arg c st.flag)) [
  | inr gap ↦
      subst₂ (λ ws p. Outcome ws p) (sym (all_words-gap done cur c line st.flag gap))
        (sym (loop_gap c line st gap))
        (gap-Outcome line st done cur v (omega (arith, short)) few (λ st1 done1 v1 few1.
          loop-Outcome line st1 done1 [] v1 (Ready-nil line) t.2 (omega (arith, short))
            (omega (arith, few1))))
  | inl inside ↦ elim (dec_lt (length done) arg_max_count) [
    | no full ↦
        let large = all_words-begun done cur c line st.flag inside in
        subst (λ p. Outcome (all_words done cur st.flag (c ∷ line)) p)
          (sym (loop_full c line st inside (omega (arith, v.fill, short)) (omega (arith, v.count))))
          (omega (arith, large, few), refl)
    | yes room ↦
        subst₂ (λ ws p. Outcome ws p) (sym (all_words-inside done cur c line st.flag inside))
          (sym (loop_byte c line st inside (omega (arith, v.fill, short)) (omega (arith, v.count))))
          (word-Outcome c line st done cur v t.0 t.1 short room (λ st1 v1 ready1.
            loop-Outcome line st1 done (cur ++ c ∷ []) v1 ready1 t.2
              (omega (arith, short, length-append cur (c ∷ [])))
              (omega (arith, room, begun-snoc cur c))))
  ]
]

-- For a line of fewer than 2048 bytes, none of them a NUL, `parse_command` hands over the words of the
-- line when there are fewer than ten of them: `argc` is their number, `argv` gives them in their
-- order, and its next entry is 0. It refuses the line with its message when there are more than ten.
-- With ten words it writes outside `argv`.
pub parse_command-Outcome :
    (line : List ℕ) (args : Memory)
    → IsText line
    → length line < command_buf_size
    → Outcome (words line) (parse_command line args)
unfolding parse_command
parse_command-Outcome line args t short =
    loop-Outcome line (record { args_done = 0; oi = 0; flag = false; rows = args }) [] []
      (record { count = refl; fill = refl; finished = tt; row = tt; chars = tt }) (Ready-nil line) t
      (omega (arith, short)) (omega arith)
