-- ===== src/Mysh/Parse/Words/Rows.antt =====
-- mysh/shell/shell.c: the rows of `args` while `parse_command` fills them.
use mathlib.Core.Path.{subst}
use my_exercise.Prelude.{
  ℕ, ◌+◌, ◌-◌, ◌*◌, ◌≤◌, ◌<◌, ◌≡◌, ◌∙◌, refl, ap, inr, true, false, some, List, [], ◌∷◌, ◌++◌,
  length, length-append, arith, ◌==◌, ltb, if◌then◌else◌,
}
use my_exercise.Bytes.{Memory, store8}
use my_exercise.Mysh.Text.Holds.{NoNul, Holds, Holds-store8, sh_string-Holds}
use my_exercise.Mysh.Editor.{command_buf_size, when_some}
use my_exercise.Mysh.Parse.{
  arg_max_count, Parsing, put_arg, end_arg, arg_byte, arg_gap, toggle, row_string,
}

-- The row holds the word and its NUL.
abbrev pub RowHolds : Memory → ℕ → List ℕ → Type 0
RowHolds args row w =
    Holds args (command_buf_size * row) w
    × (args (command_buf_size * row + length w) ≡ 0)
    × (length w < command_buf_size)
    × NoNul w

abbrev pub RowsHold : Memory → ℕ → List (List ℕ) → Type 0
RowsHold args row [] = Unit
RowsHold args row (w ∷ ws) = RowHolds args row w × RowsHold args (row + 1) ws

pub RowsHold-store8 :
    (args : Memory) (row : ℕ) (ws : List (List ℕ)) (a c : ℕ)
    → command_buf_size * (row + length ws) ≤ a
    → RowsHold args row ws
    → RowsHold (store8 args a c) row ws
unfolding store8
RowsHold-store8 args row [] a c out h = tt
RowsHold-store8 args row (w ∷ ws) a c out ((h, nul, short, chars), hs) = (
  (
    Holds-store8 args a c (command_buf_size * row) w (inr (omega arith)) h,
    ground (arith, nul),
    short,
    chars,
  ),
  RowsHold-store8 args (row + 1) ws a c (omega arith) hs,
)

pub RowsHold-snoc :
    (args : Memory) (row : ℕ) (ws : List (List ℕ)) (w : List ℕ)
    → RowsHold args row ws
    → RowHolds args (row + length ws) w
    → RowsHold args row (ws ++ w ∷ [])
RowsHold-snoc args row [] w h hw = (subst (λ k. RowHolds args k w) (omega arith) hw, tt)
RowsHold-snoc args row (v ∷ ws) w h hw =
    (h.0, RowsHold-snoc args (row + 1) ws w h.1 (subst (λ k. RowHolds args k w) (omega arith) hw))

pub Holds-snoc :
    (p : Memory) (o : ℕ) (w : List ℕ) (c : ℕ)
    → Holds p o w
    → p (o + length w) ≡ c
    → Holds p o (w ++ c ∷ [])
Holds-snoc p o [] c h e = (ap p (omega arith) ∙ e, tt)
Holds-snoc p o (d ∷ w) c h e = (h.0, Holds-snoc p (o + 1) w c h.1 (ap p (omega arith) ∙ e))

pub NoNul-snoc : (w : List ℕ) (c : ℕ) → NoNul w → 0 < c → NoNul (w ++ c ∷ [])
NoNul-snoc [] c h p = (p, tt)
NoNul-snoc (d ∷ w) c h p = (h.0, NoNul-snoc w c h.1 p)

-- The words that are finished, and the one that is not.
pub record At (st : Parsing) (done : List (List ℕ)) (cur : List ℕ) : Type 0 where
  pub count : st.args_done ≡ length done
  pub fill : st.oi ≡ length cur
  pub finished : RowsHold st.rows 0 done
  pub row : Holds st.rows (command_buf_size * length done) cur
  pub chars : NoNul cur

module _ (st : Parsing) (done : List (List ℕ)) (cur : List ℕ) (v : At st done cur)
    (room : length done < arg_max_count) where
  put_arg_lem :
      (c : ℕ)
      → length cur < command_buf_size
      → put_arg c st
        ≡ some (record st { rows = store8 st.rows (command_buf_size * st.args_done + st.oi) c })
  put_arg_lem c short =
      let fits : ltb (command_buf_size * st.args_done + st.oi) (command_buf_size * arg_max_count)
          ≡ true =
        ground (arith, v.count, v.fill) in
      rw fits refl

  pub end_arg-At :
      length cur < command_buf_size
      → (st1 : Parsing) × (end_arg st ≡ some st1)
        × (st1.flag ≡ st.flag)
        × (st1.args_done ≡ length (done ++ cur ∷ []))
        × RowsHold st1.rows 0 (done ++ cur ∷ [])
  unfolding end_arg store8
  end_arg-At short =
      let a = command_buf_size * st.args_done + st.oi in
      let p = store8 st.rows a 0 in
      let at_row : a ≡ command_buf_size * length done + length cur =
        omega (arith, v.count, v.fill) in
      let rows = RowsHold-store8 st.rows 0 done a 0 (omega (arith, at_row)) v.finished in
      let row =
        Holds-store8 st.rows a 0 (command_buf_size * length done) cur (inr (omega (arith, at_row)))
          v.row in
      let nul : p (command_buf_size * length done + length cur) ≡ 0 = ground (arith, at_row) in
      (
        record st { rows = p; args_done = st.args_done + 1 },
        rw (put_arg_lem 0 short) refl,
        refl,
        omega (arith, v.count, length-append done (cur ∷ [])),
        RowsHold-snoc p 0 done cur rows
            (subst (λ k. RowHolds p k cur) (omega arith) (row, nul, short, v.chars)),
      )

  pub arg_byte-At :
      (c : ℕ)
      → 0 < c
      → c < 256
      → length cur < command_buf_size
      → (st1 : Parsing) × (arg_byte c false st ≡ some st1)
        × (arg_byte c true st ≡ end_arg st1)
        × (st1.flag ≡ toggle c st.flag)
        × At st1 done (cur ++ c ∷ [])
  unfolding arg_byte end_arg store8
  arg_byte-At c low high short =
      let a = command_buf_size * st.args_done + st.oi in
      let p = store8 st.rows a c in
      let at_row : a ≡ command_buf_size * length done + length cur =
        omega (arith, v.count, v.fill) in
      let row =
        Holds-store8 st.rows a c (command_buf_size * length done) cur (inr (omega (arith, at_row)))
          v.row in
      let here : p (command_buf_size * length done + length cur) ≡ c = ground (arith, at_row) in
      (
        record st { rows = p; oi = st.oi + 1; flag = toggle c st.flag },
        rw (put_arg_lem c short) refl,
        rw (put_arg_lem c short) refl,
        refl,
        record {
          count = v.count;
          fill = omega (arith, v.fill, length-append cur (c ∷ []));
          finished = RowsHold-store8 st.rows 0 done a c (omega (arith, at_row)) v.finished;
          row = Holds-snoc p (command_buf_size * length done) cur c row here;
          chars = NoNul-snoc cur c v.chars low;
        },
      )

  -- Behind an argument, and behind another blank.
  pub arg_gap-At :
      length cur < command_buf_size
      → 0 < length cur
      → (st1 : Parsing) × (arg_gap st ≡ some st1)
        × (st1.flag ≡ st.flag)
        × At st1 (done ++ cur ∷ []) []
  unfolding arg_gap
  arg_gap-At short some_cur =
      let (st1, ended, flag, count, rows) = end_arg-At short in
      let behind : (st.oi == 0) ≡ false = ground (arith, v.fill) in
      (
        record st1 { oi = 0 },
        ap
              (λ b.
                if b then some st else when_some (end_arg st) (λ st1. some (record st1 { oi = 0 })))
              behind
            ∙ ap (λ o. when_some {B = Parsing} o (λ st1. some (record st1 { oi = 0 }))) ended,
        flag,
        record { count = count; fill = refl; finished = rows; row = tt; chars = tt },
      )

pub arg_gap-nil : (st : Parsing) (done : List (List ℕ)) → At st done [] → arg_gap st ≡ some st
unfolding arg_gap
arg_gap-nil st done v = let e : (st.oi == 0) ≡ true = ground (arith, v.fill) in rw e refl

-- The rows are the words.
pub row_string-RowHolds :
    (args : Memory) (row : ℕ) (w : List ℕ)
    → row < arg_max_count
    → RowHolds args row w
    → row_string args row ≡ some w
row_string-RowHolds args row w inside (h, nul, short, chars) =
    sh_string-Holds (command_buf_size * arg_max_count - command_buf_size * row) args
      (command_buf_size * row) w chars h nul (omega arith)
