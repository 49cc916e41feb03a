-- ===== src/Mysh/Shell/History.antt =====
-- mysh/shell/shell.c: the ring of past lines.
use my_exercise.Prelude.{
  ℕ, zero, suc, ◌+◌, ◌-◌, ◌%◌, ◌≤◌, ◌<◌, ◌≡◌, ◌∙◌, refl, ap, inl, inr, true, false, Bool-cases,
  dec_lt, ◌||◌, ◌&&◌, Option, none, some, List, ◌∷◌, length, get_elem?, arith, ◌==◌, leb, ltb,
  if◌then◌else◌,
}
use my_exercise.Bytes.{Memory, memcpy}
use my_exercise.Mysh.Text.{sh_string}
use my_exercise.Mysh.Editor.{
  command_buf_size, history_maxitems, when_some, CmdRecords, history_index,
}
use my_exercise.Mysh.Shell.{add_record}

-- Strings of memories that agree.
sh_string-agree :
    (n : ℕ) (p q : Memory) (o : ℕ)
    → ((a : ℕ) → a < o + n → p a ≡ q a)
    → sh_string n p o ≡ sh_string n q o
unfolding sh_string
sh_string-agree zero p q o h = refl
sh_string-agree (suc n) p q o h =
    let rest = sh_string-agree n p q (o + 1) (λ a l. h a (omega arith)) in
    rw (h o (omega arith), rest) refl

-- The line that was read `back` lines ago.
abbrev pub recalled : CmdRecords → ℕ → Option (List ℕ)
recalled r back =
    when_some (history_index r.cmd_idx back) (λ i. sh_string command_buf_size (r.cmd_buf i) 0)

-- The ring holds the last lines of those that were kept, the newest first, up to 50 of them.
pub record Remembers (r : CmdRecords) (past : List (List ℕ)) : Type 0 where
  pub slot : r.cmd_idx ≡ length past % history_maxitems
  pub level_past : r.level ≤ length past
  pub level_max : r.level ≤ history_maxitems
  pub lines :
      (k : ℕ)
      → k < history_maxitems
      → k < length past
      → sh_string command_buf_size (r.cmd_buf ((length past - 1 - k) % history_maxitems)) 0
        ≡ get_elem? past k

abbrev new_buf : CmdRecords → Memory → ℕ → Memory
new_buf r line k =
    if k == r.cmd_idx then memcpy (r.cmd_buf k) 0 line 0 command_buf_size else r.cmd_buf k

copied :
    (p line : Memory)
    → sh_string command_buf_size (memcpy p 0 line 0 command_buf_size) 0
      ≡ sh_string command_buf_size line 0
unfolding memcpy
copied p line = sh_string-agree command_buf_size _ line 0 (λ a l.
    let e1 : leb 0 a ≡ true = ground arith in
    let e2 : ltb a (0 + command_buf_size) ≡ true = ground arith in
    rw (e1, e2) (ap line (omega arith)))

new_lines :
    (r : CmdRecords) (past : List (List ℕ)) (line : Memory) (s : List ℕ)
    → Remembers r past
    → sh_string command_buf_size line 0 ≡ some s
    → (k : ℕ) → k < history_maxitems
    → k < length (s ∷ past)
    → sh_string command_buf_size (new_buf r line ((length (s ∷ past) - 1 - k) % history_maxitems)) 0
      ≡ get_elem? (s ∷ past) k
new_lines r past line s v e zero near known =
    let at : (suc (length past) - 1 - 0) % history_maxitems ≡ r.cmd_idx = omega (arith, v.slot) in
    let here : (r.cmd_idx == r.cmd_idx) ≡ true = ground arith in
    ap (λ i. sh_string command_buf_size (new_buf r line i) 0) at
    ∙ ap
        (λ b.
          sh_string command_buf_size
            (if b
              then memcpy (r.cmd_buf r.cmd_idx) 0 line 0 command_buf_size
              else r.cmd_buf r.cmd_idx)
            0)
        here
    ∙ copied (r.cmd_buf r.cmd_idx) line
    ∙ e
new_lines r past line s v e (suc k) near known =
    let i = (length past - 1 - k) % history_maxitems in
    let at : (suc (length past) - 1 - suc k) % history_maxitems ≡ i = omega arith in
    let other : (i == r.cmd_idx) ≡ false = ground (arith, v.slot, near, known) in
    ap (λ i. sh_string command_buf_size (new_buf r line i) 0) at
    ∙ ap
        (λ b.
          sh_string command_buf_size
            (if b then memcpy (r.cmd_buf i) 0 line 0 command_buf_size else r.cmd_buf i) 0)
        other
    ∙ v.lines k (omega arith) (omega arith)

-- Where the ring holds the last lines that were kept, up to 50 of them, a line that is a string is
-- kept, and the ring holds the last lines with it as the newest.
pub add_record-Remembers :
    (r : CmdRecords) (past : List (List ℕ)) (line : Memory) (s : List ℕ)
    → Remembers r past
    → sh_string command_buf_size line 0 ≡ some s
    → (r' : CmdRecords) × (add_record line r ≡ some r') × Remembers r' (s ∷ past)
unfolding add_record memcpy
add_record-Remembers r past line s v e =
    let free : ltb r.cmd_idx history_maxitems ≡ true = ground (arith, v.slot) in
    let r1 : CmdRecords = record {
      cmd_idx = (r.cmd_idx + 1) % history_maxitems;
      level = if ltb r.level history_maxitems then r.level + 1 else r.level;
      cmd_buf = λ k.
          if k == r.cmd_idx then memcpy (r.cmd_buf k) 0 line 0 command_buf_size else r.cmd_buf k;
    } in
    (
      r1,
      rw free refl,
      record {
        slot = omega (arith, v.slot);
        level_past = ground (arith, v.level_past);
        level_max = ground (arith, v.level_max);
        lines = new_lines r past line s v e;
      },
    )

-- Where the ring holds the last lines that were kept, and for 1 ≤ `back` ≤ `level`: the index that
-- `history_process(-back)` and `history show` compute is that of the line that was kept `back` lines
-- ago when `back` is at most `cmd_idx`, or when it is 50 and `cmd_idx` is 0. For any other such `back`
-- it is negative, and outside the ring.
pub recalled-past :
    (r : CmdRecords) (past : List (List ℕ)) (back : ℕ)
    → Remembers r past
    → 1 ≤ back
    → back ≤ r.level
    → recalled r back ≡ (
        if leb back r.cmd_idx || (back == history_maxitems && r.cmd_idx == 0)
        then get_elem? past (back - 1)
        else none)
unfolding history_index
recalled-past r past back v low high =
    let line = v.lines (back - 1) (omega (arith, v.level_max)) (omega (arith, v.level_past)) in
    elim (dec_lt r.cmd_idx back) [
      | no near ↦
          let e1 : leb back r.cmd_idx ≡ true = ground arith in
          let at : (r.cmd_idx - back) % history_maxitems
              ≡ (length past - 1 - (back - 1)) % history_maxitems =
            omega (arith, v.slot, v.level_past) in
          rw e1 (ap (λ i. sh_string command_buf_size (r.cmd_buf i) 0) at ∙ line)
      | yes far ↦
          let e1 : leb back r.cmd_idx ≡ false = ground arith in
          elim (Bool-cases ((back - r.cmd_idx) % history_maxitems == 0)) [
            | inl wraps ↦
                let w : (back - r.cmd_idx) % history_maxitems ≡ 0 = ground arith in
                let all : back ≡ 50 = omega (arith, v.level_max) in
                let first : r.cmd_idx ≡ 0 = omega (arith, v.level_max) in
                let at : 0 ≡ (length past - 1 - (back - 1)) % history_maxitems =
                  omega (arith, v.slot, v.level_past) in
                let e2 : (back == history_maxitems && r.cmd_idx == 0) ≡ true =
                  ground (arith, all, first) in
                rw (e1, wraps, e2) (ap (λ i. sh_string command_buf_size (r.cmd_buf i) 0) at ∙ line)
            | inr n ↦
                let e2 : (back == history_maxitems && r.cmd_idx == 0) ≡ false = ground arith in
                rw (e1, n, e2) refl
          ]
    ]
