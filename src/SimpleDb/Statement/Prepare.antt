-- ===== src/SimpleDb/Statement/Prepare.antt =====
-- simpledb/statement.c: `prepare_statement` on the text of an insertion.
use my_exercise.Prelude.{ℕ, ◌^◌, ◌≤◌, ◌<◌, ◌≡◌, ◌≢◌, refl, List, [], ◌∷◌, ◌++◌, some, arith, length}
use my_exercise.CString.{strtok, skip_delim, take_token, after_token, non_empty, has_prefix, atoi}
use my_exercise.SimpleDb.Row.{row_init, row_checked, row_fill, row_print}
use my_exercise.SimpleDb.Row.Init.{IsText, row_print-row_fill}
use my_exercise.SimpleDb.Statement.{
  prepare_success, Statement, statement_insert, insert_text, insert_tokens, prepare_result, row_or,
  prepare_insert, prepare_statement,
}

-- No byte of the string is `d`.
abbrev pub IsFree : ℕ → List ℕ → Type 0
IsFree d [] = Unit
IsFree d (c ∷ s) = (c ≢ d) × IsFree d s

take_token-append : (d : ℕ) (w rest : List ℕ) → IsFree d w → take_token d (w ++ d ∷ rest) ≡ w
unfolding take_token
take_token-append d [] rest f = ground arith
take_token-append d (c ∷ w) rest f = ground (arith, take_token-append d w rest)

after_token-append : (d : ℕ) (w rest : List ℕ) → IsFree d w → after_token d (w ++ d ∷ rest) ≡ rest
unfolding after_token
after_token-append d [] rest f = ground arith
after_token-append d (c ∷ w) rest f = ground (arith, after_token-append d w rest)

take_token-last : (d : ℕ) (w : List ℕ) → IsFree d w → take_token d w ≡ w
unfolding take_token
take_token-last d [] f = refl
take_token-last d (c ∷ w) f = ground (arith, take_token-last d w)

skip_delim-free : (d c : ℕ) (s : List ℕ) → c ≢ d → skip_delim d (c ∷ s) ≡ c ∷ s
unfolding skip_delim
skip_delim-free d c s n = ground arith

-- A word: not empty, and without a space.
abbrev pub IsWord : List ℕ → Type 0
IsWord s = (0 < length s) × IsFree 32 s

-- A word with a space behind it is the next token.
strtok-append : (w rest : List ℕ) → IsWord w → strtok 32 (w ++ 32 ∷ rest) ≡ (some w, rest)
unfolding strtok non_empty
strtok-append [] rest (h, f) = absurd (omega arith)
strtok-append (c ∷ w) rest (h, f) =
    rw (skip_delim-free 32 c (w ++ 32 ∷ rest) f.0)
      (rw (take_token-append 32 (c ∷ w) rest f, after_token-append 32 (c ∷ w) rest f) refl)

strtok-last : (w : List ℕ) → IsWord w → (strtok 32 w).0 ≡ some w
unfolding strtok non_empty
strtok-last [] (h, f) = absurd (omega arith)
strtok-last (c ∷ w) (h, f) =
    rw (skip_delim-free 32 c w f.0) (rw (take_token-last 32 (c ∷ w) f) refl)

abbrev pub insert_line : List ℕ → List ℕ → List ℕ → List ℕ
insert_line id username email = insert_text ++ 32 ∷ (id ++ 32 ∷ (username ++ 32 ∷ email))

insert_text-IsWord : IsWord insert_text
insert_text-IsWord = ground arith

module _ (id username email : List ℕ) where
  insert_tokens-insert_line :
      IsWord id
      → IsWord username
      → IsWord email
      → insert_tokens (insert_line id username email) ≡ (some id, some username, some email)
  unfolding insert_tokens
  insert_tokens-insert_line f g h =
      rw (strtok-append insert_text (id ++ 32 ∷ (username ++ 32 ∷ email)) insert_text-IsWord) (
        rw (strtok-append id (username ++ 32 ∷ email) f)
          (rw (strtok-append username email g) (rw (strtok-last email h) refl)))

  prepare_insert_filled :
      (line : List ℕ)
      → insert_tokens line ≡ (some id, some username, some email)
      → length username ≤ 32
      → length email ≤ 32
      → atoi id < 2 ^ 31
      → (old : Statement)
      → prepare_insert line old ≡ (
        prepare_success,
        record {
          type = statement_insert;
          row_insert = row_fill (atoi id) username email old.row_insert;
        },
      )
  unfolding prepare_insert row_init row_checked prepare_result row_or
  prepare_insert_filled line e lu le small old = ground (arith, e)

  -- The line `insert <id> <username> <email>`, with words of at most 32 bytes and an id that is not
  -- negative, is prepared as an insertion, and its row prints as the id and the two words, whatever
  -- the statement held before.
  pub prepare_statement-insert :
      IsWord id
      → IsWord username
      → IsWord email
      → IsText username
      → IsText email
      → length username ≤ 32
      → length email ≤ 32
      → atoi id < 2 ^ 31
      → (old : Statement)
      → (st : Statement) × (prepare_statement (insert_line id username email) old
          ≡ (prepare_success, st))
        × (st.type ≡ statement_insert)
        × (row_print st.row_insert ≡ record { id = atoi id; username = username; email = email })
  unfolding prepare_statement has_prefix
  prepare_statement-insert f g h tu te lu le small old = (
    record {
      type = statement_insert;
      row_insert = row_fill (atoi id) username email old.row_insert;
    },
    prepared,
    refl,
    row_print-row_fill (atoi id) username email old.row_insert (omega arith) tu lu te le,
  )
    where
      prepared : prepare_insert (insert_line id username email) old ≡ (
        prepare_success,
        record {
          type = statement_insert;
          row_insert = row_fill (atoi id) username email old.row_insert;
        },
      )
      prepared =
          prepare_insert_filled (insert_line id username email) (insert_tokens-insert_line f g h) lu
            le small old
