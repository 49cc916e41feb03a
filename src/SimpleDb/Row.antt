-- ===== src/SimpleDb/Row.antt =====
-- simpledb/row.h and row.c. A `Row` is its 72-byte object: `id` at 0, `username` at 4, `email` at 37,
-- two bytes of padding at 70. `memcpy` here copies one byte more than either array holds, so the
-- model keeps the object's bytes and not only its members.
pub mod Layout
pub mod Init
use my_exercise.Prelude.{
  ℕ, ◌+◌, ◌<◌, ◌≤◌, ◌^◌, Option, none, some, List, leb, ltb, if◌then◌else◌, length,
}
use my_exercise.Bytes.{Memory, load32, store32, memcpy}
use my_exercise.CString.{strcpy, atoi, c_string}

abbrev pub column_username_size : ℕ
column_username_size = 32

abbrev pub column_email_size : ℕ
column_email_size = 32

abbrev pub id_size : ℕ
id_size = 4

-- `sizeof` of the member, an array of `COLUMN_USERNAME_SIZE + 1`
abbrev pub username_size : ℕ
username_size = column_username_size + 1

abbrev pub email_size : ℕ
email_size = column_email_size + 1

abbrev pub id_offset : ℕ
id_offset = 0

abbrev pub username_offset : ℕ
username_offset = id_offset + id_size

abbrev pub email_offset : ℕ
email_offset = username_offset + username_size

abbrev pub row_size : ℕ
row_size = id_size + username_size + email_size

-- The offsets of the members in the struct, which the compiler lays out without a gap.
abbrev pub Row : Type 0
Row = Memory

abbrev pub row_id : ℕ
row_id = 0

abbrev pub row_username : ℕ
row_username = 4

abbrev pub row_email : ℕ
row_email = 37

pub data RowInitResult : Type 0 where
  row_init_success row_negative_id row_string_null row_string_too_long : RowInitResult

-- The writes of `row_init`, made if `row` is not NULL.
unfoldable pub row_fill : ℕ → List ℕ → List ℕ → Row → Row
row_fill id username email row =
    strcpy (strcpy (store32 row row_id id) row_username username) row_email email

unfoldable pub row_checked : ℕ → List ℕ → List ℕ → Option Row → RowInitResult × Option Row
row_checked id username email row =
    if leb (2 ^ 31) id
    then (row_negative_id, row)
    else if ltb column_username_size (length username)
    then (row_string_too_long, row)
    else if ltb column_email_size (length email)
    then (row_string_too_long, row)
    else (row_init_success, elim row [ none ↦ none | some r ↦ some (row_fill id username email r) ])

-- An argument that is `none` is NULL.
unfoldable pub row_init :
    Option (List ℕ) → Option (List ℕ) → Option (List ℕ) → Option Row → RowInitResult × Option Row
unfolding row_checked
row_init (some id) (some username) (some email) row = row_checked (atoi id) username email row
row_init _ _ _ row = (row_string_null, row)

unfoldable pub row_get_key : Row → ℕ
row_get_key row = load32 row row_id

-- What `row_print` prints.
pub record RowText : Type 0 where
  pub id : ℕ
  pub username : List ℕ
  pub email : List ℕ

unfoldable pub row_print : Row → RowText
row_print row = record {
  id = load32 row row_id;
  username = c_string row row_username username_size;
  email = c_string row row_email email_size;
}

-- `row_write_to_buffer(row, p + o)`
unfoldable pub row_write_to_buffer : Row → Memory → ℕ → Memory
row_write_to_buffer row p o =
    memcpy
      (memcpy (memcpy p (o + id_offset) row row_id id_size) (o + username_offset) row row_username
        (username_size + 1))
      (o + email_offset) row row_email (email_size + 1)

-- `row_read_from_buffer(p + o, row)`
unfoldable pub row_read_from_buffer : Memory → ℕ → Row → Row
row_read_from_buffer p o row =
    memcpy
      (memcpy (memcpy row row_id p (o + id_offset) id_size) row_username p (o + username_offset)
        (username_size + 1))
      row_email p (o + email_offset) (email_size + 1)
