-- ===== src/SimpleDb/Row/Layout.antt =====
-- simpledb/row.c: what `row_write_to_buffer` and `row_read_from_buffer` do to each byte.
use my_exercise.Prelude.{ℕ, ◌+◌, ◌-◌, ◌<◌, ◌≡◌, arith, ◌&&◌, leb, ltb, if◌then◌else◌}
use my_exercise.Bytes.{Memory, memcpy}
use my_exercise.Bytes.Laws.{Apart}
use my_exercise.SimpleDb.Row.{Row, row_size, row_write_to_buffer, row_read_from_buffer}

-- The three copies make one: 71 bytes of the object, a byte more than `ROW_SIZE`.
pub row_write_to_buffer_lem :
    (row : Row) (p : Memory) (o a : ℕ)
    → row_write_to_buffer row p o a ≡ (if leb o a && ltb a (o + 71) then row (a - o) else p a)
unfolding row_write_to_buffer memcpy
row_write_to_buffer_lem row p o a = ground arith

pub row_read_from_buffer_lem :
    (p : Memory) (o : ℕ) (row : Row) (a : ℕ)
    → row_read_from_buffer p o row a ≡ (if ltb a 71 then p (o + a) else row a)
unfolding row_read_from_buffer memcpy
row_read_from_buffer_lem p o row a = ground arith

-- A row read back from where it was written has the bytes of its members, up to `ROW_SIZE`.
pub row_read-row_write :
    (row dest : Row) (p : Memory) (o a : ℕ)
    → a < row_size
    → row_read_from_buffer (row_write_to_buffer row p o) o dest a ≡ row a
row_read-row_write row dest p o a h = ground (
  arith,
  row_read_from_buffer_lem (row_write_to_buffer row p o) o dest a,
  row_write_to_buffer_lem row p o (o + a),
)

pub row_write_out :
    (row : Row) (p : Memory) (o a : ℕ)
    → Apart o (row_size + 1) a 1
    → row_write_to_buffer row p o a ≡ p a
row_write_out row p o a h = ground (arith, row_write_to_buffer_lem row p o a)

-- The byte behind the `ROW_SIZE` bytes of the destination becomes the object's padding byte.
pub row_write_spill :
    (row : Row) (p : Memory) (o : ℕ) → row_write_to_buffer row p o (o + row_size) ≡ row row_size
row_write_spill row p o = ground (arith, row_write_to_buffer_lem row p o (o + row_size))
