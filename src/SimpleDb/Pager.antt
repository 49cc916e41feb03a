-- ===== src/SimpleDb/Pager.antt =====
-- simpledb/pager.h and pager.c: the pages of the database file, cached in memory. The operating
-- system is a parameter: `System F` over an abstract type of file states.
pub mod Cache
use my_exercise.Prelude.{
  ℕ, ◌+◌, ◌*◌, ◌/◌, ◌%◌, ◌^◌, Option, none, some, Bool, true, false, ◌==◌, leb, ltb, ◌<◌, ◌≡◌,
  if◌then◌else◌,
}
use my_exercise.SimpleDb.Exit.{
  Result, ok, exits, Exit, unable_to_open, corrupt_file, flush_null_page, error_seeking,
  error_writing, page_out_of_bounds, error_reading,
}
use my_exercise.SimpleDb.Node.{Page, page_size}

abbrev pub table_max_pages : ℕ
table_max_pages = 100

-- What the pager calls: `malloc` of a page, whose bytes are not determined, and the file calls.
pub record System (F : Type 0) : Type 0 where
  -- the bytes of the memory that is allocated for a page
  pub malloc_page : ℕ → Page
  -- `lseek(fd, 0, SEEK_END)`
  pub file_size : F → ℕ
  -- `lseek(fd, offset, SEEK_SET)`, `false` for -1
  pub can_seek : F → ℕ → Bool
  -- `read` of `PAGE_SIZE` bytes at an offset into a buffer, `none` for -1
  pub read : F → ℕ → Page → Option Page
  -- `write` of `PAGE_SIZE` bytes at an offset, `none` for -1
  pub write : F → ℕ → Page → Option F
  -- `close`, `false` for -1
  pub close : F → Bool

pub record Pager (F : Type 0) : Type 0 where
  pub file : F
  pub file_length : ℕ
  pub num_pages : ℕ
  pub pages : ℕ → Option Page

-- A step on the pager, which returns or exits.
abbrev pub M : Type 0 → Type 0 → Type 0
M F A = Pager F → Result (A × Pager F)

abbrev pub pure : {F A : Type 0} → A → M F A
pure a s = ok (a, s)

abbrev pub fail : {F A : Type 0} → Exit → M F A
fail e s = exits e

infixl 5 ◌>>=◌ ◌>>◌
abbrev pub ◌>>=◌ : {F A B : Type 0} → M F A → (A → M F B) → M F B
◌>>=◌ m f s = elim (m s) [ ok (a, s') ↦ f a s' | exits e ↦ exits e ]

abbrev pub ◌>>◌ : {F A B : Type 0} → M F A → M F B → M F B
m >> k = m >>= λ _. k

unfoldable pub set_page : {F : Type 0} → Pager F → ℕ → Option Page → Pager F
set_page s n p = record s { pages = λ j. if j == n then p else s.pages j }

-- What is stored now at a page pointer that `pager_get_page` returned before.
unfoldable pub deref : {F : Type 0} → ℕ → M F Page
deref n s = elim (s.pages n) [ none ↦ exits Exit.null_cursor | some p ↦ ok (p, s) ]

-- A write through such a pointer.
unfoldable pub modify : {F : Type 0} → ℕ → (Page → Page) → M F (Unit {0})
unfolding set_page
modify n f s = elim (s.pages n) [
  | none ↦ exits Exit.null_cursor
  | some p ↦ ok (tt, set_page s n (some (f p)))
]

unfoldable pub pager_get_unused_page_num : {F : Type 0} → Pager F → ℕ
pager_get_unused_page_num s = s.num_pages

-- The pages that the file holds: one more if the last is not whole.
unfoldable pub file_pages : {F : Type 0} → Pager F → ℕ
file_pages s =
    if s.file_length % page_size == 0
    then s.file_length / page_size
    else s.file_length / page_size + 1

unfoldable pub grow : {F : Type 0} → ℕ → Pager F → Pager F
grow n s = if leb s.num_pages n then record s { num_pages = n + 1 } else s

module _ {F : Type 0} (os : System F) where
  -- `open` fails, or gives the file.
  unfoldable pub pager_open : Option F → Result (Pager F)
  pager_open none = exits unable_to_open
  pager_open (some f) =
      if os.file_size f % page_size == 0
      then ok (record {
        file = f;
        file_length = os.file_size f % 2 ^ 32;
        num_pages = os.file_size f / page_size % 2 ^ 32;
        pages = λ _. none;
      })
      else exits corrupt_file

  unfoldable pub pager_flush : ℕ → M F (Unit {0})
  pager_flush n s = elim (s.pages n) [
    | none ↦ exits flush_null_page
    | some p ↦
        if os.can_seek s.file (n * page_size % 2 ^ 32)
        then elim (os.write s.file (n * page_size % 2 ^ 32) p) [
          | none ↦ exits error_writing
          | some f ↦ ok (tt, record s { file = f })
        ]
        else exits error_seeking
  ]

  -- A new page: what `malloc` gives, and over it what the file holds there.
  unfoldable pub load_page : ℕ → Pager F → Option Page
  unfolding file_pages
  load_page n s =
      if leb n (file_pages s)
      then os.read s.file (n * page_size % 2 ^ 32) (os.malloc_page n)
      else some (os.malloc_page n)

  unfoldable pub pager_get_page : ℕ → M F Page
  unfolding grow set_page
  pager_get_page n s =
      if leb table_max_pages n then exits page_out_of_bounds else elim (s.pages n) [
        | some p ↦ ok (p, s)
        | none ↦ elim (load_page n s) [
          | none ↦ exits error_reading
          | some p ↦ ok (p, grow n (set_page s n (some p)))
        ]
      ]
