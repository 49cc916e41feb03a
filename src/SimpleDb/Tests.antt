-- ===== src/SimpleDb/Tests.antt =====
-- simpledb: the theorems at concrete inputs. A leaf with the one key 7, and a disk that works.
mod Session
use my_exercise.Prelude.{
  ℕ, zero, suc, ◌+◌, ◌*◌, ◌/◌, ◌%◌, ◌^◌, ◌<◌, ◌≡◌, ◌≢◌, ◌==◌, ltb, if◌then◌else◌, refl, true,
  Option, none, some, [], ◌∷◌, ◌++◌, arith, ℕ_discrete, inl, inr, ◌∙◌, sym, ap, ◌≤◌, ◌↔◌, ◌-◌,
  length,
}
use my_exercise.Bytes.{Memory, load32, store32, store8}
use my_exercise.Bytes.Laws.{load32-store32_self, load32-store32_ne, load32-store8_ne}
use my_exercise.SimpleDb.Exit.{ok}
use my_exercise.SimpleDb.Row.{
  row_init_success, row_get_key, row_size, row_init, row_fill, row_print, row_read_from_buffer,
  row_write_to_buffer,
}
use my_exercise.SimpleDb.Row.Layout.{row_read-row_write}
use my_exercise.SimpleDb.Row.Init.{row_print-row_fill, row_init_iff}
use my_exercise.SimpleDb.Node.{Page, get_node_type, leaf_node_key, leaf_node_cell}
use my_exercise.SimpleDb.Pager.{
  System, Pager, pager_open, pager_get_page, pager_flush, load_page, set_page, modify,
}
use my_exercise.SimpleDb.Pager.Cache.{
  pager_get_page_cached, IsValid, Fetched, pager_get_page-Fetched, pager_get_page-IsValid,
}
use my_exercise.SimpleDb.Search.{leaf_find_index, internal_node_find_child}
use my_exercise.SimpleDb.Search.Loops.{
  leaf_key, internal_key, Locates, LowerBound, leaf_find_index-Locates,
  internal_node_find_child-LowerBound,
}
use my_exercise.SimpleDb.Leaf.{leaf_insert_here, Halves, split_leaves}
use my_exercise.SimpleDb.Leaf.SplitKeys.{split_leaves-ordered}
use my_exercise.SimpleDb.Tree.{Position, replace_right_child}
use my_exercise.SimpleDb.Tree.Internal.{Replaced, replace_right_child-Replaced}
use my_exercise.SimpleDb.Table.Find.{IsTwoLevel, IsLeafPage, Found, child_page, table_find-Found}
use my_exercise.SimpleDb.Leaf.Insert.{Inserted, leaf_insert_here-Inserted}
use my_exercise.SimpleDb.Leaf.Keys.{leaf_keys, ordered_insert, leaf_insert_spill}
use my_exercise.SimpleDb.Table.{db_open, db_close, init_root, table_find}
use my_exercise.SimpleDb.Table.Single.{with_root, IsLeafTable, IsEmptyRoot, db_open-IsLeafTable}
use my_exercise.SimpleDb.Table.Close.{IsFaithful, db_open-db_close}
use my_exercise.SimpleDb.Statement.{
  Statement, statement_insert, execute_success, execute_duplicate_key, execute_insert,
  execute_select,
}
use my_exercise.SimpleDb.Statement.Insert.{execute_insert-ordered, execute_insert-duplicate}
use my_exercise.SimpleDb.Statement.Rows.{leaf_insert_rows}
use my_exercise.CString.{atoi}
use my_exercise.SimpleDb.Statement.Select.{rows_from, execute_select-rows_from}

-- A file of whole pages: how many, and their contents.
abbrev pub DiskFile : Type 0
DiskFile = ℕ × (ℕ → Page)

abbrev pub zeros : Memory
zeros _ = 0

abbrev pub disk : System DiskFile
disk = record {
  malloc_page = λ _. zeros;
  file_size = λ f. f.0 * 4096;
  can_seek = λ f o. true;
  read = λ f o p. some (f.1 (o / 4096));
  write = λ f o p.
      some (
        (if ltb (o / 4096) f.0 then f.0 else o / 4096 + 1),
        λ j. if j == o / 4096 then p else f.1 j,
      );
  close = λ f. true;
}

abbrev empty_file : DiskFile
empty_file = (0, λ _. zeros)

-- The leaf with the one key 7.
abbrev pub seven : Page
seven = store32 (store32 (store8 zeros 0 1) 6 1) 14 7

abbrev pub table : Pager DiskFile
table = record {
  file = empty_file;
  file_length = 0;
  num_pages = 1;
  pages = λ n. if n == 0 then some seven else none;
}

abbrev pub row_of : ℕ → Statement
row_of k = record { type = statement_insert; row_insert = store32 zeros 0 k }

count_seven : load32 seven 6 ≡ 1
unfolding load32 store32 store8
count_seven = refl

pub last_seven : load32 seven 10 ≡ 0
unfolding load32 store32 store8
last_seven = refl

key_seven : (i : ℕ) → i < load32 seven 6 → leaf_key seven i ≡ 7
unfolding load32 store32 store8
key_seven zero h = refl
key_seven (suc i) h = absurd (omega arith)

pub table-IsLeafTable : IsLeafTable table seven
unfolding get_node_type store32 store8
table-IsLeafTable = record {
  root = refl;
  leaf = refl;
  small = omega (arith, count_seven);
  ascending = λ i j h l. absurd (omega (arith, count_seven));
}

key_of_seven : row_get_key (store32 zeros 0 7) ≡ 7
unfolding row_get_key load32 store32
key_of_seven = refl

-- A row with the key 5 whose padding byte is 7.
abbrev before_seven : Statement
before_seven = record {
  type = statement_insert;
  row_insert = store8 (store32 zeros 0 5) row_size 7;
}

key_five : row_get_key before_seven.row_insert ≡ 5
unfolding row_get_key load32 store32 store8
key_five = refl

padding_seven :
    (i : ℕ) → i < load32 seven 6 → before_seven.row_insert row_size ≡ seven (leaf_node_cell i)
unfolding load32 store32 store8
padding_seven zero h = refl
padding_seven (suc i) h = absurd (omega arith)

execute_insert-ordered_example :
    (q : Page) × (execute_insert disk before_seven table
      ≡ ok (execute_success, set_page table 0 (some q)))
    × (leaf_keys q ≡ ordered_insert (row_get_key before_seven.row_insert) (leaf_keys seven))
    × IsLeafTable (set_page table 0 (some q)) q
execute_insert-ordered_example =
    execute_insert-ordered disk table-IsLeafTable before_seven (omega (arith, count_seven))
      (omega (arith, key_five)) (λ i h e. omega (arith, key_seven i h, key_five))
      (λ i l h. padding_seven i h)

execute_insert-duplicate_example :
    execute_insert disk (row_of 7) table ≡ ok (execute_duplicate_key, table)
execute_insert-duplicate_example =
    execute_insert-duplicate disk table-IsLeafTable (row_of 7) 0 (omega (arith, count_seven))
      (key_seven 0 (omega (arith, count_seven)) ∙ sym key_of_seven)

execute_select-rows_from_example :
    execute_select disk zeros table
    ≡ ok ((execute_success, rows_from seven 0 (load32 seven 6)), table)
execute_select-rows_from_example = execute_select-rows_from disk table-IsLeafTable last_seven zeros

leaf_find_index-Locates_example :
    (r : ℕ) × (leaf_find_index seven 9 ≡ some r) × Locates (leaf_key seven) (load32 seven 6) 9 r
leaf_find_index-Locates_example =
    leaf_find_index-Locates seven 9 (omega (arith, count_seven)) table-IsLeafTable.ascending

-- An internal node with the one key 7: leaf 1 up to it, leaf 2 beyond.
abbrev inner : Page
inner = store32 (store32 (store32 (store32 zeros 6 1) 14 1) 30 7) 10 2

count_inner : load32 inner 6 ≡ 1
unfolding load32 store32
count_inner = refl

internal_node_find_child-LowerBound_example :
    (r : ℕ) × (internal_node_find_child inner 9 ≡ some r)
    × LowerBound (internal_key inner) (load32 inner 6) 9 r
internal_node_find_child-LowerBound_example =
    internal_node_find_child-LowerBound inner 9 (omega (arith, count_inner))
      (λ i j h l. absurd (omega (arith, count_inner)))

row_read-row_write_example :
    row_read_from_buffer (row_write_to_buffer (store32 zeros 0 9) zeros 18) 18 zeros 4
    ≡ store32 zeros 0 9 4
row_read-row_write_example = row_read-row_write (store32 zeros 0 9) zeros zeros 18 4 (omega arith)

row_print-row_fill_example :
    row_print (row_fill 3 (b'a' ∷ []) (b'b' ∷ []) zeros)
    ≡ record { id = 3; username = b'a' ∷ []; email = b'b' ∷ [] }
row_print-row_fill_example =
    row_print-row_fill 3 (b'a' ∷ []) (b'b' ∷ []) zeros (omega arith) (omega arith) (omega arith)
      (omega arith) (omega arith)

row_init_iff_example :
    ((row_init (some (b'3' ∷ [])) (some (b'a' ∷ [])) (some (b'b' ∷ [])) (some zeros)).0
      ≡ row_init_success)
    ↔ ((atoi (b'3' ∷ []) < 2 ^ 31)
        × (length {A = ℕ} (b'a' ∷ []) ≤ 32)
        × (length {A = ℕ} (b'b' ∷ []) ≤ 32))
row_init_iff_example = row_init_iff (b'3' ∷ []) (b'a' ∷ []) (b'b' ∷ []) (some zeros)

abbrev new_table : Pager DiskFile
new_table = with_root disk empty_file zeros

open_empty : db_open disk (some empty_file) ≡ ok new_table
unfolding db_open pager_open init_root pager_get_page load_page modify
open_empty = refl

table-IsValid : IsValid table
table-IsValid = record { counted = λ n p e. ground arith; bounded = λ n p e. ground arith }

pager_get_page-IsValid_example : IsValid table
pager_get_page-IsValid_example =
    pager_get_page-IsValid disk 0 table table seven table-IsValid
      (pager_get_page_cached disk 0 table seven (omega arith) refl)

page_of_disk : ℕ → Option DiskFile → Page
page_of_disk j none = zeros
page_of_disk j (some f) = f.1 j

disk_written :
    (f g : DiskFile) (o : ℕ) (p : Page) (j : ℕ)
    → disk.write f o p ≡ some g
    → g.1 j ≡ (if j == o / 4096 then p else f.1 j)
unfolding page_of_disk
disk_written f g o p j e = sym (ap (page_of_disk j) e)

disk-IsFaithful : IsFaithful disk
disk-IsFaithful = record {
  written = λ f g o p e b. (
    g.1 (o / 4096),
    refl,
    λ a h. ap (λ u. u a) (disk_written f g o p (o / 4096) e ∙ own (o / 4096) p (f.1 (o / 4096))),
  );
  kept = λ f g m n p q ne e h b.
      let (q', r, agree) = h b in
      let at_n : f.1 (n * 4096 / 4096) ≡ q' = cc r in
      (
        g.1 (n * 4096 / 4096),
        refl,
        λ a l.
            ap (λ u. u a) (disk_written f g (m * 4096) p (n * 4096 / 4096) e ∙ other f m n p ne)
            ∙ ap (λ u. u a) at_n
            ∙ agree a l,
      );
}
  where
    own : (j : ℕ) (p q : Page) → (if j == j then p else q) ≡ p
    own j p q = ground arith

    other :
        (f : DiskFile) (m n : ℕ) (p : Page)
        → m ≢ n
        → (if n * 4096 / 4096 == m * 4096 / 4096 then p else f.1 (n * 4096 / 4096))
          ≡ f.1 (n * 4096 / 4096)
    other f m n p ne = ground arith

-- `table` after it was closed.
abbrev pub closed_file : DiskFile
closed_file = (1, λ j. if j == 0 then seven else zeros)

pub close_table : db_close disk table ≡ ok closed_file
unfolding db_close pager_flush
close_table = refl

abbrev reopened : Pager DiskFile
reopened = record { file = closed_file; file_length = 4096; num_pages = 1; pages = λ _. none }

open_closed : db_open disk (some closed_file) ≡ ok reopened
unfolding db_open pager_open
open_closed = refl

db_open-db_close_example :
    (q : Page) × (u : Pager DiskFile) × (pager_get_page disk 0 reopened ≡ ok (q, u))
    × ((a : ℕ) → a < 4096 → q a ≡ seven a)
db_open-db_close_example =
    db_open-db_close disk disk-IsFaithful table reopened closed_file 0 seven (omega arith)
      (omega arith) refl close_table (omega arith) (omega arith) open_closed

-- `inner` over the leaf `seven` and an empty one.
abbrev empty_leaf : Page
empty_leaf = store8 zeros 0 1

abbrev tree : Pager DiskFile
tree = record table {
  num_pages = 3;
  pages = λ n.
      if n == 0
      then some inner
      else if n == 1
      then some seven
      else if n == 2
      then some empty_leaf
      else none;
}

abbrev leaf_of : ℕ → Page
leaf_of i = if i == 0 then seven else empty_leaf

tree-IsTwoLevel : IsTwoLevel tree inner leaf_of
unfolding get_node_type store32 store8 load32
tree-IsTwoLevel = record {
  root = refl;
  internal = refl;
  small = omega arith;
  ascending = λ i j h l. absurd (omega arith);
  children = child;
}
  where
    child : (i : ℕ) → i ≤ load32 inner 6 → IsLeafPage tree (child_page inner i) (leaf_of i)
    child zero h = record {
      cached = refl;
      in_bounds = omega arith;
      leaf = refl;
      small = omega arith;
      ascending = λ i j k l. absurd (omega arith);
    }
    child (suc zero) h = record {
      cached = refl;
      in_bounds = omega arith;
      leaf = refl;
      small = omega arith;
      ascending = λ i j k l. absurd (omega arith);
    }
    child (suc (suc i)) h = absurd (omega arith)

table_find-Found_example :
    (at : Position) × (i : ℕ) × (table_find disk 9 tree ≡ ok (at, tree))
    × Found inner leaf_of 9 at i
table_find-Found_example = table_find-Found disk tree inner leaf_of 9 tree-IsTwoLevel

-- A parent with two keys whose count is raised to three: key 0 is lost to the page number 2.
abbrev parent : Page
parent = store32 inner 6 3

abbrev counted_tree : Pager DiskFile
counted_tree = record tree { pages = λ n. if n == 0 then some parent else tree.pages n }

replace_right_child-Replaced_example :
    (t : Pager DiskFile) × (q : Page) × (replace_right_child disk 0 3 2 2 counted_tree ≡ ok (tt, t))
    × (t.pages 0 ≡ some q)
    × Replaced parent q 3 2 2 empty_leaf
    × ((j : ℕ) → j ≢ 0 → t.pages j ≡ counted_tree.pages j)
unfolding load32 store32
replace_right_child-Replaced_example =
    replace_right_child-Replaced disk counted_tree 0 3 2 2 parent empty_leaf (omega arith) refl refl
      refl

-- A leaf with the keys 0, 2, …, 108 in its 55 cells.
full_leaf : ℕ → Page
full_leaf zero = store8 (store32 zeros 6 55) 0 1
full_leaf (suc n) = store32 (full_leaf n) (leaf_node_key n) (2 * n)

full_key : (n i : ℕ) → i < n → leaf_key (full_leaf n) i ≡ 2 * i % 2 ^ 32
unfolding full_leaf
full_key zero i h = absurd (omega arith)
full_key (suc n) i h = elim (ℕ_discrete i n) [
  | yes e ↦ rw e (load32-store32_self (full_leaf n) (leaf_node_key n) (2 * n))
  | no ne ↦
      load32-store32_ne (full_leaf n) (leaf_node_key n) (2 * n) (leaf_node_key i)
        (inr (omega arith))
      ∙ full_key n i (omega arith)
]

full_count : (n : ℕ) → load32 (full_leaf n) 6 ≡ 55
unfolding full_leaf
full_count zero =
    load32-store8_ne (store32 zeros 6 55) 0 1 6 (inl (omega arith)) ∙ load32-store32_self zeros 6 55
full_count (suc n) =
    load32-store32_ne (full_leaf n) (leaf_node_key n) (2 * n) 6 (inr (omega arith)) ∙ full_count n

abbrev full : Page
full = full_leaf 55

-- The key 19 goes to cell 10, before the key 20; its row has 20 as padding byte.
abbrev halves : Halves
halves = split_leaves 10 19 (store8 zeros row_size 20) 1 (record { old = full; new = zeros })

padding_twenty : full (leaf_node_cell 10) ≡ 20
unfolding full_leaf store32 store8
padding_twenty = refl

split_leaves-ordered_example :
    (leaf_keys halves.old ++ leaf_keys halves.new ≡ ordered_insert 19 (leaf_keys full))
    × (load32 halves.old 6 ≡ 28)
    × (load32 halves.new 6 ≡ 28)
unfolding store8
split_leaves-ordered_example =
    split_leaves-ordered full zeros 10 19 1 (store8 zeros row_size 20) (omega arith) (omega arith)
      (λ h n. sym padding_twenty) (full_count 55)
      (
        omega arith,
        λ i h. omega (arith, full_key 55 i (omega arith)),
        λ i h k. omega (arith, full_key 55 i k),
        λ h. omega (arith, full_key 55 10 h),
      )
      (λ h e. omega (arith, full_key 55 10 h))

leaf_insert_spill_example :
    leaf_key (leaf_insert_here seven 0 5 zeros) 1 + seven 14 ≡ leaf_key seven 0 + zeros row_size
leaf_insert_spill_example =
    leaf_insert_spill seven 0 5 zeros (omega (arith, count_seven)) (omega arith)
      (omega (arith, count_seven))
