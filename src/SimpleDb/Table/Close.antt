-- ===== src/SimpleDb/Table/Close.antt =====
-- simpledb/table.c and pager.c: closing a table leaves every cached page in the file.
use my_exercise.Prelude.{
  ℕ, zero, suc, ◌+◌, ◌*◌, ◌%◌, ◌^◌, ◌≤◌, ◌<◌, ◌≡◌, ◌≢◌, ◌∙◌, refl, sym, ap, Option, none, some,
  arith, Option-cases, inl, inr, ℕ_discrete,
}
use mathlib.Core.Path.{subst}
use my_exercise.SimpleDb.Exit.{ok, Result-cases}
use my_exercise.SimpleDb.Node.{Page, page_size}
use my_exercise.SimpleDb.Pager.{
  System, Pager, table_max_pages, pager_flush, set_page, pager_get_page, pager_open, load_page,
  grow,
}
use my_exercise.SimpleDb.Table.{close_loop, db_close, db_open}

-- A `read` at `o` gives the bytes of `p`.
abbrev pub Holds : {F : Type 0} → System F → F → ℕ → Page → Type 0
Holds os f o p =
    (b : Page) → (q : Page) × (os.read f o b ≡ some q) × ((a : ℕ) → a < page_size → q a ≡ p a)

-- What POSIX says of `write` of a page at an offset that is a multiple of the page's size.
pub record IsFaithful {F : Type 0} (os : System F) : Type 0 where
  pub written : (f g : F) (o : ℕ) (p : Page) → os.write f o p ≡ some g → Holds os g o p
  pub kept :
      (f g : F) (m n : ℕ) (p q : Page)
      → m ≢ n
      → os.write f (m * page_size) p ≡ some g
      → Holds os f (n * page_size) q
      → Holds os g (n * page_size) q

file_of : {F : Type 0} (s : Pager F) (n : ℕ) (o : Option Page) → (set_page s n o).file ≡ s.file
unfolding set_page
file_of s n o = refl

page_of :
    {F : Type 0} (s : Pager F) (n j : ℕ) (o : Option Page)
    → j ≢ n
    → (set_page s n o).pages j ≡ s.pages j
unfolding set_page
page_of s n j o h = ground arith

module _ {F : Type 0} (os : System F) where
  -- What a flush has done when it returns.
  flushed :
      (n : ℕ) (s s' : Pager F) (p : Page)
      → n < table_max_pages
      → s.pages n ≡ some p
      → pager_flush os n s ≡ ok (tt, s')
      → (os.write s.file (n * page_size) p ≡ some s'.file) × (s'.pages ≡ s.pages)
  unfolding pager_flush
  flushed n s s' p h e r =
      let off : n * page_size % 2 ^ 32 ≡ n * page_size = omega arith in
      ground (arith, ap (λ o. os.write s.file o p) off, ap (os.can_seek s.file) off)

  close_done : (i : ℕ) (s s' : Pager F) → close_loop os 0 i s ≡ ok s' → s.file ≡ s'.file
  unfolding close_loop
  close_done i s s' e = ground arith

  -- A round of the loop, on a page that is not cached and on one that is.
  close_skip :
      (k i : ℕ) (s : Pager F)
      → s.pages i ≡ none
      → close_loop os (suc k) i s ≡ close_loop os k (i + 1) s
  unfolding close_loop
  close_skip k i s e = ground arith

  close_round :
      (k i : ℕ) (s s' : Pager F) (p : Page)
      → s.pages i ≡ some p
      → close_loop os (suc k) i s ≡ ok s'
      → (t : Pager F) × (pager_flush os i s ≡ ok (tt, t))
        × (close_loop os k (i + 1) (set_page t i none) ≡ ok s')
  unfolding close_loop
  close_round k i s s' p e r = elim (Result-cases (pager_flush os i s)) [
    | inl ((u, t), f) ↦ (t, f, ground arith)
    | inr (x, f) ↦ ground arith
  ]

  -- A pager that `db_open` has just set up over a file that is not empty.
  opened :
      (f : F) (t : Pager F) (n : ℕ)
      → page_size ≤ os.file_size f
      → os.file_size f < 2 ^ 32
      → db_open os (some f) ≡ ok t
      → (t.file ≡ f) × (t.file_length ≡ os.file_size f) × (t.pages n ≡ none)
  unfolding db_open pager_open
  opened f t n big small e = ground arith

  load_page_lem :
      (n : ℕ) (t : Pager F)
      → (n + 1) * page_size ≤ t.file_length
      → load_page os n t ≡ os.read t.file (n * page_size % 2 ^ 32) (os.malloc_page n)
  unfolding load_page
  load_page_lem n t h = ground arith

  pager_get_page_miss :
      (n : ℕ) (t : Pager F) (q : Page)
      → n < table_max_pages
      → t.pages n ≡ none
      → load_page os n t ≡ some q
      → pager_get_page os n t ≡ ok (q, grow n (set_page t n (some q)))
  unfolding pager_get_page
  pager_get_page_miss n t q h e l = ground arith

module _ {F : Type 0} (os : System F) (faithful : IsFaithful os) where
  -- The rounds that follow leave what the file holds of an earlier page.
  close_loop_keeps :
      (k i n : ℕ) (s s' : Pager F) (p : Page)
      → n < i
      → i + k ≤ table_max_pages
      → Holds os s.file (n * page_size) p
      → close_loop os k i s ≡ ok s'
      → Holds os s'.file (n * page_size) p
  close_loop_keeps zero i n s s' p l b h e = subst (λ t. Holds os t (n * page_size) p) (same e) h
    where
      same : close_loop os 0 i s ≡ ok s' → s.file ≡ s'.file
      same r = close_done os i s s' r
  close_loop_keeps (suc k) i n s s' p l b h e = elim (Option-cases (s.pages i)) [
    | inl empty ↦
        close_loop_keeps k (i + 1) n s s' p (omega arith) (omega arith) h
          (sym (close_skip os k i s empty) ∙ e)
    | inr (q, full) ↦
        let (t, f, r) = close_round os k i s s' q full e in
        close_loop_keeps k (i + 1) n (set_page t i none) s' p (omega arith) (omega arith)
          (rw file_of (
            faithful.kept s.file t.file i n q p (omega arith)
              (flushed os i s t q (omega arith) full f).0 h))
          r
  ]

  -- The loop over the pages from `i` writes each cached page to its place.
  close_loop_writes :
      (k i n : ℕ) (s s' : Pager F) (p : Page)
      → i ≤ n
      → n < i + k
      → i + k ≤ table_max_pages
      → s.pages n ≡ some p
      → close_loop os k i s ≡ ok s'
      → Holds os s'.file (n * page_size) p
  close_loop_writes zero i n s s' p l m b c e = absurd (omega arith)
  close_loop_writes (suc k) i n s s' p l m b c e = elim (Option-cases (s.pages i)) [
    | inl empty ↦
        let ne : n ≢ i = λ q. cc (subst (λ j. s.pages j ≡ some p) q c, empty) in
        close_loop_writes k (i + 1) n s s' p (omega arith) (omega arith) (omega arith) c
          (sym (close_skip os k i s empty) ∙ e)
    | inr (q, full) ↦
        let (t, f, r) = close_round os k i s s' q full e in
        let (wrote, pages) = flushed os i s t q (omega arith) full f in
        elim (ℕ_discrete n i) [
          | yes here ↦
              let same : q ≡ p = cc (full, subst (λ j. s.pages j ≡ some p) here c) in
              close_loop_keeps k (i + 1) n (set_page t i none) s' p (omega arith) (omega arith)
                (rw (file_of, here)
                  (faithful.written s.file t.file (i * page_size) p (rw same at wrote)))
                r
          | no later ↦
              close_loop_writes k (i + 1) n (set_page t i none) s' p (omega arith) (omega arith)
                (omega arith) (page_of t i n none later ∙ ap (λ g. g n) pages ∙ c) r
        ]
  ]

  -- After `db_close` has returned, a read at the place of a page that was cached gives its bytes.
  pub db_close-Holds :
      (s : Pager F) (f : F) (n : ℕ) (p : Page)
      → s.num_pages ≤ table_max_pages
      → n < s.num_pages
      → s.pages n ≡ some p
      → db_close os s ≡ ok f
      → Holds os f (n * page_size) p
  unfolding db_close
  db_close-Holds s f n p b l c e = elim (Result-cases (close_loop os s.num_pages 0 s)) [
    | inl (s', r) ↦
        let same : s'.file ≡ f = ground arith in
        rw same at
          (close_loop_writes s.num_pages 0 n s s' p (omega arith) (omega arith) (omega arith) c r)
    | inr (x, r) ↦ absurd (ground arith)
  ]

  -- On a faithful disk, when `db_close` returns and `db_open` on the file that it left returns too, a page
  -- that was cached when the table was closed is read with the bytes that it had then, if the file reaches to
  -- the end of that page and is smaller than 2 ^ 32 bytes.
  pub db_open-db_close :
      (s t : Pager F) (f : F) (n : ℕ) (p : Page)
      → s.num_pages ≤ table_max_pages
      → n < s.num_pages
      → s.pages n ≡ some p
      → db_close os s ≡ ok f
      → (n + 1) * page_size ≤ os.file_size f
      → os.file_size f < 2 ^ 32
      → db_open os (some f) ≡ ok t
      → (q : Page) × (u : Pager F) × (pager_get_page os n t ≡ ok (q, u))
        × ((a : ℕ) → a < page_size → q a ≡ p a)
  db_open-db_close s t f n p b l c e big small o =
      let (same_file, size, no_page) = opened os f t n (omega arith) small o in
      let (q, r, agree) = db_close-Holds s f n p b l c e (os.malloc_page n) in
      let at_page : n * page_size % 2 ^ 32 ≡ n * page_size = omega arith in
      let loaded : load_page os n t ≡ some q =
        load_page_lem os n t (omega (arith, size)) ∙ cc (same_file, at_page, r) in
      (
        q,
        grow n (set_page t n (some q)),
        pager_get_page_miss os n t q (omega arith) no_page loaded,
        agree,
      )
