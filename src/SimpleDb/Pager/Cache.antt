-- ===== src/SimpleDb/Pager/Cache.antt =====
-- simpledb/pager.c: the cache of pages behind `pager_get_page`.
use my_exercise.Prelude.{
  ℕ, ◌≤◌, ◌<◌, ◌≡◌, ◌≢◌, Option, none, some, arith, ℕ_discrete, Option-cases, inl, inr, sym, ◌∙◌,
}
use my_exercise.SimpleDb.Exit.{ok}
use my_exercise.SimpleDb.Node.{Page}
use my_exercise.SimpleDb.Pager.{System, Pager, table_max_pages, set_page, pager_get_page}

-- Only pages that are counted are cached.
pub record IsValid {F : Type 0} (s : Pager F) : Type 0 where
  pub counted : (n : ℕ) (p : Page) → s.pages n ≡ some p → n < s.num_pages
  pub bounded : (n : ℕ) (p : Page) → s.pages n ≡ some p → n < table_max_pages

module _ {F : Type 0} (os : System F) where
  -- A cached page costs nothing.
  pub pager_get_page_cached :
      (n : ℕ) (s : Pager F) (p : Page)
      → n < table_max_pages
      → s.pages n ≡ some p
      → pager_get_page os n s ≡ ok (p, s)
  unfolding pager_get_page
  pager_get_page_cached n s p h e = rw e (ground arith)

  -- What `pager_get_page` has done when it returns.
  pub record Fetched (n : ℕ) (s : Pager F) (p : Page) (s' : Pager F) : Type 0 where
    pub in_bounds : n < table_max_pages
    pub here : s'.pages n ≡ some p
    pub others : (j : ℕ) → j ≢ n → s'.pages j ≡ s.pages j
    pub file : s'.file ≡ s.file
    pub more : s.num_pages ≤ s'.num_pages
    pub counted : (s.pages n ≡ none) → n < s'.num_pages
    pub no_more : (j : ℕ) → n < j → s.num_pages ≤ j → s'.num_pages ≤ j

  -- When `pager_get_page` returns, the page asked for is below the maximum and is cached, every other
  -- page and the file are as before, and the count of pages has grown at most to take in this page.
  pub pager_get_page-Fetched :
      (n : ℕ) (s s' : Pager F) (p : Page) → pager_get_page os n s ≡ ok (p, s') → Fetched n s p s'
  unfolding pager_get_page
  pager_get_page-Fetched n s s' p e = record {
    in_bounds = ground arith;
    here = ground arith;
    others = λ j h. ground arith;
    file = ground arith;
    more = ground arith;
    counted = λ h. ground arith;
    no_more = λ j h k. ground arith;
  }

  -- When `pager_get_page` returns, every cached page is counted and below the maximum, if that was so
  -- before.
  pub pager_get_page-IsValid :
      (n : ℕ) (s s' : Pager F) (p : Page)
      → IsValid s
      → pager_get_page os n s ≡ ok (p, s')
      → IsValid s'
  pager_get_page-IsValid n s s' p v e = record {
    counted = λ j q h. elim (ℕ_discrete j n) [
      | yes i ↦ elim (Option-cases (s.pages n)) [
        | inl empty ↦ rw i (f.counted empty)
        | inr (o, full) ↦ rw i (omega (arith, v.counted n o full, f.more))
      ]
      | no ni ↦ omega (arith, v.counted j q (sym (f.others j ni) ∙ h), f.more)
    ];
    bounded = λ j q h. elim (ℕ_discrete j n) [
      | yes i ↦ rw i f.in_bounds
      | no ni ↦ v.bounded j q (sym (f.others j ni) ∙ h)
    ];
  }
    where
      f : Fetched n s p s'
      f = pager_get_page-Fetched n s s' p e

pub set_page_here :
    {F : Type 0} (s : Pager F) (n : ℕ) (p : Option Page) → (set_page s n p).pages n ≡ p
unfolding set_page
set_page_here s n p = ground arith

pub set_page_ne :
    {F : Type 0} (s : Pager F) (n j : ℕ) (p : Option Page)
    → j ≢ n
    → (set_page s n p).pages j ≡ s.pages j
unfolding set_page
set_page_ne s n j p h = ground arith
