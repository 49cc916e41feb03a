-- ===== src/SimpleDb/Tree/Internal.antt =====
-- simpledb/node_btree.c: what `internal_node_insert` makes of a parent when the new child is the greatest.
use my_exercise.Prelude.{ℕ, ◌+◌, ◌%◌, ◌^◌, ◌<◌, ◌≡◌, ◌≢◌, ◌∙◌, ap, some, arith, inl, inr}
use my_exercise.Bytes.{load32, store32}
use my_exercise.Bytes.Laws.{Apart, load32-store32_self, load32-store32_ne}
use my_exercise.SimpleDb.Exit.{ok}
use my_exercise.SimpleDb.Node.{
  Page, get_node_max_key, internal_node_num_keys, internal_node_right_child, internal_node_cell,
  internal_node_key,
}
use my_exercise.SimpleDb.Pager.{System, Pager, set_page}
use my_exercise.SimpleDb.Pager.Cache.{set_page_here}
use my_exercise.SimpleDb.Tree.{store_child, replace_right_child}

-- The parent once the old right child is cell `n`, with its greatest key, and `child` the right child.
abbrev replaced : Page → ℕ → ℕ → ℕ → Page → Page
replaced p child n right_child r =
    store32
      (store32 (store32 p (internal_node_cell n) right_child) (internal_node_key n)
        (get_node_max_key r))
      internal_node_right_child child

-- The parent `q` has the old right child as its child `n`, with its greatest key as key `n`, and `child`
-- as the right child. Of what stood below, key `n - 2` is gone: the page number of the old right
-- child stands there, because `internal_node_key i` lies at `internal_node_cell (i + 2)`.
pub record Replaced (p q : Page) (child n right_child : ℕ) (r : Page) : Type 0 where
  pub count : load32 q internal_node_num_keys ≡ n + 1
  pub new_child : load32 q (internal_node_cell n) ≡ right_child % 2 ^ 32
  pub new_key : load32 q (internal_node_key n) ≡ get_node_max_key r % 2 ^ 32
  pub new_right : load32 q internal_node_right_child ≡ child % 2 ^ 32
  pub children : (i : ℕ) → i < n → load32 q (internal_node_cell i) ≡ load32 p (internal_node_cell i)
  pub keys :
      (i : ℕ) → i < n → i + 2 ≢ n → load32 q (internal_node_key i) ≡ load32 p (internal_node_key i)
  pub key_lost : (i : ℕ) → i + 2 ≡ n → load32 q (internal_node_key i) ≡ right_child % 2 ^ 32

module _ {F : Type 0} (os : System F) where
  store_child_lem :
      (s : Pager F) (n i v : ℕ) (p : Page)
      → s.pages n ≡ some p
      → i < load32 p internal_node_num_keys
      → store_child n i v s ≡ ok (tt, set_page s n (some (store32 p (internal_node_cell i) v)))
  unfolding store_child
  store_child_lem s n i v p e l = ground arith

  module _ (s : Pager F) (parent child n right_child : ℕ) (p r : Page)
      (apart : right_child ≢ parent) (at_parent : s.pages parent ≡ some p)
      (at_right : s.pages right_child ≡ some r)
      (counted : load32 p internal_node_num_keys ≡ n + 1) where
    abbrev result : Pager F
    result =
        set_page
          (set_page (set_page s parent (some (store32 p (internal_node_cell n) right_child))) parent
            (some (
              store32 (store32 p (internal_node_cell n) right_child) (internal_node_key n)
                (get_node_max_key r))))
          parent (some (replaced p child n right_child r))

    replace_right_child_lem : replace_right_child os parent child n right_child s ≡ ok (tt, result)
    unfolding replace_right_child
    replace_right_child_lem = ground (arith, store_child_lem s parent n right_child p at_parent)

    others : (j : ℕ) → j ≢ parent → result.pages j ≡ s.pages j
    unfolding set_page
    others j h = ground arith

    abbrev first : Page
    first = store32 p (internal_node_cell n) right_child

    abbrev second : Page
    second = store32 first (internal_node_key n) (get_node_max_key r)

    -- A word that the three stores do not touch.
    kept :
        (a : ℕ)
        → Apart (internal_node_cell n) 4 a 4
        → Apart (internal_node_key n) 4 a 4
        → Apart internal_node_right_child 4 a 4
        → load32 (replaced p child n right_child r) a ≡ load32 p a
    kept a h k l =
        load32-store32_ne second internal_node_right_child child a l
        ∙ load32-store32_ne first (internal_node_key n) (get_node_max_key r) a k
        ∙ load32-store32_ne p (internal_node_cell n) right_child a h

    cell_word :
        load32 (replaced p child n right_child r) (internal_node_cell n) ≡ right_child % 2 ^ 32
    cell_word =
        load32-store32_ne second internal_node_right_child child (internal_node_cell n)
          (inl (omega arith))
        ∙ load32-store32_ne first (internal_node_key n) (get_node_max_key r) (internal_node_cell n)
            (inr (omega arith))
        ∙ load32-store32_self p (internal_node_cell n) right_child

    replaced-Replaced : Replaced p (replaced p child n right_child r) child n right_child r
    replaced-Replaced = record {
      count =
          kept internal_node_num_keys (inr (omega arith)) (inr (omega arith)) (inr (omega arith))
          ∙ counted;
      new_child = cell_word;
      new_key =
          load32-store32_ne second internal_node_right_child child (internal_node_key n)
            (inl (omega arith))
          ∙ load32-store32_self first (internal_node_key n) (get_node_max_key r);
      new_right = load32-store32_self second internal_node_right_child child;
      children = λ i h.
          kept (internal_node_cell i) (inr (omega arith)) (inr (omega arith)) (inl (omega arith));
      keys =
          λ i h e. kept (internal_node_key i) (grind arith) (inr (omega arith)) (inl (omega arith));
      key_lost = λ i e. ap (load32 (replaced p child n right_child r)) (omega arith) ∙ cell_word;
    }

    -- `internal_node_insert`, where the new child has the greatest key, on cached pages: the parent, whose
    -- count is already raised to `n + 1`, gets what `Replaced` says in its cell `n`, and no other page changes.
    pub replace_right_child-Replaced :
        (t : Pager F) × (q : Page) × (replace_right_child os parent child n right_child s
          ≡ ok (tt, t))
        × (t.pages parent ≡ some q)
        × Replaced p q child n right_child r
        × ((j : ℕ) → j ≢ parent → t.pages j ≡ s.pages j)
    replace_right_child-Replaced = (
      result,
      replaced p child n right_child r,
      replace_right_child_lem,
      set_page_here _ parent (some (replaced p child n right_child r)),
      replaced-Replaced,
      others,
    )
