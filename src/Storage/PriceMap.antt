-- ===== src/Storage/PriceMap.antt =====
-- `ListMap` of BinaryOrderBookStorage.h: the queues by price, in pages made on first use.
use limit_order_book_v.Prelude.{
  ℕ, ◌+◌, ◌/◌, ◌%◌, ◌≡◌, Option, none, some, arith, ◌==◌, if◌then◌else◌, write,
}
use limit_order_book_v.Storage.LinkedList
use limit_order_book_v.Storage.LinkedList.{LinkedList}

abbrev pub page_size : ℕ
page_size = 64

abbrev pub num_pages : ℕ
num_pages = 20000000 / page_size + 1

-- `pages_`, a vector of `num_pages` pointers, `none` for `nullptr`.
pub record ListMap : Type 0 where
  pub pages : ℕ → Option (ℕ → LinkedList)

unfoldable pub init : ListMap
init = record { pages = λ _. none }

-- `new LinkedList[PAGE_SIZE]()` where there is no page.
abbrev pub page_or_new : Option (ℕ → LinkedList) → ℕ → LinkedList
page_or_new none slot = LinkedList.empty
page_or_new (some page) slot = page slot

-- `operator[]` as an rvalue. The page that it may make holds only empty queues, which are read as if
-- the page were not there.
unfoldable pub at : ListMap → ℕ → LinkedList
at m price = page_or_new (m.pages (price / page_size)) (price % page_size)

-- A write through the reference that `operator[]` returns.
unfoldable pub update : ℕ → LinkedList → ListMap → ListMap
update price l m = record {
  pages =
      write m.pages (price / page_size)
        (some (write (page_or_new (m.pages (price / page_size))) (price % page_size) l));
}

-- A queue written at a price is read there, and no other price is touched.
pub at-update :
    (price q : ℕ) (l : LinkedList) (m : ListMap)
    → at (update price l m) q ≡ (if q == price then l else at m q)
unfolding at update write
at-update price q l m = ground arith
