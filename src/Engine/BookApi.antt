-- ===== src/Engine/BookApi.antt =====
-- What `MatchingEngine` asks of its template parameter `StorageBook`. The book shares the pool of its
-- symbol: an operation takes both, and one that writes returns both. `BinaryOrderBook` and `MultisetOrderBook` are
-- instances.
use limit_order_book_v.Prelude.{ℕ, Bool}
use limit_order_book_v.Memory.OrderPool.{OrderPool}
use limit_order_book_v.Storage.Binary
use limit_order_book_v.Storage.Binary.Depth
use limit_order_book_v.Storage.Multiset

pub record StorageBook : Type 1 where
  pub Book : Type 0
  pub add_order : ℕ → OrderPool → Book → OrderPool × Book
  pub update_quantity : ℕ → ℕ → OrderPool → Book → OrderPool × Book
  pub get_best_bid : OrderPool → Book → ℕ
  pub get_best_ask : OrderPool → Book → ℕ
  pub is_bid_empty : Book → Bool
  pub is_ask_empty : Book → Bool
  pub can_fill_quantity_asks : ℕ → ℕ → OrderPool → Book → Bool
  pub can_fill_quantity_bids : ℕ → ℕ → OrderPool → Book → Bool
  pub pop_best_bid : OrderPool → Book → OrderPool × Book
  pub pop_best_ask : OrderPool → Book → OrderPool × Book

abbrev pub binary : StorageBook
binary = record {
  Book = Binary.BinaryOrderBook;
  add_order = Binary.add_order;
  update_quantity = Binary.update_quantity;
  get_best_bid = Binary.get_best_bid;
  get_best_ask = Binary.get_best_ask;
  is_bid_empty = Binary.is_bid_empty;
  is_ask_empty = Binary.is_ask_empty;
  can_fill_quantity_asks = Depth.can_fill_quantity_asks;
  can_fill_quantity_bids = Depth.can_fill_quantity_bids;
  pop_best_bid = Binary.pop_best_bid;
  pop_best_ask = Binary.pop_best_ask;
}

abbrev pub multiset : StorageBook
multiset = record {
  Book = Multiset.MultisetOrderBook;
  add_order = Multiset.add_order;
  update_quantity = Multiset.update_quantity;
  get_best_bid = Multiset.get_best_bid;
  get_best_ask = Multiset.get_best_ask;
  is_bid_empty = Multiset.is_bid_empty;
  is_ask_empty = Multiset.is_ask_empty;
  can_fill_quantity_asks = Multiset.can_fill_quantity_asks;
  can_fill_quantity_bids = Multiset.can_fill_quantity_bids;
  pop_best_bid = Multiset.pop_best_bid;
  pop_best_ask = Multiset.pop_best_ask;
}
