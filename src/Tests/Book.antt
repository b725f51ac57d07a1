-- ===== src/Tests/Book.antt =====
-- Examples for the whole binary book.
use limit_order_book_v.Prelude.{ℕ, ◌≤◌, ◌≡◌, refl, arith, []}
use limit_order_book_v.Domain.Order.{OrderSide, buy, sell, limit, gtc, new}
use limit_order_book_v.Domain.Pods.{nil_index}
use limit_order_book_v.Memory.OrderPool
use limit_order_book_v.Memory.OrderPool.{OrderPool}
use limit_order_book_v.Memory.IdIndexMap
use limit_order_book_v.Storage.Binary
use limit_order_book_v.Storage.Binary.{
  BinaryOrderBook, add_order, cancel_order, update_quantity, pop_best_bid, pop_best_ask,
  get_best_bid, get_best_ask,
}
use limit_order_book_v.Storage.Binary.Half.Best.{BestOf, get_best_bid-BestOf}
use limit_order_book_v.Storage.Binary.Book.{Waiting, IsBook}
use limit_order_book_v.Storage.Binary.Book.Init.{nobody, init-IsBook}
use limit_order_book_v.Storage.Binary.Book.Add.{put_behind, add_order-IsBook}
use limit_order_book_v.Storage.Binary.Book.Cancel.{Cancels, cancel_order-Cancels}
use limit_order_book_v.Storage.Binary.Book.Update.{Updates, update_quantity-Updates}
use limit_order_book_v.Storage.Binary.Book.Pop.{Pops, pop_best_bid-Pops, pop_best_ask-Pops}

-- Slot `i` holds order `i`, four shares at price 10.
abbrev pool : OrderSide → OrderPool
pool s = record {
  storage = λ i. record {
    price = 10;
    timestamp = 0;
    order_id = i;
    trader_id = 7;
    quantity = 4;
    symbol = 0;
    side = s;
    type = limit;
    tif = gtc;
    status = new;
    next = 0;
    prev = 0;
  };
  free_index = [];
}

unknown : (id : ℕ) → IdIndexMap.get id Binary.init.id_to_index ≡ nil_index
unfolding IdIndexMap.get IdIndexMap.init Binary.init
unknown id = ground arith

-- The order of slot 3 is added to a new book.
abbrev pub book : OrderSide → OrderPool × BinaryOrderBook
book s = add_order 3 (pool s) Binary.init

abbrev pub first : OrderSide → Waiting
first s = put_behind 3 (OrderPool.get (pool s) 3) nobody

pub book-IsBook : (s : OrderSide) → IsBook (book s).0 (book s).1 (first s)
book-IsBook s =
    add_order-IsBook 3 (pool s) Binary.init (init-IsBook (pool s)) (λ t p. refl) (omega arith)
      (omega arith) (unknown 3)

add_order-IsBook_example : IsBook (book buy).0 (book buy).1 (first buy)
add_order-IsBook_example =
    add_order-IsBook 3 (pool buy) Binary.init (init-IsBook (pool buy)) (λ t p. refl) (omega arith)
      (omega arith) (unknown 3)

cancel_order-Cancels_example :
    Cancels 3 (book buy).0 (book buy).1 (first buy) (cancel_order 3 (book buy).0 (book buy).1)
cancel_order-Cancels_example = cancel_order-Cancels 3 (book buy).0 (book buy).1 (book-IsBook buy)

update_quantity-Updates_example :
    Updates 3 1
      (book buy).0
      (book buy).1
      (first buy)
      (update_quantity 3 1 (book buy).0 (book buy).1)
update_quantity-Updates_example =
    update_quantity-Updates 3 1 (book buy).0 (book buy).1 (book-IsBook buy)

pop_best_bid-Pops_example :
    Pops
      (λ p q. q ≤ p)
      buy
      (book buy).0
      (book buy).1
      (first buy)
      (pop_best_bid (book buy).0 (book buy).1)
pop_best_bid-Pops_example = pop_best_bid-Pops (book buy).0 (book buy).1 (book-IsBook buy)

pop_best_ask-Pops_example :
    Pops
      (λ p q. p ≤ q)
      sell
      (book sell).0
      (book sell).1
      (first sell)
      (pop_best_ask (book sell).0 (book sell).1)
pop_best_ask-Pops_example = pop_best_ask-Pops (book sell).0 (book sell).1 (book-IsBook sell)

get_best_bid-BestOf_example :
    BestOf (λ p q. q ≤ p) (first buy buy) (get_best_bid (book buy).0 (book buy).1)
get_best_bid-BestOf_example =
    get_best_bid-BestOf (book buy).0 (book buy).1 ((book-IsBook buy).halves buy)
