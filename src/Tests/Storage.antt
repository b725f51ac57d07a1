-- ===== src/Tests/Storage.antt =====
-- Examples for src/Storage and include/Storage.
use limit_order_book_v.Storage.Multiset.{can_fill}
use limit_order_book_v.Storage.Multiset.Priority.{reachable, can_fill-reachable}
use limit_order_book_v.Prelude.{
  ltb, leb, ℕ, ◌<◌, ◌≡◌, ◌≢◌, ◌↔◌, refl, true, false, Option, some, [], ◌∷◌, arith,
}
use limit_order_book_v.Domain.Order.{buy, limit, gtc, new}
use limit_order_book_v.Domain.Pods.{OrderPod}
use limit_order_book_v.Memory.OrderPool
use limit_order_book_v.Memory.OrderPool.{OrderPool}
use limit_order_book_v.Storage.Levels
use limit_order_book_v.Storage.Levels.{Levels, set_price, clear_price, lowest_price, highest_price}
use limit_order_book_v.Storage.Levels.Best.{Coherent, has_price}
use limit_order_book_v.Storage.Levels.Update.{
  empty-Coherent, set_price-Coherent, has_price-set_price,
}
use limit_order_book_v.Storage.LinkedList
use limit_order_book_v.Storage.LinkedList.{LinkedList, add_node, delete_node}
use limit_order_book_v.Storage.LinkedList.Add.{Queues, add_node-Queues}

abbrev one_price : Levels
one_price = set_price 4242 Levels.empty

abbrev two_prices : Levels
two_prices = set_price 19999999 one_price

one_price-Coherent : Coherent one_price
one_price-Coherent = set_price-Coherent 4242 empty-Coherent (omega arith)

two_prices-Coherent : Coherent two_prices
two_prices-Coherent = set_price-Coherent 19999999 one_price-Coherent (omega arith)

lowest : lowest_price two_prices ≡ some 4242
unfolding lowest_price set_price Levels.empty Levels.mark limit_order_book_v.Prelude.write
    limit_order_book_v.Prelude.Bits.set_bit limit_order_book_v.Prelude.Bits.trailing_zeros
lowest = refl

highest : highest_price two_prices ≡ some 19999999
unfolding highest_price set_price Levels.empty Levels.mark limit_order_book_v.Prelude.write
    limit_order_book_v.Prelude.Bits.set_bit limit_order_book_v.Prelude.Bits.leading_zeros
highest = refl

abbrev blank_order : OrderPod
blank_order = record {
  price = 0;
  timestamp = 0;
  order_id = 0;
  trader_id = 0;
  quantity = 0;
  symbol = 0;
  side = buy;
  type = limit;
  tif = gtc;
  status = new;
  next = 0;
  prev = 0;
}

abbrev pool : OrderPool
pool = OrderPool.init blank_order

empty-Queues : Queues pool.storage LinkedList.empty []
empty-Queues = record { chain = (refl, refl); distinct = tt }

abbrev one_order : LinkedList × OrderPool
one_order = add_node 3 LinkedList.empty pool

one_order-Queues : Queues one_order.1.storage one_order.0 (3 ∷ [])
one_order-Queues = add_node-Queues 3 LinkedList.empty pool (omega arith) [] refl empty-Queues

abbrev two_orders : LinkedList × OrderPool
two_orders = add_node 1 one_order.0 one_order.1

two_orders-Queues : Queues two_orders.1.storage two_orders.0 (3 ∷ 1 ∷ [])
two_orders-Queues =
    add_node-Queues 1 one_order.0 one_order.1 (omega arith) (3 ∷ []) refl one_order-Queues

has_price-set_price_example : has_price (set_price 4242 Levels.empty) 4242 ≡ true
has_price-set_price_example = has_price-set_price 4242 4242 Levels.empty

-- Slot 0 holds 4 at price 10, slot 1 holds 5 at price 11, the others nothing at price 0.
abbrev asks_pool : OrderPool
asks_pool =
    OrderPool.put 0 (record blank_order { price = 10; quantity = 4 })
      (OrderPool.put 1 (record blank_order { price = 11; quantity = 5 }) pool)

can_fill-reachable_example :
    can_fill (λ p. ltb 10 p) 6 asks_pool (0 ∷ 1 ∷ [])
    ≡ leb 6 (reachable (λ p. ltb 10 p) asks_pool (0 ∷ 1 ∷ []))
can_fill-reachable_example =
    can_fill-reachable (λ p. ltb 10 p) 6 asks_pool (0 ∷ 1 ∷ []) (omega arith)
