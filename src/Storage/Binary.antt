-- ===== src/Storage/Binary.antt =====
-- `BinaryOrderBook` of include/Storage/BinaryOrderBookStorage.h and
-- src/Storage/BinaryOrderBookStorage.cpp. The book shares the pool of its symbol, so an operation
-- takes both and returns both. The code writes each operation out for bids and for asks; here a side
-- is a `HalfBook`, and what differs is the direction in which its bitmap is scanned.
pub mod Depth
pub mod Half
pub mod Book
use limit_order_book_v.Prelude.{
  ℕ, zero, suc, ◌+◌, ◌-◌, ◌*◌, ◌%◌, ◌^◌, ◌≡◌, Bool, true, false, Option, none, some, List, [], ◌∷◌,
  ◌==◌, ltb, leb, if◌then◌else◌, write,
}
use limit_order_book_v.Domain.Order.{
  OrderSide, buy, sell, OrderStatus, canceled, filled, partially_filled, is_positive,
}
use limit_order_book_v.Domain.Pods.{OrderPod, nil_index}
use limit_order_book_v.Memory.OrderPool.{OrderPool, get, put, free}
use limit_order_book_v.Memory.IdIndexMap
use limit_order_book_v.Memory.IdIndexMap.{IdIndexMap}
use limit_order_book_v.Storage.Levels
use limit_order_book_v.Storage.Levels.{Levels, highest_price, lowest_price}
use limit_order_book_v.Storage.LinkedList
use limit_order_book_v.Storage.LinkedList.{LinkedList, add_node, delete_node, get_head}
use limit_order_book_v.Storage.PriceMap
use limit_order_book_v.Storage.PriceMap.{ListMap}

-- `level1_bid` … `level4_bid` with `BidList_`, or the same for asks.
pub record HalfBook : Type 0 where
  pub levels : Levels
  pub lists : ListMap

pub record BinaryOrderBook : Type 0 where
  pub bids : HalfBook
  pub asks : HalfBook
  pub id_to_index : IdIndexMap

abbrev empty_half : HalfBook
empty_half = record { levels = Levels.empty; lists = PriceMap.init }

unfoldable pub init : BinaryOrderBook
init = record { bids = empty_half; asks = empty_half; id_to_index = IdIndexMap.init }

-- One branch of `AddOrder`: the queue of the price, and its bits.
unfoldable pub add_to_half : ℕ → OrderPool → HalfBook → OrderPool × HalfBook
add_to_half index pool h =
    let price = (get pool index).price in
    let (l, pool') = add_node index (PriceMap.at h.lists price) pool in
    (
      pool',
      record { levels = Levels.set_price price h.levels; lists = PriceMap.update price l h.lists },
    )

unfoldable pub add_by_side :
    OrderSide → ℕ → OrderPool → BinaryOrderBook → OrderPool × BinaryOrderBook
unfolding add_to_half
add_by_side buy index pool b =
    let (pool', h) = add_to_half index pool b.bids in (pool', record b { bids = h })
add_by_side sell index pool b =
    let (pool', h) = add_to_half index pool b.asks in (pool', record b { asks = h })

unfoldable pub add_order : ℕ → OrderPool → BinaryOrderBook → OrderPool × BinaryOrderBook
unfolding add_by_side
add_order index pool b =
    let order = get pool index in
    add_by_side order.side index pool
      (record b { id_to_index = IdIndexMap.set order.order_id index b.id_to_index })

-- `DeleteBid` and `DeleteAsk` on their side: the bits are cleared when the queue became empty.
unfoldable pub delete_from_half : ℕ → OrderPool → HalfBook → OrderPool × HalfBook
delete_from_half index pool h =
    let price = (get pool index).price in
    let (l, pool') = delete_node index (PriceMap.at h.lists price) pool in
    (
      pool',
      record {
        levels = if LinkedList.is_empty l then Levels.clear_price price h.levels else h.levels;
        lists = PriceMap.update price l h.lists;
      },
    )

unfoldable pub delete_bid : ℕ → OrderPool → BinaryOrderBook → OrderPool × BinaryOrderBook
unfolding delete_from_half
delete_bid index pool b =
    let (pool', h) = delete_from_half index pool b.bids in
    (
      pool',
      record b {
        bids = h;
        id_to_index = IdIndexMap.clear (get pool' index).order_id b.id_to_index;
      },
    )

unfoldable pub delete_ask : ℕ → OrderPool → BinaryOrderBook → OrderPool × BinaryOrderBook
unfolding delete_from_half
delete_ask index pool b =
    let (pool', h) = delete_from_half index pool b.asks in
    (
      pool',
      record b {
        asks = h;
        id_to_index = IdIndexMap.clear (get pool' index).order_id b.id_to_index;
      },
    )

unfoldable pub delete_by_side :
    OrderSide → ℕ → OrderPool → BinaryOrderBook → OrderPool × BinaryOrderBook
unfolding delete_bid delete_ask
delete_by_side buy index pool b = delete_bid index pool b
delete_by_side sell index pool b = delete_ask index pool b

-- The slot goes back to the pool after the order has left the book.
unfoldable pub delete_and_free : ℕ → OrderPool → BinaryOrderBook → OrderPool × BinaryOrderBook
unfolding delete_by_side
delete_and_free index pool b =
    let (pool', b') = delete_by_side (get pool index).side index pool b in (free index pool', b')

abbrev pub set_status : ℕ → OrderStatus → OrderPool → OrderPool
set_status index status pool = put index (record (get pool index) { status = status }) pool

abbrev pub set_quantity : ℕ → ℕ → OrderPool → OrderPool
set_quantity index quantity pool = put index (record (get pool index) { quantity = quantity }) pool

-- `order_id` is the bit pattern of the `int` argument, which is what `static_cast<uint32_t>` gives.
unfoldable pub cancel_order : ℕ → OrderPool → BinaryOrderBook → Bool × OrderPool × BinaryOrderBook
unfolding delete_and_free
cancel_order order_id pool b =
    let index = IdIndexMap.get order_id b.id_to_index in
    if index == nil_index
    then (false, pool, b)
    else (let (pool', b') = delete_and_free index (set_status index canceled pool) b in
        (true, pool', b'))

-- `new_quantity` is an `int`, given by its bit pattern.
unfoldable pub update_quantity : ℕ → ℕ → OrderPool → BinaryOrderBook → OrderPool × BinaryOrderBook
unfolding delete_and_free
update_quantity order_id new_quantity pool b =
    let index = IdIndexMap.get order_id b.id_to_index in
    if index == nil_index
    then (pool, b)
    else if is_positive new_quantity
    then (set_status index partially_filled (set_quantity index new_quantity pool), b)
    else delete_and_free index (set_status index filled (set_quantity index 0 pool)) b

-- The head of the queue at the price that a scan found.
abbrev pub head_at : HalfBook → Option ℕ → ℕ
head_at h none = nil_index
head_at h (some price) = get_head (PriceMap.at h.lists price)

unfoldable pub get_best_bid : OrderPool → BinaryOrderBook → ℕ
get_best_bid pool b = head_at b.bids (highest_price b.bids.levels)

unfoldable pub get_best_ask : OrderPool → BinaryOrderBook → ℕ
get_best_ask pool b = head_at b.asks (lowest_price b.asks.levels)

unfoldable pub is_bid_empty : BinaryOrderBook → Bool
is_bid_empty b = Levels.is_empty b.bids.levels

unfoldable pub is_ask_empty : BinaryOrderBook → Bool
is_ask_empty b = Levels.is_empty b.asks.levels

abbrev pop_bid_at : Option ℕ → OrderPool → BinaryOrderBook → OrderPool × BinaryOrderBook
pop_bid_at none pool b = (pool, b)
pop_bid_at (some price) pool b =
    let index = get_head (PriceMap.at b.bids.lists price) in
    let (pool', b') = delete_bid index (set_status index filled pool) b in (free index pool', b')

unfoldable pub pop_best_bid : OrderPool → BinaryOrderBook → OrderPool × BinaryOrderBook
pop_best_bid pool b = pop_bid_at (highest_price b.bids.levels) pool b

abbrev pop_ask_at : Option ℕ → OrderPool → BinaryOrderBook → OrderPool × BinaryOrderBook
pop_ask_at none pool b = (pool, b)
pop_ask_at (some price) pool b =
    let index = get_head (PriceMap.at b.asks.lists price) in
    let (pool', b') = delete_ask index (set_status index filled pool) b in (free index pool', b')

unfoldable pub pop_best_ask : OrderPool → BinaryOrderBook → OrderPool × BinaryOrderBook
pop_best_ask pool b = pop_ask_at (lowest_price b.asks.levels) pool b
