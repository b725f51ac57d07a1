-- ===== src/Storage/Multiset.antt =====
-- `MultisetOrderBook` of include/Storage/MultisetOrderBookStorage.h and
-- src/Storage/MultisetOrderBookStorage.cpp: the book as two sorted sets. A `std::multiset` is the list
-- of its elements in its order. An iterator is the slot that it points to: a slot is in a set once.
pub mod Priority
use limit_order_book_v.Prelude.{
  is_nil, ℕ, ◌+◌, ◌-◌, Bool, true, false, ◌&&◌, ◌||◌, Option, none, some, List, [], ◌∷◌, ltb, ◌==◌,
  if◌then◌else◌, write, min, take,
}
use limit_order_book_v.Domain.Order.{
  OrderSide, buy, sell, canceled, filled, partially_filled, is_positive,
}
use limit_order_book_v.Domain.Pods.{OrderPod, nil_index}
use limit_order_book_v.Memory.OrderPool.{OrderPool, get, put, free}
use limit_order_book_v.Storage.Binary.{set_status, set_quantity}

-- The comparators: price, then time.
unfoldable pub bid_order : OrderPool → ℕ → ℕ → Bool
bid_order pool lhs rhs =
    if (get pool lhs).price == (get pool rhs).price
    then ltb (get pool lhs).timestamp (get pool rhs).timestamp
    else ltb (get pool rhs).price (get pool lhs).price

unfoldable pub ask_order : OrderPool → ℕ → ℕ → Bool
ask_order pool lhs rhs =
    if (get pool lhs).price == (get pool rhs).price
    then ltb (get pool lhs).timestamp (get pool rhs).timestamp
    else ltb (get pool lhs).price (get pool rhs).price

-- A set with its index from order ids, `bids` with `bidLocation` or `asks` with `askLocation`.
pub record Side : Type 0 where
  pub orders : List ℕ
  pub location : ℕ → Option ℕ

pub record MultisetOrderBook : Type 0 where
  pub bids : Side
  pub asks : Side

abbrev empty_side : Side
empty_side = record { orders = []; location = λ _. none }

unfoldable pub init : MultisetOrderBook
init = record { bids = empty_side; asks = empty_side }

-- `insert`: behind every element that is not greater.
unfoldable pub insert : (ℕ → ℕ → Bool) → ℕ → List ℕ → List ℕ
insert less x [] = x ∷ []
insert less x (y ∷ ys) = let rest = insert less x ys in if less x y then x ∷ y ∷ ys else y ∷ rest

-- `erase` of the element at an iterator.
unfoldable pub erase : ℕ → List ℕ → List ℕ
erase x [] = []
erase x (y ∷ ys) = let rest = erase x ys in if x == y then ys else y ∷ rest

unfoldable pub add_to_side : (ℕ → ℕ → Bool) → ℕ → ℕ → Side → Side
unfolding insert
add_to_side less order_id index s = record {
  orders = insert less index s.orders;
  location = write s.location order_id (some index);
}

unfoldable pub remove_from_side : ℕ → ℕ → Side → Side
unfolding erase
remove_from_side order_id index s = record {
  orders = erase index s.orders;
  location = write s.location order_id none;
}

abbrev add_by_side : OrderSide → ℕ → OrderPool → MultisetOrderBook → MultisetOrderBook
add_by_side buy index pool b = record b {
  bids = add_to_side (bid_order pool) (get pool index).order_id index b.bids;
}
add_by_side sell index pool b = record b {
  asks = add_to_side (ask_order pool) (get pool index).order_id index b.asks;
}

-- The pool is not changed, but returned as the other book's operation does.
unfoldable pub add_order : ℕ → OrderPool → MultisetOrderBook → OrderPool × MultisetOrderBook
unfolding add_to_side bid_order ask_order
add_order index pool b = (pool, add_by_side (get pool index).side index pool b)

-- The iterators found for an order id among the bids, then among the asks.
abbrev cancel_found :
    Option ℕ → Option ℕ → ℕ → OrderPool → MultisetOrderBook → OrderPool × MultisetOrderBook
cancel_found (some index) ask order_id pool b = (
  free index (set_status index canceled pool),
  record b { bids = remove_from_side order_id index b.bids },
)
cancel_found none (some index) order_id pool b = (
  free index (set_status index canceled pool),
  record b { asks = remove_from_side order_id index b.asks },
)
cancel_found none none order_id pool b = (pool, b)

unfoldable pub cancel_order : ℕ → OrderPool → MultisetOrderBook → OrderPool × MultisetOrderBook
unfolding remove_from_side
cancel_order order_id pool b =
    cancel_found (b.bids.location order_id) (b.asks.location order_id) order_id pool b

abbrev update_found :
    Option ℕ → Option ℕ → ℕ → ℕ → OrderPool → MultisetOrderBook → OrderPool × MultisetOrderBook
update_found (some index) ask order_id quantity pool b =
    if is_positive quantity
    then (set_status index partially_filled (set_quantity index quantity pool), b)
    else (
      free index (set_status index filled (set_quantity index quantity pool)),
      record b { bids = remove_from_side order_id index b.bids },
    )
update_found none (some index) order_id quantity pool b =
    if is_positive quantity
    then (set_status index partially_filled (set_quantity index quantity pool), b)
    else (
      free index (set_status index filled (set_quantity index quantity pool)),
      record b { asks = remove_from_side order_id index b.asks },
    )
update_found none none order_id quantity pool b = (pool, b)

unfoldable pub update_quantity :
    ℕ → ℕ → OrderPool → MultisetOrderBook → OrderPool × MultisetOrderBook
unfolding remove_from_side
update_quantity order_id new_quantity pool b =
    update_found (b.bids.location order_id) (b.asks.location order_id) order_id new_quantity pool b

-- `*begin()`, or `UINT32_MAX` of an empty set.
abbrev pub first : List ℕ → ℕ
first [] = nil_index
first (index ∷ rest) = index

unfoldable pub get_best_bid : OrderPool → MultisetOrderBook → ℕ
get_best_bid pool b = first b.bids.orders

unfoldable pub get_best_ask : OrderPool → MultisetOrderBook → ℕ
get_best_ask pool b = first b.asks.orders

unfoldable pub get_best_bids : ℕ → OrderPool → MultisetOrderBook → List ℕ
get_best_bids x pool b = take x b.bids.orders

unfoldable pub get_best_asks : ℕ → OrderPool → MultisetOrderBook → List ℕ
get_best_asks x pool b = take x b.asks.orders

unfoldable pub is_bid_empty : MultisetOrderBook → Bool
is_bid_empty b = is_nil b.bids.orders

unfoldable pub is_ask_empty : MultisetOrderBook → Bool
is_ask_empty b = is_nil b.asks.orders

-- The loop of the two `CanFillQuantity` functions; `beyond` tells a price that is out of reach.
unfoldable pub can_fill : (ℕ → Bool) → ℕ → OrderPool → List ℕ → Bool
can_fill beyond quantity pool [] = false
can_fill beyond quantity pool (index ∷ rest) =
    let left = quantity - min quantity (get pool index).quantity in
    let later = can_fill beyond left pool rest in
    if beyond (get pool index).price then false else if left == 0 then true else later

unfoldable pub can_fill_quantity_asks : ℕ → ℕ → OrderPool → MultisetOrderBook → Bool
unfolding can_fill
can_fill_quantity_asks quantity price pool b =
    can_fill (λ p. ltb price p) quantity pool b.asks.orders

unfoldable pub can_fill_quantity_bids : ℕ → ℕ → OrderPool → MultisetOrderBook → Bool
unfolding can_fill
can_fill_quantity_bids quantity price pool b =
    can_fill (λ p. ltb p price) quantity pool b.bids.orders

abbrev pop_bid : List ℕ → OrderPool → MultisetOrderBook → OrderPool × MultisetOrderBook
pop_bid [] pool b = (pool, b)
pop_bid (index ∷ rest) pool b = (
  free index (set_status index filled pool),
  record b { bids = remove_from_side (get pool index).order_id index b.bids },
)

unfoldable pub pop_best_bid : OrderPool → MultisetOrderBook → OrderPool × MultisetOrderBook
unfolding remove_from_side
pop_best_bid pool b = pop_bid b.bids.orders pool b

abbrev pop_ask : List ℕ → OrderPool → MultisetOrderBook → OrderPool × MultisetOrderBook
pop_ask [] pool b = (pool, b)
pop_ask (index ∷ rest) pool b = (
  free index (set_status index filled pool),
  record b { asks = remove_from_side (get pool index).order_id index b.asks },
)

unfoldable pub pop_best_ask : OrderPool → MultisetOrderBook → OrderPool × MultisetOrderBook
unfolding remove_from_side
pop_best_ask pool b = pop_ask b.asks.orders pool b
