-- ===== src/Storage/Binary/Depth.antt =====
-- The queries of `BinaryOrderBook` that go through many orders: `GetBestBids`, `GetBestAsks`,
-- `CanFillQuantityAsks` and `CanFillQuantityBids`.
use limit_order_book_v.Prelude.{
  ℕ, zero, suc, ◌+◌, ◌%◌, ◌^◌, Bool, true, false, List, [], ◌∷◌, ◌++◌, ◌==◌, ltb, leb,
  if◌then◌else◌, length,
}
use limit_order_book_v.Domain.Pods.{nil_index}
use limit_order_book_v.Memory.OrderPool.{OrderPool, get, default_capacity}
use limit_order_book_v.Storage.Levels.{high, low, dim_level4}
use limit_order_book_v.Storage.Levels.Walk.{walk_down, walk_up}
use limit_order_book_v.Storage.LinkedList.{get_head}
use limit_order_book_v.Storage.PriceMap
use limit_order_book_v.Storage.Binary.{BinaryOrderBook, HalfBook}

-- `while (idx != NIL)` over the queue of a price, until `result` holds `x` slots. A queue has no more
-- slots than the pool, so `default_capacity` rounds are enough.
unfoldable pub collect : ℕ → ℕ → OrderPool → ℕ → List ℕ → List ℕ
collect zero x pool idx result = result
collect (suc rounds) x pool idx result =
    let taken = result ++ idx ∷ [] in
    let rest = collect rounds x pool (get pool idx).next taken in
    if idx == nil_index then result else if leb x (length taken) then taken else rest

abbrev pub fewer_than : ℕ → List ℕ → Bool
fewer_than x result = ltb (length result) x

abbrev visit_collect : ℕ → OrderPool → HalfBook → ℕ → List ℕ → List ℕ
visit_collect x pool h price result =
    collect default_capacity x pool (get_head (PriceMap.at h.lists price)) result

unfoldable pub get_best_bids : ℕ → OrderPool → BinaryOrderBook → List ℕ
unfolding collect
get_best_bids x pool b =
    walk_down high (fewer_than x) b.bids.levels (visit_collect x pool b.bids) dim_level4 []

unfoldable pub get_best_asks : ℕ → OrderPool → BinaryOrderBook → List ℕ
unfolding collect
get_best_asks x pool b =
    walk_up low (fewer_than x) b.asks.levels (visit_collect x pool b.asks) 0 dim_level4 []

-- The state of the two `CanFillQuantity` loops: the sum `Q` so far, or the value returned early.
pub data Progress : Type 0 where
  running : ℕ → Progress
  returned : Bool → Progress

abbrev pub unfilled : ℕ → Progress → Bool
unfilled quantity (running q) = ltb q quantity
unfilled quantity (returned r) = false

abbrev pub answer : ℕ → Progress → Bool
answer quantity (running q) = leb quantity q
answer quantity (returned r) = r

-- The queue of a price is added up; `Q` is a `uint32_t`.
unfoldable pub add_up : ℕ → ℕ → OrderPool → ℕ → ℕ → Progress
add_up zero quantity pool idx q = running q
add_up (suc rounds) quantity pool idx q =
    let sum = (q + (get pool idx).quantity) % 2 ^ 32 in
    let rest = add_up rounds quantity pool (get pool idx).next sum in
    if idx == nil_index then running q else if leb quantity sum then returned true else rest

unfoldable pub visit_fill : (ℕ → Bool) → ℕ → OrderPool → HalfBook → ℕ → Progress → Progress
unfolding add_up
visit_fill beyond quantity pool h price (returned r) = returned r
visit_fill beyond quantity pool h price (running q) =
    if beyond price
    then returned false
    else add_up default_capacity quantity pool (get_head (PriceMap.at h.lists price)) q

unfoldable pub can_fill_quantity_asks : ℕ → ℕ → OrderPool → BinaryOrderBook → Bool
unfolding visit_fill
can_fill_quantity_asks quantity price pool b = answer quantity (
    walk_up low (unfilled quantity) b.asks.levels
      (visit_fill (λ p. ltb price p) quantity pool b.asks) 0 dim_level4 (running 0))

unfoldable pub can_fill_quantity_bids : ℕ → ℕ → OrderPool → BinaryOrderBook → Bool
unfolding visit_fill
can_fill_quantity_bids quantity price pool b = answer quantity (
    walk_down high (unfilled quantity) b.bids.levels
      (visit_fill (λ p. ltb p price) quantity pool b.bids) dim_level4 (running 0))
