-- ===== src/Routing/OrderRouter/Queueing/Sending.antt =====
-- `Route` and the queues: the push into the queue of the request's symbol.
use limit_order_book_v.Prelude.{
  ℕ, ◌+◌, ◌^◌, ◌<◌, ◌≡◌, ◌≢◌, ◌∙◌, refl, arith, Option, true, some, is_some, List, [], ◌∷◌, ◌++◌,
  length, write, write_self, write_ne,
}
use limit_order_book_v.Domain.Text.{Bytes}
use limit_order_book_v.Domain.Float.{Float}
use limit_order_book_v.Domain.Order.{OrderSide, OrderType, TimeInForce}
use limit_order_book_v.Domain.Pods.{OrderPod, OrderRequest}
use limit_order_book_v.Concurrency.LockFreeQueue.{queue_capacity, LockFreeQueue, fill}
use limit_order_book_v.Concurrency.LockFreeQueue.Refines.{push_room, fill-Holds}
use limit_order_book_v.Concurrency.SymbolWorker.{SymbolResources}
use limit_order_book_v.Routing.OrderRouter.{
  OrderRouter, returned, check_registery, check_symbol_id, push_to, route,
}
use limit_order_book_v.Routing.OrderRouter.Registry.{IsValid, check_registery-IsValid}
use limit_order_book_v.Routing.OrderRouter.Queueing.{
  Serves, Waits, unregistered, registered, IsOrderOf, IsNamed, order_for, make_pod-named,
  order_for-IsOrderOf, id_ne, check_registery-Serves, check_registery-others, check_registery-old,
}

is_some-write :
    {A : Type 0} (f : ℕ → Option A) (i : ℕ) (a : A) (j : ℕ)
    → is_some (f j) ≡ true
    → is_some (write f i (some a) j) ≡ true
unfolding write
is_some-write f i a j e = ground arith

-- The router after a push into the queue of a symbol.
abbrev sent : ℕ → SymbolResources → OrderPod → OrderRouter → OrderRouter
sent id s order r = record r {
  resources = write r.resources id (some (record s { queue = fill queue_capacity order s.queue }));
}

module _ {symbol : Bytes} {r : OrderRouter} {id : ℕ} {s : SymbolResources} {orders : List OrderPod}
    (order : OrderPod) (w : Serves symbol r id s orders) where
  push_to-sent :
      length orders < queue_capacity
      → push_to (r.resources id) id order r ≡ returned (sent id s order r)
  push_to-sent k = rw (w.there, push_room w.holds order k) refl

  sent-Waits :
      length orders < queue_capacity → Waits symbol (sent id s order r) (orders ++ order ∷ [])
  unfolding check_symbol_id
  sent-Waits k = registered id _ (record {
    found = w.found;
    there = write_self r.resources id _;
    taken = w.taken;
    holds = fill-Holds order w.holds k;
  })

  sent-others :
      IsValid r
      → (t : Bytes) {ts : List OrderPod} → t ≢ symbol
      → Waits t r ts
      → Waits t (sent id s order r) ts
  unfolding check_symbol_id
  sent-others v t ne (unregistered e f) = unregistered e f
  sent-others v t ne (registered i s' w') = registered i s' (record {
    found = w'.found;
    there = write_ne r.resources id _ i (id_ne v w.found w'.found ne) ∙ w'.there;
    taken = w'.taken;
    holds = w'.holds;
  })

  sent-IsValid : IsValid r → IsValid (sent id s order r)
  sent-IsValid v = record {
    given = v.given;
    resources = λ t i e. is_some-write r.resources id _ i (v.resources t i e);
    own = v.own;
  }

  sent-kept :
      (i : ℕ) (s' : SymbolResources)
      → check_symbol_id symbol r ≡ some i
      → r.resources i ≡ some s'
      → (q : LockFreeQueue OrderPod) × ((sent id s order r).resources i
          ≡ some (record s' { queue = q }))
  sent-kept i s' e f =
      let same : id ≡ i = cc (w.found, e) in
      let there : s ≡ s' = cc (w.there, f, same) in
      (fill queue_capacity order s.queue, rw (← same, write_self r.resources id, there) refl)

  sent-check_symbol_id : check_symbol_id symbol (sent id s order r) ≡ some id
  unfolding check_symbol_id
  sent-check_symbol_id = w.found

-- The request's order is at the end of its symbol's queue, and the rest is as before.
pub record Queued (undefined : Float → ℕ) (now : ℕ) (request : OrderRequest Float)
    (orders : List OrderPod) (r r' : OrderRouter) : Type 0 where
  pub order : OrderPod
  pub asked : IsOrderOf undefined now request order
  pub its_symbol : check_symbol_id request.symbol r' ≡ some order.symbol
  pub waiting : Waits request.symbol r' (orders ++ order ∷ [])
  pub others : (t : Bytes) {ts : List OrderPod} → t ≢ request.symbol → Waits t r ts → Waits t r' ts
  pub kept :
      (id : ℕ) (s : SymbolResources)
      → check_symbol_id request.symbol r ≡ some id
      → r.resources id ≡ some s
      → (q : LockFreeQueue OrderPod) × (r'.resources id ≡ some (record s { queue = q }))
  pub valid : IsValid r'

-- In a valid registry with room for an id, where fewer than `queue_capacity` orders wait for the
-- symbol of a request whose names are known, `Route` returns, and the order that the request asks for,
-- stamped with the clock and with the id of its symbol, waits behind them; for a symbol that is not
-- registered yet it is the only one. The queue of every other symbol holds what it held, the resources
-- of a registered symbol other than its queue are what they were, and the registry is valid.
pub route-Queued :
    (undefined : Float → ℕ) (now : ℕ) (request : OrderRequest Float) {side : OrderSide}
    {type : OrderType} {tif : TimeInForce}
    → IsNamed request side type tif
    → {r : OrderRouter} → IsValid r
    → r.symbol_id + 1 < 2 ^ 32
    → {orders : List OrderPod} → Waits request.symbol r orders
    → length orders < queue_capacity
    → (r' : OrderRouter) × ((route undefined now request r ≡ returned r')
        × Queued undefined now request orders r r')
unfolding route
route-Queued undefined now request {side} {type} {tif} named {r} v room w k =
    let id = (check_registery request.symbol r).0 in
    let r1 = (check_registery request.symbol r).1 in
    let order = order_for undefined now id request side type tif in
    let v1 : IsValid r1 = check_registery-IsValid request.symbol v room in
    let (s, w1) = check_registery-Serves request.symbol v room w in
    (
      sent id s order r1,
      (
        rw (make_pod-named undefined now request named id) (push_to-sent order w1 k),
        record {
          order = order;
          asked = order_for-IsOrderOf undefined now request named id;
          its_symbol = sent-check_symbol_id order w1;
          waiting = sent-Waits order w1 k;
          others = λ t ne x.
              sent-others order w1 v1 t ne (check_registery-others request.symbol v room t ne x);
          kept = λ i s' e f.
              let same : r1 ≡ r = rw (check_registery-old request.symbol r e) refl in
              sent-kept order w1 i s' (rw same e) (rw same f);
          valid = sent-IsValid order w1 v1;
        },
      ),
    )
