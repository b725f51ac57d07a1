-- ===== src/Routing/OrderRouter/Queueing.antt =====
-- What `Route` makes of the queues of all symbols: each symbol has a first-in first-out queue.
pub mod Sending
use limit_order_book_v.Prelude.{
  ℕ, ◌+◌, ◌^◌, ◌<◌, ◌≡◌, ◌≢◌, ◌∙◌, refl, sym, arith, Bool-cases, Option-cases, inl, inr, Option,
  none, some, true, false, is_some, List, [], ◌∷◌, ◌++◌, length, write, write_lem, write_self,
  write_ne, if◌then◌else◌,
}
use limit_order_book_v.Domain.Text.{Bytes, eq_bytes, eq_bytes_refl, eq_of_eq_bytes}
use limit_order_book_v.Domain.Float.{Float, to_ticks}
use limit_order_book_v.Domain.Order.{
  Result, ok, OrderSide, OrderType, TimeInForce, new, side_to_string, type_to_string, tif_to_string,
}
use limit_order_book_v.Domain.Order.Names.{
  to_order_side-side_to_string, to_order_type-type_to_string, to_time_in_force-tif_to_string,
}
use limit_order_book_v.Domain.Pods.{OrderPod, OrderRequest, nil_index}
use limit_order_book_v.Concurrency.LockFreeQueue.{
  queue_capacity, LockFreeQueue, Outcome, pushed, refused, spinning, push, fill,
}
use limit_order_book_v.Concurrency.LockFreeQueue.Refines.{Holds, init-Holds, push_room, fill-Holds}
use limit_order_book_v.Concurrency.SymbolWorker.{SymbolResources, make_resources, blank_order}
use limit_order_book_v.Routing.OrderRouter.{
  OrderRouter, Call, returned, find, register, check_registery, check_symbol_id, make_pod, enqueue,
  push_to, queued, route,
}
use limit_order_book_v.Routing.OrderRouter.Registry.{
  IsValid, check_registery-IsValid, check_symbol_id-check_registery,
}
use limit_order_book_v.Routing.OrderRouter.Routes.{check_registery-elsewhere}

-- The symbol's id, its resources and the orders in its queue.
pub record Serves (symbol : Bytes) (r : OrderRouter) (id : ℕ) (s : SymbolResources)
    (orders : List OrderPod) : Type 0 where
  pub found : check_symbol_id symbol r ≡ some id
  pub there : r.resources id ≡ some s
  pub taken : ℕ
  pub holds : Holds taken orders s.queue

-- The orders that wait for the worker of a symbol, oldest first: none before it is registered.
pub data Waits (symbol : Bytes) (r : OrderRouter) (orders : List OrderPod) : Type 0 where
  unregistered : check_symbol_id symbol r ≡ none → orders ≡ [] → Waits symbol r orders
  registered : (id : ℕ) (s : SymbolResources) → Serves symbol r id s orders → Waits symbol r orders

-- The order that a request asks for, with the clock at `now`.
pub record IsOrderOf (undefined : Float → ℕ) (now : ℕ) (request : OrderRequest Float)
    (order : OrderPod) : Type 0 where
  pub price : order.price ≡ to_ticks undefined request.price
  pub timestamp : order.timestamp ≡ now
  pub trader_id : order.trader_id ≡ request.trader_id
  pub quantity : order.quantity ≡ request.quantity
  pub side : side_to_string order.side ≡ request.side
  pub type : type_to_string order.type ≡ request.type
  pub tif : tif_to_string order.tif ≡ request.tif
  pub status : order.status ≡ new
  pub order_id : order.order_id ≡ nil_index

-- The names of a request are those of a side, a type and a time in force.
pub record IsNamed (request : OrderRequest Float) (side : OrderSide) (type : OrderType)
    (tif : TimeInForce) : Type 0 where
  pub side_name : side_to_string side ≡ request.side
  pub type_name : type_to_string type ≡ request.type
  pub tif_name : tif_to_string tif ≡ request.tif

abbrev pub order_for :
    (Float → ℕ) → ℕ → ℕ → OrderRequest Float → OrderSide → OrderType → TimeInForce → OrderPod
order_for undefined now id request side type tif = record {
  price = to_ticks undefined request.price;
  timestamp = now;
  order_id = nil_index;
  trader_id = request.trader_id;
  quantity = request.quantity;
  symbol = id;
  side = side;
  type = type;
  tif = tif;
  status = new;
  next = 0;
  prev = 0;
}

module _ (undefined : Float → ℕ) (now : ℕ) (request : OrderRequest Float) {side : OrderSide}
    {type : OrderType} {tif : TimeInForce} (named : IsNamed request side type tif) where
  pub make_pod-named :
      (id : ℕ)
      → make_pod undefined now id request ≡ ok (order_for undefined now id request side type tif)
  unfolding make_pod
  make_pod-named id =
      rw
        (
          ← named.side_name,
          ← named.type_name,
          ← named.tif_name,
          to_order_side-side_to_string side,
          to_order_type-type_to_string type,
          to_time_in_force-tif_to_string tif,
        )
        refl

  pub order_for-IsOrderOf :
      (id : ℕ) → IsOrderOf undefined now request (order_for undefined now id request side type tif)
  order_for-IsOrderOf id = record {
    price = refl;
    timestamp = refl;
    trader_id = refl;
    quantity = refl;
    side = named.side_name;
    type = named.type_name;
    tif = named.tif_name;
    status = refl;
    order_id = refl;
  }

eq_bytes-ne : (a b : Bytes) → b ≢ a → eq_bytes a b ≡ false
eq_bytes-ne a b ne = elim (Bool-cases (eq_bytes a b)) [
  | inl e ↦ absurd (ne (sym (eq_of_eq_bytes a b e)))
  | inr e ↦ e
]

-- In a valid registry two symbols have two ids.
pub id_ne :
    {r : OrderRouter}
    → IsValid r
    → {a b : Bytes} {i j : ℕ} → check_symbol_id a r ≡ some i
    → check_symbol_id b r ≡ some j
    → b ≢ a
    → j ≢ i
unfolding check_symbol_id
id_ne v {a} {b} {i} {j} f g ne = grind (arith, v.own a b i)

check_registery-new :
    (symbol : Bytes) (r : OrderRouter)
    → check_symbol_id symbol r ≡ none
    → (check_registery symbol r).1.resources (check_registery symbol r).0
      ≡ some (make_resources r.symbol_id)
unfolding check_registery register check_symbol_id
check_registery-new symbol r e = rw e (write_self r.resources r.symbol_id _)

pub check_registery-old :
    (symbol : Bytes) (r : OrderRouter) {id : ℕ}
    → check_symbol_id symbol r ≡ some id
    → check_registery symbol r ≡ (id, r)
unfolding check_registery register check_symbol_id
check_registery-old symbol r e = rw e refl

new-Holds : (id : ℕ) → Holds 0 [] (make_resources id).queue
unfolding make_resources
new-Holds id = init-Holds blank_order

-- What the registration makes of the queues.
module _ (symbol : Bytes) {r : OrderRouter} (v : IsValid r) (room : r.symbol_id + 1 < 2 ^ 32) where
  pub check_registery-found :
      check_symbol_id symbol (check_registery symbol r).1 ≡ some (check_registery symbol r).0
  check_registery-found =
      rw (check_symbol_id-check_registery symbol symbol r, eq_bytes_refl symbol) refl

  pub check_registery-Serves :
      {orders : List OrderPod}
      → Waits symbol r orders
      → (s : SymbolResources) × Serves symbol
          (check_registery symbol r).1
          (check_registery symbol r).0
          s
          orders
  check_registery-Serves (unregistered e f) = (
    make_resources r.symbol_id,
    record {
      found = check_registery-found;
      there = check_registery-new symbol r e;
      taken = 0;
      holds = rw f (new-Holds r.symbol_id);
    },
  )
  check_registery-Serves (registered id s w) = (s, rw (check_registery-old symbol r w.found) w)

  pub check_registery-others :
      (t : Bytes) {orders : List OrderPod}
      → t ≢ symbol
      → Waits t r orders
      → Waits t (check_registery symbol r).1 orders
  check_registery-others t ne (unregistered e f) =
      unregistered (rw (check_symbol_id-check_registery symbol t r, eq_bytes-ne symbol t ne) e) f
  check_registery-others t ne (registered id s w) =
      let found : check_symbol_id t (check_registery symbol r).1 ≡ some id =
        rw (check_symbol_id-check_registery symbol t r, eq_bytes-ne symbol t ne) w.found in
      let apart = id_ne (check_registery-IsValid symbol v room) check_registery-found found ne in
      registered id s (record {
        found = found;
        there = check_registery-elsewhere symbol r id apart ∙ w.there;
        taken = w.taken;
        holds = w.holds;
      })
