-- ===== src/Routing/OrderRouter/Accepts.antt =====
-- Requests that `Route` of src/Routing/OrderRouter.cpp takes without an exception.
use limit_order_book_v.Prelude.{
  ℕ, ◌≡◌, ◌⊎◌, refl, Option-cases, inl, inr, true, Option, none, some, is_some, write_self,
}
use limit_order_book_v.Domain.Text.{Bytes, eq_bytes_refl}
use limit_order_book_v.Domain.Float.{Float, to_ticks}
use limit_order_book_v.Domain.Order.{
  Result, ok, OrderSide, OrderType, TimeInForce, new, to_order_side, to_order_type,
  to_time_in_force,
}
use limit_order_book_v.Domain.Pods.{OrderPod, OrderRequest, nil_index}
use limit_order_book_v.Concurrency.LockFreeQueue.{
  queue_capacity, Outcome, pushed, refused, spinning, push,
}
use limit_order_book_v.Concurrency.SymbolWorker.{SymbolResources}
use limit_order_book_v.Routing.OrderRouter.Registry.{IsValid}
use limit_order_book_v.Routing.OrderRouter.{
  OrderRouter, Call, returned, spun, thrown, find, register, check_registery, make_pod, route,
  enqueue, push_to, queued,
}

-- A symbol has an id, and the id has resources.
abbrev pub Known : Bytes → OrderRouter → Type 0
Known symbol r =
    (id : ℕ) × ((find symbol r.symbol_hash ≡ some id)
      × ((s : SymbolResources) × (r.resources id ≡ some s)))

-- A call that ends without an exception, and leaves a symbol known when it returns.
abbrev pub Accepted : Bytes → Call → Type 0
Accepted symbol (returned r) = Known symbol r
Accepted symbol (spun r) = Unit {0}
Accepted symbol (thrown fault r) = ⊥

module _ (symbol : Bytes) (r : OrderRouter) (id : ℕ) (s : SymbolResources)
    (found : find symbol r.symbol_hash ≡ some id) (there : r.resources id ≡ some s) where
  queued-Accepted : (o : Outcome OrderPod) → Accepted symbol (queued id s o r)
  queued-Accepted (pushed q) = (id, (found, (_, write_self r.resources id _)))
  queued-Accepted refused = (id, (found, (_, write_self r.resources id _)))
  queued-Accepted spinning = tt

  push_to-Accepted : (order : OrderPod) → Accepted symbol (push_to (r.resources id) id order r)
  push_to-Accepted order = rw there (queued-Accepted (push queue_capacity order s.queue))

-- Some resources.
some_of : {A : Type 0} (o : Option A) → is_some o ≡ true → (a : A) × (o ≡ some a)
some_of none e = cc
some_of (some a) e = (a, refl)

-- A symbol that the registry does not know yet, or that it knows.
abbrev pub Ready : Bytes → OrderRouter → Type 0
Ready symbol r = (find symbol r.symbol_hash ≡ none) ⊎ Known symbol r

pub IsValid-Ready : (symbol : Bytes) (r : OrderRouter) → IsValid r → Ready symbol r
IsValid-Ready symbol r v = elim (Option-cases (find symbol r.symbol_hash)) [
  | inl e ↦ inl e
  | inr (id, e) ↦ inr (id, (e, some_of (r.resources id) (v.resources symbol id e)))
]

enqueue-Accepted :
    (symbol : Bytes) (r : OrderRouter) (id : ℕ) (order : OrderPod) {made : Result OrderPod}
    → made ≡ ok order
    → find symbol r.symbol_hash ≡ some id
    → (s : SymbolResources) × (r.resources id ≡ some s)
    → Accepted symbol (enqueue id made r)
enqueue-Accepted symbol r id order e found (s, there) =
    rw e (push_to-Accepted symbol r id s found there order)

module _ (undefined : Float → ℕ) (now : ℕ) (request : OrderRequest Float)
    (made : (id : ℕ) → (order : OrderPod) × (make_pod undefined now id request ≡ ok order)) where
  pub route-Accepted :
      (r : OrderRouter)
      → Ready request.symbol r
      → Accepted request.symbol (route undefined now request r)
  unfolding route check_registery register find
  route-Accepted r (inl unknown) =
      let (order, e) = made r.symbol_id in
      rw unknown (
        enqueue-Accepted request.symbol (register none request.symbol r).1 r.symbol_id order e
          (rw (eq_bytes_refl request.symbol) refl) (_, write_self r.resources r.symbol_id _))
  route-Accepted r (inr (id, (found, there))) =
      let (order, e) = made id in
      rw found (enqueue-Accepted request.symbol r id order e found there)

-- A request whose names are known is made an order.
pub make_pod-known :
    (undefined : Float → ℕ) (now id : ℕ) (request : OrderRequest Float) {side : OrderSide}
    {type : OrderType} {tif : TimeInForce}
    → to_order_side request.side ≡ ok side
    → to_order_type request.type ≡ ok type
    → to_time_in_force request.tif ≡ ok tif
    → (order : OrderPod) × (make_pod undefined now id request ≡ ok order)
unfolding make_pod
make_pod-known undefined now id request {side} {type} {tif} a b c = (
  record {
    price = to_ticks undefined request.price;
    timestamp = now;
    order_id = nil_index;
    trader_id = request.trader_id;
    quantity = request.quantity;
    symbol = id;
    side = side;
    type = type;
    tif = tif;
    status = new;
    next = 0;
    prev = 0;
  },
  rw (a, b, c) refl,
)
