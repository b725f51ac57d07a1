-- ===== src/Routing/OrderRouter/Routes.antt =====
-- What `Route` of src/Routing/OrderRouter.cpp leaves alone.
use limit_order_book_v.Prelude.{
  ℕ, ◌≡◌, ◌≢◌, refl, arith, Option-cases, inl, inr, Option, none, some, write, ◌∙◌,
}
use limit_order_book_v.Domain.Float.{Float}
use limit_order_book_v.Domain.Order.{Result, ok, throw}
use limit_order_book_v.Domain.Pods.{OrderPod, OrderRequest}
use limit_order_book_v.Domain.Text.{Bytes}
use limit_order_book_v.Concurrency.LockFreeQueue.{
  queue_capacity, Outcome, pushed, refused, spinning, push,
}
use limit_order_book_v.Concurrency.SymbolWorker.{SymbolResources}
use limit_order_book_v.Routing.OrderRouter.{
  OrderRouter, Call, returned, spun, thrown, find, register, check_registery, make_pod, queued,
  push_to, enqueue, route,
}

abbrev pub router_of : Call → OrderRouter
router_of (returned r) = r
router_of (spun r) = r
router_of (thrown fault r) = r

module _ (id i : ℕ) (ne : i ≢ id) where
  queued-elsewhere :
      (s : SymbolResources) (o : Outcome OrderPod) (r : OrderRouter)
      → (router_of (queued id s o r)).resources i ≡ r.resources i
  unfolding write
  queued-elsewhere s (pushed q) r = ground arith
  queued-elsewhere s refused r = ground arith
  queued-elsewhere s spinning r = refl

  push_to-elsewhere :
      (found : Option SymbolResources) (order : OrderPod) (r : OrderRouter)
      → (router_of (push_to found id order r)).resources i ≡ r.resources i
  push_to-elsewhere none order r = refl
  push_to-elsewhere (some s) order r = queued-elsewhere s (push queue_capacity order s.queue) r

  enqueue-elsewhere :
      (order : Result OrderPod) (r : OrderRouter)
      → (router_of (enqueue id order r)).resources i ≡ r.resources i
  enqueue-elsewhere (ok order) r = push_to-elsewhere (r.resources id) order r
  enqueue-elsewhere (throw fault) r = refl

pub check_registery-elsewhere :
    (symbol : Bytes) (r : OrderRouter) (i : ℕ)
    → i ≢ (check_registery symbol r).0
    → (check_registery symbol r).1.resources i ≡ r.resources i
unfolding check_registery register write
check_registery-elsewhere symbol r i ne = elim (Option-cases (find symbol r.symbol_hash)) [
  | inl e ↦ ground arith
  | inr (id, e) ↦ rw e refl
]

-- However `Route` ends, the resources of every id but that of the request's symbol are untouched.
pub route-elsewhere :
    (undefined : Float → ℕ) (now : ℕ) (request : OrderRequest Float) (r : OrderRouter) (i : ℕ)
    → i ≢ (check_registery request.symbol r).0
    → (router_of (route undefined now request r)).resources i ≡ r.resources i
unfolding route
route-elsewhere undefined now request r i ne =
    let (id, r') = check_registery request.symbol r in
    enqueue-elsewhere id i ne (make_pod undefined now id request) r'
    ∙ check_registery-elsewhere request.symbol r i ne
