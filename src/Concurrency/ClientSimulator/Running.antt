-- ===== src/Concurrency/ClientSimulator/Running.antt =====
-- The orders of src/Concurrency/ClientSimulator.cpp are ones that the router accepts.
use limit_order_book_v.Prelude.{ℕ, ◌+◌, ◌≡◌, refl, Bool-cases, inl, inr, List, [], ◌∷◌, ◌==◌}
use limit_order_book_v.Domain.Text.{Bytes, bytes, eq_bytes}
use limit_order_book_v.Domain.Float.{Float}
use limit_order_book_v.Domain.Order.{ok, OrderSide, to_order_side, to_order_type, to_time_in_force}
use limit_order_book_v.Domain.Pods.{OrderRequest}
use limit_order_book_v.Concurrency.ClientSimulator.{Draw, ClientSimulator, side_of, send, run}
use limit_order_book_v.Engine.CoreEngine.{create_order}
use limit_order_book_v.Engine.CoreEngine.Saving.{and_then}
use limit_order_book_v.Routing.OrderRouter.Registry.{IsValid}
use limit_order_book_v.Routing.OrderRouter.{OrderRouter, Call, returned, spun, thrown}
use limit_order_book_v.Routing.OrderRouter.Accepts.{
  Known, Accepted, Ready, IsValid-Ready, route-Accepted, make_pod-known,
}

side_known : (n : ℕ) → (side : OrderSide) × (to_order_side (side_of n) ≡ ok side)
unfolding to_order_side eq_bytes
side_known n = elim (Bool-cases (n == 0)) [ inl e ↦ rw e (_, refl) | inr e ↦ rw e (_, refl) ]

module _ (undefined : Float → ℕ) (now : ℕ → ℕ) (c : ClientSimulator) where
  abbrev request : Draw → OrderRequest Float
  request draw = record {
    price = draw.price;
    quantity = draw.quantity;
    type = bytes "LIMIT";
    symbol = bytes "AAPL";
    tif = bytes "GTC";
    trader_id = c.client_id;
    side = side_of draw.side;
  }

  send-Accepted :
      (round : ℕ) (draw : Draw) (r : OrderRouter)
      → Ready (bytes "AAPL") r
      → Accepted (bytes "AAPL") (send undefined now round c draw r)
  unfolding send create_order to_order_type to_time_in_force eq_bytes
  send-Accepted round draw r ready =
      route-Accepted undefined (now round) (request draw)
        (λ id.
          make_pod-known undefined (now round) id (request draw) (side_known draw.side).1 refl refl)
        r ready

  and_then-Accepted :
      (symbol : Bytes) (call : Call) (next : OrderRouter → Call)
      → Accepted symbol call
      → ((r : OrderRouter) → Known symbol r → Accepted symbol (next r))
      → Accepted symbol (and_then call next)
  and_then-Accepted symbol (returned r) next a more = more r a
  and_then-Accepted symbol (spun r) next a more = a
  and_then-Accepted symbol (thrown fault r) next a more = a

  rounds :
      (round : ℕ) (draw : Draw) (draws : List Draw) (r : OrderRouter)
      → Ready (bytes "AAPL") r
      → Accepted (bytes "AAPL") (run undefined now round c (draw ∷ draws) r)
  unfolding run
  rounds round draw [] r ready =
      and_then-Accepted (bytes "AAPL") (send undefined now round c draw r) _
        (send-Accepted round draw r ready) (λ r' known. known)
  rounds round draw (next ∷ draws) r ready =
      and_then-Accepted (bytes "AAPL") (send undefined now round c draw r) _
        (send-Accepted round draw r ready)
        (λ r' known. rounds (round + 1) next draws r' (inr known))

  -- In a valid registry, whatever a simulated client draws in one round or more, no round throws: the loop
  -- ends with the symbol registered and its resources there, unless a push spins on a full queue.
  pub run-Accepted :
      (round : ℕ) (draw : Draw) (draws : List Draw) (r : OrderRouter)
      → IsValid r
      → Accepted (bytes "AAPL") (run undefined now round c (draw ∷ draws) r)
  run-Accepted round draw draws r v = rounds round draw draws r (IsValid-Ready (bytes "AAPL") r v)
