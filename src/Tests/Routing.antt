-- ===== src/Tests/Routing.antt =====
-- Examples for src/Routing and include/Routing.
use limit_order_book_v.Prelude.{ℕ, ◌<◌, ◌+◌, ◌^◌, ◌≡◌, refl, arith, none, some, [], ◌∷◌}
use limit_order_book_v.Domain.Text.{bytes, eq_bytes}
use limit_order_book_v.Domain.Float.{Float, positive}
use limit_order_book_v.Domain.Order.{buy, limit, gtc, side_to_string, type_to_string, tif_to_string}
use limit_order_book_v.Domain.Pods.{OrderRequest}
use limit_order_book_v.Concurrency.SymbolWorker.{make_resources}
use limit_order_book_v.Routing.OrderRouter
use limit_order_book_v.Routing.OrderRouter.{
  OrderRouter, Call, returned, find, check_registery, check_symbol_id, make_pod, route, register,
}
use limit_order_book_v.Routing.OrderRouter.Registry.{IsValid, init-IsValid, check_registery-IsValid}
use limit_order_book_v.Routing.OrderRouter.Routes.{router_of, route-elsewhere}
use limit_order_book_v.Routing.OrderRouter.Queueing.{
  Waits, unregistered, registered, IsNamed, check_registery-Serves,
}
use limit_order_book_v.Routing.OrderRouter.Queueing.Sending.{Queued, route-Queued}

check_registery-IsValid_example : IsValid (check_registery (bytes "AAPL") OrderRouter.init).1
unfolding OrderRouter.init
check_registery-IsValid_example = check_registery-IsValid (bytes "AAPL") init-IsValid (omega arith)

abbrev undefined : Float → ℕ
undefined p = 0

abbrev request : OrderRequest Float
request = record {
  price = positive 0;
  quantity = 2;
  type = bytes "LIMIT";
  symbol = bytes "AB";
  tif = bytes "GTC";
  trader_id = 7;
  side = bytes "BUY";
}

-- The symbols "AB" and "CD" with the ids 0 and 1.
abbrev two_symbols : OrderRouter
two_symbols = record {
  symbol_hash = (bytes "CD", 1) ∷ (bytes "AB", 0) ∷ [];
  resources = λ i. some (make_resources i);
  worker = λ i. none;
  symbol_id = 2;
}

route-elsewhere_example :
    (router_of (route undefined 5 request two_symbols)).resources 1 ≡ some (make_resources 1)
unfolding check_registery register find eq_bytes
route-elsewhere_example = route-elsewhere undefined 5 request two_symbols 1 (omega arith)

-- The symbol "AB" has been registered, and no order waits for it.
abbrev one_symbol : OrderRouter
one_symbol = (check_registery (bytes "AB") OrderRouter.init).1

one_symbol-IsValid : IsValid one_symbol
unfolding OrderRouter.init
one_symbol-IsValid = check_registery-IsValid (bytes "AB") init-IsValid (omega arith)

one_symbol_room : one_symbol.symbol_id + 1 < 2 ^ 32
unfolding check_registery register OrderRouter.init find
one_symbol_room = omega arith

one_symbol-Waits : Waits (bytes "AB") one_symbol []
unfolding OrderRouter.init check_symbol_id find
one_symbol-Waits =
    let (s, w) =
      check_registery-Serves (bytes "AB") init-IsValid (omega arith) (unregistered refl refl) in
    registered _ s w

request-IsNamed : IsNamed request buy limit gtc
unfolding side_to_string type_to_string tif_to_string
request-IsNamed = record { side_name = refl; type_name = refl; tif_name = refl }

route-Queued_example :
    (r' : OrderRouter) × ((route undefined 5 request one_symbol ≡ returned r')
      × Queued undefined 5 request [] one_symbol r')
route-Queued_example =
    route-Queued undefined 5 request request-IsNamed one_symbol-IsValid one_symbol_room
      one_symbol-Waits (omega arith)
