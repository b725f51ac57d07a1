-- ===== src/Tests/Simulator.antt =====
-- An example for src/Concurrency/ClientSimulator.cpp.
use limit_order_book_v.Prelude.{ℕ, [], ◌∷◌}
use limit_order_book_v.Domain.Text.{bytes}
use limit_order_book_v.Domain.Float.{Float, of_ticks}
use limit_order_book_v.Concurrency.ClientSimulator.{Draw, made, run}
use limit_order_book_v.Concurrency.ClientSimulator.Running.{run-Accepted}
use limit_order_book_v.Routing.OrderRouter.Accepts.{Accepted}
use limit_order_book_v.Routing.OrderRouter
use limit_order_book_v.Routing.OrderRouter.Registry.{init-IsValid}

abbrev undefined : Float → ℕ
undefined p = 0

abbrev clock : ℕ → ℕ
clock round = round

abbrev bid : Draw
bid = record { price = of_ticks 9950; quantity = 20; side = 0 }

abbrev ask : Draw
ask = record { price = of_ticks 10025; quantity = 7; side = 1 }

run-Accepted_example :
    Accepted (bytes "AAPL") (run undefined clock 0 (made 3) (bid ∷ ask ∷ []) OrderRouter.init)
run-Accepted_example =
    run-Accepted undefined clock (made 3) 0 bid (ask ∷ []) OrderRouter.init init-IsValid
