-- ===== src/Tests/Queue.antt =====
-- Examples for src/Concurrency/OrderQueue.cpp and Worker.cpp.
use limit_order_book_v.Prelude.{ℕ, ◌+◌, ◌≤◌, ◌≡◌, false, [], ◌∷◌, length, refl, arith}
use limit_order_book_v.Domain.Text.{bytes}
use limit_order_book_v.Domain.Float.{Float, positive}
use limit_order_book_v.Domain.Pods.{OrderRequest}
use limit_order_book_v.Concurrency.OrderQueue.{
  empty, push, pop, shut_down, System, push_notify, call_pop, Reach, start, later,
}
use limit_order_book_v.Concurrency.OrderQueue.Waiting.{nobody_waits_in_vain}
use limit_order_book_v.Concurrency.Worker.{run}
use limit_order_book_v.Concurrency.Worker.Draining.{hand_over, push_each, run-shut_down}
use limit_order_book_v.Routing.OrderRouter

-- Two consumers wait, and one item is pushed.
abbrev two_wait : System ℕ
two_wait = record { queue = empty; waiting = 2; woken = 0 }

abbrev one_woken : System ℕ
unfolding push
one_woken = record { queue = push 7 empty; waiting = 1; woken = 1 }

one_woken-Reach : Reach one_woken
unfolding pop push
one_woken-Reach =
    let both : Reach two_wait = later (later start call_pop) call_pop in
    later both (push_notify 7 1 refl)

nobody_waits_in_vain_example : (false ≡ false) × (length {A = ℕ} (7 ∷ []) ≤ 1)
unfolding push
nobody_waits_in_vain_example = nobody_waits_in_vain one_woken-Reach (omega arith)

abbrev undefined : Float → ℕ
undefined p = 0

abbrev clock : ℕ → ℕ
clock round = 100 + round

-- A request that the router refuses, since "HOLD" is no side.
abbrev bad : OrderRequest Float
bad = record {
  price = positive 0;
  quantity = 2;
  type = bytes "LIMIT";
  symbol = bytes "AB";
  tif = bytes "GTC";
  trader_id = 7;
  side = bytes "HOLD";
}

abbrev good : OrderRequest Float
good = record bad { side = bytes "BUY" }

run-shut_down_example :
    run undefined clock 3 0 (shut_down (push_each (good ∷ bad ∷ []) empty)) OrderRouter.init
    ≡ hand_over undefined clock 0 (good ∷ bad ∷ []) OrderRouter.init
run-shut_down_example =
    run-shut_down undefined clock 3 0 (good ∷ bad ∷ []) empty OrderRouter.init (omega arith)
