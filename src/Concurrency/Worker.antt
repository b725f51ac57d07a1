-- ===== src/Concurrency/Worker.antt =====
-- include/Concurrency/Worker.h and src/Concurrency/Worker.cpp: a thread that hands the requests of an
-- `OrderQueue` to the engine. `run` is the loop while no other thread touches the queue.
pub mod Draining
use limit_order_book_v.Prelude.{
  ℕ, zero, suc, ◌+◌, ◌<◌, ◌≡◌, true, false, List, [], ◌∷◌, length, refl, arith,
}
use limit_order_book_v.Domain.Float.{Float}
use limit_order_book_v.Domain.Order.{Fault}
use limit_order_book_v.Domain.Pods.{OrderRequest}
use limit_order_book_v.Concurrency.OrderQueue
use limit_order_book_v.Concurrency.OrderQueue.{OrderQueue, Popped, waits, ends, takes, pop}
use limit_order_book_v.Routing.OrderRouter.{OrderRouter, Call, returned, spun, thrown}
use limit_order_book_v.Engine.CoreEngine.{create_order}

-- How `run` ends, or where it is when it has used up its fuel.
pub data Run : Type 0 where
  finished : OrderRouter → Run  -- `Pop` gave nothing
  blocked : OrderRouter → Run  -- `Pop` waits
  stuck : OrderRouter → Run  -- the push to a symbol's queue goes round
  failed : Fault → OrderRouter → Run  -- the exception that ends the thread
  running : OrderRouter → Run

abbrev pub after_call : Call → (OrderRouter → Run) → Run
after_call (returned r) next = next r
after_call (spun r) next = stuck r
after_call (thrown fault r) next = failed fault r

module _ (undefined : Float → ℕ) (now : ℕ → ℕ) where
  unfoldable pub create : ℕ → OrderRequest Float → OrderRouter → Call
  unfolding create_order
  create round msg =
      create_order undefined (now round) msg.price msg.quantity msg.type msg.symbol msg.tif
        msg.trader_id msg.side

  unfoldable pub after_pop :
      ℕ
      → OrderRouter
      → (OrderQueue (OrderRequest Float) → OrderRouter → Run)
      → Popped (OrderRequest Float)
      → Run
  unfolding create
  after_pop round r next waits = blocked r
  after_pop round r next ends = finished r
  after_pop round r next (takes msg rest) = after_call (create round msg r) (next rest)

  -- The rounds are numbered for the clock.
  unfoldable pub run : (fuel round : ℕ) → OrderQueue (OrderRequest Float) → OrderRouter → Run
  unfolding after_pop
  run zero round q r = running r
  run (suc fuel) round q r = after_pop round r (λ rest r'. run fuel (round + 1) rest r') (pop q)
