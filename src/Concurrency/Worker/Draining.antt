-- ===== src/Concurrency/Worker/Draining.antt =====
-- `Worker::run` of src/Concurrency/Worker.cpp after the queue has been shut down.
use limit_order_book_v.Prelude.{
  ℕ, zero, suc, ◌+◌, ◌<◌, ◌≡◌, true, List, [], ◌∷◌, ◌++◌, append-nil, append_assoc, length-append,
  ◌∙◌, ap, length, refl, arith,
}
use limit_order_book_v.Domain.Float.{Float}
use limit_order_book_v.Domain.Pods.{OrderRequest}
use limit_order_book_v.Concurrency.OrderQueue.{OrderQueue, push, pop, shut_down}
use limit_order_book_v.Concurrency.Worker.{Run, finished, create, after_call, after_pop, run}
use limit_order_book_v.Routing.OrderRouter.{OrderRouter, Call, returned, spun, thrown}

-- Requests are pushed one after the other.
abbrev pub push_each :
    List (OrderRequest Float) → OrderQueue (OrderRequest Float) → OrderQueue (OrderRequest Float)
unfolding push
push_each [] q = q
push_each (msg ∷ msgs) q = push_each msgs (push msg q)

after_call-same :
    (c : Call) (f g : OrderRouter → Run)
    → ((r : OrderRouter) → f r ≡ g r)
    → after_call c f ≡ after_call c g
after_call-same (returned r) f g same = same r
after_call-same (spun r) f g same = refl
after_call-same (thrown fault r) f g same = refl

my_queue-push_each :
    (msgs : List (OrderRequest Float)) (q : OrderQueue (OrderRequest Float))
    → shut_down (push_each msgs q) ≡ record { my_queue = q.my_queue ++ msgs; shutdown = true }
unfolding push shut_down
my_queue-push_each [] q = rw (append-nil q.my_queue) refl
my_queue-push_each (msg ∷ msgs) q =
    my_queue-push_each msgs (push msg q)
    ∙ ap (λ l. record { my_queue = l; shutdown = true }) (append_assoc q.my_queue (msg ∷ []) msgs)

module _ (undefined : Float → ℕ) (now : ℕ → ℕ) where
  -- The requests handed to the engine one after the other, until one does not return.
  abbrev pub hand_over : ℕ → List (OrderRequest Float) → OrderRouter → Run
  unfolding create
  hand_over round [] r = finished r
  hand_over round (msg ∷ msgs) r =
      after_call (create undefined now round msg r) (λ r'. hand_over (round + 1) msgs r')

  drain :
      (fuel round : ℕ) (msgs : List (OrderRequest Float)) (r : OrderRouter)
      → length msgs < fuel
      → run undefined now fuel round (record { my_queue = msgs; shutdown = true }) r
        ≡ hand_over round msgs r
  unfolding run pop hand_over after_pop
  drain zero round msgs r enough = absurd (omega arith)
  drain (suc fuel) round [] r enough = refl
  drain (suc fuel) round (msg ∷ msgs) r enough =
      after_call-same (create undefined now round msg r) _ _
        (λ r'. drain fuel (round + 1) msgs r' (omega arith))

  -- Requests are pushed, then the queue is shut down. The loop then ends by itself: with more rounds than
  -- there are requests it hands all of them to the engine, those that waited before and then the new
  -- ones in the order of their pushes, and stops, unless the engine throws or spins on one of them.
  pub run-shut_down :
      (fuel round : ℕ) (msgs : List (OrderRequest Float)) (q : OrderQueue (OrderRequest Float))
      (r : OrderRouter)
      → length q.my_queue + length msgs < fuel
      → run undefined now fuel round (shut_down (push_each msgs q)) r
        ≡ hand_over round (q.my_queue ++ msgs) r
  run-shut_down fuel round msgs q r enough =
      ap (λ p. run undefined now fuel round p r) (my_queue-push_each msgs q)
      ∙ drain fuel round (q.my_queue ++ msgs) r (omega (arith, length-append {0} q.my_queue msgs))
