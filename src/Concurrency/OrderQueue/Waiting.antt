-- ===== src/Concurrency/OrderQueue/Waiting.antt =====
-- No consumer of the queue of src/Concurrency/OrderQueue.cpp waits in vain.
use limit_order_book_v.Prelude.{
  ℕ, ◌+◌, ◌≤◌, ◌<◌, ◌≡◌, Bool, true, false, List, [], ◌∷◌, length, length-append, arith, refl,
}
use limit_order_book_v.Concurrency.OrderQueue.{
  push, pop, shut_down, System, arrive, Step, push_alone, push_notify, call_pop, return_from_wait,
  wake_by_itself, shut, Reach, start, later,
}

module _ {A : Type 0} where
  -- While a consumer waits, the queue is not shut down and every item has a consumer that is awake.
  abbrev Served : System A → Type 0
  Served s = 0 < s.waiting → (s.queue.shutdown ≡ false) × (length s.queue.my_queue ≤ s.woken)

  arrive-Served :
      (xs : List A) (b : Bool) (waiting woken : ℕ)
      → (0 < waiting → (b ≡ false) × (length xs ≤ woken + 1))
      → Served (
          arrive
            (pop (record { my_queue = xs; shutdown = b }))
            (record { my_queue = xs; shutdown = b })
            waiting
            woken)
  unfolding pop
  arrive-Served [] false waiting woken h more = (refl, omega arith)
  arrive-Served [] true waiting woken h more = absurd (cc ((h more).0))
  arrive-Served (x ∷ xs) b waiting woken h more = ((h more).0, omega (arith, (h more).1))

  Step-Served : {s t : System A} → Step s t → Served s → Served t
  unfolding push shut_down
  Step-Served (push_alone x none) h more = absurd (omega arith)
  Step-Served {s} (push_notify x n some_wait) h more =
      let (unshut, few) = h (omega arith) in
      (unshut, omega (arith, length-append {0} s.queue.my_queue (x ∷ [])))
  Step-Served {s} call_pop h more =
      arrive-Served s.queue.my_queue s.queue.shutdown s.waiting s.woken
        (λ some_wait. ((h some_wait).0, omega (arith, (h some_wait).1))) more
  Step-Served {s} (return_from_wait n awake) h more =
      arrive-Served s.queue.my_queue s.queue.shutdown s.waiting n
        (λ some_wait. ((h some_wait).0, omega (arith, (h some_wait).1))) more
  Step-Served (wake_by_itself n some_wait) h more =
      let (unshut, few) = h (omega arith) in (unshut, omega arith)
  Step-Served shut h more = absurd (omega arith)

  served : {s : System A} → Reach s → Served s
  served start more = absurd (omega arith)
  served (later reach step) more = Step-Served step (served reach) more

  -- However consumers, producers and a shutdown interleave, and whichever threads wake by themselves, no
  -- notification is lost: while a consumer waits in `Pop`, the queue is not shut down, and there are
  -- at most as many items in it as consumers that are awake and have not tested the queue again.
  pub nobody_waits_in_vain :
      {s : System A}
      → Reach s
      → 0 < s.waiting
      → (s.queue.shutdown ≡ false) × (length s.queue.my_queue ≤ s.woken)
  nobody_waits_in_vain reach some_wait = served reach some_wait
