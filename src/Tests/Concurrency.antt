-- ===== src/Tests/Concurrency.antt =====
-- Examples for src/Concurrency and include/Concurrency.
use limit_order_book_v.Prelude.{
  sym, ℕ, zero, suc, ◌+◌, ◌-◌, ◌%◌, ◌^◌, ◌<◌, ◌≡◌, refl, arith, List, [], ◌∷◌, length, get_or,
}
use limit_order_book_v.Concurrency.LockFreeQueue
use limit_order_book_v.Concurrency.LockFreeQueue.{
  queue_capacity, LockFreeQueue, Outcome, spinning, push, pop, fill,
}
use limit_order_book_v.Concurrency.LockFreeQueue.Refines.{
  Holds, init-Holds, fill-Holds, Gives, Takes, push-Gives, push_full, pop-Takes,
}

abbrev no_items : LockFreeQueue ℕ
no_items = LockFreeQueue.init queue_capacity 0

push-Gives_example : Gives 0 (5 ∷ []) (push queue_capacity 5 no_items)
push-Gives_example = push-Gives (init-Holds 0) 5 (omega arith)

abbrev one_item : LockFreeQueue ℕ
one_item = fill queue_capacity 5 no_items

pop-Takes_example : Takes 0 (5 ∷ []) (pop queue_capacity one_item)
pop-Takes_example = pop-Takes (fill-Holds 5 (init-Holds 0) (omega arith))

copies : ℕ → List ℕ
copies zero = []
copies (suc n) = 9 ∷ copies n

length-copies : (n : ℕ) → length (copies n) ≡ n
unfolding copies
length-copies zero = refl
length-copies (suc n) = omega (arith, length-copies n)

get_or-copies : (n i d : ℕ) → i < n → get_or (copies n) i d ≡ 9
unfolding copies
get_or-copies zero i d h = absurd (omega arith)
get_or-copies (suc n) zero d h = refl
get_or-copies (suc n) (suc i) d h = get_or-copies n i d (omega arith)

-- The counters are about to wrap: so many items have been popped, and the queue is full again.
abbrev taken : ℕ
taken = 2 ^ 32 - queue_capacity

abbrev full : LockFreeQueue ℕ
full = record { queue = λ _. 9; check = λ i. (taken + i + 1) % 2 ^ 32; head = taken; tail = 0 }

full-Holds : Holds taken (copies queue_capacity) full
full-Holds =
    let l = length-copies queue_capacity in
    record {
      head = refl;
      tail = omega (arith, l);
      bounded = omega (arith, l);
      filled = λ i h. omega (arith, l);
      items = λ i d h. sym (get_or-copies queue_capacity i d (omega (arith, l)));
      vacant = λ i h k. absurd (omega (arith, l));
    }

push_full_example : push queue_capacity 5 full ≡ spinning
push_full_example = push_full full-Holds 5 (length-copies queue_capacity)
