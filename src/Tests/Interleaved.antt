-- ===== src/Tests/Interleaved.antt =====
-- Examples for the queue of include/Concurrency/LockFreeQueue.h with its threads interleaved.
use limit_order_book_v.Prelude.{
  ℕ, ◌≤◌, ◌≡◌, ◌≢◌, ◌⊎◌, refl, arith, List, [], ◌∷◌, ◌++◌, length, some, write,
}
use limit_order_book_v.Concurrency.LockFreeQueue
use limit_order_book_v.Concurrency.LockFreeQueue.{queue_capacity, LockFreeQueue}
use limit_order_book_v.Concurrency.LockFreeQueue.Threads.{
  ix, Pc, idle, starting, loaded, free, claimed, written, Taker, at, ready, took, call, load_tail,
  found_free, win, store, publish, claim, load_head, found_some, read, taken, System, produce,
  consume, first_state, Reach, start, later,
}
use limit_order_book_v.Concurrency.LockFreeQueue.Threads.Invariant.{position}
use limit_order_book_v.Concurrency.LockFreeQueue.Threads.Safety.{
  Reach-prefix, held_apart, unpublished_why,
}

-- The state after a step of producer `i`, and of the consumer.
abbrev pub by_producer : System ℕ → ℕ → LockFreeQueue ℕ → Pc ℕ → System ℕ
by_producer s i m p = record s {
  mem = m;
  pc = write s.pc i p;
  pushed = s.pushed ++ claim (s.pc i) p;
}

abbrev by_consumer : System ℕ → LockFreeQueue ℕ → Taker ℕ → System ℕ
by_consumer s m t = record s { mem = m; taker = t; popped = s.popped ++ taken s.taker t }

-- Producer 0 holds position 0 with the item 5, and producer 1 position 1 with the item 6.
abbrev first_called : System ℕ
first_called = by_producer (first_state 0) 0 (first_state 0).mem (starting 5)

abbrev first_loaded : System ℕ
first_loaded = by_producer first_called 0 first_called.mem (loaded 5 0)

abbrev first_free : System ℕ
first_free = by_producer first_loaded 0 first_loaded.mem (free 5 0)

abbrev first_claimed : System ℕ
first_claimed = by_producer first_free 0 (record first_free.mem { tail = 1 }) (claimed 5 0)

abbrev second_called : System ℕ
second_called = by_producer first_claimed 1 first_claimed.mem (starting 6)

abbrev second_loaded : System ℕ
second_loaded = by_producer second_called 1 second_called.mem (loaded 6 1)

abbrev second_free : System ℕ
second_free = by_producer second_loaded 1 second_loaded.mem (free 6 1)

abbrev both_claimed : System ℕ
both_claimed = by_producer second_free 1 (record second_free.mem { tail = 2 }) (claimed 6 1)

both_claimed-Reach : Reach 0 both_claimed
unfolding LockFreeQueue.init write
both_claimed-Reach =
    let loads : Reach 0 first_loaded = later (later start (produce 0 call)) (produce 0 load_tail) in
    let claims : Reach 0 first_claimed =
      later (later loads (produce 0 (found_free {v = 0} refl))) (produce 0 (win refl)) in
    let loads_too : Reach 0 second_loaded =
      later (later claims (produce 1 call)) (produce 1 load_tail) in
    later (later loads_too (produce 1 (found_free {v = 1} refl))) (produce 1 (win refl))

held_apart_example : (ix 0 ≢ ix 1) × ((h : ℕ) → both_claimed.taker ≡ ready h → ix h ≢ ix 0)
unfolding write
held_apart_example = held_apart 0 1 0 1 both_claimed-Reach (omega arith) (omega arith) refl refl

-- The second producer is ready before the first, and the consumer finds nothing.
abbrev second_stored : System ℕ
second_stored =
    by_producer both_claimed 1
      (record both_claimed.mem { queue = write both_claimed.mem.queue 1 6 }) (written 6 1)

abbrev second_done : System ℕ
second_done =
    by_producer second_stored 1
      (record second_stored.mem { check = write second_stored.mem.check 1 2 }) idle

abbrev looking : System ℕ
looking = by_consumer second_done second_done.mem (at 0)

looking-Reach : Reach 0 looking
unfolding LockFreeQueue.init write
looking-Reach =
    let done = later (later both_claimed-Reach (produce 1 store)) (produce 1 publish) in
    later done (consume load_head)

unpublished_why_example :
    (looking.pushed ≡ looking.popped) ⊎ ((i : ℕ) × (position (looking.pc i) ≡ some 0))
unfolding LockFreeQueue.init write
unpublished_why_example = unpublished_why 0 looking-Reach (omega arith) refl (λ e. omega (arith, e))

-- The first producer publishes too, and the consumer reads its item.
abbrev first_stored : System ℕ
first_stored =
    by_producer looking 0 (record looking.mem { queue = write looking.mem.queue 0 5 }) (written 5 0)

abbrev first_done : System ℕ
first_done =
    by_producer first_stored 0
      (record first_stored.mem { check = write first_stored.mem.check 0 1 }) idle

abbrev found : System ℕ
found = by_consumer first_done first_done.mem (ready 0)

abbrev first_read : System ℕ
first_read = by_consumer found found.mem (took 0 5)

first_read-Reach : Reach 0 first_read
unfolding LockFreeQueue.init write
first_read-Reach =
    let done = later (later looking-Reach (produce 0 store)) (produce 0 publish) in
    later (later done (consume (found_some refl))) (consume read)

Reach-prefix_example :
    (rest : List ℕ) × (5 ∷ 6 ∷ [] ≡ 5 ∷ [] ++ rest) × (length rest ≤ queue_capacity)
unfolding write
Reach-prefix_example = Reach-prefix first_read-Reach (omega arith)
