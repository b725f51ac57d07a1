-- ===== src/Concurrency/OrderQueue.antt =====
-- include/Concurrency/OrderQueue.h and src/Concurrency/OrderQueue.cpp: a queue behind a mutex, with a
-- condition variable on which consumers wait. Every function holds the mutex from its first access
-- to its last, but for the wait, so each is a function here, and `Pop` one that may begin to wait.
pub mod Waiting
use limit_order_book_v.Prelude.{
  ℕ, ◌+◌, ◌-◌, Bool, true, false, Option, none, some, List, [], ◌∷◌, ◌++◌, length, ◌≡◌,
}

pub record OrderQueue (A : Type 0) : Type 0 where
  pub my_queue : List A
  pub shutdown : Bool

abbrev pub empty : {A : Type 0} → OrderQueue A
empty = record { my_queue = []; shutdown = false }

-- What a consumer that holds the mutex gets at the head of the loop of `Pop`.
pub data Popped (A : Type 0) : Type 0 where
  waits : Popped A  -- it releases the mutex and waits
  ends : Popped A  -- `std::nullopt`
  takes : A → OrderQueue A → Popped A

module _ {A : Type 0} where
  unfoldable pub push : A → OrderQueue A → OrderQueue A
  push request q = record q { my_queue = q.my_queue ++ request ∷ [] }

  abbrev pub pop_from : List A → Bool → Popped A
  pop_from [] false = waits
  pop_from [] true = ends
  pop_from (request ∷ rest) shutdown =
      takes request (record { my_queue = rest; shutdown = shutdown })

  unfoldable pub pop : OrderQueue A → Popped A
  pop q = pop_from q.my_queue q.shutdown

  unfoldable pub shut_down : OrderQueue A → OrderQueue A
  shut_down q = record q { shutdown = true }

  unfoldable pub size : OrderQueue A → ℕ
  size q = length q.my_queue

-- The queue with the threads at the condition variable: those that wait, and those that have been
-- notified, or have woken by themselves, and have not tested the queue again.
pub record System (A : Type 0) : Type 0 where
  pub queue : OrderQueue A
  pub waiting : ℕ
  pub woken : ℕ

-- A consumer comes to the head of the loop; `waiting` and `woken` count the others.
abbrev pub arrive : {A : Type 0} → Popped A → OrderQueue A → ℕ → ℕ → System A
arrive waits q waiting woken = record { queue = q; waiting = waiting + 1; woken = woken }
arrive ends q waiting woken = record { queue = q; waiting = waiting; woken = woken }
arrive (takes x rest) q waiting woken = record { queue = rest; waiting = waiting; woken = woken }

-- `push_alone` is a push when nobody waits, `push_notify` one that `notify_one` follows.
pub data Step {A : Type 0} (s : System A) : System A → Type 0 where
  push_alone : (x : A) → s.waiting ≡ 0 → Step s (record s { queue = push x s.queue })
  push_notify :
      (x : A) (n : ℕ)
      → s.waiting ≡ n + 1
      → Step s (record { queue = push x s.queue; waiting = n; woken = s.woken + 1 })
  call_pop : Step s (arrive (pop s.queue) s.queue s.waiting s.woken)
  return_from_wait : (n : ℕ) → s.woken ≡ n + 1 → Step s (arrive (pop s.queue) s.queue s.waiting n)
  wake_by_itself :
      (n : ℕ) → s.waiting ≡ n + 1 → Step s (record s { waiting = n; woken = s.woken + 1 })
  shut : Step s (record { queue = shut_down s.queue; waiting = 0; woken = s.woken + s.waiting })

pub data Reach {A : Type 0} : System A → Type 0 where
  start : Reach (record { queue = empty; waiting = 0; woken = 0 })
  later : {s t : System A} → Reach s → Step s t → Reach t
