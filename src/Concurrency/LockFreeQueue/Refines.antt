-- ===== src/Concurrency/LockFreeQueue/Refines.antt =====
-- The queue of a symbol implements a bounded first-in first-out queue.
use limit_order_book_v.Prelude.{
  ℕ, ◌+◌, ◌%◌, ◌^◌, ◌≤◌, ◌<◌, ◌≡◌, ◌≢◌, true, false, refl, arith, Option, none, some, List, [], ◌∷◌,
  ◌++◌, ltb, ◌==◌, if◌then◌else◌, write, length, get_or, length-append, get_or-append_lt,
}
use limit_order_book_v.Concurrency.LockFreeQueue.{
  queue_capacity, LockFreeQueue, Outcome, pushed, refused, spinning, init, index_of, fill, push,
  pop,
}

-- Positions less than a capacity apart have different slots.
slot_ne :
    (taken i n : ℕ)
    → i < queue_capacity
    → n < queue_capacity
    → i ≢ n
    → (taken + i) % queue_capacity ≢ (taken + n) % queue_capacity
slot_ne taken i n h k ne = omega arith

slot_eq : (x y : ℕ) → x ≡ y % 2 ^ 32 → x % queue_capacity ≡ y % queue_capacity
slot_eq x y e = omega arith

get_or-last {ℓ} : {A : Type ℓ} (xs : List A) (x d : A) → get_or (xs ++ x ∷ []) (length xs) d ≡ x
get_or-last [] x d = refl
get_or-last (y ∷ xs) x d = get_or-last xs x d

module _ {A : Type 0} where
  -- `q` holds `xs`, oldest first, after `taken` items have been popped. The counters wrap at 2 ^ 32;
  -- the mark of a filled position is one past the position, that of a vacant one the position for
  -- which it will be used next.
  pub record Holds (taken : ℕ) (xs : List A) (q : LockFreeQueue A) : Type 0 where
    pub head : q.head ≡ taken % 2 ^ 32
    pub tail : q.tail ≡ (taken + length xs) % 2 ^ 32
    pub bounded : length xs ≤ queue_capacity
    pub filled :
        (i : ℕ) → i < length xs → q.check ((taken + i) % queue_capacity) ≡ (taken + i + 1) % 2 ^ 32
    pub items :
        (i : ℕ) (d : A) → i < length xs → q.queue ((taken + i) % queue_capacity) ≡ get_or xs i d
    pub vacant :
        (i : ℕ)
        → length xs ≤ i
        → i < queue_capacity
        → q.check ((taken + i) % queue_capacity) ≡ (taken + i) % 2 ^ 32

  pub init-Holds : (blank : A) → Holds 0 [] (init queue_capacity blank)
  unfolding init
  init-Holds blank = record {
    head = refl;
    tail = refl;
    bounded = omega arith;
    filled = λ i h. absurd (omega arith);
    items = λ i d h. absurd (omega arith);
    vacant = λ i h k. omega arith;
  }

  -- `Push` puts an item behind the others.
  pub fill-Holds :
      (item : A) {taken : ℕ} {xs : List A} {q : LockFreeQueue A}
      → Holds taken xs q
      → length xs < queue_capacity
      → Holds taken (xs ++ item ∷ []) (fill queue_capacity item q)
  unfolding fill write
  fill-Holds item {taken} {xs} {q} h k = record {
    head = ground (arith, h.head);
    tail = ground (arith, h.tail, length-append xs (item ∷ []));
    bounded = ground (arith, length-append xs (item ∷ []));
    filled = λ i l. ground (
      arith,
      slot_eq q.tail _ h.tail,
      slot_ne taken i (length xs),
      h.filled i,
      length-append xs (item ∷ []),
    );
    items = λ i d l. ground (
      arith,
      slot_eq q.tail _ h.tail,
      slot_ne taken i (length xs),
      h.items i d,
      length-append xs (item ∷ []),
      get_or-last xs item d,
      get_or-append_lt xs (item ∷ []) i d,
    );
    vacant = λ i l m. ground (
      arith,
      slot_eq q.tail _ h.tail,
      slot_ne taken i (length xs),
      h.vacant i,
      length-append xs (item ∷ []),
    );
  }

-- The outcome is a queue that holds `ys`.
abbrev pub Gives : {A : Type 0} → ℕ → List A → Outcome A → Type 0
Gives taken ys (pushed q') = Holds taken ys q'
Gives taken ys refused = ⊥
Gives taken ys spinning = ⊥

-- What a pop of `xs` returns and leaves.
abbrev pub Takes : {A : Type 0} → ℕ → List A → Option A × LockFreeQueue A → Type 0
Takes taken [] (item, q') = (item ≡ none) × Holds taken [] q'
Takes taken (x ∷ xs) (item, q') = (item ≡ some x) × Holds (taken + 1) xs q'

shift : (taken i : ℕ) → (taken + 1 + i) % queue_capacity ≡ (taken + (i + 1)) % queue_capacity
shift taken i = omega arith

module _ {A : Type 0} {taken : ℕ} {xs : List A} {q : LockFreeQueue A} (h : Holds taken xs q) where
  pub push_room :
      (item : A)
      → length xs < queue_capacity
      → push queue_capacity item q ≡ pushed (fill queue_capacity item q)
  unfolding push
  push_room item k =
      let e : (q.check (index_of queue_capacity q.tail) == q.tail) ≡ true =
        ground (arith, slot_eq q.tail _ h.tail, h.vacant (length xs), h.tail) in
      rw e refl

  -- While fewer than `queue_capacity` items wait, `Push` succeeds, for every value of the counters,
  -- and puts the item behind the others.
  pub push-Gives :
      (item : A)
      → length xs < queue_capacity
      → Gives taken (xs ++ item ∷ []) (push queue_capacity item q)
  push-Gives item k = rw (push_room item k) (fill-Holds item h k)

  -- On a full queue `Push` compares the mark of the oldest item with the tail counter: it refuses the
  -- item when the mark is less, and otherwise its loop goes round.
  pub push_full :
      (item : A)
      → length xs ≡ queue_capacity
      → push queue_capacity item q ≡ (
          if ltb ((taken + 1) % 2 ^ 32) ((taken + queue_capacity) % 2 ^ 32)
          then refused
          else spinning)
  unfolding push
  push_full item k =
      let key : q.check (index_of queue_capacity q.tail) ≡ (taken + 0 + 1) % 2 ^ 32 =
        ground (arith, slot_eq q.tail _ h.tail, h.filled 0) in
      ground (arith, h.tail, key)

module _ {A : Type 0} {taken : ℕ} where
  pop_empty : {q : LockFreeQueue A} → Holds taken [] q → pop queue_capacity q ≡ (none, q)
  unfolding pop
  pop_empty {q} h =
      let e : (q.check (index_of queue_capacity q.head) == (q.head + 1) % 2 ^ 32) ≡ false =
        ground (arith, slot_eq q.head _ h.head, h.vacant 0, h.head) in
      rw e refl

  pop_some :
      {x : A} {xs : List A} {q : LockFreeQueue A}
      → Holds taken (x ∷ xs) q
      → Takes taken (x ∷ xs) (pop queue_capacity q)
  unfolding pop write
  pop_some {x} {xs} {q} h =
      let e : (q.check (index_of queue_capacity q.head) == (q.head + 1) % 2 ^ 32) ≡ true =
        ground (arith, slot_eq q.head _ h.head, h.filled 0, h.head) in
      rw e (
        ground (arith, slot_eq q.head _ h.head, h.items 0 x),
        record {
          head = ground (arith, h.head);
          tail = ground (arith, h.tail);
          bounded = omega (arith, h.bounded);
          filled = λ i l. ground (
            arith,
            slot_eq q.head _ h.head,
            slot_ne taken (i + 1) 0,
            h.filled (i + 1),
            h.bounded,
            shift taken i,
          );
          items = λ i d l. ground (arith, h.items (i + 1) d, shift taken i);
          vacant = λ i l m. ground (
            arith,
            slot_eq q.head _ h.head,
            slot_ne taken (i + 1) 0,
            h.vacant (i + 1),
            h.head,
            shift taken i,
          );
        },
      )

  -- `Pop` takes the oldest of the items that a queue holds and leaves the others, and returns nothing
  -- from a queue that holds none.
  pub pop-Takes :
      {xs : List A} {q : LockFreeQueue A} → Holds taken xs q → Takes taken xs (pop queue_capacity q)
  pop-Takes {xs = []} h = rw (pop_empty h) (refl, h)
  pop-Takes {xs = x ∷ xs} h = pop_some h
