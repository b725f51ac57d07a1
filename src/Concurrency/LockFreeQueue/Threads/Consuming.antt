-- ===== src/Concurrency/LockFreeQueue/Threads/Consuming.antt =====
-- A step of the consumer keeps the invariant.
use limit_order_book_v.Prelude.{
  ℕ, ◌+◌, ◌%◌, ◌^◌, ◌<◌, ◌≡◌, ◌∙◌, some, List, [], ◌∷◌, ◌++◌, length, append-nil, append_assoc,
  arith, refl, sym, ap, get_elem?,
}
use limit_order_book_v.Concurrency.LockFreeQueue.{queue_capacity, LockFreeQueue}
use limit_order_book_v.Concurrency.LockFreeQueue.Threads.{
  ix, Taker, waiting, at, ready, took, released, Take, load_head, found_none, found_some, read,
  release, advance, taken, System,
}
use limit_order_book_v.Concurrency.LockFreeQueue.Threads.Invariant.{Taking, Inv}
use limit_order_book_v.Concurrency.LockFreeQueue.Threads.Producing.{length_more}
use limit_order_book_v.Concurrency.LockFreeQueue.Threads.Releasing.{
  given, Filled-head, Ring-given, Holds-given, Holds-head, check_given,
}

module _ {A : Type 0} where
  abbrev taking_on : System A → LockFreeQueue A → Taker A → List A → System A
  taking_on s m t popped = record s { mem = m; taker = t; popped = popped }

  -- A step that changes nothing that the producers read.
  quiet-Inv :
      (s : System A) (inv : Inv s) (t : Taker A)
      → Taking s.mem s.popped inv.r t
      → Inv (taking_on s s.mem t (s.popped ++ []))
  quiet-Inv s inv t taking = rw (append-nil s.popped) (record {
    r = inv.r;
    ring = inv.ring;
    held = inv.held;
    unique = inv.unique;
    holder = inv.holder;
    taking = taking;
    rest = inv.rest;
    fifo = inv.fifo;
  })

  -- The item after those that are read.
  next_item :
      (popped rest : List A) {x : A}
      → get_elem? (popped ++ rest) (length popped) ≡ some x
      → (tail : List A) × (rest ≡ x ∷ tail)
  next_item [] [] e = cc
  next_item [] (y ∷ rest) e = (rest, cc)
  next_item (y ∷ popped) rest e = next_item popped rest e

  read-Inv :
      (s : System A) (inv : Inv s) (v : ℕ)
      → Taking s.mem s.popped inv.r (ready v)
      → Inv (taking_on s s.mem (took v (s.mem.queue (ix v))) (s.popped ++ s.mem.queue (ix v) ∷ []))
  read-Inv s inv v (a, (b, (same, e))) =
      let x = s.mem.queue (ix v) in
      let filled = Filled-head s.mem s.pushed inv.r inv.ring (rw same at e) in
      let here : get_elem? (s.popped ++ inv.rest) (length s.popped) ≡ some x =
        cc (filled.1, inv.fifo, b, ap (λ t. s.mem.queue (ix t)) same) in
      let next = next_item s.popped inv.rest here in
      record {
        r = inv.r;
        ring = inv.ring;
        held = inv.held;
        unique = inv.unique;
        holder = inv.holder;
        taking = (a, (omega (arith, length_more s.popped x), (same, e)));
        rest = next.0;
        fifo =
            inv.fifo ∙ ap (λ l. s.popped ++ l) next.1 ∙ sym (append_assoc s.popped (x ∷ []) next.0);
      }

  release-Inv :
      (s : System A) (inv : Inv s) (v : ℕ) (x : A)
      → Taking s.mem s.popped inv.r (took v x)
      → length s.pushed + queue_capacity < 2 ^ 32
      → Inv (taking_on s (given s.mem v) (released v x) (s.popped ++ []))
  release-Inv s inv v x (a, (b, (same, e))) few =
      let ring = inv.ring in
      rw (append-nil s.popped, same)
        (record {
          r = inv.r + 1;
          ring = Ring-given s.mem s.pushed inv.r ring (rw same at e) (omega (arith, ring.behind));
          held = λ i. Holds-given s.mem s.pushed inv.r (s.pc i) ring (rw same at e) (inv.held i);
          unique = inv.unique;
          holder = λ k lo hi c.
              let same' = check_given s.mem inv.r k (omega arith) (omega (arith, ring.room)) in
              inv.holder k (omega arith) hi (sym same' ∙ c);
          taking = (a, (b, refl));
          rest = inv.rest;
          fifo = inv.fifo;
        })

  advance-Inv :
      (s : System A) (inv : Inv s) (v : ℕ) (x : A)
      → Taking s.mem s.popped inv.r (released v x)
      → length s.pushed + queue_capacity < 2 ^ 32
      → Inv (taking_on s (record s.mem { head = (v + 1) % 2 ^ 32 }) waiting (s.popped ++ []))
  advance-Inv s inv v x (a, (b, next)) few = rw (append-nil s.popped) (record {
    r = inv.r;
    ring = record {
      tail = inv.ring.tail;
      room = inv.ring.room;
      behind = inv.ring.behind;
      slots = inv.ring.slots;
      spare = inv.ring.spare;
    };
    held = λ i. Holds-head s.mem s.pushed inv.r ((v + 1) % 2 ^ 32) (s.pc i) (inv.held i);
    unique = inv.unique;
    holder = inv.holder;
    taking = (omega (arith, inv.ring.behind), b);
    rest = inv.rest;
    fifo = inv.fifo;
  })

  -- A consumer at `t` makes a step.
  pub Take-Inv :
      (s : System A) (inv : Inv s) {t t' : Taker A} {m : LockFreeQueue A}
      → Take s.mem t m t'
      → Taking s.mem s.popped inv.r t
      → length s.pushed + queue_capacity < 2 ^ 32
      → Inv (taking_on s m t' (s.popped ++ taken t t'))
  Take-Inv s inv load_head (a, b) few = quiet-Inv s inv (at s.mem.head) (a, (b, a))
  Take-Inv s inv (found_none {v} e) (a, (b, c)) few = quiet-Inv s inv waiting (a, b)
  Take-Inv s inv (found_some {v} e) (a, (b, c)) few =
      quiet-Inv s inv (ready v) (a, (b, (c, e ∙ omega (arith, inv.ring.behind))))
  Take-Inv s inv (read {v}) h few = read-Inv s inv v h
  Take-Inv s inv (release {x} {v}) h few = release-Inv s inv v x h few
  Take-Inv s inv (advance {x} {v}) h few = advance-Inv s inv v x h few
