-- ===== src/Concurrency/LockFreeQueue/Threads/Safety.antt =====
-- What every interleaving of the threads of a queue keeps to.
use limit_order_book_v.Prelude.{
  ℕ, ◌+◌, ◌-◌, ◌%◌, ◌^◌, ◌≤◌, ◌<◌, ◌≡◌, ◌≢◌, ◌∙◌, ◌⊎◌, Bool-cases, ltb, append-nil, ◌∷◌, some, List,
  [], ◌++◌, length, length-append, arith, refl, ap, inl, inr,
}
use limit_order_book_v.Concurrency.LockFreeQueue
use limit_order_book_v.Concurrency.LockFreeQueue.{queue_capacity, LockFreeQueue}
use limit_order_book_v.Concurrency.LockFreeQueue.Threads.{
  ix, Pc, idle, starting, loaded, free, claimed, written, Taker, waiting, at, ready, took, released,
  claim, System, Step, produce, consume, first_state, Reach, start, later,
}
use limit_order_book_v.Concurrency.LockFreeQueue.Threads.Invariant.{
  Ring, Holds, position, Taking, Inv,
}
use limit_order_book_v.Concurrency.LockFreeQueue.Threads.Producing.{ix_ne}
use limit_order_book_v.Concurrency.LockFreeQueue.Threads.Moving.{Move-Inv, check_cases}
use limit_order_book_v.Concurrency.LockFreeQueue.Threads.Consuming.{Take-Inv}

module _ {A : Type 0} where
  first_state-Inv : (blank : A) → Inv (first_state blank)
  unfolding LockFreeQueue.init
  first_state-Inv blank = record {
    r = 0;
    ring = record {
      tail = refl;
      room = omega arith;
      behind = omega arith;
      slots = λ k lo hi. absurd (omega arith);
      spare = λ k lo hi. omega arith;
    };
    held = λ i. tt;
    unique = λ i j v a b. cc;
    holder = λ k lo hi e. absurd (omega arith);
    taking = (refl, refl);
    rest = [];
    fifo = refl;
  }

  Step-Inv :
      {s t : System A}
      → Step s t
      → length t.pushed + queue_capacity < 2 ^ 32
      → (length s.pushed + queue_capacity < 2 ^ 32 → Inv s)
      → Inv t
  Step-Inv {s} (produce i {m} {p} move) few before =
      let inv = before (omega (arith, length-append {0} s.pushed (claim (s.pc i) p))) in
      Move-Inv s inv i move refl (inv.held i) few
  Step-Inv {s} (consume take) few before =
      let inv = before few in Take-Inv s inv take inv.taking few

  pub Reach-Inv :
      {blank : A} {s : System A} → Reach blank s → length s.pushed + queue_capacity < 2 ^ 32 → Inv s
  Reach-Inv {blank} start few = first_state-Inv blank
  Reach-Inv (later reach step) few = Step-Inv step few (Reach-Inv reach)

  -- The items that the consumer has read and not yet released, none or one.
  abbrev pub in_hand : Taker A → ℕ
  in_hand (took v x) = 1
  in_hand _ = 0

  popped-in_hand :
      (m : LockFreeQueue A) (popped : List A) (r : ℕ) (t : Taker A)
      → Taking m popped r t
      → length popped ≡ r + in_hand t
  popped-in_hand m popped r waiting (a, b) = omega (arith, b)
  popped-in_hand m popped r (at v) (a, (b, c)) = omega (arith, b)
  popped-in_hand m popped r (ready v) (a, (b, c)) = omega (arith, b)
  popped-in_hand m popped r (took v x) (a, (b, c)) = b
  popped-in_hand m popped r (released v x) (a, (b, c)) = omega (arith, b)

  -- However the threads are interleaved, the items that the consumer reads are a prefix of the items in
  -- the order in which their exchanges of the tail succeeded, and at most `queue_capacity` items
  -- are claimed and not read, as long as fewer than `2 ^ 32 - queue_capacity` have been claimed.
  pub Reach-prefix :
      {blank : A} {s : System A}
      → Reach blank s
      → length s.pushed + queue_capacity < 2 ^ 32
      → (rest : List A) × (s.pushed ≡ s.popped ++ rest) × (length rest ≤ queue_capacity)
  Reach-prefix {blank} {s} reach few =
      let inv = Reach-Inv reach few in
      let hand = popped-in_hand s.mem s.popped inv.r s.taker inv.taking in
      (
        inv.rest,
        inv.fifo,
        omega (arith, ap length inv.fifo, length-append {0} s.popped inv.rest, inv.ring.room, hand),
      )

  length-zero : (xs : List A) → length xs ≡ 0 → xs ≡ []
  length-zero [] e = refl
  length-zero (x ∷ xs) e = absurd (omega arith)

  full_at :
      (m : LockFreeQueue A) (pushed : List A) (r v : ℕ)
      → Ring m pushed r
      → v ≤ length pushed
      → m.check (ix v) < v
      → length pushed ≡ r + queue_capacity
  full_at m pushed r v g h e =
      let k = r + (ix v + queue_capacity - ix r) % queue_capacity in
      let same : ix k ≡ ix v = omega arith in
      elim (check_cases m pushed r k g (omega arith) (omega arith)) [
        | inl c ↦ omega (arith, ap m.check same, g.room)
        | inr c ↦ omega (arith, ap m.check same, g.room)
      ]

  -- A producer that finds a position older than its value, for which `Push` returns false, does so only
  -- when the ring is full: the items that are claimed and not yet released number exactly
  -- `queue_capacity`, however old the value is, as long as fewer than `2 ^ 32 - queue_capacity`
  -- have been claimed.
  pub refused_full :
      {blank : A} {s : System A} (i v : ℕ) (x : A)
      → Reach blank s
      → length s.pushed + queue_capacity < 2 ^ 32
      → s.pc i ≡ loaded x v
      → s.mem.check (ix v) < v
      → length s.pushed + in_hand s.taker ≡ length s.popped + queue_capacity
  refused_full {blank} {s} i v x reach few here e =
      let inv = Reach-Inv reach few in
      let hand = popped-in_hand s.mem s.popped inv.r s.taker inv.taking in
      let held = inv.held i in
      let h : v ≤ length s.pushed = rw here at held in
      omega (arith, full_at s.mem s.pushed inv.r v inv.ring h e, hand)

  Claims-position :
      (m : LockFreeQueue A) (pushed : List A) (r : ℕ) (p : Pc A) (w : ℕ)
      → Holds m pushed r p
      → position p ≡ some w
      → (r ≤ w) × (w < length pushed) × (m.check (ix w) ≡ w)
  Claims-position m pushed r (claimed x v) w h e = ground (arith, h.low, h.high, h.unpublished)
  Claims-position m pushed r (written x v) w (h, q) e = ground (arith, h.low, h.high, h.unpublished)
  Claims-position m pushed r idle w h e = cc
  Claims-position m pushed r (starting x) w h e = cc
  Claims-position m pushed r (loaded x v) w h e = cc
  Claims-position m pushed r (free x v) w h e = cc

  -- The producers that hold positions, from the exchange to the store of the check, hold
  -- different entries of the array, as long as fewer than `2 ^ 32 - queue_capacity` items have been
  -- claimed; and none of them holds the entry that the consumer is about to read.
  pub held_apart :
      {blank : A} {s : System A} (i j v w : ℕ)
      → Reach blank s
      → length s.pushed + queue_capacity < 2 ^ 32
      → i ≢ j
      → position (s.pc i) ≡ some v
      → position (s.pc j) ≡ some w
      → (ix v ≢ ix w) × ((h : ℕ) → s.taker ≡ ready h → ix h ≢ ix v)
  held_apart {blank} {s} i j v w reach few ne a b =
      let inv = Reach-Inv reach few in
      let room = inv.ring.room in
      let (lo, hi, at_v) = Claims-position s.mem s.pushed inv.r (s.pc i) v (inv.held i) a in
      let (lo', hi', at_w) = Claims-position s.mem s.pushed inv.r (s.pc j) w (inv.held j) b in
      let differ : v ≢ w = λ e. ne (inv.unique i j w (a ∙ ap some e) b) in
      (
        ix_ne inv.r v w lo (omega arith) lo' (omega arith) differ,
        λ h taking same.
            let before = inv.taking in
            let (x, (y, (z, published))) = rw taking at before in
            omega (arith, ap s.mem.check same, room),
      )

  -- When the consumer finds the position at its head unpublished, for which `Pop` returns nothing, either
  -- all items that were claimed have been read, or a producer holds exactly that position, between its
  -- exchange and the store of the check; as long as fewer than `2 ^ 32 - queue_capacity` have been claimed.
  pub unpublished_why :
      {blank : A} {s : System A} (v : ℕ)
      → Reach blank s
      → length s.pushed + queue_capacity < 2 ^ 32
      → s.taker ≡ at v
      → s.mem.check (ix v) ≢ (v + 1) % 2 ^ 32
      → (s.pushed ≡ s.popped) ⊎ ((i : ℕ) × (position (s.pc i) ≡ some v))
  unpublished_why {blank} {s} v reach few taking ne =
      let inv = Reach-Inv reach few in
      let before = inv.taking in
      let (head, (read, here)) = rw taking at before in
      elim (Bool-cases (ltb v (length s.pushed))) [
        | inl below ↦
            let lt : v < length s.pushed = ground arith in
            elim (inv.ring.slots v (omega (arith, here)) lt) [
              | inl (c, it) ↦ absurd (ne (c ∙ omega arith))
              | inr c ↦ inr (inv.holder v (omega (arith, here)) lt c)
            ]
        | inr last ↦
            let ends : length inv.rest ≡ 0 = ground (
              arith,
              ap length inv.fifo,
              length-append {0} s.popped inv.rest,
              read,
              here,
              inv.ring.behind,
            ) in
            inl
              (inv.fifo ∙ ap (λ l. s.popped ++ l) (length-zero inv.rest ends) ∙ append-nil s.popped)
      ]
