-- ===== src/Tests/Full.antt =====
-- A full queue of include/Concurrency/LockFreeQueue.h, filled by the steps of one producer.
use limit_order_book_v.Prelude.{
  ℕ, zero, suc, ◌+◌, ◌%◌, ◌^◌, ◌≤◌, ◌<◌, ◌≡◌, ◌∙◌, refl, sym, arith, [], ◌∷◌, ◌++◌, length,
  append-nil, write, ap, inl, inr,
}
use limit_order_book_v.Concurrency.LockFreeQueue.{queue_capacity, LockFreeQueue}
use limit_order_book_v.Concurrency.LockFreeQueue.Threads.{
  ix, Pc, idle, starting, loaded, free, claimed, written, waiting, Move, call, load_tail,
  found_free, win, store, publish, claim, System, Step, produce, first_state, Reach, start, later,
}
use limit_order_book_v.Concurrency.LockFreeQueue.Threads.Moving.{check_cases}
use limit_order_book_v.Concurrency.LockFreeQueue.Threads.Producing.{length_more}
use limit_order_book_v.Concurrency.LockFreeQueue.Threads.Safety.{in_hand, Reach-Inv, refused_full}
use limit_order_book_v.Tests.Interleaved.{by_producer}

-- A producer at `q` makes a step.
produce_from :
    (s : System ℕ) (i : ℕ) {q p : Pc ℕ} {m : LockFreeQueue ℕ}
    → s.pc i ≡ q
    → Move s.mem q m p
    → Step s (record s { mem = m; pc = write s.pc i p; pushed = s.pushed ++ claim q p })
produce_from s i here move = rw (sym here) (produce i (rw (sym here) at move))

-- Producer 0, which is idle, is about to look at the check, and has claimed the position.
abbrev calling : System ℕ → System ℕ
calling s =
    let t = record s { pc = write s.pc 0 (starting 7); pushed = s.pushed ++ [] } in
    by_producer t 0 s.mem (loaded 7 s.mem.tail)

abbrev claiming : System ℕ → System ℕ
claiming s =
    let t = by_producer (calling s) 0 s.mem (free 7 s.mem.tail) in
    by_producer t 0 (record s.mem { tail = (s.mem.tail + 1) % 2 ^ 32 }) (claimed 7 s.mem.tail)

-- The item is pushed.
abbrev pushing : System ℕ → System ℕ
pushing s =
    let m = (claiming s).mem in
    let filled = record m { queue = write m.queue (ix s.mem.tail) 7 } in
    let t = by_producer (claiming s) 0 filled (written 7 s.mem.tail) in
    by_producer t 0
      (record filled { check = write filled.check (ix s.mem.tail) ((s.mem.tail + 1) % 2 ^ 32) })
      idle

many : ℕ → System ℕ
many zero = first_state 0
many (suc n) = pushing (many n)

record Many (s : System ℕ) (n : ℕ) : Type 0 where
  reach : Reach 0 s
  calm : s.pc 0 ≡ idle
  none_read : s.popped ≡ []
  untouched : s.taker ≡ waiting
  pushes : length s.pushed ≡ n

calling-Reach : {s : System ℕ} → Reach 0 s → s.pc 0 ≡ idle → Reach 0 (calling s)
unfolding write
calling-Reach {s} reach calm =
    later (later reach (produce_from s 0 calm call)) (produce 0 load_tail)

-- The check at the tail, when no item has been read.
tail_free :
    (s : System ℕ) (n : ℕ)
    → Many s n
    → n < queue_capacity
    → s.mem.check (ix s.mem.tail) ≡ s.mem.tail
tail_free s n h lt =
    let inv = Reach-Inv h.reach (omega (arith, h.pushes)) in
    inv.ring.spare s.mem.tail (omega (arith, inv.ring.tail))
      (omega (arith, inv.ring.tail, h.pushes))

pushing-Many : (s : System ℕ) (n : ℕ) → Many s n → n < queue_capacity → Many (pushing s) (suc n)
unfolding write
pushing-Many s n h lt = record {
  reach =
      let found =
        later (calling-Reach h.reach h.calm) (produce 0 (found_free (tail_free s n h lt))) in
      later (later (later found (produce 0 (win refl))) (produce 0 store)) (produce 0 publish);
  calm = refl;
  none_read = h.none_read;
  untouched = h.untouched;
  pushes =
      let same : (((((s.pushed ++ []) ++ []) ++ []) ++ 7 ∷ []) ++ []) ++ [] ≡ s.pushed ++ 7 ∷ [] =
        simp (append-nil) in
      ap length same ∙ omega (arith, length_more s.pushed 7, h.pushes);
}

many-Many : (n : ℕ) → n ≤ queue_capacity → Many (many n) n
unfolding many
many-Many zero lt = record {
  reach = start;
  calm = refl;
  none_read = refl;
  untouched = refl;
  pushes = refl;
}
many-Many (suc n) lt = pushing-Many (many n) n (many-Many n (omega arith)) (omega arith)

length-calling : (s : System ℕ) → length (calling s).pushed ≡ length s.pushed
unfolding write
length-calling s =
    let same : (s.pushed ++ []) ++ [] ≡ s.pushed = simp (append-nil) in ap length same

-- The first item has not been read.
tail_older : (s : System ℕ) → Many s queue_capacity → s.mem.check (ix s.mem.tail) < s.mem.tail
tail_older s h =
    let inv = Reach-Inv h.reach (omega (arith, h.pushes)) in
    let before = inv.taking in
    let (head, none_yet) = rw h.untouched at before in
    let start : inv.r ≡ 0 = sym none_yet ∙ ap length h.none_read in
    let index : ix s.mem.tail ≡ ix inv.r = omega (arith, inv.ring.tail, h.pushes) in
    let same = ap s.mem.check index in
    elim (check_cases s.mem s.pushed inv.r inv.r inv.ring (omega arith) (omega arith)) [
      | inl c ↦ omega (arith, inv.ring.tail, h.pushes)
      | inr c ↦ omega (arith, inv.ring.tail, h.pushes)
    ]

abbrev crowded : System ℕ
crowded = calling (many queue_capacity)

refused_full_example :
    length crowded.pushed + in_hand crowded.taker ≡ length crowded.popped + queue_capacity
unfolding write
refused_full_example =
    let m = many-Many queue_capacity (omega arith) in
    refused_full 0 (many queue_capacity).mem.tail 7 (calling-Reach m.reach m.calm)
      (omega (arith, length-calling (many queue_capacity), m.pushes)) refl
      (tail_older (many queue_capacity) m)
