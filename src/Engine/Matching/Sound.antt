-- ===== src/Engine/Matching/Sound.antt =====
-- What the pool and the binary book of a symbol are at all times: every slot has one place.
pub mod Removal
pub mod Placing
use limit_order_book_v.Prelude.{
  ℕ, ◌<◌, ◌≡◌, ◌≢◌, ◌⊎◌, ◌∙◌, inl, inr, refl, ap, arith, Bool, Bool-cases, true, false, List, [],
  ◌∷◌, ◌==◌,
}
use limit_order_book_v.Domain.Order.{OrderSide, buy, sell}
use limit_order_book_v.Domain.Pods.{OrderPod, nil_index}
use limit_order_book_v.Memory.OrderPool.{OrderPool, free, get}
use limit_order_book_v.Memory.OrderPool.Ownership.{count, Owns, count-without, free-Owns, without}
use limit_order_book_v.Storage.LinkedList.Chain.{has_index, has_index_ne}
use limit_order_book_v.Storage.Binary.{BinaryOrderBook}
use limit_order_book_v.Storage.Binary.Half.Best.{BestOf}
use limit_order_book_v.Storage.Binary.Book.{Waiting, IsBook}
use limit_order_book_v.Storage.Binary.Book.Delete.{taken_out, removed-member, removed-keeps}
use limit_order_book_v.Storage.Binary.Book.Cancel.{Leaves}
use limit_order_book_v.Storage.Binary.Book.Frame.{SameKind}

-- A slot waits somewhere.
abbrev pub Waits : Waiting → ℕ → Type 0
Waits queue i = (s : OrderSide) × ((p : ℕ) × (has_index i (queue s p) ≡ true))

-- The book is valid. The slots `owned` are those that are not free: a slot waits in the book, or a
-- taker, which is being matched, is in it, and not both. The ids of the orders that wait are below
-- `bound`, and no bid reaches an ask.
pub record IsSound (bound : ℕ) (taker : ℕ → Bool) (pool : OrderPool) (b : BinaryOrderBook)
    : Type 0 where
  pub queue : Waiting
  pub book : IsBook pool b queue
  pub owned : List ℕ
  pub owns : Owns pool owned
  pub waiting : (s : OrderSide) (p i : ℕ) → has_index i (queue s p) ≡ true → 0 < count i owned
  pub held : (i : ℕ) → 0 < count i owned → (taker i ≡ true) ⊎ Waits queue i
  pub apart : (s : OrderSide) (p i : ℕ) → taker i ≡ true → has_index i (queue s p) ≡ false
  pub mine : (i : ℕ) → taker i ≡ true → 0 < count i owned
  pub ids :
      (s : OrderSide) (p i : ℕ) → has_index i (queue s p) ≡ true → (get pool i).order_id < bound
  pub uncrossed :
      (p q i j : ℕ) → has_index i (queue buy p) ≡ true → has_index j (queue sell q) ≡ true → p < q

-- Between two orders: every slot is free or waits.
abbrev pub AtRest : ℕ → OrderPool → BinaryOrderBook → Type 0
AtRest bound = IsSound bound (λ _. false)

-- While the order in a slot is matched.
abbrev pub Apart : ℕ → ℕ → OrderPool → BinaryOrderBook → Type 0
Apart bound index = IsSound bound (λ i. i == index)

-- A slot that is owned is a slot of the pool.
pub owned_slot :
    (i : ℕ) (pool : OrderPool) (owned : List ℕ)
    → Owns pool owned
    → 0 < count i owned
    → i ≢ nil_index
owned_slot i pool owned o h = ground (arith, o.parts i)

pub best_away :
    {better : ℕ → ℕ → Type 0} (i index : ℕ) (queue : ℕ → List ℕ)
    → i ≢ nil_index
    → ((p : ℕ) → has_index i (queue p) ≡ false)
    → BestOf better queue index
    → index ≢ i
best_away i index queue ne away (inl (e, none_left)) = ground arith
best_away i index queue ne away (inr (p, (is, (e, best)))) =
    ground (arith, away p, ap (has_index i) e)

-- The first of a queue waits where its side and price say.
pub first_there :
    (s : OrderSide) (p index : ℕ) (is : List ℕ) (pool : OrderPool) (b : BinaryOrderBook)
    {queue : Waiting}
    → IsBook pool b queue
    → queue s p ≡ index ∷ is
    → has_index index (queue (get pool index).side (get pool index).price) ≡ true
first_there s p index is pool b {queue} v e =
    let w : has_index index (queue s p) ≡ true = ground (arith, ap (has_index index) e) in
    rw (v.sided s p index w, (v.halves s).priced p index w) w

pub freed-Owns :
    (index : ℕ) (p p' : OrderPool) (owned : List ℕ)
    → p'.free_index ≡ index ∷ p.free_index
    → Owns p owned
    → 0 < count index owned
    → Owns p' (without index owned)
unfolding free
freed-Owns index p p' owned e o h = record { parts = λ k. rw e ((free-Owns index o h).parts k) }

pub count_other :
    (i index : ℕ) (owned : List ℕ)
    → i ≢ index
    → 0 < count i owned
    → 0 < count i (without index owned)
count_other i index owned ne h = ground (arith, count-without i index owned)

pub count_left :
    (i index : ℕ) (owned : List ℕ)
    → 0 < count i (without index owned)
    → (i ≢ index) × (0 < count i owned)
count_left i index owned h =
    (ground (arith, count-without i index owned), ground (arith, count-without i index owned))

-- A valid book that is the same, with the same slots free and the same orders in the slots.
pub same-IsSound :
    {bound : ℕ} {taker : ℕ → Bool} (pool pool' : OrderPool) (b : BinaryOrderBook)
    (a : IsSound bound taker pool b)
    → IsBook pool' b a.queue
    → pool'.free_index ≡ pool.free_index
    → ((j : ℕ) → SameKind (get pool j) (get pool' j))
    → IsSound bound taker pool' b
same-IsSound pool pool' b a book e same = record {
  queue = a.queue;
  book = book;
  owned = a.owned;
  owns = record { parts = λ k. rw e (a.owns.parts k) };
  waiting = a.waiting;
  held = a.held;
  apart = a.apart;
  mine = a.mine;
  ids = λ s p i w. rw ((same i).order_id) (a.ids s p i w);
  uncrossed = a.uncrossed;
}

-- An order leaves the book.
pub Leaves-IsSound :
    {bound : ℕ} {taker : ℕ → Bool} (index id : ℕ) (pool : OrderPool) (b : BinaryOrderBook)
    (out : OrderPool × BinaryOrderBook) (a : IsSound bound taker pool b)
    → has_index index (a.queue (get pool index).side (get pool index).price) ≡ true
    → Leaves index id pool (taken_out index (get pool index) a.queue) out
    → ((j : ℕ) → SameKind (get pool j) (get out.0 j))
    → IsSound bound taker out.0 out.1
Leaves-IsSound {bound} {taker} index id pool b out a w left same =
    let side = (get pool index).side in
    let price = (get pool index).price in
    let old = removed-member index pool b a.book w in
    let stays = removed-keeps index pool b a.book w in
    record {
      queue = taken_out index (get pool index) a.queue;
      book = left.book;
      owned = without index a.owned;
      owns = freed-Owns index pool out.0 a.owned left.freed a.owns (a.waiting side price index w);
      waiting = λ t q k there.
          let (ne, was) = old t q k there in count_other k index a.owned ne (a.waiting t q k was);
      held = λ i h.
          let (ne, was) = count_left i index a.owned h in
          elim (a.held i was) [
            | inl t ↦ inl t
            | inr (s, (p, there)) ↦ inr (s, (p, stays s p i ne there))
          ];
      apart = λ s p i t.
          elim (Bool-cases (has_index i (taken_out index (get pool index) a.queue s p))) [
            | inl there ↦ cc ((old s p i there).1, a.apart s p i t)
            | inr f ↦ f
          ];
      mine = λ i t.
          count_other i index a.owned (has_index_ne (a.queue side price) (a.apart side price i t) w)
            (a.mine i t);
      ids = λ s p i there. rw ((same i).order_id) (a.ids s p i (old s p i there).1);
      uncrossed = λ p q i j bid ask. a.uncrossed p q i j (old buy p i bid).1 (old sell q j ask).1;
    }
