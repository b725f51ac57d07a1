-- ===== src/Engine/Matching/Binary.antt =====
-- The binary book is a book that matching can rely on.
use limit_order_book_v.Prelude.{
  suc, length, is_nil, false, true, ◌==◌, refl, ◌==◌, length, suc, ℕ, ◌≡◌, ◌≢◌, inl, inr, refl, ap,
  arith, false, List, sym,
}
use limit_order_book_v.Domain.Order.{OrderSide, buy, sell}
use limit_order_book_v.Domain.Pods.{nil_index}
use limit_order_book_v.Memory.OrderPool.{OrderPool, get}
use limit_order_book_v.Memory.OrderPool.Room.{length-Owns}
use limit_order_book_v.Memory.IdIndexMap
use limit_order_book_v.Storage.LinkedList.Chain.{has_index_ne}
use limit_order_book_v.Storage.Binary.{
  HalfBook, is_bid_empty, is_ask_empty, set_quantity, BinaryOrderBook, get_best_bid, get_best_ask,
  pop_best_bid, pop_best_ask,
}
use limit_order_book_v.Storage.Binary.Half.Best.{get_best_bid-BestOf, get_best_ask-BestOf}
use limit_order_book_v.Storage.Binary.Book.{half, Waiting, IsBook}
use limit_order_book_v.Storage.Binary.Book.Frame.{set_quantity-frame}
use limit_order_book_v.Storage.Binary.Book.Cancel.{put-free_index}
use limit_order_book_v.Storage.Binary.Book.Pop.{Pops, pop_best_bid-Pops, pop_best_ask-Pops}
use limit_order_book_v.Storage.Binary.Book.Terms.{
  pop_best_bid-SameTerms, pop_best_ask-SameTerms, update_quantity-SameTerms,
}
use limit_order_book_v.Engine.BookApi.{binary}
use limit_order_book_v.Engine.Matching.Trading.{Keeps}
use limit_order_book_v.Storage.Levels
use limit_order_book_v.Storage.Levels.Best.{is_empty_iff}
use limit_order_book_v.Storage.Binary.Half
use limit_order_book_v.Engine.Matching.Sound.Removal.{Pops-IsSound, update_quantity-IsSound}
use limit_order_book_v.Engine.Matching.Sound.{Apart, same-IsSound, best_away, owned_slot}
use limit_order_book_v.Storage.Binary.Book.Terms.{set_quantity-SameKind}

==_self : (i : ℕ) → (i == i) ≡ true
==_self i = ground arith

get_best_bid_away :
    (bound i : ℕ) (pool : OrderPool) (b : BinaryOrderBook)
    → Apart bound i pool b
    → get_best_bid pool b ≢ i
get_best_bid_away bound i pool b a =
    best_away i (get_best_bid pool b) (a.queue buy)
      (owned_slot i pool a.owned a.owns (a.mine i (==_self i))) (λ p. a.apart buy p i (==_self i))
      (get_best_bid-BestOf pool b (a.book.halves buy))

get_best_ask_away :
    (bound i : ℕ) (pool : OrderPool) (b : BinaryOrderBook)
    → Apart bound i pool b
    → get_best_ask pool b ≢ i
get_best_ask_away bound i pool b a =
    best_away i (get_best_ask pool b) (a.queue sell)
      (owned_slot i pool a.owned a.owns (a.mine i (==_self i))) (λ p. a.apart sell p i (==_self i))
      (get_best_ask-BestOf pool b (a.book.halves sell))

-- A known id is another order's.
other_order :
    (bound i id : ℕ) (pool : OrderPool) (b : BinaryOrderBook)
    → Apart bound i pool b
    → IdIndexMap.get id b.id_to_index ≢ nil_index
    → IdIndexMap.get id b.id_to_index ≢ i
other_order bound i id pool b a ne =
    let index = IdIndexMap.get id b.id_to_index in
    let (o, w) = a.book.known id index refl ne in
    λ e.
      has_index_ne (a.queue (get pool index).side (get pool index).price)
        (a.apart (get pool index).side (get pool index).price i (==_self i)) w (sym e)

pub nobody_waits :
    {pool : OrderPool} {h : HalfBook} {queue : ℕ → List ℕ}
    → Half.IsValid pool h queue
    → ((p : ℕ) → is_nil (queue p) ≡ true)
    → Levels.is_empty h.levels ≡ true
nobody_waits v none_left =
    (is_empty_iff v.coherent).1 (λ q. ground (arith, v.marked q, none_left q))

-- A pop of a side where somebody waits frees a slot.
Pops-frees :
    {better : ℕ → ℕ → Type 0} (s : OrderSide) (pool : OrderPool) (b : BinaryOrderBook)
    (out : OrderPool × BinaryOrderBook) {queue : Waiting}
    → IsBook pool b queue
    → Levels.is_empty (half s b).levels ≡ false
    → Pops better s pool b queue out
    → length out.0.free_index ≡ suc (length pool.free_index)
Pops-frees s pool b out v e (inl (none_left, same)) =
    ground (arith, nobody_waits (v.halves s) none_left)
Pops-frees s pool b out v e (inr (p, index, (is, (f, (best, left))))) = ap length left.freed

pop_bid_frees :
    (bound i : ℕ) (pool : OrderPool) (b : BinaryOrderBook)
    → Apart bound i pool b
    → is_bid_empty b ≡ false
    → length (pop_best_bid pool b).0.free_index ≡ suc (length pool.free_index)
unfolding is_bid_empty
pop_bid_frees bound i pool b a e =
    Pops-frees buy pool b (pop_best_bid pool b) a.book e (pop_best_bid-Pops pool b a.book)

pop_ask_frees :
    (bound i : ℕ) (pool : OrderPool) (b : BinaryOrderBook)
    → Apart bound i pool b
    → is_ask_empty b ≡ false
    → length (pop_best_ask pool b).0.free_index ≡ suc (length pool.free_index)
unfolding is_ask_empty
pop_ask_frees bound i pool b a e =
    Pops-frees sell pool b (pop_best_ask pool b) a.book e (pop_best_ask-Pops pool b a.book)

-- The binary book keeps the order that is matched apart from those that wait.
pub binary_keeps : (bound : ℕ) → Keeps binary
binary_keeps bound = record {
  Apart = Apart bound;
  best_ask = get_best_ask_away bound;
  best_bid = get_best_bid_away bound;
  quantity = λ i j q pool b a.
      same-IsSound pool (set_quantity j q pool) b a (set_quantity-frame j q a.book)
        (put-free_index j (record (get pool j) { quantity = q }) pool)
        (set_quantity-SameKind j q pool);
  update = λ i id q pool b a. (
    update_quantity-IsSound id q pool b a,
    update_quantity-SameTerms id q pool b i (other_order bound i id pool b a),
  );
  pop_ask = λ i pool b a. (
    Pops-IsSound sell pool b (pop_best_ask pool b) a (pop_best_ask-Pops pool b a.book)
        (λ j. (pop_best_ask-SameTerms pool b j).kind),
    pop_best_ask-SameTerms pool b i,
  );
  room = λ i pool b a. length-Owns i pool a.owned a.owns (a.mine i (==_self i));
  pop_ask_frees = pop_ask_frees bound;
  pop_bid_frees = pop_bid_frees bound;
  pop_bid = λ i pool b a. (
    Pops-IsSound buy pool b (pop_best_bid pool b) a (pop_best_bid-Pops pool b a.book)
        (λ j. (pop_best_bid-SameTerms pool b j).kind),
    pop_best_bid-SameTerms pool b i,
  );
}

pub binary_keeps-Apart :
    (bound i : ℕ) (pool : OrderPool) (b : BinaryOrderBook)
    → Apart bound i pool b
    → (binary_keeps bound).Apart i pool b
unfolding binary_keeps
binary_keeps-Apart bound i pool b a = a

pub Apart-binary_keeps :
    (bound i : ℕ) (pool : OrderPool) (b : BinaryOrderBook)
    → (binary_keeps bound).Apart i pool b
    → Apart bound i pool b
unfolding binary_keeps
Apart-binary_keeps bound i pool b a = a
