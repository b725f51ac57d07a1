-- ===== src/Storage/Binary/Book/Sides.antt =====
-- The queues and the books that differ on one side.
use limit_order_book_v.Prelude.{ℕ, ◌≡◌, ◌≢◌, ◌⊎◌, inl, inr, refl, true, List}
use limit_order_book_v.Domain.Order.{OrderSide, buy, sell}
use limit_order_book_v.Memory.OrderPool.{OrderPool}
use limit_order_book_v.Memory.IdIndexMap.{IdIndexMap}
use limit_order_book_v.Storage.LinkedList.Chain.{has_index}
use limit_order_book_v.Storage.Binary.{BinaryOrderBook, HalfBook}
use limit_order_book_v.Storage.Binary.Half
use limit_order_book_v.Storage.Binary.Book.{Waiting, half, on_side}

-- The book with a new side and a new index of ids.
abbrev pub put_half : OrderSide → HalfBook → IdIndexMap → BinaryOrderBook → BinaryOrderBook
put_half buy h m b = record { bids = h; asks = b.asks; id_to_index = m }
put_half sell h m b = record { bids = b.bids; asks = h; id_to_index = m }

pub on_side-halves :
    (s t : OrderSide) {pool : OrderPool} {h : HalfBook} {q : ℕ → List ℕ} (m : IdIndexMap)
    (b : BinaryOrderBook) (queue : Waiting)
    → Half.IsValid pool h q
    → (t ≢ s → Half.IsValid pool (half t b) (queue t))
    → Half.IsValid pool (half t (put_half s h m b)) (on_side s q queue t)
on_side-halves buy buy m b queue v w = v
on_side-halves buy sell m b queue v w = w (λ e. cc)
on_side-halves sell buy m b queue v w = w (λ e. cc)
on_side-halves sell sell m b queue v w = v

pub on_side-member :
    (s t : OrderSide) (q : ℕ → List ℕ) (queue : Waiting) (p i : ℕ)
    → has_index i (on_side s q queue t p) ≡ true
    → ((t ≡ s) × (has_index i (q p) ≡ true)) ⊎ ((t ≢ s) × (has_index i (queue t p) ≡ true))
on_side-member buy buy q queue p i h = inl (refl, h)
on_side-member buy sell q queue p i h = inr (λ e. cc, h)
on_side-member sell buy q queue p i h = inr (λ e. cc, h)
on_side-member sell sell q queue p i h = inl (refl, h)

pub on_side-keeps :
    (s t : OrderSide) (q : ℕ → List ℕ) (queue : Waiting) (p i : ℕ)
    → (t ≡ s → has_index i (queue t p) ≡ true → has_index i (q p) ≡ true)
    → has_index i (queue t p) ≡ true
    → has_index i (on_side s q queue t p) ≡ true
on_side-keeps buy buy q queue p i k h = k refl h
on_side-keeps buy sell q queue p i k h = h
on_side-keeps sell buy q queue p i k h = h
on_side-keeps sell sell q queue p i k h = k refl h

pub on_side-here :
    (s : OrderSide) (q : ℕ → List ℕ) (queue : Waiting) (p : ℕ) → on_side s q queue s p ≡ q p
on_side-here buy q queue p = refl
on_side-here sell q queue p = refl

pub put_half-ids :
    (s : OrderSide) (h : HalfBook) (m : IdIndexMap) (b : BinaryOrderBook)
    → (put_half s h m b).id_to_index ≡ m
put_half-ids buy h m b = refl
put_half-ids sell h m b = refl
