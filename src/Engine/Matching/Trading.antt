-- ===== src/Engine/Matching/Trading.antt =====
-- What matching relies on in a book, and what it makes of the order that comes in.
use limit_order_book_v.Prelude.{
  suc, length, false, ◌<◌, ℕ, ◌+◌, ◌≡◌, ◌≢◌, ◌∙◌, refl, sym, ap, arith, Bool, true, ◌&&◌, ◌||◌,
  List, [], ◌∷◌, ◌++◌, append-nil, append_assoc, leb,
}
use limit_order_book_v.Domain.Order.{OrderType, is_market}
use limit_order_book_v.Domain.Pods.{TradePod}
use limit_order_book_v.Memory.OrderPool.{default_capacity, OrderPool, get}
use limit_order_book_v.Engine.BookApi.{StorageBook}
use limit_order_book_v.Storage.Binary.{set_quantity}
use limit_order_book_v.Storage.Binary.Book.Frame.{SameKind, SameTerms}
use limit_order_book_v.Storage.Binary.Book.Terms.{SameKind-refl, SameKind-trans}
use limit_order_book_v.Engine.Matching.{Engine}

-- What matching relies on in a book: an order whose slot stands apart from those that wait is never the
-- best of a side, and keeps its terms and stands apart whatever the book does; its slot is not free, and
-- a pop of a side that is not empty frees a slot.
pub record Keeps (s : StorageBook) : Type 1 where
  pub Apart : ℕ → OrderPool → s.Book → Type 0
  pub best_ask :
      (i : ℕ) (pool : OrderPool) (b : s.Book) → Apart i pool b → s.get_best_ask pool b ≢ i
  pub best_bid :
      (i : ℕ) (pool : OrderPool) (b : s.Book) → Apart i pool b → s.get_best_bid pool b ≢ i
  pub quantity :
      (i j q : ℕ) (pool : OrderPool) (b : s.Book)
      → Apart i pool b
      → Apart i (set_quantity j q pool) b
  pub update :
      (i id q : ℕ) (pool : OrderPool) (b : s.Book)
      → Apart i pool b
      → (Apart i (s.update_quantity id q pool b).0 (s.update_quantity id q pool b).1)
        × SameTerms (get pool i) (get (s.update_quantity id q pool b).0 i)
  pub pop_ask :
      (i : ℕ) (pool : OrderPool) (b : s.Book)
      → Apart i pool b
      → (Apart i (s.pop_best_ask pool b).0 (s.pop_best_ask pool b).1)
        × SameTerms (get pool i) (get (s.pop_best_ask pool b).0 i)
  pub pop_bid :
      (i : ℕ) (pool : OrderPool) (b : s.Book)
      → Apart i pool b
      → (Apart i (s.pop_best_bid pool b).0 (s.pop_best_bid pool b).1)
        × SameTerms (get pool i) (get (s.pop_best_bid pool b).0 i)
  pub room :
      (i : ℕ) (pool : OrderPool) (b : s.Book)
      → Apart i pool b
      → length pool.free_index < default_capacity
  pub pop_ask_frees :
      (i : ℕ) (pool : OrderPool) (b : s.Book)
      → Apart i pool b
      → s.is_ask_empty b ≡ false
      → length (s.pop_best_ask pool b).0.free_index ≡ suc (length pool.free_index)
  pub pop_bid_frees :
      (i : ℕ) (pool : OrderPool) (b : s.Book)
      → Apart i pool b
      → s.is_bid_empty b ≡ false
      → length (s.pop_best_bid pool b).0.free_index ≡ suc (length pool.free_index)

-- The shares that change hands in some trades.
abbrev pub total : List TradePod → ℕ
total [] = 0
total (t ∷ ts) = t.quantity + total ts

-- Every price of some trades passes a test.
abbrev pub all_prices : (ℕ → Bool) → List TradePod → Bool
all_prices ok [] = true
all_prices ok (t ∷ ts) = ok t.price && all_prices ok ts

pub total-append : (ts us : List TradePod) → total (ts ++ us) ≡ total ts + total us
total-append [] us = omega arith
total-append (t ∷ ts) us = ground (arith, total-append ts us)

pub all_prices-append :
    (ok : ℕ → Bool) (ts us : List TradePod)
    → all_prices ok ts ≡ true
    → all_prices ok us ≡ true
    → all_prices ok (ts ++ us) ≡ true
all_prices-append ok [] us a b = b
all_prices-append ok (t ∷ ts) us a b = ground (arith, all_prices-append ok ts us (ground arith) b)

-- The prices at which an order of a price and type may buy or sell.
abbrev pub buys_at : ℕ → OrderType → ℕ → Bool
buys_at limit type p = leb p limit || is_market type

abbrev pub sells_at : ℕ → OrderType → ℕ → Bool
sells_at limit type p = leb limit p || is_market type

module _ (s : StorageBook) (l : Keeps s) where
  -- What a stretch of matching makes of the order in slot `index`: it adds some trades at prices that
  -- pass a test, what they trade is what the order lost, and nothing else of
  -- the order changes but its links and its status.
  pub record Trades (index : ℕ) (ok : ℕ → Bool) (e e' : Engine s.Book) : Type 0 where
    pub made : List TradePod
    pub trades : e'.trades ≡ e.trades ++ made
    pub conserved : total made + (get e'.pool index).quantity ≡ (get e.pool index).quantity
    pub fair : all_prices ok made ≡ true
    pub kind : SameKind (get e.pool index) (get e'.pool index)
    pub apart : l.Apart index e'.pool e'.book

  -- What the settlement of a trade makes of it.
  pub record Settles (index : ℕ) (e e' : Engine s.Book) : Type 0 where
    pub apart : l.Apart index e'.pool e'.book
    pub terms : SameTerms (get e.pool index) (get e'.pool index)
    pub trades : e'.trades ≡ e.trades

  pub Trades-refl :
      (index : ℕ) (ok : ℕ → Bool) (e : Engine s.Book)
      → l.Apart index e.pool e.book
      → Trades index ok e e
  Trades-refl index ok e a = record {
    made = [];
    trades = sym (append-nil e.trades);
    conserved = omega arith;
    fair = refl;
    kind = SameKind-refl (get e.pool index);
    apart = a;
  }

  pub Trades-trans :
      {index : ℕ} {ok : ℕ → Bool} {e e' e'' : Engine s.Book}
      → Trades index ok e e'
      → Trades index ok e' e''
      → Trades index ok e e''
  Trades-trans {index} {ok} {e} t u = record {
    made = t.made ++ u.made;
    trades = u.trades ∙ ap (λ x. x ++ u.made) t.trades ∙ append_assoc e.trades t.made u.made;
    conserved = ground (arith, total-append t.made u.made, t.conserved, u.conserved);
    fair = all_prices-append ok t.made u.made t.fair u.fair;
    kind = SameKind-trans t.kind u.kind;
    apart = u.apart;
  }

  pub Settles-Trades :
      {index : ℕ} {ok : ℕ → Bool} {e e' e'' : Engine s.Book}
      → Trades index ok e e'
      → Settles index e' e''
      → Trades index ok e e''
  Settles-Trades t u = record {
    made = t.made;
    trades = u.trades ∙ t.trades;
    conserved = ap (λ q. total t.made + q) u.terms.quantity ∙ t.conserved;
    fair = t.fair;
    kind = SameKind-trans t.kind u.terms.kind;
    apart = u.apart;
  }
