-- ===== src/Storage/Multiset/Priority.antt =====
-- The sets keep price-time priority.
use limit_order_book_v.Prelude.{
  ℕ, ◌+◌, ◌-◌, ◌≡◌, ◌≢◌, Bool, Bool-cases, inl, inr, true, false, arith, List, [], ◌∷◌, leb, ◌==◌,
  if◌then◌else◌, min,
}
use limit_order_book_v.Memory.OrderPool.{OrderPool, get}
use limit_order_book_v.Storage.Multiset.{bid_order, ask_order, insert, erase, can_fill}

-- Each order of a list is not behind the next ones.
abbrev pub AheadOf : (ℕ → ℕ → Bool) → ℕ → List ℕ → Type 0
AheadOf less x [] = Unit {0}
AheadOf less x (y ∷ ys) = (less y x ≡ false) × AheadOf less x ys

abbrev pub InOrder : (ℕ → ℕ → Bool) → List ℕ → Type 0
InOrder less [] = Unit {0}
InOrder less (x ∷ xs) = AheadOf less x xs × InOrder less xs

bid_order_asym :
    (pool : OrderPool) (x y : ℕ) → bid_order pool x y ≡ true → bid_order pool y x ≡ false
unfolding bid_order
bid_order_asym pool x y h = ground arith

bid_order_trans :
    (pool : OrderPool) (x y z : ℕ)
    → bid_order pool x y ≡ true
    → bid_order pool z y ≡ false
    → bid_order pool z x ≡ false
unfolding bid_order
bid_order_trans pool x y z h k = ground arith

ask_order_asym :
    (pool : OrderPool) (x y : ℕ) → ask_order pool x y ≡ true → ask_order pool y x ≡ false
unfolding ask_order
ask_order_asym pool x y h = ground arith

ask_order_trans :
    (pool : OrderPool) (x y z : ℕ)
    → ask_order pool x y ≡ true
    → ask_order pool z y ≡ false
    → ask_order pool z x ≡ false
unfolding ask_order
ask_order_trans pool x y z h k = ground arith

-- What a sorted set asks of its comparator.
pub record IsPriority (less : ℕ → ℕ → Bool) : Type 0 where
  pub asym : (x y : ℕ) → less x y ≡ true → less y x ≡ false
  pub trans : (x y z : ℕ) → less x y ≡ true → less z y ≡ false → less z x ≡ false

-- Both comparators order by price and time.
pub bid_order-IsPriority : (pool : OrderPool) → IsPriority (bid_order pool)
bid_order-IsPriority pool = record { asym = bid_order_asym pool; trans = bid_order_trans pool }

pub ask_order-IsPriority : (pool : OrderPool) → IsPriority (ask_order pool)
ask_order-IsPriority pool = record { asym = ask_order_asym pool; trans = ask_order_trans pool }

module _ {less : ℕ → ℕ → Bool} (p : IsPriority less) where
  AheadOf-trans : (x y : ℕ) (ys : List ℕ) → less x y ≡ true → AheadOf less y ys → AheadOf less x ys
  AheadOf-trans x y [] h a = tt
  AheadOf-trans x y (z ∷ zs) h (a, as') = (p.trans x y z h a, AheadOf-trans x y zs h as')

  AheadOf-insert :
      (x y : ℕ) (ys : List ℕ)
      → less x y ≡ false
      → AheadOf less y ys
      → AheadOf less y (insert less x ys)
  unfolding insert
  AheadOf-insert x y [] h a = (h, tt)
  AheadOf-insert x y (z ∷ zs) h (a, as') = elim (Bool-cases (less x z)) [
    | inl e ↦ rw e (h, (a, as'))
    | inr e ↦ rw e (a, AheadOf-insert x y zs h as')
  ]

  -- `insert` keeps a set in order.
  pub insert-InOrder : (x : ℕ) (xs : List ℕ) → InOrder less xs → InOrder less (insert less x xs)
  unfolding insert
  insert-InOrder x [] o = (tt, tt)
  insert-InOrder x (y ∷ ys) (a, o) = elim (Bool-cases (less x y)) [
    | inl e ↦ rw e ((p.asym x y e, AheadOf-trans x y ys e a), (a, o))
    | inr e ↦ rw e (AheadOf-insert x y ys e a, insert-InOrder x ys o)
  ]

  AheadOf-erase : (x y : ℕ) (ys : List ℕ) → AheadOf less y ys → AheadOf less y (erase x ys)
  unfolding erase
  AheadOf-erase x y [] a = tt
  AheadOf-erase x y (z ∷ zs) (a, as') = elim (Bool-cases (x == z)) [
    | inl e ↦ rw e as'
    | inr e ↦ rw e (a, AheadOf-erase x y zs as')
  ]

  -- `erase` keeps a set in order.
  pub erase-InOrder : (x : ℕ) (xs : List ℕ) → InOrder less xs → InOrder less (erase x xs)
  unfolding erase
  erase-InOrder x [] o = tt
  erase-InOrder x (y ∷ ys) (a, o) = elim (Bool-cases (x == y)) [
    | inl e ↦ rw e o
    | inr e ↦ rw e (AheadOf-erase x y ys a, erase-InOrder x ys o)
  ]

-- What the orders up to the first price out of reach add up to.
unfoldable pub reachable : (ℕ → Bool) → OrderPool → List ℕ → ℕ
reachable beyond pool [] = 0
reachable beyond pool (index ∷ rest) =
    let later = reachable beyond pool rest in
    if beyond (get pool index).price then 0 else (get pool index).quantity + later

-- For a quantity that is not zero, the answer is whether the orders within reach, from the best one
-- on to the first that is out of reach, add up to it.
pub can_fill-reachable :
    (beyond : ℕ → Bool) (quantity : ℕ) (pool : OrderPool) (xs : List ℕ)
    → quantity ≢ 0
    → can_fill beyond quantity pool xs ≡ leb quantity (reachable beyond pool xs)
unfolding can_fill reachable
can_fill-reachable beyond quantity pool [] h = ground arith
can_fill-reachable beyond quantity pool (index ∷ rest) h =
    let q = (get pool index).quantity in
    ground (arith, can_fill-reachable beyond (quantity - min quantity q) pool rest)
