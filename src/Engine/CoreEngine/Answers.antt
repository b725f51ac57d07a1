-- ===== src/Engine/CoreEngine/Answers.antt =====
-- What the queries of src/Engine/CoreEngine.cpp answer: the constructor of `Order` checks every order.
use limit_order_book_v.Prelude.{
  ◌≡◌, ◌⊎◌, refl, arith, Bool, Bool-cases, true, false, not, ◌&&◌, ◌==◌, inl, inr, List, [], ◌∷◌,
  map,
}
use limit_order_book_v.Domain.Text.{Bytes}
use limit_order_book_v.Domain.Order.{ok, throw, Fault, make_order, is_market, is_positive, is_empty}
use limit_order_book_v.Domain.Pods.{OrderPod}
use limit_order_book_v.Engine.CoreEngine.{as_order, get_order, make_orders}

-- An order has a price, unless it is a market order, and a quantity.
abbrev pub is_priced : OrderPod → Bool
is_priced item = not ((item.price == 0) && not (is_market item.type)) && is_positive item.quantity

abbrev pub all_priced : List OrderPod → Bool
all_priced [] = true
all_priced (item ∷ items) = is_priced item && all_priced items

get_order-priced :
    (symbol : Bytes) (item : OrderPod)
    → is_empty symbol ≡ false
    → is_priced item ≡ true
    → get_order symbol item ≡ ok (as_order symbol item)
unfolding get_order make_order
get_order-priced symbol item some_symbol h =
    let e : ((item.price == 0) && not (is_market item.type)) ≡ false = ground arith in
    let f : is_positive item.quantity ≡ true = ground arith in rw (e, f, some_symbol) refl

get_order-unpriced :
    (symbol : Bytes) (item : OrderPod)
    → is_priced item ≡ false
    → (fault : Fault) × (get_order symbol item ≡ throw fault)
unfolding get_order make_order
get_order-unpriced symbol item h =
    elim (Bool-cases ((item.price == 0) && not (is_market item.type))) [
      | inl e ↦ rw e (_, refl)
      | inr e ↦ let f : is_positive item.quantity ≡ false = ground (arith, e) in rw (e, f) (_, refl)
    ]

-- The loop of `GetOrders`, `GetBestBids` and `GetBestAsks`, for a symbol that is not empty: when every order has a
-- positive quantity and, unless it is a market order, a price, it answers with all of them in their order;
-- when one has not, it throws.
pub make_orders-answers :
    (symbol : Bytes) (items : List OrderPod)
    → is_empty symbol ≡ false
    → ((all_priced items ≡ true) × (make_orders symbol items ≡ ok (map (as_order symbol) items)))
      ⊎ ((all_priced items ≡ false) × ((fault : Fault) × (make_orders symbol items ≡ throw fault)))
unfolding make_orders
make_orders-answers symbol [] some_symbol = inl (refl, refl)
make_orders-answers symbol (item ∷ items) some_symbol = elim (Bool-cases (is_priced item)) [
  | inr e ↦
      let (fault, thrown) = get_order-unpriced symbol item e in
      inr (rw e refl, (fault, rw thrown refl))
  | inl e ↦
      let made = get_order-priced symbol item some_symbol e in
      elim (make_orders-answers symbol items some_symbol) [
        | inl (all, answer) ↦ inl (rw e all, rw (made, answer) refl)
        | inr (one, (fault, thrown)) ↦ inr (rw e one, (fault, rw (made, thrown) refl))
      ]
]
