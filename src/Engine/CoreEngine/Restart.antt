-- ===== src/Engine/CoreEngine/Restart.antt =====
-- What `LoadFromFile` makes of the file that `SaveToFile` wrote (src/Engine/CoreEngine.cpp).
use limit_order_book_v.Prelude.{ℕ, ◌^◌, ◌<◌, ◌≤◌, ◌≡◌, ◌∙◌, refl, ap, arith, true, ltb, ◌∷◌, ◌++◌}
use limit_order_book_v.Domain.Text.{Bytes}
use limit_order_book_v.Domain.Float.{Float, of_ticks}
use limit_order_book_v.Domain.Order.{
  Result, ok, throw, Fault, ◌>>=◌, OrderSide, OrderType, TimeInForce, OrderStatus, buy, sell,
  market, limit, stop, stop_limit, gtc, ioc, fok, new, partially_filled, filled, canceled, rejected,
  side_to_string, type_to_string, tif_to_string, status_to_string,
}
use limit_order_book_v.Domain.Pods.{OrderPod}
use limit_order_book_v.Engine.CoreEngine.Csv.{comma, write_nat, write_int, read_int, next_item}
use limit_order_book_v.Engine.CoreEngine.Reading.{
  plain, plain-write_nat, read_int-write_nat, split_comma-plain, is_line, is_line-join,
}
use limit_order_book_v.Engine.CoreEngine.Saving.{Row, write_row, read_row}

bind-ok : {A B : Type 0} {c : Result A} (v : A) (f : A → Result B) → c ≡ ok v → (c >>= f) ≡ f v
bind-ok v f e = ap (λ r. r >>= f) e

plain-side : (s : OrderSide) → plain (side_to_string s) ≡ true
unfolding side_to_string
plain-side buy = refl
plain-side sell = refl

plain-type : (t : OrderType) → plain (type_to_string t) ≡ true
unfolding type_to_string
plain-type market = refl
plain-type limit = refl
plain-type stop = refl
plain-type stop_limit = refl

plain-tif : (t : TimeInForce) → plain (tif_to_string t) ≡ true
unfolding tif_to_string
plain-tif gtc = refl
plain-tif ioc = refl
plain-tif fok = refl

is_line-status : (s : OrderStatus) → is_line (status_to_string s) ≡ true
unfolding status_to_string
is_line-status new = refl
is_line-status partially_filled = refl
is_line-status filled = refl
is_line-status canceled = refl
is_line-status rejected = refl

-- An `int` that is not negative is read as it was written.
read_int-low : (n : ℕ) → n < 2 ^ 31 → read_int 32 (write_nat n) ≡ ok n
read_int-low n h = read_int-write_nat 32 n (omega arith) ∙ ground arith

read_int-high :
    (n : ℕ) → 2 ^ 31 ≤ n → n < 2 ^ 32 → read_int 32 (write_nat n) ≡ throw Fault.out_of_range
read_int-high n h k = read_int-write_nat 32 n (omega arith) ∙ ground arith

read_int-long : (n : ℕ) → n < 2 ^ 63 → read_int 64 (write_nat n) ≡ ok n
read_int-long n h = read_int-write_nat 64 n (omega arith) ∙ ground arith

-- What is read back of an order.
abbrev pub restored : Bytes → OrderPod → Float → Row
restored symbol order p = record {
  request = record {
    price = p;
    quantity = order.quantity;
    type = type_to_string order.type;
    symbol = symbol;
    tif = tif_to_string order.tif;
    trader_id = order.trader_id;
    side = side_to_string order.side;
  };
  timestamp = order.timestamp;
}

module _ (write_float : Float → Bytes) (read_float : Bytes → Result Float) where
  -- What a saved order must be like to be read back with the price `p`.
  pub record Restorable (symbol : Bytes) (order : OrderPod) (p : Float) : Type 0 where
    pub plain_symbol : plain symbol ≡ true
    pub plain_price : plain (write_float (of_ticks order.price)) ≡ true
    pub price : read_float (write_float (of_ticks order.price)) ≡ ok p
    pub id : order.order_id < 2 ^ 31
    pub trader : order.trader_id < 2 ^ 31
    pub quantity : order.quantity < 2 ^ 31
    pub timestamp : order.timestamp < 2 ^ 63

  -- A saved order is read back with its quantity, kind, symbol, trader, side and time, and with the price `p` when
  -- that is what the text of its price in ticks is read as; as long as its symbol and the text of its
  -- price have no comma and no line break, and its id, trader and quantity are below `2 ^ 31`
  -- and its time below `2 ^ 63`.
  pub read_row-write_row :
      (symbol : Bytes) (order : OrderPod) (p : Float)
      → Restorable symbol order p
      → read_row read_float (write_row write_float symbol order) ≡ ok (restored symbol order p)
  unfolding read_row write_row write_int next_item
  read_row-write_row symbol order p h =
      let t9 = status_to_string order.status in
      let t8 = tif_to_string order.tif ++ comma ∷ t9 in
      let t7 = write_nat order.timestamp ++ comma ∷ t8 in
      let t6 = write_nat order.quantity ++ comma ∷ t7 in
      let t5 = write_float (of_ticks order.price) ++ comma ∷ t6 in
      let t4 = symbol ++ comma ∷ t5 in
      let t3 = type_to_string order.type ++ comma ∷ t4 in
      let t2 = side_to_string order.side ++ comma ∷ t3 in
      let t1 = write_nat order.trader_id ++ comma ∷ t2 in
      let quantity : ltb order.quantity (2 ^ 31) ≡ true = ground (arith, h.quantity) in
      rw
        (
          quantity,
          split_comma-plain (write_nat order.order_id) t1 (plain-write_nat order.order_id),
          read_int-low order.order_id h.id,
          split_comma-plain (write_nat order.trader_id) t2 (plain-write_nat order.trader_id),
          read_int-low order.trader_id h.trader,
          split_comma-plain (side_to_string order.side) t3 (plain-side order.side),
          split_comma-plain (type_to_string order.type) t4 (plain-type order.type),
          split_comma-plain symbol t5 h.plain_symbol,
          split_comma-plain (write_float (of_ticks order.price)) t6 h.plain_price,
          h.price,
          split_comma-plain (write_nat order.quantity) t7 (plain-write_nat order.quantity),
          read_int-low order.quantity h.quantity,
          split_comma-plain (write_nat order.timestamp) t8 (plain-write_nat order.timestamp),
          read_int-long order.timestamp h.timestamp,
          split_comma-plain (tif_to_string order.tif) t9 (plain-tif order.tif),
        )
        refl

  pub is_line-write_row :
      (symbol : Bytes) (order : OrderPod)
      → plain symbol ≡ true
      → plain (write_float (of_ticks order.price)) ≡ true
      → order.quantity < 2 ^ 31
      → is_line (write_row write_float symbol order) ≡ true
  unfolding write_row write_int
  is_line-write_row symbol order s p q =
      let t9 = status_to_string order.status in
      let t8 = tif_to_string order.tif ++ comma ∷ t9 in
      let t7 = write_nat order.timestamp ++ comma ∷ t8 in
      let t6 = write_nat order.quantity ++ comma ∷ t7 in
      let t5 = write_float (of_ticks order.price) ++ comma ∷ t6 in
      let t4 = symbol ++ comma ∷ t5 in
      let t3 = type_to_string order.type ++ comma ∷ t4 in
      let t2 = side_to_string order.side ++ comma ∷ t3 in
      let t1 = write_nat order.trader_id ++ comma ∷ t2 in
      let l8 =
        is_line-join (tif_to_string order.tif) t9 (plain-tif order.tif)
          (is_line-status order.status) in
      let l7 = is_line-join (write_nat order.timestamp) t8 (plain-write_nat order.timestamp) l8 in
      let l6 = is_line-join (write_nat order.quantity) t7 (plain-write_nat order.quantity) l7 in
      let l5 = is_line-join (write_float (of_ticks order.price)) t6 p l6 in
      let l3 =
        is_line-join (type_to_string order.type) t4 (plain-type order.type)
          (is_line-join symbol t5 s l5) in
      let l2 = is_line-join (side_to_string order.side) t3 (plain-side order.side) l3 in
      let l1 = is_line-join (write_nat order.trader_id) t2 (plain-write_nat order.trader_id) l2 in
      let quantity : ltb order.quantity (2 ^ 31) ≡ true = ground (arith, q) in
      rw quantity (is_line-join (write_nat order.order_id) t1 (plain-write_nat order.order_id) l1)

  -- A trader id of `2 ^ 31` or more, which is how a negative one is kept, is written as it is, and reading the
  -- line throws.
  pub read_row-large_trader :
      (symbol : Bytes) (order : OrderPod)
      → order.order_id < 2 ^ 31
      → 2 ^ 31 ≤ order.trader_id
      → order.trader_id < 2 ^ 32
      → read_row read_float (write_row write_float symbol order) ≡ throw Fault.out_of_range
  unfolding read_row write_row next_item
  read_row-large_trader symbol order i lo hi =
      let t2 =
        side_to_string order.side
        ++ comma
          ∷ (type_to_string order.type
              ++ comma
                ∷ (symbol
                    ++ comma
                      ∷ (write_float (of_ticks order.price)
                          ++ comma
                            ∷ (write_int order.quantity
                                ++ comma
                                  ∷ (write_nat order.timestamp
                                      ++ comma
                                        ∷ (tif_to_string order.tif
                                            ++ comma ∷ status_to_string order.status)))))) in
      let t1 = write_nat order.trader_id ++ comma ∷ t2 in
      rw
        (
          split_comma-plain (write_nat order.order_id) t1 (plain-write_nat order.order_id),
          read_int-low order.order_id i,
          split_comma-plain (write_nat order.trader_id) t2 (plain-write_nat order.trader_id),
          read_int-high order.trader_id lo hi,
        )
        refl
