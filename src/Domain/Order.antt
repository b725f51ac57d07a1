-- ===== src/Domain/Order.antt =====
-- include/Domain/order.h and src/Domain/order.cpp: the enumerations with their names, and the
-- validating constructor of `Order`.
pub mod Names
use limit_order_book_v.Prelude.{
  ℕ, ◌^◌, ◌≤◌, Bool, true, false, ◌&&◌, not, [], ◌==◌, leb, if◌then◌else◌,
}
use limit_order_book_v.Domain.Text.{Bytes, bytes, eq_bytes}

pub data OrderStatus : Type 0 where
  new partially_filled filled canceled rejected : OrderStatus

pub data OrderSide : Type 0 where
  buy sell : OrderSide

pub data TimeInForce : Type 0 where
  gtc ioc fok : TimeInForce

pub data OrderType : Type 0 where
  market limit stop stop_limit : OrderType

-- What the code throws: `std::invalid_argument`, its own by their messages and `no_number` that of
-- `std::stoi`, and `std::out_of_range`.
pub data Fault : Type 0 where
  unknown_status unknown_side unknown_type unknown_tif : Fault
  price_not_positive quantity_not_positive symbol_empty : Fault
  out_of_range no_number : Fault

pub data Result {ℓ} (A : Type ℓ) : Type ℓ where
  ok : A → Result A
  throw : Fault → Result A

infixl 5 ◌>>=◌
abbrev pub ◌>>=◌ {ℓ κ} : {A : Type ℓ} {B : Type κ} → Result A → (A → Result B) → Result B
ok a >>= f = f a
throw e >>= f = throw e

unfoldable pub status_to_string : OrderStatus → Bytes
status_to_string new = bytes "NEW"
status_to_string partially_filled = bytes "PARTIALLY_FILLED"
status_to_string filled = bytes "FILLED"
status_to_string canceled = bytes "CANCELED"
status_to_string rejected = bytes "REJECTED"

unfoldable pub side_to_string : OrderSide → Bytes
side_to_string buy = bytes "BUY"
side_to_string sell = bytes "SELL"

unfoldable pub type_to_string : OrderType → Bytes
type_to_string market = bytes "MARKET"
type_to_string limit = bytes "LIMIT"
type_to_string stop = bytes "STOP"
type_to_string stop_limit = bytes "STOP_LIMIT"

unfoldable pub tif_to_string : TimeInForce → Bytes
tif_to_string gtc = bytes "GTC"
tif_to_string ioc = bytes "IOC"
tif_to_string fok = bytes "FOK"

unfoldable pub to_order_status : Bytes → Result OrderStatus
to_order_status s =
    if eq_bytes s (bytes "NEW")
    then ok new
    else if eq_bytes s (bytes "PARTIALLY_FILLED")
    then ok partially_filled
    else if eq_bytes s (bytes "FILLED")
    then ok filled
    else if eq_bytes s (bytes "CANCELED")
    then ok canceled
    else if eq_bytes s (bytes "REJECTED")
    then ok rejected
    else throw unknown_status

unfoldable pub to_order_side : Bytes → Result OrderSide
to_order_side s =
    if eq_bytes s (bytes "BUY")
    then ok buy
    else if eq_bytes s (bytes "SELL")
    then ok sell
    else throw unknown_side

unfoldable pub to_order_type : Bytes → Result OrderType
to_order_type s =
    if eq_bytes s (bytes "MARKET")
    then ok market
    else if eq_bytes s (bytes "LIMIT")
    then ok limit
    else if eq_bytes s (bytes "STOP")
    then ok stop
    else if eq_bytes s (bytes "STOP_LIMIT")
    then ok stop_limit
    else throw unknown_type

unfoldable pub to_time_in_force : Bytes → Result TimeInForce
to_time_in_force s =
    if eq_bytes s (bytes "GTC")
    then ok gtc
    else if eq_bytes s (bytes "IOC")
    then ok ioc
    else if eq_bytes s (bytes "FOK")
    then ok fok
    else throw unknown_tif

abbrev pub is_market : OrderType → Bool
is_market market = true
is_market _ = false

-- `class Order`. An `int` is its 32-bit pattern, `timestamp` the nanoseconds of its time point.
pub record Order : Type 0 where
  pub order_id : ℕ
  pub trader_id : ℕ
  pub side : OrderSide
  pub type : OrderType
  pub symbol : Bytes
  pub price : ℕ
  pub quantity : ℕ
  pub timestamp : ℕ
  pub tif : TimeInForce
  pub status : OrderStatus

-- The test `x > 0` of an `int` given as its bit pattern.
abbrev pub is_positive : ℕ → Bool
is_positive x = not (x == 0) && not (leb (2 ^ 31) x)

abbrev pub is_empty : Bytes → Bool
is_empty s = eq_bytes s []

-- The constructor of `Order`: its members, then its checks in order.
unfoldable pub make_order : Order → Result Order
make_order o =
    if (o.price == 0) && not (is_market o.type)
    then throw price_not_positive
    else if not (is_positive o.quantity)
    then throw quantity_not_positive
    else if is_empty o.symbol
    then throw symbol_empty
    else ok o
