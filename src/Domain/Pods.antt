-- ===== src/Domain/Pods.antt =====
-- include/Domain/OrderPod.h, TradePod.h, OrderRequest.h and trade.h.
use limit_order_book_v.Prelude.{ℕ, ◌-◌, ◌^◌}
use limit_order_book_v.Domain.Text.{Bytes}
use limit_order_book_v.Domain.Order.{OrderStatus, OrderSide, TimeInForce, OrderType}

-- `NIL`, the index that is none.
abbrev pub nil_index : ℕ
nil_index = 2 ^ 32 - 1

-- `next` and `prev` are the links of the order's price queue, pool indices or `nil_index`.
pub record OrderPod : Type 0 where
  pub price : ℕ
  pub timestamp : ℕ
  pub order_id : ℕ
  pub trader_id : ℕ
  pub quantity : ℕ
  pub symbol : ℕ
  pub side : OrderSide
  pub type : OrderType
  pub tif : TimeInForce
  pub status : OrderStatus
  pub next : ℕ
  pub prev : ℕ

pub record TradePod : Type 0 where
  pub price : ℕ
  pub timestamp : ℕ
  pub trade_id : ℕ
  pub maker_id : ℕ
  pub taker_id : ℕ
  pub quantity : ℕ
  pub symbol : ℕ

-- `quantity` and `trader_id` are `int`s, given as 32-bit patterns.
pub record OrderRequest (Float : Type 0) : Type 0 where
  pub price : Float
  pub quantity : ℕ
  pub type : Bytes
  pub symbol : Bytes
  pub tif : Bytes
  pub trader_id : ℕ
  pub side : Bytes

-- `class Trade` of trade.h.
pub record Trade : Type 0 where
  pub id : ℕ
  pub maker_id : ℕ
  pub taker_id : ℕ
  pub price : ℕ
  pub quantity : ℕ
  pub symbol : Bytes
  pub timestamp : ℕ
