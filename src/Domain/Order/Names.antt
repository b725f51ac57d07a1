-- ===== src/Domain/Order/Names.antt =====
-- The name functions of order.h against one another, and the checks of `Order`'s constructor.
use limit_order_book_v.Prelude.{◌≡◌, refl, arith}
use limit_order_book_v.Domain.Text.{Bytes, bytes, eq_bytes, eq_of_eq_bytes}
use limit_order_book_v.Domain.Order.{
  OrderStatus, new, partially_filled, filled, canceled, rejected, OrderSide, buy, sell, TimeInForce,
  gtc, ioc, fok, OrderType, market, limit, stop, stop_limit, ok, status_to_string, side_to_string,
  type_to_string, tif_to_string, to_order_status, to_order_side, to_order_type, to_time_in_force,
}

pub to_order_side-side_to_string : (s : OrderSide) → to_order_side (side_to_string s) ≡ ok s
unfolding to_order_side side_to_string eq_bytes
to_order_side-side_to_string buy = refl
to_order_side-side_to_string sell = refl

pub to_order_type-type_to_string : (t : OrderType) → to_order_type (type_to_string t) ≡ ok t
unfolding to_order_type type_to_string eq_bytes
to_order_type-type_to_string market = refl
to_order_type-type_to_string limit = refl
to_order_type-type_to_string stop = refl
to_order_type-type_to_string stop_limit = refl

pub to_time_in_force-tif_to_string : (t : TimeInForce) → to_time_in_force (tif_to_string t) ≡ ok t
unfolding to_time_in_force tif_to_string eq_bytes
to_time_in_force-tif_to_string gtc = refl
to_time_in_force-tif_to_string ioc = refl
to_time_in_force-tif_to_string fok = refl

pub to_order_status-status_to_string :
    (s : OrderStatus) → to_order_status (status_to_string s) ≡ ok s
unfolding to_order_status status_to_string eq_bytes
to_order_status-status_to_string new = refl
to_order_status-status_to_string partially_filled = refl
to_order_status-status_to_string filled = refl
to_order_status-status_to_string canceled = refl
to_order_status-status_to_string rejected = refl

-- What `ToOrderSide` reads as a side was the name of that side.
pub side_of_string : (s : Bytes) (x : OrderSide) → to_order_side s ≡ ok x → s ≡ side_to_string x
unfolding to_order_side side_to_string
side_of_string s x h =
    ground (arith, eq_of_eq_bytes s (bytes "BUY"), eq_of_eq_bytes s (bytes "SELL"))
