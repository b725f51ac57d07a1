-- ===== src/Tests/Saving.antt =====
-- Examples for the saving, the loading and the queries of src/Engine/CoreEngine.cpp.
use limit_order_book_v.Prelude.{
  ℕ, ◌^◌, ◌-◌, ◌≡◌, refl, true, false, ◌⊎◌, map, arith, some, List, [], ◌∷◌,
}
use limit_order_book_v.Domain.Text.{Bytes, bytes, eq_bytes}
use limit_order_book_v.Domain.Float.{Float, of_ticks}
use limit_order_book_v.Domain.Order.{Result, ok, throw, Fault, buy, sell, limit, gtc, new, filled}
use limit_order_book_v.Domain.Pods.{OrderPod, nil_index}
use limit_order_book_v.Engine.CoreEngine.{as_order, make_orders}
use limit_order_book_v.Engine.CoreEngine.Answers.{make_orders-answers}
use limit_order_book_v.Engine.CoreEngine.Saving.{file_of, load_from_file}
use limit_order_book_v.Engine.CoreEngine.Reading.{plain}
use limit_order_book_v.Engine.CoreEngine.Restart.{Restorable}
use limit_order_book_v.Engine.CoreEngine.Reload.{
  rows_of, load_rows, load_from_file-file_of, load_from_file-large_trader,
}
use limit_order_book_v.Routing.OrderRouter
use limit_order_book_v.Routing.OrderRouter.{Call, thrown}

abbrev undefined : Float → ℕ
undefined p = 0

-- The texts of a library that knows one number.
abbrev write_float : Float → Bytes
write_float p = bytes "1.5"

abbrev read_float : Bytes → Result Float
read_float s = ok (of_ticks 150)

abbrev price : ℕ → Float
price ticks = of_ticks 150

abbrev bid : OrderPod
bid = record {
  price = 150;
  timestamp = 1234567890;
  order_id = 3;
  trader_id = 7;
  quantity = 20;
  symbol = 0;
  side = buy;
  type = limit;
  tif = gtc;
  status = new;
  next = nil_index;
  prev = nil_index;
}

abbrev done : OrderPod
done = record bid { order_id = 2; quantity = 0; side = sell; status = filled }

abbrev saved : List (Bytes × List OrderPod)
saved = (bytes "AB", bid ∷ done ∷ []) ∷ (bytes "CD", bid ∷ []) ∷ []

bid-Restorable :
    (symbol : Bytes)
    → plain symbol ≡ true
    → Restorable write_float read_float symbol bid (price 150)
bid-Restorable symbol h = record {
  plain_symbol = h;
  plain_price = refl;
  price = refl;
  id = omega arith;
  trader = omega arith;
  quantity = omega arith;
  timestamp = omega arith;
}

done-Restorable : Restorable write_float read_float (bytes "AB") done (price 150)
done-Restorable = record {
  plain_symbol = refl;
  plain_price = refl;
  price = refl;
  id = omega arith;
  trader = omega arith;
  quantity = omega arith;
  timestamp = omega arith;
}

load_from_file-file_of_example :
    load_from_file read_float undefined (some (file_of write_float saved)) OrderRouter.init
    ≡ load_rows undefined (rows_of price saved) OrderRouter.init
load_from_file-file_of_example =
    load_from_file-file_of write_float read_float undefined price saved
      (
        (bid-Restorable (bytes "AB") refl, (done-Restorable, tt)),
        ((bid-Restorable (bytes "CD") refl, tt), tt),
      )
      OrderRouter.init

-- The order of trader -1.
abbrev negative : OrderPod
negative = record bid { trader_id = 2 ^ 32 - 1 }

load_from_file-large_trader_example :
    load_from_file read_float undefined
      (some (file_of write_float ((bytes "AB", negative ∷ bid ∷ []) ∷ [])))
      OrderRouter.init
    ≡ thrown Fault.out_of_range OrderRouter.init
load_from_file-large_trader_example =
    load_from_file-large_trader write_float read_float undefined (bytes "AB") negative (bid ∷ []) []
      OrderRouter.init refl refl (omega arith) (omega arith) (omega arith) (omega arith)
      (omega arith)

-- An order of less than a tick.
abbrev cheap : OrderPod
cheap = record bid { price = 0 }

make_orders-answers_example :
    ((false ≡ true)
      × (make_orders (bytes "AB") (bid ∷ cheap ∷ [])
          ≡ ok (map (as_order (bytes "AB")) (bid ∷ cheap ∷ []))))
    ⊎ ((false ≡ false)
        × ((fault : Fault) × (make_orders (bytes "AB") (bid ∷ cheap ∷ []) ≡ throw fault)))
unfolding eq_bytes
make_orders-answers_example = make_orders-answers (bytes "AB") (bid ∷ cheap ∷ []) refl
