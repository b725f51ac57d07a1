-- ===== src/Engine/CoreEngine/Saving.antt =====
-- `SaveToFile` and `LoadFromFile` of src/Engine/CoreEngine.cpp. A file is its bytes, or none when it
-- does not open.
use limit_order_book_v.Prelude.{
  ℕ, ◌^◌, Bool, ◌&&◌, ◌==◌, ltb, if◌then◌else◌, Option, none, some, List, [], ◌∷◌, ◌++◌,
}
use limit_order_book_v.Domain.Text.{Bytes, bytes}
use limit_order_book_v.Domain.Float.{Float, of_ticks}
use limit_order_book_v.Domain.Order.{
  Result, ok, throw, ◌>>=◌, side_to_string, type_to_string, tif_to_string, status_to_string,
}
use limit_order_book_v.Domain.Pods.{OrderPod, OrderRequest}
use limit_order_book_v.Engine.CoreEngine.Csv.{
  comma, newline, write_nat, write_int, read_int, next_item, lines_of,
}
use limit_order_book_v.Routing.OrderRouter
use limit_order_book_v.Routing.OrderRouter.{OrderRouter, Call, returned, spun, thrown, load}

-- What the loop of `LoadFromFile` takes from a line.
pub record Row : Type 0 where
  pub request : OrderRequest Float
  pub timestamp : ℕ

abbrev pub header : Bytes
header = bytes "ID,TraderID,Side,Type,Symbol,Price,Qty,Timestamp,TIF,Status"

-- `write_float` and `read_float` are what the standard library makes of `operator<<` on a `float` and of
-- `std::stof`.
module _ (write_float : Float → Bytes) where
  unfoldable pub write_row : Bytes → OrderPod → Bytes
  write_row symbol order =
      write_nat order.order_id
      ++ comma
        ∷ (write_nat order.trader_id
            ++ comma
              ∷ (side_to_string order.side
                  ++ comma
                    ∷ (type_to_string order.type
                        ++ comma
                          ∷ (symbol
                              ++ comma
                                ∷ (write_float (of_ticks order.price)
                                    ++ comma
                                      ∷ (write_int order.quantity
                                          ++ comma
                                            ∷ (write_nat order.timestamp
                                                ++ comma
                                                  ∷ (tif_to_string order.tif
                                                      ++ comma
                                                        ∷ status_to_string order.status))))))))

  -- Orders that are filled are left out.
  unfoldable pub write_orders : Bytes → List OrderPod → Bytes
  unfolding write_row
  write_orders symbol [] = []
  write_orders symbol (order ∷ orders) =
      let rest = write_orders symbol orders in
      if order.quantity == 0 then rest else write_row symbol order ++ newline ∷ rest

  unfoldable pub write_symbols : List (Bytes × List OrderPod) → Bytes
  unfolding write_orders
  write_symbols [] = []
  write_symbols ((symbol, orders) ∷ rest) = write_orders symbol orders ++ write_symbols rest

  unfoldable pub file_of : List (Bytes × List OrderPod) → Bytes
  unfolding write_symbols
  file_of all = header ++ newline ∷ write_symbols all

  unfoldable pub save_to_file : OrderRouter → Bytes
  unfolding file_of
  save_to_file r = file_of (OrderRouter.get_all_orders r)

-- What follows a call, unless it throws or spins.
abbrev pub and_then : Call → (OrderRouter → Call) → Call
and_then (returned r) next = next r
and_then (spun r) next = spun r
and_then (thrown fault r) next = thrown fault r

-- `Qty > 0` for an `int`.
abbrev pub is_positive : ℕ → Bool
is_positive n = ltb 0 n && ltb n (2 ^ 31)

module _ (read_float : Bytes → Result Float) where
  -- The id and the status are read and not used.
  unfoldable pub read_row : Bytes → Result Row
  unfolding next_item
  read_row line = next_item [] (some line) λ id s. read_int 32 id >>= λ _.
      next_item id s λ trader s. read_int 32 trader >>= λ trader_id. next_item trader s λ side s.
        next_item side s λ type s. next_item type s λ symbol s. next_item symbol s λ price s.
          read_float price >>= λ price'. next_item price s λ qty s. read_int 32 qty >>= λ quantity.
          next_item qty s λ ns s. read_int 64 ns >>= λ timestamp. next_item ns s λ tif s.
            ok (record {
              request = record {
                price = price';
                quantity = quantity;
                type = type;
                symbol = symbol;
                tif = tif;
                trader_id = trader_id;
                side = side;
              };
              timestamp = timestamp;
            })

  module _ (undefined : Float → ℕ) where
    abbrev pub load_row : Result Row → OrderRouter → Call
    load_row (throw fault) r = thrown fault r
    load_row (ok row) r =
        if is_positive row.request.quantity
        then load undefined row.timestamp row.request r
        else returned r

    unfoldable pub load_lines : List Bytes → OrderRouter → Call
    unfolding read_row
    load_lines [] r = returned r
    load_lines (line ∷ lines) r = and_then (load_row (read_row line) r) (load_lines lines)

    -- The first line is the header.
    abbrev pub behind_header : List Bytes → List Bytes
    behind_header [] = []
    behind_header (line ∷ lines) = lines

    unfoldable pub load_from_file : Option Bytes → OrderRouter → Call
    unfolding load_lines
    load_from_file none r = returned r
    load_from_file (some file) r = load_lines (behind_header (lines_of file)) r

    -- The constructor.
    unfoldable pub make_engine : Option Bytes → Call
    unfolding load_from_file
    make_engine file = load_from_file file OrderRouter.init
