-- ===== src/Engine/CoreEngine/Reload.antt =====
-- `LoadFromFile` on a whole file that `SaveToFile` wrote (src/Engine/CoreEngine.cpp).
use limit_order_book_v.Prelude.{
  ℕ, ◌^◌, ◌<◌, ◌≤◌, ◌≡◌, ◌≢◌, refl, arith, true, false, ◌==◌, Bool-cases, inl, inr, some, List, [],
  ◌∷◌, ◌++◌, append_assoc, if◌then◌else◌,
}
use limit_order_book_v.Domain.Text.{Bytes}
use limit_order_book_v.Domain.Float.{Float, of_ticks}
use limit_order_book_v.Domain.Order.{Result, Fault}
use limit_order_book_v.Domain.Pods.{OrderPod}
use limit_order_book_v.Engine.CoreEngine.Csv.{newline, lines_of}
use limit_order_book_v.Engine.CoreEngine.Reading.{plain, lines_of-line}
use limit_order_book_v.Engine.CoreEngine.Restart.{
  Restorable, restored, read_row-write_row, is_line-write_row, read_row-large_trader,
}
use limit_order_book_v.Engine.CoreEngine.Saving.{
  Row, write_row, write_orders, write_symbols, file_of, header, and_then, is_positive, load_lines,
  load_from_file,
}
use limit_order_book_v.Routing.OrderRouter.{OrderRouter, Call, returned, spun, thrown, load}

and_then-same :
    (c : Call) (f g : OrderRouter → Call)
    → ((r : OrderRouter) → f r ≡ g r)
    → and_then c f ≡ and_then c g
and_then-same (returned r) f g same = same r
and_then-same (spun r) f g same = refl
and_then-same (thrown fault r) f g same = refl

-- The orders that are not filled, as they are read back.
abbrev pub rows_of_orders : (ℕ → Float) → Bytes → List OrderPod → List Row
rows_of_orders price symbol [] = []
rows_of_orders price symbol (order ∷ orders) =
    let rest = rows_of_orders price symbol orders in
    if order.quantity == 0 then rest else restored symbol order (price order.price) ∷ rest

abbrev pub rows_of : (ℕ → Float) → List (Bytes × List OrderPod) → List Row
rows_of price [] = []
rows_of price ((symbol, orders) ∷ rest) = rows_of_orders price symbol orders ++ rows_of price rest

-- The rows are loaded one after the other, until one throws or spins.
abbrev pub load_rows : (Float → ℕ) → List Row → OrderRouter → Call
load_rows undefined [] r = returned r
load_rows undefined (row ∷ rows) r =
    and_then (load undefined row.timestamp row.request r) (load_rows undefined rows)

module _ (write_float : Float → Bytes) (read_float : Bytes → Result Float)
    (undefined : Float → ℕ) where
  module _ (price : ℕ → Float) where
    abbrev pub EachRestorable : Bytes → List OrderPod → Type 0
    EachRestorable symbol [] = Unit {0}
    EachRestorable symbol (order ∷ orders) =
        Restorable write_float read_float symbol order (price order.price)
        × EachRestorable symbol orders

    abbrev pub AllRestorable : List (Bytes × List OrderPod) → Type 0
    AllRestorable [] = Unit {0}
    AllRestorable ((symbol, orders) ∷ rest) = EachRestorable symbol orders × AllRestorable rest

  load_lines-orders :
      (price : ℕ → Float) (symbol : Bytes) (orders : List OrderPod) (rest : Bytes) (rows : List Row)
      → EachRestorable price symbol orders
      → ((r : OrderRouter)
          → load_lines read_float undefined (lines_of rest) r ≡ load_rows undefined rows r)
      → (r : OrderRouter)
      → load_lines read_float undefined
          (lines_of (write_orders write_float symbol orders ++ rest))
          r
        ≡ load_rows undefined (rows_of_orders price symbol orders ++ rows) r
  unfolding write_orders load_lines
  load_lines-orders price symbol [] rest rows h later r = later r
  load_lines-orders price symbol (order ∷ orders) rest rows (h, hs) later r =
      let below = load_lines-orders price symbol orders rest rows hs later in
      elim (Bool-cases (order.quantity == 0)) [
        | inl e ↦ rw e (below r)
        | inr f ↦
            let p = price order.price in
            let row = restored symbol order p in
            let line =
              is_line-write_row write_float read_float symbol order h.plain_symbol h.plain_price
                h.quantity in
            let positive : is_positive order.quantity ≡ true = ground (arith, h.quantity) in
            rw
              (
                f,
                append_assoc (write_row write_float symbol order)
                    (newline ∷ write_orders write_float symbol orders) rest,
                lines_of-line (write_row write_float symbol order)
                    (write_orders write_float symbol orders ++ rest) line,
                read_row-write_row write_float read_float symbol order p h,
                positive,
              )
              (and_then-same (load undefined row.timestamp row.request r)
                (load_lines read_float undefined
                  (lines_of (write_orders write_float symbol orders ++ rest)))
                (load_rows undefined (rows_of_orders price symbol orders ++ rows)) below)
      ]

  load_lines-symbols :
      (price : ℕ → Float) (all : List (Bytes × List OrderPod))
      → AllRestorable price all
      → (r : OrderRouter)
      → load_lines read_float undefined (lines_of (write_symbols write_float all)) r
        ≡ load_rows undefined (rows_of price all) r
  unfolding write_symbols load_lines lines_of
  load_lines-symbols price [] h r = refl
  load_lines-symbols price ((symbol, orders) ∷ rest) (h, hs) r =
      load_lines-orders price symbol orders (write_symbols write_float rest) (rows_of price rest) h
        (load_lines-symbols price rest hs) r

  -- A file that `SaveToFile` wrote loads every order that was not filled, symbol by symbol in the order
  -- in which they were written, with its own time, and with the price that the text of its price is
  -- read as, until one throws or spins; as long as no symbol and no price is written with a comma
  -- or a line break, every price is read, and the ids, traders and quantities are below `2 ^ 31`
  -- and the times below `2 ^ 63`.
  pub load_from_file-file_of :
      (price : ℕ → Float) (all : List (Bytes × List OrderPod))
      → AllRestorable price all
      → (r : OrderRouter)
      → load_from_file read_float undefined (some (file_of write_float all)) r
        ≡ load_rows undefined (rows_of price all) r
  unfolding load_from_file file_of
  load_from_file-file_of price all h r =
      rw (lines_of-line header (write_symbols write_float all) refl)
        (load_lines-symbols price all h r)

  -- When the trader of the first order that was written has an id of `2 ^ 31` or more, which is how a
  -- negative trader id is kept, loading the file throws and loads nothing; as long as that order is not
  -- filled, its id and quantity are below `2 ^ 31`, and its symbol and the text of its price
  -- have no comma and no line break.
  pub load_from_file-large_trader :
      (symbol : Bytes) (order : OrderPod) (orders : List OrderPod)
      (all : List (Bytes × List OrderPod)) (r : OrderRouter)
      → plain symbol ≡ true
      → plain (write_float (of_ticks order.price)) ≡ true
      → order.quantity ≢ 0
      → order.quantity < 2 ^ 31
      → order.order_id < 2 ^ 31
      → 2 ^ 31 ≤ order.trader_id
      → order.trader_id < 2 ^ 32
      → load_from_file read_float undefined
          (some (file_of write_float ((symbol, order ∷ orders) ∷ all)))
          r
        ≡ thrown Fault.out_of_range r
  unfolding load_from_file file_of write_symbols write_orders load_lines
  load_from_file-large_trader symbol order orders all r s p some_left few id lo hi =
      let line = is_line-write_row write_float read_float symbol order s p few in
      let left : order.quantity == 0 ≡ false = ground arith in
      let rest = write_orders write_float symbol orders in
      rw
        (
          lines_of-line header (write_symbols write_float ((symbol, order ∷ orders) ∷ all)) refl,
          left,
          append_assoc (write_row write_float symbol order) (newline ∷ rest)
              (write_symbols write_float all),
          lines_of-line (write_row write_float symbol order) (rest ++ write_symbols write_float all)
              line,
          read_row-large_trader write_float read_float symbol order id lo hi,
        )
        refl
