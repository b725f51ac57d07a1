-- ===== src/UserInterface/OrderEntryPanel.antt =====
-- include/UI/OrderEntryPanel.h and src/UI/OrderEntryPanel.cpp: the state of the order form and what a frame
-- makes of it. What the widgets of ImGui make of the values that they edit is a parameter; drawing is left
-- out. An input field is taken to give no negative infinity.
pub mod Rendering
use limit_order_book_v.Prelude.{
  ℕ, ◌+◌, ◌^◌, Bool, true, false, ◌&&◌, ◌||◌, ltb, leb, if◌then◌else◌, List, [], ◌∷◌, get_or,
}
use limit_order_book_v.Domain.Text.{Bytes, bytes}
use limit_order_book_v.Domain.Float.{Float, negative, positive, infinite, not_a_number, of_ticks}
use limit_order_book_v.Domain.Order.{Order, Fault, Result, ok, throw, is_positive}
use limit_order_book_v.Routing.OrderRouter.{OrderRouter, Call, returned, spun, thrown}
use limit_order_book_v.Engine.CoreEngine.{create_order, get_best_asks, get_best_bids}

abbrev pub symbol_options : List Bytes
symbol_options =
    bytes "AAPL"
    ∷ bytes "NVDA"
    ∷ bytes "MSFT"
    ∷ bytes "GOOGL"
    ∷ bytes "AMZN"
    ∷ bytes "META"
    ∷ bytes "AVGO"
    ∷ bytes "MELI"
    ∷ bytes "ISRG"
    ∷ bytes "TSLA"
    ∷ []

abbrev pub tif_options : List Bytes
tif_options = bytes "GTC" ∷ bytes "IOC" ∷ bytes "FOK" ∷ []

abbrev pub type_options : List Bytes
type_options = bytes "LIMIT" ∷ bytes "MARKET" ∷ []

-- The fields of one side: `PriceBuy`, `QtyBuy`, `TifBuy`, `TypeBuy` and `PriceBuyInitialized_`, or those for
-- selling.
pub record Form : Type 0 where
  pub price : Float
  pub qty : ℕ
  pub tif : ℕ
  pub type : ℕ
  pub price_initialized : Bool

pub record OrderEntryPanel : Type 0 where
  pub symbol_index : ℕ
  pub buy : Form
  pub sell : Form
  pub exit : Bool

abbrev first_form : Form
first_form = record { price = positive 0; qty = 0; tif = 0; type = 0; price_initialized = false }

abbrev pub first_panel : OrderEntryPanel
first_panel = record { symbol_index = 0; buy = first_form; sell = first_form; exit = false }

abbrev pub get_selected_symbol : OrderEntryPanel → Bytes
get_selected_symbol p = get_or symbol_options p.symbol_index []

-- What the widgets of a side, and of a frame, make of the values.
pub record FormInput : Type 0 where
  pub price : Float → Float
  pub qty : ℕ → ℕ
  pub tif : ℕ → ℕ
  pub type : ℕ → ℕ
  pub button : Bool

pub record Input : Type 0 where
  pub symbol : ℕ → ℕ
  pub buy : FormInput
  pub sell : FormInput
  pub exit : Bool

-- `PriceBuy < 0` and `PriceBuy > 0.0f`.
abbrev pub below_zero : Float → Bool
below_zero (negative n) = ltb 0 n
below_zero _ = false

abbrev pub above_zero : Float → Bool
above_zero (positive n) = ltb 0 n
above_zero infinite = true
above_zero _ = false

abbrev pub best_price : List Order → Float
best_price [] = positive 0
best_price (order ∷ orders) = of_ticks order.price

abbrev pub clamp_price : Float → Float
clamp_price price = if below_zero price then positive 0 else price

-- A quantity is an `int`.
abbrev pub clamp_qty : ℕ → ℕ
clamp_qty qty = if leb (2 ^ 31) qty then 0 else qty

unfoldable pub enter : FormInput → Float → Form → Form
enter input best form = record {
  price = clamp_price (input.price (if form.price_initialized then form.price else best));
  qty = clamp_qty (input.qty form.qty);
  tif = input.tif form.tif;
  type = input.type form.type;
  price_initialized = true;
}

module _ (undefined : Float → ℕ) (now : ℕ → ℕ) where
  -- The button of a side, whose trader is 1.
  unfoldable pub submit : ℕ → Bool → (side symbol : Bytes) → Form → OrderRouter → Call
  unfolding create_order
  submit reading button side symbol form r =
      if button && (above_zero form.price && is_positive form.qty)
      then create_order undefined (now reading) form.price form.qty
          (get_or type_options form.type []) symbol (get_or tif_options form.tif []) 1 side r
      else returned r

  -- What a frame leaves: the panel and the engine, an exception that nothing catches, or a push that spins.
  pub data Frame : Type 0 where
    drawn : OrderEntryPanel → OrderRouter → Frame
    failed : Fault → Frame
    stuck : Frame

  abbrev pub after_call : Call → (OrderRouter → Frame) → Frame
  after_call (returned r) next = next r
  after_call (spun r) next = stuck
  after_call (thrown fault r) next = failed fault

  abbrev pub after_query : {A : Type 0} → Result A → (A → Frame) → Frame
  after_query (ok a) next = next a
  after_query (throw fault) next = failed fault

  unfoldable pub render : Input → OrderEntryPanel → OrderRouter → Frame
  unfolding enter submit get_best_asks get_best_bids
  render input p r =
      let index = input.symbol p.symbol_index in
      let symbol = get_or symbol_options index [] in
      after_query (get_best_asks 1 symbol r) λ asks. after_query (get_best_bids 1 symbol r) λ bids.
        let buy = enter input.buy (best_price asks) p.buy in
        after_call (submit 0 input.buy.button (bytes "BUY") symbol buy r) λ r'.
          let sell = enter input.sell (best_price bids) p.sell in
          after_call (submit 1 input.sell.button (bytes "SELL") symbol sell r') λ r''.
            drawn
              (record { symbol_index = index; buy = buy; sell = sell; exit = input.exit || p.exit })
              r''
