-- ===== src/UserInterface/OrderEntryPanel/Rendering.antt =====
-- A frame of the order form of src/UI/OrderEntryPanel.cpp sends only orders that the engine takes.
use limit_order_book_v.Prelude.{
  ℕ, zero, suc, ◌^◌, ◌<◌, ◌≡◌, refl, arith, Bool, Bool-cases, false, ◌&&◌, inl, inr, List, [],
  get_or, if◌then◌else◌,
}
use limit_order_book_v.Domain.Text.{Bytes, bytes, eq_bytes}
use limit_order_book_v.Domain.Float.{Float, negative, positive, infinite, not_a_number}
use limit_order_book_v.Domain.Order.{
  Order, OrderSide, OrderType, TimeInForce, ok, to_order_side, to_order_type, to_time_in_force,
  is_positive,
}
use limit_order_book_v.Domain.Pods.{OrderRequest}
use limit_order_book_v.Engine.CoreEngine.{create_order, get_best_asks, get_best_bids}
use limit_order_book_v.Routing.OrderRouter.{OrderRouter, Call, returned, spun, thrown}
use limit_order_book_v.Routing.OrderRouter.Registry
use limit_order_book_v.Routing.OrderRouter.Accepts.{
  Accepted, Ready, IsValid-Ready, route-Accepted, make_pod-known,
}
use limit_order_book_v.UserInterface.OrderEntryPanel.{
  symbol_options, tif_options, type_options, Form, OrderEntryPanel, FormInput, Input, below_zero,
  above_zero, clamp_price, best_price, enter, submit, Frame, drawn, failed, stuck, after_call,
  render,
}

-- The choices of a side are among the options, and its price and quantity are not negative.
pub record FormIsValid (f : Form) : Type 0 where
  pub tif : f.tif < 3
  pub type : f.type < 2
  pub price : below_zero f.price ≡ false
  pub qty : f.qty < 2 ^ 31

pub record IsValid (p : OrderEntryPanel) : Type 0 where
  pub symbol : p.symbol_index < 10
  pub buy : FormIsValid p.buy
  pub sell : FormIsValid p.sell

-- A combo box leaves a choice among its options.
pub record FormKeeps (i : FormInput) : Type 0 where
  pub tif : (n : ℕ) → n < 3 → i.tif n < 3
  pub type : (n : ℕ) → n < 2 → i.type n < 2

pub record Keeps (i : Input) : Type 0 where
  pub symbol : (n : ℕ) → n < 10 → i.symbol n < 10
  pub buy : FormKeeps i.buy
  pub sell : FormKeeps i.sell

tif_known :
    (i : ℕ) → i < 3 → (t : TimeInForce) × (to_time_in_force (get_or tif_options i []) ≡ ok t)
unfolding to_time_in_force eq_bytes
tif_known zero h = (_, refl)
tif_known (suc zero) h = (_, refl)
tif_known (suc (suc zero)) h = (_, refl)
tif_known (suc (suc (suc i))) h = absurd (omega arith)

type_known : (i : ℕ) → i < 2 → (t : OrderType) × (to_order_type (get_or type_options i []) ≡ ok t)
unfolding to_order_type eq_bytes
type_known zero h = (_, refl)
type_known (suc zero) h = (_, refl)
type_known (suc (suc i)) h = absurd (omega arith)

clamp_price-below_zero : (p : Float) → below_zero (clamp_price p) ≡ false
clamp_price-below_zero (negative n) = elim (Bool-cases (below_zero (negative n))) [
  | inl e ↦ rw e refl
  | inr e ↦ rw e e
]
clamp_price-below_zero (positive n) = refl
clamp_price-below_zero infinite = refl
clamp_price-below_zero not_a_number = refl

enter-FormIsValid :
    (i : FormInput) (best : Float) (f : Form)
    → FormKeeps i
    → FormIsValid f
    → FormIsValid (enter i best f)
unfolding enter
enter-FormIsValid i best f k v = record {
  tif = k.tif f.tif v.tif;
  type = k.type f.type v.type;
  price = clamp_price-below_zero (i.price (if f.price_initialized then f.price else best));
  qty = ground arith;
}

-- A call that does not throw, after which the symbol can be used again.
abbrev Fine : Bytes → Call → Type 0
Fine symbol (returned r) = Ready symbol r
Fine symbol (spun r) = Unit {0}
Fine symbol (thrown fault r) = ⊥

Accepted-Fine : (symbol : Bytes) (c : Call) → Accepted symbol c → Fine symbol c
Accepted-Fine symbol (returned r) known = inr known
Accepted-Fine symbol (spun r) a = tt
Accepted-Fine symbol (thrown fault r) a = a

module _ (undefined : Float → ℕ) (now : ℕ → ℕ) where
  submit-Fine :
      (reading : ℕ) (button : Bool) (side symbol : Bytes) (f : Form) (r : OrderRouter)
      {s : OrderSide}
      → to_order_side side ≡ ok s
      → FormIsValid f
      → Ready symbol r
      → Fine symbol (submit undefined now reading button side symbol f r)
  unfolding submit create_order
  submit-Fine reading button side symbol f r known v ready =
      let request : OrderRequest Float = record {
        price = f.price;
        quantity = f.qty;
        type = get_or type_options f.type [];
        symbol = symbol;
        tif = get_or tif_options f.tif [];
        trader_id = 1;
        side = side;
      } in
      elim (Bool-cases (button && (above_zero f.price && is_positive f.qty))) [
        | inr e ↦ rw e ready
        | inl e ↦ rw e (
            Accepted-Fine symbol _ (
              route-Accepted undefined (now reading) request
                (λ id.
                  make_pod-known undefined (now reading) id request known
                    (type_known f.type v.type).1 (tif_known f.tif v.tif).1)
                r ready))
      ]

  -- What a frame must leave: a valid panel, and no exception.
  abbrev pub Drawn : Frame undefined now → Type 0
  Drawn (drawn p r) = IsValid p
  Drawn (failed fault) = ⊥
  Drawn stuck = Unit {0}

  after_call-Drawn :
      (symbol : Bytes) (c : Call) (next : OrderRouter → Frame undefined now)
      → Fine symbol c
      → ((r : OrderRouter) → Ready symbol r → Drawn (next r))
      → Drawn (after_call undefined now c next)
  after_call-Drawn symbol (returned r) next fine more = more r fine
  after_call-Drawn symbol (spun r) next fine more = tt
  after_call-Drawn symbol (thrown fault r) next fine more = fine

  -- A frame of a valid panel, in which the combo boxes leave choices among their options, in a valid
  -- registry, and for a symbol whose best orders can be asked for: whatever the user enters and
  -- whichever buttons are pressed, no exception leaves it, and unless a push spins the panel is valid again:
  -- its choices are among the options and its prices and quantities are not negative.
  pub render-Drawn :
      (i : Input) (p : OrderEntryPanel) (r : OrderRouter) (asks bids : List Order)
      → Keeps i
      → IsValid p
      → Registry.IsValid r
      → get_best_asks 1 (get_or symbol_options (i.symbol p.symbol_index) []) r ≡ ok asks
      → get_best_bids 1 (get_or symbol_options (i.symbol p.symbol_index) []) r ≡ ok bids
      → Drawn (render undefined now i p r)
  unfolding render to_order_side eq_bytes
  render-Drawn i p r asks bids k v registry a b =
      let symbol = get_or symbol_options (i.symbol p.symbol_index) [] in
      let buy = enter-FormIsValid i.buy (best_price asks) p.buy k.buy v.buy in
      let sell = enter-FormIsValid i.sell (best_price bids) p.sell k.sell v.sell in
      rw (a, b)
        (after_call-Drawn symbol _ _
          (submit-Fine 0 i.buy.button (bytes "BUY") symbol _ r refl buy
            (IsValid-Ready symbol r registry))
          (λ r' ready.
            after_call-Drawn symbol _ _
              (submit-Fine 1 i.sell.button (bytes "SELL") symbol _ r' refl sell ready)
              (λ r'' ready'. record {
                symbol = k.symbol p.symbol_index v.symbol;
                buy = buy;
                sell = sell;
              })))
