-- ===== src/Tests/Panel.antt =====
-- An example for src/UI/OrderEntryPanel.cpp.
use limit_order_book_v.Prelude.{ℕ, refl, arith, true, false, []}
use limit_order_book_v.Domain.Float.{Float, of_ticks}
use limit_order_book_v.Engine.CoreEngine.{get_best_asks, get_best_bids}
use limit_order_book_v.UserInterface.OrderEntryPanel.{FormInput, Input, first_panel, render}
use limit_order_book_v.UserInterface.OrderEntryPanel.Rendering.{
  FormIsValid, IsValid, FormKeeps, Keeps, Drawn, render-Drawn,
}
use limit_order_book_v.Routing.OrderRouter
use limit_order_book_v.Routing.OrderRouter.Registry.{init-IsValid}

abbrev undefined : Float → ℕ
undefined p = 0

abbrev clock : ℕ → ℕ
clock reading = reading

-- A price of 1.50, a quantity of 20, IOC and LIMIT are entered.
abbrev entered : FormInput
entered = record {
  price = λ p. of_ticks 150;
  qty = λ q. 20;
  tif = λ n. 1;
  type = λ n. 0;
  button = true;
}

-- For NVDA, with both buttons pressed.
abbrev pressed : Input
pressed = record { symbol = λ n. 1; buy = entered; sell = entered; exit = false }

entered-FormKeeps : FormKeeps entered
entered-FormKeeps = record { tif = λ n h. omega arith; type = λ n h. omega arith }

pressed-Keeps : Keeps pressed
pressed-Keeps = record {
  symbol = λ n h. omega arith;
  buy = entered-FormKeeps;
  sell = entered-FormKeeps;
}

first_form-FormIsValid : FormIsValid first_panel.buy
first_form-FormIsValid = record {
  tif = omega arith;
  type = omega arith;
  price = refl;
  qty = omega arith;
}

first_panel-IsValid : IsValid first_panel
first_panel-IsValid = record {
  symbol = omega arith;
  buy = first_form-FormIsValid;
  sell = first_form-FormIsValid;
}

render-Drawn_example :
    Drawn undefined clock (render undefined clock pressed first_panel OrderRouter.init)
unfolding get_best_asks get_best_bids OrderRouter.get_asks OrderRouter.get_bids
    OrderRouter.check_symbol_id OrderRouter.find OrderRouter.init
render-Drawn_example =
    render-Drawn undefined clock pressed first_panel OrderRouter.init [] [] pressed-Keeps
      first_panel-IsValid init-IsValid refl refl
