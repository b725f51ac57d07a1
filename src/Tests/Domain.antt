-- ===== src/Tests/Domain.antt =====
-- Examples for src/Domain and include/Domain.
use limit_order_book_v.Prelude.{ℕ, ◌≡◌, refl, [], ◌∷◌, ◌++◌, arith, recent}
use limit_order_book_v.Domain.TradeHistory
use limit_order_book_v.Domain.TradeHistory.{TradeHistory, snapshot, push, push_all}
use limit_order_book_v.Domain.TradeHistory.Refines.{
  IsValid, init-IsValid, push-IsValid, snapshot-push_all,
}

-- A history of capacity 3 that holds one trade.
abbrev one_trade : TradeHistory ℕ
one_trade = push (TradeHistory.init 0 3) 7

one_trade-IsValid : IsValid one_trade
one_trade-IsValid = push-IsValid 7 (init-IsValid 0 3 (omega arith))

-- Four trades in three places: the oldest is overwritten.
five_pushes : snapshot (push_all one_trade (1 ∷ 2 ∷ 3 ∷ [])) ≡ 1 ∷ 2 ∷ 3 ∷ []
unfolding snapshot push_all push TradeHistory.init TradeHistory.copy_from
    limit_order_book_v.Prelude.write
five_pushes = refl

snapshot-push_all_example :
    snapshot (push_all one_trade (1 ∷ 2 ∷ 3 ∷ [])) ≡ recent 3 (snapshot one_trade ++ 1 ∷ 2 ∷ 3 ∷ [])
unfolding push TradeHistory.init
snapshot-push_all_example = snapshot-push_all (1 ∷ 2 ∷ 3 ∷ []) one_trade-IsValid

push-IsValid_example : IsValid (push one_trade 9)
push-IsValid_example = push-IsValid 9 one_trade-IsValid
