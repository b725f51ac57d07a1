-- ===== src/Concurrency/ClientSimulator.antt =====
-- include/Concurrency/ClientSimulator.h and src/Concurrency/ClientSimulator.cpp: a client that sends random
-- orders until it is stopped. The draws of the random generator are a parameter.
pub mod Running
use limit_order_book_v.Prelude.{ℕ, ◌+◌, ◌≡◌, List, [], ◌∷◌, ◌==◌, Bool, true, false, if◌then◌else◌}
use limit_order_book_v.Domain.Text.{Bytes, bytes}
use limit_order_book_v.Domain.Float.{Float}
use limit_order_book_v.Routing.OrderRouter.{OrderRouter, Call, returned}
use limit_order_book_v.Engine.CoreEngine.{create_order}
use limit_order_book_v.Engine.CoreEngine.Saving.{and_then}

-- What a round of the loop draws.
pub record Draw : Type 0 where
  pub price : Float
  pub quantity : ℕ
  pub side : ℕ

pub record ClientSimulator : Type 0 where
  pub client_id : ℕ
  pub running : Bool

abbrev pub made : ℕ → ClientSimulator
made client_id = record { client_id = client_id; running = true }

unfoldable pub stop : ClientSimulator → ClientSimulator
stop c = record c { running = false }

abbrev pub side_of : ℕ → Bytes
side_of n = if n == 0 then bytes "BUY" else bytes "SELL"

module _ (undefined : Float → ℕ) (now : ℕ → ℕ) where
  unfoldable pub send : ℕ → ClientSimulator → Draw → OrderRouter → Call
  unfolding create_order
  send round c draw =
      create_order undefined (now round) draw.price draw.quantity (bytes "LIMIT") (bytes "AAPL")
        (bytes "GTC") c.client_id (side_of draw.side)

  -- The rounds that the loop makes before it reads that it is stopped, one for each draw.
  unfoldable pub run : ℕ → ClientSimulator → List Draw → OrderRouter → Call
  unfolding send
  run round c [] r = returned r
  run round c (draw ∷ draws) r = and_then (send round c draw r) (run (round + 1) c draws)
