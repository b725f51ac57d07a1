-- ===== src/Networking/TcpServer/Delivery.antt =====
-- What the engine is given of the requests that a client sends.
use limit_order_book_v.Prelude.{
  ℕ, zero, suc, ◌+◌, ◌^◌, ◌≤◌, ◌<◌, ◌≡◌, refl, true, arith, List, [], ◌∷◌, ◌++◌, map, length,
  length-append, take-length_append, drop-length_append,
}
use limit_order_book_v.Domain.Text.{Bytes}
use limit_order_book_v.Domain.Float.{Float}
use limit_order_book_v.Domain.Pods.{OrderRequest}
use limit_order_book_v.Networking.Protocol.{encode}
use limit_order_book_v.Networking.Protocol.RoundTrip.{as_sent, decode-encode}
use limit_order_book_v.Networking.TcpServer.{
  frame_size, has_frame, drain, receive, handle_connection, opened,
}
use limit_order_book_v.Networking.TcpServer.Framing.{AllReceived, concat, handle_connection-concat}

-- The numbers and the symbol fit in a frame.
pub record IsSendable (r : OrderRequest Float) : Type 0 where
  pub quantity : r.quantity < 2 ^ 32
  pub trader_id : r.trader_id < 2 ^ 32
  pub symbol : length r.symbol < 256

abbrev pub AllSendable : List (OrderRequest Float) → Type 0
AllSendable [] = Unit {0}
AllSendable (r ∷ rs) = IsSendable r × AllSendable rs

module _ (undefined : Float → ℕ) where
  length-encode : (r : OrderRequest Float) → length (encode undefined r) ≡ 20 + length r.symbol
  unfolding encode
  length-encode r = omega arith

  frame_size-encode :
      (r : OrderRequest Float) (rest : Bytes)
      → IsSendable r
      → frame_size (encode undefined r ++ rest) ≡ length (encode undefined r)
  unfolding encode frame_size
  frame_size-encode r rest s = omega (arith, s.symbol)

  has_frame-encode :
      (r : OrderRequest Float) (rest : Bytes)
      → IsSendable r
      → has_frame (encode undefined r ++ rest) ≡ true
  has_frame-encode r rest s =
      ground (
        arith,
        frame_size-encode r rest s,
        length-encode r,
        length-append (encode undefined r) rest,
      )

  abbrev pub wire : List (OrderRequest Float) → Bytes
  wire [] = []
  wire (r ∷ rs) = encode undefined r ++ wire rs

  drain-wire :
      (n : ℕ) (rs : List (OrderRequest Float))
      → AllSendable rs
      → length (wire rs) ≤ n
      → drain n (wire rs) ≡ (map (as_sent undefined) rs, [])
  unfolding drain
  drain-wire zero [] s h = refl
  drain-wire (suc n) [] s h = refl
  drain-wire zero (r ∷ rs) (s, ss) h =
      absurd (omega (arith, length-encode r, length-append (encode undefined r) (wire rs)))
  drain-wire (suc n) (r ∷ rs) (s, ss) h =
      rw
        (
          has_frame-encode r (wire rs) s,
          frame_size-encode r (wire rs) s,
          take-length_append (encode undefined r) (wire rs),
          drop-length_append (encode undefined r) (wire rs),
          decode-encode undefined r s.quantity s.trader_id s.symbol,
          drain-wire n rs ss
              (omega (arith, length-encode r, length-append (encode undefined r) (wire rs))),
        )
        refl

  -- When requests that fit in frames are sent one after another and arrive in chunks, none of them
  -- empty and cut anywhere, the engine is asked to create exactly these requests, as the protocol
  -- carries them, in their order, and no byte is left over.
  pub handle_connection-wire :
      (rs : List (OrderRequest Float)) (chunks : List Bytes)
      → AllSendable rs
      → AllReceived chunks
      → concat chunks ≡ wire rs
      → handle_connection opened chunks
        ≡ record { buffer = []; requests = map (as_sent undefined) rs }
  unfolding opened receive
  handle_connection-wire rs chunks s a e =
      rw (handle_connection-concat chunks a, e, drain-wire (length (wire rs)) rs s (omega arith))
        refl
