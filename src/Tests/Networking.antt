-- ===== src/Tests/Networking.antt =====
-- Examples for src/Networking and include/Networking.
use limit_order_book_v.Prelude.{sym, ◌*◌, ◌^◌, ℕ, ◌≡◌, refl, arith, some, inl, inr, List, [], ◌∷◌}
use limit_order_book_v.Domain.Text.{Bytes, bytes, eq_bytes}
use limit_order_book_v.Prelude.Bits.{leading_zeros}
use limit_order_book_v.Domain.Float.{Float, positive, to_ticks, of_ticks, round, nearest, width}
use limit_order_book_v.Domain.Pods.{OrderRequest}
use limit_order_book_v.Networking.Protocol.{encode, decode}
use limit_order_book_v.Networking.Protocol.RoundTrip.{as_sent, IsCarried, decode-encode_carried}
use limit_order_book_v.Networking.TcpServer.{handle_connection, receive, opened}
use limit_order_book_v.Networking.TcpServer.Framing.{concat, handle_connection-concat}
use limit_order_book_v.Networking.TcpServer.Delivery.{handle_connection-wire}

abbrev undefined : Float → ℕ
undefined p = 0

-- Two shares at 1.5, good till cancelled.
abbrev request : OrderRequest Float
request = record {
  price = positive (3 * 2 ^ 148);
  quantity = 2;
  type = bytes "LIMIT";
  symbol = bytes "AB";
  tif = bytes "GTC";
  trader_id = 7;
  side = bytes "SELL";
}

abbrev frame : Bytes
frame =
    0 ∷ 1 ∷ 0 ∷ 0 ∷ 0 ∷ 0 ∷ 0 ∷ 0 ∷ 0 ∷ 150 ∷ 0 ∷ 0 ∷ 0 ∷ 2 ∷ 0 ∷ 0 ∷ 0 ∷ 7 ∷ 0 ∷ 2 ∷ 65 ∷ 66 ∷ []

frame_bytes : encode undefined request ≡ frame
unfolding encode to_ticks eq_bytes leading_zeros
frame_bytes = refl

request-IsCarried : IsCarried request
request-IsCarried = record {
  quantity = omega arith;
  trader_id = omega arith;
  symbol = omega arith;
  type = inl refl;
  side = inr refl;
  tif = inl refl;
}

decode-encode_carried_example : decode (encode undefined request) ≡ some request
unfolding of_ticks to_ticks round nearest width leading_zeros
decode-encode_carried_example = decode-encode_carried undefined request request-IsCarried

-- The frame comes in two chunks.
abbrev chunks : List Bytes
chunks =
    (0 ∷ 1 ∷ 0 ∷ 0 ∷ 0 ∷ 0 ∷ 0 ∷ 0 ∷ 0 ∷ 150 ∷ 0 ∷ 0 ∷ 0 ∷ 2 ∷ [])
    ∷ (0 ∷ 0 ∷ 0 ∷ 7 ∷ 0 ∷ 2 ∷ 65 ∷ 66 ∷ [])
    ∷ []

handle_connection-concat_example : handle_connection opened chunks ≡ receive opened (concat chunks)
handle_connection-concat_example = handle_connection-concat chunks (omega arith, (omega arith, tt))

handle_connection-wire_example :
    handle_connection opened chunks
    ≡ record { buffer = []; requests = as_sent undefined request ∷ [] }
unfolding encode
handle_connection-wire_example =
    handle_connection-wire undefined (request ∷ []) chunks
      (record { quantity = omega arith; trader_id = omega arith; symbol = omega arith }, tt)
      (omega arith, (omega arith, tt)) (sym frame_bytes)
