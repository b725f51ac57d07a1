-- ===== src/Networking/Protocol.antt =====
-- include/Networking/Protocol.h and src/Networking/Protocol.cpp: an order request as a frame of 20
-- bytes and its symbol.
pub mod RoundTrip
use limit_order_book_v.Prelude.{
  ℕ, ◌+◌, ◌*◌, ◌/◌, ◌%◌, ◌^◌, Option, none, some, List, [], ◌∷◌, ◌++◌, ltb, ◌==◌, if◌then◌else◌,
  length, get_or, take, drop,
}
use limit_order_book_v.Domain.Text.{Bytes, bytes, eq_bytes}
use limit_order_book_v.Domain.Float.{Float, to_ticks, of_ticks}
use limit_order_book_v.Domain.Pods.{OrderRequest}

unfoldable pub encode_uint32 : ℕ → Bytes
encode_uint32 x = x / 2 ^ 24 % 256 ∷ x / 2 ^ 16 % 256 ∷ x / 2 ^ 8 % 256 ∷ x % 256 ∷ []

-- The high half, then the low one.
unfoldable pub encode_uint64 : ℕ → Bytes
unfolding encode_uint32
encode_uint64 x = encode_uint32 (x / 2 ^ 32 % 2 ^ 32) ++ encode_uint32 (x % 2 ^ 32)

-- The length is cut to a byte, the characters are all written.
unfoldable pub encode_symbol : Bytes → Bytes
encode_symbol symbol = length symbol % 256 ∷ symbol

-- `if (s == name) byte = 0; else byte = 1;`
abbrev pub byte_of : Bytes → Bytes → ℕ
byte_of name s = if eq_bytes s name then 0 else 1

-- `undefined` is the cast of a price that C++ leaves undefined.
unfoldable pub encode : (Float → ℕ) → OrderRequest Float → Bytes
unfolding encode_uint64 encode_uint32 encode_symbol
encode undefined r =
    (byte_of (bytes "LIMIT") r.type ∷ byte_of (bytes "BUY") r.side ∷ [])
    ++ encode_uint64 (to_ticks undefined r.price)
    ++ encode_uint32 r.quantity
    ++ encode_uint32 r.trader_id
    ++ (byte_of (bytes "GTC") r.tif ∷ [])
    ++ encode_symbol r.symbol

-- The loops of `DecodeUint64` and `DecodeUint32`, from `x` on. After the shift the low byte is zero,
-- so `|=` adds.
unfoldable pub decode_uint64 : ℕ → Bytes → ℕ
decode_uint64 x [] = x
decode_uint64 x (b ∷ bs) = decode_uint64 (x * 256 % 2 ^ 64 + b) bs

unfoldable pub decode_uint32 : ℕ → Bytes → ℕ
decode_uint32 x [] = x
decode_uint32 x (b ∷ bs) = decode_uint32 (x * 256 % 2 ^ 32 + b) bs

unfoldable pub decode_symbol : Bytes → Option Bytes
decode_symbol [] = none
decode_symbol (size ∷ rest) =
    if ltb (length rest + 1) (size + 1) then none else some (take size rest)

-- The request of a frame, its symbol as decoded.
unfoldable pub request_of : Bytes → Option Bytes → Option (OrderRequest Float)
unfolding decode_uint64 decode_uint32
request_of frame none = none
request_of frame (some symbol) = some (record {
  price = of_ticks (decode_uint64 0 (take 8 (drop 2 frame)));
  quantity = decode_uint32 0 (take 4 (drop 10 frame));
  type = if get_or frame 0 0 == 0 then bytes "LIMIT" else bytes "MARKET";
  symbol = symbol;
  tif = if get_or frame 18 0 == 0 then bytes "GTC" else bytes "IOC";
  trader_id = decode_uint32 0 (take 4 (drop 14 frame));
  side = if get_or frame 1 0 == 0 then bytes "BUY" else bytes "SELL";
})

unfoldable pub decode : Bytes → Option (OrderRequest Float)
unfolding decode_symbol request_of
decode frame =
    if ltb (length frame) 20 then none else request_of frame (decode_symbol (drop 19 frame))
