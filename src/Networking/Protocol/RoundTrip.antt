-- ===== src/Networking/Protocol/RoundTrip.antt =====
-- What a request is after it has been encoded and decoded.
use limit_order_book_v.Prelude.{
  ℕ, ◌%◌, ◌^◌, ◌<◌, ◌≡◌, Bool, refl, ap, arith, false, ◌⊎◌, inl, inr, some, ◌∷◌, [], le→ltb, ◌==◌,
  if◌then◌else◌, length, take,
}
use limit_order_book_v.Domain.Text.{Bytes, bytes, eq_bytes, eq_bytes_refl}
use limit_order_book_v.Domain.Float.{Float, to_ticks, of_ticks}
use limit_order_book_v.Domain.Pods.{OrderRequest}
use limit_order_book_v.Networking.Protocol.{
  encode_uint32, encode_uint64, encode_symbol, encode, decode_uint64, decode_uint32, decode_symbol,
  request_of, decode,
}

pub decode-encode_uint32 : (x : ℕ) → x < 2 ^ 32 → decode_uint32 0 (encode_uint32 x) ≡ x
unfolding decode_uint32 encode_uint32
decode-encode_uint32 x h = omega arith

pub decode-encode_uint64 : (x : ℕ) → x < 2 ^ 64 → decode_uint64 0 (encode_uint64 x) ≡ x
unfolding decode_uint64 encode_uint64 encode_uint32
decode-encode_uint64 x h = omega arith

to_ticks-lt : (undefined : Float → ℕ) (p : Float) → to_ticks undefined p < 2 ^ 64
unfolding to_ticks
to_ticks-lt undefined (Float.positive n) = ground arith
to_ticks-lt undefined (Float.negative n) = ground arith
to_ticks-lt undefined Float.infinite = ground arith
to_ticks-lt undefined Float.not_a_number = ground arith

take-length : (s : Bytes) → take (length s) s ≡ s
take-length [] = refl
take-length (c ∷ s) = ap (◌∷◌ c) (take-length s)

pub decode-encode_symbol : (s : Bytes) → length s < 256 → decode_symbol (encode_symbol s) ≡ some s
unfolding decode_symbol encode_symbol
decode-encode_symbol s h =
    let e : length s % 256 ≡ length s = omega arith in
    ground (arith, ap (λ n. take n s) e, take-length s)

-- What the receiver makes of a request: the price to whole ticks and back, the names to those that
-- the protocol knows.
unfoldable pub as_sent : (Float → ℕ) → OrderRequest Float → OrderRequest Float
as_sent undefined r = record r {
  price = of_ticks (to_ticks undefined r.price);
  type = if eq_bytes r.type (bytes "LIMIT") then bytes "LIMIT" else bytes "MARKET";
  tif = if eq_bytes r.tif (bytes "GTC") then bytes "GTC" else bytes "IOC";
  side = if eq_bytes r.side (bytes "BUY") then bytes "BUY" else bytes "SELL";
}

byte_lem :
    (b : Bool) (x y : Bytes) → (if (if b then 0 else 1) == 0 then x else y) ≡ (if b then x else y)
byte_lem b x y = ground arith

-- A request whose numbers fit in 32 bits and whose symbol is shorter than 256 bytes is decoded from
-- its encoding with its price in whole ticks, every type but LIMIT as MARKET, every time in force but
-- GTC as IOC and every side but BUY as SELL.
pub decode-encode :
    (undefined : Float → ℕ) (r : OrderRequest Float)
    → r.quantity < 2 ^ 32
    → r.trader_id < 2 ^ 32
    → length r.symbol < 256
    → decode (encode undefined r) ≡ some (as_sent undefined r)
unfolding decode encode as_sent request_of
decode-encode undefined r q t s =
    let wide = le→ltb (length (encode undefined r)) 20 (omega arith) in
    rw
      (
        decode-encode_symbol r.symbol s,
        wide,
        decode-encode_uint64 (to_ticks undefined r.price) (to_ticks-lt undefined r.price),
        decode-encode_uint32 r.quantity q,
        decode-encode_uint32 r.trader_id t,
        byte_lem (eq_bytes r.type (bytes "LIMIT")),
        byte_lem (eq_bytes r.tif (bytes "GTC")),
        byte_lem (eq_bytes r.side (bytes "BUY")),
      )
      refl

-- A request that the protocol has bytes for.
pub record IsCarried (r : OrderRequest Float) : Type 0 where
  pub quantity : r.quantity < 2 ^ 32
  pub trader_id : r.trader_id < 2 ^ 32
  pub symbol : length r.symbol < 256
  pub type : (r.type ≡ bytes "LIMIT") ⊎ (r.type ≡ bytes "MARKET")
  pub side : (r.side ≡ bytes "BUY") ⊎ (r.side ≡ bytes "SELL")
  pub tif : (r.tif ≡ bytes "GTC") ⊎ (r.tif ≡ bytes "IOC")

-- The sender's test of a name and the receiver's choice give back one of the two names.
name_lem :
    (a b : Bytes) {s : Bytes}
    → eq_bytes b a ≡ false
    → (s ≡ a) ⊎ (s ≡ b)
    → (if eq_bytes s a then a else b) ≡ s
name_lem a b ne (inl e) = rw (e, eq_bytes_refl a) refl
name_lem a b ne (inr e) = rw (e, ne) refl

market_name : eq_bytes (bytes "MARKET") (bytes "LIMIT") ≡ false
unfolding eq_bytes
market_name = refl

sell_name : eq_bytes (bytes "SELL") (bytes "BUY") ≡ false
unfolding eq_bytes
sell_name = refl

ioc_name : eq_bytes (bytes "IOC") (bytes "GTC") ≡ false
unfolding eq_bytes
ioc_name = refl

-- A LIMIT or MARKET request to BUY or SELL, GTC or IOC, whose numbers fit in 32 bits and whose symbol
-- is shorter than 256 bytes is decoded from its encoding as the same request, field by field, but for
-- the price: it is the price of the ticks that the conversion of `Encode` cut the sent price to.
pub decode-encode_carried :
    (undefined : Float → ℕ) (r : OrderRequest Float)
    → IsCarried r
    → decode (encode undefined r)
      ≡ some (record r { price = of_ticks (to_ticks undefined r.price) })
unfolding as_sent
decode-encode_carried undefined r c =
    rw
      (
        decode-encode undefined r c.quantity c.trader_id c.symbol,
        name_lem (bytes "LIMIT") (bytes "MARKET") market_name c.type,
        name_lem (bytes "BUY") (bytes "SELL") sell_name c.side,
        name_lem (bytes "GTC") (bytes "IOC") ioc_name c.tif,
      )
      refl
