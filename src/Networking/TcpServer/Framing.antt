-- ===== src/Networking/TcpServer/Framing.antt =====
-- How a connection's bytes are divided among the chunks does not matter.
use limit_order_book_v.Prelude.{
  ℕ, zero, suc, ◌+◌, ◌≤◌, ◌<◌, ◌≡◌, refl, arith, Bool-cases, inl, inr, true, ap, List, [], ◌∷◌,
  ◌++◌, length, drop, length-append, length-drop, take-append_le, drop-append_le, get_or-append_lt,
  append_assoc, append-nil,
}
use limit_order_book_v.Domain.Text.{Bytes}
use limit_order_book_v.Domain.Float.{Float}
use limit_order_book_v.Domain.Pods.{OrderRequest}
use limit_order_book_v.Networking.TcpServer.{
  Connection, frame_size, has_frame, drain, receive, handle_connection, opened,
}

-- A frame takes bytes.
shorter :
    (b : Bytes) (n : ℕ) → has_frame b ≡ true → length b ≤ suc n → length (drop (frame_size b) b) ≤ n
unfolding frame_size
shorter b n e h = ground (arith, length-drop (frame_size b) b)

frame_size-append : (b c : Bytes) → 20 ≤ length b → frame_size (b ++ c) ≡ frame_size b
unfolding frame_size
frame_size-append b c h = ap (λ k. 20 + k) (get_or-append_lt b c 19 0 (omega arith))

has_frame-append : (b c : Bytes) → has_frame b ≡ true → has_frame (b ++ c) ≡ true
has_frame-append b c e = ground (arith, frame_size-append b c, length-append b c)

-- More rounds than the buffer has bytes change nothing.
drain_fuel : (m n : ℕ) (b : Bytes) → length b ≤ m → length b ≤ n → drain m b ≡ drain n b
unfolding drain
drain_fuel zero zero b h k = refl
drain_fuel zero (suc n) b h k = ground arith
drain_fuel (suc m) zero b h k = ground arith
drain_fuel (suc m) (suc n) b h k = elim (Bool-cases (has_frame b)) [
  | inr e ↦ rw e refl
  | inl e ↦ rw (e, drain_fuel m n (drop (frame_size b) b) (shorter b m e h) (shorter b n e k)) refl
]

module _ (c : Bytes) where
  -- What is left of a buffer is drained with the bytes that come next.
  abbrev drain_more : ℕ → List (OrderRequest Float) × Bytes → List (OrderRequest Float) × Bytes
  drain_more k (requests, left) = let (more, rest) = drain k (left ++ c) in (requests ++ more, rest)

  -- A round on a buffer that has a frame, whatever follows it.
  drain_round :
      (m n k : ℕ) (b : Bytes)
      → has_frame b ≡ true
      → drain n (drop (frame_size b) b ++ c) ≡ drain_more k (drain m (drop (frame_size b) b))
      → drain (suc n) (b ++ c) ≡ drain_more k (drain (suc m) b)
  unfolding drain
  drain_round m n k b e ih =
      let long : frame_size b ≤ length b = ground arith in
      let base : 20 ≤ length b = ground arith in
      rw
        (
          e,
          has_frame-append b c e,
          frame_size-append b c base,
          take-append_le (frame_size b) b c long,
          drop-append_le (frame_size b) b c long,
          ih,
          append_assoc,
        )
        refl

  left_shorter :
      (b : Bytes) (n : ℕ)
      → has_frame b ≡ true
      → length (b ++ c) ≤ suc n
      → length (drop (frame_size b) b ++ c) ≤ n
  unfolding frame_size
  left_shorter b n e i = ground (
    arith,
    length-append b c,
    length-append (drop (frame_size b) b) c,
    length-drop (frame_size b) b,
  )

  drain-append :
      (m n k : ℕ) (b : Bytes)
      → length b ≤ m
      → length (b ++ c) ≤ n
      → length (b ++ c) ≤ k
      → drain n (b ++ c) ≡ drain_more k (drain m b)
  unfolding drain
  drain-append zero n k b h i j = drain_fuel n k (b ++ c) i j
  drain-append (suc m) zero k b h i j = elim (Bool-cases (has_frame b)) [
    | inr e ↦ rw e (drain_fuel zero k (b ++ c) i j)
    | inl e ↦ absurd (ground (arith, length-append b c))
  ]
  drain-append (suc m) (suc n) k b h i j = elim (Bool-cases (has_frame b)) [
    | inr e ↦ rw e (drain_fuel (suc n) k (b ++ c) i j)
    | inl e ↦ drain_round m n k b e (
        drain-append m n k (drop (frame_size b) b) (shorter b m e h) (left_shorter b n e i)
          (left_shorter b k e (omega arith)))
  ]

-- The bytes that stay are no more than there were.
left-le : (m : ℕ) (b : Bytes) → length (drain m b).1 ≤ length b
unfolding drain
left-le zero b = omega arith
left-le (suc m) b =
    let ih = left-le m (drop (frame_size b) b) in ground (arith, length-drop (frame_size b) b)

-- Bytes received in two parts are as good as in one.
receive-receive : (x : Connection) (b c : Bytes) → receive (receive x b) c ≡ receive x (b ++ c)
unfolding receive
receive-receive x b c =
    let whole = x.buffer ++ b in
    let (requests, left) = drain (length whole) whole in
    let k = length (whole ++ c) in
    let split = drain-append c (length whole) k k whole (omega arith) (omega arith) (omega arith) in
    let fewer =
      drain_fuel k (length (left ++ c)) (left ++ c)
        (omega (arith, length-append left c, length-append whole c, left-le (length whole) whole))
        (omega arith) in
    rw (← append_assoc x.buffer b c, split, fewer, append_assoc x.requests requests) refl

-- No chunk ends the connection.
abbrev pub AllReceived : List Bytes → Type 0
AllReceived [] = Unit {0}
AllReceived (chunk ∷ chunks) = (0 < length chunk) × AllReceived chunks

abbrev pub concat : List Bytes → Bytes
concat [] = []
concat (chunk ∷ chunks) = chunk ++ concat chunks

-- What has been received, with the chunks that follow.
handle_connection-receive :
    (x : Connection) (b : Bytes) (chunks : List Bytes)
    → AllReceived chunks
    → handle_connection (receive x b) chunks ≡ receive x (b ++ concat chunks)
unfolding handle_connection
handle_connection-receive x b [] h = rw append-nil refl
handle_connection-receive x b ([] ∷ chunks) (h, hs) = absurd (omega arith)
handle_connection-receive x b ((d ∷ ds) ∷ chunks) (h, hs) =
    rw (receive-receive x b (d ∷ ds), ← append_assoc b (d ∷ ds) (concat chunks))
      (handle_connection-receive x (b ++ d ∷ ds) chunks hs)

-- A connection that receives its bytes in chunks, none of them empty, ends as if they had come at
-- once: the chunks' bounds do not matter.
pub handle_connection-concat :
    (chunks : List Bytes)
    → AllReceived chunks
    → handle_connection opened chunks ≡ receive opened (concat chunks)
unfolding opened receive drain
handle_connection-concat chunks h = handle_connection-receive opened [] chunks h
