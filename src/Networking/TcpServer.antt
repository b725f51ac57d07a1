-- ===== src/Networking/TcpServer.antt =====
-- `TcpServer::HandleConnection` of src/Networking/TcpServer.cpp: the bytes of a connection are cut
-- into frames, and the decoded requests go to the engine. The socket is the sequence of chunks that
-- `recv` returns.
pub mod Framing
pub mod Delivery
pub mod Lifecycle
use limit_order_book_v.Prelude.{
  ℕ, zero, suc, ◌+◌, Bool, not, ◌&&◌, Option, none, some, List, [], ◌∷◌, ◌++◌, ltb, if◌then◌else◌,
  length, get_or, take, drop,
}
use limit_order_book_v.Domain.Text.{Bytes}
use limit_order_book_v.Domain.Float.{Float}
use limit_order_book_v.Domain.Pods.{OrderRequest}
use limit_order_book_v.Networking.Protocol.{decode}

-- The `buffer` of a connection, and the requests passed to `CreateOrder`, in order.
pub record Connection : Type 0 where
  pub buffer : Bytes
  pub requests : List (OrderRequest Float)

-- `ProtocolSize`, from the symbol's length at byte 19.
unfoldable pub frame_size : Bytes → ℕ
frame_size buffer = 20 + get_or buffer 19 0

abbrev pub has_frame : Bytes → Bool
has_frame buffer = not (ltb (length buffer) 20) && not (ltb (length buffer) (frame_size buffer))

-- A frame that does not decode is dropped.
abbrev pub created : Option (OrderRequest Float) → List (OrderRequest Float)
created none = []
created (some r) = r ∷ []

-- The inner loop: the requests that it creates and the bytes that it leaves. Each round takes 20 bytes
-- or more, so `length buffer` rounds are enough.
unfoldable pub drain : ℕ → Bytes → List (OrderRequest Float) × Bytes
unfolding frame_size
drain zero buffer = ([], buffer)
drain (suc rounds) buffer =
    let (requests, left) = drain rounds (drop (frame_size buffer) buffer) in
    if has_frame buffer
    then (created (decode (take (frame_size buffer) buffer)) ++ requests, left)
    else ([], buffer)

-- One round of the outer loop, on the bytes that were received.
unfoldable pub receive : Connection → Bytes → Connection
unfolding drain
receive c chunk =
    let buffer = c.buffer ++ chunk in
    let (requests, left) = drain (length buffer) buffer in
    record { buffer = left; requests = c.requests ++ requests }

-- The connection after the chunks; an empty chunk, `recv` returning 0, ends it.
unfoldable pub handle_connection : Connection → List Bytes → Connection
unfolding receive
handle_connection c [] = c
handle_connection c ([] ∷ chunks) = c
handle_connection c ((b ∷ bs) ∷ chunks) = handle_connection (receive c (b ∷ bs)) chunks

unfoldable pub opened : Connection
opened = record { buffer = []; requests = [] }
