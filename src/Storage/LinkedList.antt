-- ===== src/Storage/LinkedList.antt =====
-- `LinkedList` of BinaryOrderBookStorage.h: the first-in first-out queue of the orders at one price.
-- Its links are stored in the pool, in the orders' own slots.
pub mod Chain
pub mod Add
pub mod Unlink
pub mod Delete
use limit_order_book_v.Prelude.{ℕ, Bool, ◌==◌, if◌then◌else◌}
use limit_order_book_v.Domain.Pods.{nil_index, OrderPod}
use limit_order_book_v.Memory.OrderPool.{OrderPool, get, put}

pub record LinkedList : Type 0 where
  pub head : ℕ
  pub tail : ℕ

abbrev pub empty : LinkedList
empty = record { head = nil_index; tail = nil_index }

-- `order.Next = next` and `order.Prev = prev` through the reference at `index`.
abbrev pub set_next : ℕ → ℕ → OrderPool → OrderPool
set_next index next pool = put index (record (get pool index) { next = next }) pool

abbrev pub set_prev : ℕ → ℕ → OrderPool → OrderPool
set_prev index prev pool = put index (record (get pool index) { prev = prev }) pool

unfoldable pub add_node : ℕ → LinkedList → OrderPool → LinkedList × OrderPool
add_node index l pool =
    let linked = set_prev index l.tail (set_next index nil_index pool) in
    if l.tail == nil_index
    then (record { head = index; tail = index }, linked)
    else (record { head = l.head; tail = index }, set_next l.tail index linked)

-- The two halves of `DeleteNode`: the successor is linked from before, and the predecessor from behind.
unfoldable pub unlink_before : ℕ → LinkedList → OrderPool → LinkedList × OrderPool
unlink_before index l pool =
    let order = get pool index in
    if order.prev == nil_index
    then (record l { head = order.next }, pool)
    else (l, set_next order.prev order.next pool)

unfoldable pub unlink_behind : ℕ → LinkedList → OrderPool → LinkedList × OrderPool
unlink_behind index l pool =
    let order = get pool index in
    if order.next == nil_index
    then (record l { tail = order.prev }, pool)
    else (l, set_prev order.next order.prev pool)

unfoldable pub delete_node : ℕ → LinkedList → OrderPool → LinkedList × OrderPool
delete_node index l pool =
    let (l', pool') = unlink_before index l pool in
    let (l'', pool'') = unlink_behind index l' pool' in
    (l'', set_prev index nil_index (set_next index nil_index pool''))

unfoldable pub is_empty : LinkedList → Bool
is_empty l = l.head == nil_index

abbrev pub get_head : LinkedList → ℕ
get_head l = l.head
