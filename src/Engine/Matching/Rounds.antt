-- ===== src/Engine/Matching/Rounds.antt =====
-- How many rounds the matching loops make, over any book.
use limit_order_book_v.Prelude.{
  ℕ, zero, suc, ◌+◌, ◌-◌, ◌<◌, ◌≡◌, ◌≢◌, ◌∙◌, ◌⊎◌, refl, sym, ap, arith, Bool-cases, true, false,
  length, ◌==◌, inl, inr, min,
}
use limit_order_book_v.Memory.OrderPool.{get, put, default_capacity}
use limit_order_book_v.Engine.BookApi.{StorageBook}
use limit_order_book_v.Storage.Binary.{set_quantity}
use limit_order_book_v.Storage.Binary.Book.Cancel.{get-put, put-free_index}
use limit_order_book_v.Storage.Binary.Book.Terms.{set_quantity-SameTerms}
use limit_order_book_v.Engine.Matching.{
  Engine, trade_with, settle_ask, settle_bid, match_ask, match_bid, crosses_ask, crosses_bid,
  match_order_bid, match_order_ask, rounds,
}
use limit_order_book_v.Engine.Matching.Trading.{Keeps}
use limit_order_book_v.Engine.Matching.Conservation.{match_ask-Trades, match_bid-Trades}

module _ (s : StorageBook) (now : ℕ → ℕ) (l : Keeps s) where
  -- A round takes the last shares of the order, or it frees a slot.
  abbrev Progress : ℕ → Engine s.Book → Engine s.Book → Type 0
  Progress index e e' =
      ((get e'.pool index).quantity ≡ 0)
      ⊎ (length e'.pool.free_index ≡ suc (length e.pool.free_index))

  settle_ask-Progress :
      (index best quantity : ℕ) (e : Engine s.Book)
      → best ≢ index
      → l.Apart index e.pool e.book
      → s.is_ask_empty e.book ≡ false
      → ((get e.pool best).quantity - quantity ≢ 0 → (get e.pool index).quantity ≡ 0)
      → Progress index e (settle_ask s now best quantity e)
  unfolding settle_ask
  settle_ask-Progress index best quantity e ne a some_ask last =
      let left = (get e.pool best).quantity - quantity in
      elim (Bool-cases (left == 0)) [
        | inl z ↦
            let b = l.quantity index best 0 e.pool e.book a in
            let f = l.pop_ask_frees index (set_quantity best 0 e.pool) e.book b some_ask in
            rw z (
              inr (
                f
                ∙ ap (λ x. suc (length x))
                    (put-free_index best (record (get e.pool best) { quantity = 0 }) e.pool)))
        | inr z ↦
            let (c, t) = l.update index (get e.pool best).order_id left e.pool e.book a in
            rw z (inl (t.quantity ∙ last (ground arith)))
      ]

  match_ask-Progress :
      (index : ℕ) (e : Engine s.Book)
      → l.Apart index e.pool e.book
      → s.is_ask_empty e.book ≡ false
      → Progress index e (match_ask s now index e)
  unfolding match_ask trade_with put
  match_ask-Progress index e a some_ask =
      let best = s.get_best_ask e.pool e.book in
      let o = get e.pool index in
      let quantity = min o.quantity (get e.pool best).quantity in
      let ne = l.best_ask index e.pool e.book a in
      let mine = get-put index (record o { quantity = o.quantity - quantity }) e.pool in
      let other =
        set_quantity-SameTerms index (o.quantity - quantity) e.pool best (λ h. ne (sym h)) in
      settle_ask-Progress index best quantity (trade_with s now index best e) ne
        (l.quantity index index (o.quantity - quantity) e.pool e.book a) some_ask
        (λ left. ground (arith, ap (λ x. x.quantity) mine, other.quantity, left))

  bid_filled :
      (fuel index : ℕ) (e : Engine s.Book)
      → (get e.pool index).quantity ≡ 0
      → crosses_ask s now index (match_order_bid s now fuel index e) ≡ false
  unfolding match_order_bid
  bid_filled zero index e h = ground (arith, h)
  bid_filled (suc fuel) index e h =
      let c : crosses_ask s now index e ≡ false = ground (arith, h) in rw c c

  bid_rounds :
      (fuel index : ℕ) (e : Engine s.Book)
      → l.Apart index e.pool e.book
      → default_capacity < fuel + length e.pool.free_index
      → crosses_ask s now index (match_order_bid s now fuel index e) ≡ false
  unfolding match_order_bid
  bid_rounds zero index e a h = ground (arith, l.room index e.pool e.book a)
  bid_rounds (suc fuel) index e a h = elim (Bool-cases (crosses_ask s now index e)) [
    | inl c ↦
        let e' = match_ask s now index e in
        let m = match_ask-Trades s now l index (λ p. true) e refl a in
        let p = match_ask-Progress index e a (ground arith) in
        rw c (elim p [
          | inl z ↦ bid_filled fuel index e' z
          | inr f ↦ bid_rounds fuel index e' m.apart (omega (arith, f))
        ])
    | inr c ↦ rw c c
  ]

  -- The fuel of `MatchOrderBid` is enough: over any book with the laws of `Keeps`, for an order
  -- that stands apart from those that wait in it, the loop ends because its condition fails. The
  -- book has no asks, or the order no shares left, or the best ask is dearer than the order, which
  -- is not a market order.
  pub match_order_bid-rounds :
      (index : ℕ) (e : Engine s.Book)
      → l.Apart index e.pool e.book
      → crosses_ask s now index (match_order_bid s now (rounds s now) index e) ≡ false
  match_order_bid-rounds index e a = bid_rounds (rounds s now) index e a (omega arith)

  settle_bid-Progress :
      (index best quantity : ℕ) (e : Engine s.Book)
      → best ≢ index
      → l.Apart index e.pool e.book
      → s.is_bid_empty e.book ≡ false
      → ((get e.pool best).quantity - quantity ≢ 0 → (get e.pool index).quantity ≡ 0)
      → Progress index e (settle_bid s now best quantity e)
  unfolding settle_bid
  settle_bid-Progress index best quantity e ne a some_bid last =
      let left = (get e.pool best).quantity - quantity in
      elim (Bool-cases (left == 0)) [
        | inl z ↦
            let b = l.quantity index best 0 e.pool e.book a in
            let f = l.pop_bid_frees index (set_quantity best 0 e.pool) e.book b some_bid in
            rw z (
              inr (
                f
                ∙ ap (λ x. suc (length x))
                    (put-free_index best (record (get e.pool best) { quantity = 0 }) e.pool)))
        | inr z ↦
            let (c, t) = l.update index (get e.pool best).order_id left e.pool e.book a in
            rw z (inl (t.quantity ∙ last (ground arith)))
      ]

  match_bid-Progress :
      (index : ℕ) (e : Engine s.Book)
      → l.Apart index e.pool e.book
      → s.is_bid_empty e.book ≡ false
      → Progress index e (match_bid s now index e)
  unfolding match_bid trade_with put
  match_bid-Progress index e a some_bid =
      let best = s.get_best_bid e.pool e.book in
      let o = get e.pool index in
      let quantity = min o.quantity (get e.pool best).quantity in
      let ne = l.best_bid index e.pool e.book a in
      let mine = get-put index (record o { quantity = o.quantity - quantity }) e.pool in
      let other =
        set_quantity-SameTerms index (o.quantity - quantity) e.pool best (λ h. ne (sym h)) in
      settle_bid-Progress index best quantity (trade_with s now index best e) ne
        (l.quantity index index (o.quantity - quantity) e.pool e.book a) some_bid
        (λ left. ground (arith, ap (λ x. x.quantity) mine, other.quantity, left))

  ask_filled :
      (fuel index : ℕ) (e : Engine s.Book)
      → (get e.pool index).quantity ≡ 0
      → crosses_bid s now index (match_order_ask s now fuel index e) ≡ false
  unfolding match_order_ask
  ask_filled zero index e h = ground (arith, h)
  ask_filled (suc fuel) index e h =
      let c : crosses_bid s now index e ≡ false = ground (arith, h) in rw c c

  ask_rounds :
      (fuel index : ℕ) (e : Engine s.Book)
      → l.Apart index e.pool e.book
      → default_capacity < fuel + length e.pool.free_index
      → crosses_bid s now index (match_order_ask s now fuel index e) ≡ false
  unfolding match_order_ask
  ask_rounds zero index e a h = ground (arith, l.room index e.pool e.book a)
  ask_rounds (suc fuel) index e a h = elim (Bool-cases (crosses_bid s now index e)) [
    | inl c ↦
        let e' = match_bid s now index e in
        let m = match_bid-Trades s now l index (λ p. true) e refl a in
        let p = match_bid-Progress index e a (ground arith) in
        rw c (elim p [
          | inl z ↦ ask_filled fuel index e' z
          | inr f ↦ ask_rounds fuel index e' m.apart (omega (arith, f))
        ])
    | inr c ↦ rw c c
  ]

  -- The fuel of `MatchOrderAsk` is enough: over any book with the laws of `Keeps`, for an order
  -- that stands apart from those that wait in it, the loop ends because its condition fails. The
  -- book has no bids, or the order no shares left, or the best bid is cheaper than the order, which
  -- is not a market order.
  pub match_order_ask-rounds :
      (index : ℕ) (e : Engine s.Book)
      → l.Apart index e.pool e.book
      → crosses_bid s now index (match_order_ask s now (rounds s now) index e) ≡ false
  match_order_ask-rounds index e a = ask_rounds (rounds s now) index e a (omega arith)
