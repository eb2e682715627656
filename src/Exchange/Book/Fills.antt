-- ===== src/Exchange/Book/Fills.antt =====
-- A fill that leaves the passive order in the book.
use nano_trade.Base.{
  ℕ, zero, suc, ◌+◌, ◌-◌, ◌≤◌, ◌<◌, ◌≡◌, refl, arith, min, true, false, ◌||◌, ==-ne, some, List, [],
  ◌∷◌, ◌++◌,
}
use nano_trade.Base.Outcome.{ok}
use nano_trade.Common.Types.{is_buy, is_sell, to_qty}
use nano_trade.Exchange.Book.{
  MeOrderBook, MeOrder, Message, to_client, to_market, order_at, level_at, put_qty,
}
use nano_trade.Exchange.Book.Notices.{
  Aggressor, aggressor_fill, passive_fill, trade_update, modify_update,
}
use nano_trade.Exchange.Book.Matching.{
  match, does_not_reach, opposite_best, match_loop, check_for_match,
}

-- What the book sends about a fill of `qty` that leaves something of an order.
abbrev pub fill_messages : Aggressor → MeOrder → (qty : ℕ) → List Message → List Message
fill_messages a order qty sent =
    (((sent ++ to_client (aggressor_fill a order qty 0) ∷ [])
        ++ to_client (passive_fill a order qty) ∷ [])
      ++ to_market (trade_update a order qty) ∷ [])
    ++ to_market (modify_update a order qty) ∷ []

abbrev pub partly_filled : Aggressor → MeOrderBook → (o qty : ℕ) → MeOrderBook
partly_filled a b o qty = record b {
  order_pool = put_qty b.order_pool o ((order_at b o).qty - qty);
  sent = fill_messages a (order_at b o) qty b.sent;
}

min-small : (l q : ℕ) → l < q → min l q ≡ l
min-small l q h = omega arith

pub sub_self : (l : ℕ) → l - l ≡ 0
sub_self l = omega arith

module _ (a : Aggressor) (b : MeOrderBook) (o qty : ℕ) (small : qty < (order_at b o).qty) where
  match-partly_filled : match a o qty b ≡ ok (0, partly_filled a b o qty)
  unfolding match
  match-partly_filled =
      rw
        (
          min-small qty (order_at b o).qty small,
          sub_self qty,
          ==-ne ((order_at b o).qty - qty) 0 (λ e. omega (arith, e, small)),
        )
        refl

pub match_loop-done :
    (fuel : ℕ) (a : Aggressor) (b : MeOrderBook) → 1 ≤ fuel → match_loop fuel a 0 b ≡ ok (0, b)
unfolding match_loop
match_loop-done zero a b h = absurd (omega arith)
match_loop-done (suc fuel) a b h = refl

abbrev pub cut : Aggressor → Aggressor
cut a = record a { new_market_order_id = to_qty a.new_market_order_id }

pub match_loop-first :
    (fuel : ℕ) (a : Aggressor) (b : MeOrderBook) (l o qty : ℕ)
    → 2 ≤ fuel
    → opposite_best b a.side ≡ some l
    → (level_at b l).first_me_order ≡ some o
    → does_not_reach a.side a.price (order_at b o).price ≡ false
    → 1 ≤ qty
    → qty < (order_at b o).qty
    → match_loop fuel a qty b ≡ ok (0, partly_filled a b o qty)
unfolding match_loop
match_loop-first zero a b l o qty f best first reach pos small = absurd (omega arith)
match_loop-first (suc fuel) a b l o qty f best first reach pos small =
    rw
      (
        ==-ne qty 0 (λ e. omega (arith, e, pos)),
        best,
        first,
        reach,
        match-partly_filled a b o qty small,
      )
      (match_loop-done fuel a (partly_filled a b o qty) (omega arith))

-- An order to buy or sell, for at least one, whose price reaches the first order of the best level
-- on the other side, and which wants less than that order has: it is filled in whole by that order
-- alone, which keeps the rest. No other order changes, and the four messages about the fill go out,
-- with the number of the order cut to 32 bits.
pub check_for_match-partly_filled :
    (a : Aggressor) (b : MeOrderBook) (l o qty : ℕ)
    → (is_buy a.side || is_sell a.side) ≡ true
    → opposite_best b a.side ≡ some l
    → (level_at b l).first_me_order ≡ some o
    → o < b.order_pool.size
    → does_not_reach a.side a.price (order_at b o).price ≡ false
    → 1 ≤ qty
    → qty < (order_at b o).qty
    → check_for_match a qty b ≡ ok (0, partly_filled (cut a) b o qty)
unfolding check_for_match
check_for_match-partly_filled a b l o qty sided best first inside reach pos small = rw sided (
    match_loop-first (b.order_pool.size + 1) (cut a) b l o qty (omega arith) best first reach pos
      small)
