-- ===== src/Trading/Strategies/Quotes.antt =====
-- The prices at which the two algorithms trade.
use nano_trade.Base.{
  ℕ, ◌<◌, ◌≡◌, ◌⊎◌, refl, arith, true, false, ltb-lt, Bool-cases, inl, inr, ◌&&◌, not,
}
use nano_trade.Base.Int.{◌≤ℤ◌, ◌+ℤ◌, ◌-ℤ◌, eqb_ℤ}
use nano_trade.Base.Double.{Double, eq, nan, le}
use nano_trade.Base.Outcome.{ok}
use nano_trade.Common.Types.{Side, is_buy, price_invalid, me_max_tickers}
use nano_trade.Exchange.Messages.{MeClientRequest, MeMarketUpdate}
use nano_trade.Trading.MarketOrder.{Bbo}
use nano_trade.Trading.OrderManager.{OrderManager}
use nano_trade.Trading.PositionKeeper.{is_two_sided}
use nano_trade.Trading.FeatureEngine.{FeatureEngine, TradeEngineCfg}
use nano_trade.Trading.Strategies.{
  maker_bid, maker_ask, maker_on_order_book_update, taker_orders, taker_on_trade_update,
}
use nano_trade.Trading.Strategies.Requests.{
  Sends, Sends-none, Sends-weaken, IsCancel, IsQuote, move_orders-Sends,
}

-- The request cancels, or asks for an order at a price no better than the best one of its own side,
-- so that it meets no order of the other side of the BBO unless that stands at the same price.
abbrev pub IsPassive : Bbo → MeClientRequest → Type 0
IsPassive bbo r =
    IsCancel r
    ⊎ (((r.side ≡ Side.buy) × (r.price ≤ℤ bbo.bid_price))
        ⊎ ((r.side ≡ Side.sell) × (bbo.ask_price ≤ℤ r.price)))

-- The request cancels, or asks for an order that goes the way of the trade `u`, at the best price of
-- the other side.
abbrev pub IsFollowing : MeMarketUpdate → Bbo → MeClientRequest → Type 0
IsFollowing u bbo r =
    IsCancel r
    ⊎ (((u.side ≡ Side.buy) × (r.side ≡ Side.buy) × (r.price ≡ bbo.ask_price))
        ⊎ ((is_buy u.side ≡ false) × (r.side ≡ Side.sell) × (r.price ≡ bbo.bid_price)))

no_price : ¬ (eqb_ℤ price_invalid price_invalid ≡ false)
no_price e = ground (arith, e)

is_buy-eq : (s : Side) → is_buy s ≡ true → s ≡ Side.buy
is_buy-eq s e = ground (arith, e)

taker_bought :
    (u : MeMarketUpdate) (bbo : Bbo) (qty : ℕ) (r : MeClientRequest)
    → u.side ≡ Side.buy
    → IsQuote bbo.ask_price price_invalid qty r
    → IsFollowing u bbo r
taker_bought u bbo qty r b (inl c) = inl c
taker_bought u bbo qty r b (inr (inl n)) = inr (inl (b, n.side, n.price))
taker_bought u bbo qty r b (inr (inr n)) = absurd (no_price n.valid)

taker_sold :
    (u : MeMarketUpdate) (bbo : Bbo) (qty : ℕ) (r : MeClientRequest)
    → is_buy u.side ≡ false
    → IsQuote price_invalid bbo.bid_price qty r
    → IsFollowing u bbo r
taker_sold u bbo qty r b (inl c) = inl c
taker_sold u bbo qty r b (inr (inl n)) = absurd (no_price n.valid)
taker_sold u bbo qty r b (inr (inr n)) = inr (inr (b, n.side, n.price))

taker_moves :
    (u : MeMarketUpdate) (bbo : Bbo) (clip : ℕ) (m : OrderManager)
    → u.ticker_id < me_max_tickers
    → (n : OrderManager) × (taker_orders u bbo clip m ≡ ok (tt, n)) × Sends m n (IsFollowing u bbo)
unfolding taker_orders
taker_moves u bbo clip m h = elim (Bool-cases (is_buy u.side)) [
  | inl b ↦
      let (n, e, s) = move_orders-Sends u.ticker_id bbo.ask_price price_invalid clip m h in
      (n, rw b e, Sends-weaken m n _ _ (λ r. taker_bought u bbo clip r (is_buy-eq u.side b)) s)
  | inr b ↦
      let (n, e, s) = move_orders-Sends u.ticker_id price_invalid bbo.bid_price clip m h in
      (n, rw b e, Sends-weaken m n _ _ (λ r. taker_sold u bbo clip r b) s)
]

module _ {W : Type 0} ⦃d : Double W⦄ where
  maker_bid-below : (bbo : Bbo) (fair threshold : W) → maker_bid bbo fair threshold ≤ℤ bbo.bid_price
  unfolding maker_bid ◌-ℤ◌
  maker_bid-below bbo fair threshold = ground arith

  maker_ask-above : (bbo : Bbo) (fair threshold : W) → bbo.ask_price ≤ℤ maker_ask bbo fair threshold
  unfolding maker_ask ◌+ℤ◌
  maker_ask-above bbo fair threshold = ground arith

  maker-quotes :
      (bbo : Bbo) (fair threshold : W) (qty : ℕ) (r : MeClientRequest)
      → IsQuote (maker_bid bbo fair threshold) (maker_ask bbo fair threshold) qty r
      → IsPassive bbo r
  maker-quotes bbo fair threshold qty r (inl c) = inl c
  maker-quotes bbo fair threshold qty r (inr (inl n)) =
      inr (inl (n.side, rw n.price (maker_bid-below bbo fair threshold)))
  maker-quotes bbo fair threshold qty r (inr (inr n)) =
      inr (inr (n.side, rw n.price (maker_ask-above bbo fair threshold)))

  -- For an instrument in range, whatever the BBO, the features, the configuration and the state of
  -- the order manager: the market maker's handler ends without a fault, and every request that it
  -- sends cancels an order or asks for one at a price no better than the best one of its own side:
  -- it never improves on the BBO.
  pub maker_on_order_book_update-IsPassive :
      (ticker_cfg : ℕ → TradeEngineCfg W) (features : FeatureEngine W) (t : ℕ) (bbo : Bbo)
      (m : OrderManager)
      → t < me_max_tickers
      → (n : OrderManager) × (maker_on_order_book_update ticker_cfg features t bbo m ≡ ok (tt, n))
        × Sends m n (IsPassive bbo)
  unfolding maker_on_order_book_update
  maker_on_order_book_update-IsPassive ticker_cfg features t bbo m h =
      let (n, e, s) =
        move_orders-Sends t (maker_bid bbo features.mkt_price (ticker_cfg t).threshold)
          (maker_ask bbo features.mkt_price (ticker_cfg t).threshold) (ticker_cfg t).clip m h in
      elim (Bool-cases (is_two_sided bbo && not (eq features.mkt_price nan))) [
        | inl b ↦ (
          n,
          rw (b, ltb-lt t me_max_tickers h) e,
          Sends-weaken m n _ _
              (maker-quotes bbo features.mkt_price (ticker_cfg t).threshold (ticker_cfg t).clip) s,
        )
        | inr b ↦ (m, rw b refl, Sends-none m _)
      ]

  -- For a trade in an instrument in range, whatever the BBO, the features, the configuration and
  -- the state of the order manager: the liquidity taker's handler ends without a fault, and every
  -- request that it sends cancels an order or asks for one on the side of the trade, at the best
  -- price of the other side.
  pub taker_on_trade_update-IsFollowing :
      (ticker_cfg : ℕ → TradeEngineCfg W) (features : FeatureEngine W) (u : MeMarketUpdate)
      (bbo : Bbo) (m : OrderManager)
      → u.ticker_id < me_max_tickers
      → (n : OrderManager) × (taker_on_trade_update ticker_cfg features u bbo m ≡ ok (tt, n))
        × Sends m n (IsFollowing u bbo)
  unfolding taker_on_trade_update
  taker_on_trade_update-IsFollowing ticker_cfg features u bbo m h =
      let (n, e, s) = taker_moves u bbo (ticker_cfg u.ticker_id).clip m h in
      let still : Sends m m (IsFollowing u bbo) = Sends-none m _ in
      elim (Bool-cases (is_two_sided bbo && not (eq features.agg_trade_qty_ratio nan))) [
        | inl b ↦
            elim (Bool-cases (le (ticker_cfg u.ticker_id).threshold features.agg_trade_qty_ratio)) [
              | inl c ↦ (n, rw (b, ltb-lt u.ticker_id me_max_tickers h, c) e, s)
              | inr c ↦ (m, rw (b, ltb-lt u.ticker_id me_max_tickers h, c) refl, still)
            ]
        | inr b ↦ (m, rw b refl, still)
      ]
