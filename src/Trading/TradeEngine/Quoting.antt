-- ===== src/Trading/TradeEngine/Quoting.antt =====
-- From the market data to the requests: an update of the best bid goes through the book, the position
-- keeper, the features and the market maker.
use nano_trade.Base.{ℕ, ◌<◌, ◌≡◌, refl, ap, sym, subst, ltb-lt, update, update_self, List, []}
use nano_trade.Base.Lists.{All}
use nano_trade.Base.Double.{Double}
use nano_trade.Base.Outcome.{ok}
use nano_trade.Common.Types.{me_max_tickers}
use nano_trade.Common.LfQueue.{pushes}
use nano_trade.Exchange.Messages.{MeClientRequest, MeMarketUpdate}
use nano_trade.Trading.MarketOrder.{Bbo}
use nano_trade.Trading.MarketOrderBook.{MarketOrderBook}
use nano_trade.Trading.MarketOrderBook.Adds.{CanJoin, HasJoined, on_market_update-HasJoined}
use nano_trade.Trading.OrderManager.{OrderManager}
use nano_trade.Trading.PositionKeeper.{keeper_update_bbo, update_bbo}
use nano_trade.Trading.FeatureEngine.{feature_on_order_book_update}
use nano_trade.Trading.Strategies.Quotes.{IsPassive, maker_on_order_book_update-IsPassive}
use nano_trade.Trading.TradeEngine.{
  TradeEngine, AlgoType, risk_check, with_manager, algo_on_order_book_update, on_order_book_update,
  on_notices, on_notice, process_update,
}

module _ {W : Type 0} ⦃d : Double W⦄ where
  -- The requests of `f` are those of `e` and then some that never improve on the BBO.
  abbrev pub Quotes : TradeEngine W → TradeEngine W → Bbo → Type 0
  Quotes e f bbo =
      (rs : List MeClientRequest) × (f.outgoing_ogw_requests ≡ pushes e.outgoing_ogw_requests rs)
      × All (IsPassive bbo) rs

  maker-Quotes :
      (e : TradeEngine W) (t : ℕ) (bbo : Bbo)
      → t < me_max_tickers
      → (m : OrderManager) × (rs : List MeClientRequest) × (algo_on_order_book_update AlgoType.maker
            e t bbo
          ≡ ok (record e {
            order_manager = m;
            outgoing_ogw_requests = pushes e.outgoing_ogw_requests rs;
          }))
        × All (IsPassive bbo) rs
  unfolding algo_on_order_book_update with_manager
  maker-Quotes e t bbo h =
      let (n, run, (rs, sent, passive)) =
        maker_on_order_book_update-IsPassive e.ticker_cfg e.feature_engine t bbo
          (record e.order_manager { risk = risk_check e.position_keeper e.ticker_cfg; sent = [] })
          h in
      (record n { sent = [] }, rs, rw (run, sent) refl, passive)

  -- The engine with the new prices, before the algorithm is called.
  abbrev informed : TradeEngine W → (t : ℕ) → Bbo → TradeEngine W
  informed e t bbo = record e {
    position_keeper = update e.position_keeper t (update_bbo (e.position_keeper t) bbo);
    feature_engine = feature_on_order_book_update e.feature_engine bbo;
  }

  informs :
      (e : TradeEngine W) (t : ℕ) (bbo : Bbo)
      → t < me_max_tickers
      → on_order_book_update e t bbo ≡ algo_on_order_book_update e.algo (informed e t bbo) t bbo
  unfolding on_order_book_update keeper_update_bbo
  informs e t bbo h = rw (ltb-lt t me_max_tickers h) refl

  -- The book of the update's instrument, from which all earlier notices have been taken.
  abbrev pub book_of : TradeEngine W → MeMarketUpdate → MarketOrderBook
  book_of e u = record (e.ticker_order_book u.ticker_id) { notices = [] }

  pub record HasQuoted (e f : TradeEngine W) (u : MeMarketUpdate) (l first : ℕ) (rest : List ℕ)
      (bbo : Bbo) : Type 0 where
    pub book :
        HasJoined
          (book_of e u)
          (f.ticker_order_book u.ticker_id)
          u
          l
          first
          (book_of e u).order_pool.next_free_index
          rest
    pub same_bbo : (f.ticker_order_book u.ticker_id).bbo ≡ bbo
    pub position : f.position_keeper u.ticker_id ≡ update_bbo (e.position_keeper u.ticker_id) bbo
    pub quotes : Quotes e f bbo

  module _ (e : TradeEngine W) (u : MeMarketUpdate) (l first : ℕ) (rest : List ℕ) where
    -- A market maker's engine, whose book of an instrument in range can take an ADD at the best
    -- bid: the update goes through without a fault. The book has the order behind those of its
    -- level and the new best bid, the profit of the instrument is that of the new prices, and the
    -- requests that go to the queue of the gateway never improve on the new BBO.
    pub process_update-HasQuoted :
        e.algo ≡ AlgoType.maker
        → u.ticker_id < me_max_tickers
        → CanJoin (book_of e u) u l first rest
        → (f : TradeEngine W) × (bbo : Bbo) × (process_update e u ≡ ok f)
          × HasQuoted e f u l first rest bbo
    unfolding process_update on_notices on_notice
    process_update-HasQuoted a h c =
        let (b, run, j) = on_market_update-HasJoined (book_of e u) u l first rest c in
        let e₁ : TradeEngine W = record e {
          ticker_order_book = update e.ticker_order_book u.ticker_id b;
        } in
        let (m, rs, quoted, passive) =
          maker-Quotes (informed e₁ u.ticker_id b.bbo) u.ticker_id b.bbo h in
        (
          record (informed e₁ u.ticker_id b.bbo) {
            order_manager = m;
            outgoing_ogw_requests = pushes e.outgoing_ogw_requests rs;
          },
          b.bbo,
          rw
              (
                ltb-lt u.ticker_id me_max_tickers h,
                run,
                j.told,
                informs e₁ u.ticker_id b.bbo h,
                ap
                    (λ x.
                      algo_on_order_book_update x (informed e₁ u.ticker_id b.bbo) u.ticker_id b.bbo)
                    a,
                quoted,
              )
              refl,
          record {
            book =
                subst
                  (λ x.
                    HasJoined (book_of e u) x u l first (book_of e u).order_pool.next_free_index
                      rest)
                  (sym (update_self e.ticker_order_book u.ticker_id b)) j;
            same_bbo = ap (λ x. x.bbo) (update_self e.ticker_order_book u.ticker_id b);
            position =
                update_self e.position_keeper u.ticker_id
                  (update_bbo (e.position_keeper u.ticker_id) b.bbo);
            quotes = (rs, refl, passive);
          },
        )
