-- ===== src/Trading/TradeEngine.antt =====
-- trading/strategy/trade_engine.h and trade_engine.cpp: the thread of a trading client, which takes
-- responses and market data from its queues and drives the books, the position keeper, the features
-- and the algorithm.
pub mod Responses
pub mod Quoting
mod Tests
use nano_trade.Base.{
  ℕ, zero, suc, ◌+◌, Bool, true, false, ltb, if◌then◌else◌, update, none, some, List, [], ◌∷◌,
}
use nano_trade.Base.Int.{ℤ}
use nano_trade.Base.Double.{Double, lt}
use nano_trade.Base.Outcome.{Outcome, ok, fault, fatal, out_of_fuel, and_then}
use nano_trade.Common.Types.{Side, me_max_tickers}
use nano_trade.Common.LfQueue.{LfQueue, pushes, size, get_next_to_read, update_read_index}
use nano_trade.Exchange.Messages.{
  MeClientRequest, MeClientResponse, ClientResponseType, MeMarketUpdate,
}
use nano_trade.Trading.MarketOrder.{Bbo}
use nano_trade.Trading.MarketOrderBook
use nano_trade.Trading.MarketOrderBook.{MarketOrderBook, Notice}
use nano_trade.Trading.MarketOrderBook.Updates.{on_market_update}
use nano_trade.Trading.OrderManager
use nano_trade.Trading.OrderManager.{OrderManager, Manager, on_order_update}
use nano_trade.Trading.RiskManager.{RiskCheckResult, RiskInfo, check_pre_trade_risk}
use nano_trade.Trading.PositionKeeper.{
  PositionKeeper, new_position, keeper_add_fill, keeper_update_bbo,
}
use nano_trade.Trading.FeatureEngine.{
  TradeEngineCfg, FeatureEngine, new_features, feature_on_order_book_update,
  feature_on_trade_update,
}
use nano_trade.Trading.Strategies.{maker_on_order_book_update, taker_on_trade_update}

pub data AlgoType : Type 0 where
  invalid random maker taker max : AlgoType

-- `algo` tells which algorithm the constructor made; the others leave the default callbacks, which
-- only log. The time of the last event is not modelled.
pub record TradeEngine (W : Type 0) : Type 0 where
  pub ticker_order_book : ℕ → MarketOrderBook
  pub outgoing_ogw_requests : LfQueue MeClientRequest
  pub incoming_ogw_responses : LfQueue MeClientResponse
  pub incoming_md_updates : LfQueue MeMarketUpdate
  pub feature_engine : FeatureEngine W
  pub position_keeper : PositionKeeper W
  pub order_manager : OrderManager
  pub ticker_cfg : ℕ → TradeEngineCfg W
  pub algo : AlgoType

abbrev pub is_filled : ClientResponseType → Bool
is_filled ClientResponseType.filled = true
is_filled _ = false

module _ {W : Type 0} ⦃d : Double W⦄ where
  -- `RiskManager`: the position and the profit of each instrument are those of the position keeper.
  unfoldable pub ticker_risk : PositionKeeper W → (ℕ → TradeEngineCfg W) → ℕ → RiskInfo W
  ticker_risk positions ticker_cfg t = record {
    position = (positions t).position;
    total_pnl = (positions t).total_pnl;
    risk_cfg = (ticker_cfg t).risk_cfg;
  }

  unfoldable pub risk_check :
      PositionKeeper W → (ℕ → TradeEngineCfg W) → ℕ → Side → ℕ → RiskCheckResult
  unfolding ticker_risk
  risk_check positions ticker_cfg t side qty =
      check_pre_trade_risk lt (ticker_risk positions ticker_cfg t) side qty

  -- The constructor; `open_vwap` is the first content of the position keeper's arrays, which have
  -- no initialiser.
  unfoldable pub init :
      (client_id : ℕ)
      → AlgoType
      → (ℕ → TradeEngineCfg W)
      → LfQueue MeClientRequest
      → LfQueue MeClientResponse
      → LfQueue MeMarketUpdate
      → (ticker_base_prices : ℕ → ℤ) → (open_vwap : ℕ → ℕ → W) → TradeEngine W
  unfolding risk_check
  init client_id algo ticker_cfg requests responses updates ticker_base_prices open_vwap =
      let positions : PositionKeeper W = λ t. new_position (open_vwap t) in
      record {
        ticker_order_book = λ t. MarketOrderBook.init t (ticker_base_prices t);
        outgoing_ogw_requests = requests;
        incoming_ogw_responses = responses;
        incoming_md_updates = updates;
        feature_engine = new_features;
        position_keeper = positions;
        order_manager = OrderManager.init client_id (risk_check positions ticker_cfg);
        ticker_cfg = ticker_cfg;
        algo = algo;
      }

  -- A call of the order manager, with the risk checks as they stand, from which all earlier
  -- requests have been sent; `sendClientRequest` pushes each of its requests to the queue.
  unfoldable pub with_manager : TradeEngine W → Manager (Unit {0}) → Outcome (TradeEngine W)
  with_manager e call =
      and_then
        (call
          (record e.order_manager { risk = risk_check e.position_keeper e.ticker_cfg; sent = [] }))
        λ (_, m). ok (record e {
          order_manager = record m { sent = [] };
          outgoing_ogw_requests = pushes e.outgoing_ogw_requests m.sent;
        })

  -- `algoOnOrderBookUpdate_`, `algoOnTradeUpdate_` and `algoOnOrderUpdate_`.
  unfoldable pub algo_on_order_book_update :
      AlgoType → TradeEngine W → (ticker_id : ℕ) → Bbo → Outcome (TradeEngine W)
  algo_on_order_book_update AlgoType.maker e t bbo =
      with_manager e (maker_on_order_book_update e.ticker_cfg e.feature_engine t bbo)
  algo_on_order_book_update _ e t bbo = ok e

  unfoldable pub algo_on_trade_update :
      AlgoType → TradeEngine W → MeMarketUpdate → Bbo → Outcome (TradeEngine W)
  algo_on_trade_update AlgoType.taker e u bbo =
      with_manager e (taker_on_trade_update e.ticker_cfg e.feature_engine u bbo)
  algo_on_trade_update _ e u bbo = ok e

  unfoldable pub algo_on_order_update :
      AlgoType → TradeEngine W → MeClientResponse → Outcome (TradeEngine W)
  algo_on_order_update AlgoType.maker e r = with_manager e (on_order_update r)
  algo_on_order_update AlgoType.taker e r = with_manager e (on_order_update r)
  algo_on_order_update _ e r = ok e

  unfoldable pub on_order_book_update :
      TradeEngine W → (ticker_id : ℕ) → Bbo → Outcome (TradeEngine W)
  unfolding algo_on_order_book_update
  on_order_book_update e t bbo = and_then (keeper_update_bbo e.position_keeper t bbo) λ k.
      algo_on_order_book_update e.algo
        (record e {
          position_keeper = k;
          feature_engine = feature_on_order_book_update e.feature_engine bbo;
        })
        t bbo

  unfoldable pub on_trade_update : TradeEngine W → MeMarketUpdate → Bbo → Outcome (TradeEngine W)
  unfolding algo_on_trade_update
  on_trade_update e u bbo =
      algo_on_trade_update e.algo
        (record e { feature_engine = feature_on_trade_update e.feature_engine u bbo }) u bbo

  -- The call that a book makes of its engine.
  unfoldable pub on_notice : TradeEngine W → Notice → Outcome (TradeEngine W)
  unfolding on_order_book_update on_trade_update
  on_notice e (Notice.order_book_update t price side bbo) = on_order_book_update e t bbo
  on_notice e (Notice.trade_update u bbo) = on_trade_update e u bbo

  unfoldable pub on_notices : TradeEngine W → List Notice → Outcome (TradeEngine W)
  unfolding on_notice
  on_notices e [] = ok e
  on_notices e (n ∷ ns) = and_then (on_notice e n) λ f. on_notices f ns

  unfoldable pub fill_positions : PositionKeeper W → MeClientResponse → Outcome (PositionKeeper W)
  fill_positions k r = if is_filled r.type then keeper_add_fill k r else ok k

  -- `onOrderUpdate`
  unfoldable pub engine_on_order_update : TradeEngine W → MeClientResponse → Outcome (TradeEngine W)
  unfolding fill_positions algo_on_order_update
  engine_on_order_update e r =
      and_then (fill_positions e.position_keeper r)
        λ k. algo_on_order_update e.algo (record e { position_keeper = k }) r

  -- An update goes to the book of its instrument, whose last act is to call the engine.
  unfoldable pub process_update : TradeEngine W → MeMarketUpdate → Outcome (TradeEngine W)
  unfolding on_notices
  process_update e u =
      if ltb u.ticker_id me_max_tickers
      then and_then (on_market_update u (record (e.ticker_order_book u.ticker_id) { notices = [] }))
          (λ (_, b).
            on_notices (record e { ticker_order_book = update e.ticker_order_book u.ticker_id b })
              b.notices)
      else fault fatal

  -- The first loop of `run`. The fuel bounds the responses that are taken.
  unfoldable pub drain_responses : (fuel : ℕ) → TradeEngine W → Outcome (TradeEngine W)
  unfolding engine_on_order_update
  drain_responses zero e = fault out_of_fuel
  drain_responses (suc fuel) e = elim (get_next_to_read e.incoming_ogw_responses) [
    | none ↦ ok e
    | some r ↦ and_then (engine_on_order_update e r) λ f.
        and_then (update_read_index f.incoming_ogw_responses)
          λ q. drain_responses fuel (record f { incoming_ogw_responses = q })
  ]

  -- The second loop of `run`.
  unfoldable pub drain_updates : (fuel : ℕ) → TradeEngine W → Outcome (TradeEngine W)
  unfolding process_update
  drain_updates zero e = fault out_of_fuel
  drain_updates (suc fuel) e = elim (get_next_to_read e.incoming_md_updates) [
    | none ↦ ok e
    | some u ↦ and_then (process_update e u) λ f.
        and_then (update_read_index f.incoming_md_updates)
          λ q. drain_updates fuel (record f { incoming_md_updates = q })
  ]

  -- One round of `run` in which nothing is pushed to the two queues meanwhile.
  unfoldable pub run_once : TradeEngine W → Outcome (TradeEngine W)
  unfolding drain_responses drain_updates
  run_once e =
      and_then (drain_responses (size e.incoming_ogw_responses + 1) e)
        λ f. drain_updates (size f.incoming_md_updates + 1) f
