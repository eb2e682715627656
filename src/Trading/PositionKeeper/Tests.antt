-- ===== src/Trading/PositionKeeper/Tests.antt =====
-- The position keeper's theorems on concrete fills, in hundredths.
use nano_trade.Base.{ℕ, ◌≡◌, refl, arith, [], ◌∷◌, List, some}
use nano_trade.Base.Int.{pos, negsuc, ◌+ℤ◌, ◌*ℤ◌}
use nano_trade.Base.Double.{Double, Hundredths, hundredths, lt}
use nano_trade.Common.Types.{Side, side_to_value}
use nano_trade.Exchange.Messages.{MeClientResponse, ClientResponseType}
use nano_trade.Trading.MarketOrder.{Bbo}
use nano_trade.Trading.RiskManager.{RiskCfg, check_pre_trade_risk}
use nano_trade.Trading.RiskManager.Limits.{IsWithin}
use nano_trade.Trading.PositionKeeper.{PositionInfo, new_position, add_fill}
use nano_trade.Trading.PositionKeeper.Fills.{
  add_fills, add_fills-net, add_fills-shares, allowed-add_fills,
}
use nano_trade.Trading.PositionKeeper.Profit.{Event, run, IsSettled, run-IsSettled}

instance abbrev in_hundredths : Double Hundredths
in_hundredths = hundredths

abbrev fill : Side → (price qty : ℕ) → MeClientResponse
fill side price qty = record {
  type = ClientResponseType.filled;
  client_id = 1;
  ticker_id = 0;
  client_order_id = 1;
  market_order_id = 1;
  side = side;
  price = pos price;
  exec_qty = qty;
  leaves_qty = 0;
}

abbrev start : PositionInfo Hundredths
start = new_position (λ _. some (pos 77))

-- Bought 10 and 5, sold 40.
abbrev fills : List MeClientResponse
fills = fill Side.buy 100 10 ∷ fill Side.buy 103 5 ∷ fill Side.sell 104 40 ∷ []

add_fills-net_example : (add_fills start fills).position ≡ negsuc 24
unfolding side_to_value ◌+ℤ◌ ◌*ℤ◌
add_fills-net_example =
    add_fills-net start fills (omega arith, omega arith) (omega arith, omega arith)

add_fills-shares_example : (add_fills start fills).volume ≡ 55
add_fills-shares_example = add_fills-shares start fills refl

abbrev limits : RiskCfg Hundredths
limits = record { max_order_size = 60; max_position = 50; max_loss = some (negsuc 99) }

allowed-add_fills_example :
    IsWithin (add_fills start (fill Side.sell 104 20 ∷ fill Side.sell 103 15 ∷ [])).position 50
unfolding check_pre_trade_risk side_to_value ◌+ℤ◌ ◌*ℤ◌
allowed-add_fills_example =
    allowed-add_fills lt start limits Side.sell 40
      (fill Side.sell 104 20 ∷ fill Side.sell 103 15 ∷ []) (omega arith) (omega arith) (omega arith)
      refl (refl, (refl, tt)) (omega arith)

abbrev quote : Bbo
quote = record { bid_price = pos 101; ask_price = pos 102; bid_qty = 3; ask_qty = 4 }

run-IsSettled_example : IsSettled (
    run
      (add_fill start (fill Side.buy 100 10))
      (Event.quote quote ∷ Event.fill (fill Side.sell 101 10) ∷ []))
run-IsSettled_example =
    run-IsSettled start (fill Side.buy 100 10)
      (Event.quote quote ∷ Event.fill (fill Side.sell 101 10) ∷ [])
