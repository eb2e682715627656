-- ===== src/Backtest/BinanceReplay/Trades.antt =====
-- The stream of a whole file of trades.
use nano_trade.Base.{
  ℕ, ◌+◌, ◌<◌, ◌≤◌, ◌≡◌, inl, refl, sym, subst, arith, Bool, true, false, not, ◌&&◌, ◌==◌, if-holds,
  List, [], ◌∷◌,
}
use nano_trade.Base.Int.{ℤ, eqb_ℤ}
use nano_trade.Base.Double.{Double}
use nano_trade.Base.Lists.{length}
use nano_trade.Backtest.Csv.{Text}
use nano_trade.Backtest.Stream.{is_change, IsStream, no_orders}
use nano_trade.Backtest.BinanceReplay.{
  BinanceReplay, FromChars, Row, max_oid, init, push, cancel_bid, cancel_ask, move_side,
  trade_update, skip_row, is_digit, replay_trade, trade_line, replay_trades, parse_row,
}
use nano_trade.Backtest.BinanceReplay.Sides.{
  live, IsSent, IsSided, IsOpen, IsMoved, push-live, push-IsSent, cancel_bid-NoBid,
  cancel_ask-NoAsk, add_bid-IsMoved, add_ask-IsMoved,
}

move_side-IsMoved :
    (s : BinanceReplay) (m : Bool) (price : ℤ)
    → IsSided s
    → s.next_oid < max_oid
    → IsMoved s.next_oid (move_side s m price)
unfolding move_side
move_side-IsMoved s true price v room =
    if-holds (IsMoved s.next_oid) (eqb_ℤ price s.best_bid)
      (record { sided = v; next = omega arith })
      (add_bid-IsMoved s.next_oid (cancel_bid s) price room (cancel_bid-NoBid s v room))
move_side-IsMoved s false price v room =
    if-holds (IsMoved s.next_oid) (eqb_ℤ price s.best_ask)
      (record { sided = v; next = omega arith })
      (add_ask-IsMoved s.next_oid (cancel_ask s) price room (cancel_ask-NoAsk s v room))

-- A TRADE changes no order.
trade-IsMoved :
    (n : ℕ) (s : BinanceReplay) (t : ℕ) (row : Row)
    → IsMoved n s
    → IsMoved n (push s (trade_update t row))
unfolding push
trade-IsMoved n s t row v =
    let e : live (push s (trade_update t row)) ≡ live s = push-live s (trade_update t row) in
    record {
      sided = record {
        sent = push-IsSent s (trade_update t row) v.sided.sent (omega arith) refl;
        bid = subst (λ f. IsOpen f s.next_oid s.best_bid s.bid_oid) (sym e) v.sided.bid;
        ask = subst (λ f. IsOpen f s.next_oid s.best_ask s.ask_oid) (sym e) v.sided.ask;
        apart = v.sided.apart;
      };
      next = v.next;
    }

-- A change of the counts.
skip_row-IsMoved : (s : BinanceReplay) → IsSided s → IsMoved s.next_oid (skip_row s)
skip_row-IsMoved s v = record {
  sided = record {
    sent = record { stream = v.sent.stream; number = v.sent.number };
    bid = v.bid;
    ask = v.ask;
    apart = v.apart;
  };
  next = omega arith;
}

replay_trade-IsMoved :
    (s : BinanceReplay) (row : Row)
    → IsSided s
    → s.next_oid < max_oid
    → IsMoved s.next_oid (replay_trade s row)
unfolding replay_trade
replay_trade-IsMoved s row v room =
    if-holds (IsMoved s.next_oid) (row.scaled_qty == 0) (skip_row-IsMoved s v) (
      trade-IsMoved s.next_oid _ s.ticker_id row (
        move_side-IsMoved (record s { trades_processed = s.trades_processed + 1 })
          row.is_buyer_maker row.scaled_price
          (record {
            sent = record { stream = v.sent.stream; number = v.sent.number };
            bid = v.bid;
            ask = v.ask;
            apart = v.apart;
          })
          room))

module _ {W : Type 0} ⦃d : Double W⦄ (from_chars : FromChars W) where
  trade_line-IsMoved :
      (s : BinanceReplay) (l : Text)
      → IsSided s
      → s.next_oid < max_oid
      → IsMoved s.next_oid (trade_line from_chars s l)
  unfolding trade_line
  trade_line-IsMoved s [] v room = record { sided = v; next = omega arith }
  trade_line-IsMoved s (c ∷ cs) v room =
      if-holds (IsMoved s.next_oid)
        ((s.rows_emitted == 0) && ((s.trades_processed == 0) && not (is_digit c)))
        (skip_row-IsMoved s v) (replay_trade-IsMoved s (parse_row from_chars (c ∷ cs)) v room)

  replay_trades-IsSided :
      (s : BinanceReplay) (ls : List Text)
      → IsSided s
      → s.next_oid + length ls ≤ max_oid
      → IsSided (replay_trades from_chars s ls)
  unfolding replay_trades
  replay_trades-IsSided s [] v room = v
  replay_trades-IsSided s (l ∷ ls) v room =
      let m = trade_line-IsMoved s l v (omega (arith, room)) in
      replay_trades-IsSided (trade_line from_chars s l) ls m.sided (omega (arith, room, m.next))

  -- For a file with fewer lines than there are numbers for orders, whatever numbers its fields are
  -- read as: the messages of the replay are numbered in turn from 1, their order numbers are inside
  -- the arrays of a book, and each CANCEL is about an order that has been added and has not been
  -- cancelled since.
  pub replay_trades-IsStream :
      (ticker_id : ℕ) (ls : List Text)
      → length ls + 1 ≤ max_oid
      → IsStream is_change 1 no_orders (replay_trades from_chars (init ticker_id) ls).emitted
  unfolding init
  replay_trades-IsStream ticker_id ls h = IsSent.stream (
      IsSided.sent (
        replay_trades-IsSided (init ticker_id) ls
          (record {
            sent = record { stream = tt; number = refl };
            bid = inl refl;
            ask = inl refl;
            apart = inl refl;
          })
          (omega (arith, h))))
