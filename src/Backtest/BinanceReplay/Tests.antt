-- ===== src/Backtest/BinanceReplay/Tests.antt =====
-- The replay of a file of three trades.
use nano_trade.Base.{ℕ, ◌+◌, ◌-◌, ◌*◌, arith, none, some, List, [], ◌∷◌}
use nano_trade.Base.Int.{pos, pos_part}
use nano_trade.Base.Double.{Double, Hundredths, hundredths}
use nano_trade.Backtest.Csv.{Text, comma}
use nano_trade.Backtest.Stream.{is_change, IsStream, no_orders}
use nano_trade.Backtest.BinanceReplay.{FromChars, init, replay_trades}
use nano_trade.Backtest.BinanceReplay.Trades.{replay_trades-IsStream}

instance abbrev in_hundredths : Double Hundredths
in_hundredths = hundredths

-- The decimal number with these digits, read on from `n`.
abbrev digits : ℕ → Text → ℕ
digits n [] = n
digits n (c ∷ cs) = digits (n * 10 + (c - 48)) cs

abbrev whole : Hundredths → ℕ
whole none = 0
whole (some n) = pos_part n

abbrev decimal : FromChars Hundredths
decimal = record {
  to_double = λ s. some (pos (digits 0 s));
  to_price = λ x. pos (whole x);
  to_qty = whole;
}

-- "1,p,2,1,1,1,m"
abbrev row : (price is_maker : ℕ) → Text
row price is_maker =
    49 ∷ comma ∷ price ∷ comma ∷ 50 ∷ comma ∷ 49 ∷ comma ∷ 49 ∷ comma ∷ 49 ∷ comma ∷ is_maker ∷ []

-- Sales at 5 and at 6, and a purchase at 7.
abbrev file : List Text
file = row 53 84 ∷ row 54 84 ∷ row 55 70 ∷ []

replay_trades-IsStream_example :
    IsStream is_change 1 no_orders (replay_trades decimal (init 3) file).emitted
replay_trades-IsStream_example = replay_trades-IsStream decimal 3 file (omega arith)
