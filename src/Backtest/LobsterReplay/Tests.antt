-- ===== src/Backtest/LobsterReplay/Tests.antt =====
-- The replay of a file of four rows.
use nano_trade.Base.{ℕ, ◌+◌, ◌-◌, ◌*◌, List, [], ◌∷◌}
use nano_trade.Base.Int.{pos}
use nano_trade.Backtest.Csv.{Text, comma}
use nano_trade.Backtest.Stream.{IsStream, no_orders}
use nano_trade.Backtest.LobsterReplay.{FromChars, init, replay_lines}
use nano_trade.Backtest.LobsterReplay.Slots.{names_order, replay_lines-IsStream}

-- The decimal number with these digits, read on from `n`.
abbrev digits : ℕ → Text → ℕ
digits n [] = n
digits n (c ∷ cs) = digits (n * 10 + (c - 48)) cs

abbrev decimal : FromChars
decimal = record {
  to_int = λ s. pos (digits 0 s);
  to_uint64 = digits 0;
  to_price = λ s. pos (digits 0 s);
  to_qty = digits 0;
}

-- "9,t,7,5,2,1"
abbrev row : (type : ℕ) → Text
row type = 57 ∷ comma ∷ type ∷ comma ∷ 55 ∷ comma ∷ 53 ∷ comma ∷ 50 ∷ comma ∷ 49 ∷ []

-- An order is added, executed, cancelled, and then executed once more.
abbrev file : List Text
file = row 49 ∷ row 52 ∷ row 51 ∷ row 52 ∷ []

replay_lines-IsStream_example :
    IsStream names_order 1 no_orders (replay_lines decimal (init 3) file).emitted
replay_lines-IsStream_example = replay_lines-IsStream decimal 3 file
