-- ===== src/Backtest/Csv.antt =====
-- `nextField` of backtest/lobster_replay.cpp and binance_aggtrades_replay.cpp: the fields of a line. A
-- character is its code; `pos` is what is left of the line from there on.
use nano_trade.Base.{ℕ, ◌==◌, if◌then◌else◌, List, [], ◌∷◌}

abbrev pub Text : Type 0
Text = List ℕ

abbrev pub comma : ℕ
comma = 44

-- The field up to the next comma or the end, and what comes after that comma.
unfoldable pub next_field : Text → Text × Text
next_field [] = ([], [])
next_field (c ∷ cs) =
    let rest = next_field cs in if c == comma then ([], cs) else (c ∷ rest.0, rest.1)
