-- ===== src/Backtest/Tests.antt =====
-- A replay of two candles after the warm-up.
use criptotrade.Base.{
  ℕ, zero, suc, ◌≡◌, refl, true, false, Option, none, some, List, [], ◌∷◌, ◌++◌, All, length, take,
  arith, ◌-◌,
}
use criptotrade.Base.Int.{ℤ, pos}
use criptotrade.Base.Float.{fixed}
use criptotrade.Backtest.{Candle, Answer, BacktestEngine, Strategy, Run, MarketData, warmup}
use criptotrade.Backtest.Replay.{bar, bars, start, replay}
use criptotrade.Backtest.Causal.{bars-Causal}
use criptotrade.Backtest.Booked.{final, running, replay-IsBooked}
use criptotrade.Backtest.Managed.{IsAtLevel, bars-AtLevel}

-- A candle that moves between two prices and closes at the third.
abbrev candle : ℕ → ℕ → ℕ → Candle ℤ
candle low high close = record {
  timestamp = pos 0;
  open_price = fixed.lit 100 0;
  high = fixed.lit high 0;
  low = fixed.lit low 0;
  close = fixed.lit close 0;
  volume = fixed.lit 5 0;
}

abbrev repeated : ℕ → List (Candle ℤ) → List (Candle ℤ)
repeated zero rest = rest
repeated (suc n) rest = candle 99 101 100 ∷ repeated n rest

abbrev falling : List (Candle ℤ)
falling = repeated 51 (candle 80 100 85 ∷ [])

abbrev rising : List (Candle ℤ)
rising = repeated 51 (candle 100 130 125 ∷ [])

abbrev engine : BacktestEngine ℤ
engine = record {
  initial_capital = fixed.lit 10_000 0;
  commission_pct = fixed.lit 1 3;
  slippage_pct = fixed.lit 5 4;
}

-- It always buys, and remembers how often it was asked.
abbrev buyer : Strategy ℕ ℤ
buyer = record {
  analyze = λ market asked. (
    some (record {
      action = some "buy";
      position_size_pct = none;
      stop_loss = some (fixed.lit 95 0);
      take_profit = some (fixed.lit 120 0);
    }),
    suc asked,
  );
  technical = λ candles. none;
}

bars-Causal_example :
    bars engine buyer falling 1 (start engine buyer 0)
    ≡ bars engine buyer rising 1 (start engine buyer 0)
bars-Causal_example =
    bars-Causal engine buyer falling rising 51 1 (start engine buyer 0) refl (omega arith)

replay-IsBooked_example :
    let ended = replay engine buyer falling 0 in
    (ended.capital ≡ final engine.initial_capital ended.trades)
    × (ended.equity_curve
        ≡ running engine.initial_capital
            (bars engine buyer falling (length falling - warmup) (start engine buyer 0)).trades)
replay-IsBooked_example = replay-IsBooked engine buyer falling 0

bars-AtLevel_example :
    All (IsAtLevel engine buyer) (bars engine buyer falling 2 (start engine buyer 0)).trades
bars-AtLevel_example = bars-AtLevel engine buyer falling 2 0

-- The second candle stops the trade out, and a new one is opened at once.
stopped_out : length (bars engine buyer falling 2 (start engine buyer 0)).trades ≡ 1
unfolding bars bar criptotrade.Backtest.Trades.check_exits criptotrade.Backtest.Trades.open_trade
    criptotrade.Base.Text.upper
stopped_out = refl
