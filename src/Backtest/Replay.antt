-- ===== src/Backtest/Replay.antt =====
-- The loop of `run` in src/backtest/engine.py.
use criptotrade.Base.{
  ℕ, zero, suc, ◌+◌, ◌-◌, String, Option, none, some, List, [], ◌∷◌, ◌++◌, if◌then◌else◌, length,
}
use criptotrade.Base.Float.{Float}
use criptotrade.Base.Text.{upper}
use criptotrade.Orders.Bridge.{or_else}
use criptotrade.Backtest.{
  Candle, Answer, OpenTrade, BacktestTrade, BacktestEngine, Strategy, Run, warmup, nth, last,
  window, is_trade,
}
use criptotrade.Backtest.Trades.{open_trade, build_market_data, check_exits, close_trade}

module _ {S F : Type 0} ⦃fl : Float F⦄ (e : BacktestEngine F) (strategy : Strategy S F) where
  abbrev pub settled : BacktestTrade F → Run S F → Run S F
  settled t r = record r {
    capital = fl.add r.capital t.pnl_usdt;
    trades = r.trades ++ (t ∷ []);
    open_trade = none;
  }

  abbrev pub leave : OpenTrade F → Option (F × String) → Run S F → Run S F
  leave t none r = r
  leave t (some (price, reason)) r =
      let next = settled (close_trade e t price reason r.capital) r in
      record next { equity_curve = r.equity_curve ++ (next.capital ∷ []) }

  -- The exits of a candle.
  abbrev pub exits : Candle F → Option (OpenTrade F) → Run S F → Run S F
  exits c none r = r
  exits c (some t) r = leave t (check_exits t c.high c.low) r

  abbrev pub acted : ℕ → F → Answer F → Run S F → Run S F
  acted i close answer r =
      let action = or_else answer.action "hold" in
      if is_trade action
      then record r { open_trade = some (open_trade e i (upper action) close answer r.capital) }
      else r

  abbrev pub heard : ℕ → F → Option (Answer F) × S → Run S F → Run S F
  heard i close (none, memory) r = record r { memory = memory }
  heard i close (some answer, memory) r = acted i close answer (record r { memory = memory })

  -- The signal of a candle, if no trade is open.
  abbrev pub enters : List (Candle F) → ℕ → F → Option (OpenTrade F) → Run S F → Run S F
  enters candles i close (some t) r = r
  enters candles i close none r =
      heard i close (strategy.analyze (build_market_data strategy.technical candles close) r.memory)
        r

  abbrev pub bar_at : List (Candle F) → ℕ → Option (Candle F) → Run S F → Run S F
  bar_at candles i none r = r
  bar_at candles i (some c) r =
      let after = exits c r.open_trade r in enters candles i c.close after.open_trade after

  -- The body of the loop.
  unfoldable pub bar : List (Candle F) → ℕ → Run S F → Run S F
  bar ohlcv i r = bar_at (window i ohlcv) i (nth i ohlcv) r

  -- The first `k` rounds of the loop.
  unfoldable pub bars : List (Candle F) → ℕ → Run S F → Run S F
  bars ohlcv zero r = r
  bars ohlcv (suc k) r = bar ohlcv (warmup + k) (bars ohlcv k r)

  abbrev pub start : S → Run S F
  start memory = record {
    capital = e.initial_capital;
    trades = [];
    open_trade = none;
    equity_curve = e.initial_capital ∷ [];
    memory = memory;
  }

  -- The close of what is still open, which has no point on the curve.
  abbrev pub close_remaining : Option (OpenTrade F) → Option (Candle F) → Run S F → Run S F
  close_remaining (some t) (some c) r = settled (close_trade e t c.close "end_of_data" r.capital) r
  close_remaining none c r = r
  close_remaining (some t) none r = r

  -- `run` up to the results.
  unfoldable pub replay : List (Candle F) → S → Run S F
  replay ohlcv memory =
      let r = bars ohlcv (length ohlcv - warmup) (start memory) in
      close_remaining r.open_trade (last ohlcv) r
