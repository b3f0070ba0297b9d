-- ===== src/Backtest/Rounds.antt =====
-- What each close keeps, the rounds of the replay in src/backtest/engine.py keep.
use criptotrade.Base.{ℕ, zero, suc, inl, inr, Option, none, some, List, Bool-cases}
use criptotrade.Base.Float.{Float}
use criptotrade.Orders.Bridge.{or_else}
use criptotrade.Backtest.{
  BacktestEngine, BacktestTrade, OpenTrade, Answer, Strategy, Candle, Run, is_trade,
}
use criptotrade.Backtest.Trades.{build_market_data, check_exits}
use criptotrade.Backtest.Replay.{bar, bars, bar_at, enters, heard, acted, exits, leave}

module _ {S F : Type 0} ⦃fl : Float F⦄ (e : BacktestEngine F) (strategy : Strategy S F)
    (P : F → List (BacktestTrade F) → List F → Type 0) where
  -- A statement on the capital, the trades and the curve.
  abbrev pub Holds : Run S F → Type 0
  Holds r = P r.capital r.trades r.equity_curve

  acted-Holds :
      (i : ℕ) (close : F) (answer : Answer F) (r : Run S F)
      → Holds r
      → Holds (acted e strategy i close answer r)
  acted-Holds i close answer r h = elim (Bool-cases (is_trade (or_else answer.action "hold"))) [
    | inl trade ↦ rw trade h
    | inr hold ↦ rw hold h
  ]

  heard-Holds :
      (i : ℕ) (close : F) (said : Option (Answer F) × S) (r : Run S F)
      → Holds r
      → Holds (heard e strategy i close said r)
  heard-Holds i close (none, memory) r h = h
  heard-Holds i close (some answer, memory) r h =
      acted-Holds i close answer (record r { memory = memory }) h

  enters-Holds :
      (candles : List (Candle F)) (i : ℕ) (close : F) (o : Option (OpenTrade F)) (r : Run S F)
      → Holds r
      → Holds (enters e strategy candles i close o r)
  enters-Holds candles i close none r h =
      heard-Holds i close
        (strategy.analyze (build_market_data strategy.technical candles close) r.memory) r h
  enters-Holds candles i close (some t) r h = h

  module _
      (kept : (t : OpenTrade F) (high low : F) (r : Run S F)
        → Holds r
        → Holds (leave e strategy t (check_exits t high low) r)) where
    exits-Holds :
        (c : Candle F) (o : Option (OpenTrade F)) (r : Run S F)
        → Holds r
        → Holds (exits e strategy c o r)
    exits-Holds c none r h = h
    exits-Holds c (some t) r h = kept t c.high c.low r h

    bar_at-Holds :
        (candles : List (Candle F)) (i : ℕ) (c : Option (Candle F)) (r : Run S F)
        → Holds r
        → Holds (bar_at e strategy candles i c r)
    bar_at-Holds candles i none r h = h
    bar_at-Holds candles i (some c) r h =
        enters-Holds candles i c.close _ _ (exits-Holds c r.open_trade r h)

    pub bars-Holds :
        (ohlcv : List (Candle F)) (k : ℕ) (r : Run S F)
        → Holds r
        → Holds (bars e strategy ohlcv k r)
    unfolding bars bar
    bars-Holds ohlcv zero r h = h
    bars-Holds ohlcv (suc k) r h = bar_at-Holds _ _ _ _ (bars-Holds ohlcv k r h)
