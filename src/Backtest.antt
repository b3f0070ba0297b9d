-- ===== src/Backtest.antt =====
-- `BacktestEngine` of src/backtest/engine.py: the replay of the candles. The strategy has a state of
-- its own and answers none where it raises; the indicators of a window are an argument, none where
-- their computation fails.
pub mod Trades
pub mod Replay
pub mod Result
pub mod Rounds
pub mod Causal
pub mod Booked
pub mod Managed
mod Tests
use criptotrade.Base.{
  ℕ, zero, suc, ◌+◌, ◌-◌, ltb, leb, String, ◌==◌, Bool, true, false, not, ◌&&◌, ◌||◌, Option, none,
  some, List, [], ◌∷◌, ◌++◌, if◌then◌else◌, take, drop, length,
}
use criptotrade.Base.Float.{Float, nought, one, hundred, max}
use criptotrade.Base.Text.{upper}
use criptotrade.Orders.Bridge.{or_else}

pub record Candle (F : Type 0) : Type 0 where
  pub timestamp : F
  pub open_price : F
  pub high : F
  pub low : F
  pub close : F
  pub volume : F

-- The part of `TechnicalIndicators` that the engine reads, with the regime.
pub record Indicators (F : Type 0) : Type 0 where
  pub rsi : Option F
  pub macd_hist : Option F
  pub bb_percent : Option F
  pub sma_20 : Option F
  pub sma_50 : Option F
  pub volume_ratio : Option F
  pub regime : String

pub record MarketData (F : Type 0) : Type 0 where
  pub current_price : F
  pub regime : String
  pub rsi : F
  pub macd_histogram : F
  pub at_bollinger_lower : Bool
  pub ma_20 : F
  pub ma_50 : F
  pub volume_24h : F
  pub avg_volume : F
  pub indicators : Option (Indicators F)
  pub raw_ohlcv : List (Candle F)

-- What a strategy answers; a missing key is none.
pub record Answer (F : Type 0) : Type 0 where
  pub action : Option String
  pub position_size_pct : Option F
  pub stop_loss : Option F
  pub take_profit : Option F

pub record OpenTrade (F : Type 0) : Type 0 where
  pub candle_index : ℕ
  pub action : String
  pub entry_price : F
  pub position_size_pct : F
  pub stop_loss : Option F
  pub take_profit : Option F
  pub capital_at_entry : F

-- `BacktestTrade`
pub record BacktestTrade (F : Type 0) : Type 0 where
  pub candle_index : ℕ
  pub action : String
  pub entry_price : F
  pub exit_price : F
  pub position_size_pct : F
  pub pnl_usdt : F
  pub pnl_pct : F
  pub stop_loss : Option F
  pub take_profit : Option F
  pub exit_reason : String

pub record BacktestEngine (F : Type 0) : Type 0 where
  pub initial_capital : F
  pub commission_pct : F
  pub slippage_pct : F

-- The strategy, and the indicators of a window.
pub record Strategy (S F : Type 0) : Type 0 where
  pub analyze : MarketData F → S → Option (Answer F) × S
  pub technical : List (Candle F) → Option (Indicators F)

-- The variables of `run`, and the state of the strategy.
pub record Run (S F : Type 0) : Type 0 where
  pub capital : F
  pub trades : List (BacktestTrade F)
  pub open_trade : Option (OpenTrade F)
  pub equity_curve : List F
  pub memory : S

-- `WARMUP_CANDLES`
abbrev pub warmup : ℕ
warmup = 50

-- `xs[i]`, none where Python raises.
abbrev pub nth {ℓ} : {A : Type ℓ} → ℕ → List A → Option A
nth i [] = none
nth zero (x ∷ xs) = some x
nth (suc i) (x ∷ xs) = nth i xs

abbrev pub last {ℓ} : {A : Type ℓ} → List A → Option A
last [] = none
last (x ∷ []) = some x
last (x ∷ (y ∷ xs)) = last (y ∷ xs)

-- `ohlcv[max(0, i - 199): i + 1]`
abbrev pub window {ℓ} : {A : Type ℓ} → ℕ → List A → List A
window i xs = drop (i - 199) (take (suc i) xs)

abbrev pub is_trade : String → Bool
is_trade action = action == "buy" || (action == "BUY" || (action == "sell" || action == "SELL"))
