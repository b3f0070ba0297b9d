-- ===== src/Backtest/Result.antt =====
-- What `run` of src/backtest/engine.py returns: the aggregates, the drawdown and the Sharpe ratio.
-- The square root is an argument.
use criptotrade.Base.{
  ℕ, ◌+◌, ◌-◌, ltb, Bool, Option, none, some, List, [], ◌∷◌, if◌then◌else◌, length, keep, map,
  is_empty,
}
use criptotrade.Base.Float.{Float, nought, min, max, abs}
use criptotrade.Backtest.{BacktestEngine, BacktestTrade, Strategy, Candle, warmup}
use criptotrade.Backtest.Replay.{replay}

-- `BacktestResult`
pub record BacktestResult (F : Type 0) : Type 0 where
  pub total_trades : ℕ
  pub win_rate : F
  pub total_pnl_usdt : F
  pub total_pnl_pct : F
  pub max_drawdown_pct : F
  pub sharpe_ratio : Option F
  pub profit_factor : Option F
  pub avg_win_pct : F
  pub avg_loss_pct : F
  pub trades : List (BacktestTrade F)

module _ {F : Type 0} ⦃fl : Float F⦄ where
  -- `float(n)`
  abbrev pub count : ℕ → F
  count n = fl.lit n 0

  abbrev pub sum_from : F → List F → F
  sum_from total [] = total
  sum_from total (x ∷ xs) = sum_from (fl.add total x) xs

  abbrev pub mean_or : F → List F → F
  mean_or default [] = default
  mean_or default (x ∷ xs) = fl.div (sum_from nought (x ∷ xs)) (count (length (x ∷ xs)))

  abbrev pub pnl_of : BacktestTrade F → F
  pnl_of t = t.pnl_usdt

  abbrev pct_of : BacktestTrade F → F
  pct_of t = t.pnl_pct

  abbrev is_win : BacktestTrade F → Bool
  is_win t = fl.lt nought t.pnl_usdt

  abbrev is_loss : BacktestTrade F → Bool
  is_loss t = fl.le t.pnl_usdt nought

  -- The loop of `_max_drawdown`.
  unfoldable pub drawdown_from : F → F → List F → F
  drawdown_from peak max_dd [] = max_dd
  drawdown_from peak max_dd (v ∷ vs) =
      let top = max peak v in
      drawdown_from top
        (if fl.lt nought top then min max_dd (fl.div (fl.sub v top) top) else max_dd) vs

  -- `_max_drawdown`
  unfoldable pub max_drawdown : List F → F
  max_drawdown [] = nought
  max_drawdown (v ∷ []) = nought
  max_drawdown (v ∷ (w ∷ vs)) = drawdown_from v nought (v ∷ (w ∷ vs))

  abbrev squared : F → F
  squared x = fl.mul x x

  -- `_sharpe`
  unfoldable pub sharpe : (F → F) → List (BacktestTrade F) → F → Option F
  sharpe sqrt trades initial_capital =
      let returns = map (λ t. fl.div (pnl_of t) initial_capital) trades in
      let mean = fl.div (sum_from nought returns) (count (length returns)) in
      let variance =
        fl.div (sum_from nought (map (λ r. squared (fl.sub r mean)) returns))
          (count (length returns - 1)) in
      if ltb (length trades) 2
      then none
      else if fl.le variance nought
      then none
      else some (fl.round (fl.mul (fl.div mean (sqrt variance)) (sqrt (count 252))) 4)

  -- `_empty_result`
  abbrev pub empty_result : BacktestResult F
  empty_result = record {
    total_trades = 0;
    win_rate = nought;
    total_pnl_usdt = nought;
    total_pnl_pct = nought;
    max_drawdown_pct = nought;
    sharpe_ratio = none;
    profit_factor = none;
    avg_win_pct = nought;
    avg_loss_pct = nought;
    trades = [];
  }

  abbrev rounded_factor : Option F → Option F
  rounded_factor none = none
  rounded_factor (some x) = if fl.is_zero x then none else some (fl.round x 4)

  abbrev profit_factor : F → F → Option F
  profit_factor profit lost = if fl.lt nought lost then some (fl.div profit lost) else none

  -- `_compute_result`
  unfoldable pub compute_result :
      (F → F) → BacktestEngine F → List (BacktestTrade F) → List F → BacktestResult F
  compute_result sqrt e trades equity_curve =
      let wins = keep is_win trades in
      let losses = keep is_loss trades in
      let total = sum_from nought (map pnl_of trades) in
      if is_empty trades then empty_result else record {
        total_trades = length trades;
        win_rate = fl.round (fl.div (count (length wins)) (count (length trades))) 4;
        total_pnl_usdt = fl.round total 2;
        total_pnl_pct = fl.round (fl.div total e.initial_capital) 6;
        max_drawdown_pct = fl.round (max_drawdown equity_curve) 4;
        sharpe_ratio = sharpe sqrt trades e.initial_capital;
        profit_factor = rounded_factor (
            profit_factor (sum_from nought (map pnl_of wins))
              (abs (sum_from nought (map pnl_of losses))));
        avg_win_pct = fl.round (mean_or nought (map pct_of wins)) 6;
        avg_loss_pct = fl.round (mean_or nought (map pct_of losses)) 6;
        trades = trades;
      }

  -- `expectancy`
  unfoldable pub expectancy : BacktestResult F → F
  expectancy r =
      if is_empty r.trades then nought else fl.div r.total_pnl_usdt (count (length r.trades))

  -- `run`
  unfoldable pub run :
      {S : Type 0}
      → (F → F)
      → BacktestEngine F
      → Strategy S F
      → List (Candle F)
      → S
      → BacktestResult F
  run sqrt e strategy ohlcv memory =
      let r = replay e strategy ohlcv memory in
      if ltb (length ohlcv) (warmup + 10)
      then empty_result
      else compute_result sqrt e r.trades r.equity_curve
