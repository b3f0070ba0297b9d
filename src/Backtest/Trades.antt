-- ===== src/Backtest/Trades.antt =====
-- The market data, the opening, the exits and the closing of a trade in src/backtest/engine.py.
use criptotrade.Base.{
  ℕ, leb, String, ◌==◌, Bool, false, not, Option, none, some, List, if◌then◌else◌, length,
}
use criptotrade.Base.Float.{Float, nought, one, hundred, max}
use criptotrade.Orders.Bridge.{or_else}
use criptotrade.Backtest.{
  Candle, Indicators, MarketData, Answer, OpenTrade, BacktestTrade, BacktestEngine, warmup, last,
}

module _ {F : Type 0} ⦃fl : Float F⦄ where
  abbrev volume_of : Option (Candle F) → F
  volume_of none = nought
  volume_of (some c) = c.volume

  abbrev is_low : Option F → Bool
  is_low none = false
  is_low (some b) = fl.lt b (fl.lit 5 2)

  abbrev average_volume : F → Option F → F
  average_volume volume none = one
  average_volume volume (some ratio) =
      if fl.is_zero ratio then one else fl.div volume (max ratio (fl.lit 1 3))

  abbrev described : List (Candle F) → F → F → Option (Indicators F) → MarketData F
  described candles close volume none = record {
    current_price = close;
    regime = "unknown";
    rsi = fl.lit 50 0;
    macd_histogram = nought;
    at_bollinger_lower = false;
    ma_20 = close;
    ma_50 = close;
    volume_24h = volume;
    avg_volume = one;
    indicators = none;
    raw_ohlcv = candles;
  }
  described candles close volume (some ind) = record {
    current_price = close;
    regime = ind.regime;
    rsi = or_else ind.rsi (fl.lit 50 0);
    macd_histogram = or_else ind.macd_hist nought;
    at_bollinger_lower = is_low ind.bb_percent;
    ma_20 = or_else ind.sma_20 close;
    ma_50 = or_else ind.sma_50 close;
    volume_24h = volume;
    avg_volume = average_volume volume ind.volume_ratio;
    indicators = some ind;
    raw_ohlcv = candles;
  }

  -- `_build_market_data`
  unfoldable pub build_market_data :
      (List (Candle F) → Option (Indicators F)) → List (Candle F) → F → MarketData F
  build_market_data technical candles close =
      described candles close (volume_of (last candles))
        (if leb warmup (length candles) then technical candles else none)

  -- A price that slips up or down.
  abbrev pub slipped : BacktestEngine F → Bool → F → F
  slipped e up price =
      fl.mul price (if up then fl.add one e.slippage_pct else fl.sub one e.slippage_pct)

  -- `_open_trade`
  unfoldable pub open_trade : BacktestEngine F → ℕ → String → F → Answer F → F → OpenTrade F
  open_trade e candle_index action close answer capital = record {
    candle_index = candle_index;
    action = action;
    entry_price = fl.round (slipped e (action == "BUY") close) 6;
    position_size_pct = or_else answer.position_size_pct (fl.lit 2 0);
    stop_loss = answer.stop_loss;
    take_profit = answer.take_profit;
    capital_at_entry = capital;
  }

  abbrev pub at_least : F → F → Bool
  at_least x level = fl.le level x

  -- A level that is set and met.
  abbrev pub taken : (F → F → Bool) → F → Option F → String → Option (F × String)
  taken test x none reason = none
  taken test x (some level) reason = if test x level then some (level, reason) else none

  abbrev pub first : Option (F × String) → Option (F × String) → Option (F × String)
  first none other = other
  first (some found) other = some found

  -- `_check_exits`, none where there is no exit.
  unfoldable pub check_exits : OpenTrade F → F → F → Option (F × String)
  check_exits t high low =
      if t.action == "BUY"
      then first (taken fl.le low t.stop_loss "stop_loss")
          (taken at_least high t.take_profit "take_profit")
      else if t.action == "SELL"
      then first (taken at_least high t.stop_loss "stop_loss")
          (taken fl.le low t.take_profit "take_profit")
      else none

  -- The net result of a trade that leaves at a slipped price, as a fraction.
  abbrev net_pct : BacktestEngine F → OpenTrade F → F → F
  net_pct e t out =
      fl.sub
        (fl.div (if t.action == "BUY" then fl.sub out t.entry_price else fl.sub t.entry_price out)
          t.entry_price)
        (fl.mul e.commission_pct (fl.lit 2 0))

  -- `_close_trade`
  unfoldable pub close_trade : BacktestEngine F → OpenTrade F → F → String → F → BacktestTrade F
  close_trade e t exit_price exit_reason capital =
      let out = slipped e (not (t.action == "BUY")) exit_price in
      let net = net_pct e t out in
      record {
        candle_index = t.candle_index;
        action = t.action;
        entry_price = t.entry_price;
        exit_price = fl.round out 6;
        position_size_pct = t.position_size_pct;
        pnl_usdt = fl.round (fl.mul (fl.div (fl.mul capital t.position_size_pct) hundred) net) 4;
        pnl_pct = fl.round net 6;
        stop_loss = t.stop_loss;
        take_profit = t.take_profit;
        exit_reason = exit_reason;
      }
