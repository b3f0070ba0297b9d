-- ===== src/Backtest/Booked.antt =====
-- The capital and the curve of the replay in src/backtest/engine.py, as its trades make them.
use criptotrade.Base.{
  ℕ, ◌-◌, ◌≡◌, refl, sym, ap, ◌∙◌, Option, none, some, List, [], ◌∷◌, ◌++◌, length, String,
}
use criptotrade.Base.Float.{Float}
use criptotrade.Backtest.Rounds.{Holds, bars-Holds}
use criptotrade.Backtest.{
  BacktestEngine, BacktestTrade, OpenTrade, Strategy, Candle, Run, warmup, last,
}
use criptotrade.Backtest.Trades.{close_trade, check_exits}
use criptotrade.Backtest.Replay.{bars, leave, settled, start, close_remaining, replay}

module _ {F : Type 0} ⦃fl : Float F⦄ where
  -- The capital after each trade, the initial one first.
  abbrev pub running : F → List (BacktestTrade F) → List F
  running capital [] = capital ∷ []
  running capital (t ∷ ts) = capital ∷ running (fl.add capital t.pnl_usdt) ts

  abbrev pub final : F → List (BacktestTrade F) → F
  final capital [] = capital
  final capital (t ∷ ts) = final (fl.add capital t.pnl_usdt) ts

  final-append :
      (c : F) (ts : List (BacktestTrade F)) (t : BacktestTrade F)
      → final c (ts ++ (t ∷ [])) ≡ fl.add (final c ts) t.pnl_usdt
  final-append c [] t = refl
  final-append c (u ∷ ts) t = final-append (fl.add c u.pnl_usdt) ts t

  running-append :
      (c : F) (ts : List (BacktestTrade F)) (t : BacktestTrade F)
      → running c (ts ++ (t ∷ [])) ≡ running c ts ++ (fl.add (final c ts) t.pnl_usdt ∷ [])
  running-append c [] t = refl
  running-append c (u ∷ ts) t = ap (λ r. c ∷ r) (running-append (fl.add c u.pnl_usdt) ts t)

module _ {S F : Type 0} ⦃fl : Float F⦄ (e : BacktestEngine F) (strategy : Strategy S F) where
  -- The capital and the curve are those that the trades make.
  abbrev pub IsBooked : F → List (BacktestTrade F) → List F → Type 0
  IsBooked capital trades curve =
      (capital ≡ final e.initial_capital trades) × (curve ≡ running e.initial_capital trades)

  settled-capital :
      (t : BacktestTrade F) (r : Run S F)
      → r.capital ≡ final e.initial_capital r.trades
      → (settled e strategy t r).capital ≡ final e.initial_capital (settled e strategy t r).trades
  settled-capital t r h =
      ap (λ c. fl.add c t.pnl_usdt) h ∙ sym (final-append e.initial_capital r.trades t)

  leave-IsBooked :
      (t : OpenTrade F) (out : Option (F × String)) (r : Run S F)
      → Holds e strategy IsBooked r
      → Holds e strategy IsBooked (leave e strategy t out r)
  leave-IsBooked t none r h = h
  leave-IsBooked t (some (price, reason)) r (booked, curve) =
      let closed = close_trade e t price reason r.capital in
      (
        settled-capital closed r booked,
        ap (λ c. c ++ (fl.add r.capital closed.pnl_usdt ∷ [])) curve
            ∙ ap (λ c. running e.initial_capital r.trades ++ (fl.add c closed.pnl_usdt ∷ [])) booked
            ∙ sym (running-append e.initial_capital r.trades closed),
      )

  pub bars-IsBooked :
      (ohlcv : List (Candle F)) (k : ℕ) (memory : S)
      → Holds e strategy IsBooked (bars e strategy ohlcv k (start e strategy memory))
  bars-IsBooked ohlcv k memory =
      bars-Holds e strategy IsBooked
        (λ t high low r h. leave-IsBooked t (check_exits t high low) r h) ohlcv k
        (start e strategy memory) (refl, refl)

  remaining-capital :
      (o : Option (OpenTrade F)) (c : Option (Candle F)) (r : Run S F)
      → r.capital ≡ final e.initial_capital r.trades
      → let ended = close_remaining e strategy o c r in
        (ended.capital ≡ final e.initial_capital ended.trades)
        × (ended.equity_curve ≡ r.equity_curve)
  remaining-capital (some t) (some c) r h = (settled-capital _ r h, refl)
  remaining-capital none c r h = (h, refl)
  remaining-capital (some t) none r h = (h, refl)

  -- However long the replay is and whatever the strategy does: the capital at the end is the initial
  -- one with the results of all trades added in their order, and the curve is the running capital of
  -- the trades that the loop has closed. The close at the end of the data has no point on it.
  pub replay-IsBooked :
      (ohlcv : List (Candle F)) (memory : S)
      → let ended = replay e strategy ohlcv memory in
        (ended.capital ≡ final e.initial_capital ended.trades)
        × (ended.equity_curve
            ≡ running e.initial_capital
                (bars e strategy ohlcv (length ohlcv - warmup) (start e strategy memory)).trades)
  unfolding replay
  replay-IsBooked ohlcv memory =
      let (booked, curve) = bars-IsBooked ohlcv (length ohlcv - warmup) memory in
      let (capital, same) = remaining-capital _ (last ohlcv) _ booked in (capital, same ∙ curve)
