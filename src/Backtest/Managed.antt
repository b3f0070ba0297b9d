-- ===== src/Backtest/Managed.antt =====
-- How the trades of the replay in src/backtest/engine.py end.
use criptotrade.Base.{
  ℕ, ◌≡◌, refl, ◌⊎◌, inl, inr, Bool, not, Option, none, some, List, String, ◌==◌, All, All-append,
  Bool-cases,
}
use criptotrade.Base.Float.{Float}
use criptotrade.Backtest.Rounds.{Holds, bars-Holds}
use criptotrade.Backtest.{BacktestEngine, BacktestTrade, OpenTrade, Strategy, Candle, Run}
use criptotrade.Backtest.Trades.{slipped, close_trade, check_exits, at_least, taken, first}
use criptotrade.Backtest.Replay.{bars, leave, start}

module _ {S F : Type 0} ⦃fl : Float F⦄ (e : BacktestEngine F) (strategy : Strategy S F) where
  -- A trade that ended for the reason, at the level, less the slippage.
  abbrev pub EndsAt : String → Option F → BacktestTrade F → Type 0
  EndsAt reason level t =
      (t.exit_reason ≡ reason)
      × ((p : F) × (level ≡ some p)
          × (t.exit_price ≡ fl.round (slipped e (not (t.action == "BUY")) p) 6))

  abbrev pub IsAtLevel : BacktestTrade F → Type 0
  IsAtLevel t = EndsAt "stop_loss" t.stop_loss t ⊎ EndsAt "take_profit" t.take_profit t

  abbrev pub AllAtLevel : F → List (BacktestTrade F) → List F → Type 0
  AllAtLevel capital trades curve = All IsAtLevel trades

  -- What an exit says of the two levels.
  abbrev IsExit : Option F → Option F → Option (F × String) → Type 0
  IsExit stop target none = Unit
  IsExit stop target (some (price, reason)) =
      ((reason ≡ "stop_loss") × (stop ≡ some price))
      ⊎ ((reason ≡ "take_profit") × (target ≡ some price))

  first-IsExit :
      (stop target : Option F) (a b : Option (F × String))
      → IsExit stop target a
      → IsExit stop target b
      → IsExit stop target (first a b)
  first-IsExit stop target none b ha hb = hb
  first-IsExit stop target (some (price, reason)) b ha hb = ha

  stop-IsExit :
      (test : F → F → Bool) (x : F) (stop target : Option F)
      → IsExit stop target (taken test x stop "stop_loss")
  stop-IsExit test x none target = tt
  stop-IsExit test x (some level) target = elim (Bool-cases (test x level)) [
    | inl met ↦ rw met (inl (refl, refl))
    | inr missed ↦ rw missed tt
  ]

  target-IsExit :
      (test : F → F → Bool) (x : F) (stop target : Option F)
      → IsExit stop target (taken test x target "take_profit")
  target-IsExit test x stop none = tt
  target-IsExit test x stop (some level) = elim (Bool-cases (test x level)) [
    | inl met ↦ rw met (inr (refl, refl))
    | inr missed ↦ rw missed tt
  ]

  either-IsExit :
      (t : OpenTrade F) (high low : F) → IsExit t.stop_loss t.take_profit (check_exits t high low)
  unfolding check_exits
  either-IsExit t high low =
      let long =
        first-IsExit t.stop_loss t.take_profit _ _ (stop-IsExit fl.le low t.stop_loss t.take_profit)
          (target-IsExit at_least high t.stop_loss t.take_profit) in
      let short =
        first-IsExit t.stop_loss t.take_profit _ _
          (stop-IsExit at_least high t.stop_loss t.take_profit)
          (target-IsExit fl.le low t.stop_loss t.take_profit) in
      elim (Bool-cases (t.action == "BUY")) [
        | inl buy ↦ rw buy long
        | inr not_buy ↦ elim (Bool-cases (t.action == "SELL")) [
          | inl sell ↦ rw not_buy (rw sell short)
          | inr other ↦ rw not_buy (rw other tt)
        ]
      ]

  leave-AtLevel :
      (t : OpenTrade F) (out : Option (F × String)) (r : Run S F)
      → IsExit t.stop_loss t.take_profit out
      → Holds e strategy AllAtLevel r
      → Holds e strategy AllAtLevel (leave e strategy t out r)
  unfolding close_trade
  leave-AtLevel t none r out h = h
  leave-AtLevel t (some (price, reason)) r (inl (why, at)) h =
      All-append IsAtLevel r.trades _ h (inl (why, (price, at, refl)), tt)
  leave-AtLevel t (some (price, reason)) r (inr (why, at)) h =
      All-append IsAtLevel r.trades _ h (inr (why, (price, at, refl)), tt)

  -- Whatever the strategy answers later: every trade that the rounds close has left at its own stop or
  -- at its own target, at that level less the slippage and for that reason. So none of them lacks
  -- both levels.
  pub bars-AtLevel :
      (ohlcv : List (Candle F)) (k : ℕ) (memory : S)
      → All IsAtLevel (bars e strategy ohlcv k (start e strategy memory)).trades
  bars-AtLevel ohlcv k memory =
      bars-Holds e strategy AllAtLevel
        (λ t high low r h. leave-AtLevel t (check_exits t high low) r (either-IsExit t high low) h)
        ohlcv k (start e strategy memory) tt
