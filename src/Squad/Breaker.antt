-- ===== src/Squad/Breaker.antt =====
-- `CircuitBreaker` of src/orchestration/squad_orchestrator.py as the squad builds it, with the
-- ledger and the table. A method takes the clock's reading.
pub mod Streak
pub mod Restart
pub mod Frame
mod Tests
use Prim.Native.String.{◌++◌}
use criptotrade.Base.{
  ℕ, suc, leb, String, Bool, true, false, Option, none, some, List, [], ◌∷◌, if◌then◌else◌,
}
use criptotrade.Base.Text.{show_nat}
use criptotrade.Base.Float.{Float, nought, neg}
use criptotrade.Ledger.{log_decision}
use criptotrade.Ledger.Payload.{str}
use criptotrade.Squad.{BreakerState, Desk}

abbrev pub consecutive_loss_limit : ℕ
consecutive_loss_limit = 3

module _ {F : Type 0} ⦃fl : Float F⦄ where
  abbrev pub daily_loss_limit_pct : F
  daily_loss_limit_pct = fl.lit 40 1

  abbrev pub cooldown_seconds : F
  cooldown_seconds = fl.lit 86_400 0

  -- `__init__`
  abbrev pub fresh_breaker : BreakerState F
  fresh_breaker = record { tripped_at = none; consecutive_losses = 0; daily_loss_pct = nought }

  -- `_persist`
  abbrev pub persist : Desk F → Desk F
  persist d = record d { breaker_row = some d.breaker }

  unfoldable pub restore : Option (BreakerState F) → Desk F → Desk F
  restore none d = d
  restore (some row) d = record d { breaker = row }

  -- `reload`
  unfoldable pub reload_breaker : Desk F → Desk F
  unfolding restore
  reload_breaker d = restore d.breaker_row d

  -- `_trip` on a breaker that is not tripped
  unfoldable pub trip_closed : F → String → Desk F → Desk F
  trip_closed now reason d = record d {
    breaker = record d.breaker { tripped_at = some now };
    ledger = log_decision "circuit_breaker_tripped" (("reason", str reason) ∷ []) d.ledger;
  }

  -- `_trip`
  unfoldable pub trip : F → String → Option F → Desk F → Desk F
  unfolding trip_closed
  trip now reason (some t) d = d
  trip now reason none d = trip_closed now reason d

  -- `_reset`
  unfoldable pub reset : String → Desk F → Desk F
  reset reason d = persist (record d {
    breaker = record d.breaker { tripped_at = none; consecutive_losses = 0 };
    ledger = log_decision "circuit_breaker_reset" (("reason", str reason) ∷ []) d.ledger;
  })

  abbrev pub is_cool : F → F → Bool
  is_cool now tripped_at = fl.le cooldown_seconds (fl.sub now tripped_at)

  unfoldable pub check_open : F → Option F → Desk F → Bool × Desk F
  unfolding reset
  check_open now none d = (false, d)
  check_open now (some t) d =
      if is_cool now t then (false, reset "cooldown expired" d) else (true, d)

  -- `is_open`
  unfoldable pub is_open : F → Desk F → Bool × Desk F
  unfolding check_open
  is_open now d = check_open now d.breaker.tripped_at d

  -- The counters after a result.
  abbrev pub count_result : F → BreakerState F → BreakerState F
  count_result pnl_pct b = record b {
    daily_loss_pct = fl.add b.daily_loss_pct pnl_pct;
    consecutive_losses = if fl.lt pnl_pct nought then suc b.consecutive_losses else 0;
  }

  abbrev pub is_daily_limit : BreakerState F → Bool
  is_daily_limit b = fl.le b.daily_loss_pct (neg daily_loss_limit_pct)

  abbrev pub is_streak : BreakerState F → Bool
  is_streak b = leb consecutive_loss_limit b.consecutive_losses

  abbrev pub daily_reason : BreakerState F → String
  daily_reason b =
      "daily loss "
      ++ (fl.show_to 2 b.daily_loss_pct ++ ("% reached -" ++ (fl.show daily_loss_limit_pct ++ "%")))

  abbrev pub streak_reason : BreakerState F → String
  streak_reason b =
      show_nat b.consecutive_losses
      ++ (" consecutive losses reached limit " ++ show_nat consecutive_loss_limit)

  -- `record_trade_result`
  unfoldable pub record_trade_result : F → F → Desk F → Desk F
  unfolding trip
  record_trade_result now pnl_pct d =
      let b = count_result pnl_pct d.breaker in
      let d' : Desk F = record d { breaker = b } in
      persist (
        if is_daily_limit b
        then trip now (daily_reason b) b.tripped_at d'
        else if is_streak b
        then trip now (streak_reason b) b.tripped_at d'
        else d')

  reset_if_cool : F → Option F → Desk F → Desk F
  unfolding reset
  reset_if_cool now none d = d
  reset_if_cool now (some t) d = if is_cool now t then reset "daily reset" d else d

  -- `reset_daily`
  unfoldable pub reset_daily : F → Desk F → Desk F
  unfolding reset_if_cool
  reset_daily now d =
      let d' : Desk F = record d { breaker = record d.breaker { daily_loss_pct = nought } } in
      persist (reset_if_cool now d'.breaker.tripped_at d')

-- The calls on the breaker, each with the clock's reading.
pub data BreakerOp (F : Type 0) : Type 0 where
  trade_result : F → F → BreakerOp F
  query : F → BreakerOp F
  daily : F → BreakerOp F

abbrev pub reading : {F : Type 0} → BreakerOp F → F
reading (trade_result now x) = now
reading (query now) = now
reading (daily now) = now

module _ {F : Type 0} ⦃fl : Float F⦄ where
  unfoldable pub breaker_step : BreakerOp F → Desk F → Desk F
  breaker_step (trade_result now x) d = record_trade_result now x d
  breaker_step (query now) d = (is_open now d).1
  breaker_step (daily now) d = reset_daily now d

  unfoldable pub breaker_run : List (BreakerOp F) → Desk F → Desk F
  breaker_run [] d = d
  breaker_run (op ∷ ops) d = breaker_run ops (breaker_step op d)
