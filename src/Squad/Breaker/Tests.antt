-- ===== src/Squad/Breaker/Tests.antt =====
-- The breaker's theorems at concrete counters.
use criptotrade.Base.{ℕ, ◌≡◌, refl, true, false, not, none, some, List, [], ◌∷◌, ◌*◌, every}
use criptotrade.Base.Int.{ℤ, pos, negsuc, ◌+ℤ◌, ◌-ℤ◌}
use criptotrade.Base.Float.{fixed, neg}
use criptotrade.Squad.{Desk}
use criptotrade.Squad.Breaker.{
  fresh_breaker, is_cool, is_open, record_trade_result, reading, reload_breaker, BreakerOp,
  trade_result, query, daily, breaker_run, daily_loss_limit_pct,
}
use criptotrade.Squad.Breaker.Streak.{
  losing_streak_trips, open_until_cool, cooldown_keeps_daily_loss,
}
use criptotrade.Squad.Breaker.Restart.{restart_breaker, breaker_run_kept}

abbrev num_of : ℕ → ℤ
num_of n = pos (n * 1_000_000)

abbrev loss : ℤ
loss = negsuc 999_999

abbrev desk : Desk ℤ
desk = record {
  breaker = fresh_breaker;
  open_positions = [];
  breaker_row = none;
  position_rows = [];
  ledger = [];
}

losing_streak_trips_example :
    let d' =
      record_trade_result
        (num_of 3)
        loss
        (record_trade_result (num_of 2) loss (record_trade_result (num_of 1) loss desk)) in
    (t : ℤ) × (d'.breaker.tripped_at ≡ some t)
    × ((is_open (num_of 9) d').0 ≡ not (is_cool (num_of 9) t))
losing_streak_trips_example =
    losing_streak_trips (num_of 1) (num_of 2) (num_of 3) loss loss loss (num_of 9) desk refl refl
      refl

abbrev tripped : Desk ℤ
tripped = record desk {
  breaker = record {
    tripped_at = some (num_of 7);
    consecutive_losses = 3;
    daily_loss_pct = negsuc 4_999_999;
  };
}

abbrev calls : List (BreakerOp ℤ)
calls = trade_result (num_of 8) (num_of 1) ∷ query (num_of 9) ∷ daily (num_of 10) ∷ []

few_seconds : every (λ op. not (is_cool (reading op) (num_of 7))) calls ≡ true
unfolding ◌-ℤ◌
few_seconds = refl

ten_is_early : is_cool (num_of 10) (num_of 7) ≡ false
unfolding ◌-ℤ◌
ten_is_early = refl

open_until_cool_example :
    let d' = breaker_run calls tripped in
    (d'.breaker.tripped_at ≡ some (num_of 7)) × ((is_open (num_of 10) d').0 ≡ true)
open_until_cool_example =
    open_until_cool calls (num_of 7) (num_of 10) tripped refl few_seconds ten_is_early

next_day_is_cool : is_cool (num_of 90_000) (num_of 7) ≡ true
unfolding ◌-ℤ◌
next_day_is_cool = refl

still_low : fixed.le (fixed.add (negsuc 4_999_999) (pos 500_000)) (neg daily_loss_limit_pct) ≡ true
unfolding ◌-ℤ◌ ◌+ℤ◌
still_low = refl

-- After a day, a gain of a half per cent trips the breaker again.
cooldown_keeps_daily_loss_example :
    let (answer, d') = is_open (num_of 90_000) tripped in
    (answer ≡ false)
    × (d'.breaker.tripped_at ≡ none)
    × ((record_trade_result (num_of 90_001) (pos 500_000) d').breaker.tripped_at
        ≡ some (num_of 90_001))
cooldown_keeps_daily_loss_example =
    cooldown_keeps_daily_loss (num_of 7) (num_of 90_000) (num_of 90_001) (pos 500_000) tripped refl
      next_day_is_cool still_low

desk_kept : (restart_breaker desk).breaker ≡ desk.breaker
unfolding reload_breaker
desk_kept = refl

breaker_run_kept_example :
    (restart_breaker (breaker_run calls desk)).breaker ≡ (breaker_run calls desk).breaker
breaker_run_kept_example = breaker_run_kept calls desk desk_kept
