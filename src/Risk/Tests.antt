-- ===== src/Risk/Tests.antt =====
-- The drawdown limits at concrete results.
use criptotrade.Base.{◌≡◌, not, Option, none, some, if◌then◌else◌}
use criptotrade.Base.Int.{ℤ, negsuc}
use criptotrade.Base.Float.{fixed, fixed-IsOrdered, nought, one}
use criptotrade.Risk.{is_reached, weekly_limit_pct, check}
use criptotrade.Risk.Sizing.{
  KellyCriterion, PositionSizer, kelly_fraction, fractional_kelly, compute,
}
use criptotrade.Risk.Sizing.Bounds.{IsWithin, fixed-IsRounded, compute-IsWithin}
use criptotrade.Risk.Limits.{is_blocked, check_outcome}

-- Minus seven per cent.
abbrev seven_down : Option ℤ
seven_down = some (negsuc 6_999_999)

check_outcome_example :
    let r = check seven_down none none in
    (r.can_trade ≡ not (is_blocked seven_down none none))
    × (r.size_multiplier ≡ (
        if is_blocked seven_down none none
        then nought
        else if is_reached {F = ℤ} none weekly_limit_pct
        then fixed.lit 5 1
        else one))
check_outcome_example = check_outcome seven_down none none

-- Six wins of ten that gain twice what a loss costs.
abbrev kelly : KellyCriterion ℤ
kelly = record {
  win_rate = fixed.lit 6 1;
  avg_win_pct = fixed.lit 3 0;
  avg_loss_pct = fixed.lit 15 1;
  capital = fixed.lit 10_000 0;
  n_trades = 40;
}

abbrev sizer : PositionSizer ℤ
sizer = record {
  capital = fixed.lit 10_000 0;
  default_risk_pct = fixed.lit 1 0;
  kelly = some kelly;
}

abbrev no_power : ℤ → ℤ → Option ℤ
no_power base exponent = none

compute-IsWithin_example :
    IsWithin (fractional_kelly kelly_fraction kelly)
    × IsWithin (compute no_power sizer (fixed.lit 100 0) (fixed.lit 95 0) none).size_pct
compute-IsWithin_example =
    compute-IsWithin fixed-IsOrdered fixed-IsRounded no_power sizer (fixed.lit 100 0)
      (fixed.lit 95 0) none kelly_fraction kelly
