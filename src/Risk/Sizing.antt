-- ===== src/Risk/Sizing.antt =====
-- src/risk/position_sizing.py: the Kelly fraction and the size by the stop's distance. The power is
-- an argument; it is none where Python raises.
pub mod Bounds
use criptotrade.Base.{ℕ, ltb, Bool, true, false, not, ◌||◌, Option, none, some, if◌then◌else◌}
use criptotrade.Base.Float.{Float, nought, one, hundred, abs, min, max}
use criptotrade.Orders.Bridge.{or_else}

-- `KellyCriterion`
pub record KellyCriterion (F : Type 0) : Type 0 where
  pub win_rate : F
  pub avg_win_pct : F
  pub avg_loss_pct : F
  pub capital : F
  pub n_trades : ℕ

-- `PositionSizer`
pub record PositionSizer (F : Type 0) : Type 0 where
  pub capital : F
  pub default_risk_pct : F
  pub kelly : Option (KellyCriterion F)

-- A size, and whether the risk of ruin was warned of.
pub record Sized (F : Type 0) : Type 0 where
  pub size_pct : F
  pub warned : Bool

-- `MIN_SAMPLE_FOR_KELLY`
abbrev pub min_sample : ℕ
min_sample = 30

module _ {F : Type 0} ⦃fl : Float F⦄ where
  -- `MIN_POSITION_PCT`, `MAX_POSITION_PCT` and `KELLY_FRACTION`
  abbrev pub min_position_pct : F
  min_position_pct = fl.lit 5 1

  abbrev pub max_position_pct : F
  max_position_pct = fl.lit 50 1

  abbrev pub kelly_fraction : F
  kelly_fraction = fl.lit 25 2

  -- `risk_of_ruin`
  unfoldable pub risk_of_ruin : (F → F → Option F) → F → F → F
  risk_of_ruin pow win_rate bet_fraction =
      let edge = fl.sub (fl.mul (fl.lit 2 0) win_rate) one in
      let base = fl.div (fl.sub one edge) (fl.add one edge) in
      if fl.le bet_fraction nought || fl.le win_rate nought
      then one
      else if fl.le edge nought
      then one
      else if fl.le base nought
      then nought
      else if fl.le one base
      then one
      else or_else (pow base (fl.div one bet_fraction)) one

  -- `full_kelly_fraction`
  unfoldable pub full_kelly_fraction : F → F → F → F
  full_kelly_fraction win_rate avg_win_pct avg_loss_pct =
      let b = fl.div avg_win_pct avg_loss_pct in
      if fl.le avg_loss_pct nought
      then nought
      else if fl.le b nought
      then nought
      else fl.sub win_rate (fl.div (fl.sub one win_rate) b)

  -- `full_kelly`
  unfoldable pub full_kelly : KellyCriterion F → Option F
  full_kelly k =
      if ltb k.n_trades min_sample
      then none
      else if fl.le k.avg_loss_pct nought
      then none
      else some (full_kelly_fraction k.win_rate k.avg_win_pct k.avg_loss_pct)

  -- `round(max(MIN_POSITION_PCT, min(MAX_POSITION_PCT, x)), 2)`
  unfoldable pub clamped : F → F
  clamped x = fl.round (max min_position_pct (min max_position_pct x)) 2

  abbrev pub fraction_of : F → Option F → F
  fraction_of fraction none = min_position_pct
  fraction_of fraction (some f_star) =
      if fl.le f_star nought
      then min_position_pct
      else clamped (fl.mul (fl.mul f_star fraction) hundred)

  -- `fractional_kelly`
  unfoldable pub fractional_kelly : F → KellyCriterion F → F
  fractional_kelly fraction k = fraction_of fraction (full_kelly k)

  -- `ruin_risk`
  unfoldable pub ruin_risk : (F → F → Option F) → KellyCriterion F → F
  ruin_risk pow k =
      fl.round (risk_of_ruin pow k.win_rate (fl.div (fractional_kelly kelly_fraction k) hundred)) 6

  abbrev pub budget_of : F → Option (KellyCriterion F) → F
  budget_of default none = default
  budget_of default (some k) = fractional_kelly kelly_fraction k

  abbrev pub win_rate_of : Option (KellyCriterion F) → F
  win_rate_of none = fl.lit 5 1
  win_rate_of (some k) = k.win_rate

  -- `capital_override or self.capital`
  abbrev pub capital_of : Option F → F → F
  capital_of none own = own
  capital_of (some x) own = if fl.is_zero x then own else x

  abbrev pub stop_distance_pct : F → F → F
  stop_distance_pct entry stop = fl.mul (fl.div (abs (fl.sub entry stop)) entry) hundred

  -- `compute`
  unfoldable pub compute : (F → F → Option F) → PositionSizer F → F → F → Option F → Sized F
  compute pow sizer entry stop capital_override =
      let distance = stop_distance_pct entry stop in
      let size =
        clamped (fl.mul (fl.div (budget_of sizer.default_risk_pct sizer.kelly) distance) hundred) in
      if fl.le entry nought
        || (fl.le stop nought || fl.le (capital_of capital_override sizer.capital) nought)
      then record { size_pct = min_position_pct; warned = false }
      else if fl.le distance nought
      then record { size_pct = min_position_pct; warned = false }
      else record {
        size_pct = size;
        warned =
            fl.lt (fl.lit 5 2) (risk_of_ruin pow (win_rate_of sizer.kelly) (fl.div size hundred));
      }
