-- ===== src/Risk.antt =====
-- src/risk/capital_protections.py: the drawdown limits on the day, the week and the month.
pub mod Limits
pub mod Sizing
mod Tests
use Prim.Native.String.{◌++◌}
use criptotrade.Base.{String, Bool, true, false, Option, none, some, if◌then◌else◌}
use criptotrade.Base.Float.{Float, nought, one, neg}

-- `DrawdownStatus`
pub data DrawdownStatus : Type 0 where
  all_ok warn daily_pause weekly_reduced monthly_suspend : DrawdownStatus

pub record ProtectionResult (F : Type 0) : Type 0 where
  pub status : DrawdownStatus
  pub message : String
  pub size_multiplier : F
  pub can_trade : Bool

module _ {F : Type 0} ⦃fl : Float F⦄ where
  abbrev pub daily_limit_pct : F
  daily_limit_pct = fl.lit 30 1

  abbrev pub weekly_limit_pct : F
  weekly_limit_pct = fl.lit 60 1

  abbrev pub monthly_limit_pct : F
  monthly_limit_pct = fl.lit 150 1

  abbrev pub daily_warn_pct : F
  daily_warn_pct = fl.lit 24 1

  -- A result that is known and has reached the limit.
  abbrev pub is_reached : Option F → F → Bool
  is_reached none limit = false
  is_reached (some pnl) limit = fl.le pnl (neg limit)

  -- `f"{period} drawdown {pnl:.1f}% {verb} -{limit}% limit{rest}"`
  abbrev pub drawdown_message : String → Option F → String → F → String → String
  drawdown_message period none verb limit rest = ""
  drawdown_message period (some pnl) verb limit rest =
      period
      ++ (" drawdown "
          ++ (fl.show_to 1 pnl
              ++ ("% " ++ (verb ++ (" -" ++ (fl.show limit ++ ("% limit." ++ rest)))))))

  -- `CapitalProtections.check`
  unfoldable pub check : Option F → Option F → Option F → ProtectionResult F
  check daily weekly monthly =
      if is_reached monthly monthly_limit_pct
      then record {
        status = monthly_suspend;
        message =
            drawdown_message "Monthly" monthly "hit" monthly_limit_pct
              " Trading SUSPENDED — manual review required.";
        size_multiplier = nought;
        can_trade = false;
      }
      else if is_reached weekly weekly_limit_pct
      then record {
        status = weekly_reduced;
        message =
            drawdown_message "Weekly" weekly "hit" weekly_limit_pct
              " Position sizes halved for the remainder of the week.";
        size_multiplier = fl.lit 5 1;
        can_trade = true;
      }
      else if is_reached daily daily_limit_pct
      then record {
        status = daily_pause;
        message = drawdown_message "Daily" daily "hit" daily_limit_pct " Trading PAUSED for today.";
        size_multiplier = nought;
        can_trade = false;
      }
      else if is_reached daily daily_warn_pct
      then record {
        status = warn;
        message = drawdown_message "Daily" daily "approaching" daily_limit_pct "";
        size_multiplier = one;
        can_trade = true;
      }
      else record { status = all_ok; message = ""; size_multiplier = one; can_trade = true }
