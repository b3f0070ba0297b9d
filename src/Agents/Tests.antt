-- ===== src/Agents/Tests.antt =====
-- A cycle of the squad with the risk agent, on the desk of the squad's own tests.
use criptotrade.Base.{◌≡◌, refl, true, false, Option, none, some}
use criptotrade.Base.Int.{ℤ, ◌-ℤ◌}
use criptotrade.Base.Float.{fixed}
use criptotrade.Base.Text.{lower}
use criptotrade.Guardrails.{MarketContext, or_nought, guardrail_system, run_rules, validate_order}
use criptotrade.Guardrails.Safe.{IsSafe}
use criptotrade.Squad.Breaker.{is_open}
use criptotrade.Squad.Book.{exit_price}
use criptotrade.Squad.Book.Fill.{check_open_positions, close_all, exits}
use criptotrade.Squad.Cycle.{Env}
use criptotrade.Squad.Pipeline.{with_symbol, available_capital}
use criptotrade.Squad.Analyze.{analyze_and_trade}
use criptotrade.Squad.Gates.{is_traded, when_asked}
use criptotrade.Squad.Tests
use criptotrade.Agents.Risk.{
  risk_agent, env_float, lacks_capital, validate_signal, assess, reflect_on_validation,
  refine_validation, llm_reflect, validation_json,
}
use criptotrade.Agents.Decision.{proposal_of, risk_of, traded-IsSafe}

abbrev calm : Option (MarketContext ℤ)
calm = none

abbrev guarded : Env (Unit {0}) ℤ
guarded = record Tests.env { risk = risk_of (risk_agent none none false) none calm }

trades :
    is_traded (analyze_and_trade guarded (Tests.num_of 1) "BTC/USDT" "1h" false Tests.squad).0
    ≡ true
unfolding analyze_and_trade is_open lower check_open_positions close_all exits exit_price risk_of
    risk_agent assess validate_signal reflect_on_validation refine_validation llm_reflect
    validation_json guardrail_system validate_order run_rules ◌-ℤ◌
    criptotrade.Guardrails.check_market_conditions criptotrade.Guardrails.check_risk_reward
    criptotrade.Guardrails.check_stop_loss criptotrade.Base.Text.upper
    criptotrade.Guardrails.check_position_size criptotrade.Base.Int.◌+ℤ◌
    criptotrade.Squad.Pipeline.available_capital criptotrade.Ledger.log_signal
    criptotrade.Base.Int.mul_scaled criptotrade.Base.Int.div_scaled
trades = refl

traded-IsSafe_example :
    IsSafe
      (env_float none (fixed.lit 50 1))
      (proposal_of calm (with_symbol "BTC/USDT" Tests.signal))
    × (lacks_capital
          (record {
            available_capital = some (
                available_capital guarded.initial_capital
                  (when_asked guarded (Tests.num_of 1) "BTC/USDT" "1h" Tests.squad).desk);
            capital_base = some guarded.initial_capital;
          })
          (or_nought Tests.signal.position_size_pct)
        ≡ false)
traded-IsSafe_example =
    traded-IsSafe guarded none none false none calm (Tests.num_of 1) "BTC/USDT" "1h" false
      Tests.squad refl trades
