-- ===== src/Guardrails/Tests.antt =====
-- Runs of the guardrails, and their theorems at concrete orders.
use criptotrade.Base.{◌≡◌, refl, ◌↔◌, true, false, none, some, [], ◌∷◌}
use criptotrade.Base.Int.{ℤ, pos, ◌-ℤ◌, div_scaled}
use criptotrade.Base.Float.{fixed}
use criptotrade.Base.Text.{upper}
use criptotrade.Guardrails.{
  Proposal, GuardrailSystem, guardrail_system, validate_order, check_position_size, check_stop_loss,
  check_risk_reward, check_market_conditions,
}
use criptotrade.Guardrails.Safe.{IsSafe}
use criptotrade.Guardrails.Laws.{validate_order-IsSafe}

-- A buy at 100 with a stop at 95 and a target at 115: three times the risk.
abbrev good_buy : Proposal ℤ
good_buy = record {
  position_size_pct = some (pos 2_000_000);
  action = some "buy";
  entry_price = some (pos 100_000_000);
  stop_loss = some (pos 95_000_000);
  take_profit = some (pos 115_000_000);
  market_context = none;
}

abbrev five_percent : ℤ
five_percent = pos 5_000_000

abbrev system : GuardrailSystem ℤ
system = guardrail_system five_percent [] true

good_buy_passes : (validate_order system good_buy).0 ≡ true
unfolding validate_order guardrail_system check_position_size check_stop_loss check_risk_reward
    check_market_conditions upper ◌-ℤ◌ div_scaled
good_buy_passes = refl

abbrev bad_stop : Proposal ℤ
bad_stop = record good_buy { stop_loss = some (pos 100_000_000) }

bad_stop_fails : validate_order system bad_stop ≡ (
  false,
  "Stop loss must be below entry for BUY orders" ∷ [],
  "Stop loss must be below entry for BUY orders" ∷ [],
)
unfolding validate_order guardrail_system check_position_size check_stop_loss check_risk_reward
    check_market_conditions upper ◌-ℤ◌ div_scaled
bad_stop_fails = refl

validate_order-IsSafe_example :
    ((validate_order system good_buy).0 ≡ true) ↔ IsSafe five_percent good_buy
validate_order-IsSafe_example = validate_order-IsSafe five_percent true good_buy
