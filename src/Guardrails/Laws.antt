-- ===== src/Guardrails/Laws.antt =====
-- The validation of an order by all the rules.
use mathlib.Core.Path.{sym, ◌∙◌}
use mathlib.Core.Logic.{◌↔◌}
use criptotrade.Base.{◌≡◌, refl, Bool, true, [], arith, if◌then◌else◌, is_empty, every}
use criptotrade.Base.Float.{Float}
use criptotrade.Guardrails.{
  Proposal, GuardrailSystem, default_rules, guardrail_system, validate_order,
}
use criptotrade.Guardrails.Loop.{is_silent, run_rules_clean, run_rules_sent, four_tests}
use criptotrade.Guardrails.Safe.{
  IsSafe, position_size_safe, stop_loss_safe, risk_reward_safe, market_safe,
}

module _ {F : Type 0} ⦃fl : Float F⦄ where
  validate_order_clean :
      (max_size : F) (sink : Bool) (order : Proposal F)
      → (validate_order (guardrail_system max_size [] sink) order).0
        ≡ every (λ r. is_silent (r order)) (default_rules max_size)
  unfolding validate_order guardrail_system
  validate_order_clean max_size sink order =
      run_rules_clean sink (default_rules max_size) order ([], [])

  -- With the default rules, whatever the size limit and the sink, an order passes the validation
  -- exactly when its size is within the limit, it has a stop on the protective side of a positive
  -- entry, its reward is at least 2.5 times its risk where the levels are set, and the market
  -- context reports neither extreme volatility nor thin liquidity.
  pub validate_order-IsSafe :
      (max_size : F) (sink : Bool) (order : Proposal F)
      → ((validate_order (guardrail_system max_size [] sink) order).0 ≡ true)
        ↔ IsSafe max_size order
  validate_order-IsSafe max_size sink order =
      let clean = validate_order_clean max_size sink order in
      let size = position_size_safe max_size order in
      let stop = stop_loss_safe order in
      let reward = risk_reward_safe order in
      let market = market_safe order in
      (
        λ h.
            let parts = (four_tests _ _ _ _).0 (sym clean ∙ h) in
            record {
              sized = size.0 parts.0;
              stopped = stop.0 parts.1;
              rewarded = reward.0 parts.2;
              calm = market.0 parts.3;
            },
        λ h.
            clean
            ∙ (four_tests _ _ _ _).1
                (size.1 h.sized, stop.1 h.stopped, reward.1 h.rewarded, market.1 h.calm),
      )

  -- Whatever the rules, the sink is sent the violations in the order in which they are returned,
  -- and without a sink nothing is sent; the order passes exactly when there is no violation.
  pub validate_order_reports :
      (g : GuardrailSystem F) (order : Proposal F)
      → let (passed, violations, sent) = validate_order g order in
        (sent ≡ (if g.alert_sink then violations else [])) × (passed ≡ is_empty violations)
  unfolding validate_order
  validate_order_reports g order =
      (run_rules_sent g.alert_sink g.rules order ([], []) (ground arith), refl)
