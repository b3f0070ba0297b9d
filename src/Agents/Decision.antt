-- ===== src/Agents/Decision.antt =====
-- What the approval of the risk agent means, alone and in a cycle of the squad.
use criptotrade.Base.{
  ◌≡◌, refl, ◌↔◌, sym, ◌∙◌, ap, String, Bool, true, false, Option, some, List, [], ◌∷◌, ◌++◌,
  if◌then◌else◌, is_empty, arith,
}
use criptotrade.Base.Float.{Float}
use criptotrade.Guardrails.{Proposal, MarketContext, or_nought, guardrail_system, validate_order}
use criptotrade.Guardrails.Safe.{IsSafe}
use criptotrade.Guardrails.Laws.{validate_order-IsSafe, validate_order_reports}
use criptotrade.Orders.Bridge.{Signal}
use criptotrade.Squad.Cycle.{Env, Squad, RiskResult}
use criptotrade.Squad.Pipeline.{with_symbol, available_capital}
use criptotrade.Squad.Analyze.{analyze_and_trade}
use criptotrade.Squad.Gates.{is_traded, when_asked, analyze_and_trade_gates}
use criptotrade.Agents.Risk.{
  RiskAgent, Opinion, Portfolio, risk_agent, env_float, lacks_capital, validate_signal, assess,
  refine_validation, validation_json, size_issues, capital_issues,
}

-- The three tests of a validation.
three_empty :
    (xs ys zs : List String)
    → (is_empty (xs ++ (ys ++ zs)) ≡ true)
      ↔ ((is_empty xs ≡ true) × (is_empty ys ≡ true) × (is_empty zs ≡ true))
three_empty [] [] zs = ((λ h. (refl, refl, h)), (λ h. h.2))
three_empty [] (y ∷ ys) zs = ((λ h. cc), (λ h. h.1))
three_empty (x ∷ xs) ys zs = ((λ h. cc), (λ h. h.0))

issued :
    (xs : List String) (passed : Bool)
    → passed ≡ is_empty xs
    → is_empty (if passed then [] else xs) ≡ passed
issued xs true e = refl
issued xs false e = sym e

module _ {F : Type 0} ⦃fl : Float F⦄ where
  -- What the signal tells the guardrails; the market context is no field of the squad's signal.
  abbrev pub proposal_of : Option (MarketContext F) → Signal F → Proposal F
  proposal_of context s = record {
    position_size_pct = s.position_size_pct;
    action = s.action;
    entry_price = s.entry_price;
    stop_loss = s.stop_loss;
    take_profit = s.take_profit;
    market_context = context;
  }

  -- The risk agent as the squad calls it.
  unfoldable pub risk_of :
      RiskAgent F → Option Opinion → Option (MarketContext F) → Signal F → F → F → RiskResult F
  risk_of a llm context signal available base =
      let r =
        assess a llm (proposal_of context signal)
          (record { available_capital = some available; capital_base = some base }) in
      record {
        approved = r.validation.approved;
        issues = r.validation.issues;
        validation = validation_json r;
      }

  refine-approved :
      (a : RiskAgent F) (llm : Option Opinion) (signal : Proposal F) (p : Portfolio F)
      → (assess a llm signal p).validation.approved ≡ (validate_signal a signal p).approved
  unfolding assess refine_validation
  refine-approved a llm signal p = ground arith

  size_ok :
      (a : RiskAgent F) (size : F)
      → (is_empty (size_issues a size) ≡ true) ↔ (fl.lt a.max_position_size_pct size ≡ false)
  size_ok a size = ((λ h. ground arith), (λ h. ground arith))

  capital_ok :
      (p : Portfolio F) (size : F)
      → (is_empty (capital_issues p size) ≡ true) ↔ (lacks_capital p size ≡ false)
  capital_ok p size = ((λ h. ground arith), (λ h. ground arith))

  -- The agent with its default rules approves a signal exactly when it is safe in the sense of the
  -- guardrails and the balance gate does not refuse it, whatever a language model says.
  pub assess_approves :
      (max_size stop_pct : Option F) (sink : Bool) (llm : Option Opinion) (signal : Proposal F)
      (p : Portfolio F)
      → ((assess (risk_agent max_size stop_pct sink) llm signal p).validation.approved ≡ true) ↔ (
          IsSafe (env_float max_size (fl.lit 50 1)) signal
          × (lacks_capital p (or_nought signal.position_size_pct) ≡ false))
  unfolding validate_signal risk_agent
  assess_approves max_size stop_pct sink llm signal p =
      let limit = env_float max_size (fl.lit 50 1) in
      let a = risk_agent max_size stop_pct sink in
      let size = or_nought signal.position_size_pct in
      let (passed, violations, sent) = validate_order (guardrail_system limit [] sink) signal in
      let told =
        issued violations passed
          (validate_order_reports (guardrail_system limit [] sink) signal).1 in
      let safe = validate_order-IsSafe limit sink signal in
      let three =
        three_empty (if passed then [] else violations) (size_issues a size)
          (capital_issues p size) in
      let same = refine-approved a llm signal p in
      (
        λ h.
            let parts = three.0 (sym same ∙ h) in
            (safe.0 (sym told ∙ parts.0), (capital_ok p size).0 parts.2),
        λ h.
            same
            ∙ three.1 (told ∙ safe.1 h.0, (size_ok a size).1 h.0.sized, (capital_ok p size).1 h.1),
      )

  -- In a squad whose risk agent is this one with its default rules, a cycle that trades does so on a
  -- signal that is safe in the sense of the guardrails, with the market context that the agent was
  -- given, and that the balance gate did not refuse at the available capital of the desk as it is
  -- when the agent is asked: the initial capital with the realised gains, less the cost of the lots.
  pub traded-IsSafe :
      {S : Type 0} (env : Env S F) (max_size stop_pct : Option F) (sink : Bool)
      (llm : Option Opinion) (context : Option (MarketContext F)) (now : F)
      (symbol timeframe : String) (paused : Bool) (s : Squad S F)
      → env.risk ≡ risk_of (risk_agent max_size stop_pct sink) llm context
      → is_traded (analyze_and_trade env now symbol timeframe paused s).0 ≡ true
      → let signal = with_symbol symbol (env.strategy symbol timeframe).signal in
        IsSafe (env_float max_size (fl.lit 50 1)) (proposal_of context signal)
        × (lacks_capital
              (record {
                available_capital = some (
                    available_capital env.initial_capital
                      (when_asked env now symbol timeframe s).desk);
                capital_base = some env.initial_capital;
              })
              (or_nought signal.position_size_pct)
            ≡ false)
  unfolding risk_of
  traded-IsSafe env max_size stop_pct sink llm context now symbol timeframe paused s e h =
      let signal = with_symbol symbol (env.strategy symbol timeframe).signal in
      let approved = (analyze_and_trade_gates env now symbol timeframe paused s h).4 in
      let available =
        available_capital env.initial_capital (when_asked env now symbol timeframe s).desk in
      (assess_approves max_size stop_pct sink llm (proposal_of context signal) (record {
        available_capital = some available;
        capital_base = some env.initial_capital;
      })).0
        (ap (λ f. (f signal available env.initial_capital).approved) (sym e)
          ∙ approved.risk_approved)
