-- ===== src/Guardrails.antt =====
-- src/safety/guardrails.py: the rules that every order is validated against. The order is the dict
-- that the rules read, a missing key `none`; the messages are the source's.
mod Tests
pub mod Loop
pub mod Safe
pub mod Laws
use Prim.Native.String.{String, ◌++◌}
use mathlib.Core.List
use mathlib.Core.Option
use criptotrade.Base.{
  ◌==◌, Bool, true, false, not, ◌&&◌, Option, none, some, List, [], ◌∷◌, if◌then◌else◌, is_empty,
}
use criptotrade.Base.Text.{upper, truthy}
use criptotrade.Base.Float.{Float, nought, abs}

pub record MarketContext (F : Type 0) : Type 0 where
  pub atr : Option F
  pub bb_middle : Option F
  pub volume_ratio : Option F

pub record Proposal (F : Type 0) : Type 0 where
  pub position_size_pct : Option F
  pub action : Option String
  pub entry_price : Option F
  pub stop_loss : Option F
  pub take_profit : Option F
  pub market_context : Option (MarketContext F)

-- What a rule returns: whether the order passed, and the message.
abbrev pub Verdict : Type 0
Verdict = Bool × String

abbrev pub Guardrail : Type 0 → Type 0
Guardrail F = Proposal F → Verdict

abbrev pub or_blank : Option String → String
or_blank none = ""
or_blank (some s) = s

abbrev pass : Verdict
pass = (true, "")

module _ {F : Type 0} ⦃fl : Float F⦄ where
  -- `x or 0`
  abbrev pub or_nought : Option F → F
  or_nought none = nought
  or_nought (some x) = x

  -- `float(os.getenv("MAX_POSITION_SIZE_PCT", "5.0"))`, where `none` is a value that is no number.
  abbrev pub max_position_size_pct : Option F → F
  max_position_size_pct none = fl.lit 50 1
  max_position_size_pct (some x) = x

  unfoldable pub check_position_size : F → Guardrail F
  check_position_size max_size order =
      let position_size = or_nought order.position_size_pct in
      if fl.lt max_size position_size
      then (
        false,
        "Position size "
            ++ fl.show position_size
            ++ "% exceeds maximum "
            ++ fl.show max_size
            ++ "%",
      )
      else pass

  check_side : String → F → F → Verdict
  check_side action stop entry =
      if action == "BUY" && fl.le entry stop
      then (false, "Stop loss must be below entry for BUY orders")
      else if action == "SELL" && fl.le stop entry
      then (false, "Stop loss must be above entry for SELL orders")
      else pass

  check_stop : Proposal F → Option F → Verdict
  check_stop order none = (false, "Stop loss is mandatory")
  check_stop order (some stop) =
      let entry = or_nought order.entry_price in
      if fl.lt nought entry then check_side (upper (or_blank order.action)) stop entry else pass

  unfoldable pub check_stop_loss : Guardrail F
  unfolding check_stop check_side
  check_stop_loss order = check_stop order order.stop_loss

  unfoldable pub check_risk_reward : Guardrail F
  check_risk_reward order =
      let entry = or_nought order.entry_price in
      let stop = or_nought order.stop_loss in
      let target = or_nought order.take_profit in
      let risk = abs (fl.sub entry stop) in
      let ratio = fl.div (abs (fl.sub target entry)) risk in
      if fl.lt nought entry && (fl.lt nought stop && fl.lt nought target)
      then if fl.lt nought risk && fl.lt ratio (fl.lit 25 1)
        then (
          false,
          "Risk-reward ratio "
              ++ fl.show_to 2 ratio
              ++ " is below minimum "
              ++ fl.show (fl.lit 25 1),
        )
        else pass
      else pass

  check_liquidity : Option F → Verdict
  check_liquidity none = pass
  check_liquidity (some ratio) =
      if fl.lt ratio (fl.lit 3 1)
      then (false, "Insufficient liquidity (volume_ratio=" ++ fl.show_to 2 ratio ++ " < 0.3)")
      else pass

  check_volatility : Option F → Option F → Option F → Verdict
  unfolding check_liquidity
  check_volatility (some atr) (some bb_middle) volume_ratio =
      let volatility = fl.div atr bb_middle in
      if fl.lt nought bb_middle && fl.lt (fl.lit 1 1) volatility
      then (
        false,
        "Extreme volatility (ATR/BB_mid="
            ++ fl.show_to 2 (fl.mul volatility (fl.lit 100 0))
            ++ "%) exceeds 10% threshold",
      )
      else check_liquidity volume_ratio
  check_volatility (some atr) none volume_ratio = check_liquidity volume_ratio
  check_volatility none bb_middle volume_ratio = check_liquidity volume_ratio

  check_context : Option (MarketContext F) → Verdict
  unfolding check_volatility
  check_context none = pass
  check_context (some ctx) = check_volatility ctx.atr ctx.bb_middle ctx.volume_ratio

  unfoldable pub check_market_conditions : Guardrail F
  unfolding check_context
  check_market_conditions order = check_context order.market_context

  abbrev pub default_rules : F → List (Guardrail F)
  default_rules max_size =
      check_position_size max_size
      ∷ check_stop_loss
      ∷ check_risk_reward
      ∷ check_market_conditions
      ∷ []

pub record GuardrailSystem (F : Type 0) : Type 0 where
  pub rules : List (Guardrail F)
  -- Whether an alert sink is set.
  pub alert_sink : Bool

-- One round of the loop, over the violations and the messages sent to the sink.
pub note_verdict : Bool → Verdict → List String × List String → List String × List String
note_verdict sink (passed, message) (violations, sent) =
    if not passed && truthy message
    then (List.◌++◌ violations (message ∷ []), if sink then List.◌++◌ sent (message ∷ []) else sent)
    else (violations, sent)

module _ {F : Type 0} where
  unfoldable pub run_rules :
      Bool → List (Guardrail F) → Proposal F → List String × List String → List String × List String
  run_rules sink [] order acc = acc
  run_rules sink (rule ∷ rules) order acc =
      run_rules sink rules order (note_verdict sink (rule order) acc)

module _ {F : Type 0} ⦃fl : Float F⦄ where
  -- `__post_init__`
  unfoldable pub guardrail_system : F → List (Guardrail F) → Bool → GuardrailSystem F
  guardrail_system max_size rules sink = record {
    rules = if is_empty rules then default_rules max_size else rules;
    alert_sink = sink;
  }

  -- Whether the order passed, the violations, and what the sink was sent.
  unfoldable pub validate_order : GuardrailSystem F → Proposal F → Bool × List String × List String
  unfolding run_rules note_verdict
  validate_order g order =
      let (violations, sent) = run_rules g.alert_sink g.rules order ([], []) in
      (is_empty violations, violations, sent)
