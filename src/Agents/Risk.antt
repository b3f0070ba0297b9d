-- ===== src/Agents/Risk.antt =====
-- `RiskAgent` of src/agents/risk_agent.py: validation, reflection and refinement. The answer of the
-- language model, if one is set, is an argument.
use criptotrade.Base.{
  ltb, String, Bool, true, false, not, ◌&&◌, Option, none, some, List, [], ◌∷◌, if◌then◌else◌,
  is_empty, length,
}
use Prim.Native.String.{◌++◌}
use mathlib.Core.List
use criptotrade.Base.Text.{truthy}
use criptotrade.Base.Float.{Float, nought, hundred, abs, min}
use criptotrade.Guardrails.{Proposal, GuardrailSystem, guardrail_system, or_nought, validate_order}
use criptotrade.Ledger.Payload.{Json, bool, num, arr, obj, texts, to_fields, opt_str}

pub record RiskAgent (F : Type 0) : Type 0 where
  pub guardrails : GuardrailSystem F
  pub max_position_size_pct : F
  pub stop_loss_pct : F

-- What a validation holds.
pub record Validation (F : Type 0) : Type 0 where
  pub approved : Bool
  pub issues : List String
  pub warnings : List String
  pub confidence : F

-- The JSON that the language model answers.
pub record Opinion : Type 0 where
  pub hidden_risk : Bool
  pub note : Option String

pub record Reflection : Type 0 where
  pub missed_anything : Bool
  pub too_strict : Bool
  pub suggestions : List String
  pub llm_note : Option String

-- A validation after the reflection.
pub record Refined (F : Type 0) : Type 0 where
  pub validation : Validation F
  pub requires_review : Bool
  pub reflection : Reflection

-- The portfolio that a task carries; a missing key is none.
pub record Portfolio (F : Type 0) : Type 0 where
  pub available_capital : Option F
  pub capital_base : Option F

abbrev or_flagged : Option String → String
or_flagged none = "hidden risk flagged"
or_flagged (some note) = if truthy note then note else "hidden risk flagged"

-- `_llm_reflect`; without a model, or where its call fails or is empty, the reflection stays.
unfoldable pub llm_reflect : Option Opinion → Reflection → Reflection
llm_reflect none r = r
llm_reflect (some o) r =
    if o.hidden_risk
    then record r {
      llm_note = o.note;
      missed_anything = true;
      suggestions = List.◌++◌ r.suggestions (("LLM: " ++ or_flagged o.note) ∷ []);
    }
    else record r { llm_note = o.note }

module _ {F : Type 0} ⦃fl : Float F⦄ where
  -- `_env_float` with its default.
  abbrev pub env_float : Option F → F → F
  env_float none default = default
  env_float (some x) default = x

  -- `__init__`, on the two environment variables, which the guardrails read too.
  unfoldable pub risk_agent : Option F → Option F → Bool → RiskAgent F
  risk_agent max_size stop_pct sink = record {
    guardrails = guardrail_system (env_float max_size (fl.lit 50 1)) [] sink;
    max_position_size_pct = env_float max_size (fl.lit 50 1);
    stop_loss_pct = env_float stop_pct (fl.lit 30 1);
  }

  -- The notional that a size asks for.
  abbrev pub requested : F → F → F
  requested base size = fl.div (fl.mul base size) hundred

  abbrev lacks : Option F → Option F → F → Bool
  lacks (some available) (some base) size =
      not (fl.is_zero base) && fl.lt (fl.add available (fl.lit 1 9)) (requested base size)
  lacks available base size = false

  -- The balance gate refuses.
  abbrev pub lacks_capital : Portfolio F → F → Bool
  lacks_capital p size = lacks p.available_capital p.capital_base size

  abbrev pub size_issues : RiskAgent F → F → List String
  size_issues a size =
      if fl.lt a.max_position_size_pct size
      then ("Position size "
          ++ (fl.show size ++ ("% exceeds limit " ++ (fl.show a.max_position_size_pct ++ "%"))))
        ∷ []
      else []

  abbrev pub capital_issues : Portfolio F → F → List String
  capital_issues p size =
      if lacks_capital p size
      then ("Insufficient capital: requested notional $"
          ++ (fl.show_to 2 (requested (or_nought p.capital_base) size)
              ++ (" exceeds available $" ++ fl.show_to 2 (or_nought p.available_capital))))
        ∷ []
      else []

  abbrev stop_warnings : RiskAgent F → F → F → List String
  stop_warnings a entry stop =
      let pct = abs (fl.mul (fl.div (fl.sub stop entry) entry) hundred) in
      if fl.lt nought entry && fl.lt a.stop_loss_pct pct
      then ("Stop loss "
          ++ (fl.show_to 2 pct
              ++ ("% is wider than recommended " ++ (fl.show a.stop_loss_pct ++ "%"))))
        ∷ []
      else []

  abbrev pub issues_of : RiskAgent F → Proposal F → Portfolio F → List String
  issues_of a signal p =
      let size = or_nought signal.position_size_pct in
      let (passed, violations, sent) = validate_order a.guardrails signal in
      List.◌++◌ (if passed then [] else violations)
        (List.◌++◌ (size_issues a size) (capital_issues p size))

  -- `_validate_signal`
  unfoldable pub validate_signal : RiskAgent F → Proposal F → Portfolio F → Validation F
  validate_signal a signal p =
      let issues = issues_of a signal p in
      record {
        approved = is_empty issues;
        issues = issues;
        warnings = stop_warnings a (or_nought signal.entry_price) (or_nought signal.stop_loss);
        confidence = if is_empty issues then fl.lit 9 1 else fl.lit 3 1;
      }

  abbrev pub heuristic : Validation F → Reflection
  heuristic v =
      if v.approved && ltb 2 (length v.warnings)
      then record {
        missed_anything = true;
        too_strict = false;
        suggestions = "Review warnings for hidden risks" ∷ [];
        llm_note = none;
      }
      else record { missed_anything = false; too_strict = false; suggestions = []; llm_note = none }

  -- `_reflect_on_validation`
  unfoldable pub reflect_on_validation : Option Opinion → Validation F → Reflection
  reflect_on_validation llm v = llm_reflect llm (heuristic v)

  -- `_refine_validation`
  unfoldable pub refine_validation : Validation F → Reflection → Refined F
  refine_validation v r =
      if r.missed_anything
      then record {
        validation = record v { confidence = min v.confidence (fl.lit 75 2) };
        requires_review = true;
        reflection = r;
      }
      else record { validation = v; requires_review = false; reflection = r }

  -- `execute`
  unfoldable pub assess : RiskAgent F → Option Opinion → Proposal F → Portfolio F → Refined F
  assess a llm signal p =
      let v = validate_signal a signal p in refine_validation v (reflect_on_validation llm v)

  -- The `validation` of the answer.
  unfoldable pub validation_json : Refined F → Json F
  validation_json r = obj (
      to_fields (
        ("approved", bool r.validation.approved)
        ∷ ("issues", arr (texts r.validation.issues))
        ∷ ("warnings", arr (texts r.validation.warnings))
        ∷ ("confidence", num r.validation.confidence)
        ∷ ("requires_review", bool r.requires_review)
        ∷ ("refined", bool true)
        ∷ ("llm_note", opt_str r.reflection.llm_note)
        ∷ []))
