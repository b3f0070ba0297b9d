-- ===== src/Squad/Cycle.antt =====
-- `analyze_and_trade` of src/orchestration/squad_orchestrator.py: the gates in order, on the state of
-- the squad. The agents, the approval handler and the fill callback are functions; the clock is read
-- once per cycle.
use criptotrade.Base.{ℕ, String, Bool, true, Option, List, [], ◌∷◌, ◌++◌, if◌then◌else◌, is_empty}
use criptotrade.Base.Text.{join}
use criptotrade.Base.Dict.{Dict, remove}
use criptotrade.Base.Float.{Float}
use criptotrade.Orders.Bridge.{Signal}
use criptotrade.Ledger.{Ledger}
use criptotrade.Ledger.Payload.{Json}
use criptotrade.Squad.{Desk}
use criptotrade.Squad.Throttle.{Streak, emit_throttled}

pub record StrategyResult (F : Type 0) : Type 0 where
  pub signal : Signal F
  pub confidence : F
  pub stub_used : Bool

pub record RiskResult (F : Type 0) : Type 0 where
  pub approved : Bool
  pub issues : List String
  pub validation : Json F

-- What a handler returns: a verdict, or the id of an order.
pub data Answer : Type 0 where
  verdict : Bool → Answer
  order_ref : String → Answer

pub record Execution (F : Type 0) : Type 0 where
  pub success : Bool
  pub order_id : Option String
  pub executed_price : Option F
  pub fee : Option F
  pub execution : Json F

pub record Alert : Type 0 where
  pub severity : String
  pub alert_type : String
  pub message : String
  pub agent_id : String
  pub pair : String

-- What surrounds the squad. `S` is the state that the handler and the callback keep.
pub record Env (S : Type 0) (F : Type 0) : Type 0 where
  pub strategy : String → String → StrategyResult F
  -- The risk agent, on the signal, the available capital and the base.
  pub risk : Signal F → F → F → RiskResult F
  pub approval_handler : Option (Signal F → S × Ledger F → Answer × (S × Ledger F))
  pub execute : Signal F → F → Execution F
  pub fill_callback : Option (String → S × Ledger F → S × Ledger F)
  pub initial_capital : F
  pub max_concurrent : ℕ
  pub allow_stub_data : Bool
  pub has_alert_store : Bool
  pub iso : F → String
  pub signal_json : Signal F → Json F

pub record Squad (S : Type 0) (F : Type 0) : Type 0 where
  pub desk : Desk F
  pub last_skip : Dict (Streak F)
  pub last_fallback : Dict (Streak F)
  pub last_order_ref : Option String
  pub alerts : List Alert
  pub outside : S

-- What a cycle returns, one constructor for each `return`.
pub data Report (F : Type 0) : Type 0 where
  breaker_active stub_data pair_paused no_inventory human_rejected : Report F
  low_confidence : F → Report F
  risk_failed : List String → Report F
  no_slot : ℕ → Report F
  traded : Bool → Option String → Signal F → F → Report F

-- Without a store the alert is dropped.
abbrev pub append_alert : Bool → Alert → List Alert → List Alert
append_alert has_store alert alerts = if has_store then alerts ++ alert ∷ [] else alerts

abbrev pub stub_alert : String → Alert
stub_alert symbol = record {
  severity = "high";
  alert_type = "data_fallback";
  message = join symbol (
      "Strategy Agent em modo fallback para "
      ∷ ": decisão baseada em dados sintéticos (stub). Verifique a conectividade com a exchange."
      ∷ []);
  agent_id = "strategy_agent";
  pair = symbol;
}

abbrev pub risk_alert : String → List String → Alert
risk_alert symbol issues = record {
  severity = "high";
  alert_type = "risk_rejection";
  message = join "" (
      "Sinal rejeitado pelo Risk Agent ("
      ∷ symbol
      ∷ "): "
      ∷ (if is_empty issues then "Risk validation failed" else join "; " issues)
      ∷ []);
  agent_id = "risk_agent";
  pair = symbol;
}

module _ {S : Type 0} {F : Type 0} ⦃fl : Float F⦄ where
  abbrev pub on_ledger : (Ledger F → Ledger F) → Squad S F → Squad S F
  on_ledger f s = record s { desk = record s.desk { ledger = f s.desk.ledger } }

  -- `_record_skip`
  unfoldable pub record_skip :
      Env S F → F → String → String → Dict (Json F) → Bool → Squad S F → Squad S F
  record_skip env now symbol reason extra heartbeat s =
      let (skips, ledger) =
        emit_throttled env.iso now symbol
          (record {
            event_type = "signal_skipped";
            reason = reason;
            extra = extra;
            heartbeat = heartbeat;
          })
          (s.last_skip, s.desk.ledger) in
      record s { last_skip = skips; desk = record s.desk { ledger = ledger } }

  -- `_record_data_fallback`
  unfoldable pub record_data_fallback : Env S F → F → String → Squad S F → Squad S F
  record_data_fallback env now symbol s =
      let (fallbacks, ledger) =
        emit_throttled env.iso now symbol
          (record {
            event_type = "data_fallback";
            reason = "stub_data";
            extra = [];
            heartbeat = true;
          })
          (s.last_fallback, s.desk.ledger) in
      record s { last_fallback = fallbacks; desk = record s.desk { ledger = ledger } }

  -- `_clear_skip` and `_clear_fallback`
  abbrev pub clear_skip : String → Squad S F → Squad S F
  clear_skip symbol s = record s { last_skip = remove symbol s.last_skip }

  abbrev pub clear_fallback : String → Squad S F → Squad S F
  clear_fallback symbol s = record s { last_fallback = remove symbol s.last_fallback }

  -- `_emit_stub_alert`
  abbrev pub emit_stub_alert : Env S F → String → Squad S F → Squad S F
  emit_stub_alert env symbol s = record s {
    alerts = append_alert env.has_alert_store (stub_alert symbol) s.alerts;
  }

  -- `_emit_alert`
  abbrev pub emit_alert : Env S F → String → List String → Squad S F → Squad S F
  emit_alert env symbol issues s = record s {
    alerts = append_alert env.has_alert_store (risk_alert symbol issues) s.alerts;
  }
