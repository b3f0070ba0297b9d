-- ===== src/Ledger.antt =====
-- src/core/ledger.py: the append-only audit ledger. An entry keeps its type and its payload; the
-- insertion order stands for the row ids, and the time stamps are left out.
pub mod Payload
use criptotrade.Base.{
  ℕ, zero, suc, ◌≡◌, refl, String, ◌==◌, Bool, true, false, Option, none, some, List, [], ◌∷◌, ◌++◌,
  if◌then◌else◌, keep, arith, not,
}
use Prim.Native.String.{◌++◌ as ◌<>◌}
use criptotrade.Base.Text.{lower}
use criptotrade.Base.Dict.{Dict, lookup}
use criptotrade.Base.Float.{Float, nought, one, neg}
use Payload.{Json, null, bool, num, str, obj, Fields, to_fields, opt_str, opt_num}

pub record Entry (F : Type 0) : Type 0 where
  pub event_type : String
  pub payload : Dict (Json F)

abbrev pub Ledger : Type 0 → Type 0
Ledger F = List (Entry F)

module _ {F : Type 0} where
  -- `log_decision`
  abbrev pub log_decision : String → Dict (Json F) → Ledger F → Ledger F
  log_decision event_type payload l =
      l ++ record { event_type = event_type; payload = payload } ∷ []

  -- `get_events`
  abbrev pub get_events : String → Ledger F → Ledger F
  get_events event_type = keep (λ e. e.event_type == event_type)

  unfoldable pub log_signal : String → Json F → Option F → Ledger F → Ledger F
  log_signal agent signal confidence =
      log_decision "signal_generated"
        (("agent", str agent) ∷ ("signal", signal) ∷ ("confidence", opt_num confidence) ∷ [])

  unfoldable pub log_validation : String → Json F → Ledger F → Ledger F
  log_validation agent validation =
      log_decision "risk_validation" (("agent", str agent) ∷ ("validation", validation) ∷ [])

  unfoldable pub log_execution : String → Json F → Ledger F → Ledger F
  log_execution agent execution =
      log_decision "order_executed" (("agent", str agent) ∷ ("execution", execution) ∷ [])

  unfoldable pub log_hitl_approval : Bool → Json F → String → Ledger F → Ledger F
  log_hitl_approval approved order user =
      log_decision "hitl_approval"
        (("approved", bool approved) ∷ ("order", order) ∷ ("user", str user) ∷ [])

  unfoldable pub log_process_event : String → String → String → Dict (Json F) → Ledger F → Ledger F
  log_process_event case_id activity actor attributes = log_decision "process_event" (
      ("case_id", str case_id)
      ∷ ("activity", str activity)
      ∷ ("actor", str actor)
      ∷ ("attributes", obj (to_fields attributes))
      ∷ [])

  unfoldable pub log_auth_event :
      String
      → String
      → Option String
      → Option String
      → Option String
      → Bool
      → Option String
      → Ledger F
      → Ledger F
  log_auth_event event actor email ip user_agent success detail = log_decision ("auth_" <> event) (
      ("actor", str actor)
      ∷ ("email", opt_str email)
      ∷ ("ip", opt_str ip)
      ∷ ("user_agent", opt_str user_agent)
      ∷ ("success", bool success)
      ∷ ("detail", opt_str detail)
      ∷ [])

module _ {F : Type 0} ⦃fl : Float F⦄ where
  unfoldable pub log_fill :
      String → String → String → F → F → F → Option String → String → Ledger F → Ledger F
  log_fill order_id symbol side price quantity fee strategy agent = log_decision "order_fill" (
      ("order_id", str order_id)
      ∷ ("symbol", str symbol)
      ∷ ("side", str (lower side))
      ∷ ("price", num price)
      ∷ ("quantity", num quantity)
      ∷ ("notional", num (fl.mul price quantity))
      ∷ ("fee", num fee)
      ∷ ("strategy", opt_str strategy)
      ∷ ("agent", str agent)
      ∷ [])

  -- The profit of a close before fees: the sign is that of the opening side.
  abbrev pub gross_pnl : String → F → F → F → F
  gross_pnl side entry_price exit_price quantity =
      fl.mul (fl.mul (if side == "buy" then one else neg one) (fl.sub exit_price entry_price))
        quantity

  abbrev dropped : Option F → Dict (Json F)
  dropped none = []
  dropped (some r) = if fl.lt nought r then ("residual_dropped", num r) ∷ [] else []

  unfoldable pub log_position_closed :
      String → String → String → F → F → F → F → Option String → Option F → Ledger F → Ledger F
  log_position_closed order_id symbol side entry_price exit_price quantity fee opened_at residual =
      let gross = gross_pnl (lower side) entry_price exit_price quantity in
      let pnl = fl.sub gross fee in
      let entry_notional = fl.mul entry_price quantity in
      let pnl_pct = if fl.is_zero entry_notional then nought else fl.div pnl entry_notional in
      log_decision "position_closed" (
        (("order_id", str order_id)
          ∷ ("symbol", str symbol)
          ∷ ("side", str (lower side))
          ∷ ("entry_price", num entry_price)
          ∷ ("exit_price", num exit_price)
          ∷ ("quantity", num quantity)
          ∷ ("fee", num fee)
          ∷ ("gross_pnl", num gross)
          ∷ ("pnl", num pnl)
          ∷ ("pnl_pct", num pnl_pct)
          ∷ ("opened_at", opt_str opened_at)
          ∷ [])
        ++ dropped residual)
