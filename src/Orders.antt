-- ===== src/Orders.antt =====
-- src/hitl/orders.py: an order, its statuses, and its projections.
pub mod Tests
pub mod Table
pub mod Store
pub mod Rows
pub mod Lifecycle
pub mod Fills
pub mod Booked
pub mod Gate
pub mod Bridge
pub mod Waiting
pub mod Late
use mathlib.Core.List
use criptotrade.Base.{◌≡◌, String, ◌==◌, Bool, true, false, Option, none, some, List, [], ◌∷◌}
use criptotrade.Base.Text.{upper}
use criptotrade.Base.Dict.{Dict}
use criptotrade.Base.Float.{Float, nought}
use criptotrade.Ledger.Payload.{Json, bool, num, str, opt_str, opt_num}
use criptotrade.Guardrails.{Proposal}

-- `OrderStatus`
pub data Status : Type 0 where
  pending approved filled rejected cancelled : Status

abbrev pub status_value : Status → String
status_value pending = "pending"
status_value approved = "approved"
status_value filled = "filled"
status_value rejected = "rejected"
status_value cancelled = "cancelled"

-- `==` between members.
abbrev pub is_status : Status → Status → Bool
is_status pending pending = true
is_status approved approved = true
is_status filled filled = true
is_status rejected rejected = true
is_status cancelled cancelled = true
is_status s t = false

-- The arguments of the constructor `Order`.
pub record Draft (F : Type 0) : Type 0 where
  pub pair : String
  pub side : String
  pub quantity : F
  pub price : F
  pub strategy : String
  pub agent_id : String
  pub confidence : F
  pub reason : String
  pub critical : Bool
  pub position_size_pct : F
  pub stop_loss : Option F
  pub take_profit : Option F

pub record Order (F : Type 0) : Type 0 where
  pub draft : Draft F
  pub open draft use *
  pub status : Status
  pub operator_note : Option String
  pub operator_id : Option String
  pub auto_approved : Bool
  pub id : String
  pub created_at : String
  pub resolved_at : Option String
  pub filled_at : Option String

-- The constructor, with its defaults; the id and the time come from outside.
unfoldable pub new_order : {F : Type 0} → Draft F → String → String → Order F
new_order draft id now = record {
  draft = draft;
  status = pending;
  operator_note = none;
  operator_id = none;
  auto_approved = false;
  id = id;
  created_at = now;
  resolved_at = none;
  filled_at = none;
}

module _ {F : Type 0} ⦃fl : Float F⦄ where
  -- `Order.notional`
  abbrev pub notional : Order F → F
  notional o = fl.mul o.price o.quantity

  -- `Order.guardrail_view`
  abbrev pub guardrail_view : Order F → Proposal F
  guardrail_view o = record {
    position_size_pct = some o.position_size_pct;
    action = some (upper o.side);
    entry_price = some o.price;
    stop_loss = o.stop_loss;
    take_profit = o.take_profit;
    market_context = none;
  }

  -- `Order.to_dict`
  unfoldable pub to_dict : Order F → Dict (Json F)
  to_dict o =
      ("pair", str o.pair)
      ∷ ("side", str o.side)
      ∷ ("quantity", num o.quantity)
      ∷ ("price", num o.price)
      ∷ ("strategy", str o.strategy)
      ∷ ("agent_id", str o.agent_id)
      ∷ ("confidence", num o.confidence)
      ∷ ("reason", str o.reason)
      ∷ ("critical", bool o.critical)
      ∷ ("position_size_pct", num o.position_size_pct)
      ∷ ("stop_loss", opt_num o.stop_loss)
      ∷ ("take_profit", opt_num o.take_profit)
      ∷ ("status", str (status_value o.status))
      ∷ ("operator_note", opt_str o.operator_note)
      ∷ ("operator_id", opt_str o.operator_id)
      ∷ ("auto_approved", bool o.auto_approved)
      ∷ ("id", str o.id)
      ∷ ("created_at", str o.created_at)
      ∷ ("resolved_at", opt_str o.resolved_at)
      ∷ ("filled_at", opt_str o.filled_at)
      ∷ ("notional", num (notional o))
      ∷ []
