-- ===== src/Orders/Store.antt =====
-- `OrderStore` of src/hitl/orders.py. A method takes the clock's reading, works on the tables that
-- the processes share, and returns its result with the new state. The source reads the row and
-- writes it over separate connections, but for mark_filled, which is one statement; here each call is
-- one step.
use mathlib.Core.List
use criptotrade.Base.{
  ℕ, ltb, String, Bool, true, false, not, ◌&&◌, Option, none, some, List, [], ◌∷◌, if◌then◌else◌,
}
use criptotrade.Base.Text.{join, truthy}
use criptotrade.Base.Float.{Float, nought}
use criptotrade.Ledger.{Ledger, log_process_event, log_hitl_approval, log_fill}
use criptotrade.Ledger.Payload.{Json, bool, num, str, arr, obj, to_fields, texts, opt_str}
use criptotrade.Guardrails.{GuardrailSystem, validate_order}
use criptotrade.Orders.{
  Status, pending, approved, filled, rejected, cancelled, is_status, Order, notional,
  guardrail_view, to_dict,
}
use criptotrade.Orders.Table.{find, update, fill, fill_count, insert_row}

-- The shared tables, and the alerts that a guardrail sink has stored.
pub record World (F : Type 0) : Type 0 where
  pub orders : List (Order F)
  pub ledger : Ledger F
  pub alerts : List String

pub data Error : Type 0 where
  -- A row that the table refuses.
  integrity_error : Error
  key_error : String → Error
  -- `OrderConflictError`, with the order's id and status.
  conflict : String → Status → Error

pub data Result (A : Type 0) : Type 0 where
  ok : A → Result A
  raised : Error → Result A

pub record Config (F : Type 0) : Type 0 where
  -- What `threshold_provider` returns.
  pub threshold : F
  pub guardrails : Option (GuardrailSystem F)

abbrev pub order_payload : {F : Type 0} ⦃fl : Float F⦄ → Order F → Json F
order_payload o = obj (to_fields (to_dict o))

module _ {F : Type 0} where
  abbrev pub log : (Ledger F → Ledger F) → World F → World F
  log f w = record w { ledger = f w.ledger }

  -- `_update`
  abbrev pub save : Order F → World F → World F
  save o w = record w { orders = update o w.orders }

  -- `get`
  abbrev pub get : String → World F → Option (Order F)
  get order_id w = find order_id w.orders

module _ {F : Type 0} ⦃fl : Float F⦄ where
  -- `_log_fill_events`
  unfoldable pub log_fill_events : Order F → String → World F → World F
  log_fill_events o operator w =
      let approval = log_hitl_approval true (order_payload o) operator in
      let fill_entry =
        log_fill o.id o.pair o.side o.price o.quantity nought (some o.strategy) "execution" in
      let event = log_process_event o.id "order_filled" operator (
        ("price", num o.price)
        ∷ ("quantity", num o.quantity)
        ∷ ("auto", bool o.auto_approved)
        ∷ []) in
      log (λ l. event (fill_entry (approval l))) w

  -- `_do_fill`
  unfoldable pub do_fill : String → Order F → String → World F → Order F × World F
  unfolding log_fill_events
  do_fill now o operator w =
      let o' = record o { status = filled; resolved_at = some now; filled_at = some now } in
      (o', log_fill_events o' operator (save o' w))

  -- The branch of `_risk_ok` that rejects.
  unfoldable pub reject_by_risk : String → List String → Order F → World F → Order F × World F
  reject_by_risk now violations o w =
      let note = join "; " violations in
      let o' = record o {
        status = rejected;
        resolved_at = some now;
        operator_note = some (if truthy note then note else "risk validation failed");
      } in
      let approval = log_hitl_approval false (order_payload o') "guardrails" in
      let event =
        log_process_event o'.id "order_rejected" "guardrails"
          (("violations", arr (texts violations)) ∷ []) in
      (o', log (λ l. event (approval l)) (save o' w))

  -- The decision on a new order, once the risk gate is passed.
  unfoldable pub auto_approve : Config F → String → Order F → World F → Order F × World F
  unfolding do_fill
  auto_approve config now o w =
      if fl.lt nought config.threshold && fl.le (notional o) config.threshold && not o.critical
      then do_fill now (record o { auto_approved = true }) "auto" w
      else (o, w)

  -- The risk gate, then the decision.
  unfoldable pub decide :
      Option (GuardrailSystem F) → Config F → String → Order F → World F → Order F × World F
  unfolding auto_approve reject_by_risk
  decide none config now o w = auto_approve config now o w
  decide (some g) config now o w =
      let (passed, violations, sent) = validate_order g (guardrail_view o) in
      let w' = record w { alerts = List.◌++◌ w.alerts sent } in
      if passed then auto_approve config now o w' else reject_by_risk now violations o w'

  abbrev pub log_submitted : Order F → Ledger F → Ledger F
  log_submitted o =
      log_process_event o.id "order_submitted" o.agent_id
        (("pair", str o.pair) ∷ ("side", str o.side) ∷ ("notional", num (notional o)) ∷ [])

  -- What follows the insertion.
  unfoldable pub inserted :
      Config F → String → Order F → World F → Option (List (Order F)) → Result (Order F) × World F
  unfolding decide
  inserted config now o w none = (raised integrity_error, w)
  inserted config now o w (some rows) =
      let w' = log (log_submitted o) (record w { orders = rows }) in
      let (o', w'') = decide config.guardrails config now o w' in (ok o', w'')

  unfoldable pub submit : Config F → String → Order F → World F → Result (Order F) × World F
  unfolding inserted
  submit config now o w = inserted config now o w (insert_row o w.orders)

  -- The two outcomes of a human decision.
  unfoldable pub approve_order :
      String → String → Option String → Order F → World F → Order F × World F
  approve_order now operator note o w =
      let o' = record o {
        operator_id = some operator;
        operator_note = note;
        resolved_at = some now;
        status = approved;
      } in
      let approval = log_hitl_approval true (order_payload o') operator in
      let event = log_process_event o'.id "order_approved" operator [] in
      (o', log (λ l. event (approval l)) (save o' w))

  unfoldable pub reject_order :
      String → String → Option String → Order F → World F → Order F × World F
  reject_order now operator note o w =
      let o' = record o {
        operator_id = some operator;
        operator_note = note;
        resolved_at = some now;
        status = rejected;
      } in
      let approval = log_hitl_approval false (order_payload o') operator in
      let event = log_process_event o'.id "order_rejected" operator (("note", opt_str note) ∷ []) in
      (o', log (λ l. event (approval l)) (save o' w))

  abbrev pub succeed : {A : Type 0} → A × World F → Result A × World F
  succeed (a, w) = (ok a, w)

  unfoldable pub resolve_found :
      String
      → Bool
      → String
      → String
      → Option String
      → Option (Order F)
      → World F
      → Result (Order F) × World F
  unfolding approve_order reject_order
  resolve_found order_id is_approved now operator operator_note none w =
      (raised (key_error order_id), w)
  resolve_found order_id is_approved now operator operator_note (some o) w =
      if is_status o.status pending
      then succeed (
          if is_approved
          then approve_order now operator operator_note o w
          else reject_order now operator operator_note o w)
      else (raised (conflict o.id o.status), w)

  -- `resolve`
  unfoldable pub resolve :
      String → String → Bool → String → Option String → World F → Result (Order F) × World F
  unfolding resolve_found
  resolve now order_id is_approved operator operator_note w =
      resolve_found order_id is_approved now operator operator_note (get order_id w) w

  unfoldable pub log_filled : ℕ → Option (Order F) → String → World F → World F
  unfolding log_fill_events
  log_filled affected none operator w = w
  log_filled affected (some o) operator w =
      if ltb 0 affected then log_fill_events o operator w else w

  -- `mark_filled`
  unfoldable pub mark_filled : String → String → String → World F → Option (Order F) × World F
  unfolding log_filled
  mark_filled now order_id operator w =
      let affected = fill_count order_id w.orders in
      let w' = record w { orders = fill order_id now w.orders } in
      let o = get order_id w' in (o, log_filled affected o operator w')

  unfoldable pub cancel_found :
      String → String → Option (Order F) → World F → Option (Order F) × World F
  cancel_found now reason none w = (none, w)
  cancel_found now reason (some o) w =
      let o' = record o {
        status = cancelled;
        resolved_at = some now;
        operator_note = some reason;
      } in
      if is_status o.status pending
      then (
        some o',
        log (log_process_event o'.id "order_cancelled" "system" (("reason", str reason) ∷ []))
            (save o' w),
      )
      else (some o, w)

  -- `cancel`
  unfoldable pub cancel : String → String → String → World F → Option (Order F) × World F
  unfolding cancel_found
  cancel now order_id reason w = cancel_found now reason (get order_id w) w
