-- ===== src/Squad/Pipeline.antt =====
-- The last steps of `analyze_and_trade` in src/orchestration/squad_orchestrator.py: the capital, the
-- approval, the execution and the fill.
use criptotrade.Base.{
  String, ◌==◌, Bool, true, false, ◌&&◌, ◌||◌, Option, none, some, List, [], ◌∷◌, if◌then◌else◌,
}
use criptotrade.Base.Text.{lower, join, truthy, contains}
use criptotrade.Base.Dict.{Dict, lookup}
use criptotrade.Base.Float.{Float, nought, hundred}
use criptotrade.Guardrails.{or_nought}
use criptotrade.Orders.Bridge.{Signal, or_else}
use criptotrade.Ledger.{Ledger, log_hitl_approval, log_execution, log_fill, get_events}
use criptotrade.Ledger.Payload.{Json, num}
use criptotrade.Squad.{Position, Desk}
use criptotrade.Squad.Book.{eps}
use criptotrade.Squad.Book.Fill.{match_or_open}
use criptotrade.Squad.Cycle.{
  Answer, verdict, order_ref, Execution, Env, Squad, Report, human_rejected, traded, on_ledger,
  clear_skip,
}

-- The pnl of an entry, if it has one.
abbrev pub pnl_of : {F : Type 0} → Option (Json F) → Option F
pnl_of (some (num x)) = some x
pnl_of v = none

-- `_risk_skip_reason`
abbrev pub risk_skip_reason : List String → String
risk_skip_reason issues =
    if contains "insufficient capital" (lower (join " " issues))
    then "insufficient_capital"
    else "risk_rejected"

abbrev pub reference : Answer → Option String
reference (verdict b) = none
reference (order_ref id) = some id

abbrev pub is_granted : Answer → Bool
is_granted (verdict b) = b
is_granted (order_ref id) = truthy id

-- The signal with its symbol filled in.
abbrev pub with_symbol : {F : Type 0} → String → Signal F → Signal F
with_symbol symbol signal = record signal { symbol = some (or_else signal.symbol symbol) }

module _ {F : Type 0} ⦃fl : Float F⦄ where
  abbrev pub total_pnl : Ledger F → F → F
  total_pnl [] total = total
  total_pnl (e ∷ l) total = total_pnl l (fl.add total (or_nought (pnl_of (lookup "pnl" e.payload))))

  -- `_realized_pnl`
  abbrev pub realized_pnl : Ledger F → F
  realized_pnl l = total_pnl (get_events "position_closed" l) nought

  abbrev pub total_notional : Dict (Position F) → F → F
  total_notional [] total = total
  total_notional ((oid, p) ∷ book) total =
      total_notional book (fl.add total (fl.mul p.entry_price p.quantity))

  -- `_available_capital`
  unfoldable pub available_capital : F → Desk F → F
  available_capital initial d =
      fl.sub (fl.add initial (realized_pnl d.ledger)) (total_notional d.open_positions nought)

  -- `_position_quantity`
  unfoldable pub position_quantity : F → Signal F → F
  position_quantity initial signal =
      let price = or_nought signal.entry_price in
      let size = or_nought signal.position_size_pct in
      if fl.le price nought || fl.le size nought
      then nought
      else fl.div (fl.div (fl.mul initial size) hundred) price

  -- The quantity of the lots of a symbol on one side.
  abbrev pub side_quantity : String → String → Dict (Position F) → F → F
  side_quantity symbol side [] total = total
  side_quantity symbol side ((oid, p) ∷ book) total =
      side_quantity symbol side book
        (if p.symbol == symbol && p.side == side then fl.add total p.quantity else total)

  abbrev pub action_of : Signal F → String
  action_of signal = lower (or_else signal.action "buy")

  abbrev pub is_closing : String → Signal F → Desk F → Bool
  is_closing symbol signal d =
      let opposite_side = if action_of signal == "sell" then "buy" else "sell" in
      fl.lt eps (side_quantity symbol opposite_side d.open_positions nought)

  -- `float(executed) if executed else signal_price`
  abbrev pub fill_price : Option F → F → F
  fill_price none signal_price = signal_price
  fill_price (some p) signal_price = if fl.is_zero p then signal_price else p

module _ {S : Type 0} {F : Type 0} ⦃fl : Float F⦄ where
  -- `_log_fill`
  unfoldable pub book_fill : Env S F → F → String → Signal F → Execution F → Desk F → Desk F
  book_fill env now symbol signal e d =
      let quantity = position_quantity env.initial_capital signal in
      let price = fill_price e.executed_price (or_nought signal.entry_price) in
      let fee = or_nought e.fee in
      let order_id = or_else e.order_id "UNKNOWN" in
      let pair = or_else signal.symbol symbol in
      let side = or_else signal.action "buy" in
      if fl.le quantity nought || fl.le price nought
      then d
      else match_or_open now (env.iso now) pair (lower side) price quantity fee order_id
          signal.stop_loss signal.take_profit
          (record d {
            ledger = log_fill order_id pair side price quantity fee none "execution" d.ledger;
          })

  unfoldable pub call_back :
      Option (String → S × Ledger F → S × Ledger F) → Option String → Squad S F → Squad S F
  call_back (some f) (some ref) s =
      let (outside, ledger) = f ref (s.outside, s.desk.ledger) in
      record s { outside = outside; desk = record s.desk { ledger = ledger } }
  call_back f ref s = s

  -- What a successful execution leads to.
  unfoldable pub executed :
      Env S F → F → String → Signal F → Execution F → Bool → Squad S F → Squad S F
  unfolding call_back
  executed env now symbol signal e true s =
      call_back env.fill_callback s.last_order_ref
        (clear_skip symbol (record s { desk = book_fill env now symbol signal e s.desk }))
  executed env now symbol signal e false s = s

  -- After the approval: execution, fill and callback.
  unfoldable pub trade : Env S F → F → String → Signal F → F → Squad S F → Report F × Squad S F
  unfolding executed
  trade env now symbol signal confidence s =
      let e = env.execute signal (position_quantity env.initial_capital signal) in
      let s1 = on_ledger (log_execution "execution" e.execution) s in
      let s2 = executed env now symbol signal e e.success s1 in
      (traded e.success e.order_id signal confidence, record s2 { last_order_ref = none })

  -- `_request_human_approval`
  unfoldable pub request_human_approval :
      Option (Signal F → S × Ledger F → Answer × (S × Ledger F))
      → Signal F
      → Squad S F
      → Bool × Squad S F
  request_human_approval none signal s = (false, record s { last_order_ref = none })
  request_human_approval (some handler) signal s =
      let (answer, (outside, ledger)) = handler signal (s.outside, s.desk.ledger) in
      (
        is_granted answer,
        record s {
          last_order_ref = reference answer;
          outside = outside;
          desk = record s.desk { ledger = ledger };
        },
      )

  abbrev pub log_answer : Env S F → Bool → Signal F → Squad S F → Squad S F
  log_answer env approved signal =
      on_ledger (log_hitl_approval approved (env.signal_json signal) "default")

  unfoldable pub answered :
      Env S F → F → String → Signal F → F → Bool × Squad S F → Report F × Squad S F
  unfolding trade
  answered env now symbol signal confidence (true, s) =
      trade env now symbol signal confidence (log_answer env true signal s)
  answered env now symbol signal confidence (false, s) =
      (human_rejected, log_answer env false signal s)

  unfoldable pub ask_human : Env S F → F → String → Signal F → F → Squad S F → Report F × Squad S F
  unfolding request_human_approval answered
  ask_human env now symbol signal confidence s =
      answered env now symbol signal confidence
        (request_human_approval env.approval_handler signal s)
