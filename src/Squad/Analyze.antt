-- ===== src/Squad/Analyze.antt =====
-- The gates of `analyze_and_trade` in src/orchestration/squad_orchestrator.py, from the last to the
-- first: each returns, or goes on to the next.
use criptotrade.Base.{
  leb, String, ◌==◌, Bool, true, false, not, ◌&&◌, some, List, [], ◌∷◌, if◌then◌else◌, length,
}
use criptotrade.Base.Float.{Float, nought}
use criptotrade.Guardrails.{or_nought}
use criptotrade.Orders.Bridge.{Signal}
use criptotrade.Ledger.{log_signal, log_validation}
use criptotrade.Ledger.Payload.{num, int, arr, texts}
use criptotrade.Squad.Breaker.{is_open}
use criptotrade.Squad.Book.Fill.{check_open_positions}
use criptotrade.Squad.Cycle.{
  Env, Squad, Report, breaker_active, stub_data, pair_paused, no_inventory, low_confidence,
  risk_failed, no_slot, on_ledger, record_skip, record_data_fallback, clear_fallback,
  emit_stub_alert, emit_alert,
}
use criptotrade.Squad.Pipeline.{
  risk_skip_reason, with_symbol, available_capital, action_of, is_closing, ask_human,
}

module _ {S : Type 0} {F : Type 0} ⦃fl : Float F⦄ where
  -- The two gates on the book.
  unfoldable pub find_slot : Env S F → F → String → Signal F → F → Squad S F → Report F × Squad S F
  unfolding ask_human
  find_slot env now symbol signal confidence s =
      let slots_open = length s.desk.open_positions in
      let closing = is_closing symbol signal s.desk in
      if action_of signal == "sell" && not closing
      then (no_inventory, record_skip env now symbol "no_inventory" [] false s)
      else if leb env.max_concurrent slots_open && not closing
      then (
        no_slot slots_open,
        record_skip env now symbol "no_slot" (("slots_open", int slots_open) ∷ []) true s,
      )
      else ask_human env now symbol (record signal { confidence = some confidence }) confidence s

  -- What the risk agent's answer leads to.
  unfoldable pub assessed :
      Env S F → F → String → Signal F → F → Bool → List String → Squad S F → Report F × Squad S F
  unfolding find_slot
  assessed env now symbol signal confidence true issues s =
      find_slot env now symbol signal confidence s
  assessed env now symbol signal confidence false issues s = (
    risk_failed issues,
    record_skip env now symbol (risk_skip_reason issues) (("issues", arr (texts issues)) ∷ []) true
        (emit_alert env symbol issues s),
  )

  unfoldable pub check_risk : Env S F → F → String → Signal F → F → Squad S F → Report F × Squad S F
  unfolding assessed
  check_risk env now symbol signal confidence s =
      let r = env.risk signal (available_capital env.initial_capital s.desk) env.initial_capital in
      assessed env now symbol signal confidence r.approved r.issues
        (on_ledger (log_validation "risk" r.validation) s)

  unfoldable pub check_confidence :
      Env S F → F → String → Signal F → F → Squad S F → Report F × Squad S F
  unfolding check_risk
  check_confidence env now symbol signal confidence s =
      let s1 = on_ledger (log_signal "strategy" (env.signal_json signal) (some confidence)) s in
      if fl.lt confidence (fl.lit 6 1)
      then (
        low_confidence confidence,
        record_skip env now symbol "confidence_low" (("confidence", num confidence) ∷ []) true s1,
      )
      else check_risk env now symbol signal confidence s1

  -- The stops and targets, then the pause.
  unfoldable pub manage_positions :
      Env S F → F → String → Bool → Signal F → F → Squad S F → Report F × Squad S F
  unfolding check_confidence
  manage_positions env now symbol paused signal confidence s =
      let price = or_nought signal.entry_price in
      let s1 : Squad S F =
        if fl.lt nought price
        then record s { desk = check_open_positions now price symbol s.desk }
        else s in
      if paused
      then (pair_paused, record_skip env now symbol "paused" [] false s1)
      else check_confidence env now symbol signal confidence s1

  -- The gate on synthetic data.
  abbrev pub note_stub : Env S F → F → String → Bool → Squad S F → Squad S F
  note_stub env now symbol stub_used s =
      if stub_used
      then record_data_fallback env now symbol (emit_stub_alert env symbol s)
      else clear_fallback symbol s

  unfoldable pub check_stub :
      Env S F → F → String → Bool → Signal F → F → Bool → Squad S F → Report F × Squad S F
  unfolding manage_positions
  check_stub env now symbol paused signal confidence stub_used s =
      let s1 = note_stub env now symbol stub_used s in
      if stub_used && not env.allow_stub_data
      then (stub_data, s1)
      else manage_positions env now symbol paused signal confidence s1

  -- `analyze_and_trade`
  unfoldable pub analyze_and_trade :
      Env S F → F → String → String → Bool → Squad S F → Report F × Squad S F
  unfolding check_stub
  analyze_and_trade env now symbol timeframe paused s =
      let (blocked, d) = is_open now s.desk in
      let s1 : Squad S F = record s { desk = d } in
      let r = env.strategy symbol timeframe in
      if blocked
      then (breaker_active, record_skip env now symbol "circuit_breaker" [] true s1)
      else check_stub env now symbol paused (with_symbol symbol r.signal) r.confidence r.stub_used
          s1

-- One call of the loop, in the environment of its moment.
pub record Turn (S : Type 0) (F : Type 0) : Type 0 where
  pub env : Env S F
  pub now : F
  pub symbol : String
  pub timeframe : String
  pub paused : Bool

module _ {S : Type 0} {F : Type 0} ⦃fl : Float F⦄ where
  unfoldable pub take_turn : Turn S F → Squad S F → Report F × Squad S F
  take_turn turn s = analyze_and_trade turn.env turn.now turn.symbol turn.timeframe turn.paused s

  unfoldable pub take_turns : List (Turn S F) → Squad S F → Squad S F
  take_turns [] s = s
  take_turns (turn ∷ turns) s = take_turns turns (take_turn turn s).1
