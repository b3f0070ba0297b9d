-- ===== src/Squad/Gates.antt =====
-- What a cycle that trades has passed, and what a cycle does while the breaker is open.
use criptotrade.Base.{
  false-ne-true, ℕ, ◌<◌, eq_iff, if◌then◌else◌, [], ◌∷◌, ◌≡◌, refl, ◌∙◌, arith, every, String, ◌==◌,
  Bool, true, false, not, ◌&&◌, leb, Option, none, some, List, Bool-cases, inl, inr, length,
}
use criptotrade.Base.Float.{Float, nought}
use criptotrade.Guardrails.{or_nought}
use criptotrade.Ledger.{Ledger, log_signal, log_validation}
use criptotrade.Orders.Bridge.{Signal}
use criptotrade.Squad.Breaker.{is_open, check_open, is_cool}
use criptotrade.Squad.Cycle.{
  Answer, Env, Squad, Report, breaker_active, traded, record_skip, on_ledger,
}
use criptotrade.Squad.{Desk}
use criptotrade.Squad.Book.Fill.{check_open_positions}
use criptotrade.Squad.Pipeline.{
  is_granted, request_human_approval, answered, ask_human, action_of, is_closing, with_symbol,
  available_capital,
}
use criptotrade.Squad.Analyze.{
  find_slot, assessed, check_risk, check_confidence, manage_positions, note_stub, check_stub,
  analyze_and_trade, Turn, take_turn, take_turns,
}

abbrev pub is_traded : {F : Type 0} → Report F → Bool
is_traded (traded success order_id signal confidence) = true
is_traded r = false

not_first : (a b : Bool) → (not a && b) ≡ true → (a ≡ false) × (b ≡ true)
not_first a b h = (ground arith, ground arith)

held : (sell closing : Bool) → (sell && not closing) ≡ false → sell ≡ true → closing ≡ true
held sell closing h e = ground arith

free :
    (most slots : ℕ) (closing : Bool)
    → (leb most slots && not closing) ≡ false
    → closing ≡ false
    → slots < most
free most slots closing h e = ground arith

module _ {S : Type 0} {F : Type 0} ⦃fl : Float F⦄ where
  -- A handler was there, and granted the signal.
  pub record IsGranted (env : Env S F) (signal : Signal F) : Type 0 where
    pub handler : Signal F → S × Ledger F → Answer × (S × Ledger F)
    pub has_handler : env.approval_handler ≡ some handler
    pub asked_with : S × Ledger F
    pub granted : is_granted (handler signal asked_with).0 ≡ true

  -- At a desk: the risk agent approved the signal with the capital that the desk has available; a
  -- sale closes a lot; a signal that closes none finds a free slot; and then the handler granted the
  -- signal with its confidence.
  pub record IsApproved (env : Env S F) (symbol : String) (signal : Signal F) (confidence : F)
      (d : Desk F) : Type 0 where
    pub risk_approved :
        (env.risk signal (available_capital env.initial_capital d) env.initial_capital).approved
        ≡ true
    pub sells_held : action_of signal ≡ "sell" → is_closing symbol signal d ≡ true
    pub has_slot : is_closing symbol signal d ≡ false → length d.open_positions < env.max_concurrent
    pub granted : IsGranted env (record signal { confidence = some confidence })

  -- The squad after the stops and targets at the price of the signal, if that is above zero.
  abbrev managed : F → String → Signal F → Squad S F → Squad S F
  managed now symbol signal s =
      let price = or_nought signal.entry_price in
      if fl.lt nought price
      then record s { desk = check_open_positions now price symbol s.desk }
      else s

  -- The squad when the risk agent is asked: the breaker, the note on synthetic data, the stops and
  -- targets, and the entry on the signal are done.
  abbrev pub when_asked : Env S F → F → String → String → Squad S F → Squad S F
  when_asked env now symbol timeframe s =
      let r = env.strategy symbol timeframe in
      let signal = with_symbol symbol r.signal in
      on_ledger (log_signal "strategy" (env.signal_json signal) (some r.confidence)) (
        managed now symbol signal
          (note_stub env now symbol r.stub_used (record s { desk = (is_open now s.desk).1 })))

  request-IsGranted :
      (env : Env S F) (handler : Option (Signal F → S × Ledger F → Answer × (S × Ledger F)))
      (signal : Signal F) (s : Squad S F)
      → env.approval_handler ≡ handler
      → (request_human_approval handler signal s).0 ≡ true
      → IsGranted env signal
  unfolding request_human_approval
  request-IsGranted env none signal s e h = absurd (false-ne-true h)
  request-IsGranted env (some f) signal s e h = record {
    handler = f;
    has_handler = e;
    asked_with = (s.outside, s.desk.ledger);
    granted = h;
  }

  answered_traded :
      (env : Env S F) (now : F) (symbol : String) (signal : Signal F) (confidence : F)
      (asked : Bool × Squad S F)
      → is_traded (answered env now symbol signal confidence asked).0 ≡ true
      → asked.0 ≡ true
  unfolding answered
  answered_traded env now symbol signal confidence (true, s) h = refl
  answered_traded env now symbol signal confidence (false, s) h = h

  find_slot_traded :
      (env : Env S F) (now : F) (symbol : String) (signal : Signal F) (confidence : F)
      (s : Squad S F)
      → is_traded (find_slot env now symbol signal confidence s).0 ≡ true
      → (action_of signal ≡ "sell" → is_closing symbol signal s.desk ≡ true)
        × (is_closing symbol signal s.desk ≡ false
            → length s.desk.open_positions < env.max_concurrent)
        × IsGranted env (record signal { confidence = some confidence })
  unfolding find_slot ask_human
  find_slot_traded env now symbol signal confidence s h =
      let closing = is_closing symbol signal s.desk in
      elim (Bool-cases (action_of signal == "sell" && not closing)) [
        | inl t ↦ absurd (false-ne-true (rw t at h))
        | inr t ↦
            elim (Bool-cases
              (leb env.max_concurrent (length s.desk.open_positions) && not closing)) [
                | inl u ↦ absurd (false-ne-true (rw (t, u) at h))
                | inr u ↦
                    let stamped : Signal F = record signal { confidence = some confidence } in
                    (
                      λ e. held (action_of signal == "sell") closing t ((eq_iff _ _).1 e),
                      λ e. free env.max_concurrent (length s.desk.open_positions) closing u e,
                      request-IsGranted env env.approval_handler stamped s refl (
                          answered_traded env now symbol stamped confidence
                            (request_human_approval env.approval_handler stamped s)
                            (rw (t, u) at h)),
                    )
              ]
      ]

  check_risk_traded :
      (env : Env S F) (now : F) (symbol : String) (signal : Signal F) (confidence : F)
      (s : Squad S F)
      → is_traded (check_risk env now symbol signal confidence s).0 ≡ true
      → IsApproved env symbol signal confidence s.desk
  unfolding check_risk assessed
  check_risk_traded env now symbol signal confidence s h =
      let r = env.risk signal (available_capital env.initial_capital s.desk) env.initial_capital in
      elim (Bool-cases r.approved) [
        | inr t ↦ absurd (false-ne-true (rw t at h))
        | inl t ↦
            let (sells_held, has_slot, granted) =
              find_slot_traded env now symbol signal confidence
                (on_ledger (log_validation "risk" r.validation) s) (rw t at h) in
            record {
              risk_approved = t;
              sells_held = sells_held;
              has_slot = has_slot;
              granted = granted;
            }
      ]

  check_confidence_traded :
      (env : Env S F) (now : F) (symbol : String) (signal : Signal F) (confidence : F)
      (s : Squad S F)
      → is_traded (check_confidence env now symbol signal confidence s).0 ≡ true
      → (fl.lt confidence (fl.lit 6 1) ≡ false)
        × IsApproved env symbol signal confidence
            (on_ledger (log_signal "strategy" (env.signal_json signal) (some confidence)) s).desk
  unfolding check_confidence
  check_confidence_traded env now symbol signal confidence s h =
      elim (Bool-cases (fl.lt confidence (fl.lit 6 1))) [
        | inl t ↦ absurd (false-ne-true (rw t at h))
        | inr t ↦ (t, check_risk_traded env now symbol signal confidence _ (rw t at h))
      ]

  manage_positions_traded :
      (env : Env S F) (now : F) (symbol : String) (paused : Bool) (signal : Signal F)
      (confidence : F) (s : Squad S F)
      → is_traded (manage_positions env now symbol paused signal confidence s).0 ≡ true
      → (paused ≡ false)
        × (fl.lt confidence (fl.lit 6 1) ≡ false)
        × IsApproved env symbol signal confidence
            (on_ledger
              (log_signal "strategy" (env.signal_json signal) (some confidence))
              (managed now symbol signal s)).desk
  unfolding manage_positions
  manage_positions_traded env now symbol true signal confidence s h = absurd (false-ne-true h)
  manage_positions_traded env now symbol false signal confidence s h =
      let (confident, approved) =
        check_confidence_traded env now symbol signal confidence (managed now symbol signal s) h in
      (refl, confident, approved)

  -- A cycle that reaches the execution has found the breaker closed, has real data or leave to use
  -- synthetic data, is not paused, and has a confidence that is not below 0.6. At the desk as it is
  -- when the risk agent is asked, the agent has approved the signal with the capital that is available
  -- there, a sale closes a lot, and a signal that closes none finds a slot that is free. A handler has
  -- then granted it; without a handler no cycle gets there.
  pub analyze_and_trade_gates :
      (env : Env S F) (now : F) (symbol timeframe : String) (paused : Bool) (s : Squad S F)
      → is_traded (analyze_and_trade env now symbol timeframe paused s).0 ≡ true
      → let r = env.strategy symbol timeframe in
        ((is_open now s.desk).0 ≡ false)
        × ((r.stub_used && not env.allow_stub_data) ≡ false)
        × (paused ≡ false)
        × (fl.lt r.confidence (fl.lit 6 1) ≡ false)
        × IsApproved env symbol
            (with_symbol symbol r.signal)
            r.confidence
            (when_asked env now symbol timeframe s).desk
  unfolding analyze_and_trade check_stub
  analyze_and_trade_gates env now symbol timeframe paused s h =
      let r = env.strategy symbol timeframe in
      elim (Bool-cases (is_open now s.desk).0) [
        | inl t ↦ absurd (false-ne-true (rw t at h))
        | inr t ↦ elim (Bool-cases (r.stub_used && not env.allow_stub_data)) [
          | inl u ↦ absurd (false-ne-true (rw (t, u) at h))
          | inr u ↦
              let (active, confident, approved) =
                manage_positions_traded env now symbol paused (with_symbol symbol r.signal)
                  r.confidence
                  (note_stub env now symbol r.stub_used
                    (record s { desk = (is_open now s.desk).1 }))
                  (rw (t, u) at h) in
              (t, u, active, confident, approved)
        ]
      ]

  -- A cycle under a trip whose cooldown has not passed.
  blocked :
      (turn : Turn S F) (t : F) (s : Squad S F)
      → s.desk.breaker.tripped_at ≡ some t
      → is_cool turn.now t ≡ false
      → let (report, s') = take_turn turn s in
        (report ≡ breaker_active)
        × (s'.desk.breaker.tripped_at ≡ some t)
        × (s'.desk.open_positions ≡ s.desk.open_positions)
  unfolding take_turn analyze_and_trade record_skip is_open
  blocked turn t s h c = rw (h, check_open, c) (refl, refl, refl)

  -- From a trip until its cooldown has passed, no sequence of cycles changes a lot, whatever the agents
  -- say the prices are: no stop and no target is acted on.
  pub breaker_open_unmanaged :
      (turns : List (Turn S F)) (t : F) (s : Squad S F)
      → s.desk.breaker.tripped_at ≡ some t
      → every (λ turn. not (is_cool turn.now t)) turns ≡ true
      → (take_turns turns s).desk.open_positions ≡ s.desk.open_positions
  unfolding take_turns
  breaker_open_unmanaged [] t s h c = refl
  breaker_open_unmanaged (turn ∷ turns) t s h c =
      let (first, rest) = not_first (is_cool turn.now t) _ c in
      let (report, tripped, same) = blocked turn t s h first in
      breaker_open_unmanaged turns t (take_turn turn s).1 tripped rest ∙ same
