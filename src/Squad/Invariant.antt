-- ===== src/Squad/Invariant.antt =====
-- A cycle keeps the book sound and within its slots, whatever the agents and the handler answer.
use criptotrade.Base.{
  sym, All, ◌∷◌, ◌≡◌, refl, String, Bool, true, false, not, ◌&&◌, List, [], arith, if◌then◌else◌,
  Bool-cases, inl, inr,
}
use criptotrade.Base.Float.{Float, nought}
use criptotrade.Orders.Bridge.{Signal}
use criptotrade.Squad.{Desk}
use criptotrade.Squad.Breaker.{is_open}
use criptotrade.Squad.Breaker.Frame.{is_open-SameBook}
use criptotrade.Squad.Book.{eps}
use criptotrade.Squad.Book.Fill.{check_open_positions}
use criptotrade.Squad.Book.Sound.{check_open_positions-IsSound}
use criptotrade.Squad.Slots.{check_open_positions-slots}
use criptotrade.Squad.Cycle.{Env, Squad, record_data_fallback}
use criptotrade.Squad.Pipeline.{with_symbol}
use criptotrade.Squad.Analyze.{
  assessed, note_stub, check_risk, check_confidence, manage_positions, check_stub,
  analyze_and_trade, Turn, take_turn, take_turns,
}
use criptotrade.Squad.Room.{IsFit, IsFit-same, skip-IsFit, find_slot-IsFit}

module _ {S : Type 0} {F : Type 0} ⦃fl : Float F⦄ where
  assessed-IsFit :
      (env : Env S F) (now : F) (symbol : String) (signal : Signal F) (confidence : F)
      (approved : Bool) (issues : List String) (s : Squad S F)
      → fl.lt eps nought ≡ false
      → IsFit env s.desk
      → IsFit env (assessed env now symbol signal confidence approved issues s).1.desk
  unfolding assessed
  assessed-IsFit env now symbol signal confidence true issues s small h =
      find_slot-IsFit env now symbol signal confidence s small h
  assessed-IsFit env now symbol signal confidence false issues s small h =
      skip-IsFit env now symbol _ _ true _ h

  check_risk-IsFit :
      (env : Env S F) (now : F) (symbol : String) (signal : Signal F) (confidence : F)
      (s : Squad S F)
      → fl.lt eps nought ≡ false
      → IsFit env s.desk
      → IsFit env (check_risk env now symbol signal confidence s).1.desk
  unfolding check_risk
  check_risk-IsFit env now symbol signal confidence s small h =
      assessed-IsFit env now symbol signal confidence _ _ _ small
        (IsFit-same env s.desk _ refl refl h)

  check_confidence-IsFit :
      (env : Env S F) (now : F) (symbol : String) (signal : Signal F) (confidence : F)
      (s : Squad S F)
      → fl.lt eps nought ≡ false
      → IsFit env s.desk
      → IsFit env (check_confidence env now symbol signal confidence s).1.desk
  unfolding check_confidence
  check_confidence-IsFit env now symbol signal confidence s small h =
      let h' = IsFit-same env s.desk _ refl refl h in
      elim (Bool-cases (fl.lt confidence (fl.lit 6 1))) [
        | inl t ↦ rw t (skip-IsFit env now symbol "confidence_low" _ true _ h')
        | inr t ↦ rw t (check_risk-IsFit env now symbol signal confidence _ small h')
      ]

  managed-IsFit :
      (env : Env S F) (now price : F) (symbol : String) (checked : Bool) (s : Squad S F)
      → IsFit env s.desk
      → IsFit env
          (if checked
            then record s { desk = check_open_positions now price symbol s.desk }
            else s).desk
  managed-IsFit env now price symbol true s h = record {
    sound = check_open_positions-IsSound now price symbol s.desk h.sound;
    within = omega (arith, check_open_positions-slots now price symbol s.desk, h.within);
  }
  managed-IsFit env now price symbol false s h = h

  manage_positions-IsFit :
      (env : Env S F) (now : F) (symbol : String) (paused : Bool) (signal : Signal F)
      (confidence : F) (s : Squad S F)
      → fl.lt eps nought ≡ false
      → IsFit env s.desk
      → IsFit env (manage_positions env now symbol paused signal confidence s).1.desk
  unfolding manage_positions
  manage_positions-IsFit env now symbol true signal confidence s small h =
      skip-IsFit env now symbol "paused" [] false _ (managed-IsFit env now _ symbol _ s h)
  manage_positions-IsFit env now symbol false signal confidence s small h =
      check_confidence-IsFit env now symbol signal confidence _ small
        (managed-IsFit env now _ symbol _ s h)

  note_stub-IsFit :
      (env : Env S F) (now : F) (symbol : String) (stub_used : Bool) (s : Squad S F)
      → IsFit env s.desk
      → IsFit env (note_stub env now symbol stub_used s).desk
  unfolding record_data_fallback
  note_stub-IsFit env now symbol true s h = IsFit-same env s.desk _ refl refl h
  note_stub-IsFit env now symbol false s h = h

  check_stub-IsFit :
      (env : Env S F) (now : F) (symbol : String) (paused : Bool) (signal : Signal F)
      (confidence : F) (stub_used : Bool) (s : Squad S F)
      → fl.lt eps nought ≡ false
      → IsFit env s.desk
      → IsFit env (check_stub env now symbol paused signal confidence stub_used s).1.desk
  unfolding check_stub
  check_stub-IsFit env now symbol paused signal confidence stub_used s small h =
      let h' = note_stub-IsFit env now symbol stub_used s h in
      elim (Bool-cases (stub_used && not env.allow_stub_data)) [
        | inl t ↦ rw t h'
        | inr t ↦ rw t (manage_positions-IsFit env now symbol paused signal confidence _ small h')
      ]

  pub analyze_and_trade-IsFit :
      (env : Env S F) (now : F) (symbol timeframe : String) (paused : Bool) (s : Squad S F)
      → fl.lt eps nought ≡ false
      → IsFit env s.desk
      → IsFit env (analyze_and_trade env now symbol timeframe paused s).1.desk
  unfolding analyze_and_trade
  analyze_and_trade-IsFit env now symbol timeframe paused s small h =
      let same = is_open-SameBook now s.desk in
      let h' = IsFit-same env s.desk _ same.same_positions same.same_rows h in
      let r = env.strategy symbol timeframe in
      elim (Bool-cases (is_open now s.desk).0) [
        | inl t ↦ rw t (skip-IsFit env now symbol "circuit_breaker" [] true _ h')
        | inr t ↦ rw t (
            check_stub-IsFit env now symbol paused (with_symbol symbol r.signal) r.confidence
              r.stub_used (record s { desk = (is_open now s.desk).1 }) small h')
      ]

  IsFit-max_concurrent :
      (env env' : Env S F) (d : Desk F)
      → env'.max_concurrent ≡ env.max_concurrent
      → IsFit env d
      → IsFit env' d
  IsFit-max_concurrent env env' d e h = record {
    sound = h.sound;
    within = omega (arith, e, h.within);
  }

  -- Where the tolerance is not below zero: whatever the agents, the handler and the callback answer in
  -- each cycle, any sequence of cycles with one limit on the slots leaves a sound book within its slots
  -- if it starts from one. So the ids stay distinct, the table mirrors the book, every lot is long, and
  -- there are at most `max_concurrent` lots.
  pub take_turns-IsFit :
      (env : Env S F) (turns : List (Turn S F)) (s : Squad S F)
      → fl.lt eps nought ≡ false
      → All (λ turn. turn.env.max_concurrent ≡ env.max_concurrent) turns
      → IsFit env s.desk
      → IsFit env (take_turns turns s).desk
  unfolding take_turns take_turn
  take_turns-IsFit env [] s small same h = h
  take_turns-IsFit env (turn ∷ turns) s small same h =
      let next =
        analyze_and_trade-IsFit turn.env turn.now turn.symbol turn.timeframe turn.paused s small
          (IsFit-max_concurrent env turn.env s.desk same.0 h) in
      take_turns-IsFit env turns _ small same.1
        (IsFit-max_concurrent turn.env env _ (sym same.0) next)
