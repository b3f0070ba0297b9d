-- ===== src/Loop/Complete.antt =====
-- What a cycle of src/orchestration/orchestrator_loop.py does with every symbol, and with one that is
-- paused.
use criptotrade.Base.{
  ℕ, suc, ◌+◌, ◌≤◌, ◌≡◌, refl, sym, ap, ◌∙◌, String, ◌==◌, Bool, true, false, not, Option, none,
  some, List, [], ◌∷◌, ◌++◌, keep, length, arith, Bool-cases, inl, inr, keep-append, length-append,
  false-ne-true,
}
use criptotrade.Base.Float.{Float}
use criptotrade.Ledger.{Ledger}
use criptotrade.Ledger.Payload.{Json}
use criptotrade.Orders.Bridge.{or_else}
use criptotrade.Access.Sets.{member}
use criptotrade.Squad.Cycle.{
  Env, Squad, Report, traded, breaker_active, stub_data, pair_paused, no_inventory, human_rejected,
  low_confidence, risk_failed, no_slot,
}
use criptotrade.Squad.Analyze.{analyze_and_trade}
use criptotrade.Squad.Gates.{is_traded, analyze_and_trade_gates}
use criptotrade.Loop.{
  Outcome, returned, raised, Cycle, OrchestratorLoop, Pipeline, has_order, agents_of, noted,
  run_symbols, started, run_cycle,
}

-- How often an agent ran.
abbrev pub runs : String → List String → ℕ
runs agent ran = length (keep (λ a. a == agent) ran)

runs-append :
    (agent : String) (xs ys : List String) → runs agent (xs ++ ys) ≡ runs agent xs + runs agent ys
runs-append agent xs ys =
    ap length (keep-append (λ a. a == agent) xs ys)
    ∙ length-append (keep (λ a. a == agent) xs) (keep (λ a. a == agent) ys)

agents_of_strategy : (order_id : Option String) → runs "strategy" (agents_of order_id) ≡ 1
agents_of_strategy order_id = elim (Bool-cases (has_order order_id)) [
  | inl e ↦ rw e refl
  | inr e ↦ rw e refl
]

module _ {S F : Type 0} where
  -- The symbols that a cycle has dealt with.
  abbrev pub tried : Cycle S F → ℕ
  tried c = runs "strategy" c.ran_agents + length c.failures

  tried-noted :
      (cycle_id symbol : String) (out : Outcome × S × Ledger F) (c : Cycle S F)
      → tried (noted cycle_id symbol out c) ≡ suc (tried c)
  tried-noted cycle_id symbol (returned order_id, s, l) c =
      omega (
        arith,
        runs-append "strategy" c.ran_agents (agents_of order_id),
        agents_of_strategy order_id,
      )
  tried-noted cycle_id symbol (raised agent error, s, l) c = omega (
    arith,
    length-append c.failures (record { agent_id = or_else agent "pipeline"; error = error } ∷ []),
  )

  tried-run_symbols :
      (pipeline : Pipeline S F) (cycle_id : String) (paused symbols : List String) (c : Cycle S F)
      → tried (run_symbols pipeline cycle_id paused symbols c) ≡ length symbols + tried c
  unfolding run_symbols
  tried-run_symbols pipeline cycle_id paused [] c = omega arith
  tried-run_symbols pipeline cycle_id paused (symbol ∷ symbols) c =
      let out = pipeline symbol (member symbol paused) (c.outside, c.ledger) in
      tried-run_symbols pipeline cycle_id paused symbols (noted cycle_id symbol out c)
      ∙ ap (λ n. length symbols + n) (tried-noted cycle_id symbol out c)
      ∙ omega arith

  -- Whatever the pipeline does with the other symbols, raising included, every symbol of the cycle either
  -- runs or is noted as a failure, and the heartbeat is that of the cycle.
  pub run_cycle_tries :
      (pipeline : Pipeline S F) (cycle_id : String) (interval : ℕ) (symbols paused : List String)
      (now : ℕ) (times : Json F × Json F) (loop : OrchestratorLoop S F)
      → let (c, after) = run_cycle pipeline cycle_id interval symbols paused now times loop in
        (runs "strategy" c.ran_agents + length c.failures ≡ length symbols)
        × (after.heartbeat ≡ some cycle_id)
  unfolding run_cycle
  run_cycle_tries pipeline cycle_id interval symbols paused now times loop = (
    tried-run_symbols pipeline cycle_id paused symbols (started cycle_id interval symbols loop)
        ∙ omega arith,
    refl,
  )

-- How often an outcome counts for the execution agent.
abbrev executed : Outcome → ℕ
executed (returned order_id) = runs "execution" (agents_of order_id)
executed (raised agent error) = 0

executed_once : (out : Outcome) → executed out ≤ 1
executed_once (raised agent error) = omega arith
executed_once (returned order_id) = elim (Bool-cases (has_order order_id)) [
  | inl e ↦ rw e (omega arith)
  | inr e ↦ rw e (omega arith)
]

noted-executed :
    {S F : Type 0} (cycle_id symbol : String) (out : Outcome × S × Ledger F) (c : Cycle S F)
    → runs "execution" (noted cycle_id symbol out c).ran_agents
      ≡ runs "execution" c.ran_agents + executed out.0
noted-executed cycle_id symbol (returned order_id, s, l) c =
    runs-append "execution" c.ran_agents (agents_of order_id)
noted-executed cycle_id symbol (raised agent error, s, l) c = omega arith

-- The squad as the pipeline of the loop.
abbrev of_report : {F : Type 0} → Report F → Outcome
of_report (traded success order_id signal confidence) = returned order_id
of_report r = returned none

no_order : {F : Type 0} (r : Report F) → is_traded r ≡ false → executed (of_report r) ≡ 0
no_order (traded success order_id signal confidence) h = absurd (false-ne-true (sym h))
no_order breaker_active h = refl
no_order stub_data h = refl
no_order pair_paused h = refl
no_order no_inventory h = refl
no_order human_rejected h = refl
no_order (low_confidence x) h = refl
no_order (risk_failed issues) h = refl
no_order (no_slot n) h = refl

-- The symbols that are not paused.
abbrev pub unpaused : List String → List String → ℕ
unpaused paused symbols = length (keep (λ x. not (member x paused)) symbols)

module _ {S F : Type 0} ⦃fl : Float F⦄ (env : Env S F) (now : F) (timeframe : String) where
  abbrev answered : Report F × Squad S F → Outcome × Squad S F × Ledger F
  answered (report, s) = (of_report report, s, s.desk.ledger)

  -- `analyze_and_trade`, on the ledger that the loop shares with it.
  abbrev pub squad_pipeline : Pipeline (Squad S F) F
  squad_pipeline symbol paused (s, l) = answered (
      analyze_and_trade env now symbol timeframe paused
        (record s { desk = record s.desk { ledger = l } }))

  paused_not_traded :
      (symbol : String) (s : Squad S F)
      → is_traded (analyze_and_trade env now symbol timeframe true s).0 ≡ false
  paused_not_traded symbol s =
      elim (Bool-cases (is_traded (analyze_and_trade env now symbol timeframe true s).0)) [
        | inl e ↦
            absurd
              (false-ne-true (sym (analyze_and_trade_gates env now symbol timeframe true s e).2))
        | inr e ↦ e
      ]

  pipeline_executed :
      (symbol : String) (paused : Bool) (s : Squad S F × Ledger F)
      → executed (squad_pipeline symbol paused s).0 ≤ length (keep not (paused ∷ []))
  pipeline_executed symbol false s = executed_once (squad_pipeline symbol false s).0
  pipeline_executed symbol true (s, l) = omega (
    arith,
    no_order _ (paused_not_traded symbol (record s { desk = record s.desk { ledger = l } })),
  )

  unpaused_cons :
      (paused symbols : List String) (symbol : String)
      → unpaused paused (symbol ∷ symbols)
        ≡ length (keep not (member symbol paused ∷ [])) + unpaused paused symbols
  unpaused_cons paused symbols symbol = elim (Bool-cases (member symbol paused)) [
    | inl e ↦ rw e (omega arith)
    | inr e ↦ rw e (omega arith)
  ]

  run_symbols_executed :
      (cycle_id : String) (paused symbols : List String) (c : Cycle (Squad S F) F)
      → runs "execution" (run_symbols squad_pipeline cycle_id paused symbols c).ran_agents
        ≤ runs "execution" c.ran_agents + unpaused paused symbols
  unfolding run_symbols
  run_symbols_executed cycle_id paused [] c = omega arith
  run_symbols_executed cycle_id paused (symbol ∷ symbols) c =
      let out = squad_pipeline symbol (member symbol paused) (c.outside, c.ledger) in
      omega (
        arith,
        run_symbols_executed cycle_id paused symbols (noted cycle_id symbol out c),
        noted-executed cycle_id symbol out c,
        pipeline_executed symbol (member symbol paused) (c.outside, c.ledger),
        unpaused_cons paused symbols symbol,
      )

  -- Where the squad is the pipeline: the execution agent runs at most once for each symbol that is not
  -- paused, whatever the agents and the handler answer. So in a cycle whose symbols are all paused it
  -- does not run.
  pub run_cycle_paused :
      (cycle_id : String) (interval : ℕ) (symbols paused : List String) (clock : ℕ)
      (times : Json F × Json F) (loop : OrchestratorLoop (Squad S F) F)
      → runs "execution"
          (run_cycle squad_pipeline cycle_id interval symbols paused clock times loop).0.ran_agents
        ≤ unpaused paused symbols
  unfolding run_cycle
  run_cycle_paused cycle_id interval symbols paused clock times loop =
      omega (
        arith,
        run_symbols_executed cycle_id paused symbols (started cycle_id interval symbols loop),
      )
