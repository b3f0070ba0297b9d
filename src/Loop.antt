-- ===== src/Loop.antt =====
-- src/orchestration/orchestrator_loop.py and heartbeat.py: the cycle of the loop over its symbols. The
-- pipeline of a symbol is an argument, which shares the ledger with the loop.
pub mod Registry
pub mod Complete
mod Tests
use criptotrade.Base.{
  ℕ, zero, suc, ◌+◌, ltb, leb, String, ◌==◌, Bool, true, false, not, ◌&&◌, ◌||◌, Option, none, some,
  List, [], ◌∷◌, ◌++◌, if◌then◌else◌, length,
}
use criptotrade.Base.Int.{ℤ, pos, negsuc}
use criptotrade.Base.Float.{Float}
use criptotrade.Base.Text.{truthy}
use criptotrade.Ledger.{Ledger, log_process_event}
use criptotrade.Ledger.Payload.{Json, int, str, arr, texts}
use criptotrade.Orders.Bridge.{or_else}
use criptotrade.Access.Sets.{member}
use Registry.{AgentRegistry, record_cycle}

-- What the pipeline does with a symbol: it returns, with an order's id if it placed one, or raises, with
-- the agent's id if the exception has one.
pub data Outcome : Type 0 where
  returned : Option String → Outcome
  raised : Option String → String → Outcome

pub record Failure : Type 0 where
  pub agent_id : String
  pub error : String

-- `MIN_INTERVAL`, `MAX_INTERVAL` and `DEFAULT_INTERVAL`
abbrev pub min_interval : ℕ
min_interval = 10

abbrev pub max_interval : ℕ
max_interval = 3_600

abbrev pub default_interval : ℕ
default_interval = 60

abbrev in_range : Option ℤ → Option ℕ
in_range none = none
in_range (some (negsuc n)) = none
in_range (some (pos n)) = if leb min_interval n && leb n max_interval then some n else none

abbrev of_env : (String → Option ℤ) → Option String → Option ℤ
of_env parse none = some (pos default_interval)
of_env parse (some raw) = parse raw

-- `validated_interval`, none where it raises; Python's `int` of a text is an argument.
unfoldable pub validated_interval : (String → Option ℤ) → Option String → Option ℤ → Option ℕ
validated_interval parse env none = in_range (of_env parse env)
validated_interval parse env (some n) = in_range (some n)

-- The variables of a cycle.
pub record Cycle (S F : Type 0) : Type 0 where
  pub outside : S
  pub ledger : Ledger F
  pub ran_agents : List String
  pub failures : List Failure

-- The loop; the heartbeat file holds the id of a cycle.
pub record OrchestratorLoop (S F : Type 0) : Type 0 where
  pub outside : S
  pub ledger : Ledger F
  pub registry : AgentRegistry
  pub heartbeat : Option String

abbrev pub has_order : Option String → Bool
has_order none = false
has_order (some id) = truthy id

abbrev pub agents_of : Option String → List String
agents_of order_id =
    if has_order order_id then "strategy" ∷ "risk" ∷ "execution" ∷ [] else "strategy" ∷ "risk" ∷ []

-- The pipeline: the symbol, whether it is paused, and the state with the ledger.
abbrev pub Pipeline : Type 0 → Type 0 → Type 0
Pipeline S F = String → Bool → S × Ledger F → Outcome × S × Ledger F

abbrev pub record_cycles : ℕ → List String → AgentRegistry → AgentRegistry
record_cycles now [] r = r
record_cycles now (a ∷ as') r = record_cycles now as' (record_cycle a now r)

module _ {S F : Type 0} where
  abbrev pub noted : String → String → Outcome × S × Ledger F → Cycle S F → Cycle S F
  noted cycle_id symbol (returned order_id, s, l) c = record c {
    outside = s;
    ledger = l;
    ran_agents = c.ran_agents ++ agents_of order_id;
  }
  noted cycle_id symbol (raised agent error, s, l) c = record c {
    outside = s;
    ledger =
        log_process_event cycle_id "agent_cycle_failed" (or_else agent "pipeline")
          (("error", str error) ∷ ("symbol", str symbol) ∷ []) l;
    failures = c.failures ++ (record { agent_id = or_else agent "pipeline"; error = error } ∷ []);
  }

  -- The loop over the symbols.
  unfoldable pub run_symbols :
      Pipeline S F → String → List String → List String → Cycle S F → Cycle S F
  run_symbols pipeline cycle_id paused [] c = c
  run_symbols pipeline cycle_id paused (symbol ∷ symbols) c =
      run_symbols pipeline cycle_id paused symbols
        (noted cycle_id symbol (pipeline symbol (member symbol paused) (c.outside, c.ledger)) c)

  abbrev pub started : String → ℕ → List String → OrchestratorLoop S F → Cycle S F
  started cycle_id interval symbols loop = record {
    outside = loop.outside;
    ledger =
        log_process_event cycle_id "agent_cycle_started" "orchestrator"
          (("interval_seconds", int interval) ∷ ("symbols", arr (texts symbols)) ∷ []) loop.ledger;
    ran_agents = [];
    failures = [];
  }

  -- The rest of the cycle; `times` holds the two fields with its durations.
  abbrev pub completed :
      String → ℕ → Json F × Json F → Cycle S F → OrchestratorLoop S F → OrchestratorLoop S F
  completed cycle_id now times c loop = record {
    outside = c.outside;
    registry = record_cycles now c.ran_agents loop.registry;
    ledger =
        log_process_event cycle_id "agent_cycle_completed" "orchestrator"
          (("duration_ms", times.0)
            ∷ ("ran", arr (texts c.ran_agents))
            ∷ ("failures", int (length c.failures))
            ∷ ("per_symbol", times.1)
            ∷ [])
          c.ledger;
    heartbeat = some cycle_id;
  }

  -- `run_cycle`, with what it returns.
  unfoldable pub run_cycle :
      Pipeline S F
      → String
      → ℕ
      → List String
      → List String
      → ℕ
      → Json F × Json F
      → OrchestratorLoop S F
      → Cycle S F × OrchestratorLoop S F
  run_cycle pipeline cycle_id interval symbols paused now times loop =
      let c =
        run_symbols pipeline cycle_id paused symbols (started cycle_id interval symbols loop) in
      (c, completed cycle_id now times c loop)

-- `is_fresh`, on the time stamp of the heartbeat, which is none where the file has none.
unfoldable pub is_fresh : {F : Type 0} → ⦃fl : Float F⦄ → Option F → F → F → Bool
is_fresh none max_age now = false
is_fresh ⦃fl = fl⦄ (some ts) max_age now = fl.le (fl.sub now ts) max_age
