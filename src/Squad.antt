-- ===== src/Squad.antt =====
-- src/orchestration/squad_orchestrator.py and position_store.py: the state of the paper desk.
pub mod Breaker
pub mod Book
pub mod Throttle
pub mod Cycle
pub mod Pipeline
pub mod Analyze
pub mod Slots
pub mod Room
pub mod Invariant
pub mod Gates
pub mod Tests
use criptotrade.Base.{ℕ, String, Option}
use criptotrade.Base.Dict.{Dict}
use criptotrade.Ledger.{Ledger}

-- The counters of `CircuitBreaker`, and the columns of `circuit_breaker_state`.
pub record BreakerState (F : Type 0) : Type 0 where
  pub tripped_at : Option F
  pub consecutive_losses : ℕ
  pub daily_loss_pct : F

-- A value of `_open_positions`; a restored position has no entry fee.
pub record Position (F : Type 0) : Type 0 where
  pub symbol : String
  pub side : String
  pub entry_price : F
  pub quantity : F
  pub stop_loss : Option F
  pub take_profit : Option F
  pub entry_fee : Option F
  pub opened_at : String

-- The columns of `open_positions` beside the order's id.
pub record PositionRow (F : Type 0) : Type 0 where
  pub symbol : String
  pub side : String
  pub entry_price : F
  pub quantity : F
  pub stop_loss : Option F
  pub take_profit : Option F
  pub opened_at : String

-- The breaker and the book in memory, and the tables on disk.
pub record Desk (F : Type 0) : Type 0 where
  pub breaker : BreakerState F
  pub open_positions : Dict (Position F)
  pub breaker_row : Option (BreakerState F)
  pub position_rows : Dict (PositionRow F)
  pub ledger : Ledger F
