-- ===== src/Loop/Registry.antt =====
-- `AgentRegistry` of src/agents/registry.py: how often each agent ran today, counted in memory and in
-- the table that the loop and the API share. A time is the seconds since midnight of some day.
pub mod Agree
pub mod Current
use criptotrade.Base.{
  ℕ, zero, suc, ◌+◌, ◌-◌, ◌*◌, ◌/◌, ltb, leb, String, ◌==◌, Bool, true, false, not, ◌&&◌, Option,
  none, some, List, [], ◌∷◌, ◌++◌, if◌then◌else◌, keep, length,
}
use criptotrade.Base.Dict.{Dict, lookup, insert}

-- A row of `cycle_events`.
pub record CycleEvent : Type 0 where
  pub agent_id : String
  pub cycled_at : ℕ

pub record AgentRegistry : Type 0 where
  -- `db_path` is set.
  pub has_db : Bool
  pub events : List CycleEvent
  pub cycles : Dict ℕ
  pub last_action : Dict ℕ
  pub cycles_date : ℕ

abbrev pub day : ℕ
day = 86_400

abbrev pub date_of : ℕ → ℕ
date_of t = t / day

-- `_utc_day_start`
abbrev pub day_start : ℕ → ℕ
day_start now = date_of now * day

-- `__init__`
abbrev pub new_registry : Bool → ℕ → AgentRegistry
new_registry has_db now = record {
  has_db = has_db;
  events = [];
  cycles = [];
  last_action = [];
  cycles_date = date_of now;
}

abbrev pub is_kept : ℕ → CycleEvent → Bool
is_kept cutoff e = not (ltb e.cycled_at cutoff)

-- `prune_cycle_events`
unfoldable pub prune_cycle_events : ℕ → ℕ → AgentRegistry → AgentRegistry
prune_cycle_events retention_days now r =
    if r.has_db
    then record r { events = keep (is_kept (now - retention_days * day)) r.events }
    else r

-- `_maybe_reset`
unfoldable pub maybe_reset : ℕ → AgentRegistry → AgentRegistry
maybe_reset now r =
    if ltb r.cycles_date (date_of now)
    then prune_cycle_events 30 now
        (record r { cycles = []; last_action = []; cycles_date = date_of now })
    else r

-- `d.get(k, 0)`
abbrev pub count_or_zero : Option ℕ → ℕ
count_or_zero none = 0
count_or_zero (some n) = n

abbrev pub counted : String → ℕ → AgentRegistry → AgentRegistry
counted agent_id now r = record r {
  cycles = insert agent_id (count_or_zero (lookup agent_id r.cycles) + 1) r.cycles;
  last_action = insert agent_id now r.last_action;
  events =
      if r.has_db
      then r.events ++ (record { agent_id = agent_id; cycled_at = now } ∷ [])
      else r.events;
}

-- `record_cycle`
unfoldable pub record_cycle : String → ℕ → AgentRegistry → AgentRegistry
record_cycle agent_id now r = counted agent_id now (maybe_reset now r)

abbrev pub is_since : String → ℕ → CycleEvent → Bool
is_since agent_id start e = e.agent_id == agent_id && leb start e.cycled_at

abbrev pub count_since : String → ℕ → List CycleEvent → ℕ
count_since agent_id start events = length (keep (is_since agent_id start) events)

-- `cycles_today`, which resets a registry without a table.
unfoldable pub cycles_today : String → ℕ → AgentRegistry → ℕ × AgentRegistry
cycles_today agent_id now r =
    if r.has_db
    then (count_since agent_id (day_start now) r.events, r)
    else (count_or_zero (lookup agent_id (maybe_reset now r).cycles), maybe_reset now r)

abbrev newest : Option ℕ → List CycleEvent → Option ℕ
newest best [] = best
newest none (e ∷ es) = newest (some e.cycled_at) es
newest (some t) (e ∷ es) = newest (some (if ltb t e.cycled_at then e.cycled_at else t)) es

-- `_last_action_at`
unfoldable pub last_action_at : String → ℕ → AgentRegistry → Option ℕ
last_action_at agent_id now r =
    if r.has_db
    then newest none (keep (is_since agent_id (day_start now)) r.events)
    else lookup agent_id r.last_action
