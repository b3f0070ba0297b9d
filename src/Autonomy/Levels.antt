-- ===== src/Autonomy/Levels.antt =====
-- src/hitl/config.py and src/api/routes/hitl.py: the level that an operator sets, and the amount up to
-- which it approves orders. The API holds the level; the loop reads its own from the environment.
pub mod Changes
pub mod Fills
mod Tests
use criptotrade.Base.{
  ℕ, zero, suc, ◌+◌, nat_eq, ltb, leb, String, ◌==◌, Bool, true, false, not, ◌&&◌, ◌||◌, Option,
  none, some, List, [], ◌∷◌, if◌then◌else◌, map, keep, length,
}
use criptotrade.Base.Int.{ℤ, pos, negsuc}
use criptotrade.Base.Float.{Float}
use criptotrade.Base.Text.{strip, text_length, truthy}
use criptotrade.Base.Dict.{Dict, lookup}
use criptotrade.Ledger.{Ledger, Entry, log_decision, get_events}
use criptotrade.Ledger.Payload.{Json, bool, int, str, null}
use criptotrade.Access.{Principal, Request, Guarded, AuthMode, passed, require_perm}

pub record AutonomyLevel (F : Type 0) : Type 0 where
  pub level : ℕ
  -- Orders up to this notional are approved automatically.
  pub threshold_usdt : F
  pub description : String

-- `HITLConfigStore`; the ledger is passed along.
pub record ConfigStore : Type 0 where
  pub level : ℕ
  pub last_changed_at : Option String
  pub last_changed_by : Option String
  -- What `pending_orders_provider` counts, if it is set.
  pub pending_orders : Option ℕ

-- `MAX_LEVEL` and `DEFAULT_LEVEL`; `MIN_LEVEL` is zero.
abbrev pub max_level : ℕ
max_level = 3

abbrev pub default_level : ℕ
default_level = 2

module _ {F : Type 0} ⦃fl : Float F⦄ where
  abbrev level_row : ℕ → F → String → AutonomyLevel F
  level_row n threshold description = record {
    level = n;
    threshold_usdt = threshold;
    description = description;
  }

  -- `AUTONOMY_LEVELS`, in which the place is the level.
  abbrev pub autonomy_levels : List (AutonomyLevel F)
  autonomy_levels =
      level_row 0 (fl.lit 0 0) "Manual total — toda ordem exige aprovação humana"
      ∷ level_row 1 (fl.lit 500 0) "Semiautônomo baixo — aprova automático até $500 USDT"
      ∷ level_row 2 (fl.lit 1_000 0)
          "Semiautônomo médio — aprova automático até $1.000 USDT (padrão inicial)"
      ∷ level_row 3 (fl.lit 5_000 0)
          "Semiautônomo alto — aprova automático até $5.000 USDT, alertas críticos ainda requerem humano"
      ∷ []

  abbrev pub level_in : ℕ → List (AutonomyLevel F) → Option (AutonomyLevel F)
  level_in n [] = none
  level_in zero (l ∷ ls) = some l
  level_in (suc n) (l ∷ ls) = level_in n ls

  -- `level_info`, none where it raises.
  unfoldable pub level_info : ℕ → Option (AutonomyLevel F)
  level_info n = level_in n autonomy_levels

  abbrev pub threshold_in : Option (AutonomyLevel F) → F
  threshold_in none = fl.lit 0 0
  threshold_in (some l) = l.threshold_usdt

  -- `_threshold`, the provider of the order store; the level of a store is never out of range.
  abbrev pub threshold_of : ConfigStore → F
  threshold_of store = threshold_in (level_info store.level)

-- A number that is a level.
abbrev clamped_level : Option ℤ → ℕ
clamped_level (some (pos n)) = if leb n max_level then n else default_level
clamped_level (some (negsuc n)) = default_level
clamped_level none = default_level

-- `level_from_env`, on Python's `int`, which is none where it raises.
unfoldable pub level_from_env : (String → Option ℤ) → Option String → ℕ
level_from_env parse none = default_level
level_from_env parse (some raw) = clamped_level (parse raw)

-- `AutonomyLevelPatch`, which has passed the schema.
pub record LevelPatch : Type 0 where
  pub level : ℕ
  pub reason : String
  pub operator : String
  pub confirm : Bool

-- What a request to change the level meets.
pub data Changed : Type 0 where
  refused : Guarded → Changed
  confirmation_required : Changed
  value_error : Changed
  updated : Changed

-- The reason that `set_level` asks for.
abbrev pub is_reason : String → Bool
is_reason reason = truthy reason && leb 5 (text_length (strip reason))

abbrev operator_of : Principal → LevelPatch → String
operator_of p patch = if p.kind == "user" then p.actor else patch.operator

abbrev same_id : Option String → Option String → Bool
same_id none none = true
same_id (some a) (some b) = a == b
same_id none (some b) = false
same_id (some a) none = false

module _ {F : Type 0} ⦃fl : Float F⦄ where
  abbrev pub is_level : Option (AutonomyLevel F) → Bool
  is_level none = false
  is_level (some l) = true

  -- `set_level`, false where it raises.
  unfoldable pub set_level :
      String → ℕ → String → String → ConfigStore × Ledger F → Bool × ConfigStore × Ledger F
  set_level now level reason operator (store, l) =
      if is_level (level_info {F = F} level) && is_reason reason
      then (
        true,
        record store { level = level; last_changed_at = some now; last_changed_by = some operator },
        log_decision "hitl_level_changed"
            (("level", int level)
              ∷ ("previous_level", int store.level)
              ∷ ("reason", str reason)
              ∷ ("operator", str operator)
              ∷ [])
            l,
      )
      else (false, store, l)

  abbrev told : Bool × ConfigStore × Ledger F → Changed × ConfigStore × Ledger F
  told (done, store, l) = (if done then updated else value_error, store, l)

  abbrev pub guarded_update :
      String → LevelPatch → Guarded → ConfigStore × Ledger F → Changed × ConfigStore × Ledger F
  guarded_update now patch (passed p) (store, l) =
      if nat_eq patch.level 3 && not patch.confirm
      then (confirmation_required, store, l)
      else told (set_level now patch.level patch.reason (operator_of p patch) (store, l))
  guarded_update now patch g (store, l) = (refused g, store, l)

  -- `update_hitl_config`
  unfoldable pub update_hitl_config :
      AuthMode
      → Request
      → String
      → LevelPatch
      → ConfigStore × Ledger F
      → Changed × ConfigStore × Ledger F
  update_hitl_config mode request now patch s =
      guarded_update now patch (require_perm "change_autonomy" mode request) s

  abbrev key_text : Option (Json F) → Option String
  key_text (some (str s)) = some s
  key_text none = none
  key_text (some null) = none
  key_text (some j) = none

  abbrev order_id_of : Entry F → Option String
  order_id_of e = key_text (lookup "order_id" e.payload)

  abbrev is_closed : List (Entry F) → Option String → Bool
  is_closed [] id = false
  is_closed (e ∷ es) id = same_id (order_id_of e) id || is_closed es id

  -- `_pending_orders_count`
  unfoldable pub pending_orders_count : Ledger F → ℕ
  pending_orders_count l =
      let closed = get_events "position_closed" l in
      length (keep (λ e. not (is_closed closed (order_id_of e))) (get_events "order_fill" l))

  abbrev is_approved : Option (Json F) → Bool
  is_approved (some (bool b)) = b
  is_approved none = false
  is_approved (some j) = false

  abbrev was_approved : Entry F → Bool
  was_approved e = is_approved (lookup "approved" e.payload)

  -- The approvals of the day; each comes with the day of its time stamp, none where that is no date.
  abbrev of_day : ℕ → List (Option ℕ × Entry F) → List (Entry F)
  of_day today [] = []
  of_day today ((none, e) ∷ es) = of_day today es
  of_day today ((some day, e) ∷ es) =
      let rest = of_day today es in if nat_eq day today then e ∷ rest else rest

  -- `_count_today`
  unfoldable pub count_today : ℕ → List (Option ℕ × Entry F) → ℕ × ℕ
  count_today today approvals =
      let es = of_day today approvals in
      (length (keep was_approved es), length (keep (λ e. not (was_approved e)) es))
