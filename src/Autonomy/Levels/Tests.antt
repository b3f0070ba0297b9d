-- ===== src/Autonomy/Levels/Tests.antt =====
-- Changes of the level at concrete requests, and a fill at the default level.
use criptotrade.Base.{
  ℕ, ◌≡◌, ◌⊎◌, ◌≤◌, ◌<◌, refl, true, false, none, some, List, [], ◌∷◌, any, arith,
}
use criptotrade.Base.Int.{ℤ, pos}
use criptotrade.Base.Float.{fixed, fixed-IsOrdered}
use criptotrade.Base.Dict.{lookup}
use criptotrade.Base.Text.{strip, strip_left, strip_right, text_length}
use criptotrade.Access.{Principal, mode_required}
use criptotrade.Guardrails.Safe.{IsSafe}
use criptotrade.Orders.{new_order, notional, guardrail_view}
use criptotrade.Orders.Tests.{empty, buy, small_filled, small_fills}
use criptotrade.Autonomy.Levels.{
  ConfigStore, default_level, threshold_of, level_info, set_level, update_hitl_config,
}
use criptotrade.Autonomy.Levels.Fills.{submit_filled-level}
use criptotrade.Autonomy.Levels.Changes.{Asked, is_confirmed, ask_all, ask_all-level}

abbrev store : ConfigStore
store = record {
  level = default_level;
  last_changed_at = none;
  last_changed_by = none;
  pending_orders = none;
}

abbrev ana : Principal
ana = record { kind = "user"; actor = "ana@x.org"; role = "operador"; user_id = some "u1" }

-- A request of hers for a level.
abbrev asked : ℕ → Asked
asked level = record {
  mode = mode_required;
  request = record {
    principal = ana;
    method = "PATCH";
    content_length = "12";
    content_type = "application/json";
  };
  now = "t1";
  patch = record { level = level; reason = "calm market"; operator = "operator"; confirm = false };
}

abbrev requests : List Asked
requests = asked 3 ∷ asked 1 ∷ []

lowered : (ask_all {F = ℤ} requests (store, [])).0.level ≡ 1
unfolding update_hitl_config set_level level_info lookup strip strip_left strip_right text_length
lowered = refl

unconfirmed : any is_confirmed requests ≡ false
unfolding lookup
unconfirmed = refl

ask_all-level_example :
    let after = (ask_all {F = ℤ} requests (store, [])).0 in
    (after.level ≤ 3)
    × ((any is_confirmed requests ≡ true) ⊎ (after.level ≡ store.level) ⊎ (after.level < 3))
ask_all-level_example = ask_all-level {F = ℤ} requests store [] (omega arith)

default_threshold : threshold_of {F = ℤ} store ≡ pos 1_000_000_000
unfolding level_info
default_threshold = refl

submit_filled-level_example :
    IsSafe (pos 5_000_000) (guardrail_view (new_order (buy 100) "ord_2" "t1"))
    × (false ≡ false)
    × (fixed.le (notional (new_order (buy 100) "ord_2" "t1")) (threshold_of store) ≡ true)
    × (0 < store.level)
unfolding level_info
submit_filled-level_example =
    submit_filled-level fixed-IsOrdered store (pos 5_000_000) false "t1" "ord_2" (buy 100) empty
      small_filled small_fills refl
