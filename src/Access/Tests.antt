-- ===== src/Access/Tests.antt =====
-- The permission matrix, the guards and the limiter at concrete requests.
use criptotrade.Base.{◌≡◌, refl, true, false, Option, none, some, List, [], ◌∷◌}
use criptotrade.Base.Int.{ℤ, pos, ◌-ℤ◌}
use criptotrade.Base.Float.{fixed, fixed-IsOrdered}
use criptotrade.Base.Dict.{lookup, insert}
use criptotrade.Access.Sets.{sort, insert_sorted}
use criptotrade.Access.{
  mode_required, Principal, Request, passed, permissions_for, has_perm, require_perm,
}
use criptotrade.Access.RateLimit.{allow, answers, answers_by_history, is_clock, answers-by_history}

abbrev operator : Principal
operator = record { kind = "user"; actor = "ana@x.org"; role = "operador"; user_id = some "u1" }

abbrev bot : Principal
bot = record { kind = "machine"; actor = "api-key"; role = "admin"; user_id = none }

abbrev post : Principal → Request
post p = record {
  principal = p;
  method = "POST";
  content_length = "12";
  content_type = "application/json";
}

operator_list : permissions_for operator ≡ "approve_order" ∷ "change_autonomy" ∷ "view_audit" ∷ []
unfolding sort insert_sorted
operator_list = refl

operator_approves : has_perm operator "approve_order" ≡ true
unfolding lookup
operator_approves = refl

operator_passes : require_perm "approve_order" mode_required (post operator) ≡ passed operator
unfolding lookup
operator_passes = refl

abbrev minute : ℤ
minute = pos 60_000_000

abbrev hits : List ℤ
hits = pos 1_000_000 ∷ pos 2_000_000 ∷ pos 3_000_000 ∷ pos 62_000_000 ∷ []

hits_run : answers minute "ip" 2 hits [] ≡ true ∷ true ∷ false ∷ true ∷ []
unfolding allow lookup insert ◌-ℤ◌
hits_run = refl

hits_clock : is_clock minute hits ≡ true
unfolding ◌-ℤ◌
hits_clock = refl

new_key : ◌≡◌ {A = Option (List ℤ)} (lookup "ip" []) none
unfolding lookup
new_key = refl

answers-by_history_example : answers minute "ip" 2 hits [] ≡ answers_by_history minute 2 hits []
answers-by_history_example =
    answers-by_history minute fixed-IsOrdered "ip" 2 hits [] hits_clock new_key
