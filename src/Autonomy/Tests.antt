-- ===== src/Autonomy/Tests.antt =====
-- Runs of the autonomy manager, and its theorem at concrete requests.
use criptotrade.Base.{◌≡◌, refl, String, Bool, true, false, not, none, List, [], ◌∷◌, every, arith}
use criptotrade.Base.Int.{ℤ, pos, ◌-ℤ◌, ◌+ℤ◌}
use criptotrade.Base.Float.{fixed}
use criptotrade.Base.Dict.{lookup, insert}
use criptotrade.Autonomy.{
  Action, Manager, score_of, execute_all, execute_with_autonomy, record_action,
}
use criptotrade.Autonomy.Trust.{IsStepping, IsLow, is_low, execute_all_denied}

fixed-IsStepping : IsStepping ℤ
unfolding ◌-ℤ◌
fixed-IsStepping = record {
  lt_sub = λ a b d p q. ground arith;
  step_positive = refl;
  nought_low = refl;
}

abbrev act : Bool → Action String
act critical = record { critical = critical; payload = "rebalance" }

abbrev requests : List (String × Action String)
requests = ("ops", act false) ∷ ("auditor", act true) ∷ ("ops", act false) ∷ []

abbrev nobody : Manager String ℤ
nobody = record { agent_trust_scores = []; action_history = [] }

-- A trusted agent acts alone; each refusal costs the other a tenth.
trusted_acts :
    (execute_all none requests
      (record nobody { agent_trust_scores = ("auditor", pos 900_000) ∷ [] })).0
    ≡ false ∷ true ∷ false ∷ []
unfolding execute_all execute_with_autonomy record_action lookup insert ◌-ℤ◌ ◌+ℤ◌
trusted_acts = refl

all_low : (agent : String) → is_low (score_of agent nobody) ≡ true
unfolding lookup
all_low agent = refl

execute_all_denied_example :
    let (executed, m') = execute_all none requests nobody in (every not executed ≡ true) × IsLow m'
execute_all_denied_example = execute_all_denied fixed-IsStepping requests nobody all_low
