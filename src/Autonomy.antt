-- ===== src/Autonomy.antt =====
-- src/hitl/progressive_autonomy.py: trust scores, and when an agent needs a human. An action is its
-- critical flag and a payload `A`; the handler answers with modified payloads.
pub mod Trust
pub mod Levels
mod Tests
use criptotrade.Base.{
  ℕ, nat_eq, String, Bool, true, false, Option, none, some, List, [], ◌∷◌, ◌++◌, if◌then◌else◌,
}
use criptotrade.Base.Dict.{Dict, lookup, insert}
use criptotrade.Base.Float.{Float, nought, one, min, max}

pub record Action (A : Type 0) : Type 0 where
  pub critical : Bool
  pub payload : A

-- An entry of `action_history`, without its time stamp.
pub record Done (A : Type 0) (F : Type 0) : Type 0 where
  pub agent : String
  pub action : Action A
  pub success : Bool
  pub trust_score : F
  pub autonomy_level : ℕ

pub record Approval (A : Type 0) : Type 0 where
  pub approved : Bool
  -- The action with the modifications merged in, if there are any.
  pub modified : Option (Action A)

pub record Manager (A : Type 0) (F : Type 0) : Type 0 where
  pub agent_trust_scores : Dict F
  pub action_history : List (Done A F)

abbrev pub Handler : Type 0 → Type 0
Handler A = Option (String → Action A → Approval A)

abbrev pub needs_approval_at : ℕ → Bool → Bool
needs_approval_at level critical =
    if nat_eq level 3 then false else if nat_eq level 2 then critical else true

abbrev pub or_given : {A : Type 0} → Option (Action A) → Action A → Action A
or_given none action = action
or_given (some modified) action = modified

-- `_request_human_approval`; without a handler it denies.
abbrev pub request_approval : {A : Type 0} → Handler A → String → Action A → Approval A
request_approval none agent action = record { approved = false; modified = none }
request_approval (some handler) agent action = handler agent action

module _ {F : Type 0} ⦃fl : Float F⦄ where
  -- `agent_trust_scores.get(agent, 0.5)`
  abbrev pub or_half : Option F → F
  or_half none = fl.lit 5 1
  or_half (some score) = score

  abbrev pub level_of : F → ℕ
  level_of score =
      if fl.lt score (fl.lit 4 1)
      then 0
      else if fl.lt score (fl.lit 6 1)
      then 1
      else if fl.lt score (fl.lit 8 1)
      then 2
      else 3

  abbrev pub new_score : Bool → F → F
  new_score success score =
      if success
      then min one (fl.add score (fl.lit 2 2))
      else max nought (fl.sub score (fl.lit 1 1))

module _ {A : Type 0} {F : Type 0} ⦃fl : Float F⦄ where
  abbrev pub score_of : String → Manager A F → F
  score_of agent m = or_half (lookup agent m.agent_trust_scores)

  -- `_get_autonomy_level`
  abbrev pub get_autonomy_level : String → Manager A F → ℕ
  get_autonomy_level agent m = level_of (score_of agent m)

  -- `needs_human_approval`
  abbrev pub needs_human_approval : String → Bool → Manager A F → Bool
  needs_human_approval agent critical m = needs_approval_at (get_autonomy_level agent m) critical

  -- `record_action`
  unfoldable pub record_action : String → Action A → Bool → Manager A F → Manager A F
  record_action agent action success m =
      let score = new_score success (score_of agent m) in
      record {
        agent_trust_scores = insert agent score m.agent_trust_scores;
        action_history =
            m.action_history
            ++ record {
              agent = agent;
              action = action;
              success = success;
              trust_score = score;
              autonomy_level = get_autonomy_level agent m;
            }
              ∷ [];
      }

  -- The execution, which always succeeds.
  abbrev pub execute_action : String → Action A → Manager A F → Bool × Manager A F
  execute_action agent action m = (true, record_action agent action true m)

  abbrev pub execute_approved : String → Action A → Approval A → Manager A F → Bool × Manager A F
  execute_approved agent action approval m =
      if approval.approved
      then execute_action agent (or_given approval.modified action) m
      else (false, record_action agent action false m)

  -- `execute_with_autonomy`: whether the action was executed.
  unfoldable pub execute_with_autonomy :
      Handler A → String → Action A → Manager A F → Bool × Manager A F
  execute_with_autonomy handler agent action m =
      if needs_human_approval agent action.critical m
      then execute_approved agent action (request_approval handler agent action) m
      else execute_action agent action m

  -- The answers to a sequence of requests.
  unfoldable pub execute_all :
      Handler A → List (String × Action A) → Manager A F → List Bool × Manager A F
  execute_all handler [] m = ([], m)
  execute_all handler ((agent, action) ∷ requests) m =
      let (executed, m') = execute_with_autonomy handler agent action m in
      let (rest, m'') = execute_all handler requests m' in (executed ∷ rest, m'')
