-- ===== src/Autonomy/Trust.antt =====
-- The range of the scores, and what happens where no human can be asked.
use criptotrade.Base.{
  ◌≡◌, refl, String, ◌==◌, Bool, true, false, not, none, List, [], ◌∷◌, Bool-cases, inl, inr, every,
}
use criptotrade.Base.Dict.{lookup-insert}
use criptotrade.Base.Float.{Float, nought}
use criptotrade.Autonomy.{
  Action, Manager, level_of, new_score, needs_approval_at, score_of, record_action,
  execute_with_autonomy, execute_all,
}

-- How the steps of a score move it; IEEE addition and subtraction do so.
pub record IsStepping (F : Type 0) ⦃fl : Float F⦄ : Type 0 where
  pub lt_sub :
      (a b d : F) → fl.lt (fl.lit 0 0) d ≡ true → fl.lt a b ≡ true → fl.lt (fl.sub a d) b ≡ true
  -- The constants of the code.
  pub step_positive : fl.lt (fl.lit 0 0) (fl.lit 1 1) ≡ true
  pub nought_low : fl.lt (fl.lit 0 0) (fl.lit 6 1) ≡ true

module _ {F : Type 0} ⦃fl : Float F⦄ where
  -- Below the level at which an agent acts without approval.
  abbrev pub is_low : F → Bool
  is_low score = fl.lt score (fl.lit 6 1)

  low_needs_approval :
      (score : F) (critical : Bool)
      → is_low score ≡ true
      → needs_approval_at (level_of score) critical ≡ true
  low_needs_approval score critical h = elim (Bool-cases (fl.lt score (fl.lit 4 1))) [
    | inl e ↦ rw e refl
    | inr e ↦ rw (e, h) refl
  ]

  failure_low :
      (x : IsStepping F) (score : F) → is_low score ≡ true → is_low (new_score false score) ≡ true
  failure_low x score h = elim (Bool-cases (fl.lt nought (fl.sub score (fl.lit 1 1)))) [
    | inl e ↦ rw e (x.lt_sub score (fl.lit 6 1) (fl.lit 1 1) x.step_positive h)
    | inr e ↦ rw e x.nought_low
  ]

module _ {A : Type 0} {F : Type 0} ⦃fl : Float F⦄ where
  -- Every agent's score is low; an agent without a score counts by the default.
  abbrev pub IsLow : Manager A F → Type 0
  IsLow m = (agent : String) → is_low (score_of agent m) ≡ true

  denied :
      (agent : String) (action : Action A) (m : Manager A F)
      → is_low (score_of agent m) ≡ true
      → execute_with_autonomy none agent action m ≡ (false, record_action agent action false m)
  unfolding execute_with_autonomy
  denied agent action m h = rw (low_needs_approval (score_of agent m) action.critical h) refl

  failure-IsLow :
      (x : IsStepping F) (agent : String) (action : Action A) (m : Manager A F)
      → IsLow m
      → IsLow (record_action agent action false m)
  unfolding record_action
  failure-IsLow x agent action m h other =
      rw (lookup-insert agent other (new_score false (score_of agent m)) m.agent_trust_scores)
        (elim (Bool-cases (agent == other)) [
          | inl e ↦ rw e (failure_low x (score_of agent m) (h agent))
          | inr e ↦ rw e (h other)
        ])

  -- Without a handler, while every score is below 0.6: no request of any agent in
  -- any sequence is executed, and every score is still below 0.6 after it; so autonomy is not earned by
  -- waiting.
  pub execute_all_denied :
      (x : IsStepping F) (requests : List (String × Action A)) (m : Manager A F)
      → ((agent : String) → is_low (score_of agent m) ≡ true)
      → let (executed, m') = execute_all none requests m in (every not executed ≡ true) × IsLow m'
  unfolding execute_all
  execute_all_denied x [] m h = (refl, h)
  execute_all_denied x ((agent, action) ∷ requests) m h =
      let step = denied agent action m (h agent) in
      let (rest, low) =
        execute_all_denied x requests (record_action agent action false m)
          (failure-IsLow x agent action m h) in
      rw step (rest, low)
