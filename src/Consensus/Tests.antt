-- ===== src/Consensus/Tests.antt =====
-- A vote on an architecture.
use criptotrade.Base.{◌≡◌, refl, true, Option, none, some, [], ◌∷◌}
use criptotrade.Base.Int.{ℤ, pos, mul_scaled}
use criptotrade.Base.Float.{fixed, fixed-IsOrdered}
use criptotrade.Base.Dict.{Dict, lookup}
use criptotrade.Consensus.{agent_weights, weighted_scores, reach_consensus}
use criptotrade.Consensus.Winner.{Listed, is_top, reach_consensus_wins}

abbrev proposals : Dict (Option ℤ)
proposals =
    ("developer", some (pos 900_000)) ∷ ("architect", some (pos 800_000)) ∷ ("ops", none) ∷ []

architect_wins :
    (reach_consensus agent_weights proposals "architecture").decision_maker ≡ some "architect"
unfolding reach_consensus lookup mul_scaled
architect_wins = refl

reach_consensus_wins_example :
    let scores = weighted_scores agent_weights "architecture" proposals in
    (score : ℤ) × Listed ("architect", score) scores × (is_top score scores ≡ true)
reach_consensus_wins_example =
    reach_consensus_wins fixed-IsOrdered agent_weights proposals "architecture" "architect"
      architect_wins
