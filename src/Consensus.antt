-- ===== src/Consensus.antt =====
-- src/consensus/weighted_voting.py: votes weighted by expertise. A proposal is its confidence, if it
-- states one; the agents' names are the keys of a dict, so they differ.
pub mod Winner
mod Tests
use criptotrade.Base.{
  String, ◌==◌, Bool, true, false, not, Option, none, some, List, [], ◌∷◌, if◌then◌else◌, keep,
}
use criptotrade.Base.Dict.{Dict, lookup}
use criptotrade.Base.Float.{Float, nought, one}

-- What `reach_consensus` returns of an option: the maker, the strength and the dissent.
pub record Consensus (F : Type 0) : Type 0 where
  pub decision : Option (Option F)
  pub consensus_strength : F
  pub decision_maker : Option String
  pub dissenting_opinions : Dict F

module _ {F : Type 0} ⦃fl : Float F⦄ where
  -- `agent_weights`
  abbrev pub agent_weights : Dict (Dict F)
  agent_weights =
      ("architect", ("architecture", fl.lit 9 1) ∷ ("security", fl.lit 7 1) ∷ [])
      ∷ (
        "developer",
        ("architecture", fl.lit 6 1)
            ∷ ("implementation", fl.lit 95 2)
            ∷ ("testing", fl.lit 8 1)
            ∷ [],
      )
      ∷ ("auditor", ("security", fl.lit 95 2) ∷ ("quality", fl.lit 85 2) ∷ [])
      ∷ ("designer", ("ui", fl.lit 95 2) ∷ ("ux", fl.lit 9 1) ∷ [])
      ∷ ("ops", ("infrastructure", fl.lit 9 1) ∷ ("deployment", fl.lit 9 1) ∷ [])
      ∷ []

  abbrev pub or_half : Option F → F
  or_half none = fl.lit 5 1
  or_half (some x) = x

  abbrev pub weights_of : Option (Dict F) → Dict F
  weights_of none = []
  weights_of (some d) = d

  -- `agent_weights.get(agent, {}).get(decision_type, 0.5)`
  abbrev pub weight_of : Dict (Dict F) → String → String → F
  weight_of weights decision_type agent =
      or_half (lookup decision_type (weights_of (lookup agent weights)))

  abbrev pub weighted_scores : Dict (Dict F) → String → Dict (Option F) → Dict F
  weighted_scores weights decision_type [] = []
  weighted_scores weights decision_type ((agent, confidence) ∷ proposals) =
      (agent, fl.mul (weight_of weights decision_type agent) (or_half confidence))
      ∷ weighted_scores weights decision_type proposals

  -- The later of two only if it is better.
  abbrev pub better : String × F → String × F → String × F
  better best e = if fl.lt best.1 e.1 then e else best

  -- `max(..., key=...)`: the first of the best.
  abbrev pub best_of : String × F → Dict F → String × F
  best_of best [] = best
  best_of best (e ∷ scores) = best_of (better best e) scores

  abbrev pub total_score : Dict F → F → F
  total_score [] total = total
  total_score (e ∷ scores) total = total_score scores (fl.add total e.1)

  -- `total or 1.0`
  abbrev pub or_one : F → F
  or_one total = if fl.is_zero total then one else total

  abbrev pub conclude : Dict (Option F) → Dict F → Consensus F
  conclude proposals [] = record {
    decision = none;
    consensus_strength = nought;
    decision_maker = none;
    dissenting_opinions = [];
  }
  conclude proposals (e ∷ scores) =
      let (winner, score) = best_of e scores in
      record {
        decision = lookup winner proposals;
        consensus_strength = fl.div score (or_one (total_score (e ∷ scores) nought));
        decision_maker = some winner;
        dissenting_opinions = keep (λ o. not (o.0 == winner)) (e ∷ scores);
      }

  -- `reach_consensus`
  unfoldable pub reach_consensus : Dict (Dict F) → Dict (Option F) → String → Consensus F
  reach_consensus weights proposals decision_type =
      conclude proposals (weighted_scores weights decision_type proposals)
