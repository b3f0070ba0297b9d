-- ===== src/Consensus/Winner.antt =====
-- The maker of the decision has a best score.
use mathlib.Core.Path.{subst}
use mathlib.Core.Option.{some-injective}
use criptotrade.Base.{
  ◌≡◌, ◌⊎◌, refl, ap, ◌∙◌, String, Bool, true, false, not, ◌&&◌, Option, none, some, [], ◌∷◌, arith,
  Bool-cases, inl, inr, every,
}
use criptotrade.Base.Dict.{Dict}
use criptotrade.Base.Float.{Float, IsOrdered}
use criptotrade.Consensus.{better, best_of, weighted_scores, conclude, reach_consensus}

both : (a b : Bool) → a ≡ true → b ≡ true → (a && b) ≡ true
both a b h k = ground arith

none-ne-some_text : {w : String} → ◌≡◌ {A = Option String} none (some w) → ⊥
none-ne-some_text e = cc

module _ {F : Type 0} ⦃fl : Float F⦄ where
  -- No score of the list is better than `x`.
  abbrev pub is_top : F → Dict F → Bool
  is_top x = every (λ e. not (fl.lt x e.1))

  not_below_self : (o : IsOrdered F) (a : F) → fl.lt a a ≡ false
  not_below_self o a = elim (Bool-cases (fl.lt a a)) [
    | inl t ↦ cc (o.lt-not-le a a t, o.lt-le a a t)
    | inr t ↦ t
  ]

  -- A better score beats whatever the worse one beats.
  still_beaten :
      (o : IsOrdered F) (a b c : F) → fl.lt a b ≡ true → fl.lt a c ≡ false → fl.lt b c ≡ false
  still_beaten o a b c h k = elim (Bool-cases (fl.lt b c)) [
    | inl t ↦ cc (o.le-lt_trans a b c (o.lt-le a b h) t, k)
    | inr t ↦ t
  ]

  better-beats :
      (o : IsOrdered F) (best e : String × F) (x : F)
      → fl.lt best.1 x ≡ false
      → fl.lt (better best e).1 x ≡ false
  better-beats o best e x h = elim (Bool-cases (fl.lt best.1 e.1)) [
    | inl t ↦ rw t (still_beaten o best.1 e.1 x t h)
    | inr t ↦ rw t h
  ]

  better-own : (o : IsOrdered F) (best e : String × F) → fl.lt (better best e).1 e.1 ≡ false
  better-own o best e = elim (Bool-cases (fl.lt best.1 e.1)) [
    | inl t ↦ rw t (not_below_self o e.1)
    | inr t ↦ rw t t
  ]

  better-either : (best e : String × F) → (better best e ≡ best) ⊎ (better best e ≡ e)
  better-either best e = elim (Bool-cases (fl.lt best.1 e.1)) [
    | inl t ↦ rw t (inr refl)
    | inr t ↦ rw t (inl refl)
  ]

  -- What `best` beats, the best of it and more beats.
  best_of-beats :
      (o : IsOrdered F) (scores : Dict F) (best : String × F) (x : F)
      → fl.lt best.1 x ≡ false
      → fl.lt (best_of best scores).1 x ≡ false
  best_of-beats o [] best x h = h
  best_of-beats o (e ∷ scores) best x h =
      best_of-beats o scores (better best e) x (better-beats o best e x h)

  best_of-top :
      (o : IsOrdered F) (scores : Dict F) (best : String × F)
      → is_top (best_of best scores).1 scores ≡ true
  best_of-top o [] best = refl
  best_of-top o (e ∷ scores) best =
      both _ _ (ap not (best_of-beats o scores (better best e) e.1 (better-own o best e)))
        (best_of-top o scores (better best e))

  abbrev pub Listed : String × F → Dict F → Type 0
  Listed e [] = ⊥
  Listed e (x ∷ xs) = (e ≡ x) ⊎ Listed e xs

  best_of-Listed :
      (scores : Dict F) (best : String × F) → Listed (best_of best scores) (best ∷ scores)
  best_of-Listed [] best = inl refl
  best_of-Listed (e ∷ scores) best = elim (best_of-Listed scores (better best e)) [
    | inl own ↦ elim (better-either best e) [
      | inl first ↦ inl (own ∙ first)
      | inr second ↦ inr (inl (own ∙ second))
    ]
    | inr later ↦ inr (inr later)
  ]

  conclude_wins :
      (o : IsOrdered F) (proposals : Dict (Option F)) (scores : Dict F) (w : String)
      → (conclude proposals scores).decision_maker ≡ some w
      → (score : F) × Listed (w, score) scores × (is_top score scores ≡ true)
  conclude_wins o proposals [] w h = absurd (none-ne-some_text h)
  conclude_wins o proposals (e ∷ scores) w h =
      let best = best_of e scores in
      let named : best.0 ≡ w = some-injective _ _ h in
      (
        best.1,
        subst (λ a. Listed (a, best.1) (e ∷ scores)) named (best_of-Listed scores e),
        both _ _ (ap not (best_of-beats o scores e e.1 (not_below_self o e.1)))
            (best_of-top o scores e),
      )

  -- If a decision is reached, the agent who made it has a weighted score on the list, and no proposal
  -- has a better one.
  pub reach_consensus_wins :
      (o : IsOrdered F) (weights : Dict (Dict F)) (proposals : Dict (Option F))
      (decision_type w : String)
      → (reach_consensus weights proposals decision_type).decision_maker ≡ some w
      → let scores = weighted_scores weights decision_type proposals in
        (score : F) × Listed (w, score) scores × (is_top score scores ≡ true)
  unfolding reach_consensus
  reach_consensus_wins o weights proposals decision_type w h =
      conclude_wins o proposals (weighted_scores weights decision_type proposals) w h
