-- ===== src/Autonomy/Levels/Fills.antt =====
-- The level of src/hitl/config.py as the order store of the API reads it.
use criptotrade.Base.{
  false-ne-true, ℕ, zero, suc, ◌<◌, ◌≡◌, sym, ◌∙◌, String, Bool, true, false, some, [], arith,
  Bool-cases, inl, inr,
}
use criptotrade.Base.Float.{Float, IsOrdered, nought}
use criptotrade.Guardrails.{guardrail_system}
use criptotrade.Guardrails.Safe.{IsSafe}
use criptotrade.Orders.{Order, Draft, filled, new_order, notional, guardrail_view}
use criptotrade.Orders.Store.{World, Config, ok, submit}
use criptotrade.Orders.Gate.{submit_filled-IsSafe}
use criptotrade.Autonomy.Levels.{ConfigStore, threshold_of, threshold_in, level_info}

module _ {F : Type 0} ⦃fl : Float F⦄ (o : IsOrdered F) where
  nought_not_less : fl.lt nought nought ≡ false
  nought_not_less = elim (Bool-cases (fl.lt nought nought)) [
    | inl e ↦ e ∙ sym (o.lt-le _ _ e) ∙ o.lt-not-le _ _ e
    | inr e ↦ e
  ]

  above_zero : (n : ℕ) → fl.lt nought (threshold_in (level_info n)) ≡ true → 0 < n
  unfolding level_info
  above_zero zero h = absurd (false-ne-true (sym nought_not_less ∙ h))
  above_zero (suc n) h = omega arith

  -- The store of the API reads its threshold from the level. An order that a submission fills is then
  -- safe in the sense of the guardrails, not critical, and within the amount of the level; and the
  -- level is not zero, at which every order waits for a human.
  pub submit_filled-level :
      (store : ConfigStore) (max_size : F) (sink : Bool) (now id : String) (draft : Draft F)
      (w : World F) (o' : Order F)
      → let order = new_order draft id now in
        let config : Config F = record {
          threshold = threshold_of store;
          guardrails = some (guardrail_system max_size [] sink);
        } in
        (submit config now order w).0 ≡ ok o'
        → o'.status ≡ filled
        → IsSafe max_size (guardrail_view order)
          × (draft.critical ≡ false)
          × (fl.le (notional order) (threshold_of store) ≡ true)
          × (0 < store.level)
  submit_filled-level store max_size sink now id draft w o' h f =
      let (safe, positive, within, calm) =
        submit_filled-IsSafe (threshold_of store) max_size sink now id draft w o' h f in
      (safe, calm, within, above_zero store.level positive)
