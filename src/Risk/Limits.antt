-- ===== src/Risk/Limits.antt =====
-- When trading is blocked and how sizes are scaled.
use criptotrade.Base.{◌≡◌, refl, Bool, not, ◌&&◌, ◌||◌, Option, if◌then◌else◌, Bool-cases, inl, inr}
use criptotrade.Base.Float.{Float, nought, one}
use criptotrade.Risk.{
  daily_limit_pct, weekly_limit_pct, monthly_limit_pct, daily_warn_pct, is_reached, check,
}

module _ {F : Type 0} ⦃fl : Float F⦄ where
  -- The month's limit, or the day's limit in a week that is not reduced.
  abbrev pub is_blocked : Option F → Option F → Option F → Bool
  is_blocked daily weekly monthly =
      is_reached monthly monthly_limit_pct
      || (not (is_reached weekly weekly_limit_pct) && is_reached daily daily_limit_pct)

  -- Whatever is known of the three results: trading is allowed exactly if it is not blocked, and the
  -- sizes are scaled by nought if it is blocked, else by a half in a reduced week, else by one.
  pub check_outcome :
      (daily weekly monthly : Option F)
      → let r = check daily weekly monthly in
        (r.can_trade ≡ not (is_blocked daily weekly monthly))
        × (r.size_multiplier ≡ (
            if is_blocked daily weekly monthly
            then nought
            else if is_reached weekly weekly_limit_pct
            then fl.lit 5 1
            else one))
  unfolding check
  check_outcome daily weekly monthly = elim (Bool-cases (is_reached monthly monthly_limit_pct)) [
    | inl m ↦ rw m (refl, refl)
    | inr m ↦ elim (Bool-cases (is_reached weekly weekly_limit_pct)) [
      | inl w ↦ rw (m, w) (refl, refl)
      | inr w ↦ elim (Bool-cases (is_reached daily daily_limit_pct)) [
        | inl d ↦ rw (m, w, d) (refl, refl)
        | inr d ↦ elim (Bool-cases (is_reached daily daily_warn_pct)) [
          | inl x ↦ rw (m, w, d, x) (refl, refl)
          | inr x ↦ rw (m, w, d, x) (refl, refl)
        ]
      ]
    ]
  ]
