-- ===== src/Risk/Sizing/Bounds.antt =====
-- The limits of a size.
use criptotrade.Base.{
  ℕ, ◌≤◌, ◌≡◌, sym, ◌∙◌, ap, ◌||◌, true, Option, none, some, arith, Bool-cases, inl, inr,
}
use criptotrade.Base.Int.{ℤ, pos, negsuc, ◌-ℤ◌}
use criptotrade.Base.Float.{Float, IsOrdered, fixed, nought, min, max}
use criptotrade.Risk.Sizing.{
  KellyCriterion, PositionSizer, capital_of, stop_distance_pct, min_position_pct, max_position_pct,
  clamped, fraction_of, full_kelly, fractional_kelly, compute,
}

-- What Python documents of `round(x, 2)` and of literals: rounding keeps the order, a number with
-- one decimal is its own rounding, and literals are in the order of their digits.
pub record IsRounded (F : Type 0) ⦃fl : Float F⦄ : Type 0 where
  pub round_mono : (a b : F) → fl.le a b ≡ true → fl.le (fl.round a 2) (fl.round b 2) ≡ true
  pub round_lit : (n : ℕ) → fl.round (fl.lit n 1) 2 ≡ fl.lit n 1
  pub lit_mono : (m n : ℕ) → m ≤ n → fl.le (fl.lit m 1) (fl.lit n 1) ≡ true

fixed_mono : (a b : ℤ) → fixed.le a b ≡ true → fixed.le (fixed.round a 2) (fixed.round b 2) ≡ true
unfolding ◌-ℤ◌
fixed_mono (pos a) (pos b) h = ground arith
fixed_mono (negsuc a) (pos b) h = ground arith
fixed_mono (pos a) (negsuc b) h = ground arith
fixed_mono (negsuc a) (negsuc b) h = ground arith

pub fixed-IsRounded : IsRounded ℤ
fixed-IsRounded = record {
  round_mono = fixed_mono;
  round_lit = λ n. ground arith;
  lit_mono = λ m n h. ground arith;
}

module _ {F : Type 0} ⦃fl : Float F⦄ where
  abbrev pub IsWithin : F → Type 0
  IsWithin x = (fl.le min_position_pct x ≡ true) × (fl.le x max_position_pct ≡ true)

module _ {F : Type 0} ⦃fl : Float F⦄ (o : IsOrdered F) (r : IsRounded F) where
  least : IsWithin {F = F} min_position_pct
  least = (r.lit_mono 5 5 (omega arith), r.lit_mono 5 50 (omega arith))

  largest : IsWithin {F = F} max_position_pct
  largest = (r.lit_mono 5 50 (omega arith), r.lit_mono 50 50 (omega arith))

  raised : (x : F) → fl.le x max_position_pct ≡ true → IsWithin (max min_position_pct x)
  raised x h = elim (Bool-cases (fl.lt min_position_pct x)) [
    | inl e ↦ rw e (o.lt-le _ _ e, h)
    | inr e ↦ rw e least
  ]

  lowered : (x : F) → fl.le (min max_position_pct x) max_position_pct ≡ true
  lowered x = elim (Bool-cases (fl.lt x max_position_pct)) [
    | inl e ↦ rw e (o.lt-le _ _ e)
    | inr e ↦ rw e largest.1
  ]

  rounded : (x : F) → IsWithin x → IsWithin (fl.round x 2)
  rounded x h = (
    sym (ap (λ y. fl.le y (fl.round x 2)) (r.round_lit 5)) ∙ r.round_mono _ _ h.0,
    sym (ap (λ y. fl.le (fl.round x 2) y) (r.round_lit 50)) ∙ r.round_mono _ _ h.1,
  )

  clamped-IsWithin : (x : F) → IsWithin (clamped x)
  unfolding clamped
  clamped-IsWithin x = rounded _ (raised _ (lowered x))

  fraction-IsWithin : (fraction : F) (f_star : Option F) → IsWithin (fraction_of fraction f_star)
  fraction-IsWithin fraction none = least
  fraction-IsWithin fraction (some f_star) = elim (Bool-cases (fl.le f_star nought)) [
    | inl e ↦ rw e least
    | inr e ↦ rw e (clamped-IsWithin _)
  ]

  -- Whatever the prices, the capital, the record of trades and the power are, NaN and infinities
  -- included, both the Kelly size of any fraction and the size by the stop's distance lie between
  -- half a per cent and five per cent, as far as comparison and rounding are as documented.
  pub compute-IsWithin :
      (pow : F → F → Option F) (sizer : PositionSizer F) (entry stop : F)
      (capital_override : Option F) (fraction : F) (k : KellyCriterion F)
      → IsWithin (fractional_kelly fraction k)
        × IsWithin (compute pow sizer entry stop capital_override).size_pct
  unfolding compute fractional_kelly
  compute-IsWithin pow sizer entry stop capital_override fraction k = (
    fraction-IsWithin fraction (full_kelly k),
    elim (Bool-cases (
        fl.le entry nought
        || (fl.le stop nought || fl.le (capital_of capital_override sizer.capital) nought))) [
          | inl bad ↦ rw bad least
          | inr good ↦ elim (Bool-cases (fl.le (stop_distance_pct entry stop) nought)) [
            | inl at_stop ↦ rw good (rw at_stop least)
            | inr apart ↦ rw good (rw apart (clamped-IsWithin _))
          ]
        ],
  )
