-- ===== src/Agents/Behavior.antt =====
-- `BehavioralGuard` of src/agents/behavioral_guard.py.
use criptotrade.Base.{
  ℕ, zero, suc, ◌≤◌, leb, ◌≡◌, refl, inl, inr, String, Bool, true, false, ◌&&◌, Option, none, some,
  List, [], ◌∷◌, if◌then◌else◌, take, length, every, is_empty, arith, Bool-cases,
}
use Prim.Native.String.{◌++◌}
use criptotrade.Base.Text.{show_nat}
use criptotrade.Base.Float.{Float, nought, one}
use criptotrade.Guardrails.{or_nought}

-- A closed trade of the history, newest first; a missing key is none.
pub record ClosedTrade (F : Type 0) : Type 0 where
  pub pnl : Option F
  pub position_size_pct : Option F

pub record NewTrade (F : Type 0) : Type 0 where
  pub position_size_pct : Option F
  pub confidence : Option F

pub record BehavioralAlert (F : Type 0) : Type 0 where
  pub detected : Bool
  pub kind : Option String
  pub message : String
  pub action : Option String
  pub recommended_size_multiplier : F
  pub recommended_confidence_cap : Option F

module _ {F : Type 0} ⦃fl : Float F⦄ where
  abbrev pub all_clear : BehavioralAlert F
  all_clear = record {
    detected = false;
    kind = none;
    message = "";
    action = none;
    recommended_size_multiplier = one;
    recommended_confidence_cap = none;
  }

  abbrev pub is_win : ClosedTrade F → Bool
  is_win t = fl.lt nought (or_nought t.pnl)

  abbrev pub is_loss : ClosedTrade F → Bool
  is_loss t = fl.lt (or_nought t.pnl) nought

  -- `_count_streak`
  unfoldable pub count_streak : (ClosedTrade F → Bool) → List (ClosedTrade F) → ℕ
  count_streak hit [] = 0
  count_streak hit (t ∷ ts) = if hit t then suc (count_streak hit ts) else 0

  -- The sizes that are there and not zero.
  abbrev pub sizes_of : List (ClosedTrade F) → List F
  sizes_of [] = []
  sizes_of (t ∷ ts) =
      let rest = sizes_of ts in
      elim t.position_size_pct [ none ↦ rest | some x ↦ if fl.is_zero x then rest else x ∷ rest ]

  abbrev sum_from : F → List F → F
  sum_from total [] = total
  sum_from total (x ∷ xs) = sum_from (fl.add total x) xs

  -- The average of the ten newest sizes.
  unfoldable pub avg_recent_size : List (ClosedTrade F) → F
  avg_recent_size history =
      let sizes = sizes_of (take 10 history) in
      if is_empty sizes then nought else fl.div (sum_from nought sizes) (fl.lit (length sizes) 0)

  -- A streak that meets a size which is larger than the average by the factor.
  abbrev pub is_trap : ℕ → F → ℕ → F → F → Bool
  is_trap limit factor streak avg size =
      leb limit streak && (fl.lt nought avg && fl.le (fl.mul avg factor) size)

  abbrev streak_alert : String → String → String → String → ℕ → F → F → BehavioralAlert F
  streak_alert kind name what action streak avg size = record {
    detected = true;
    kind = some kind;
    message =
        name
        ++ (" detected: "
            ++ (show_nat streak
                ++ (" consecutive "
                    ++ (what
                        ++ (", proposed size "
                            ++ (fl.show_to 1 size
                                ++ ("% vs avg " ++ (fl.show_to 1 avg ++ "%"))))))));
    action = some action;
    recommended_size_multiplier = fl.lit 5 1;
    recommended_confidence_cap = none;
  }

  abbrev overconfidence : F → F → BehavioralAlert F
  overconfidence confidence win_rate = record {
    detected = true;
    kind = some "overconfidence";
    message =
        "Overconfidence detected: signal confidence "
        ++ (fl.show_to 2 confidence ++ (" >> historical win rate " ++ fl.show_to 2 win_rate));
    action = some "cap_confidence";
    recommended_size_multiplier = one;
    recommended_confidence_cap = some win_rate;
  }

  unfoldable pub check_confidence : Option F → Option F → BehavioralAlert F
  check_confidence (some win_rate) (some confidence) =
      if fl.lt (fl.add win_rate (fl.lit 15 2)) confidence
      then overconfidence confidence win_rate
      else all_clear
  check_confidence none confidence = all_clear
  check_confidence (some win_rate) none = all_clear

  -- `check`
  unfoldable pub check : NewTrade F → List (ClosedTrade F) → Option F → BehavioralAlert F
  check trade history win_rate =
      let size = or_nought trade.position_size_pct in
      let avg = avg_recent_size history in
      let losses = count_streak is_loss history in
      let wins = count_streak is_win history in
      if is_empty history
      then all_clear
      else if is_trap 2 (fl.lit 15 1) losses avg size
      then streak_alert "revenge_trading" "Revenge trading" "losses" "reduce_size" losses avg size
      else if is_trap 3 (fl.lit 12 1) wins avg size
      then streak_alert "euphoria" "Euphoria" "wins" "force_kelly_half" wins avg size
      else check_confidence win_rate trade.confidence

  -- A streak of `n` is the `n` newest trades.
  pub streak_newest :
      (hit : ClosedTrade F → Bool) (history : List (ClosedTrade F)) (n : ℕ)
      → n ≤ count_streak hit history
      → (every hit (take n history) ≡ true) × (n ≤ length history)
  unfolding count_streak
  streak_newest hit history zero h = (refl, omega arith)
  streak_newest hit [] (suc n) h = absurd (omega arith)
  streak_newest hit (t ∷ ts) (suc n) h = elim (Bool-cases (hit t)) [
    | inl e ↦
        let (newest, long) = streak_newest hit ts n (ground arith) in
        rw e (newest, omega (arith, long))
    | inr e ↦ absurd (ground arith)
  ]
