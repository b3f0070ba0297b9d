-- ===== src/Squad/Breaker/Restart.antt =====
-- A restart of the loop does not forget the breaker.
use criptotrade.Base.{◌≡◌, refl, Option, none, some, List, [], ◌∷◌, Bool-cases, inl, inr}
use criptotrade.Base.Float.{Float}
use criptotrade.Squad.{Desk}
use criptotrade.Squad.Breaker.{
  fresh_breaker, reload_breaker, restore, is_cool, is_open, check_open, reset, reset_daily,
  BreakerOp, trade_result, query, daily, breaker_step, breaker_run,
}
use criptotrade.Squad.Breaker.Streak.{record_trade_result_state}

module _ {F : Type 0} ⦃fl : Float F⦄ where
  -- A new process: the memory is fresh and the table is read.
  abbrev pub restart_breaker : Desk F → Desk F
  restart_breaker d = reload_breaker (record d { breaker = fresh_breaker })

  abbrev pub IsKept : Desk F → Type 0
  IsKept d = (restart_breaker d).breaker ≡ d.breaker

  saved : (d : Desk F) → d.breaker_row ≡ some d.breaker → IsKept d
  unfolding reload_breaker
  saved d h = rw (h, restore) refl

  check_open-IsKept :
      (now : F) (t : Option F) (d : Desk F) → IsKept d → IsKept (check_open now t d).1
  unfolding check_open reset
  check_open-IsKept now none d h = h
  check_open-IsKept now (some t) d h = elim (Bool-cases (is_cool now t)) [
    | inl e ↦ rw e (saved (reset "cooldown expired" d) refl)
    | inr e ↦ rw e h
  ]

  breaker_step-IsKept : (op : BreakerOp F) (d : Desk F) → IsKept d → IsKept (breaker_step op d)
  unfolding breaker_step is_open reset_daily
  breaker_step-IsKept (trade_result now x) d h = saved _ (record_trade_result_state now x d).1
  breaker_step-IsKept (query now) d h = check_open-IsKept now d.breaker.tripped_at d h
  breaker_step-IsKept (daily now) d h = saved (reset_daily now d) refl

  -- After any sequence of results, queries and daily resets, a process that starts anew and reloads
  -- has the same counters and the same trip, if that held before the sequence, as it does with fresh
  -- counters and an empty table.
  pub breaker_run_kept :
      (ops : List (BreakerOp F)) (d : Desk F)
      → (restart_breaker d).breaker ≡ d.breaker
      → (restart_breaker (breaker_run ops d)).breaker ≡ (breaker_run ops d).breaker
  unfolding breaker_run
  breaker_run_kept [] d h = h
  breaker_run_kept (op ∷ ops) d h =
      breaker_run_kept ops (breaker_step op d) (breaker_step-IsKept op d h)
