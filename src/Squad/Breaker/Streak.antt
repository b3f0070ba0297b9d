-- ===== src/Squad/Breaker/Streak.antt =====
-- When the breaker trips, and how long it stays tripped.
use criptotrade.Base.{
  ℕ, ◌≡◌, refl, String, Bool, true, false, not, ◌&&◌, ◌||◌, Option, none, some, List, [], ◌∷◌,
  arith, every, if◌then◌else◌, Bool-cases, inl, inr, suc, leb, tests, ap, ◌∙◌,
}
use criptotrade.Base.Float.{Float, nought, neg}
use criptotrade.Squad.{BreakerState, Desk}
use criptotrade.Squad.Breaker.{
  count_result, is_daily_limit, is_streak, is_cool, is_open, check_open, reset, reset_daily,
  reset_if_cool, trip, BreakerOp, trade_result, query, daily, reading, breaker_step, breaker_run,
  trip_closed, record_trade_result, daily_loss_limit_pct,
}

and_not : (a b : Bool) → (not a && b) ≡ true → (a ≡ false) × (b ≡ true)
and_not a b h = (ground arith, ground arith)

-- The time of the trip that is in force.
abbrev pub first_trip : {F : Type 0} → Option F → F → F
first_trip none now = now
first_trip (some t) now = t

three_or_more : (n : ℕ) → leb 3 (suc (suc (suc n))) ≡ true
three_or_more n = grind tests

keep_first :
    {F : Type 0} (now t : F) (b : Bool) (s : Option F)
    → s ≡ some t
    → (if b then some (first_trip s now) else s) ≡ some t
keep_first now t b none h = ground arith
keep_first now t true (some u) h = h
keep_first now t false (some u) h = h

or_right : (a b : Bool) → b ≡ true → (a || b) ≡ true
or_right a b h = ground arith

module _ {F : Type 0} ⦃fl : Float F⦄ where
  abbrev pub must_trip : BreakerState F → Bool
  must_trip b = is_daily_limit b || is_streak b

  abbrev pub tripped_after : F → BreakerState F → Option F
  tripped_after now b = if must_trip b then some (first_trip b.tripped_at now) else b.tripped_at

  trip-breaker :
      (now : F) (reason : String) (t : Option F) (d : Desk F)
      → d.breaker.tripped_at ≡ t
      → (trip now reason t d).breaker ≡ record d.breaker { tripped_at = some (first_trip t now) }
  unfolding trip trip_closed
  trip-breaker now reason none d h = refl
  trip-breaker now reason (some t) d h = ap (λ s. record d.breaker { tripped_at = s }) h

  -- A result moves both counters, and the breaker is tripped exactly if a limit is then reached or it
  -- was tripped before; a trip in force keeps its time. The stored row is the new state.
  pub record_trade_result_state :
      (now x : F) (d : Desk F)
      → let b = count_result x d.breaker in
        let d' = record_trade_result now x d in
        (d'.breaker ≡ record b { tripped_at = tripped_after now b })
        × (d'.breaker_row ≡ some d'.breaker)
  unfolding record_trade_result
  record_trade_result_state now x d =
      let b = count_result x d.breaker in
      elim (Bool-cases (is_daily_limit b)) [
        | inl e ↦ rw e (trip-breaker now _ b.tripped_at (record d { breaker = b }) refl, refl)
        | inr e ↦ elim (Bool-cases (is_streak b)) [
          | inl s ↦
              rw (e, s) (trip-breaker now _ b.tripped_at (record d { breaker = b }) refl, refl)
          | inr s ↦ rw (e, s) (refl, refl)
        ]
      ]

  loss_counts :
      (now x : F) (d : Desk F)
      → fl.lt x nought ≡ true
      → (record_trade_result now x d).breaker.consecutive_losses ≡ suc d.breaker.consecutive_losses
  loss_counts now x d h =
      ap (λ b. b.consecutive_losses) (record_trade_result_state now x d).0 ∙ rw h refl

  third_loss :
      (now x : F) (d : Desk F) (n : ℕ)
      → fl.lt x nought ≡ true
      → d.breaker.consecutive_losses ≡ suc (suc n)
      → must_trip (count_result x d.breaker) ≡ true
  third_loss now x d n h e =
      or_right (is_daily_limit (count_result x d.breaker)) (is_streak (count_result x d.breaker))
        (rw (h, e) (three_or_more n))

  answers :
      (now t : F) (d : Desk F)
      → d.breaker.tripped_at ≡ some t
      → (is_open now d).0 ≡ not (is_cool now t)
  unfolding is_open
  answers now t d h =
      rw (h, check_open)
        (elim (Bool-cases (is_cool now t)) [ inl e ↦ rw e refl | inr e ↦ rw e refl ])

  -- Three results below zero in a row trip the breaker, whatever came before; it then answers that it
  -- is open at a reading of the clock exactly if the cooldown has not passed by then.
  pub losing_streak_trips :
      (t1 t2 t3 a b c now : F) (d : Desk F)
      → fl.lt a nought ≡ true
      → fl.lt b nought ≡ true
      → fl.lt c nought ≡ true
      → let d' = record_trade_result t3 c (record_trade_result t2 b (record_trade_result t1 a d)) in
        (t : F) × (d'.breaker.tripped_at ≡ some t) × ((is_open now d').0 ≡ not (is_cool now t))
  losing_streak_trips t1 t2 t3 a b c now d ha hb hc =
      let d1 = record_trade_result t1 a d in
      let d2 = record_trade_result t2 b d1 in
      let d3 = record_trade_result t3 c d2 in
      let two = loss_counts t2 b d1 hb ∙ ap suc (loss_counts t1 a d ha) in
      let tripped : d3.breaker.tripped_at ≡ some (first_trip d2.breaker.tripped_at t3) =
        ap (λ b. b.tripped_at) (record_trade_result_state t3 c d2).0
        ∙ rw (third_loss t3 c d2 d.breaker.consecutive_losses hc two) refl in
      (_, tripped, answers now _ d3 tripped)

  query_open :
      (now t : F) (d : Desk F)
      → d.breaker.tripped_at ≡ some t
      → is_cool now t ≡ false
      → (is_open now d).1.breaker.tripped_at ≡ some t
  unfolding is_open
  query_open now t d h c = rw (h, check_open, c) refl

  daily_open :
      (now t : F) (d : Desk F)
      → d.breaker.tripped_at ≡ some t
      → is_cool now t ≡ false
      → (reset_daily now d).breaker.tripped_at ≡ some t
  unfolding reset_daily
  daily_open now t d h c = rw (h, reset_if_cool, c) refl

  -- One call, made before the cooldown of the trip in force has passed.
  step_open :
      (op : BreakerOp F) (t : F) (d : Desk F)
      → d.breaker.tripped_at ≡ some t
      → is_cool (reading op) t ≡ false
      → (breaker_step op d).breaker.tripped_at ≡ some t
  unfolding breaker_step
  step_open (trade_result now x) t d h c =
      ap (λ b. b.tripped_at) (record_trade_result_state now x d).0
      ∙ keep_first now t (must_trip (count_result x d.breaker)) d.breaker.tripped_at h
  step_open (query now) t d h c = query_open now t d h c
  step_open (daily now) t d h c = daily_open now t d h c

  -- While the cooldown of a trip has not passed, no sequence of results, queries and daily resets
  -- closes the breaker or puts the trip off: the time of the trip stays and every query answers that
  -- it is open.
  pub open_until_cool :
      (ops : List (BreakerOp F)) (t now : F) (d : Desk F)
      → d.breaker.tripped_at ≡ some t
      → every (λ op. not (is_cool (reading op) t)) ops ≡ true
      → is_cool now t ≡ false
      → let d' = breaker_run ops d in (d'.breaker.tripped_at ≡ some t) × ((is_open now d').0 ≡ true)
  unfolding breaker_run
  open_until_cool [] t now d h e c = (h, answers now t d h ∙ rw c refl)
  open_until_cool (op ∷ ops) t now d h e c =
      let (first, rest) = and_not _ _ e in
      open_until_cool ops t now (breaker_step op d) (step_open op t d h first) rest c

  -- The cooldown closes the breaker and clears the streak, but not the daily loss: if that and the
  -- next result still come to the daily limit, the next result trips the breaker again, be it a gain.
  pub cooldown_keeps_daily_loss :
      (t now later x : F) (d : Desk F)
      → d.breaker.tripped_at ≡ some t
      → is_cool now t ≡ true
      → fl.le (fl.add d.breaker.daily_loss_pct x) (neg daily_loss_limit_pct) ≡ true
      → let (answer, d') = is_open now d in
        (answer ≡ false)
        × (d'.breaker.tripped_at ≡ none)
        × ((record_trade_result later x d').breaker.tripped_at ≡ some later)
  unfolding is_open reset
  cooldown_keeps_daily_loss t now later x d h c low =
      rw (h, check_open, c)
        (refl, refl, ap (λ b. b.tripped_at) (record_trade_result_state later x _).0 ∙ rw low refl)
