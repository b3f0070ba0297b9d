-- ===== src/Squad/Breaker/Frame.antt =====
-- What the breaker leaves alone: the book, its table, and the ledger's account of closes.
use criptotrade.Base.{
  ℕ, ◌+◌, ◌≡◌, refl, ap, ◌∙◌, String, ◌==◌, Option, none, some, [], ◌∷◌, arith, if◌then◌else◌,
  Bool-cases, inl, inr, keep-append, length, length-append,
}
use criptotrade.Base.Dict.{Dict}
use criptotrade.Base.Float.{Float}
use criptotrade.Ledger.{Ledger, log_decision, get_events}
use criptotrade.Ledger.Payload.{Json, str}
use criptotrade.Squad.{Desk}
use criptotrade.Squad.Breaker.{
  record_trade_result, trip, trip_closed, count_result, is_daily_limit, is_streak, daily_reason,
  streak_reason, is_open, check_open, is_cool, reset,
}

module _ {F : Type 0} where
  -- How many closes the ledger has.
  abbrev pub closes : Ledger F → ℕ
  closes l = length (get_events "position_closed" l)

  pub closes-log_decision :
      (event : String) (payload : Dict (Json F)) (l : Ledger F)
      → closes (log_decision event payload l)
        ≡ closes l + (if event == "position_closed" then 1 else 0)
  closes-log_decision event payload l =
      ap length (keep-append _ l (record { event_type = event; payload = payload } ∷ []))
      ∙ (length-append (get_events "position_closed" l) _
          ∙ elim (Bool-cases (event == "position_closed")) [
            | inl e ↦ rw e refl
            | inr e ↦ rw e refl
          ])

  -- The book and its table are the same, and no close was added.
  pub record SameBook (d d' : Desk F) : Type 0 where
    pub same_positions : d'.open_positions ≡ d.open_positions
    pub same_rows : d'.position_rows ≡ d.position_rows
    pub same_closes : closes d'.ledger ≡ closes d.ledger

module _ {F : Type 0} ⦃fl : Float F⦄ where
  trip-SameBook :
      (now : F) (reason : String) (t : Option F) (d : Desk F) → SameBook d (trip now reason t d)
  unfolding trip trip_closed
  trip-SameBook now reason none d = record {
    same_positions = refl;
    same_rows = refl;
    same_closes =
        closes-log_decision "circuit_breaker_tripped" (("reason", str reason) ∷ []) d.ledger
        ∙ ground arith;
  }
  trip-SameBook now reason (some t) d = record {
    same_positions = refl;
    same_rows = refl;
    same_closes = refl;
  }

  pub record_trade_result-SameBook :
      (now x : F) (d : Desk F) → SameBook d (record_trade_result now x d)
  unfolding record_trade_result
  record_trade_result-SameBook now x d =
      let b = count_result x d.breaker in
      let d' : Desk F = record d { breaker = b } in
      let daily = trip-SameBook now (daily_reason b) b.tripped_at d' in
      let streak = trip-SameBook now (streak_reason b) b.tripped_at d' in
      elim (Bool-cases (is_daily_limit b)) [
        | inl e ↦ rw e (record {
          same_positions = daily.same_positions;
          same_rows = daily.same_rows;
          same_closes = daily.same_closes;
        })
        | inr e ↦ elim (Bool-cases (is_streak b)) [
          | inl s ↦
              rw (e, s)
                (record {
                  same_positions = streak.same_positions;
                  same_rows = streak.same_rows;
                  same_closes = streak.same_closes;
                })
          | inr s ↦
              rw (e, s) (record { same_positions = refl; same_rows = refl; same_closes = refl })
        ]
      ]

  check_open-SameBook : (now : F) (t : Option F) (d : Desk F) → SameBook d (check_open now t d).1
  unfolding check_open reset
  check_open-SameBook now none d = record {
    same_positions = refl;
    same_rows = refl;
    same_closes = refl;
  }
  check_open-SameBook now (some t) d = elim (Bool-cases (is_cool now t)) [
    | inl e ↦ rw e (record {
      same_positions = refl;
      same_rows = refl;
      same_closes =
          closes-log_decision "circuit_breaker_reset" (("reason", str "cooldown expired") ∷ [])
            d.ledger
          ∙ ground arith;
    })
    | inr e ↦ rw e (record { same_positions = refl; same_rows = refl; same_closes = refl })
  ]

  pub is_open-SameBook : (now : F) (d : Desk F) → SameBook d (is_open now d).1
  unfolding is_open
  is_open-SameBook now d = check_open-SameBook now d.breaker.tripped_at d
