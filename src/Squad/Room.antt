-- ===== src/Squad/Room.antt =====
-- The later steps of a cycle keep the book sound and within its slots.
use criptotrade.Base.{
  ℕ, suc, ◌+◌, ◌≤◌, ◌≡◌, refl, String, ◌==◌, eq_iff, Bool, true, false, not, ◌&&◌, ◌||◌, leb,
  Option, none, some, [], arith, if◌then◌else◌, Bool-cases, inl, inr,
}
use criptotrade.Base.Dict.{Dict}
use criptotrade.Base.Float.{Float, nought}
use criptotrade.Guardrails.{or_nought}
use criptotrade.Ledger.{Ledger}
use criptotrade.Ledger.Payload.{Json}
use criptotrade.Orders.Bridge.{Signal, or_else}
use criptotrade.Squad.{Desk}
use criptotrade.Squad.Book.{eps}
use criptotrade.Squad.Book.Mirror.{IsSound, IsSound-same}
use criptotrade.Squad.Book.Sound.{match_or_open-IsSound}
use criptotrade.Squad.Slots.{slots, match_or_open-slots, no_shorts}
use criptotrade.Squad.Cycle.{Answer, Execution, Env, Squad, record_skip}
use criptotrade.Squad.Pipeline.{
  position_quantity, action_of, is_closing, fill_price, book_fill, call_back, executed, trade,
  answered, request_human_approval, ask_human,
}
use criptotrade.Squad.Analyze.{find_slot}

not_buy_of : (a : String) → (a == "buy") ≡ true → (a == "sell") ≡ false
not_buy_of a h = rw ((eq_iff a "buy").0 h) refl

full_test : (n m : ℕ) (c : Bool) → (leb m n && not c) ≡ false → c ≡ false → suc n ≤ m
full_test n m c h e = ground (arith, h, e)

module _ {F : Type 0} ⦃fl : Float F⦄ where
  not_closing :
      (symbol : String) (signal : Signal F) (d : Desk F)
      → fl.lt eps nought ≡ false
      → IsSound d
      → (action_of signal == "buy") ≡ true
      → is_closing symbol signal d ≡ false
  not_closing symbol signal d small h b =
      rw (not_buy_of (action_of signal) b, is_closing)
        (rw (no_shorts symbol d.open_positions nought h.long) small)

module _ {S : Type 0} {F : Type 0} ⦃fl : Float F⦄ where
  pub record IsFit (env : Env S F) (d : Desk F) : Type 0 where
    pub sound : IsSound d
    pub within : slots d ≤ env.max_concurrent

  pub IsFit-same :
      (env : Env S F) (d d' : Desk F)
      → d'.open_positions ≡ d.open_positions
      → d'.position_rows ≡ d.position_rows
      → IsFit env d
      → IsFit env d'
  IsFit-same env d d' p r h = record {
    sound = IsSound-same d d' p r h.sound;
    within = rw p h.within;
  }

  pub skip-IsFit :
      (env : Env S F) (now : F) (symbol reason : String) (extra : Dict (Json F)) (heartbeat : Bool)
      (s : Squad S F)
      → IsFit env s.desk
      → IsFit env (record_skip env now symbol reason extra heartbeat s).desk
  unfolding record_skip
  skip-IsFit env now symbol reason extra heartbeat s h = IsFit-same env s.desk _ refl refl h

  -- Room for one lot more, if the signal buys.
  pub record HasRoom (env : Env S F) (signal : Signal F) (d : Desk F) : Type 0 where
    pub sound : IsSound d
    pub room : slots d + (if action_of signal == "buy" then 1 else 0) ≤ env.max_concurrent

  book_fill-IsFit :
      (env : Env S F) (now : F) (symbol : String) (signal : Signal F) (e : Execution F) (d : Desk F)
      → HasRoom env signal d
      → IsFit env (book_fill env now symbol signal e d)
  unfolding book_fill
  book_fill-IsFit env now symbol signal e d h =
      elim (Bool-cases (
        fl.le (position_quantity env.initial_capital signal) nought
        || fl.le (fill_price e.executed_price (or_nought signal.entry_price)) nought)) [
          | inl t ↦ rw t (record { sound = h.sound; within = omega (arith, h.room) })
          | inr t ↦ rw t (record {
            sound =
                match_or_open-IsSound now _ _ _ _ _ _ _ _ _ _ (IsSound-same d _ refl refl h.sound);
            within = omega (
              arith,
              h.room,
              match_or_open-slots now (env.iso now) (or_else signal.symbol symbol)
                  (action_of signal) _ _ _ _ _ _ _,
            );
          })
        ]

  call_back-IsFit :
      (env : Env S F) (f : Option (String → S × Ledger F → S × Ledger F)) (ref : Option String)
      (s : Squad S F)
      → IsFit env s.desk
      → IsFit env (call_back f ref s).desk
  unfolding call_back
  call_back-IsFit env none ref s h = h
  call_back-IsFit env (some f) none s h = h
  call_back-IsFit env (some f) (some ref) s h = IsFit-same env s.desk _ refl refl h

  at_once : (env : Env S F) (signal : Signal F) (d : Desk F) → HasRoom env signal d → IsFit env d
  at_once env signal d h = record { sound = h.sound; within = omega (arith, h.room) }

  HasRoom-ledger :
      (env : Env S F) (signal : Signal F) (d : Desk F) (l : Ledger F)
      → HasRoom env signal d
      → HasRoom env signal (record d { ledger = l })
  HasRoom-ledger env signal d l h = record {
    sound = IsSound-same d _ refl refl h.sound;
    room = h.room;
  }

  executed-IsFit :
      (env : Env S F) (now : F) (symbol : String) (signal : Signal F) (e : Execution F) (ok : Bool)
      (s : Squad S F)
      → HasRoom env signal s.desk
      → IsFit env (executed env now symbol signal e ok s).desk
  unfolding executed
  executed-IsFit env now symbol signal e true s h =
      call_back-IsFit env env.fill_callback s.last_order_ref _
        (book_fill-IsFit env now symbol signal e s.desk h)
  executed-IsFit env now symbol signal e false s h = at_once env signal s.desk h

  trade-IsFit :
      (env : Env S F) (now : F) (symbol : String) (signal : Signal F) (confidence : F)
      (s : Squad S F)
      → HasRoom env signal s.desk
      → IsFit env (trade env now symbol signal confidence s).1.desk
  unfolding trade
  trade-IsFit env now symbol signal confidence s h =
      executed-IsFit env now symbol signal _ _ _ (HasRoom-ledger env signal s.desk _ h)

  request-HasRoom :
      (env : Env S F) (handler : Option (Signal F → S × Ledger F → Answer × (S × Ledger F)))
      (signal : Signal F) (s : Squad S F)
      → HasRoom env signal s.desk
      → HasRoom env signal (request_human_approval handler signal s).1.desk
  unfolding request_human_approval
  request-HasRoom env none signal s h = h
  request-HasRoom env (some handler) signal s h = HasRoom-ledger env signal s.desk _ h

  answered-IsFit :
      (env : Env S F) (now : F) (symbol : String) (signal : Signal F) (confidence : F)
      (asked : Bool × Squad S F)
      → HasRoom env signal asked.1.desk
      → IsFit env (answered env now symbol signal confidence asked).1.desk
  unfolding answered
  answered-IsFit env now symbol signal confidence (true, s) h =
      trade-IsFit env now symbol signal confidence _ (HasRoom-ledger env signal s.desk _ h)
  answered-IsFit env now symbol signal confidence (false, s) h =
      at_once env signal _ (HasRoom-ledger env signal s.desk _ h)

  ask_human-IsFit :
      (env : Env S F) (now : F) (symbol : String) (signal : Signal F) (confidence : F)
      (s : Squad S F)
      → HasRoom env signal s.desk
      → IsFit env (ask_human env now symbol signal confidence s).1.desk
  unfolding ask_human
  ask_human-IsFit env now symbol signal confidence s h =
      answered-IsFit env now symbol signal confidence
        (request_human_approval env.approval_handler signal s)
        (request-HasRoom env env.approval_handler signal s h)

  has_room :
      (env : Env S F) (symbol : String) (signal : Signal F) (d : Desk F)
      → fl.lt eps nought ≡ false
      → IsFit env d
      → (leb env.max_concurrent (slots d) && not (is_closing symbol signal d)) ≡ false
      → HasRoom env signal d
  has_room env symbol signal d small h t = elim (Bool-cases (action_of signal == "buy")) [
    | inl b ↦ record {
      sound = h.sound;
      room = rw b (
          omega (
            arith,
            full_test (slots d) env.max_concurrent (is_closing symbol signal d) t
                (not_closing symbol signal d small h.sound b),
          ));
    }
    | inr b ↦ record { sound = h.sound; room = rw b (omega (arith, h.within)) }
  ]

  pub find_slot-IsFit :
      (env : Env S F) (now : F) (symbol : String) (signal : Signal F) (confidence : F)
      (s : Squad S F)
      → fl.lt eps nought ≡ false
      → IsFit env s.desk
      → IsFit env (find_slot env now symbol signal confidence s).1.desk
  unfolding find_slot
  find_slot-IsFit env now symbol signal confidence s small h =
      elim (Bool-cases (action_of signal == "sell" && not (is_closing symbol signal s.desk))) [
        | inl t ↦ rw t (skip-IsFit env now symbol "no_inventory" [] false s h)
        | inr t ↦
            rw t
              (elim (Bool-cases
                (leb env.max_concurrent (slots s.desk) && not (is_closing symbol signal s.desk))) [
                  | inl u ↦ rw u (skip-IsFit env now symbol "no_slot" _ true s h)
                  | inr u ↦ rw u (
                      ask_human-IsFit env now symbol _ confidence s (
                        has_room env symbol (record signal { confidence = some confidence }) s.desk
                          small h u))
                ])
      ]
