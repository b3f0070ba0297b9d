-- ===== src/Orders/Bridge.antt =====
-- The bridge of src/hitl/orders.py between the loop and the human decision: `wait_for_decision` and
-- `make_approval_handler`. The other processes act while the loop sleeps; `rounds` is how often the
-- clock is still before the deadline.
use criptotrade.Base.{
  ℕ, zero, suc, String, Bool, true, false, ◌&&◌, ◌||◌, Option, none, some, if◌then◌else◌,
}
use criptotrade.Base.Text.{lower}
use criptotrade.Base.Float.{Float, nought}
use criptotrade.Orders.{
  Status, pending, approved, filled, rejected, cancelled, Draft, Order, new_order,
}
use criptotrade.Orders.Store.{World, Config, Result, ok, raised, get, submit, cancel}

-- What a poll says: go on, or the answer.
abbrev pub answer : Status → Option Bool
answer approved = some true
answer filled = some true
answer rejected = some false
answer cancelled = some false
answer pending = none

-- What a poll of a row says; a missing row is an answer.
abbrev pub poll : {F : Type 0} → Option (Order F) → Option Bool
poll none = some false
poll (some o) = answer o.status

-- The signal dict; a missing key is `none`.
pub record Signal (F : Type 0) : Type 0 where
  pub entry_price : Option F
  pub position_size_pct : Option F
  pub quantity : Option F
  pub symbol : Option String
  pub action : Option String
  pub strategy : Option String
  pub agent_id : Option String
  pub confidence : Option F
  pub reason : Option String
  pub critical : Option Bool
  pub stop_loss : Option F
  pub take_profit : Option F

abbrev pub or_else {ℓ} : {A : Type ℓ} → Option A → A → A
or_else none d = d
or_else (some a) d = a

module _ {F : Type 0} ⦃fl : Float F⦄ where
  -- A decision ends the wait.
  abbrev pub after_poll : Option Bool → World F → Bool × World F → Bool × World F
  after_poll none w later = later
  after_poll (some b) w later = (b, w)

  -- `wait_for_decision`, with the row and the environment's next moves.
  unfoldable pub wait_for_decision :
      String → String → (ℕ → World F → World F) → ℕ → World F → Bool × World F
  wait_for_decision now order_id env zero w = (false, (cancel now order_id "decision_timeout" w).1)
  wait_for_decision now order_id env (suc rounds) w =
      let later = wait_for_decision now order_id env rounds (env rounds w) in
      after_poll (poll (get order_id w)) w later

  abbrev pub signal_price : Signal F → F
  signal_price s = or_else s.entry_price nought

  abbrev pub signal_size : Signal F → F
  signal_size s = or_else s.position_size_pct nought

  -- The quantity given, or else the share of the capital at the price.
  unfoldable pub signal_quantity : F → Signal F → F
  signal_quantity capital s =
      let quantity = or_else s.quantity nought in
      if fl.le quantity nought && (fl.lt nought (signal_price s) && fl.lt nought (signal_size s))
      then fl.div (fl.div (fl.mul capital (signal_size s)) (fl.lit 100 0)) (signal_price s)
      else quantity

  unfoldable pub signal_draft : F → Signal F → Draft F
  unfolding signal_quantity
  signal_draft capital s = record {
    pair = or_else s.symbol "UNKNOWN";
    side = lower (or_else s.action "buy");
    quantity = signal_quantity capital s;
    price = signal_price s;
    strategy = or_else s.strategy "unknown";
    agent_id = or_else s.agent_id "strategy_agent";
    confidence = or_else s.confidence nought;
    reason = or_else s.reason "n/a";
    critical = or_else s.critical false;
    position_size_pct = signal_size s;
    stop_loss = s.stop_loss;
    take_profit = s.take_profit;
  }

  -- What the handler returns for the status after the submission, and what the wait returned.
  unfoldable pub settle :
      Status → String → World F → Bool × World F → Result (Option String) × World F
  settle filled id w waited = (ok (some id), w)
  settle rejected id w waited = (ok none, w)
  settle cancelled id w waited = (ok none, w)
  settle s id w (decided, w') = (ok (if decided then some id else none), w')

  unfoldable pub await_order :
      String
      → (ℕ → World F → World F)
      → ℕ
      → Result (Order F) × World F
      → Result (Option String) × World F
  unfolding settle
  await_order now env rounds (raised e, w) = (raised e, w)
  await_order now env rounds (ok o, w) =
      settle o.status o.id w (wait_for_decision now o.id env rounds w)

  -- `handler` of `make_approval_handler`; the id and the clock's readings come from outside.
  unfoldable pub approval_handler :
      Config F
      → F
      → String
      → String
      → (ℕ → World F → World F)
      → ℕ
      → Signal F
      → World F
      → Result (Option String) × World F
  approval_handler config capital id now env rounds s w =
      let quantity = signal_quantity capital s in
      let price = signal_price s in
      if fl.le quantity nought || fl.le price nought
      then (ok none, w)
      else await_order now env rounds
          (submit config now (new_order (signal_draft capital s) id now) w)
