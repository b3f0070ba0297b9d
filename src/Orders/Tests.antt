-- ===== src/Orders/Tests.antt =====
-- Runs of the order store, and its theorems at concrete tables.
use criptotrade.Base.{
  ℕ, zero, suc, ◌≡◌, ◌≢◌, ◌⊎◌, refl, String, true, false, Option, none, some, List, [], ◌∷◌, ◌*◌,
}
use criptotrade.Base.Int.{ℤ, pos, ◌-ℤ◌, div_scaled, mul_scaled}
use criptotrade.Base.Float.{fixed, nought}
use criptotrade.Base.Dict.{lookup}
use criptotrade.Base.Text.{lower, upper}
use criptotrade.Ledger.{log_process_event, log_fill, log_hitl_approval}
use criptotrade.Guardrails.{
  guardrail_system, validate_order, check_position_size, check_stop_loss, check_risk_reward,
  check_market_conditions,
}
use criptotrade.Guardrails.Safe.{IsSafe}
use criptotrade.Orders.{Status, filled, Draft, Order, new_order, notional, guardrail_view, to_dict}
use criptotrade.Orders.Table.{find, update, fill, fill_count, insert_row, is_accepted}
use criptotrade.Orders.Store.{
  World, Config, Result, ok, raised, integrity_error, get, submit, resolve, mark_filled, cancel,
}
use criptotrade.Orders.Rows.{Keeps}
use criptotrade.Orders.Lifecycle.{
  Op, submit_order, resolve_order, mark_order, cancel_order, step, run, step-Keeps,
}
use criptotrade.Orders.Fills.{IsBooked, fills}
use criptotrade.Orders.Booked.{run-IsBooked}
use criptotrade.Orders.Gate.{IsDecided, submit_outcome, submit_filled-IsSafe}
use criptotrade.Orders.Bridge.{
  Signal, poll, wait_for_decision, signal_quantity, signal_price, signal_draft, await_order,
  approval_handler,
}
use criptotrade.Orders.Waiting.{wait_fail_closed, approval_handler_id}
use criptotrade.Orders.Late.{world_after, IsAwaited, late_decision_lost}

abbrev pub empty : World ℤ
empty = record { orders = []; ledger = []; alerts = [] }

abbrev config : Config ℤ
config = record { threshold = pos 1_000_000_000; guardrails = none }

abbrev pub guarded : Config ℤ
guarded = record {
  threshold = pos 1_000_000_000;
  guardrails = some (guardrail_system (pos 5_000_000) [] false);
}

-- A quantity of 2 at the price.
abbrev pub buy : ℕ → Draft ℤ
buy price = record {
  pair = "BTC/USDT";
  side = "buy";
  quantity = pos 2_000_000;
  price = pos (price * 1_000_000);
  strategy = "grid";
  agent_id = "strategy_agent";
  confidence = pos 800_000;
  reason = "n/a";
  critical = false;
  position_size_pct = pos 2_000_000;
  stop_loss = some (pos 95_000_000);
  take_profit = none;
}

abbrev manual : List (Op ℤ)
manual =
    submit_order config "t0" (buy 1000) "ord_1"
    ∷ submit_order config "t1" (buy 100) "ord_2"
    ∷ resolve_order "t2" "ord_1" true "alice" none
    ∷ mark_order "t3" "ord_1" "loop"
    ∷ mark_order "t4" "ord_1" "loop"
    ∷ cancel_order "t5" "ord_1" "timeout"
    ∷ []

abbrev status_of : String → World ℤ → Option Status
status_of id w = elim (get id w) [ none ↦ none | some o ↦ some o.status ]

-- The second `mark_filled` and the late cancellation do nothing; the small order fills at once.
manual_runs :
    let w = run manual empty in
    (status_of "ord_1" w ≡ some filled)
    × (status_of "ord_2" w ≡ some filled)
    × (fills "ord_1" w.ledger ≡ 1)
    × (fills "ord_2" w.ledger ≡ 1)
    × (fills "ord_3" w.ledger ≡ 0)
unfolding run step submit resolve mark_filled cancel find update fill fill_count insert_row
    new_order mul_scaled ◌-ℤ◌ fills to_dict lookup log_process_event log_fill log_hitl_approval
manual_runs = (refl, refl, refl, refl, refl)

abbrev big : Order ℤ
big = new_order (buy 1000) "ord_1" "t0"

-- One order that waits for a human.
abbrev waiting : World ℤ
waiting = record { orders = big ∷ []; ledger = []; alerts = [] }

abbrev done : Order ℤ
done = record big { status = filled; filled_at = some "t1" }

abbrev settled : World ℤ
settled = record { orders = done ∷ []; ledger = []; alerts = [] }

big_found : find "ord_1" waiting.orders ≡ some big
unfolding find new_order
big_found = refl

done_found : find "ord_1" settled.orders ≡ some done
unfolding find new_order
done_found = refl

abbrev approve_big : Op ℤ
approve_big = resolve_order "t2" "ord_1" true "alice" none

step-Keeps_example :
    (o' : Order ℤ) × (find "ord_1" (step approve_big waiting).orders ≡ some o') × Keeps big o'
step-Keeps_example = step-Keeps approve_big waiting "ord_1" big big_found

empty-IsBooked : IsBooked empty
unfolding find fills
empty-IsBooked = record { table = tt; booked = λ id. refl }

run-IsBooked_example : IsBooked (run manual empty)
run-IsBooked_example = run-IsBooked manual empty empty-IsBooked

submit_outcome_example :
    let o = new_order (buy 100) "ord_2" "t1" in
    ((is_accepted o waiting.orders ≡ false)
      × (submit config "t1" o waiting ≡ (raised integrity_error, waiting)))
    ⊎ ((is_accepted o waiting.orders ≡ true)
        × ((o' : Order ℤ) × ((submit config "t1" o waiting).0 ≡ ok o')
            × IsDecided config o o' (submit config "t1" o waiting).1))
submit_outcome_example = submit_outcome config "t1" "ord_2" (buy 100) waiting

-- The small order, filled at once under the guardrails.
abbrev pub small_filled : Order ℤ
small_filled = record (new_order (buy 100) "ord_2" "t1") {
  status = filled;
  auto_approved = true;
  resolved_at = some "t1";
  filled_at = some "t1";
}

pub small_fills : (submit guarded "t1" (new_order (buy 100) "ord_2" "t1") empty).0 ≡ ok small_filled
unfolding submit insert_row find new_order mul_scaled validate_order guardrail_system
    check_position_size check_stop_loss check_risk_reward check_market_conditions upper ◌-ℤ◌
    div_scaled
small_fills = refl

submit_filled-IsSafe_example :
    IsSafe (pos 5_000_000) (guardrail_view (new_order (buy 100) "ord_2" "t1"))
    × (fixed.lt nought (pos 1_000_000_000) ≡ true)
    × (fixed.le (notional (new_order (buy 100) "ord_2" "t1")) (pos 1_000_000_000) ≡ true)
    × (false ≡ false)
submit_filled-IsSafe_example =
    submit_filled-IsSafe (pos 1_000_000_000) (pos 5_000_000) false "t1" "ord_2" (buy 100) empty
      small_filled small_fills refl

-- Alice approves the order while the loop sleeps.
abbrev alice : ℕ → World ℤ → World ℤ
alice n w = (resolve "t2" "ord_1" true "alice" none w).1

wait_fail_closed_example :
    let (b, w') = wait_for_decision "t9" "ord_1" alice 3 waiting in
    (poll (get "ord_1" w') ≢ none) × ((b ≡ false) ⊎ (poll (get "ord_1" w') ≡ some true))
wait_fail_closed_example = wait_fail_closed "t9" "ord_1" alice 3 waiting

-- Nothing happens at the first two polls; Alice approves the order after the third, which is the last.
abbrev late_alice : ℕ → World ℤ → World ℤ
late_alice zero w = alice 0 w
late_alice (suc n) w = w

awaited : IsAwaited "ord_1" late_alice 3 waiting
unfolding find new_order
awaited = (refl, (refl, (refl, tt)))

late_decision_lost_example :
    let (told, w') = wait_for_decision "t9" "ord_1" late_alice 3 waiting in
    (told ≡ false) × (w' ≡ world_after late_alice 3 waiting) × (poll (get "ord_1" w') ≡ some true)
late_decision_lost_example =
    late_decision_lost "t9" "t2" "ord_1" "alice" true none late_alice 2 waiting awaited (λ v. refl)

abbrev signal : Signal ℤ
signal = record {
  entry_price = some (pos 100_000_000);
  position_size_pct = some (pos 2_000_000);
  quantity = none;
  symbol = some "BTC/USDT";
  action = some "BUY";
  strategy = none;
  agent_id = none;
  confidence = some (pos 800_000);
  reason = none;
  critical = none;
  stop_loss = some (pos 95_000_000);
  take_profit = none;
}

-- A capital of 10 000: 2 units at 100.
abbrev handled : Result (Option String) × World ℤ
handled = approval_handler config (pos 10_000_000_000) "ord_3" "t1" alice 3 signal empty

handled_id : handled.0 ≡ ok (some "ord_3")
unfolding approval_handler submit signal_draft await_order insert_row find new_order mul_scaled
    div_scaled lower
handled_id = refl

approval_handler_id_example :
    (◌≡◌ {A = String} "ord_3" "ord_3")
    × (fixed.le (signal_quantity (pos 10_000_000_000) signal) nought ≡ false)
    × (fixed.le (signal_price signal) nought ≡ false)
    × (poll (get "ord_3" handled.1) ≡ some true)
approval_handler_id_example =
    approval_handler_id config (pos 10_000_000_000) "ord_3" "t1" alice 3 signal empty "ord_3"
      handled_id
