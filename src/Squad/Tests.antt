-- ===== src/Squad/Tests.antt =====
-- Runs of the squad, and its theorems at concrete desks.
use criptotrade.Base.{
  not, ℕ, ◌≡◌, refl, true, false, none, some, List, [], ◌∷◌, ◌*◌, arith, every, map,
}
use criptotrade.Base.Int.{ℤ, pos, negsuc, ◌-ℤ◌}
use criptotrade.Base.Float.{fixed, nought}
use criptotrade.Base.Text.{lower}
use criptotrade.Base.Dict.{lookup}
use criptotrade.Base.Dict.Keys.{map_values}
use criptotrade.Ledger.Payload.{null}
use criptotrade.Orders.Bridge.{Signal}
use criptotrade.Squad.{Position, Desk}
use criptotrade.Squad.Breaker.{is_cool, fresh_breaker, is_open}
use criptotrade.Squad.Book.{eps, exit_price, rows_of, reload_open_positions}
use criptotrade.Squad.Book.Fill.{check_open_positions, close_all, exits}
use criptotrade.Squad.Book.Mirror.{IsSound}
use criptotrade.Squad.Book.Reload.{forget, without_fee, reload_restores_lots}
use criptotrade.Squad.Throttle.{Notice}
use criptotrade.Squad.Throttle.Laws.{is_within}
use criptotrade.Squad.Cycle.{verdict, Env, Squad}
use criptotrade.Squad.Pipeline.{with_symbol}
use criptotrade.Squad.Analyze.{analyze_and_trade, Turn, take_turns}
use criptotrade.Squad.Room.{IsFit}
use criptotrade.Squad.Invariant.{take_turns-IsFit}
use criptotrade.Squad.Gates.{
  is_traded, IsApproved, when_asked, analyze_and_trade_gates, breaker_open_unmanaged,
}

abbrev pub num_of : ℕ → ℤ
num_of n = pos (n * 1_000_000)

abbrev loss : ℤ
loss = negsuc 999_999

-- A long lot: half a unit bought at 100.
abbrev lot : Position ℤ
lot = record {
  symbol = "BTC/USDT";
  side = "buy";
  entry_price = num_of 100;
  quantity = pos 500_000;
  stop_loss = some (num_of 95);
  take_profit = some (num_of 115);
  entry_fee = some (pos 50_000);
  opened_at = "2026-01-01";
}

abbrev second_lot : Position ℤ
second_lot = record lot { opened_at = "2026-01-02" }

abbrev desk : Desk ℤ
desk = record {
  breaker = fresh_breaker;
  open_positions = ("a", second_lot) ∷ ("b", lot) ∷ [];
  breaker_row = none;
  position_rows = rows_of (("a", second_lot) ∷ ("b", lot) ∷ []);
  ledger = [];
}

desk-IsSound : IsSound desk
unfolding lookup
desk-IsSound = record { keys = (refl, (refl, tt)); mirror = refl; long = (refl, (refl, tt)) }

abbrev tripped : Desk ℤ
tripped = record desk {
  breaker = record {
    tripped_at = some (num_of 7);
    consecutive_losses = 3;
    daily_loss_pct = negsuc 4_999_999;
  };
}

-- A sale of three quarters: the older lot whole, and a part of the other.
abbrev sold : ℤ
sold = pos 750_000

reload_restores_lots_example :
    (reload_open_positions (forget desk)).open_positions
    ≡ map (map_values without_fee) desk.open_positions
reload_restores_lots_example = reload_restores_lots desk desk-IsSound

abbrev pub signal : Signal ℤ
signal = record {
  entry_price = some (num_of 100);
  position_size_pct = some (num_of 2);
  quantity = none;
  symbol = none;
  action = some "buy";
  strategy = none;
  agent_id = none;
  confidence = none;
  reason = none;
  critical = none;
  stop_loss = some (num_of 95);
  take_profit = none;
}

abbrev pub env : Env (Unit {0}) ℤ
env = record {
  strategy =
      λ symbol timeframe. record { signal = signal; confidence = pos 800_000; stub_used = false };
  risk = λ s available base. record { approved = true; issues = []; validation = null };
  approval_handler = some (λ s outside. (verdict true, outside));
  execute = λ s quantity. record {
    success = true;
    order_id = some "x1";
    executed_price = some (num_of 101);
    fee = some (pos 10_000);
    execution = null;
  };
  fill_callback = none;
  initial_capital = num_of 10_000;
  max_concurrent = 3;
  allow_stub_data = false;
  has_alert_store = false;
  iso = λ t. "now";
  signal_json = λ s. null;
}

abbrev pub squad : Squad (Unit {0}) ℤ
squad = record {
  desk = desk;
  last_skip = [];
  last_fallback = [];
  last_order_ref = none;
  alerts = [];
  outside = tt;
}

small_eps : fixed.lt eps nought ≡ false
small_eps = refl

squad-IsFit : IsFit env desk
squad-IsFit = record { sound = desk-IsSound; within = omega arith }

trades : is_traded (analyze_and_trade env (num_of 1) "BTC/USDT" "1h" false squad).0 ≡ true
unfolding analyze_and_trade is_open lower check_open_positions close_all exits exit_price
trades = refl

analyze_and_trade_gates_example :
    ((is_open (num_of 1) desk).0 ≡ false)
    × (false ≡ false)
    × (false ≡ false)
    × (fixed.lt (pos 800_000) (fixed.lit 6 1) ≡ false)
    × IsApproved env "BTC/USDT"
        (with_symbol "BTC/USDT" signal)
        (pos 800_000)
        (when_asked env (num_of 1) "BTC/USDT" "1h" squad).desk
analyze_and_trade_gates_example =
    analyze_and_trade_gates env (num_of 1) "BTC/USDT" "1h" false squad trades

abbrev stopped : Squad (Unit {0}) ℤ
stopped = record squad { desk = tripped }

-- A cycle at the time `t`.
abbrev at_time : ℕ → Turn (Unit {0}) ℤ
at_time t = record {
  env = env;
  now = num_of t;
  symbol = "BTC/USDT";
  timeframe = "1h";
  paused = false;
}

-- A second and an hour after the trip.
abbrev turns : List (Turn (Unit {0}) ℤ)
turns = at_time 8 ∷ at_time 3_607 ∷ []

take_turns-IsFit_example : IsFit env (take_turns turns squad).desk
take_turns-IsFit_example = take_turns-IsFit env turns squad small_eps (refl, (refl, tt)) squad-IsFit

turns_early : every (λ turn. not (is_cool turn.now (num_of 7))) turns ≡ true
unfolding ◌-ℤ◌
turns_early = refl

breaker_open_unmanaged_example :
    (take_turns turns stopped).desk.open_positions ≡ tripped.open_positions
breaker_open_unmanaged_example = breaker_open_unmanaged turns (num_of 7) stopped refl turns_early

abbrev no_slot_notice : Notice ℤ
no_slot_notice = record {
  event_type = "signal_skipped";
  reason = "no_slot";
  extra = [];
  heartbeat = true;
}

abbrev minutes : List ℤ
minutes = num_of 60 ∷ num_of 120 ∷ num_of 599 ∷ []

within_window : every (is_within env.iso "BTC/USDT" no_slot_notice nought) minutes ≡ true
unfolding ◌-ℤ◌
within_window = refl
