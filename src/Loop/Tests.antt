-- ===== src/Loop/Tests.antt =====
-- Cycles of the loop, and the registry over two days.
use criptotrade.Base.{ℕ, ◌≡◌, ◌≤◌, refl, String, true, false, none, some, List, [], ◌∷◌, arith}
use criptotrade.Base.Int.{ℤ, pos}
use criptotrade.Base.Float.{fixed}
use criptotrade.Base.Dict.{lookup, insert}
use criptotrade.Ledger.Payload.{null}
use criptotrade.Squad.Cycle.{Squad}
use criptotrade.Squad.Tests
use criptotrade.Loop.{OrchestratorLoop, run_cycle, validated_interval}
use criptotrade.Loop.Complete.{runs, unpaused, squad_pipeline, run_cycle_paused}
use criptotrade.Loop.Registry.{
  new_registry, prune_cycle_events, maybe_reset, record_cycle, cycles_today,
}
use criptotrade.Loop.Registry.Agree.{record_all, cycles_today-agree}

abbrev loop : OrchestratorLoop (Squad (Unit {0}) ℤ) ℤ
loop = record {
  outside = Tests.squad;
  ledger = [];
  registry = new_registry true 0;
  heartbeat = none;
}

abbrev symbols : List String
symbols = "BTC/USDT" ∷ "ETH/USDT" ∷ []

run_cycle_paused_example :
    runs "execution"
      (run_cycle
        (squad_pipeline Tests.env (Tests.num_of 1) "1h")
        "cycle_1"
        60
        symbols
        ("ETH/USDT" ∷ [])
        8
        (null, null)
        loop).0.ran_agents
    ≤ unpaused ("ETH/USDT" ∷ []) symbols
run_cycle_paused_example =
    run_cycle_paused Tests.env (Tests.num_of 1) "1h" "cycle_1" 60 symbols ("ETH/USDT" ∷ []) 8
      (null, null) loop

too_short : validated_interval (λ raw. none) none (some (pos 9)) ≡ none
unfolding validated_interval
too_short = refl

by_default : validated_interval (λ raw. none) none none ≡ some 60
unfolding validated_interval
by_default = refl

-- Two cycles on one day and one on the next.
abbrev events : List (String × ℕ)
events = ("risk", 100) ∷ ("risk", 200) ∷ ("risk", 86_500) ∷ []

second_day : (cycles_today "risk" 86_600 (record_all events (new_registry true 0))).0 ≡ 1
unfolding cycles_today record_cycle maybe_reset prune_cycle_events lookup insert
second_day = refl

cycles_today-agree_example :
    (cycles_today "risk" 86_600 (record_all events (new_registry true 0))).0
    ≡ (cycles_today "risk" 86_600 (record_all events (new_registry false 0))).0
cycles_today-agree_example =
    cycles_today-agree "risk" 0 86_600 events
      (omega arith, (omega arith, (omega arith, omega arith)))
