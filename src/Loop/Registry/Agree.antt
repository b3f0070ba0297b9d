-- ===== src/Loop/Registry/Agree.antt =====
-- The two ways in which src/agents/registry.py counts the cycles of a day.
use criptotrade.Base.{
  false-ne-true, ℕ, ◌+◌, ◌*◌, ◌≤◌, ◌≡◌, refl, sym, ap, ◌∙◌, ltb, String, Bool, true, false, List,
  [], ◌∷◌, if◌then◌else◌, Bool-cases, inl, inr,
}
use criptotrade.Base.Dict.{lookup, insert}
use criptotrade.Loop.Registry.{
  AgentRegistry, day, date_of, day_start, new_registry, prune_cycle_events, maybe_reset,
  count_or_zero, record_cycle, count_since, cycles_today,
}
use criptotrade.Loop.Registry.Current.{
  IsBefore-later, none_since, IsCurrent, new-IsCurrent, later_date, same_date,
  maybe_reset-IsCurrent, counted-IsCurrent,
}

-- The clock goes from `t` over the events to `now`.
abbrev pub IsClock : ℕ → List (String × ℕ) → ℕ → Type 0
IsClock t [] now = t ≤ now
IsClock t ((agent, w) ∷ events) now = (t ≤ w) × IsClock w events now

abbrev pub record_all : List (String × ℕ) → AgentRegistry → AgentRegistry
record_all [] r = r
record_all ((agent, w) ∷ events) r = record_all events (record_cycle agent w r)

table_answer :
    (agent : String) (now : ℕ) (r : AgentRegistry)
    → r.has_db ≡ true
    → (cycles_today agent now r).0 ≡ count_since agent (day_start now) r.events
unfolding cycles_today
table_answer agent now r stored = rw stored refl

today_count :
    (agent : String) (t now : ℕ) (r : AgentRegistry)
    → t ≤ now
    → IsCurrent t r
    → count_since agent (day_start now) r.events
      ≡ count_or_zero (lookup agent (maybe_reset now r).cycles)
unfolding maybe_reset prune_cycle_events lookup
today_count agent t now r later h = elim (Bool-cases (ltb r.cycles_date (date_of now))) [
  | inl new ↦
      rw (new, h.stored)
        (none_since agent (day_start now) r.events
          (IsBefore-later _ _ r.events (later_date r.cycles_date now new) h.recent))
  | inr same ↦ rw same (
      ap (λ d. count_since agent (d * day) r.events)
        (sym (same_date r.cycles_date t now same h.dated later))
      ∙ sym (h.counts agent))
]

-- The answer of a registry with a table, from one that is current before the events.
record_all-answer :
    (agent : String) (t now : ℕ) (events : List (String × ℕ)) (r : AgentRegistry)
    → IsCurrent t r
    → IsClock t events now
    → let after = record_all events r in
      (cycles_today agent now after).0 ≡ count_or_zero (lookup agent (maybe_reset now after).cycles)
unfolding cycles_today record_cycle
record_all-answer agent t now [] r h clock =
    table_answer agent now r h.stored ∙ today_count agent t now r clock h
record_all-answer agent t now ((a, w) ∷ events) r h (le, clock) =
    let (current, today) = maybe_reset-IsCurrent t w r le h in
    record_all-answer agent w now events _ (counted-IsCurrent a w _ current today) clock

-- The same counts in memory.
abbrev IsTwin : AgentRegistry → AgentRegistry → Type 0
IsTwin r r' = (r.cycles ≡ r'.cycles) × (r.cycles_date ≡ r'.cycles_date)

maybe_reset-memory :
    (now : ℕ) (r : AgentRegistry)
    → let new = ltb r.cycles_date (date_of now) in
      ((maybe_reset now r).cycles ≡ (if new then [] else r.cycles))
      × ((maybe_reset now r).cycles_date ≡ (if new then date_of now else r.cycles_date))
      × ((maybe_reset now r).has_db ≡ r.has_db)
unfolding maybe_reset prune_cycle_events
maybe_reset-memory now r = elim (Bool-cases (ltb r.cycles_date (date_of now))) [
  | inl new ↦ elim (Bool-cases r.has_db) [
    | inl stored ↦ rw (new, stored) (refl, refl, refl)
    | inr not_stored ↦ rw (new, not_stored) (refl, refl, refl)
  ]
  | inr same ↦ rw same (refl, refl, refl)
]

maybe_reset-IsTwin :
    (now : ℕ) (r r' : AgentRegistry) → IsTwin r r' → IsTwin (maybe_reset now r) (maybe_reset now r')
maybe_reset-IsTwin now r r' (cycles, date) =
    let (a, b, _) = maybe_reset-memory now r in
    let (a', b', _) = maybe_reset-memory now r' in
    (
      a
          ∙ ap (λ d. if ltb d (date_of now) then [] else r.cycles) date
          ∙ ap (λ c. if ltb r'.cycles_date (date_of now) then [] else c) cycles
          ∙ sym a',
      b ∙ ap (λ d. if ltb d (date_of now) then date_of now else d) date ∙ sym b',
    )

record_all-IsTwin :
    (events : List (String × ℕ)) (r r' : AgentRegistry)
    → IsTwin r r'
    → IsTwin (record_all events r) (record_all events r')
unfolding record_cycle
record_all-IsTwin [] r r' h = h
record_all-IsTwin ((a, w) ∷ events) r r' h =
    let (cycles, date) = maybe_reset-IsTwin w r r' h in
    record_all-IsTwin events _ _
      (ap (λ c. insert a (count_or_zero (lookup a c) + 1) c) cycles, date)

record_all-stored :
    (events : List (String × ℕ)) (r : AgentRegistry) → (record_all events r).has_db ≡ r.has_db
unfolding record_cycle
record_all-stored [] r = refl
record_all-stored ((a, w) ∷ events) r = record_all-stored events _ ∙ (maybe_reset-memory w r).2

pick_false : {B : Type 0} (b : Bool) (x y : ℕ × B) → b ≡ false → (if b then x else y).0 ≡ y.0
pick_false true x y h = absurd (false-ne-true (sym h))
pick_false false x y h = refl

memory_answer :
    (agent : String) (now : ℕ) (r : AgentRegistry)
    → r.has_db ≡ false
    → (cycles_today agent now r).0 ≡ count_or_zero (lookup agent (maybe_reset now r).cycles)
unfolding cycles_today
memory_answer agent now r h = pick_false r.has_db _ _ h

-- Whatever cycles are recorded, as long as the clock does not go back, and across changes of the day
-- with their pruning: a registry with a table answers every later query as one without, both new at
-- the start.
pub cycles_today-agree :
    (agent : String) (start now : ℕ) (events : List (String × ℕ))
    → IsClock start events now
    → (cycles_today agent now (record_all events (new_registry true start))).0
      ≡ (cycles_today agent now (record_all events (new_registry false start))).0
cycles_today-agree agent start now events clock =
    let stored = new_registry true start in
    let plain = new_registry false start in
    let twin = record_all-IsTwin events stored plain (refl, refl) in
    record_all-answer agent start now events stored (new-IsCurrent start) clock
    ∙ ap (λ c. count_or_zero (lookup agent c)) (maybe_reset-IsTwin now _ _ twin).0
    ∙ sym (memory_answer agent now _ (record_all-stored events plain))
