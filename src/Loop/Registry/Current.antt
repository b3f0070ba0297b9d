-- ===== src/Loop/Registry/Current.antt =====
-- A registry of src/agents/registry.py whose table and memory agree, and what keeps it so.
use criptotrade.Base.{
  ℕ, ◌+◌, ◌-◌, ◌*◌, ◌≤◌, ◌<◌, ◌≡◌, refl, sym, ap, ◌∙◌, ltb, leb, String, ◌==◌, Bool, true, false,
  List, [], ◌∷◌, ◌++◌, keep, length, arith, All, All-append, Bool-cases, inl, inr, keep-append,
  length-append, eq_iff,
}
use criptotrade.Base.Dict.{lookup, lookup-insert}
use criptotrade.Loop.Registry.{
  CycleEvent, AgentRegistry, day, date_of, day_start, new_registry, is_kept, prune_cycle_events,
  maybe_reset, count_or_zero, counted, is_since, count_since,
}

All-keep : {A : Type 0} (P : A → Type 0) (p : A → Bool) (xs : List A) → All P xs → All P (keep p xs)
All-keep P p [] h = tt
All-keep P p (x ∷ xs) h = elim (Bool-cases (p x)) [
  | inl e ↦ rw e (h.0, All-keep P p xs h.1)
  | inr e ↦ rw e (All-keep P p xs h.1)
]

-- All before a time.
abbrev IsBefore : ℕ → List CycleEvent → Type 0
IsBefore bound = All (λ e. e.cycled_at < bound)

pub IsBefore-later : (a b : ℕ) (es : List CycleEvent) → a ≤ b → IsBefore a es → IsBefore b es
IsBefore-later a b [] le h = tt
IsBefore-later a b (e ∷ es) le h = (omega (arith, h.0), IsBefore-later a b es le h.1)

late : (start t : ℕ) → t < start → leb start t ≡ false
late start t h = ground arith

pub none_since :
    (agent : String) (start : ℕ) (es : List CycleEvent)
    → IsBefore start es
    → count_since agent start es ≡ 0
none_since agent start [] h = refl
none_since agent start (e ∷ es) h = elim (Bool-cases (e.agent_id == agent)) [
  | inl same ↦ rw (same, late start e.cycled_at h.0) (none_since agent start es h.1)
  | inr other ↦ rw other (none_since agent start es h.1)
]

-- A registry with a table that is up to date at a time.
pub record IsCurrent (t : ℕ) (r : AgentRegistry) : Type 0 where
  pub stored : r.has_db ≡ true
  pub dated : r.cycles_date * day ≤ t
  pub recent : IsBefore ((r.cycles_date + 1) * day) r.events
  pub counts :
      (agent : String)
      → count_or_zero (lookup agent r.cycles) ≡ count_since agent (r.cycles_date * day) r.events

pub new-IsCurrent : (t : ℕ) → IsCurrent t (new_registry true t)
unfolding lookup
new-IsCurrent t = record { stored = refl; dated = omega arith; recent = tt; counts = λ agent. refl }

-- A later date begins after the day of an earlier one.
pub later_date : (d now : ℕ) → ltb d (date_of now) ≡ true → (d + 1) * day ≤ day_start now
later_date d now h = ground arith

pub same_date :
    (d t now : ℕ) → ltb d (date_of now) ≡ false → d * day ≤ t → t ≤ now → d ≡ date_of now
same_date d t now h dated later = ground arith

pub maybe_reset-IsCurrent :
    (t now : ℕ) (r : AgentRegistry)
    → t ≤ now
    → IsCurrent t r
    → IsCurrent now (maybe_reset now r) × ((maybe_reset now r).cycles_date ≡ date_of now)
unfolding maybe_reset prune_cycle_events lookup
maybe_reset-IsCurrent t now r later h = elim (Bool-cases (ltb r.cycles_date (date_of now))) [
  | inl new ↦
      let old : IsBefore (day_start now) (keep (is_kept (now - 30 * day)) r.events) =
        All-keep _ _ r.events
          (IsBefore-later _ _ r.events (later_date r.cycles_date now new) h.recent) in
      rw (new, h.stored)
        (
          record {
            stored = refl;
            dated = omega arith;
            recent = IsBefore-later _ _ _ (omega arith) old;
            counts = λ agent. sym (none_since agent _ _ old);
          },
          refl,
        )
  | inr same ↦ rw same (
    record {
      stored = h.stored;
      dated = omega (arith, later, h.dated);
      recent = h.recent;
      counts = h.counts;
    },
    same_date r.cycles_date t now same h.dated later,
  )
]

is_recent : (start t : ℕ) → start ≤ t → leb start t ≡ true
is_recent start t h = ground arith

within_day : (t : ℕ) → t < (date_of t + 1) * day
within_day t = omega arith

count_since-append :
    (agent : String) (start : ℕ) (es : List CycleEvent) (e : CycleEvent)
    → count_since agent start (es ++ (e ∷ []))
      ≡ count_since agent start es + count_since agent start (e ∷ [])
count_since-append agent start es e =
    ap length (keep-append (is_since agent start) es (e ∷ []))
    ∙ length-append (keep (is_since agent start) es) (keep (is_since agent start) (e ∷ []))

pub counted-IsCurrent :
    (agent : String) (now : ℕ) (r : AgentRegistry)
    → IsCurrent now r
    → r.cycles_date ≡ date_of now
    → IsCurrent now (counted agent now r)
counted-IsCurrent agent now r h today = rw h.stored (record {
  stored = refl;
  dated = h.dated;
  recent = All-append _ r.events _ h.recent (rw today (within_day now), tt);
  counts = λ other.
      rw (lookup-insert agent other (count_or_zero (lookup agent r.cycles) + 1) r.cycles) (
        rw
          (count_since-append other (r.cycles_date * day) r.events
            (record { agent_id = agent; cycled_at = now }))
          (elim (Bool-cases (agent == other)) [
            | inl e ↦
                rw (e, is_recent (r.cycles_date * day) now h.dated)
                  (ap (λ k. count_or_zero (lookup k r.cycles) + 1) ((eq_iff agent other).0 e)
                    ∙ ap (λ n. n + 1) (h.counts other))
            | inr e ↦ rw e (h.counts other ∙ omega arith)
          ]));
})
