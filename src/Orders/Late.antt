-- ===== src/Orders/Late.antt =====
-- A decision of src/hitl/orders.py that comes after the last poll of the loop.
use criptotrade.Base.{
  ◌==◌, ℕ, zero, suc, ◌≡◌, refl, sym, ap, ◌∙◌, String, Bool, true, false, List, Option, none, some,
  arith, Option-cases, inl, inr, eq_iff,
}
use criptotrade.Base.Float.{Float}
use criptotrade.Orders.{Status, pending, is_status, Order}
use criptotrade.Orders.Table.{find, find-update, id-find, update}
use criptotrade.Orders.Store.{
  World, get, cancel, cancel_found, resolve, resolve_found, approve_order, reject_order,
}
use criptotrade.Orders.Bridge.{answer, after_poll, poll, wait_for_decision}

still_pending : (s : Status) → answer s ≡ none → is_status s pending ≡ true
still_pending s h = ground arith

some_not_none : {b : Bool} → some b ≡ none → ⊥
some_not_none e = cc

module _ {F : Type 0} ⦃fl : Float F⦄ where
  -- What the other processes have made of the tables when the rounds are over.
  abbrev pub world_after : (ℕ → World F → World F) → ℕ → World F → World F
  world_after env zero w = w
  world_after env (suc rounds) w = world_after env rounds (env rounds w)

  -- Each poll of the rounds finds the order pending.
  abbrev pub IsAwaited : String → (ℕ → World F → World F) → ℕ → World F → Type 0
  IsAwaited id env zero w = Unit {0}
  IsAwaited id env (suc rounds) w =
      (poll (get id w) ≡ none) × IsAwaited id env rounds (env rounds w)

  poll-update :
      (id : String) (o o' : Order F) (rows : List (Order F))
      → find id rows ≡ some o
      → (o'.id == id) ≡ true
      → poll (find id (update o' rows)) ≡ answer o'.status
  poll-update id o o' rows e same = ap poll (find-update id o' rows) ∙ rw (e, same) refl

  resolved_answers :
      (now id operator : String) (b : Bool) (comment : Option String) (o : Order F) (w : World F)
      → (o.id == id) ≡ true
      → find id w.orders ≡ some o
      → is_status o.status pending ≡ true
      → poll (get id (resolve_found id b now operator comment (some o) w).1) ≡ some b
  unfolding resolve_found approve_order reject_order
  resolved_answers now id operator true comment o w same e waits =
      rw waits (poll-update id o _ w.orders e same)
  resolved_answers now id operator false comment o w same e waits =
      rw waits (poll-update id o _ w.orders e same)

  -- A decision on a pending order answers the next poll.
  decided_answers :
      (now id operator : String) (b : Bool) (note : Option String) (w : World F)
      → poll (get id w) ≡ none
      → poll (get id (resolve now id b operator note w).1) ≡ some b
  unfolding resolve
  decided_answers now id operator b note w h = elim (Option-cases (find id w.orders)) [
    | inl e ↦ absurd (some_not_none (sym (ap poll e) ∙ h))
    | inr (o, e) ↦
        let same = (eq_iff o.id id).1 (id-find id w.orders o e) in
        let waits = still_pending o.status (sym (ap poll e) ∙ h) in
        rw e (resolved_answers now id operator b note o w same e waits)
  ]

  cancel_answered :
      (now id reason : String) (w : World F) (b : Bool)
      → poll (get id w) ≡ some b
      → (cancel now id reason w).1 ≡ w
  unfolding cancel
  cancel_answered now id reason w b h = elim (Option-cases (find id w.orders)) [
    | inl e ↦ rw (e, cancel_found) refl
    | inr (o, e) ↦
        let decided : answer o.status ≡ some b = sym (ap poll e) ∙ h in
        let off : is_status o.status pending ≡ false = (ground arith) in
        rw (e, cancel_found, off) refl
  ]

  -- The last of the rounds leaves the order decided.
  last_decided :
      (now id operator : String) (b : Bool) (note : Option String) (env : ℕ → World F → World F)
      (rounds : ℕ) (w : World F)
      → IsAwaited id env (suc rounds) w
      → ((v : World F) → env 0 v ≡ (resolve now id b operator note v).1)
      → poll (get id (world_after env (suc rounds) w)) ≡ some b
  last_decided now id operator b note env zero w h late =
      rw (late w) (decided_answers now id operator b note w h.0)
  last_decided now id operator b note env (suc rounds) w h late =
      last_decided now id operator b note env rounds (env (suc rounds) w) h.1 late

  wait_missed :
      (now id : String) (env : ℕ → World F → World F) (rounds : ℕ) (w : World F) (b : Bool)
      → IsAwaited id env rounds w
      → poll (get id (world_after env rounds w)) ≡ some b
      → wait_for_decision now id env rounds w ≡ (false, world_after env rounds w)
  unfolding wait_for_decision
  wait_missed now id env zero w b h e = rw (cancel_answered now id "decision_timeout" w b e) refl
  wait_missed now id env (suc rounds) w b h e =
      rw (h.0, after_poll) (wait_missed now id env rounds (env rounds w) b h.1 e)

  -- A decision after the last poll is lost: however many polls have found the order pending, and
  -- whatever the other processes did between them, if what they do after the last poll is to resolve
  -- the order, the wait returns false and leaves the tables as they are; an approved order then stays
  -- approved, which one more poll would have found.
  pub late_decision_lost :
      (now now' id operator : String) (b : Bool) (note : Option String)
      (env : ℕ → World F → World F) (rounds : ℕ) (w : World F)
      → IsAwaited id env (suc rounds) w
      → ((v : World F) → env 0 v ≡ (resolve now' id b operator note v).1)
      → let (told, w') = wait_for_decision now id env (suc rounds) w in
        (told ≡ false) × (w' ≡ world_after env (suc rounds) w) × (poll (get id w') ≡ some b)
  late_decision_lost now now' id operator b note env rounds w h late =
      let decided = last_decided now' id operator b note env rounds w h late in
      rw (wait_missed now id env (suc rounds) w b h decided) (refl, refl, decided)
