-- ===== src/Orders/Booked.antt =====
-- Every operation keeps the ledger booked against the table, so that no order is filled twice.
use mathlib.Core.Option
use criptotrade.Base.{
  ◌+◌, ◌≡◌, refl, ◌∙◌, String, ◌==◌, eq_iff, eq_refl, Bool, true, false, not, ◌&&◌, Option, none,
  some, List, [], ◌∷◌, arith, if◌then◌else◌, Bool-cases, Option-cases, inl, inr,
}
use criptotrade.Base.Float.{Float, nought}
use criptotrade.Guardrails.{GuardrailSystem, validate_order}
use criptotrade.Orders.{
  pending, approved, filled, is_status, notional, guardrail_view, Order, new_order,
}
use criptotrade.Orders.Table.{
  fill_columns, is_fillable, find, fill, fill_count, insert_row, IsTable, find-fill, find-append,
  fill_count-find, id-find,
}
use criptotrade.Orders.Store.{
  World, Config, do_fill, auto_approve, decide, reject_by_risk, inserted, submit, approve_order,
  reject_order, resolve_found, resolve, log_filled, mark_filled, cancel_found, cancel,
}
use criptotrade.Orders.Lifecycle.{
  insert_row_eq, log_filled-orders, Op, submit_order, resolve_order, mark_order, cancel_order, step,
  run,
}
use criptotrade.Orders.Fills.{
  fills, IsBooked, no_fill, not_filled, at_own_id, fills-process_event, fills-hitl_approval,
  fills-fill, fills-log_fill_events, IsBooked-write, IsBooked-append, IsBooked-fill,
}

module _ {F : Type 0} ⦃fl : Float F⦄ where
  IsBooked-auto_approve :
      (config : Config F) (now : String) (o : Order F) (w : World F)
      → IsBooked w
      → find o.id w.orders ≡ some o
      → is_status o.status filled ≡ false
      → IsBooked (auto_approve config now o w).1
  unfolding auto_approve do_fill
  IsBooked-auto_approve config now o w h e open_row =
      elim (Bool-cases
        (fl.lt nought config.threshold && fl.le (notional o) config.threshold && not o.critical)) [
          | inl p ↦ rw p (
              IsBooked-write w o _ _ w.alerts h e open_row
                (λ j. rw (fills-process_event, fills-fill, fills-hitl_approval) refl))
          | inr p ↦ rw p h
        ]

  IsBooked-decide :
      (g : Option (GuardrailSystem F)) (config : Config F) (now : String) (o : Order F)
      (w : World F)
      → IsBooked w
      → find o.id w.orders ≡ some o
      → is_status o.status filled ≡ false
      → IsBooked (decide g config now o w).1
  unfolding decide reject_by_risk
  IsBooked-decide none config now o w h e open_row =
      IsBooked-auto_approve config now o w h e open_row
  IsBooked-decide (some g) config now o w h e open_row =
      elim (Bool-cases (validate_order g (guardrail_view o)).0) [
        | inl p ↦ rw p (
            IsBooked-auto_approve config now o _ (record { table = h.table; booked = h.booked }) e
              open_row)
        | inr p ↦ rw p (
            IsBooked-write w o _ _ _ h e open_row
              (λ j. rw (fills-process_event, fills-hitl_approval) (no_fill (o.id == j) _)))
      ]

  IsBooked-inserted :
      (config : Config F) (now : String) (o : Order F) (w : World F) (r : Option (List (Order F)))
      → IsBooked w
      → insert_row o w.orders ≡ r
      → is_status o.status filled ≡ false
      → IsBooked (inserted config now o w r).1
  unfolding inserted
  IsBooked-inserted config now o w none h e open_row = h
  IsBooked-inserted config now o w (some rows) h e open_row =
      let (added, fresh) = insert_row_eq o w.orders rows e in
      IsBooked-decide config.guardrails config now o _
        (rw added (IsBooked-append w o _ h fresh open_row (λ j. rw fills-process_event refl)))
        (rw added (find-append o.id w.orders o ∙ rw (fresh, eq_refl o.id) refl)) open_row

  IsBooked-decision :
      (now operator : String) (comment : Option String) (id : String) (w : World F) (o : Order F)
      → IsBooked w
      → find id w.orders ≡ some o
      → is_status o.status pending ≡ true
      → (d : Bool)
      → IsBooked
          (if d
            then approve_order now operator comment o w
            else reject_order now operator comment o w).1
  unfolding approve_order reject_order
  IsBooked-decision now operator comment id w o h e p true =
      IsBooked-write w o _ _ w.alerts h (at_own_id id w.orders o e) (not_filled o.status p)
        (λ j. rw (fills-process_event, fills-hitl_approval) (no_fill (o.id == j) _))
  IsBooked-decision now operator comment id w o h e p false =
      IsBooked-write w o _ _ w.alerts h (at_own_id id w.orders o e) (not_filled o.status p)
        (λ j. rw (fills-process_event, fills-hitl_approval) (no_fill (o.id == j) _))

  IsBooked-resolve :
      (now id : String) (d : Bool) (operator : String) (comment : Option String) (w : World F)
      → IsBooked w
      → IsBooked (resolve now id d operator comment w).1
  unfolding resolve
  IsBooked-resolve now id d operator comment w h = elim (Option-cases (find id w.orders)) [
    | inl missing ↦ rw (missing, resolve_found) h
    | inr (o, e) ↦
        rw (e, resolve_found)
          (elim (Bool-cases (is_status o.status pending)) [
            | inl p ↦ rw p (IsBooked-decision now operator comment id w o h e p d)
            | inr p ↦ rw p h
          ])
  ]

  IsBooked-cancel :
      (now id reason : String) (w : World F) → IsBooked w → IsBooked (cancel now id reason w).1
  unfolding cancel
  IsBooked-cancel now id reason w h = elim (Option-cases (find id w.orders)) [
    | inl missing ↦ rw (missing, cancel_found) h
    | inr (o, e) ↦
        rw (e, cancel_found)
          (elim (Bool-cases (is_status o.status pending)) [
            | inl p ↦ rw p (
                IsBooked-write w o _ _ w.alerts h (at_own_id id w.orders o e)
                  (not_filled o.status p) (λ j. rw fills-process_event (no_fill (o.id == j) _)))
            | inr p ↦ rw p h
          ])
  ]

  fills-log_filled :
      (j id now operator : String) (w w' : World F)
      → IsTable w.orders
      → w'.ledger ≡ w.ledger
      → fills j
          (log_filled (fill_count id w.orders) (find id (fill id now w.orders)) operator w').ledger
        ≡ fills j w.ledger + (if id == j then fill_count id w.orders else 0)
  unfolding log_filled
  fills-log_filled j id now operator w w' h same =
      rw (find-fill id now id w.orders, fill_count-find id w.orders h)
        (entries (find id w.orders) refl)
    where
      entries :
          (r : Option (Order F))
          → find id w.orders ≡ r
          → fills j
              (log_filled
                (elim r [ none ↦ 0 | some row ↦ if is_status row.status approved then 1 else 0 ])
                (Option.map (λ row. if is_fillable id row then fill_columns now row else row) r)
                operator
                w').ledger
            ≡ fills j w.ledger
              + (if id == j
                  then (elim r [
                    | none ↦ 0
                    | some row ↦ if is_status row.status approved then 1 else 0
                  ])
                  else 0)
      entries none e = rw same (no_fill (id == j) _)
      entries (some r) e = elim (Bool-cases (is_status r.status approved)) [
        | inl a ↦ ground (
          arith,
          fills-log_fill_events j (fill_columns now r) operator w',
          id-find id w.orders r e,
          eq_iff r.id id,
        )
        | inr a ↦ ground arith
      ]

  IsBooked-mark_filled :
      (now id operator : String) (w : World F)
      → IsBooked w
      → IsBooked (mark_filled now id operator w).1
  unfolding mark_filled
  IsBooked-mark_filled now id operator w h =
      let w' = record w { orders = fill id now w.orders } in
      let b =
        IsBooked-fill id now w
          (log_filled (fill_count id w.orders) (find id w'.orders) operator w').ledger h
          (λ j. fills-log_filled j id now operator w w' h.table refl) in
      record {
        table = rw log_filled-orders b.table;
        booked = λ j. rw log_filled-orders (b.booked j);
      }

  IsBooked-step : (op : Op F) (w : World F) → IsBooked w → IsBooked (step op w)
  unfolding step submit new_order
  IsBooked-step (submit_order config now draft id) w h =
      IsBooked-inserted config now (new_order draft id now) w _ h refl refl
  IsBooked-step (resolve_order now id d operator comment) w h =
      IsBooked-resolve now id d operator comment w h
  IsBooked-step (mark_order now id operator) w h = IsBooked-mark_filled now id operator w h
  IsBooked-step (cancel_order now id reason) w h = IsBooked-cancel now id reason w h

  -- From tables in which it holds, after any operations of the API and the loop in any order, it
  -- still holds that no two rows share an id, and that the ledger has exactly one fill entry for
  -- each order whose status is filled and none for any other id: no order is filled twice.
  pub run-IsBooked : (ops : List (Op F)) (w : World F) → IsBooked w → IsBooked (run ops w)
  unfolding run
  run-IsBooked [] w h = h
  run-IsBooked (op ∷ ops) w h = run-IsBooked ops (step op w) (IsBooked-step op w h)
