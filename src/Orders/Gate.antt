-- ===== src/Orders/Gate.antt =====
-- What a submission comes to, branch by branch.
use criptotrade.Base.{
  ◌≡◌, ◌⊎◌, refl, sym, ap, ◌∙◌, String, Bool, true, false, not, ◌&&◌, Option, none, some, List, [],
  ◌∷◌, ◌++◌, arith, if◌then◌else◌, Bool-cases, inl, inr, eq_refl,
}
use criptotrade.Base.Float.{Float, nought}
use criptotrade.Guardrails.{GuardrailSystem, guardrail_system, validate_order}
use criptotrade.Guardrails.Safe.{IsSafe}
use criptotrade.Guardrails.Laws.{validate_order-IsSafe}
use criptotrade.Orders.{
  Status, pending, filled, rejected, Draft, Order, new_order, notional, guardrail_view,
}
use criptotrade.Orders.Table.{
  find, update, is_accepted, insert_row, set_columns, find-update, find-append,
}
use criptotrade.Orders.Lifecycle.{insert_row_eq}
use criptotrade.Orders.Store.{
  log, log_submitted, Error, World, Config, ok, raised, integrity_error, auto_approve, do_fill,
  log_fill_events, decide, reject_by_risk, inserted, submit,
}

abbrev pub expected_status : Bool → Bool → Status
expected_status allowed auto = if allowed then if auto then filled else pending else rejected

filled_tests : (a b : Bool) → expected_status a b ≡ filled → (a ≡ true) × (b ≡ true)
filled_tests a b h = ground arith

three_tests : (a b c : Bool) → (a && b && not c) ≡ true → (a ≡ true) × (b ≡ true) × (c ≡ false)
three_tests a b c h = ground arith

ok-injective : {A : Type 0} {a b : A} → ok a ≡ ok b → a ≡ b
ok-injective e = cc

ok-ne-raised : {A : Type 0} {a : A} {e : Error} → ok a ≡ raised e → ⊥
ok-ne-raised e = cc

module _ {F : Type 0} ⦃fl : Float F⦄ where
  -- The risk gate, passed when there is none.
  abbrev pub is_allowed : Option (GuardrailSystem F) → Order F → Bool
  is_allowed none o = true
  is_allowed (some g) o = (validate_order g (guardrail_view o)).0

  -- Small and not critical.
  abbrev pub is_auto : F → Order F → Bool
  is_auto threshold o = fl.lt nought threshold && fl.le (notional o) threshold && not o.critical

  -- The outcome of the decision on a stored order.
  pub record IsDecided (config : Config F) (o o' : Order F) (w' : World F) : Type 0 where
    pub stored : find o.id w'.orders ≡ some o'
    pub same_id : o'.id ≡ o.id
    pub status_is :
        o'.status ≡ expected_status (is_allowed config.guardrails o) (is_auto config.threshold o)
    pub auto_is : o'.auto_approved ≡ (is_allowed config.guardrails o && is_auto config.threshold o)

  find-update_self :
      (rows : List (Order F)) (o n : Order F)
      → find n.id rows ≡ some o
      → find n.id (update n rows) ≡ some (set_columns n o)
  find-update_self rows o n e = find-update n.id n rows ∙ rw (e, eq_refl n.id) refl

  auto_approve-status :
      (config : Config F) (now : String) (o : Order F) (w : World F)
      → find o.id w.orders ≡ some o
      → o.status ≡ pending
      → o.auto_approved ≡ false
      → is_allowed config.guardrails o ≡ true
      → let (o', w') = auto_approve config now o w in IsDecided config o o' w'
  unfolding auto_approve do_fill log_fill_events
  auto_approve-status config now o w e p a g = elim (Bool-cases (is_auto config.threshold o)) [
    | inl s ↦ rw s (record {
      stored = find-update_self w.orders o _ e;
      same_id = refl;
      status_is = rw (g, s) refl;
      auto_is = rw (g, s) refl;
    })
    | inr s ↦
        rw s (record { stored = e; same_id = refl; status_is = rw (g, s) p; auto_is = rw (g, s) a })
  ]

  decide-status :
      (config : Config F) (now : String) (o : Order F) (w : World F)
      (g : Option (GuardrailSystem F))
      → config.guardrails ≡ g
      → find o.id w.orders ≡ some o
      → o.status ≡ pending
      → o.auto_approved ≡ false
      → let (o', w') = decide g config now o w in IsDecided config o o' w'
  unfolding decide reject_by_risk
  decide-status config now o w none c e p a = auto_approve-status config now o w e p a (rw c refl)
  decide-status config now o w (some g) c e p a =
      elim (Bool-cases (validate_order g (guardrail_view o)).0) [
        | inl v ↦ rw v (auto_approve-status config now o _ e p a (rw (c, v) refl))
        | inr v ↦ rw v (record {
          stored = find-update_self w.orders o _ e;
          same_id = refl;
          status_is = rw (c, v) refl;
          auto_is = rw (c, v) a;
        })
      ]

  refused :
      (o : Order F) (rows : List (Order F)) → is_accepted o rows ≡ false → insert_row o rows ≡ none
  unfolding insert_row
  refused o rows h = rw h refl

  accepted :
      (o : Order F) (rows : List (Order F))
      → is_accepted o rows ≡ true
      → insert_row o rows ≡ some (rows ++ o ∷ [])
  unfolding insert_row
  accepted o rows h = rw h refl

  pub submit_cases :
      (config : Config F) (now id : String) (draft : Draft F) (w : World F)
      → let o = new_order draft id now in
        (is_accepted o w.orders ≡ false → submit config now o w ≡ (raised integrity_error, w))
        × (is_accepted o w.orders ≡ true
            → (o' : Order F) × ((submit config now o w).0 ≡ ok o')
              × IsDecided config o o' (submit config now o w).1)
  unfolding submit new_order
  submit_cases config now id draft w =
      let o = new_order draft id now in
      (
        λ r. rw (refused o w.orders r, inserted) refl,
        λ a.
            let e = accepted o w.orders a in
            let (_, fresh) = insert_row_eq o w.orders _ e in
            let w' = log (log_submitted o) (record w { orders = w.orders ++ o ∷ [] }) in
            rw (e, inserted)
              (
                _,
                refl,
                decide-status config now o w' config.guardrails refl
                    (find-append o.id w.orders o ∙ rw (fresh, eq_refl o.id) refl) refl refl,
              ),
      )

  -- A row that the table refuses raises and changes nothing. Any other submission returns the order
  -- as it is then stored: rejected if the guardrails refuse it; else filled, with the auto mark, if
  -- its notional is within a positive threshold and it is not critical; else pending.
  pub submit_outcome :
      (config : Config F) (now id : String) (draft : Draft F) (w : World F)
      → let o = new_order draft id now in
        ((is_accepted o w.orders ≡ false) × (submit config now o w ≡ (raised integrity_error, w)))
        ⊎ ((is_accepted o w.orders ≡ true)
            × ((o' : Order F) × ((submit config now o w).0 ≡ ok o')
                × IsDecided config o o' (submit config now o w).1))
  submit_outcome config now id draft w =
      let o = new_order draft id now in
      let cases = submit_cases config now id draft w in
      elim (Bool-cases (is_accepted o w.orders)) [
        | inl a ↦ inr (a, cases.1 a)
        | inr r ↦ inl (r, cases.0 r)
      ]

  -- Where the store has the default guardrails, an order that a submission fills is safe in the
  -- sense of the guardrails, is within a positive threshold, and is not critical.
  pub submit_filled-IsSafe :
      (threshold max_size : F) (sink : Bool) (now id : String) (draft : Draft F) (w : World F)
      (o' : Order F)
      → let o = new_order draft id now in
        let config : Config F = record {
          threshold = threshold;
          guardrails = some (guardrail_system max_size [] sink);
        } in
        (submit config now o w).0 ≡ ok o'
        → o'.status ≡ filled
        → IsSafe max_size (guardrail_view o)
          × (fl.lt nought threshold ≡ true)
          × (fl.le (notional o) threshold ≡ true)
          × (draft.critical ≡ false)
  unfolding new_order
  submit_filled-IsSafe threshold max_size sink now id draft w o' h f =
      elim (Bool-cases (is_accepted o w.orders)) [
        | inl a ↦
            let (o'', e, decided) = outcome.1 a in
            let same : o'' ≡ o' = ok-injective (sym e ∙ h) in
            let tests =
              filled_tests (is_allowed config.guardrails o) (is_auto threshold o)
                (sym decided.status_is ∙ (ap (λ q. q.status) same ∙ f)) in
            let auto =
              three_tests (fl.lt nought threshold) (fl.le (notional o) threshold) o.critical
                tests.1 in
            (
              (validate_order-IsSafe max_size sink (guardrail_view o)).0 tests.0,
              auto.0,
              auto.1,
              auto.2,
            )
        | inr r ↦ absurd (ok-ne-raised (sym h ∙ ap (λ p. p.0) (outcome.0 r)))
      ]
    where
      o : Order F
      o = new_order draft id now

      config : Config F
      config = record {
        threshold = threshold;
        guardrails = some (guardrail_system max_size [] sink);
      }

      outcome :
          (is_accepted o w.orders ≡ false → submit config now o w ≡ (raised integrity_error, w))
          × (is_accepted o w.orders ≡ true
              → (o' : Order F) × ((submit config now o w).0 ≡ ok o')
                × IsDecided config o o' (submit config now o w).1)
      outcome = submit_cases config now id draft w
