-- ===== src/Orders/Waiting.antt =====
-- What the loop learns from waiting, whatever the other processes do meanwhile.
use criptotrade.Base.{
  ℕ, zero, suc, ◌≡◌, ◌≢◌, ◌⊎◌, refl, sym, ap, ◌∙◌, String, Bool, ◌||◌, true, false, Option, none,
  some, arith, Bool-cases, Option-cases, inl, inr, eq_iff,
}
use criptotrade.Base.Float.{Float, nought}
use criptotrade.Orders.{Status, pending, filled, rejected, cancelled, is_status, Order, new_order}
use criptotrade.Orders.Table.{find, find-update, id-find, update}
use criptotrade.Orders.Store.{
  integrity_error, Error, World, Config, Result, ok, raised, get, cancel, cancel_found, submit,
}
use criptotrade.Orders.Table.{is_accepted}
use criptotrade.Orders.{Draft}
use criptotrade.Orders.Gate.{submit_cases}
use criptotrade.Orders.Bridge.{
  settle, answer, after_poll, poll, Signal, wait_for_decision, signal_price, signal_quantity,
  signal_draft, await_order, approval_handler,
}

poll_of_other : (s : Status) → is_status s pending ≡ false → answer s ≢ none
poll_of_other s h e = ground arith

raised-ne-ok : {A : Type 0} {a : A} {e : Error} → raised e ≡ ok a → ⊥
raised-ne-ok e = cc

no_id : {i : String} → ◌≡◌ {A = Result (Option String)} (ok none) (ok (some i)) → ⊥
no_id e = cc

ok-injective : {A : Type 0} {a b : A} → ok a ≡ ok b → a ≡ b
ok-injective e = cc

or_false : (a b : Bool) → (a || b) ≡ false → (a ≡ false) × (b ≡ false)
or_false a b h = (ground arith, ground arith)

module _ {F : Type 0} ⦃fl : Float F⦄ where
  poll-cancel :
      (now id reason : String) (w : World F) → poll (get id (cancel now id reason w).1) ≢ none
  unfolding cancel
  poll-cancel now id reason w = elim (Option-cases (find id w.orders)) [
    | inl missing ↦ rw (missing, cancel_found) (λ p. cc (ap poll missing, p))
    | inr (o, e) ↦
        rw (e, cancel_found)
          (elim (Bool-cases (is_status o.status pending)) [
            | inl p ↦ rw p (λ q. cc (ap poll (found_cancelled o e), q))
            | inr p ↦ rw p (λ q. poll_of_other o.status p (sym (ap poll e) ∙ q))
          ])
  ]
    where
      found_cancelled :
          (o : Order F)
          → find id w.orders ≡ some o
          → find id (
              update
                (record o {
                  status = cancelled;
                  operator_note = some reason;
                  resolved_at = some now;
                })
                w.orders)
            ≡ some (record o {
              status = cancelled;
              operator_note = some reason;
              resolved_at = some now;
            })
      found_cancelled o e =
          find-update id
            (record o { status = cancelled; operator_note = some reason; resolved_at = some now })
            w.orders
          ∙ rw (e, (eq_iff o.id id).1 (id-find id w.orders o e)) refl

  wait_outcome :
      (now id : String) (env : ℕ → World F → World F) (rounds : ℕ) (w : World F)
      → let (b, w') = wait_for_decision now id env rounds w in
        (b ≡ true → poll (get id w') ≡ some true) × (poll (get id w') ≢ none)
  unfolding wait_for_decision
  wait_outcome now id env zero w = (λ e. cc, poll-cancel now id "decision_timeout" w)
  wait_outcome now id env (suc rounds) w = elim (Option-cases (poll (get id w))) [
    | inl open_order ↦ rw (open_order, after_poll) (wait_outcome now id env rounds (env rounds w))
    | inr (b, e) ↦ rw (e, after_poll) (λ t. e ∙ ap some t, λ p. cc (e, p))
  ]

  -- Whatever the other processes do between the polls, and however many polls there are: when the
  -- wait returns, the order is not pending; and the wait has returned false, or else the order is
  -- approved or filled in the tables.
  pub wait_fail_closed :
      (now id : String) (env : ℕ → World F → World F) (rounds : ℕ) (w : World F)
      → let (b, w') = wait_for_decision now id env rounds w in
        (poll (get id w') ≢ none) × ((b ≡ false) ⊎ (poll (get id w') ≡ some true))
  wait_fail_closed now id env rounds w =
      let (confirmed, decided) = wait_outcome now id env rounds w in
      (
        decided,
        elim (Bool-cases (wait_for_decision now id env rounds w).0) [
          | inl t ↦ inr (confirmed t)
          | inr t ↦ inl t
        ],
      )

  settle_id :
      (s : Status) (id i : String) (w : World F) (waited : Bool × World F) (o : Order F)
      → get id w ≡ some o
      → o.status ≡ s
      → (waited.0 ≡ true → poll (get id waited.1) ≡ some true)
      → (settle s id w waited).0 ≡ ok (some i)
      → (i ≡ id) × (poll (get id (settle s id w waited).1) ≡ some true)
  unfolding settle
  settle_id filled id i w waited o e st k h = (cc, ap poll e ∙ ap answer st)
  settle_id rejected id i w waited o e st k h = absurd (no_id h)
  settle_id cancelled id i w waited o e st k h = absurd (no_id h)
  settle_id s id i w (true, w') o e st k h = (cc, k refl)
  settle_id s id i w (false, w') o e st k h = absurd (no_id h)

  await_order_id :
      (now id i : String) (env : ℕ → World F → World F) (rounds : ℕ) (o : Order F)
      (r : Result (Order F) × World F)
      → r.0 ≡ ok o
      → get id r.1 ≡ some o
      → o.id ≡ id
      → (await_order now env rounds r).0 ≡ ok (some i)
      → (i ≡ id) × (poll (get id (await_order now env rounds r).1) ≡ some true)
  unfolding await_order
  await_order_id now id i env rounds o (raised x, w) e stored same h = absurd (raised-ne-ok e)
  await_order_id now id i env rounds o (ok p, w) e stored same h =
      let p_is : p ≡ o = ok-injective e in
      let p_id : p.id ≡ id = ap (λ q. q.id) p_is ∙ same in
      rw p_id (
        settle_id p.status id i w (wait_for_decision now id env rounds w) o stored
          (ap (λ q. q.status) (sym p_is)) (wait_outcome now id env rounds w).0 (rw p_id at h))

  not_raised :
      (now i : String) (env : ℕ → World F → World F) (rounds : ℕ) (w : World F)
      (r : Result (Order F) × World F) (e : Error)
      → r ≡ (raised e, w)
      → (await_order now env rounds r).0 ≡ ok (some i)
      → ⊥
  unfolding await_order
  not_raised now i env rounds w r e p h =
      raised-ne-ok
        (sym (ap (λ (q : Result (Order F) × World F). (await_order now env rounds q).0) p) ∙ h)

  submitted_id :
      (config : Config F) (id now i : String) (env : ℕ → World F → World F) (rounds : ℕ)
      (draft : Draft F) (w : World F)
      → (await_order now env rounds (submit config now (new_order draft id now) w)).0 ≡ ok (some i)
      → (i ≡ id)
        × (poll
              (get id (await_order now env rounds (submit config now (new_order draft id now) w)).1)
            ≡ some true)
  unfolding new_order
  submitted_id config id now i env rounds draft w h =
      let sent = submit config now (new_order draft id now) w in
      let outcome = submit_cases config now id draft w in
      elim (Bool-cases (is_accepted (new_order draft id now) w.orders)) [
        | inl a ↦
            let (o', e, decided) = outcome.1 a in
            await_order_id now id i env rounds o' sent e decided.stored decided.same_id h
        | inr r ↦ absurd (not_raised now i env rounds w sent integrity_error (outcome.0 r) h)
      ]

  -- If the handler returns an id, it is the new order's, the order had a quantity and a price above
  -- zero, and it is approved or filled in the tables, whatever the other processes did meanwhile.
  pub approval_handler_id :
      (config : Config F) (capital : F) (id now : String) (env : ℕ → World F → World F) (rounds : ℕ)
      (s : Signal F) (w : World F) (i : String)
      → (approval_handler config capital id now env rounds s w).0 ≡ ok (some i)
      → (i ≡ id)
        × (fl.le (signal_quantity capital s) nought ≡ false)
        × (fl.le (signal_price s) nought ≡ false)
        × (poll (get id (approval_handler config capital id now env rounds s w).1) ≡ some true)
  unfolding approval_handler
  approval_handler_id config capital id now env rounds s w i h =
      elim (Bool-cases
        (fl.le (signal_quantity capital s) nought || fl.le (signal_price s) nought)) [
          | inl u ↦ absurd (no_id (rw u at h))
          | inr u ↦
              let (q, p) = or_false _ _ u in
              let (same, decided) =
                submitted_id config id now i env rounds (signal_draft capital s) w (rw u at h) in
              (same, q, p, rw u decided)
        ]
