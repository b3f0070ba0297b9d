-- ===== src/Orders/Lifecycle.antt =====
-- Every operation of the store, and every sequence of operations of the processes.
use criptotrade.Base.{
  ℕ, ◌≡◌, ap, refl, ◌⊎◌, ◌∙◌, String, Bool, ◌&&◌, not, true, false, Option, none, some, List, [],
  ◌∷◌, ◌++◌, arith, if◌then◌else◌, Bool-cases, Option-cases, inl, inr,
}
use criptotrade.Base.Float.{Float, nought}
use criptotrade.Orders.{pending, is_status, notional, guardrail_view, Draft, Order, new_order}
use criptotrade.Orders.Table.{find, update, insert_row}
use criptotrade.Guardrails.{GuardrailSystem, validate_order}
use criptotrade.Orders.Store.{
  cancel_found, approve_order, reject_order, succeed, log, log_submitted, log_filled, World, Config,
  auto_approve, do_fill, log_fill_events, decide, reject_by_risk, inserted, resolve_found, submit,
  resolve, mark_filled, cancel,
}
use criptotrade.Orders.Rows.{
  is_final, Keeps, Follows, Follows-refl, Follows-fill, Follows-inserted, Follows-decided,
}

module _ {F : Type 0} ⦃fl : Float F⦄ where
  pub insert_row_eq :
      (o : Order F) (rows rows' : List (Order F))
      → insert_row o rows ≡ some rows'
      → (rows' ≡ rows ++ o ∷ []) × (find o.id rows ≡ none)
  unfolding insert_row
  insert_row_eq o rows rows' h = (ground arith, ground arith)

  auto_approve-orders :
      (config : Config F) (now : String) (o : Order F) (w : World F)
      → let (o', w') = auto_approve config now o w in
        (o'.id ≡ o.id) × ((w'.orders ≡ w.orders) ⊎ (w'.orders ≡ update o' w.orders))
  unfolding auto_approve do_fill log_fill_events
  auto_approve-orders config now o w =
      elim (Bool-cases
        (fl.lt nought config.threshold && fl.le (notional o) config.threshold && not o.critical)) [
          | inl e ↦ rw e (refl, inr refl)
          | inr e ↦ rw e (refl, inl refl)
        ]

  decide-orders :
      (g : Option (GuardrailSystem F)) (config : Config F) (now : String) (o : Order F)
      (w : World F)
      → let (o', w') = decide g config now o w in
        (o'.id ≡ o.id) × ((w'.orders ≡ w.orders) ⊎ (w'.orders ≡ update o' w.orders))
  unfolding decide reject_by_risk
  decide-orders none config now o w = auto_approve-orders config now o w
  decide-orders (some g) config now o w =
      elim (Bool-cases (validate_order g (guardrail_view o)).0) [
        | inl e ↦ rw e (auto_approve-orders config now o _)
        | inr e ↦ rw e (refl, inr refl)
      ]

  Follows-submit :
      (config : Config F) (now : String) (o : Order F) (w : World F)
      → Follows w.orders (submit config now o w).1.orders
  unfolding submit
  Follows-submit config now o w = elim (Option-cases (insert_row o w.orders)) [
    | inl refused ↦ rw (refused, inserted) (Follows-refl w.orders)
    | inr (rows, e) ↦
        let w' = log (log_submitted o) (record w { orders = rows }) in
        let (same, writes) = decide-orders config.guardrails config now o w' in
        rw (e, inserted)
          (Follows-inserted w.orders rows _ o _ (insert_row_eq o w.orders rows e) same writes)
  ]

  Follows-decision :
      (now operator : String) (comment : Option String) (id : String) (w : World F) (o : Order F)
      → find id w.orders ≡ some o
      → is_status o.status pending ≡ true
      → (d : Bool)
      → Follows w.orders
          (succeed (
            if d
            then approve_order now operator comment o w
            else reject_order now operator comment o w)).1.orders
  unfolding approve_order reject_order
  Follows-decision now operator comment id w o e p true =
      Follows-decided id w.orders o _ e refl p refl
  Follows-decision now operator comment id w o e p false =
      Follows-decided id w.orders o _ e refl p refl

  Follows-resolve :
      (now id : String) (d : Bool) (operator : String) (comment : Option String) (w : World F)
      → Follows w.orders (resolve now id d operator comment w).1.orders
  unfolding resolve
  Follows-resolve now id d operator comment w = elim (Option-cases (find id w.orders)) [
    | inl missing ↦ rw (missing, resolve_found) (Follows-refl w.orders)
    | inr (o, e) ↦
        rw (e, resolve_found)
          (elim (Bool-cases (is_status o.status pending)) [
            | inl p ↦ rw p (Follows-decision now operator comment id w o e p d)
            | inr p ↦ rw p (Follows-refl w.orders)
          ])
  ]

  pub log_filled-orders :
      (n : ℕ) (o : Option (Order F)) (operator : String) (w : World F)
      → (log_filled n o operator w).orders ≡ w.orders
  unfolding log_filled log_fill_events
  log_filled-orders n none operator w = refl
  log_filled-orders n (some o) operator w = ground arith

  Follows-mark_filled :
      (now id operator : String) (w : World F)
      → Follows w.orders (mark_filled now id operator w).1.orders
  unfolding mark_filled
  Follows-mark_filled now id operator w = rw log_filled-orders (Follows-fill id now w.orders)

  Follows-cancel :
      (now id reason : String) (w : World F) → Follows w.orders (cancel now id reason w).1.orders
  unfolding cancel
  Follows-cancel now id reason w = elim (Option-cases (find id w.orders)) [
    | inl missing ↦ rw (missing, cancel_found) (Follows-refl w.orders)
    | inr (o, e) ↦
        rw (e, cancel_found)
          (elim (Bool-cases (is_status o.status pending)) [
            | inl p ↦ rw p (Follows-decided id w.orders o _ e refl p refl)
            | inr p ↦ rw p (Follows-refl w.orders)
          ])
  ]

-- The calls that the API and the loop make, each as one step on the shared tables.
pub data Op (F : Type 0) : Type 0 where
  submit_order : Config F → String → Draft F → String → Op F
  resolve_order : String → String → Bool → String → Option String → Op F
  mark_order : String → String → String → Op F
  cancel_order : String → String → String → Op F

module _ {F : Type 0} ⦃fl : Float F⦄ where
  unfoldable pub step : Op F → World F → World F
  step (submit_order config now draft id) w = (submit config now (new_order draft id now) w).1
  step (resolve_order now id d operator comment) w = (resolve now id d operator comment w).1
  step (mark_order now id operator) w = (mark_filled now id operator w).1
  step (cancel_order now id reason) w = (cancel now id reason w).1

  unfoldable pub run : List (Op F) → World F → World F
  run [] w = w
  run (op ∷ ops) w = run ops (step op w)

  -- Whatever operation a process makes next, every stored order is still there, with the same
  -- terms; its status has stayed or moved along the diagram; and if it was filled, rejected or
  -- cancelled the row is unchanged.
  pub step-Keeps :
      (op : Op F) (w : World F) (id : String) (o : Order F)
      → find id w.orders ≡ some o
      → (o' : Order F) × (find id (step op w).orders ≡ some o') × Keeps o o'
  unfolding step
  step-Keeps (submit_order config now draft id) w =
      Follows-submit config now (new_order draft id now) w
  step-Keeps (resolve_order now id d operator comment) w =
      Follows-resolve now id d operator comment w
  step-Keeps (mark_order now id operator) w = Follows-mark_filled now id operator w
  step-Keeps (cancel_order now id reason) w = Follows-cancel now id reason w

  kept_final : (o o' : Order F) → Keeps o o' → is_final o.status ≡ true → o' ≡ o
  kept_final o o' k f = elim k.final_kept [ inl open_order ↦ cc (open_order, f) | inr same ↦ same ]

  -- A filled, rejected or cancelled order is final: no sequence of operations changes its row.
  pub run_final :
      (ops : List (Op F)) (w : World F) (id : String) (o : Order F)
      → find id w.orders ≡ some o
      → is_final o.status ≡ true
      → find id (run ops w).orders ≡ some o
  unfolding run
  run_final [] w id o h f = h
  run_final (op ∷ ops) w id o h f =
      let (o', h', k) = step-Keeps op w id o h in
      run_final ops (step op w) id o (h' ∙ ap some (kept_final o o' k f)) f
