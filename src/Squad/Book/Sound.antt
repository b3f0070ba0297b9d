-- ===== src/Squad/Book/Sound.antt =====
-- Fills and price checks keep the book sound, and account for every close.
use criptotrade.Base.{
  suc, ◌+◌, ◌≡◌, refl, ◌∙◌, String, ◌==◌, eq_iff, true, false, Option, none, some, List, [], ◌∷◌,
  arith, if◌then◌else◌, Bool-cases, inl, inr, is_empty, length,
}
use criptotrade.Base.Dict.{Dict, lookup}
use criptotrade.Base.Dict.Keys.{IsDict, Lists, Lists-remove, Lists-replace}
use criptotrade.Base.Dict.Values.{AllValues-lookup}
use criptotrade.Base.Float.{Float}
use criptotrade.Squad.{Position, Desk}
use criptotrade.Squad.Breaker.Frame.{closes, closes-log_decision}
use criptotrade.Squad.Book.{Match, put, adjust, eps}
use criptotrade.Squad.Book.Fill.{
  shrink, pro_rata, apply_match, apply_plan, open_residual, match_or_open, exits, close_all,
  check_open_positions,
}
use criptotrade.Squad.Book.Mirror.{
  IsLong, IsSound, IsSound-same, IsSound-put, record_close-positions, record_close-IsSound,
  adjust-IsSound, record_close-closes,
}
use criptotrade.Squad.Book.Plan.{lots_of, plan_of, plan_of-Lists}

module _ {F : Type 0} ⦃fl : Float F⦄ where
  apply_match-IsSound :
      (now price q fee : F) (r : Option F) (m : Match F) (d : Desk F)
      → lookup m.oid d.open_positions ≡ some m.lot
      → IsSound d
      → IsSound (apply_match now price q fee r m d)
  unfolding apply_match
  apply_match-IsSound now price q fee r m d e h = elim (Bool-cases m.is_full) [
    | inl f ↦ rw f (record_close-IsSound now m.oid m.lot price _ _ _ r d h)
    | inr f ↦ rw f (
        adjust-IsSound now m.oid m.lot (shrink m.lot m.matched) price _ _ _ r d e
          (AllValues-lookup IsLong m.oid m.lot d.open_positions e h.long) h)
  ]

  -- The lots that the rest of the plan closes are still in the book.
  apply_match-Lists :
      (now price q fee : F) (r : Option F) (m : Match F) (d : Desk F) (cs : Dict (Position F))
      → lookup m.oid cs ≡ none
      → Lists d.open_positions cs
      → Lists (apply_match now price q fee r m d).open_positions cs
  unfolding apply_match adjust
  apply_match-Lists now price q fee r m d cs n h =
      let exit_fee = pro_rata fee m.matched q in
      elim (Bool-cases m.is_full) [
        | inl f ↦ rw f (
            rw (record_close-positions now m.oid m.lot price _ _ _ false r d).0
              (Lists-remove m.oid d.open_positions cs n h))
        | inr f ↦ rw f (
            rw (record_close-positions now m.oid m.lot price _ _ _ true r d).0
              (Lists-replace m.oid (shrink m.lot m.matched) d.open_positions cs n h))
      ]

  apply_plan-IsSound :
      (now price q fee : F) (r : Option F) (plan : List (Match F)) (d : Desk F)
      → IsDict (lots_of plan)
      → Lists d.open_positions (lots_of plan)
      → IsSound d
      → IsSound (apply_plan now price q fee r plan d)
  unfolding apply_plan
  apply_plan-IsSound now price q fee r [] d k l h = h
  apply_plan-IsSound now price q fee r (m ∷ plan) d k l h =
      apply_plan-IsSound now price q fee r plan _ k.1
        (apply_match-Lists now price q fee _ m d (lots_of plan) k.0 l.1)
        (apply_match-IsSound now price q fee _ m d l.0 h)

  open_residual-IsSound :
      (symbol side order_id : String) (p : Position F) (residual : F) (plan : List (Match F))
      (d : Desk F)
      → p.side ≡ side
      → IsSound d
      → IsSound (open_residual symbol side order_id p residual plan d)
  unfolding open_residual
  open_residual-IsSound symbol side order_id p residual plan d e h =
      elim (Bool-cases (fl.lt eps residual)) [
        | inl t ↦ rw t (elim (Bool-cases (side == "buy")) [
          | inl b ↦ rw b (IsSound-put order_id p d (e ∙ (eq_iff side "buy").0 b) h)
          | inr b ↦ rw b (elim (Bool-cases (is_empty plan)) [
            | inl x ↦ rw x (IsSound-same d _ refl refl h)
            | inr x ↦ rw x h
          ])
        ])
        | inr t ↦ rw t h
      ]

  pub match_or_open-IsSound :
      (now : F) (opened_at symbol side : String) (price q fee : F) (order_id : String)
      (stop target : Option F) (d : Desk F)
      → IsSound d
      → IsSound (match_or_open now opened_at symbol side price q fee order_id stop target d)
  unfolding match_or_open
  match_or_open-IsSound now opened_at symbol side price q fee order_id stop target d h =
      let (plan, remaining) = plan_of symbol side q d.open_positions in
      let (k, l) = plan_of-Lists symbol side q d.open_positions h.keys in
      open_residual-IsSound symbol side order_id _ _ plan _ refl
        (apply_plan-IsSound now price q fee _ plan d k l h)

  close_all-IsSound :
      (now : F) (to_close : List (String × Position F × F)) (d : Desk F)
      → IsSound d
      → IsSound (close_all now to_close d)
  unfolding close_all
  close_all-IsSound now [] d h = h
  close_all-IsSound now ((oid, p, exit) ∷ to_close) d h =
      close_all-IsSound now to_close _ (record_close-IsSound now oid p exit _ _ _ none d h)

  pub check_open_positions-IsSound :
      (now price : F) (symbol : String) (d : Desk F)
      → IsSound d
      → IsSound (check_open_positions now price symbol d)
  unfolding check_open_positions
  check_open_positions-IsSound now price symbol d h =
      close_all-IsSound now (exits symbol price d.open_positions) d h

  apply_match-closes :
      (now price q fee : F) (r : Option F) (m : Match F) (d : Desk F)
      → closes (apply_match now price q fee r m d).ledger ≡ suc (closes d.ledger)
  unfolding apply_match adjust
  apply_match-closes now price q fee r m d = elim (Bool-cases m.is_full) [
    | inl f ↦ rw f (record_close-closes now m.oid m.lot price _ _ _ false r d)
    | inr f ↦ rw f (record_close-closes now m.oid m.lot price _ _ _ true r d)
  ]

  apply_plan-closes :
      (now price q fee : F) (r : Option F) (plan : List (Match F)) (d : Desk F)
      → closes (apply_plan now price q fee r plan d).ledger ≡ length plan + closes d.ledger
  unfolding apply_plan
  apply_plan-closes now price q fee r [] d = omega arith
  apply_plan-closes now price q fee r (m ∷ plan) d =
      apply_plan-closes now price q fee r plan _
      ∙ omega (arith, apply_match-closes now price q fee (if is_empty plan then r else none) m d)

  open_residual-closes :
      (symbol side order_id : String) (p : Position F) (residual : F) (plan : List (Match F))
      (d : Desk F)
      → closes (open_residual symbol side order_id p residual plan d).ledger ≡ closes d.ledger
  unfolding open_residual put
  open_residual-closes symbol side order_id p residual plan d =
      elim (Bool-cases (fl.lt eps residual)) [
        | inl t ↦ rw t (elim (Bool-cases (side == "buy")) [
          | inl b ↦ rw b refl
          | inr b ↦ rw b (elim (Bool-cases (is_empty plan)) [
            | inl x ↦ rw x (closes-log_decision "sell_residual_dropped" _ d.ledger ∙ omega arith)
            | inr x ↦ rw x refl
          ])
        ])
        | inr t ↦ rw t refl
      ]

  -- A fill books one close for each lot that its plan closes, in whole or in part, and no other.
  pub match_or_open-closes :
      (now : F) (opened_at symbol side : String) (price q fee : F) (order_id : String)
      (stop target : Option F) (d : Desk F)
      → closes (match_or_open now opened_at symbol side price q fee order_id stop target d).ledger
        ≡ length (plan_of symbol side q d.open_positions).0 + closes d.ledger
  unfolding match_or_open
  match_or_open-closes now opened_at symbol side price q fee order_id stop target d =
      open_residual-closes symbol side order_id _ _ (plan_of symbol side q d.open_positions).0 _
      ∙ apply_plan-closes now price q fee _ (plan_of symbol side q d.open_positions).0 d
