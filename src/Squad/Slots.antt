-- ===== src/Squad/Slots.antt =====
-- How many lots the book has, after each operation on it.
use criptotrade.Base.{
  ℕ, ◌+◌, ◌≤◌, ◌≡◌, refl, String, ◌==◌, Bool, true, false, Option, none, List, [], ◌∷◌, arith,
  if◌then◌else◌, Bool-cases, inl, inr, is_empty, length,
}
use criptotrade.Base.Dict.{Dict, length-remove-le, length-insert-le}
use criptotrade.Base.Dict.Keys.{length-replace}
use criptotrade.Base.Dict.Values.{AllValues}
use criptotrade.Base.Float.{Float}
use criptotrade.Squad.{Position, Desk}
use criptotrade.Squad.Book.{Match, put, adjust, eps, record_close}
use criptotrade.Squad.Book.Fill.{
  apply_match, apply_plan, open_residual, match_or_open, exits, close_all, check_open_positions,
}
use criptotrade.Squad.Book.Mirror.{IsLong, record_close-positions}
use criptotrade.Squad.Book.Plan.{plan_of}
use criptotrade.Squad.Pipeline.{side_quantity}

le_trans : (a b c : ℕ) → a ≤ b → b ≤ c → a ≤ c
le_trans a b c h k = omega (arith, h, k)

module _ {F : Type 0} where
  abbrev pub slots : Desk F → ℕ
  slots d = length d.open_positions

module _ {F : Type 0} ⦃fl : Float F⦄ where
  record_close-slots :
      (now : F) (oid : String) (p : Position F) (exit exit_fee entry_fee : F) (qty : Option F)
      (keep_open : Bool) (residual : Option F) (d : Desk F)
      → slots (record_close now oid p exit exit_fee entry_fee qty keep_open residual d) ≤ slots d
  record_close-slots now oid p exit exit_fee entry_fee qty true residual d =
      rw (record_close-positions now oid p exit exit_fee entry_fee qty true residual d).0
        (omega arith)
  record_close-slots now oid p exit exit_fee entry_fee qty false residual d =
      rw (record_close-positions now oid p exit exit_fee entry_fee qty false residual d).0
        (length-remove-le oid d.open_positions)

  apply_match-slots :
      (now price q fee : F) (r : Option F) (m : Match F) (d : Desk F)
      → slots (apply_match now price q fee r m d) ≤ slots d
  unfolding apply_match adjust
  apply_match-slots now price q fee r m d = elim (Bool-cases m.is_full) [
    | inl f ↦ rw f (record_close-slots now m.oid m.lot price _ _ _ false r d)
    | inr f ↦ rw (f, length-replace) (record_close-slots now m.oid m.lot price _ _ _ true r d)
  ]

  apply_plan-slots :
      (now price q fee : F) (r : Option F) (plan : List (Match F)) (d : Desk F)
      → slots (apply_plan now price q fee r plan d) ≤ slots d
  unfolding apply_plan
  apply_plan-slots now price q fee r [] d = omega arith
  apply_plan-slots now price q fee r (m ∷ plan) d =
      le_trans _ _ _ (apply_plan-slots now price q fee r plan _)
        (apply_match-slots now price q fee _ m d)

  open_residual-slots :
      (symbol side order_id : String) (p : Position F) (residual : F) (plan : List (Match F))
      (d : Desk F)
      → slots (open_residual symbol side order_id p residual plan d)
        ≤ slots d + (if side == "buy" then 1 else 0)
  unfolding open_residual put
  open_residual-slots symbol side order_id p residual plan d =
      elim (Bool-cases (fl.lt eps residual)) [
        | inl t ↦ rw t (elim (Bool-cases (side == "buy")) [
          | inl b ↦ rw b (omega (arith, length-insert-le order_id p d.open_positions))
          | inr b ↦ rw b (elim (Bool-cases (is_empty plan)) [
            | inl x ↦ rw x (omega arith)
            | inr x ↦ rw x (omega arith)
          ])
        ])
        | inr t ↦ rw t (omega arith)
      ]

  -- A fill opens at most one lot, and a fill that is no buy opens none.
  pub match_or_open-slots :
      (now : F) (opened_at symbol side : String) (price q fee : F) (order_id : String)
      (stop target : Option F) (d : Desk F)
      → slots (match_or_open now opened_at symbol side price q fee order_id stop target d)
        ≤ slots d + (if side == "buy" then 1 else 0)
  unfolding match_or_open
  match_or_open-slots now opened_at symbol side price q fee order_id stop target d =
      let plan = (plan_of symbol side q d.open_positions).0 in
      omega (
        arith,
        open_residual-slots symbol side order_id _ _ plan _,
        apply_plan-slots now price q fee _ plan d,
      )

  close_all-slots :
      (now : F) (to_close : List (String × Position F × F)) (d : Desk F)
      → slots (close_all now to_close d) ≤ slots d
  unfolding close_all
  close_all-slots now [] d = omega arith
  close_all-slots now ((oid, p, exit) ∷ to_close) d =
      le_trans _ _ _ (close_all-slots now to_close _)
        (record_close-slots now oid p exit _ _ _ false none d)

  pub check_open_positions-slots :
      (now price : F) (symbol : String) (d : Desk F)
      → slots (check_open_positions now price symbol d) ≤ slots d
  unfolding check_open_positions
  check_open_positions-slots now price symbol d =
      close_all-slots now (exits symbol price d.open_positions) d

  -- Where every lot is long, there is nothing on the other side.
  pub no_shorts :
      (symbol : String) (book : Dict (Position F)) (total : F)
      → AllValues IsLong book
      → side_quantity symbol "sell" book total ≡ total
  no_shorts symbol [] total h = refl
  no_shorts symbol ((oid, p) ∷ book) total h = elim (Bool-cases (p.symbol == symbol)) [
    | inl e ↦ rw (e, h.0) (no_shorts symbol book total h.1)
    | inr e ↦ rw e (no_shorts symbol book total h.1)
  ]
