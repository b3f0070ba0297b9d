-- ===== src/Squad/Book/Fill.antt =====
-- How a fill meets the book, and how the price closes lots: `_match_or_open` and
-- `_check_open_positions` of src/orchestration/squad_orchestrator.py.
use criptotrade.Base.{
  String, ◌==◌, Bool, true, false, ◌&&◌, Option, none, some, List, [], ◌∷◌, if◌then◌else◌, keep,
  is_empty,
}
use criptotrade.Base.Float.{Float, nought, min}
use criptotrade.Ledger.{log_decision}
use criptotrade.Ledger.Payload.{str, num}
use criptotrade.Guardrails.{or_nought}
use criptotrade.Squad.{Position, Desk}
use criptotrade.Squad.Book.{Match, put, adjust, sort_by_age, eps, exit_price, record_close}

-- The side that a fill nets against.
abbrev pub opposite : String → String
opposite side = if side == "buy" then "sell" else "buy"

module _ {F : Type 0} ⦃fl : Float F⦄ where
  abbrev pub is_candidate : String → String → String × Position F → Bool
  is_candidate symbol side (oid, p) = p.symbol == symbol && p.side == opposite side

  -- The oldest lots first, until the quantity is used up; and what is left of it.
  unfoldable pub plan_matches : List (String × Position F) → F → List (Match F) × F
  plan_matches [] remaining = ([], remaining)
  plan_matches ((oid, p) ∷ candidates) remaining =
      let matched = min remaining p.quantity in
      let (plan, left) = plan_matches candidates (fl.sub remaining matched) in
      if fl.le remaining eps then ([], remaining) else (
        record {
          oid = oid;
          lot = p;
          matched = matched;
          is_full = fl.le (fl.sub p.quantity eps) matched;
        }
            ∷ plan,
        left,
      )

  -- `x * (part / whole) if whole else 0.0`
  abbrev pub pro_rata : F → F → F → F
  pro_rata x part whole = if fl.is_zero whole then nought else fl.mul x (fl.div part whole)

  -- What a partial close leaves of a lot.
  abbrev pub shrink : Position F → F → Position F
  shrink p matched =
      let left = fl.sub p.quantity matched in
      record p {
        quantity = left;
        entry_fee = some (fl.mul (or_nought p.entry_fee) (fl.div left p.quantity));
      }

  unfoldable pub apply_match : F → F → F → F → Option F → Match F → Desk F → Desk F
  apply_match now price quantity fee residual_dropped m d =
      let exit_fee = pro_rata fee m.matched quantity in
      let entry_fee = pro_rata (or_nought m.lot.entry_fee) m.matched m.lot.quantity in
      if m.is_full
      then record_close now m.oid m.lot price exit_fee entry_fee (some m.lot.quantity) false
          residual_dropped d
      else adjust m.oid (shrink m.lot m.matched) (
          record_close now m.oid m.lot price exit_fee entry_fee (some m.matched) true
            residual_dropped d)

  -- The residual is booked on the last close.
  unfoldable pub apply_plan : F → F → F → F → Option F → List (Match F) → Desk F → Desk F
  apply_plan now price quantity fee residual_dropped [] d = d
  apply_plan now price quantity fee residual_dropped (m ∷ plan) d =
      apply_plan now price quantity fee residual_dropped plan
        (apply_match now price quantity fee (if is_empty plan then residual_dropped else none) m d)

  abbrev pub log_dropped : String → String → F → Desk F → Desk F
  log_dropped symbol order_id residual d = record d {
    ledger =
        log_decision "sell_residual_dropped"
          (("symbol", str symbol)
            ∷ ("order_id", str order_id)
            ∷ ("quantity", num residual)
            ∷ ("reason", str "no_inventory")
            ∷ [])
          d.ledger;
  }

  -- The new lot, or the note that nothing could be sold.
  unfoldable pub open_residual :
      String → String → String → Position F → F → List (Match F) → Desk F → Desk F
  open_residual symbol side order_id p residual plan d =
      if fl.lt eps residual
      then if side == "buy"
        then put order_id p d
        else if is_empty plan
        then log_dropped symbol order_id residual d
        else d
      else d

  -- `_match_or_open`; the clock gives a number and a text.
  unfoldable pub match_or_open :
      F → String → String → String → F → F → F → String → Option F → Option F → Desk F → Desk F
  match_or_open now opened_at symbol side price quantity fee order_id stop_loss take_profit d =
      let candidates = sort_by_age (keep (is_candidate symbol side) d.open_positions) in
      let (plan, remaining) = plan_matches candidates quantity in
      let residual = if fl.lt eps remaining then remaining else nought in
      let drop_on_close : Option F =
        if side == "sell" && fl.lt eps residual then some residual else none in
      let new_pos : Position F = record {
        symbol = symbol;
        side = side;
        entry_price = price;
        quantity = residual;
        stop_loss = stop_loss;
        take_profit = take_profit;
        entry_fee = some (pro_rata fee residual quantity);
        opened_at = opened_at;
      } in
      open_residual symbol side order_id new_pos residual plan
        (apply_plan now price quantity fee drop_on_close plan d)

  -- The lots of a symbol that the price closes, and at which level.
  unfoldable pub exits : String → F → List (String × Position F) → List (String × Position F × F)
  exits symbol price [] = []
  exits symbol price ((oid, p) ∷ lots) =
      let rest = exits symbol price lots in
      if p.symbol == symbol
      then elim (exit_price p price) [ none ↦ rest | some exit ↦ (oid, p, exit) ∷ rest ]
      else rest

  unfoldable pub close_all : F → List (String × Position F × F) → Desk F → Desk F
  close_all now [] d = d
  close_all now ((oid, p, exit) ∷ to_close) d =
      close_all now to_close (record_close now oid p exit nought nought none false none d)

  -- `_check_open_positions`
  unfoldable pub check_open_positions : F → F → String → Desk F → Desk F
  check_open_positions now current_price symbol d =
      close_all now (exits symbol current_price d.open_positions) d
