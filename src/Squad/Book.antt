-- ===== src/Squad/Book.antt =====
-- The paper position book of `SquadOrchestrator` in src/orchestration/squad_orchestrator.py, with its
-- mirror, `PositionStore` of src/orchestration/position_store.py.
pub mod Fill
pub mod Mirror
pub mod Plan
pub mod Sound
pub mod Quantity
pub mod Reload
use criptotrade.Base.{
  String, ◌==◌, Bool, true, false, not, ◌&&◌, Option, none, some, List, [], ◌∷◌, ◌++◌,
  if◌then◌else◌, keep, is_empty, map,
}
use criptotrade.Base.Text.{lower, truthy, text_le}
use criptotrade.Base.Dict.{Dict, insert, remove, replace}
use criptotrade.Base.Dict.Keys.{map_values}
use criptotrade.Base.Float.{Float, nought, one, hundred, neg, min}
use criptotrade.Ledger.{log_decision, log_position_closed}
use criptotrade.Ledger.Payload.{str, num}
use criptotrade.Guardrails.{or_nought}
use criptotrade.Squad.{Position, PositionRow, Desk}
use criptotrade.Squad.Breaker.{record_trade_result, reload_breaker}

-- A lot that a fill closes: its id, the lot, the quantity, and whether that is all of it.
pub record Match (F : Type 0) : Type 0 where
  pub oid : String
  pub lot : Position F
  pub matched : F
  pub is_full : Bool

module _ {F : Type 0} where
  abbrev pub row_of : Position F → PositionRow F
  row_of p = record {
    symbol = p.symbol;
    side = p.side;
    entry_price = p.entry_price;
    quantity = p.quantity;
    stop_loss = p.stop_loss;
    take_profit = p.take_profit;
    opened_at = p.opened_at;
  }

  abbrev pub from_row : PositionRow F → Position F
  from_row r = record {
    symbol = r.symbol;
    side = r.side;
    entry_price = r.entry_price;
    quantity = r.quantity;
    stop_loss = r.stop_loss;
    take_profit = r.take_profit;
    entry_fee = none;
    opened_at = r.opened_at;
  }

  -- The rows that mirror a book.
  abbrev pub rows_of : Dict (Position F) → Dict (PositionRow F)
  rows_of = map (map_values row_of)

  -- `load_all`
  abbrev pub load_all : Dict (PositionRow F) → Dict (Position F)
  load_all = map (map_values from_row)

  -- A new lot: the book's entry and `upsert`.
  unfoldable pub put : String → Position F → Desk F → Desk F
  put oid p d = record d {
    open_positions = insert oid p d.open_positions;
    position_rows = insert oid (row_of p) d.position_rows;
  }

  -- A lot that is changed in place, and `upsert`.
  unfoldable pub adjust : String → Position F → Desk F → Desk F
  adjust oid p d = record d {
    open_positions = replace oid p d.open_positions;
    position_rows = insert oid (row_of p) d.position_rows;
  }

  -- `pop` and `delete`
  unfoldable pub drop_lot : String → Desk F → Desk F
  drop_lot oid d = record d {
    open_positions = remove oid d.open_positions;
    position_rows = remove oid d.position_rows;
  }

  -- `sort(key=opened_at)`, stable
  unfoldable pub insert_by_age :
      String × Position F → List (String × Position F) → List (String × Position F)
  insert_by_age c [] = c ∷ []
  insert_by_age c (e ∷ cs) =
      if text_le c.1.opened_at e.1.opened_at then c ∷ e ∷ cs else e ∷ insert_by_age c cs

  unfoldable pub sort_by_age : List (String × Position F) → List (String × Position F)
  unfolding insert_by_age
  sort_by_age [] = []
  sort_by_age (c ∷ cs) = insert_by_age c (sort_by_age cs)

module _ {F : Type 0} ⦃fl : Float F⦄ where
  -- `reload_open_positions`
  unfoldable pub reload_open_positions : Desk F → Desk F
  reload_open_positions d =
      let restored = load_all d.position_rows in
      reload_breaker (if is_empty restored then d else record d { open_positions = restored })

  abbrev pub eps : F
  eps = fl.lit 1 9

  abbrev or_first : Option F → Option F → Option F
  or_first none b = b
  or_first (some a) b = some a

  -- The level, if it is set and reached.
  abbrev at_most : F → Option F → Option F
  at_most price none = none
  at_most price (some level) = if fl.le price level then some level else none

  abbrev at_least : F → Option F → Option F
  at_least price none = none
  at_least price (some level) = if fl.le level price then some level else none

  -- `_exit_price`
  unfoldable pub exit_price : Position F → F → Option F
  exit_price p price =
      if lower (if truthy p.side then p.side else "buy") == "buy"
      then or_first (at_most price p.stop_loss) (at_least price p.take_profit)
      else or_first (at_least price p.stop_loss) (at_most price p.take_profit)

  abbrev pub close_pnl : Position F → F → F → F → F
  close_pnl p exit qty fee =
      let direction = if p.side == "buy" then one else neg one in
      fl.sub (fl.mul (fl.mul direction (fl.sub exit p.entry_price)) qty) fee

  abbrev pub close_pnl_pct : Position F → F → F → F → F
  close_pnl_pct p exit qty fee =
      let entry_notional = fl.mul p.entry_price qty in
      if fl.is_zero entry_notional
      then nought
      else fl.mul (fl.div (close_pnl p exit qty fee) entry_notional) hundred

  -- `_record_close`
  unfoldable pub record_close :
      F → String → Position F → F → F → F → Option F → Bool → Option F → Desk F → Desk F
  unfolding drop_lot
  record_close now oid p exit exit_fee entry_fee closed_qty keep_open residual_dropped d =
      let qty : F = elim closed_qty [ none ↦ p.quantity | some q ↦ q ] in
      let fee = fl.add entry_fee exit_fee in
      let d' : Desk F = if keep_open then d else drop_lot oid d in
      let d'' : Desk F = record d' {
        ledger =
            log_position_closed oid p.symbol p.side p.entry_price exit qty fee (some p.opened_at)
              residual_dropped d'.ledger;
      } in
      record_trade_result now (close_pnl_pct p exit qty fee) d''
