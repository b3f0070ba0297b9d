-- ===== src/Squad/Book/Mirror.antt =====
-- The book is a dict, its table mirrors it, and it holds long lots only.
use criptotrade.Base.{
  suc, ◌≡◌, sym, ap, ◌∙◌, String, Bool, true, false, Option, some, arith, if◌then◌else◌,
}
use criptotrade.Base.Dict.{lookup, insert, remove}
use criptotrade.Base.Dict.Keys.{
  IsDict, IsDict-remove, IsDict-replace, IsDict-insert, map-insert, map-remove, map-replace,
}
use criptotrade.Base.Dict.Values.{AllValues, AllValues-remove, AllValues-replace, AllValues-insert}
use criptotrade.Base.Float.{Float}
use criptotrade.Ledger.{log_position_closed}
use criptotrade.Squad.{Position, Desk}
use criptotrade.Squad.Breaker.Frame.{closes, closes-log_decision, record_trade_result-SameBook}
use criptotrade.Squad.Book.{row_of, rows_of, put, adjust, drop_lot, record_close}

module _ {F : Type 0} where
  abbrev pub IsLong : Position F → Type 0
  IsLong p = p.side ≡ "buy"

  pub record IsSound (d : Desk F) : Type 0 where
    -- No two lots share an id.
    pub keys : IsDict d.open_positions
    -- The table has a row for each lot, with the lot's columns, and no other.
    pub mirror : d.position_rows ≡ rows_of d.open_positions
    pub long : AllValues IsLong d.open_positions

  pub IsSound-same :
      (d d' : Desk F)
      → d'.open_positions ≡ d.open_positions
      → d'.position_rows ≡ d.position_rows
      → IsSound d
      → IsSound d'
  IsSound-same d d' p r h = record {
    keys = rw p h.keys;
    mirror = r ∙ (h.mirror ∙ ap rows_of (sym p));
    long = rw p h.long;
  }

  pub IsSound-put :
      (oid : String) (p : Position F) (d : Desk F)
      → p.side ≡ "buy"
      → IsSound d
      → IsSound (put oid p d)
  unfolding put
  IsSound-put oid p d l h = record {
    keys = IsDict-insert oid p d.open_positions h.keys;
    mirror = ap (insert oid (row_of p)) h.mirror ∙ sym (map-insert row_of oid p d.open_positions);
    long = AllValues-insert IsLong oid p d.open_positions l h.long;
  }

  pub IsSound-drop_lot : (oid : String) (d : Desk F) → IsSound d → IsSound (drop_lot oid d)
  unfolding drop_lot
  IsSound-drop_lot oid d h = record {
    keys = IsDict-remove oid d.open_positions h.keys;
    mirror = ap (remove oid) h.mirror ∙ sym (map-remove row_of oid d.open_positions);
    long = AllValues-remove IsLong oid d.open_positions h.long;
  }

  pub IsSound-adjust :
      (oid : String) (q p : Position F) (d : Desk F)
      → lookup oid d.open_positions ≡ some q
      → p.side ≡ "buy"
      → IsSound d
      → IsSound (adjust oid p d)
  unfolding adjust
  IsSound-adjust oid q p d e l h = record {
    keys = IsDict-replace oid p d.open_positions h.keys;
    mirror =
        ap (insert oid (row_of p)) h.mirror ∙ sym (map-replace row_of oid q p d.open_positions e);
    long = AllValues-replace IsLong oid p d.open_positions l h.long;
  }

module _ {F : Type 0} ⦃fl : Float F⦄ where
  -- A close changes the book as the removal alone would.
  pub record_close-positions :
      (now : F) (oid : String) (p : Position F) (exit exit_fee entry_fee : F) (qty : Option F)
      (keep_open : Bool) (residual : Option F) (d : Desk F)
      → let d' = record_close now oid p exit exit_fee entry_fee qty keep_open residual d in
        (d'.open_positions ≡ (if keep_open then d.open_positions else remove oid d.open_positions))
        × (d'.position_rows ≡ (if keep_open then d.position_rows else remove oid d.position_rows))
  unfolding record_close drop_lot
  record_close-positions now oid p exit exit_fee entry_fee qty true residual d =
      let s = record_trade_result-SameBook now _ _ in (s.same_positions, s.same_rows)
  record_close-positions now oid p exit exit_fee entry_fee qty false residual d =
      let s = record_trade_result-SameBook now _ _ in (s.same_positions, s.same_rows)

  pub record_close-IsSound :
      (now : F) (oid : String) (p : Position F) (exit exit_fee entry_fee : F) (qty : Option F)
      (residual : Option F) (d : Desk F)
      → IsSound d
      → IsSound (record_close now oid p exit exit_fee entry_fee qty false residual d)
  unfolding drop_lot
  record_close-IsSound now oid p exit exit_fee entry_fee qty residual d h =
      let (positions, rows) =
        record_close-positions now oid p exit exit_fee entry_fee qty false residual d in
      IsSound-same (drop_lot oid d) _ positions rows (IsSound-drop_lot oid d h)

  pub adjust-IsSound :
      (now : F) (oid : String) (p q : Position F) (exit exit_fee entry_fee : F) (qty : Option F)
      (residual : Option F) (d : Desk F)
      → lookup oid d.open_positions ≡ some p
      → q.side ≡ "buy"
      → IsSound d
      → IsSound (adjust oid q (record_close now oid p exit exit_fee entry_fee qty true residual d))
  adjust-IsSound now oid p q exit exit_fee entry_fee qty residual d e l h =
      let (positions, rows) =
        record_close-positions now oid p exit exit_fee entry_fee qty true residual d in
      IsSound-adjust oid p q _ (rw positions e) l (IsSound-same d _ positions rows h)

  -- A close adds one entry to the ledger's account of closes.
  pub record_close-closes :
      (now : F) (oid : String) (p : Position F) (exit exit_fee entry_fee : F) (qty : Option F)
      (keep_open : Bool) (residual : Option F) (d : Desk F)
      → closes (record_close now oid p exit exit_fee entry_fee qty keep_open residual d).ledger
        ≡ suc (closes d.ledger)
  unfolding record_close drop_lot log_position_closed
  record_close-closes now oid p exit exit_fee entry_fee qty true residual d =
      (record_trade_result-SameBook now _ _).same_closes
      ∙ (closes-log_decision "position_closed" _ d.ledger ∙ omega arith)
  record_close-closes now oid p exit exit_fee entry_fee qty false residual d =
      (record_trade_result-SameBook now _ _).same_closes
      ∙ (closes-log_decision "position_closed" _ d.ledger ∙ omega arith)
