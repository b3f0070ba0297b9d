-- ===== src/Orders/Fills.antt =====
-- The ledger against the table: each filled order has one fill entry, and no other order has any.
use mathlib.Core.Option
use mathlib.Core.Path.{subst}
use criptotrade.Base.{
  ℕ, ◌+◌, ◌≡◌, refl, sym, ap, ◌∙◌, String, ◌==◌, eq_iff, Bool, true, false, ◌&&◌, Option, none,
  some, List, [], ◌∷◌, ◌++◌, arith, if◌then◌else◌, Bool-cases, inl, inr, keep, length,
}
use criptotrade.Base.Dict.{Dict, lookup}
use criptotrade.Base.Float.{Float}
use criptotrade.Ledger.{Entry, Ledger, log_process_event, log_hitl_approval, log_fill}
use criptotrade.Ledger.Payload.{Json, str}
use criptotrade.Orders.{Status, pending, approved, filled, is_status, Order}
use criptotrade.Orders.Table.{
  fill_columns, is_fillable, find, update, fill, fill_count, IsTable, find-update, find-fill,
  find-append, IsTable-append, IsTable-update, IsTable-fill, fill_count-find, id-find,
}
use criptotrade.Orders.Store.{World, log_fill_events}

abbrev is_text : {F : Type 0} → String → Option (Json F) → Bool
is_text s (some (str t)) = t == s
is_text s v = false

pub no_fill : (b : Bool) (n : ℕ) → n ≡ n + (if b then 0 else 0)
no_fill b n = ground arith

approved_open : (s : Status) → is_status s approved ≡ true → is_status s filled ≡ false
approved_open s h = ground arith

pub and_right : (a b : Bool) → (a && b) ≡ true → b ≡ true
and_right a b h = ground arith

pub not_filled : (s : Status) → is_status s pending ≡ true → is_status s filled ≡ false
not_filled s h = ground arith

module _ {F : Type 0} where
  abbrev is_fill_of : String → Entry F → Bool
  is_fill_of id e = e.event_type == "order_fill" && is_text id (lookup "order_id" e.payload)

  -- How many fill entries the ledger has for an order.
  unfoldable pub fills : String → Ledger F → ℕ
  unfolding lookup
  fills id l = length (keep (is_fill_of id) l)

  abbrev pub filled_count : Option (Order F) → ℕ
  filled_count none = 0
  filled_count (some o) = if is_status o.status filled then 1 else 0

  pub record IsBooked (w : World F) : Type 0 where
    pub table : IsTable w.orders
    pub booked : (id : String) → fills id w.ledger ≡ filled_count (find id w.orders)

  pub fills-append :
      (id : String) (l : Ledger F) (e : Entry F)
      → fills id (l ++ e ∷ []) ≡ fills id l + (if is_fill_of id e then 1 else 0)
  unfolding fills
  fills-append id [] e = ground arith
  fills-append id (x ∷ l) e = ground (arith, fills-append id l e)

  pub fills-process_event :
      (id case_id activity actor : String) (attributes : Dict (Json F)) (l : Ledger F)
      → fills id (log_process_event case_id activity actor attributes l) ≡ fills id l
  unfolding log_process_event
  fills-process_event id c a b d l = fills-append id l _ ∙ omega arith

  pub fills-hitl_approval :
      (id : String) (approved : Bool) (order : Json F) (user : String) (l : Ledger F)
      → fills id (log_hitl_approval approved order user l) ≡ fills id l
  unfolding log_hitl_approval
  fills-hitl_approval id d o u l = fills-append id l _ ∙ omega arith

  pub at_own_id :
      (id : String) (rows : List (Order F)) (o : Order F)
      → find id rows ≡ some o
      → find o.id rows ≡ some o
  at_own_id id rows o e = subst (λ i. find i rows ≡ some o) (sym (id-find id rows o e)) e

  filled_count-update :
      (rows : List (Order F)) (o n : Order F) (j : String)
      → find n.id rows ≡ some o
      → filled_count (find j (update n rows))
        ≡ (if n.id == j then filled_count (some n) else filled_count (find j rows))
  filled_count-update rows o n j e = elim (Bool-cases (n.id == j)) [
    | inl same ↦ rw (find-update j n rows, same, at_id same) refl
    | inr other ↦ rw (find-update j n rows, other) (unchanged (find j rows))
  ]
    where
      at_id : (n.id == j) ≡ true → find j rows ≡ some o
      at_id same = subst (λ i. find i rows ≡ some o) ((eq_iff n.id j).0 same) e

      unchanged : (r : Option (Order F)) → filled_count (Option.map (λ row. row) r) ≡ filled_count r
      unchanged none = refl
      unchanged (some r) = refl

  -- A write to a row that was not filled, with the fill entries that it adds.
  pub IsBooked-write :
      (w : World F) (o n : Order F) (ledger : Ledger F) (alerts : List String)
      → IsBooked w
      → find n.id w.orders ≡ some o
      → is_status o.status filled ≡ false
      → ((j : String)
          → fills j ledger ≡ fills j w.ledger + (if n.id == j then filled_count (some n) else 0))
      → IsBooked (record { orders = update n w.orders; ledger = ledger; alerts = alerts })
  IsBooked-write w o n ledger alerts h e open_row adds = record {
    table = IsTable-update n w.orders h.table;
    booked = λ j.
        adds j
        ∙ (ap (λ k. k + (if n.id == j then filled_count (some n) else 0)) (h.booked j)
            ∙ (counts j ∙ sym (filled_count-update w.orders o n j e)));
  }
    where
      counts :
          (j : String)
          → filled_count (find j w.orders) + (if n.id == j then filled_count (some n) else 0)
            ≡ (if n.id == j then filled_count (some n) else filled_count (find j w.orders))
      counts j = elim (Bool-cases (n.id == j)) [
        | inl same ↦
            rw (same, subst (λ i. find i w.orders ≡ some o) ((eq_iff n.id j).0 same) e, open_row)
              (omega arith)
        | inr other ↦ rw other (omega arith)
      ]

  pub IsBooked-append :
      (w : World F) (o : Order F) (ledger : Ledger F)
      → IsBooked w
      → find o.id w.orders ≡ none
      → is_status o.status filled ≡ false
      → ((j : String) → fills j ledger ≡ fills j w.ledger)
      → IsBooked (record w { orders = w.orders ++ o ∷ []; ledger = ledger })
  IsBooked-append w o ledger h fresh open_row same_fills = record {
    table = IsTable-append w.orders o h.table fresh;
    booked = λ j. same_fills j ∙ (h.booked j ∙ counts j);
  }
    where
      seen :
          (j : String) (r : Option (Order F))
          → filled_count r
            ≡ filled_count (elim r [ none ↦ if o.id == j then some o else none | some q ↦ some q ])
      seen j none = ground arith
      seen j (some q) = refl

      counts :
          (j : String) → filled_count (find j w.orders) ≡ filled_count (find j (w.orders ++ o ∷ []))
      counts j = rw (find-append j w.orders o) (seen j (find j w.orders))

  -- The fill entry that `mark_filled` owes to the row that is found.
  abbrev newly : String → Option (Order F) → ℕ
  newly id none = 0
  newly id (some r) = if is_fillable id r then 1 else 0

  filled_count-fill :
      (id now : String) (r : Option (Order F))
      → filled_count
          (Option.map (λ row. if is_fillable id row then fill_columns now row else row) r)
        ≡ filled_count r + newly id r
  filled_count-fill id now none = refl
  filled_count-fill id now (some r) = elim (Bool-cases (is_fillable id r)) [
    | inl e ↦
        rw (e, approved_open r.status (and_right (r.id == id) (is_status r.status approved) e)) refl
    | inr e ↦ rw e (omega arith)
  ]

  newly-find :
      (id j : String) (rows : List (Order F))
      → IsTable rows
      → newly id (find j rows) ≡ (if id == j then fill_count id rows else 0)
  newly-find id j rows h = rw (fill_count-find id rows h) (elim (Bool-cases (id == j)) [
    | inl same ↦ rw (same, sym ((eq_iff id j).0 same)) (at_id (find id rows) refl)
    | inr other ↦ rw other (elsewhere (find j rows) refl other)
  ])
    where
      at_id :
          (r : Option (Order F))
          → find id rows ≡ r
          → newly id r
            ≡ elim r [ none ↦ 0 | some row ↦ if is_status row.status approved then 1 else 0 ]
      at_id none e = refl
      at_id (some r) e = ground (arith, id-find id rows r, eq_iff r.id id)

      elsewhere : (r : Option (Order F)) → find j rows ≡ r → (id == j) ≡ false → newly id r ≡ 0
      elsewhere none e other = refl
      elsewhere (some r) e other = ground (arith, id-find j rows r, eq_iff r.id id, eq_iff id j)

  -- The statement of `mark_filled`, with the fill entries that go with it.
  pub IsBooked-fill :
      (id now : String) (w : World F) (ledger : Ledger F)
      → IsBooked w
      → ((j : String)
          → fills j ledger ≡ fills j w.ledger + (if id == j then fill_count id w.orders else 0))
      → IsBooked (record w { orders = fill id now w.orders; ledger = ledger })
  IsBooked-fill id now w ledger h adds = record {
    table = IsTable-fill id now w.orders h.table;
    booked = λ j.
        rw
          (
            find-fill id now j w.orders,
            filled_count-fill id now (find j w.orders),
            newly-find id j w.orders h.table,
            adds j,
            h.booked j,
          )
          refl;
  }

module _ {F : Type 0} ⦃fl : Float F⦄ where
  pub fills-fill :
      (id order_id symbol side : String) (price quantity fee : F) (strategy : Option String)
      (agent : String) (l : Ledger F)
      → fills id (log_fill order_id symbol side price quantity fee strategy agent l)
        ≡ fills id l + (if order_id == id then 1 else 0)
  unfolding log_fill lookup
  fills-fill id o s d p q e t a l = fills-append id l _

  pub fills-log_fill_events :
      (j : String) (o : Order F) (operator : String) (w : World F)
      → fills j (log_fill_events o operator w).ledger
        ≡ fills j w.ledger + (if o.id == j then 1 else 0)
  unfolding log_fill_events
  fills-log_fill_events j o operator w =
      rw (fills-process_event, fills-fill, fills-hitl_approval) refl
