-- ===== src/Orders/Table.antt =====
-- The SQL of src/hitl/orders.py on the table of migrations/001_orders_and_cycles.sql, as a list
-- of rows in the order of insertion.
use mathlib.Core.Option
use criptotrade.Base.{
  Bool-cases, inl, inr, ℕ, suc, ◌≡◌, refl, String, ◌==◌, eq_iff, Bool, not, ◌&&◌, ◌||◌, Option,
  none, some, List, [], ◌∷◌, ◌++◌, arith, if◌then◌else◌, is_some,
}
use criptotrade.Base.Float.{Float, nought}
use criptotrade.Orders.{approved, filled, is_status, Order}

-- `COALESCE(a, b)`
abbrev pub coalesce : Option String → String → Option String
coalesce none b = some b
coalesce (some a) b = some a

module _ {F : Type 0} where
  -- `SELECT * FROM orders WHERE id=?`
  unfoldable pub find : String → List (Order F) → Option (Order F)
  find id [] = none
  find id (o ∷ rows) = if o.id == id then some o else find id rows

  -- `_update`: the six columns that change.
  abbrev pub set_columns : Order F → Order F → Order F
  set_columns o row = record row {
    status = o.status;
    operator_note = o.operator_note;
    operator_id = o.operator_id;
    auto_approved = o.auto_approved;
    resolved_at = o.resolved_at;
    filled_at = o.filled_at;
  }

  unfoldable pub update : Order F → List (Order F) → List (Order F)
  update o [] = []
  update o (row ∷ rows) = (if row.id == o.id then set_columns o row else row) ∷ update o rows

  abbrev pub is_fillable : String → Order F → Bool
  is_fillable id row = row.id == id && is_status row.status approved

  abbrev pub fill_columns : String → Order F → Order F
  fill_columns now row = record row {
    status = filled;
    filled_at = some now;
    resolved_at = coalesce row.resolved_at now;
  }

  -- `UPDATE orders SET status='filled' … WHERE id=? AND status='approved'`
  unfoldable pub fill : String → String → List (Order F) → List (Order F)
  fill id now [] = []
  fill id now (row ∷ rows) =
      (if is_fillable id row then fill_columns now row else row) ∷ fill id now rows

  -- The row count of that statement.
  unfoldable pub fill_count : String → List (Order F) → ℕ
  fill_count id [] = 0
  fill_count id (row ∷ rows) =
      let rest = fill_count id rows in if is_fillable id row then suc rest else rest

  -- The primary key: no two rows have one id.
  abbrev pub IsTable : List (Order F) → Type 0
  IsTable [] = Unit {0}
  IsTable (row ∷ rows) = (find row.id rows ≡ none) × IsTable rows

module _ {F : Type 0} ⦃fl : Float F⦄ where
  -- The constraints of the table that an inserted row can break.
  abbrev pub is_accepted : Order F → List (Order F) → Bool
  is_accepted o rows =
      not (is_some (find o.id rows))
      && ((o.side == "buy" || o.side == "sell")
          && (fl.lt nought o.quantity && fl.lt nought o.price))

  -- `_insert`; `none` is an integrity error.
  unfoldable pub insert_row : Order F → List (Order F) → Option (List (Order F))
  insert_row o rows = if is_accepted o rows then some (rows ++ o ∷ []) else none

module _ {F : Type 0} where
  pub id-find :
      (id : String) (rows : List (Order F)) (o : Order F) → find id rows ≡ some o → o.id ≡ id
  unfolding find
  id-find id [] o h = cc
  id-find id (row ∷ rows) o h = ground (arith, id-find id rows o, eq_iff row.id id)

  pub find-update :
      (id : String) (o : Order F) (rows : List (Order F))
      → find id (update o rows)
        ≡ Option.map (λ row. if o.id == id then set_columns o row else row) (find id rows)
  unfolding find update
  find-update id o [] = refl
  find-update id o (r ∷ rows) = elim (Bool-cases (r.id == o.id)) [
    | inl e ↦ rw e (
        rw (find-update id o rows)
          (ground (arith, eq_iff r.id id, eq_iff r.id o.id, eq_iff o.id id)))
    | inr e ↦ rw e (
        rw (find-update id o rows)
          (ground (arith, eq_iff r.id id, eq_iff r.id o.id, eq_iff o.id id)))
  ]

  pub find-append :
      (id : String) (rows : List (Order F)) (o : Order F)
      → find id (rows ++ o ∷ [])
        ≡ elim (find id rows) [ none ↦ if o.id == id then some o else none | some r ↦ some r ]
  unfolding find
  find-append id [] o = ground arith
  find-append id (r ∷ rows) o = ground (arith, find-append id rows o)

  pub find-fill :
      (id now j : String) (rows : List (Order F))
      → find j (fill id now rows)
        ≡ Option.map (λ row. if is_fillable id row then fill_columns now row else row) (find j rows)
  unfolding find fill
  find-fill id now j [] = refl
  find-fill id now j (r ∷ rows) = elim (Bool-cases (is_fillable id r)) [
    | inl e ↦ rw e (rw (find-fill id now j rows) (ground (arith, eq_iff r.id j)))
    | inr e ↦ rw e (rw (find-fill id now j rows) (ground (arith, eq_iff r.id j)))
  ]

  pub IsTable-append :
      (rows : List (Order F)) (o : Order F)
      → IsTable rows
      → find o.id rows ≡ none
      → IsTable (rows ++ o ∷ [])
  unfolding find
  IsTable-append [] o h e = ground arith
  IsTable-append (r ∷ rows) o h e = ground (
    arith,
    IsTable-append rows o h.1,
    find-append r.id rows o,
    eq_iff r.id o.id,
    eq_iff o.id r.id,
  )

  pub IsTable-update :
      (o : Order F) (rows : List (Order F)) → IsTable rows → IsTable (update o rows)
  unfolding update
  IsTable-update o [] h = tt
  IsTable-update o (r ∷ rows) h = elim (Bool-cases (r.id == o.id)) [
    | inl e ↦ rw e (rw (find-update r.id o rows, h.0) refl, IsTable-update o rows h.1)
    | inr e ↦ rw e (rw (find-update r.id o rows, h.0) refl, IsTable-update o rows h.1)
  ]

  pub IsTable-fill :
      (id now : String) (rows : List (Order F)) → IsTable rows → IsTable (fill id now rows)
  unfolding fill
  IsTable-fill id now [] h = tt
  IsTable-fill id now (r ∷ rows) h = elim (Bool-cases (is_fillable id r)) [
    | inl e ↦ rw e (rw (find-fill id now r.id rows, h.0) refl, IsTable-fill id now rows h.1)
    | inr e ↦ rw e (rw (find-fill id now r.id rows, h.0) refl, IsTable-fill id now rows h.1)
  ]

  -- The statement counts the one row that it changes.
  pub fill_count-find :
      (id : String) (rows : List (Order F))
      → IsTable rows
      → fill_count id rows ≡ elim (find id rows) [
        | none ↦ 0
        | some row ↦ if is_status row.status approved then 1 else 0
      ]
  unfolding find fill_count
  fill_count-find id [] h = refl
  fill_count-find id (r ∷ rows) h = ground (arith, fill_count-find id rows h.1, eq_iff r.id id)
