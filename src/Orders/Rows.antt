-- ===== src/Orders/Rows.antt =====
-- How the rows of the table may change: the statuses move along the diagram of the module's
-- comment, the economic terms of an order stay, and a resolved row is final.
use mathlib.Core.Option.{some-injective}
use mathlib.Core.Path.{subst}
use criptotrade.Base.{
  ◌≡◌, refl, ◌⊎◌, sym, ◌∙◌, String, ◌==◌, eq_iff, Bool, ◌&&◌, true, false, none, some, List, [],
  ◌∷◌, ◌++◌, arith, if◌then◌else◌, Bool-cases, inl, inr,
}
use criptotrade.Orders.{Status, pending, approved, filled, rejected, cancelled, is_status, Order}
use criptotrade.Orders.Table.{
  find, update, set_columns, fill, fill_columns, is_fillable, id-find, find-update, find-append,
  find-fill,
}

-- The diagram, on an order that is stored; an auto-approved order is stored and filled in one call.
abbrev pub can_move : Status → Status → Bool
can_move pending filled = false
can_move pending t = true
can_move approved approved = true
can_move approved filled = true
can_move approved t = false
can_move filled filled = true
can_move rejected rejected = true
can_move cancelled cancelled = true
can_move s t = false

abbrev pub is_final : Status → Bool
is_final pending = false
is_final approved = false
is_final s = true

filled_from_approved :
    (s : Status) → is_status s approved ≡ true → (can_move s filled ≡ true) × (is_final s ≡ false)
filled_from_approved s h = ground arith

-- A pending order may go anywhere but to `filled`, and is not final.
leaves_pending :
    (s t : Status)
    → is_status s pending ≡ true
    → is_status t filled ≡ false
    → (can_move s t ≡ true) × (is_final s ≡ false)
leaves_pending s t h k = ground arith

and_right : (a b : Bool) → (a && b) ≡ true → b ≡ true
and_right a b h = ground arith

can_move_refl : (s : Status) → can_move s s ≡ true
can_move_refl pending = refl
can_move_refl s = refl

module _ {F : Type 0} where
  -- Every stored order is kept, with its terms, and its status moves along the diagram; a final
  -- order is kept as it is.
  pub record Keeps (o o' : Order F) : Type 0 where
    pub same_draft : o'.draft ≡ o.draft
    pub moved : can_move o.status o'.status ≡ true
    pub final_kept : (is_final o.status ≡ false) ⊎ (o' ≡ o)

  abbrev pub Follows : List (Order F) → List (Order F) → Type 0
  Follows rows rows' =
      (j : String) (o : Order F)
      → find j rows ≡ some o
      → (o' : Order F) × (find j rows' ≡ some o') × Keeps o o'

  pub Keeps-refl : (o : Order F) → Keeps o o
  Keeps-refl o = record { same_draft = refl; moved = can_move_refl o.status; final_kept = inr refl }

  pub Follows-refl : (rows : List (Order F)) → Follows rows rows
  Follows-refl rows j o h = (o, h, Keeps-refl o)

  pub Follows-append : (rows : List (Order F)) (n : Order F) → Follows rows (rows ++ n ∷ [])
  Follows-append rows n j o h = (o, find-append j rows n ∙ rw h refl, Keeps-refl o)

  -- A write to the row that was read.
  pub Follows-update :
      (rows : List (Order F)) (o n : Order F)
      → find n.id rows ≡ some o
      → Keeps o (set_columns n o)
      → Follows rows (update n rows)
  Follows-update rows o n e k j p h = elim (Bool-cases (n.id == j)) [
    | inl same ↦
        let at_id = subst (λ i. find i rows ≡ some p) (sym ((eq_iff n.id j).0 same)) h in
        let same_row = some-injective _ _ (sym e ∙ at_id) in
        (
          set_columns n p,
          find-update j n rows ∙ rw (h, same) refl,
          subst (λ q. Keeps q (set_columns n q)) same_row k,
        )
    | inr other ↦ (p, find-update j n rows ∙ rw (h, other) refl, Keeps-refl p)
  ]

  Keeps-fill :
      (id now : String) (o : Order F) → Keeps o (if is_fillable id o then fill_columns now o else o)
  Keeps-fill id now o = elim (Bool-cases (is_fillable id o)) [
    | inl e ↦
        let leaves =
          filled_from_approved o.status (and_right (o.id == id) (is_status o.status approved) e) in
        rw e (record { same_draft = refl; moved = leaves.0; final_kept = inl leaves.1 })
    | inr e ↦ rw e (Keeps-refl o)
  ]

  pub Follows-fill : (id now : String) (rows : List (Order F)) → Follows rows (fill id now rows)
  Follows-fill id now rows j o h = (_, find-fill id now j rows ∙ rw h refl, Keeps-fill id now o)

  -- A row is added, and perhaps written at once: the rows before it stay.
  pub Follows-append-update :
      (rows : List (Order F)) (n m : Order F)
      → find m.id rows ≡ none
      → Follows rows (update m (rows ++ n ∷ []))
  Follows-append-update rows n m e j o h = elim (Bool-cases (m.id == j)) [
    | inl same ↦ cc (subst (λ i. find i rows ≡ none) ((eq_iff m.id j).0 same) e, h)
    | inr other ↦ (
      o,
      find-update j m (rows ++ n ∷ []) ∙ rw (find-append j rows n, h, other) refl,
      Keeps-refl o,
    )
  ]

  Keeps-decided :
      (o n : Order F)
      → is_status o.status pending ≡ true
      → is_status n.status filled ≡ false
      → Keeps o (set_columns n o)
  Keeps-decided o n h k =
      let leaves = leaves_pending o.status n.status h k in
      record { same_draft = refl; moved = leaves.0; final_kept = inl leaves.1 }

  pub Follows-decided :
      (id : String) (rows : List (Order F)) (o n : Order F)
      → find id rows ≡ some o
      → n.id ≡ o.id
      → is_status o.status pending ≡ true
      → is_status n.status filled ≡ false
      → Follows rows (update n rows)
  Follows-decided id rows o n e same h k =
      Follows-update rows o n
        (subst (λ i. find i rows ≡ some o) (sym (same ∙ id-find id rows o e)) e)
        (Keeps-decided o n h k)

  pub Follows-inserted :
      (rows rows' rows'' : List (Order F)) (o n : Order F)
      → (rows' ≡ rows ++ o ∷ []) × (find o.id rows ≡ none)
      → n.id ≡ o.id
      → (rows'' ≡ rows') ⊎ (rows'' ≡ update n rows')
      → Follows rows rows''
  Follows-inserted rows rows' rows'' o n (e, fresh) same (inl p) = rw (p, e) (Follows-append rows o)
  Follows-inserted rows rows' rows'' o n (e, fresh) same (inr p) =
      rw (p, e) (Follows-append-update rows o n (rw same fresh))
