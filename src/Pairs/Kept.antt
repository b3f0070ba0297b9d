-- ===== src/Pairs/Kept.antt =====
-- Adding a pair in src/api/routes/pairs.py drops none that was operated, but for the fallback.
use criptotrade.Base.{
  ◌⊎◌, ◌≡◌, refl, sym, ap, ◌∙◌, String, ◌==◌, Bool, true, false, not, ◌||◌, Option, none, some,
  List, [], ◌∷◌, ◌++◌, keep, is_empty, any, arith, Bool-cases, inl, inr, eq_iff, eq_refl,
  false-ne-true,
}
use criptotrade.Access.Sets.{member}
use criptotrade.Ledger.{Ledger}
use criptotrade.Pairs.{
  OperatedPair, PairsEnv, PairsReply, pairs, already_operated, symbols_of, allowed_pairs,
  or_bitcoin, operated_pairs, add, add_all, extended, norm, validate_addable, add_checked,
  add_operated,
}

-- `x` is among the symbols.
abbrev pub Has : String → List String → Type 0
Has x xs = member x xs ≡ true

Has-append : (x y : String) (xs : List String) → Has x xs → Has x (xs ++ (y ∷ []))
Has-append x y [] h = absurd (false-ne-true h)
Has-append x y (z ∷ xs) h = elim (Bool-cases (z == x)) [
  | inl e ↦ rw e refl
  | inr e ↦ rw e (Has-append x y xs (rw e at h))
]

Has-last : (x : String) (xs : List String) → Has x (xs ++ (x ∷ []))
Has-last x [] = rw (eq_refl x) refl
Has-last x (z ∷ xs) = elim (Bool-cases (z == x)) [
  | inl e ↦ rw e refl
  | inr e ↦ rw e (Has-last x xs)
]

Has-keep :
    (p : String → Bool) (x : String) (xs : List String) → p x ≡ true → Has x xs → Has x (keep p xs)
Has-keep p x [] px h = h
Has-keep p x (z ∷ xs) px h = elim (Bool-cases (z == x)) [
  | inl e ↦ rw (ap p ((eq_iff z x).0 e) ∙ px) (rw e refl)
  | inr e ↦ elim (Bool-cases (p z)) [
    | inl pz ↦ rw pz (rw e (Has-keep p x xs px (rw e at h)))
    | inr pz ↦ rw pz (Has-keep p x xs px (rw e at h))
  ]
]

Has-kept : (p : String → Bool) (x : String) (xs : List String) → Has x (keep p xs) → Has x xs
Has-kept p x [] h = h
Has-kept p x (z ∷ xs) h = elim (Bool-cases (z == x)) [
  | inl e ↦ rw e refl
  | inr e ↦ elim (Bool-cases (p z)) [
    | inl pz ↦ rw e (Has-kept p x xs (rw e at (rw pz at h)))
    | inr pz ↦ rw e (Has-kept p x xs (rw pz at h))
  ]
]

symbols_of-append :
    (rows : List OperatedPair) (r : OperatedPair)
    → symbols_of (rows ++ (r ∷ [])) ≡ symbols_of rows ++ (r.symbol ∷ [])
symbols_of-append [] r = refl
symbols_of-append (q ∷ rows) r = ap (λ t. q.symbol ∷ t) (symbols_of-append rows r)

add-Has :
    (now s x : String) (rows : List OperatedPair)
    → Has x (symbols_of rows)
    → Has x (symbols_of (add now s rows))
unfolding add
add-Has now s x rows h = elim (Bool-cases (member s (symbols_of rows))) [
  | inl e ↦ rw e h
  | inr e ↦ rw e (rw (symbols_of-append rows _) (Has-append x s (symbols_of rows) h))
]

add-Has_new : (now s : String) (rows : List OperatedPair) → Has s (symbols_of (add now s rows))
unfolding add
add-Has_new now s rows = elim (Bool-cases (member s (symbols_of rows))) [
  | inl e ↦ rw e e
  | inr e ↦ rw e (rw (symbols_of-append rows _) (Has-last s (symbols_of rows)))
]

add_all-Has :
    (now x : String) (ss : List String) (rows : List OperatedPair)
    → Has x (symbols_of rows)
    → Has x (symbols_of (add_all now ss rows))
add_all-Has now x [] rows h = h
add_all-Has now x (s ∷ ss) rows h = add_all-Has now x ss (add now s rows) (add-Has now s x rows h)

add_all-Has_new :
    (now x : String) (ss : List String) (rows : List OperatedPair)
    → Has x ss
    → Has x (symbols_of (add_all now ss rows))
add_all-Has_new now x [] rows h = absurd (false-ne-true h)
add_all-Has_new now x (s ∷ ss) rows h = elim (Bool-cases (s == x)) [
  | inl e ↦ add_all-Has now x ss (add now s rows) (
      sym (ap (λ y. member y (symbols_of (add now s rows))) ((eq_iff s x).0 e))
      ∙ add-Has_new now s rows)
  | inr e ↦ add_all-Has_new now x ss (add now s rows) (rw e at h)
]

or_bitcoin-Has : (x : String) (xs : List String) → Has x xs → Has x (or_bitcoin xs)
or_bitcoin-Has x [] h = absurd (false-ne-true h)
or_bitcoin-Has x (y ∷ ys) h = h

or_bitcoin_valid :
    (p : String → Bool) (xs : List String) → any p xs ≡ true → or_bitcoin (keep p xs) ≡ keep p xs
or_bitcoin_valid p [] h = absurd (false-ne-true h)
or_bitcoin_valid p (x ∷ xs) h = elim (Bool-cases (p x)) [
  | inl e ↦ rw e refl
  | inr e ↦ rw e (or_bitcoin_valid p xs (rw e at h))
]

-- The pairs that the table makes the loop operate.
operated-Has :
    (env : PairsEnv) (x : String) (rows : List OperatedPair)
    → Has x (allowed_pairs env)
    → Has x (symbols_of rows)
    → Has x (operated_pairs env rows)
unfolding operated_pairs
operated-Has env x [] a h = absurd (false-ne-true h)
operated-Has env x (r ∷ rows) a h =
    or_bitcoin-Has x _ (Has-keep (λ s. member s (allowed_pairs env)) x (symbols_of (r ∷ rows)) a h)

extended-Has :
    (env : PairsEnv) (now s x : String) (rows : List OperatedPair)
    → (is_empty rows || any (λ y. member y (allowed_pairs env)) (symbols_of rows)) ≡ true
    → Has x (operated_pairs env rows)
    → Has x (symbols_of (extended now s (operated_pairs env rows) rows))
unfolding operated_pairs
extended-Has env now s x [] known h = add-Has now s x _ (add_all-Has_new now x _ [] h)
extended-Has env now s x (r ∷ rows) known h = add-Has now s x (r ∷ rows) (
    Has-kept (λ y. member y (allowed_pairs env)) x (symbols_of (r ∷ rows))
      (sym (
          ap (member x)
            (or_bitcoin_valid (λ y. member y (allowed_pairs env)) (symbols_of (r ∷ rows)) known))
        ∙ h))

already_not_pairs : already_operated ≡ pairs → ⊥
already_not_pairs h = cc

validate_refuses :
    (env : PairsEnv) (markets : Option (List String)) (s : String)
    → validate_addable env markets s ≡ some pairs
    → ⊥
unfolding validate_addable
validate_refuses env markets s h = ground arith

checked-Has :
    {F : Type 0} (env : PairsEnv) (actor now s x : String) (rows : List OperatedPair) (l : Ledger F)
    (refusal : Option PairsReply)
    → (refusal ≡ some pairs → ⊥)
    → (add_checked env actor now s refusal (rows, l)).0 ≡ pairs
    → Has x (allowed_pairs env)
    → Has x (symbols_of (extended now s (operated_pairs env rows) rows))
    → Has x (operated_pairs env (add_checked env actor now s refusal (rows, l)).1)
checked-Has env actor now s x rows l (some r) refuses done a held = absurd (refuses (ap some done))
checked-Has env actor now s x rows l none refuses done a held =
    elim (Bool-cases (member s (operated_pairs env rows))) [
      | inl old ↦ absurd (already_not_pairs (rw old at done))
      | inr new ↦ rw new (operated-Has env x _ a held)
    ]

-- Where a filter leaves nothing, the loop operates BTC/USDT alone.
or_bitcoin_fallback :
    (p : String → Bool) (x : String) (xs : List String)
    → any p xs ≡ false
    → Has x (or_bitcoin (keep p xs))
    → x ≡ "BTC/USDT"
or_bitcoin_fallback p x [] none_valid h = elim (Bool-cases ("BTC/USDT" == x)) [
  | inl e ↦ sym ((eq_iff "BTC/USDT" x).0 e)
  | inr e ↦ absurd (false-ne-true (rw e at h))
]
or_bitcoin_fallback p x (y ∷ ys) none_valid h = elim (Bool-cases (p y)) [
  | inl e ↦ absurd (false-ne-true (sym (rw e at none_valid)))
  | inr e ↦ or_bitcoin_fallback p x ys (rw e at none_valid) (rw e at h)
]

-- The table has rows, and none of them is allowed any more.
abbrev pub is_stale : PairsEnv → List OperatedPair → Bool
is_stale env rows = not (is_empty rows || any (λ y. member y (allowed_pairs env)) (symbols_of rows))

stale-bitcoin :
    (env : PairsEnv) (x : String) (rows : List OperatedPair)
    → (is_empty rows || any (λ y. member y (allowed_pairs env)) (symbols_of rows)) ≡ false
    → Has x (operated_pairs env rows)
    → x ≡ "BTC/USDT"
unfolding operated_pairs
stale-bitcoin env x [] stale h = absurd (false-ne-true (sym stale))
stale-bitcoin env x (r ∷ rows) stale h =
    or_bitcoin_fallback (λ y. member y (allowed_pairs env)) x (symbols_of (r ∷ rows)) stale h

-- Where a pair is added, the loop operates it afterwards if it is allowed, and every allowed pair that
-- it operated before, also those that came from the environment; only BTC/USDT can be lost, and only
-- where the table had rows of which none was allowed.
pub add_operated-Has :
    {F : Type 0} (env : PairsEnv) (markets : Option (List String)) (actor now symbol x : String)
    (rows : List OperatedPair) (l : Ledger F)
    → (add_operated env markets actor now symbol (rows, l)).0 ≡ pairs
    → Has x (allowed_pairs env)
    → (Has x (operated_pairs env rows)) ⊎ (x ≡ norm symbol)
    → Has x (operated_pairs env (add_operated env markets actor now symbol (rows, l)).1)
      ⊎ ((is_stale env rows ≡ true) × (x ≡ "BTC/USDT"))
unfolding add_operated
add_operated-Has env markets actor now symbol x rows l done a h =
    elim (Bool-cases (is_empty rows || any (λ y. member y (allowed_pairs env)) (symbols_of rows))) [
      | inl known ↦ inl (finish (held known h))
      | inr stale ↦ elim h [
        | inl before ↦ inr (rw stale refl, stale-bitcoin env x rows stale before)
        | inr same ↦ inl (finish (held_new same))
      ]
    ]
  where
    held_new :
        x ≡ norm symbol
        → Has x (symbols_of (extended now (norm symbol) (operated_pairs env rows) rows))
    held_new same =
        ap (λ y. member y (symbols_of (extended now (norm symbol) (operated_pairs env rows) rows)))
          same
        ∙ add-Has_new now (norm symbol) _

    held :
        (is_empty rows || any (λ y. member y (allowed_pairs env)) (symbols_of rows)) ≡ true
        → (Has x (operated_pairs env rows)) ⊎ (x ≡ norm symbol)
        → Has x (symbols_of (extended now (norm symbol) (operated_pairs env rows) rows))
    held known (inl before) = extended-Has env now (norm symbol) x rows known before
    held known (inr same) = held_new same

    finish :
        Has x (symbols_of (extended now (norm symbol) (operated_pairs env rows) rows))
        → Has x (operated_pairs env (add_operated env markets actor now symbol (rows, l)).1)
    finish kept =
        checked-Has env actor now (norm symbol) x rows l
          (validate_addable env markets (norm symbol)) (validate_refuses env markets (norm symbol))
          done a kept
