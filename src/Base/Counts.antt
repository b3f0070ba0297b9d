-- ===== src/Base/Counts.antt =====
-- How many rows pass a test before and after one row, named by its key, is changed or deleted.
use Prim.Native.Nat.{ℕ, ◌+◌, ◌≤◌}
use Prim.Native.String.{String}
use mathlib.Core.Path.{◌≡◌, refl, sym, ap, ◌∙◌}
use mathlib.Core.Logic.{◌≢◌, inl, inr}
use mathlib.Core.Bool.{Bool, true, false, not}
use mathlib.Core.Option.{some, some-injective}
use mathlib.Core.List.{List, [], ◌∷◌}
use native.Mathlib.Omega.{arith}
use text.Mathlib.Text.{◌==◌}
use text.Mathlib.TextEquality.{eq_iff}
use criptotrade.Base.Tests.{Bool-cases}
use criptotrade.Base.Lists.{length, keep, All}
use criptotrade.Base.Rows.{first, modify, Unique}

module _ {ℓ} {A : Type ℓ} (key : A → String) (k : String) (p : A → Bool) where
  abbrev pub count_of : List A → ℕ
  count_of xs = length (keep p xs)

  not_there : (y : A) → key y ≢ k → (key y == k) ≡ false
  not_there y n = elim (Bool-cases (key y == k)) [
    | inl e ↦ absurd (n ((eq_iff (key y) k).0 e))
    | inr e ↦ e
  ]

  modify_absent :
      (f : A → A) (xs : List A) → All (λ y. key y ≢ k) xs → modify (λ y. key y == k) f xs ≡ xs
  unfolding modify
  modify_absent f [] h = refl
  modify_absent f (y ∷ ys) h = rw (not_there y h.0) (ap (List.◌∷◌ y) (modify_absent f ys h.1))

  delete_absent : (xs : List A) → All (λ y. key y ≢ k) xs → keep (λ y. not (key y == k)) xs ≡ xs
  delete_absent [] h = refl
  delete_absent (y ∷ ys) h = rw (not_there y h.0) (ap (List.◌∷◌ y) (delete_absent ys h.1))

  -- At most one row fewer passes.
  pub count-modify-le :
      (f : A → A) (xs : List A)
      → Unique key xs
      → count_of xs ≤ count_of (modify (λ y. key y == k) f xs) + 1
  unfolding modify
  count-modify-le f [] u = omega arith
  count-modify-le f (x ∷ xs) u = elim (Bool-cases (key x == k)) [
    | inl e ↦
        let at = (eq_iff (key x) k).0 e in rw (e, modify_absent f xs (rw (← at) u.0)) (ground arith)
    | inr e ↦ rw e (ground (arith, count-modify-le f xs u.1))
  ]

  pub count-delete-le :
      (xs : List A) → Unique key xs → count_of xs ≤ count_of (keep (λ y. not (key y == k)) xs) + 1
  count-delete-le [] u = omega arith
  count-delete-le (x ∷ xs) u = elim (Bool-cases (key x == k)) [
    | inl e ↦
        let at = (eq_iff (key x) k).0 e in rw (e, delete_absent xs (rw (← at) u.0)) (ground arith)
    | inr e ↦ rw e (ground (arith, count-delete-le xs u.1))
  ]

  -- None fewer passes if the row did not pass.
  pub count-modify_off :
      (f : A → A) (xs : List A) (r : A)
      → Unique key xs
      → first (λ y. key y == k) xs ≡ some r
      → p r ≡ false
      → count_of xs ≤ count_of (modify (λ y. key y == k) f xs)
  unfolding modify first
  count-modify_off f [] r u h off = omega arith
  count-modify_off f (x ∷ xs) r u h off = elim (Bool-cases (key x == k)) [
    | inl e ↦
        let at = (eq_iff (key x) k).0 e in
        let same : x ≡ r = some-injective _ _ (sym (rw e refl) ∙ h) in
        rw (e, modify_absent f xs (rw (← at) u.0), same, off) (ground arith)
    | inr e ↦ rw e (ground (arith, count-modify_off f xs r u.1 (sym (rw e refl) ∙ h) off))
  ]

  pub count-delete_off :
      (xs : List A) (r : A)
      → Unique key xs
      → first (λ y. key y == k) xs ≡ some r
      → p r ≡ false
      → count_of xs ≤ count_of (keep (λ y. not (key y == k)) xs)
  unfolding first
  count-delete_off [] r u h off = omega arith
  count-delete_off (x ∷ xs) r u h off = elim (Bool-cases (key x == k)) [
    | inl e ↦
        let at = (eq_iff (key x) k).0 e in
        let same : x ≡ r = some-injective _ _ (sym (rw e refl) ∙ h) in
        rw (e, delete_absent xs (rw (← at) u.0), same, off) (ground arith)
    | inr e ↦ rw e (ground (arith, count-delete_off xs r u.1 (sym (rw e refl) ∙ h) off))
  ]

-- None fewer passes if the change keeps every row that passes.
pub count-modify_mono {ℓ} :
    {A : Type ℓ} (p q : A → Bool) (f : A → A) (xs : List A)
    → ((x : A) → p x ≡ true → p (f x) ≡ true)
    → length (keep p xs) ≤ length (keep p (modify q f xs))
unfolding modify
count-modify_mono p q f [] h = omega arith
count-modify_mono p q f (x ∷ xs) h = elim (Bool-cases (p x)) [
  | inl e ↦ elim (Bool-cases (q x)) [
    | inl g ↦ rw (e, g, h x e) (omega (arith, count-modify_mono p q f xs h))
    | inr g ↦ rw (g, e) (omega (arith, count-modify_mono p q f xs h))
  ]
  | inr e ↦ rw e (ground (arith, count-modify_mono p q f xs h))
]
