-- ===== src/Base/Rows.antt =====
-- An SQL table as the list of its rows, in the order of insertion: reads, updates, and what an update
-- keeps.
use criptotrade.Base.Tests.{if◌then◌else◌, Bool-cases}
use criptotrade.Base.Lists.{keep, All, All-append}
use Prim.Native.String.{String}
use mathlib.Core.Path.{◌≡◌, refl, sym, ◌∙◌, subst}
use mathlib.Core.Logic.{◌≢◌, inl, inr}
use mathlib.Core.Bool.{Bool, true, false}
use mathlib.Core.Option.{Option, none, some, some-injective}
use mathlib.Core.List.{List, [], ◌∷◌, ◌++◌}
use mathlib.Core.List.{Mem, mem-cons_self, mem-cons_of_mem}
use text.Mathlib.Text.{◌==◌}
use text.Mathlib.TextEquality.{eq_iff}

pub differ : (a b : String) → (a == b) ≡ false → a ≢ b
differ a b h e = cc (h, (eq_iff a b).1 e)

module _ {ℓ} {A : Type ℓ} where
  -- `SELECT * FROM t WHERE p`, `fetchone()`
  unfoldable pub first : (A → Bool) → List A → Option A
  first p [] = none
  first p (x ∷ xs) = if p x then some x else first p xs

  -- `UPDATE t SET f WHERE p`
  unfoldable pub modify : (A → Bool) → (A → A) → List A → List A
  modify p f [] = []
  modify p f (x ∷ xs) = (if p x then f x else x) ∷ modify p f xs

  pub All-first {κ} :
      (P : A → Type κ) (p : A → Bool) (xs : List A) (x : A)
      → All P xs
      → first p xs ≡ some x
      → P x × (p x ≡ true)
  unfolding first
  All-first P p [] x h e = cc
  All-first P p (y ∷ ys) x h e = elim (Bool-cases (p y)) [
    | inl t ↦
        let same : y ≡ x = some-injective _ _ (sym (rw t refl) ∙ e) in
        (subst P same h.0, subst (λ z. p z ≡ true) same t)
    | inr t ↦ All-first P p ys x h.1 (sym (rw t refl) ∙ e)
  ]

  -- No row matches.
  pub All-unmatched : (p : A → Bool) (xs : List A) → first p xs ≡ none → All (λ x. p x ≡ false) xs
  unfolding first
  All-unmatched p [] e = tt
  All-unmatched p (y ∷ ys) e = elim (Bool-cases (p y)) [
    | inl t ↦ let found : some y ≡ none = sym (rw t refl) ∙ e in cc (found)
    | inr t ↦ (t, All-unmatched p ys (sym (rw t refl) ∙ e))
  ]

  -- The row that is found stands in the table.
  pub listed_first :
      (p : A → Bool) (xs : List A) (x : A) → first p xs ≡ some x → Mem x xs × (p x ≡ true)
  unfolding first
  listed_first p [] x e = cc
  listed_first p (y ∷ ys) x e = elim (Bool-cases (p y)) [
    | inl t ↦
        let same : y ≡ x = some-injective _ _ (sym (rw t refl) ∙ e) in
        rw (← same) (mem-cons_self, t)
    | inr t ↦
        let (rest, at) = listed_first p ys x (sym (rw t refl) ∙ e) in (mem-cons_of_mem y rest, at)
  ]

  pub All-modify {κ} :
      (P : A → Type κ) (p : A → Bool) (f : A → A) (xs : List A)
      → ((x : A) → P x → P (f x))
      → All P xs
      → All P (modify p f xs)
  unfolding modify
  All-modify P p f [] k h = tt
  All-modify P p f (x ∷ xs) k h = (
    elim (Bool-cases (p x)) [ inl t ↦ rw t (k x h.0) | inr t ↦ rw t h.0 ],
    All-modify P p f xs k h.1,
  )

  -- The rows that the update reaches and those that it leaves get `Q`.
  pub All-modified {κ μ} :
      (R : A → Type κ) (Q : A → Type μ) (p : A → Bool) (f : A → A) (xs : List A)
      → ((x : A) → R x → p x ≡ true → Q (f x))
      → ((x : A) → R x → p x ≡ false → Q x)
      → All R xs
      → All Q (modify p f xs)
  unfolding modify
  All-modified R Q p f [] k l h = tt
  All-modified R Q p f (x ∷ xs) k l h = (
    elim (Bool-cases (p x)) [ inl t ↦ rw t (k x h.0 t) | inr t ↦ rw t (l x h.0 t) ],
    All-modified R Q p f xs k l h.1,
  )

  pub All-keep {κ} : (P : A → Type κ) (p : A → Bool) (xs : List A) → All P xs → All P (keep p xs)
  All-keep P p [] h = tt
  All-keep P p (x ∷ xs) h = elim (Bool-cases (p x)) [
    | inl t ↦ rw t (h.0, All-keep P p xs h.1)
    | inr t ↦ rw t (All-keep P p xs h.1)
  ]

  pub All-map {κ μ} :
      (P : A → Type κ) (Q : A → Type μ) (xs : List A) → ((x : A) → P x → Q x) → All P xs → All Q xs
  All-map P Q [] k h = tt
  All-map P Q (x ∷ xs) k h = (k x h.0, All-map P Q xs k h.1)

  pub All-tabulate {κ} : (P : A → Type κ) (xs : List A) → ((x : A) → P x) → All P xs
  All-tabulate P [] k = tt
  All-tabulate P (x ∷ xs) k = (k x, All-tabulate P xs k)

  -- No two rows have the same key.
  abbrev pub Unique : (A → String) → List A → Type 0
  Unique key [] = Unit
  Unique key (x ∷ xs) = All (λ y. key y ≢ key x) xs × Unique key xs

  pub Unique-append :
      (key : A → String) (xs : List A) (n : A)
      → Unique key xs
      → first (λ x. key x == key n) xs ≡ none
      → Unique key (xs ++ n ∷ [])
  unfolding first
  Unique-append key [] n u h = (tt, tt)
  Unique-append key (x ∷ xs) n u h = elim (Bool-cases (key x == key n)) [
    | inl t ↦ let found : some x ≡ none = sym (rw t refl) ∙ h in cc (found)
    | inr t ↦ (
      All-append _ xs (n ∷ []) u.0 ((λ e. cc (t, (eq_iff (key x) (key n)).1 (sym e))), tt),
      Unique-append key xs n u.1 (sym (rw t refl) ∙ h),
    )
  ]

  pub Unique-modify :
      (key : A → String) (p : A → Bool) (f : A → A) (xs : List A)
      → ((x : A) → key (f x) ≡ key x)
      → Unique key xs
      → Unique key (modify p f xs)
  unfolding modify
  Unique-modify key p f [] k u = tt
  Unique-modify key p f (x ∷ xs) k u = (
    elim (Bool-cases (p x)) [
      | inl t ↦ rw (t, k x) (All-modify _ p f xs (λ y h. rw (k y) h) u.0)
      | inr t ↦ rw t (All-modify _ p f xs (λ y h. rw (k y) h) u.0)
    ],
    Unique-modify key p f xs k u.1,
  )

  pub Unique-keep :
      (key : A → String) (p : A → Bool) (xs : List A) → Unique key xs → Unique key (keep p xs)
  Unique-keep key p [] u = tt
  Unique-keep key p (x ∷ xs) u = elim (Bool-cases (p x)) [
    | inl t ↦ rw t (All-keep _ p xs u.0, Unique-keep key p xs u.1)
    | inr t ↦ rw t (Unique-keep key p xs u.1)
  ]

  -- The row that is found by its key is the only one with it.
  pub only_row :
      (key : A → String) (k : String) (xs : List A) (r : A)
      → Unique key xs
      → first (λ x. key x == k) xs ≡ some r
      → All (λ y. key y ≡ k → y ≡ r) xs
  unfolding first
  only_row key k [] r u h = tt
  only_row key k (x ∷ xs) r u h = elim (Bool-cases (key x == k)) [
    | inl t ↦
        let same : x ≡ r = some-injective _ _ (sym (rw t refl) ∙ h) in
        let at = (eq_iff (key x) k).0 t in
        ((λ _. same), All-map _ _ xs (λ y n e. absurd (n (e ∙ sym at))) u.0)
    | inr t ↦ ((λ e. cc (t, (eq_iff (key x) k).1 e)), only_row key k xs r u.1 (sym (rw t refl) ∙ h))
  ]
