-- ===== src/Base/Dict/Values.antt =====
-- A predicate on every value of a dict.
use mathlib.Core.Option.{none-ne-some, some-injective}
use mathlib.Core.Path.{subst}
use criptotrade.Base.{◌≡◌, String, ◌==◌, some, [], ◌∷◌, Bool-cases, inl, inr, All}
use criptotrade.Base.Dict.{Dict, lookup, insert, remove, replace}

module _ {ℓ κ} {V : Type ℓ} (P : V → Type κ) where
  abbrev pub AllValues : Dict V → Type κ
  AllValues = All (λ e. P e.1)

  pub AllValues-remove : (k : String) (d : Dict V) → AllValues d → AllValues (remove k d)
  unfolding remove
  AllValues-remove k [] h = tt
  AllValues-remove k ((i, w) ∷ d) h = elim (Bool-cases (i == k)) [
    | inl e ↦ rw e h.1
    | inr e ↦ rw e (h.0, AllValues-remove k d h.1)
  ]

  pub AllValues-replace :
      (k : String) (v : V) (d : Dict V) → P v → AllValues d → AllValues (replace k v d)
  unfolding replace
  AllValues-replace k v [] p h = tt
  AllValues-replace k v ((i, w) ∷ d) p h = elim (Bool-cases (i == k)) [
    | inl e ↦ rw e (p, h.1)
    | inr e ↦ rw e (h.0, AllValues-replace k v d p h.1)
  ]

  pub AllValues-insert :
      (k : String) (v : V) (d : Dict V) → P v → AllValues d → AllValues (insert k v d)
  unfolding insert
  AllValues-insert k v [] p h = (p, tt)
  AllValues-insert k v ((i, w) ∷ d) p h = elim (Bool-cases (i == k)) [
    | inl e ↦ rw e (p, h.1)
    | inr e ↦ rw e (h.0, AllValues-insert k v d p h.1)
  ]

  pub AllValues-lookup : (k : String) (v : V) (d : Dict V) → lookup k d ≡ some v → AllValues d → P v
  unfolding lookup
  AllValues-lookup k v [] e h = absurd (none-ne-some _ e)
  AllValues-lookup k v ((i, w) ∷ d) e h = elim (Bool-cases (i == k)) [
    | inl s ↦ subst P (some-injective _ _ (rw s at e)) h.0
    | inr s ↦ AllValues-lookup k v d (rw s at e) h.1
  ]
