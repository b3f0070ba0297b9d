-- ===== src/Base/Dict/Keys.antt =====
-- A list of pairs in which no key comes twice, and what it lists of another dict.
use mathlib.Core.List.{map}
use mathlib.Core.Option.{none-ne-some, some-injective}
use criptotrade.Base.{
  ◌≡◌, refl, sym, true, ap, ◌∙◌, String, ◌==◌, eq_iff, eq_refl, Bool, false, none, some, List, [],
  ◌∷◌, arith, Bool-cases, inl, inr, keep, All, length,
}
use criptotrade.Base.Dict.{Dict, lookup, insert, remove, replace, lookup-insert, lookup-remove_ne}

module _ {ℓ} {V : Type ℓ} where
  abbrev pub IsDict : Dict V → Type ℓ
  IsDict [] = Unit {ℓ}
  IsDict ((k, v) ∷ d) = (lookup k d ≡ none) × IsDict d

  pub lookup-replace :
      (k j : String) (v : V) (d : Dict V) → (k == j) ≡ false → lookup j (replace k v d) ≡ lookup j d
  unfolding lookup replace
  lookup-replace k j v [] h = refl
  lookup-replace k j v ((i, w) ∷ d) h =
      ground (arith, eq_iff k j, eq_iff i k, eq_iff i j, lookup-replace k j v d h)

  pub none-lookup-remove :
      (k j : String) (d : Dict V) → lookup j d ≡ none → lookup j (remove k d) ≡ none
  unfolding lookup remove
  none-lookup-remove k j [] h = refl
  none-lookup-remove k j ((i, w) ∷ d) h =
      ground (arith, eq_iff i k, eq_iff i j, none-lookup-remove k j d)

  pub none-lookup-replace :
      (k j : String) (v : V) (d : Dict V) → lookup j d ≡ none → lookup j (replace k v d) ≡ none
  unfolding lookup replace
  none-lookup-replace k j v [] h = refl
  none-lookup-replace k j v ((i, w) ∷ d) h =
      ground (arith, eq_iff i k, eq_iff i j, none-lookup-replace k j v d)

  pub none-lookup-keep :
      (p : String × V → Bool) (j : String) (d : Dict V)
      → lookup j d ≡ none
      → lookup j (keep p d) ≡ none
  unfolding lookup
  none-lookup-keep p j [] h = refl
  none-lookup-keep p j ((i, w) ∷ d) h = ground (arith, eq_iff i j, none-lookup-keep p j d)

  -- A key that a filter leaves has the value it had, and that passes.
  pub lookup-keep :
      (p : String × V → Bool) (k : String) (v : V) (d : Dict V)
      → IsDict d
      → lookup k (keep p d) ≡ some v
      → (lookup k d ≡ some v) × (p (k, v) ≡ true)
  unfolding lookup
  lookup-keep p k v [] h e = cc
  lookup-keep p k v ((i, w) ∷ d) h e = elim (Bool-cases (i == k)) [
    | inl t ↦
        let same : i ≡ k = (eq_iff i k).0 t in
        elim (Bool-cases (p (i, w))) [
          | inl u ↦
              let value : w ≡ v = some-injective _ _ (sym (rw (u, t) refl) ∙ e) in
              rw t (ap some value, sym (ap (λ j. p (j, w)) same ∙ ap (λ x. p (k, x)) value) ∙ u)
          | inr u ↦
              let gone = none-lookup-keep p i d h.0 in
              absurd (
                none-ne-some _
                  (sym gone ∙ (ap (λ j. lookup j (keep p d)) same ∙ sym (rw u refl) ∙ e)))
        ]
    | inr t ↦
        let found = lookup-keep p k v d h.1 (elim (Bool-cases (p (i, w))) [
          | inl u ↦ sym (rw (u, t) refl) ∙ e
          | inr u ↦ sym (rw u refl) ∙ e
        ]) in
        rw t found
  ]

  pub lookup-remove : (k : String) (d : Dict V) → IsDict d → lookup k (remove k d) ≡ none
  unfolding lookup remove
  lookup-remove k [] h = refl
  lookup-remove k ((i, w) ∷ d) h = elim (Bool-cases (i == k)) [
    | inl e ↦ rw e (ap (λ j. lookup j d) (sym ((eq_iff i k).0 e)) ∙ h.0)
    | inr e ↦ rw e (rw e (lookup-remove k d h.1))
  ]

  pub IsDict-keep : (p : String × V → Bool) (d : Dict V) → IsDict d → IsDict (keep p d)
  IsDict-keep p [] h = tt
  IsDict-keep p ((i, w) ∷ d) h = elim (Bool-cases (p (i, w))) [
    | inl e ↦ rw e (none-lookup-keep p i d h.0, IsDict-keep p d h.1)
    | inr e ↦ rw e (IsDict-keep p d h.1)
  ]

  pub IsDict-remove : (k : String) (d : Dict V) → IsDict d → IsDict (remove k d)
  unfolding remove
  IsDict-remove k [] h = tt
  IsDict-remove k ((i, w) ∷ d) h = elim (Bool-cases (i == k)) [
    | inl e ↦ rw e h.1
    | inr e ↦ rw e (none-lookup-remove k i d h.0, IsDict-remove k d h.1)
  ]

  pub IsDict-replace : (k : String) (v : V) (d : Dict V) → IsDict d → IsDict (replace k v d)
  unfolding replace
  IsDict-replace k v [] h = tt
  IsDict-replace k v ((i, w) ∷ d) h = elim (Bool-cases (i == k)) [
    | inl e ↦ rw e h
    | inr e ↦ rw e (none-lookup-replace k i v d h.0, IsDict-replace k v d h.1)
  ]

  pub IsDict-insert : (k : String) (v : V) (d : Dict V) → IsDict d → IsDict (insert k v d)
  unfolding insert lookup
  IsDict-insert k v [] h = (refl, tt)
  IsDict-insert k v ((i, w) ∷ d) h = elim (Bool-cases (i == k)) [
    | inl e ↦ rw e h
    | inr e ↦ rw e (
      lookup-insert k i v d ∙ ground (arith, eq_iff i k, eq_iff k i, h.0),
      IsDict-insert k v d h.1,
    )
  ]

  -- `d` has every pair of the list.
  abbrev pub Lists : Dict V → List (String × V) → Type ℓ
  Lists d = All (λ e. lookup e.0 d ≡ some e.1)

  pub cons_ne :
      (k j : String) (v : V) (cs : Dict V)
      → lookup k ((j, v) ∷ cs) ≡ none
      → ((k == j) ≡ false) × (lookup k cs ≡ none)
  unfolding lookup
  cons_ne k j v cs h = (ground (arith, eq_iff k j, eq_iff j k), ground (arith, eq_iff j k))

  pub Lists-remove :
      (k : String) (d : Dict V) (cs : Dict V)
      → lookup k cs ≡ none
      → Lists d cs
      → Lists (remove k d) cs
  Lists-remove k d [] n h = tt
  Lists-remove k d ((j, v) ∷ cs) n h =
      let (ne, rest) = cons_ne k j v cs n in
      (lookup-remove_ne k j d ne ∙ h.0, Lists-remove k d cs rest h.1)

  pub Lists-replace :
      (k : String) (v : V) (d : Dict V) (cs : Dict V)
      → lookup k cs ≡ none
      → Lists d cs
      → Lists (replace k v d) cs
  Lists-replace k v d [] n h = tt
  Lists-replace k v d ((j, w) ∷ cs) n h =
      let (ne, rest) = cons_ne k j w cs n in
      (lookup-replace k j v d ne ∙ h.0, Lists-replace k v d cs rest h.1)

  Lists-cons :
      (k : String) (v : V) (d : Dict V) (cs : Dict V)
      → lookup k cs ≡ none
      → Lists d cs
      → Lists ((k, v) ∷ d) cs
  unfolding lookup
  Lists-cons k v d [] n h = tt
  Lists-cons k v d ((j, w) ∷ cs) n h =
      let (ne, rest) = cons_ne k j w cs n in (rw ne h.0, Lists-cons k v d cs rest h.1)

  pub Lists-keep : (p : String × V → Bool) (d : Dict V) → IsDict d → Lists d (keep p d)
  unfolding lookup
  Lists-keep p [] h = tt
  Lists-keep p ((i, w) ∷ d) h =
      let rest = Lists-cons i w d (keep p d) (none-lookup-keep p i d h.0) (Lists-keep p d h.1) in
      elim (Bool-cases (p (i, w))) [ inl e ↦ rw e (rw (eq_refl i) refl, rest) | inr e ↦ rw e rest ]

  pub length-replace : (k : String) (v : V) (d : Dict V) → length (replace k v d) ≡ length d
  unfolding replace
  length-replace k v [] = refl
  length-replace k v ((i, w) ∷ d) = ground (arith, length-replace k v d)

-- A map on the values.
module _ {ℓ κ} {V : Type ℓ} {W : Type κ} (f : V → W) where
  abbrev pub map_values : String × V → String × W
  map_values (k, v) = (k, f v)

  pub map-insert :
      (k : String) (v : V) (d : Dict V)
      → map map_values (insert k v d) ≡ insert k (f v) (map map_values d)
  unfolding insert
  map-insert k v [] = refl
  map-insert k v ((i, w) ∷ d) = elim (Bool-cases (i == k)) [
    | inl e ↦ rw e refl
    | inr e ↦ rw e (ap (List.◌∷◌ (i, f w)) (map-insert k v d))
  ]

  pub map-remove :
      (k : String) (d : Dict V) → map map_values (remove k d) ≡ remove k (map map_values d)
  unfolding remove
  map-remove k [] = refl
  map-remove k ((i, w) ∷ d) = elim (Bool-cases (i == k)) [
    | inl e ↦ rw e refl
    | inr e ↦ rw e (ap (List.◌∷◌ (i, f w)) (map-remove k d))
  ]

  -- At a key that is there, a change in place and an insertion are the same.
  pub map-replace :
      (k : String) (u v : V) (d : Dict V)
      → lookup k d ≡ some u
      → map map_values (replace k v d) ≡ insert k (f v) (map map_values d)
  unfolding insert replace lookup
  map-replace k u v [] h = absurd (none-ne-some _ h)
  map-replace k u v ((i, w) ∷ d) h = elim (Bool-cases (i == k)) [
    | inl e ↦ rw e refl
    | inr e ↦ rw e (ap (List.◌∷◌ (i, f w)) (map-replace k u v d (rw e at h)))
  ]
