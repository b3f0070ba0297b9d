-- ===== src/Base/Dict.antt =====
-- A Python dict with text keys, in insertion order.
pub mod Keys
pub mod Values
use Prim.Native.Nat.{suc, ◌≤◌}
use Prim.Native.String.{String}
use mathlib.Core.Path.{◌≡◌, refl}
use mathlib.Core.Bool.{false}
use mathlib.Core.Option.{Option, none, some}
use mathlib.Core.List.{List, [], ◌∷◌}
use native.Mathlib.Omega.{arith}
use text.Mathlib.Text.{◌==◌}
use text.Mathlib.TextEquality.{eq_iff}
use criptotrade.Base.Tests.{if◌then◌else◌}
use criptotrade.Base.Lists.{length}

abbrev pub Dict {ℓ} : Type ℓ → Type ℓ
Dict V = List (String × V)

module _ {ℓ} {V : Type ℓ} where
  -- `d.get(k)`
  unfoldable pub lookup : String → Dict V → Option V
  lookup k [] = none
  lookup k ((j, v) ∷ d) = if j == k then some v else lookup k d

  -- `d[k] = v`: a new key goes to the end.
  unfoldable pub insert : String → V → Dict V → Dict V
  insert k v [] = (k, v) ∷ []
  insert k v ((j, w) ∷ d) = if j == k then (j, v) ∷ d else (j, w) ∷ insert k v d

  -- `d.pop(k, None)`
  unfoldable pub remove : String → Dict V → Dict V
  remove k [] = []
  remove k ((j, w) ∷ d) = if j == k then d else (j, w) ∷ remove k d

  -- The value at a key that is there is changed in place.
  unfoldable pub replace : String → V → Dict V → Dict V
  replace k v [] = []
  replace k v ((j, w) ∷ d) = if j == k then (j, v) ∷ d else (j, w) ∷ replace k v d

  pub lookup-insert :
      (k j : String) (v : V) (d : Dict V)
      → lookup j (insert k v d) ≡ (if k == j then some v else lookup j d)
  unfolding lookup insert
  lookup-insert k j v [] = refl
  lookup-insert k j v ((i, w) ∷ d) =
      ground (arith, eq_iff k j, eq_iff i k, eq_iff i j, lookup-insert k j v d)

  pub lookup-remove_ne :
      (k j : String) (d : Dict V) → (k == j) ≡ false → lookup j (remove k d) ≡ lookup j d
  unfolding lookup remove
  lookup-remove_ne k j [] h = refl
  lookup-remove_ne k j ((i, w) ∷ d) h =
      ground (arith, eq_iff k j, eq_iff i k, eq_iff i j, lookup-remove_ne k j d h)

  pub length-insert-le : (k : String) (v : V) (d : Dict V) → length (insert k v d) ≤ suc (length d)
  unfolding insert
  length-insert-le k v [] = omega arith
  length-insert-le k v ((j, w) ∷ d) = ground (arith, length-insert-le k v d)

  pub length-insert_old :
      (k : String) (v w : V) (d : Dict V) → lookup k d ≡ some w → length (insert k v d) ≡ length d
  unfolding insert lookup
  length-insert_old k v w [] h = ground arith
  length-insert_old k v w ((j, u) ∷ d) h = ground (arith, length-insert_old k v w d)

  pub length-remove-le : (k : String) (d : Dict V) → length (remove k d) ≤ length d
  unfolding remove
  length-remove-le k [] = omega arith
  length-remove-le k ((j, w) ∷ d) = ground (arith, length-remove-le k d)
