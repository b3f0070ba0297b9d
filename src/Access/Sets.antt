-- ===== src/Access/Sets.antt =====
-- Texts as sets: membership, and the sorted list.
use criptotrade.Base.Text.{text_le}
use criptotrade.Base.{
  ◌≡◌, refl, ◌∙◌, ap, String, ◌==◌, Bool, false, ◌||◌, List, [], ◌∷◌, arith, if◌then◌else◌,
  Bool-cases, inl, inr,
}

abbrev pub member : String → List String → Bool
member x [] = false
member x (y ∷ ys) = y == x || member x ys

unfoldable pub insert_sorted : String → List String → List String
insert_sorted x [] = x ∷ []
insert_sorted x (y ∷ ys) = if text_le x y then x ∷ y ∷ ys else y ∷ insert_sorted x ys

-- `sorted`
unfoldable pub sort : List String → List String
sort [] = []
sort (x ∷ xs) = insert_sorted x (sort xs)

swap_or : (a b c : Bool) → (a || (b || c)) ≡ (b || (a || c))
swap_or a b c = ground arith

member-insert_sorted :
    (k x : String) (xs : List String) → member k (insert_sorted x xs) ≡ (x == k || member k xs)
unfolding insert_sorted
member-insert_sorted k x [] = refl
member-insert_sorted k x (y ∷ ys) = elim (Bool-cases (text_le x y)) [
  | inl t ↦ rw t refl
  | inr t ↦ rw t (
      ap (λ b. y == k || b) (member-insert_sorted k x ys) ∙ swap_or (y == k) (x == k) (member k ys))
]

pub member-sort : (k : String) (xs : List String) → member k (sort xs) ≡ member k xs
unfolding sort
member-sort k [] = refl
member-sort k (x ∷ xs) =
    member-insert_sorted k x (sort xs) ∙ ap (λ b. x == k || b) (member-sort k xs)
