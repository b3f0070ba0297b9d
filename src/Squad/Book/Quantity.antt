-- ===== src/Squad/Book/Quantity.antt =====
-- What the plan of a fill takes from the lots, and what it leaves.
use criptotrade.Base.{◌≡◌, ◌⊎◌, String, true, false, List, [], ◌∷◌, ◌++◌, map}
use criptotrade.Base.Dict.{Dict}
use criptotrade.Base.Float.{Float}
use criptotrade.Squad.{Position}
use criptotrade.Squad.Book.{Match, eps}

module _ {F : Type 0} ⦃fl : Float F⦄ where
  -- What is left of a quantity after the lots of a plan.
  abbrev pub left_after : F → List (Match F) → F
  left_after q [] = q
  left_after q (m ∷ plan) = left_after (fl.sub q m.matched) plan

  -- Each lot gives all it has or all that is wanted, and never more than it has.
  abbrev pub IsDrawn : F → List (Match F) → Type 0
  IsDrawn q [] = Unit {0}
  IsDrawn q (m ∷ plan) =
      (fl.lt m.lot.quantity m.matched ≡ false)
      × ((m.matched ≡ m.lot.quantity) ⊎ (m.matched ≡ q))
      × IsDrawn (fl.sub q m.matched) plan

  abbrev pub entry_of : Match F → String × Position F
  entry_of m = (m.oid, m.lot)

  -- What a plan for the quantity must be: it takes the first of the lots, in their order, and leaves
  -- the others only when no more than the tolerance is left.
  pub record IsPlan (cs : Dict (Position F)) (q : F) (plan : List (Match F)) (left : F)
      : Type 0 where
    pub others : Dict (Position F)
    pub in_order : cs ≡ map entry_of plan ++ others
    pub finished : (others ≡ []) ⊎ (fl.le left eps ≡ true)
    pub drawn : IsDrawn q plan
    pub remainder : left ≡ left_after q plan
