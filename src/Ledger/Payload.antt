-- ===== src/Ledger/Payload.antt =====
-- The JSON payloads of ledger entries.
use criptotrade.Base.{ℕ, String, Bool, Option, none, some, List, [], ◌∷◌}
use criptotrade.Base.Dict.{Dict}

mutual
  pub data Json (F : Type 0) : Type 0 where
    null : Json F
    bool : Bool → Json F
    int : ℕ → Json F
    num : F → Json F
    str : String → Json F
    arr : Items F → Json F
    obj : Fields F → Json F

  pub data Items (F : Type 0) : Type 0 where
    nil : Items F
    cons : Json F → Items F → Items F

  pub data Fields (F : Type 0) : Type 0 where
    end : Fields F
    field : String → Json F → Fields F → Fields F

module _ {F : Type 0} where
  abbrev pub to_fields : Dict (Json F) → Fields F
  to_fields [] = end
  to_fields ((k, v) ∷ d) = field k v (to_fields d)

  abbrev pub to_items : List (Json F) → Items F
  to_items [] = nil
  to_items (v ∷ vs) = cons v (to_items vs)

  abbrev pub texts : List String → Items F
  texts [] = nil
  texts (s ∷ ss) = cons (str s) (texts ss)

  abbrev pub opt_str : Option String → Json F
  opt_str none = null
  opt_str (some s) = str s

  abbrev pub opt_num : Option F → Json F
  opt_num none = null
  opt_num (some x) = num x
