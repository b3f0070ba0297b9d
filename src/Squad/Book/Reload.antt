-- ===== src/Squad/Book/Reload.antt =====
-- What a restart of the loop restores of the book.
use mathlib.Core.List.{map}
use criptotrade.Base.{
  ◌≡◌, refl, ap, ◌∙◌, Option, none, some, List, [], ◌∷◌, is_empty, if◌then◌else◌,
}
use criptotrade.Base.Dict.{Dict}
use criptotrade.Base.Dict.Keys.{map_values}
use criptotrade.Base.Float.{Float}
use criptotrade.Squad.{Position, BreakerState, Desk}
use criptotrade.Squad.Breaker.{reload_breaker, restore, fresh_breaker}
use criptotrade.Squad.Book.{rows_of, load_all, reload_open_positions}
use criptotrade.Squad.Book.Mirror.{IsSound}

module _ {F : Type 0} where
  -- A lot as the table keeps it.
  abbrev pub without_fee : Position F → Position F
  without_fee p = record p { entry_fee = none }

  load-rows :
      (book : Dict (Position F)) → load_all (rows_of book) ≡ map (map_values without_fee) book
  load-rows [] = refl
  load-rows ((oid, p) ∷ book) = ap (List.◌∷◌ (oid, without_fee p)) (load-rows book)

  when_restored :
      (restored : Dict (Position F)) (d : Desk F)
      → d.open_positions ≡ []
      → (if is_empty restored then d else record d { open_positions = restored }).open_positions
        ≡ restored
  when_restored [] d h = h
  when_restored (e ∷ restored) d h = refl

module _ {F : Type 0} ⦃fl : Float F⦄ where
  -- The memory of a new process.
  abbrev pub forget : Desk F → Desk F
  forget d = record d { open_positions = []; breaker = fresh_breaker }

  restore-positions :
      (row : Option (BreakerState F)) (d : Desk F)
      → (restore row d).open_positions ≡ d.open_positions
  unfolding restore
  restore-positions none d = refl
  restore-positions (some b) d = refl

  -- A process that starts anew on the tables of a sound desk has every lot of it, in the same order
  -- and with the same terms, except for the entry fees, which are gone.
  pub reload_restores_lots :
      (d : Desk F)
      → IsSound d
      → (reload_open_positions (forget d)).open_positions
        ≡ map (map_values without_fee) d.open_positions
  unfolding reload_open_positions reload_breaker
  reload_restores_lots d h =
      restore-positions _ _
      ∙ (when_restored (load_all d.position_rows) (forget d) refl
          ∙ (ap load_all h.mirror ∙ load-rows d.open_positions))
