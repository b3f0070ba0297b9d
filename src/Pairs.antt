-- ===== src/Pairs.antt =====
-- src/core/pairs.py and pairs_store.py: the pairs that the loop operates, and src/api/routes/pairs.py,
-- which changes them. The rows stand in the order in which they were added.
pub mod Kept
mod Tests
use criptotrade.Base.{
  nat_eq, String, ◌==◌, Bool, true, false, not, ◌&&◌, ◌||◌, Option, none, some, List, [], ◌∷◌, ◌++◌,
  map, if◌then◌else◌, keep, is_empty, any,
}
use Prim.Native.Char.{Char, code}
use criptotrade.Base.Text.{strip, upper, truthy, contains}
use criptotrade.Access.Sets.{member, sort}
use criptotrade.Ledger.{Ledger, log_decision}
use criptotrade.Ledger.Payload.{Json, str, arr, obj, texts, to_fields}

-- A row of `operated_pairs`.
pub record OperatedPair : Type 0 where
  pub symbol : String
  pub paused : Bool
  pub added_at : String

-- The environment: `MARKET_PAIRS` and `SYMBOLS`.
pub record PairsEnv : Type 0 where
  pub market_pairs : Option String
  pub symbols : Option String

abbrev push : Char → List String → List String
push c [] = String.◌∷◌ c "" ∷ []
push c (x ∷ xs) = String.◌∷◌ c x ∷ xs

-- `s.split(d)`
unfoldable pub split : Char → String → List String
split d String.[] = "" ∷ []
split d (String.◌∷◌ c s) =
    let rest = split d s in if nat_eq (code c) (code d) then "" ∷ rest else push c rest

-- `set(xs)`, in some order.
abbrev distinct : List String → List String
distinct [] = []
distinct (x ∷ xs) = let rest = distinct xs in if member x rest then rest else x ∷ rest

-- `parse_pairs`
unfoldable pub parse_pairs : String → List String
parse_pairs raw = sort (distinct (keep truthy (map (λ p. upper (strip p)) (split "," raw))))

abbrev pub default_pairs : String
default_pairs = "BTC/USDT,ETH/USDT,SOL/USDT,BNB/USDT,XRP/USDT"

abbrev or_default : Option String → String → String
or_default none d = d
or_default (some x) d = x

-- `allowed_pairs`
unfoldable pub allowed_pairs : PairsEnv → List String
allowed_pairs env = parse_pairs (or_default env.market_pairs default_pairs)

-- `is_allowed`
unfoldable pub is_allowed : PairsEnv → String → Bool
is_allowed env symbol = member (upper (strip symbol)) (allowed_pairs env)

-- `valid or ["BTC/USDT"]`
abbrev pub or_bitcoin : List String → List String
or_bitcoin [] = "BTC/USDT" ∷ []
or_bitcoin (x ∷ xs) = x ∷ xs

abbrev pub among : List String → List String → List String
among allowed symbols = keep (λ s. member s allowed) symbols

abbrev pub from_env : List String → String → List String
from_env allowed raw =
    if truthy raw then or_bitcoin (among allowed (parse_pairs raw)) else "BTC/USDT" ∷ []

-- `OperatedPairStore.symbols`
abbrev pub symbols_of : List OperatedPair → List String
symbols_of rows = map (λ r. r.symbol) rows

-- `operated_pairs`
unfoldable pub operated_pairs : PairsEnv → List OperatedPair → List String
operated_pairs env rows =
    if is_empty rows
    then from_env (allowed_pairs env) (strip (or_default env.symbols ""))
    else or_bitcoin (among (allowed_pairs env) (symbols_of rows))

-- `add`, an `INSERT OR IGNORE`.
unfoldable pub add : String → String → List OperatedPair → List OperatedPair
add now symbol rows =
    if member symbol (symbols_of rows)
    then rows
    else rows ++ (record { symbol = symbol; paused = false; added_at = now } ∷ [])

abbrev pub add_all : String → List String → List OperatedPair → List OperatedPair
add_all now [] rows = rows
add_all now (s ∷ ss) rows = add_all now ss (add now s rows)

-- `remove`, with whether there was a row.
unfoldable pub remove : String → List OperatedPair → Bool × List OperatedPair
remove symbol rows = (member symbol (symbols_of rows), keep (λ r. not (r.symbol == symbol)) rows)

abbrev pause_row : String → Bool → OperatedPair → OperatedPair
pause_row symbol paused r = if r.symbol == symbol then record r { paused = paused } else r

-- `set_paused`, with whether there was a row.
unfoldable pub set_paused : String → Bool → List OperatedPair → Bool × List OperatedPair
set_paused symbol paused rows =
    (member symbol (symbols_of rows), map (pause_row symbol paused) rows)

-- `_paused_symbols` of the loop
abbrev pub paused_symbols : List OperatedPair → List String
paused_symbols rows = symbols_of (keep (λ r. r.paused) rows)

-- What a route answers: the pairs as they are then, or an error.
pub data PairsReply : Type 0 where
  pairs : PairsReply
  invalid_quote not_in_allowlist unknown_on_exchange already_operated not_operated : PairsReply

abbrev dash_to_slash : String → String
dash_to_slash String.[] = ""
dash_to_slash (String.◌∷◌ c s) =
    String.◌∷◌ (if nat_eq (code c) (code "-") then "/" else c) (dash_to_slash s)

-- `_norm`
unfoldable pub norm : String → String
norm symbol = let s = upper (strip symbol) in if contains "/" s then s else dash_to_slash s

abbrev ends_with : String → String → Bool
ends_with suffix String.[] = suffix == ""
ends_with suffix (String.◌∷◌ c s) =
    let rest = ends_with suffix s in (String.◌∷◌ c s) == suffix || rest

-- A market list that is there, is not empty and lacks the symbol.
abbrev is_unknown : Option (List String) → String → Bool
is_unknown none symbol = false
is_unknown (some markets) symbol = not (is_empty markets) && not (member symbol markets)

-- `_validate_addable`; the markets are none where the client raises.
unfoldable pub validate_addable : PairsEnv → Option (List String) → String → Option PairsReply
validate_addable env markets symbol =
    if not (ends_with "/USDT" symbol)
    then some invalid_quote
    else if not (is_allowed env symbol)
    then some not_in_allowlist
    else if is_unknown markets symbol
    then some unknown_on_exchange
    else none

-- The rows after a pair is added to the pairs that were operated.
abbrev pub extended : String → String → List String → List OperatedPair → List OperatedPair
extended now symbol old rows = add now symbol (if is_empty rows then add_all now old rows else rows)

module _ {F : Type 0} where
  abbrev operated_field : List String → Json F
  operated_field symbols = obj (to_fields (("operated", arr (texts symbols)) ∷ []))

  abbrev paused_state : List OperatedPair → Json F
  paused_state rows = obj (
      to_fields (
        ("operated", arr (texts (symbols_of rows)))
        ∷ ("paused", arr (texts (paused_symbols rows)))
        ∷ []))

  abbrev config_changed : String → Json F → Json F → Ledger F → Ledger F
  config_changed actor old new =
      log_decision "config_changed"
        (("actor", str actor) ∷ ("scope", str "pairs") ∷ ("before", old) ∷ ("after", new) ∷ [])

  abbrev add_checked :
      PairsEnv
      → String
      → String
      → String
      → Option PairsReply
      → List OperatedPair × Ledger F
      → PairsReply × List OperatedPair × Ledger F
  add_checked env actor now symbol (some refusal) (rows, l) = (refusal, rows, l)
  add_checked env actor now symbol none (rows, l) =
      let old = operated_pairs env rows in
      let rows' = extended now symbol old rows in
      if member symbol old then (already_operated, rows, l) else (
        pairs,
        rows',
        config_changed actor (operated_field old) (operated_field (symbols_of rows')) l,
      )

  -- `add_operated`
  unfoldable pub add_operated :
      PairsEnv
      → Option (List String)
      → String
      → String
      → String
      → List OperatedPair × Ledger F
      → PairsReply × List OperatedPair × Ledger F
  add_operated env markets actor now symbol s =
      add_checked env actor now (norm symbol) (validate_addable env markets (norm symbol)) s

  -- `patch_operated`
  unfoldable pub patch_operated :
      String
      → String
      → Bool
      → List OperatedPair × Ledger F
      → PairsReply × List OperatedPair × Ledger F
  patch_operated actor symbol paused (rows, l) =
      let (found, rows') = set_paused (norm symbol) paused rows in
      if found
      then (pairs, rows', config_changed actor (paused_state rows) (paused_state rows') l)
      else (not_operated, rows, l)

  -- `remove_operated`
  unfoldable pub remove_operated :
      String → String → List OperatedPair × Ledger F → PairsReply × List OperatedPair × Ledger F
  remove_operated actor symbol (rows, l) =
      let (found, rows') = remove (norm symbol) rows in
      if found
      then (
        pairs,
        rows',
        config_changed actor (operated_field (symbols_of rows)) (operated_field (symbols_of rows'))
            l,
      )
      else (not_operated, rows, l)
