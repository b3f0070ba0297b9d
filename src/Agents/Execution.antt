-- ===== src/Agents/Execution.antt =====
-- `ExecutionAgent` of src/agents/execution_agent.py. The paper order of the exchange client is an
-- argument, and so is the id of a synthetic fill.
use criptotrade.Base.{
  ◌≡◌, String, ◌==◌, Bool, true, not, ◌||◌, Option, none, some, List, [], ◌∷◌, if◌then◌else◌, arith,
}
use Prim.Native.String.{◌++◌}
use mathlib.Core.List
use criptotrade.Base.Text.{lower, clip, truthy}
use criptotrade.Base.Float.{Float, nought, one}
use criptotrade.Orders.Bridge.{Signal, or_else}

-- An order as the exchange client returns it.
pub record PaperOrder (F : Type 0) : Type 0 where
  pub id : Option String
  pub average : Option F
  pub price : Option F
  pub fee_cost : Option F
  pub status : Option String

-- A call of `create_order`: the symbol, the side and the amount of a market order.
pub record OrderCall (F : Type 0) : Type 0 where
  pub symbol : String
  pub side : String
  pub amount : F

pub record Observation (F : Type 0) : Type 0 where
  pub success : Bool
  pub order_id : Option String
  pub executed_price : Option F
  pub fee : F
  pub confidence : F

-- What the agent returns.
pub data Outcome (F : Type 0) : Type 0 where
  approval_required : Outcome F
  placed : Observation F → Outcome F

-- A task.
pub record Task (F : Type 0) : Type 0 where
  pub signal : Signal F
  pub human_approved : Bool
  pub quantity : Option F

abbrev symbol_of : Option String → String
symbol_of none = ""
symbol_of (some x) = x

abbrev is_done : String → Bool
is_done status = status == "filled" || (status == "closed" || status == "open")

module _ {F : Type 0} ⦃fl : Float F⦄ where
  -- `float(quantity) if quantity else 0.0`
  abbrev pub amount_of : Option F → F
  amount_of none = nought
  amount_of (some q) = q

  -- `order.get("average") or order.get("price")`
  abbrev first_price : Option F → Option F → Option F
  first_price none p = p
  first_price (some a) p = if fl.is_zero a then p else some a

  abbrev pub observe : PaperOrder F → Observation F
  observe o = record {
    success = is_done (or_else o.status "filled");
    order_id = o.id;
    executed_price = first_price o.average o.price;
    fee = amount_of o.fee_cost;
    confidence = if is_done (or_else o.status "filled") then one else nought;
  }

  abbrev pub synthetic : String → Observation F
  synthetic uuid = record {
    success = true;
    order_id = some ("PAPER_" ++ clip 8 uuid);
    executed_price = none;
    fee = nought;
    confidence = one;
  }

  abbrev pub has_no_sizing : Signal F → Option F → Bool
  has_no_sizing signal quantity =
      not (truthy (symbol_of signal.symbol)) || fl.le (amount_of quantity) nought

  abbrev pub call_of : Signal F → Option F → OrderCall F
  call_of signal quantity = record {
    symbol = symbol_of signal.symbol;
    side = lower (or_else signal.action "buy");
    amount = amount_of quantity;
  }

  -- `_simulate_order`, with the calls that the exchange has got.
  unfoldable pub simulate_order :
      (OrderCall F → PaperOrder F)
      → String
      → Signal F
      → Option F
      → List (OrderCall F)
      → Observation F × List (OrderCall F)
  simulate_order exchange uuid signal quantity calls =
      if has_no_sizing signal quantity then (synthetic uuid, calls) else (
        observe (exchange (call_of signal quantity)),
        List.◌++◌ calls (call_of signal quantity ∷ []),
      )

  abbrev placed_by : Observation F × List (OrderCall F) → Outcome F × List (OrderCall F)
  placed_by (o, calls) = (placed o, calls)

  -- `execute`; paper trading is always set.
  unfoldable pub execute :
      (OrderCall F → PaperOrder F)
      → String
      → Task F
      → List (OrderCall F)
      → Outcome F × List (OrderCall F)
  execute exchange uuid task calls =
      if task.human_approved
      then placed_by (simulate_order exchange uuid task.signal task.quantity calls)
      else (approval_required, calls)

  -- Without the approval the exchange gets no call, whatever the task; with it, one call exactly if
  -- there is a symbol and a positive amount.
  pub execute-calls :
      (exchange : OrderCall F → PaperOrder F) (uuid : String) (task : Task F)
      (calls : List (OrderCall F))
      → (execute exchange uuid task calls).1 ≡ (
          if not task.human_approved || has_no_sizing task.signal task.quantity
          then calls
          else List.◌++◌ calls (call_of task.signal task.quantity ∷ []))
  unfolding execute simulate_order
  execute-calls exchange uuid task calls = ground arith
