-- ===== src/Scripts/PaperCycle/Intents.antt =====
-- scripts/paper_trade_cycle.py: an order intent, its client order id and its ledger record.
use Prim.Native.String.{◌++◌}
use text.Mathlib.Text.{◌==◌}
use quantcortex.Prelude.{
  String, Bool, true, false, not, ◌||◌, Option, none, some, List, [], ◌∷◌, if◌then◌else◌,
}
use quantcortex.Prelude.Result.{Result, ok, err, ◌>>=◌, raise_if}
use quantcortex.Python.Exception.{
  Exception, value_error, type_error, key_error, order_error, broker_error,
}
use quantcortex.Python.Fields.{entry}
use quantcortex.Python.Float.{Float, zero, is_close}
use quantcortex.Python.Value.{Value, null, num, str, dict}
use quantcortex.Execution.OrderManager.Status.{
  OrderSide, buy, sell, OrderType, market, limit, order_side,
}
use quantcortex.Execution.OrderManager.Order.{Order, fill_tolerance, validate_order_request}
use quantcortex.Execution.StatePersistence.Orders.{side_text}

-- A date that pandas has read, as `%Y%m%d` and in ISO format.
pub record Day : Type 0 where
  pub token : String
  pub iso : String

-- `format(x, ".12g")`, and the first 20 characters of `hashlib.sha256(...).hexdigest()`
pub record Naming (F : Type 0) : Type 0 where
  pub format : F → String
  pub digest : String → String

-- `order.side is other`
unfoldable pub same_side : OrderSide → OrderSide → Bool
same_side buy buy = true
same_side sell sell = true
same_side _ _ = false

abbrev pub is_market : OrderType → Bool
is_market market = true
is_market limit = false

module _ {F : Type 0} where
  -- an entry of the intent, which is no `dict` without it
  abbrev pub intent_item : String → Value F → Result Exception (Value F)
  intent_item k (dict fs) = elim (entry k fs) [ none ↦ err order_error | some v ↦ ok v ]
  intent_item k _ = err order_error

module _ {F : Type 0} ⦃fl : Float F⦄ where
  -- `_intent_request`
  unfoldable pub intent_request : Value F → Result Exception (Order F)
  intent_request intent = do
    symbol ← intent_item "symbol" intent
    side ← intent_item "side" intent
    quantity ← intent_item "quantity" intent
    validate_order_request symbol side quantity (str "MARKET") null

  -- `make_client_order_id`; no day is a timestamp that is not a time.
  unfoldable pub make_client_order_id : Naming F → Option Day → Value F → Result Exception String
  unfolding intent_request
  make_client_order_id naming none intent = err value_error
  make_client_order_id naming (some day) intent = do
    request ← intent_request intent
    let payload : String =
          "quantcortex-multi-asset-rotation|"
          ++ (day.token
              ++ ("|"
                  ++ (request.symbol
                      ++ ("|"
                          ++ (side_text request.side
                              ++ ("|" ++ naming.format request.quantity)))))) in
        ok ("qc-mar-" ++ (day.token ++ ("-" ++ naming.digest payload)))

  -- `_ledger_record`, at a time of the clock
  unfoldable pub ledger_record : String → Day → Order F → String → List (String × Value F)
  ledger_record now day request state =
      ("as_of", str day.iso)
      ∷ ("symbol", str request.symbol)
      ∷ ("side", str (side_text request.side))
      ∷ ("quantity", num request.quantity)
      ∷ ("state", str state)
      ∷ ("updated_at", str now)
      ∷ []

  -- `_assert_order_matches_intent`
  unfoldable pub assert_order_matches_intent : Order F → Order F → Result Exception (Unit {0})
  unfolding same_side
  assert_order_matches_intent order request =
      raise_if
        (not (order.symbol == request.symbol)
          || not (same_side order.side request.side)
          || not (is_market order.order_type)
          || not (is_close zero fill_tolerance order.quantity request.quantity))
        broker_error

module _ {F : Type 0} where
  -- `order["side"]`
  abbrev pub side_item : Value F → Result Exception (Value F)
  side_item (dict fs) = elim (entry "side" fs) [ none ↦ err key_error | some v ↦ ok v ]
  side_item _ = err type_error

  -- the intents of a side, in order
  unfoldable pub of_side : OrderSide → List (Value F) → Result Exception (List (Value F))
  unfolding same_side
  of_side side [] = ok []
  of_side side (intent ∷ intents) = do
    v ← side_item intent
    s ← order_side v
    rest ← of_side side intents
    ok (if same_side s side then intent ∷ rest else rest)
