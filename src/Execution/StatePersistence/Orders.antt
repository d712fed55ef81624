-- ===== src/Execution/StatePersistence/Orders.antt =====
-- quantcortex/execution/state_persistence.py: orders as JSON objects, and back.
use text.Mathlib.Text.{◌==◌}
use quantcortex.Prelude.{
  String, Bool, true, false, not, ◌||◌, Option, none, some, List, [], ◌∷◌, map, if◌then◌else◌,
}
use quantcortex.Prelude.Result.{Result, ok, err, ◌>>=◌, ◌>>◌, raise_if}
use quantcortex.Python.Exception.{Exception, type_error, value_error, state_persistence_error}
use quantcortex.Python.Float.{Float, zero}
use quantcortex.Python.Objects.{iterate, is_truthy}
use quantcortex.Python.Value.{
  Value, null, num, str, list, dict, Items, nil, cons, Fields, end, field, is_bool, float,
}
use quantcortex.Execution.OrderManager.Status.{
  OrderStatus, new, submitted, partially_filled, filled, cancelled, rejected, OrderSide, buy, sell,
  OrderType, market, limit, order_status,
}
use quantcortex.Execution.OrderManager.Order.{Order, validate, order_args, make_order, statuses}
use quantcortex.Execution.StatePersistence.Codec.{item, item_or, or_persistence_error}

-- `OrderStatus.value`, `OrderSide.value` and `OrderType.value`
unfoldable pub status_text : OrderStatus → String
status_text new = "NEW"
status_text submitted = "SUBMITTED"
status_text partially_filled = "PARTIALLY_FILLED"
status_text filled = "FILLED"
status_text cancelled = "CANCELLED"
status_text rejected = "REJECTED"

unfoldable pub side_text : OrderSide → String
side_text buy = "BUY"
side_text sell = "SELL"

unfoldable pub type_text : OrderType → String
type_text market = "MARKET"
type_text limit = "LIMIT"

module _ {F : Type 0} where
  abbrev pub optional : Option F → Value F
  optional none = null
  optional (some x) = num x

  unfoldable pub status_items : List OrderStatus → Items F
  status_items [] = nil
  status_items (s ∷ ss) = cons (str (status_text s)) (status_items ss)

  -- the items of a list
  unfoldable pub to_list : Items F → List (Value F)
  to_list nil = []
  to_list (cons v vs) = v ∷ to_list vs

  -- a mapping with the keys in order
  abbrev pub fields : List (String × Value F) → Fields F
  fields [] = end
  fields ((k, v) ∷ rest) = field (str k) v (fields rest)

  -- `_serialise` of an order
  unfoldable pub serialise_order : Order F → Fields F
  unfolding status_items
  serialise_order o = fields (
      ("order_id", str o.order_id)
      ∷ ("symbol", str o.symbol)
      ∷ ("side", str (side_text o.side))
      ∷ ("quantity", num o.quantity)
      ∷ ("order_type", str (type_text o.order_type))
      ∷ ("limit_price", optional o.limit_price)
      ∷ ("status", str (status_text o.status))
      ∷ ("filled_quantity", num o.filled_quantity)
      ∷ ("avg_fill_price", optional o.avg_fill_price)
      ∷ ("reject_reason", o.reject_reason)
      ∷ ("history", list (status_items o.history))
      ∷ [])

-- An element of `orders`: an `Order`, or another object.
pub data OrderLike (F : Type 0) : Type 0 where
  order : Order F → OrderLike F
  data_of : Value F → OrderLike F

-- `order_id in seen_ids`
unfoldable pub seen : String → List String → Bool
seen i [] = false
seen i (j ∷ js) = j == i || seen i js

-- `len(ids) != len(set(ids))`
unfoldable pub has_duplicates : List String → Bool
unfolding seen
has_duplicates [] = false
has_duplicates (i ∷ is) = seen i is || has_duplicates is

abbrev pub all_objects : {F : Type 0} → Items F → Bool
all_objects nil = true
all_objects (cons (dict _) vs) = all_objects vs
all_objects (cons _ vs) = false

module _ {F : Type 0} ⦃fl : Float F⦄ where
  -- `_coerce_persisted_number`
  unfoldable pub coerce_persisted_number : Value F → Result Exception F
  coerce_persisted_number v = if is_bool v then err value_error else float v

  unfoldable pub persisted_average : Value F → Result Exception (Option F)
  unfolding coerce_persisted_number
  persisted_average null = ok none
  persisted_average v = do x ← coerce_persisted_number v; ok (some x)

  -- `order.history`, replaced where the object has one that is not empty
  unfoldable pub restored_history : List OrderStatus → Value F → Result Exception (List OrderStatus)
  unfolding to_list
  restored_history kept v =
      if is_truthy v then (do vs ← iterate v; statuses (to_list vs)) else ok kept

  -- an object that `data[...]` takes a text for: a mapping
  abbrev pub mapping_of : Value F → Result Exception (Fields F)
  mapping_of (dict fs) = ok fs
  mapping_of _ = err type_error

  -- `_deserialise_order`
  unfoldable pub deserialise_order : Value F → Result Exception (Order F)
  unfolding coerce_persisted_number persisted_average restored_history
  deserialise_order v = do
    fs ← mapping_of v
    id ← item "order_id" fs
    symbol ← item "symbol" fs
    side ← item "side" fs
    quantity ← item "quantity" fs
    base ← make_order (
        order_args id symbol side quantity (item_or (str "MARKET") "order_type" fs)
          (item_or null "limit_price" fs))
    done ← coerce_persisted_number (item_or (num zero) "filled_quantity" fs)
    average ← persisted_average (item_or null "avg_fill_price" fs)
    status ← order_status (item_or (str "NEW") "status" fs)
    history ← restored_history base.history (item_or null "history" fs)
    let restored : Order F = record base {
      filled_quantity = done;
      avg_fill_price = average;
      reject_reason = item_or null "reject_reason" fs;
      status = status;
      history = history;
    }
    validate restored
    ok restored

  -- the loop of `_serialise_orders`, with the ids so far
  unfoldable pub serialise_all : List (OrderLike F) → List String → Result Exception (Items F)
  unfolding serialise_order deserialise_order seen
  serialise_all [] ids = ok nil
  serialise_all (like ∷ rest) ids = do
    o ← elim like [ order o ↦ ok o | data_of v ↦ deserialise_order v ]
    validate o
    raise_if (seen o.order_id ids) state_persistence_error
    items ← serialise_all rest (o.order_id ∷ ids)
    ok (cons (dict (serialise_order o)) items)

  -- `_serialise_orders`; `none` is a text, a mapping or what cannot be iterated over.
  unfoldable pub serialise_orders : Option (List (OrderLike F)) → Result Exception (Items F)
  unfolding serialise_all
  serialise_orders none = err state_persistence_error
  serialise_orders (some likes) = or_persistence_error (serialise_all likes [])

  unfoldable pub deserialise_all : Items F → Result Exception (List (Order F))
  unfolding deserialise_order
  deserialise_all nil = ok []
  deserialise_all (cons v vs) = do o ← deserialise_order v; os ← deserialise_all vs; ok (o ∷ os)

  -- `_deserialise_orders`
  unfoldable pub deserialise_orders : Value F → Result Exception (List (Order F))
  unfolding deserialise_all has_duplicates
  deserialise_orders (list vs) = do
    raise_if (not (all_objects vs)) state_persistence_error
    orders ← or_persistence_error (deserialise_all vs)
    raise_if (has_duplicates (map (λ o. o.order_id) orders)) state_persistence_error
    ok orders
  deserialise_orders _ = err state_persistence_error
