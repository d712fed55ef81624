-- ===== src/Execution/OrderManager/Order.antt =====
-- quantcortex/execution/order_manager.py: `Order`, its validation and its construction.
use quantcortex.Prelude.{
  String, Bool, true, false, not, ◌&&◌, ◌||◌, Option, none, some, List, [], ◌∷◌, if◌then◌else◌,
  is_empty,
}
use quantcortex.Prelude.Result.{Result, ok, err, ◌>>=◌, ◌>>◌, raise_if}
use quantcortex.Python.Exception.{Exception, order_error}
use quantcortex.Python.Float.{Float, zero, max, is_positive, is_close}
use quantcortex.Python.Text.{strip, is_blank}
use quantcortex.Python.Value.{Value, null, str, num, is_bool, as_text, float}
use quantcortex.Execution.OrderManager.Status.{
  OrderStatus, partially_filled, filled, OrderSide, OrderType, limit, order_side, order_type,
  order_status, same_status, allowed, is_terminal,
}

pub record Order (F : Type 0) : Type 0 where
  pub order_id : String
  pub symbol : String
  pub side : OrderSide
  pub quantity : F
  pub order_type : OrderType
  pub limit_price : Option F
  pub status : OrderStatus
  pub filled_quantity : F
  pub avg_fill_price : Option F
  pub reject_reason : Value F
  pub history : List OrderStatus

-- `history[-1] is not status`, on a history that may be empty
abbrev pub ends_at : OrderStatus → List OrderStatus → Bool
ends_at s [] = false
ends_at s (x ∷ []) = same_status x s
ends_at s (x ∷ (y ∷ r)) = ends_at s (y ∷ r)

-- Every pair of `zip(history, history[1:])` is a legal transition.
abbrev pub all_legal : List OrderStatus → Bool
all_legal [] = true
all_legal (x ∷ []) = true
all_legal (x ∷ (y ∷ r)) = allowed x y && all_legal (y ∷ r)

-- Any class that a coercion raises becomes `OrderError`.
abbrev pub or_order_error {ℓ} : {A : Type ℓ} → Result Exception A → Result Exception A
or_order_error (ok a) = ok a
or_order_error (err _) = err order_error

module _ {F : Type 0} ⦃fl : Float F⦄ where
  -- 1e-9
  abbrev pub fill_tolerance : F
  fill_tolerance = fl.scaled 1 9

  -- `_coerce_order_number`
  unfoldable pub coerce_order_number : Value F → Result Exception F
  coerce_order_number v = if is_bool v then err order_error else or_order_error (float v)

  -- `value is not None and not (finite and positive)`
  abbrev pub bad_price : Option F → Bool
  bad_price none = false
  bad_price (some p) = not (is_positive p)

  abbrev pub lacks_limit : OrderType → Option F → Bool
  lacks_limit limit none = true
  lacks_limit _ _ = false

  -- the two tests on the fill that depend on the status
  abbrev pub bad_fill : OrderStatus → F → F → Bool
  bad_fill filled done total = not (is_close zero fill_tolerance done total)
  bad_fill partially_filled done total =
      not (fl.lt zero done && fl.lt done (fl.sub total fill_tolerance))
  bad_fill _ done total = false

  -- `Order.validate`
  unfoldable pub validate : Order F → Result Exception (Unit {0})
  validate o = do
    raise_if (is_blank (strip o.order_id)) order_error
    raise_if (is_blank (strip o.symbol)) order_error
    raise_if (not (is_positive o.quantity)) order_error
    raise_if (lacks_limit o.order_type o.limit_price) order_error
    raise_if (bad_price o.limit_price) order_error
    raise_if
        (not (fl.is_finite o.filled_quantity)
          || fl.lt o.filled_quantity zero
          || fl.lt (fl.add o.quantity fill_tolerance) o.filled_quantity)
        order_error
    raise_if (bad_price o.avg_fill_price) order_error
    raise_if (bad_fill o.status o.filled_quantity o.quantity) order_error
    raise_if (not (ends_at o.status o.history)) order_error
    raise_if (not (all_legal o.history)) order_error

  -- `Order.remaining_quantity` and `Order.is_active`
  unfoldable pub remaining_quantity : Order F → F
  remaining_quantity o = max (fl.sub o.quantity o.filled_quantity) zero

  unfoldable pub is_active : Order F → Bool
  is_active o = not (is_terminal o.status)

-- The arguments of the constructor, before `__post_init__` has coerced them.
pub record OrderArgs (F : Type 0) : Type 0 where
  pub order_id : Value F
  pub symbol : Value F
  pub side : Value F
  pub quantity : Value F
  pub order_type : Value F
  pub limit_price : Value F
  pub status : Value F
  pub filled_quantity : Value F
  pub avg_fill_price : Value F
  pub reject_reason : Value F
  pub history : List (Value F)

module _ {F : Type 0} where
  -- a text argument, stripped
  abbrev pub text_field : Value F → Result Exception String
  text_field v = elim (as_text v) [ none ↦ err order_error | some s ↦ ok (strip s) ]

  -- `[OrderStatus(item) for item in history]`
  unfoldable pub statuses : List (Value F) → Result Exception (List OrderStatus)
  statuses [] = ok []
  statuses (v ∷ vs) = do s ← order_status v; rest ← statuses vs; ok (s ∷ rest)

module _ {F : Type 0} ⦃fl : Float F⦄ where
  -- `None` stays, and anything else is coerced.
  unfoldable pub optional_number : Value F → Result Exception (Option F)
  optional_number null = ok none
  optional_number v = do x ← coerce_order_number v; ok (some x)

  -- `__post_init__` before it validates
  unfoldable pub coerced : OrderArgs F → Result Exception (Order F)
  coerced r = do
    id ← text_field r.order_id
    symbol ← text_field r.symbol
    side ← or_order_error (order_side r.side)
    kind ← or_order_error (order_type r.order_type)
    status ← or_order_error (order_status r.status)
    history ← or_order_error (statuses r.history)
    quantity ← coerce_order_number r.quantity
    done ← coerce_order_number r.filled_quantity
    price ← optional_number r.limit_price
    average ← optional_number r.avg_fill_price
    ok (record {
      order_id = id;
      symbol = symbol;
      side = side;
      quantity = quantity;
      order_type = kind;
      limit_price = price;
      status = status;
      filled_quantity = done;
      avg_fill_price = average;
      reject_reason = r.reject_reason;
      history = if is_empty history then status ∷ [] else history;
    })

  -- The constructor: `__init__` and `Order.__post_init__`
  unfoldable pub make_order : OrderArgs F → Result Exception (Order F)
  make_order r = do o ← coerced r; validate o; ok o

  -- the constructor's defaults
  abbrev pub order_args : Value F → Value F → Value F → Value F → Value F → Value F → OrderArgs F
  order_args id symbol side quantity kind price = record {
    order_id = id;
    symbol = symbol;
    side = side;
    quantity = quantity;
    order_type = kind;
    limit_price = price;
    status = str "NEW";
    filled_quantity = num zero;
    avg_fill_price = null;
    reject_reason = null;
    history = [];
  }

  -- `validate_order_request`
  unfoldable pub validate_order_request :
      Value F → Value F → Value F → Value F → Value F → Result Exception (Order F)
  unfolding make_order
  validate_order_request symbol side quantity kind price =
      make_order (order_args (str "preflight") symbol side quantity kind price)
