-- ===== src/Execution/OrderManager/Manager.antt =====
-- quantcortex/execution/order_manager.py: `OrderManager`. An order is a mutable object that the
-- book holds, so a method that changes the order writes it back under its key.
use quantcortex.Prelude.{String, not, Option, none, some, List, [], ◌∷◌, ◌++◌, if◌then◌else◌}
use quantcortex.Prelude.Result.{Result, ok, err}
use quantcortex.Python.Dict.{Dict, lookup, insert, contains, values}
use quantcortex.Python.Exception.{
  Exception, order_error, duplicate_order_error, unknown_order_error, invalid_transition_error,
  Exec, pure, lift, gets, modify, raise_when, ◌>>=◌, ◌>>◌,
}
use quantcortex.Python.Float.{Float, zero, divide, is_positive}
use quantcortex.Python.Text.{strip, is_blank}
use quantcortex.Python.Value.{Value, null, str, as_text}
use quantcortex.Execution.OrderManager.Status.{
  OrderStatus, submitted, partially_filled, filled, cancelled, rejected, allowed,
}
use quantcortex.Execution.OrderManager.Order.{
  Order, fill_tolerance, bad_price, coerce_order_number, optional_number, validate,
  remaining_quantity, is_active, order_args, make_order,
}

-- `self._orders`
abbrev pub Book : Type 0 → Type 0
Book F = Dict (Order F)

-- `_order_key`
unfoldable pub order_key : {F : Type 0} → Value F → Result Exception String
order_key v = elim (as_text v) [
  | none ↦ err order_error
  | some s ↦ if is_blank (strip s) then err order_error else ok (strip s)
]

-- The book's entry, or `UnknownOrderError`.
abbrev pub or_unknown : {F : Type 0} → Option (Order F) → Result Exception (Order F)
or_unknown none = err unknown_order_error
or_unknown (some o) = ok o

module _ {F : Type 0} where
  -- `OrderManager.get`, with the key under which it looked
  unfoldable pub find : Value F → Exec (Book F) (String × Order F)
  find id = do
    key ← lift (order_key id)
    found ← gets (lookup key)
    o ← lift (or_unknown found)
    pure (key, o)

  -- `_transition`
  unfoldable pub transition : Order F → OrderStatus → Result Exception (Order F)
  transition o next =
      if allowed o.status next
      then ok (record o { status = next; history = o.history ++ next ∷ [] })
      else err invalid_transition_error

  -- `get`, `_transition`, one more write, and the order back
  unfoldable pub move : (Order F → Order F) → OrderStatus → Value F → Exec (Book F) (Order F)
  move touch next id = do
    (key, o) ← find id
    moved ← lift (transition o next)
    modify (insert key (touch moved))
    pure (touch moved)

  unfoldable pub get : Value F → Exec (Book F) (Order F)
  get id = do (_, o) ← find id; pure o

  unfoldable pub submit : Value F → Exec (Book F) (Order F)
  submit = move (λ o. o) submitted

  unfoldable pub cancel : Value F → Exec (Book F) (Order F)
  cancel = move (λ o. o) cancelled

  unfoldable pub reject : Value F → Value F → Exec (Book F) (Order F)
  reject id reason = move (λ o. record o { reject_reason = reason }) rejected id

  -- `OrderManager.orders`
  unfoldable pub orders : Book F → List (Order F)
  orders b = values b

-- `[o for o in orders if o.is_active]`
unfoldable pub keep_active : {F : Type 0} ⦃fl : Float F⦄ → List (Order F) → List (Order F)
keep_active [] = []
keep_active (o ∷ os) = let rest = keep_active os in if is_active o then o ∷ rest else rest

module _ {F : Type 0} ⦃fl : Float F⦄ where
  -- `OrderManager.active_orders`
  unfoldable pub active_orders : Book F → List (Order F)
  unfolding keep_active
  active_orders b = keep_active (values b)

  unfoldable pub create_order :
      Value F → Value F → Value F → Value F → Value F → Value F → Exec (Book F) (Order F)
  create_order id symbol side quantity kind price = do
    key ← lift (order_key id)
    taken ← gets (contains key)
    raise_when taken duplicate_order_error
    o ← lift (make_order (order_args (str key) symbol side quantity kind price))
    modify (insert key o)
    pure o

  unfoldable pub register : Order F → Exec (Book F) (Order F)
  register o = do
    lift (validate o)
    key ← lift (order_key {F = F} (str o.order_id))
    taken ← gets (contains key)
    raise_when taken duplicate_order_error
    let o' : Order F = record o { order_id = key }
    modify (insert key o')
    pure o'

  -- `fill`'s increment: all that remains, unless a quantity is given
  unfoldable pub fill_increment : Value F → Order F → Result Exception F
  fill_increment null o = ok (remaining_quantity o)
  fill_increment v o = coerce_order_number v

  -- the status that a fill leads to
  unfoldable pub fill_target : F → Order F → OrderStatus
  fill_target increment o =
      if fl.le (fl.sub (remaining_quantity o) increment) fill_tolerance
      then filled
      else partially_filled

  -- `order.avg_fill_price or 0.0`
  abbrev pub or_zero : Option F → F
  or_zero none = zero
  or_zero (some p) = if fl.eq p zero then zero else p

  -- the order with the increment added
  abbrev pub grow : F → Order F → Order F
  grow increment o = record o { filled_quantity = fl.add o.filled_quantity increment }

  -- the volume-weighted average price, written after the new quantity
  unfoldable pub average : Option F → F → Order F → Result Exception (Order F)
  average none increment o = ok (grow increment o)
  average (some price) increment o =
      let value =
        fl.add (fl.mul (or_zero o.avg_fill_price) o.filled_quantity) (fl.mul price increment) in
      elim (divide value (fl.add o.filled_quantity increment)) [
        | ok a ↦ ok (record (grow increment o) { avg_fill_price = some a })
        | err e ↦ err e
      ]

  -- `fill` from its first write on
  unfoldable pub write_fill : String → Order F → F → Option F → Exec (Book F) (Order F)
  write_fill key o increment at = do
    modify (insert key (grow increment o))
    priced ← lift (average at increment o)
    modify (insert key priced)
    moved ← lift (transition priced (fill_target increment o))
    modify (insert key moved)
    lift (validate moved)
    pure moved

  unfoldable pub fill : Value F → Value F → Value F → Exec (Book F) (Order F)
  fill id quantity price = do
    (key, o) ← find id
    increment ← lift (fill_increment quantity o)
    raise_when (not (is_positive increment)) order_error
    at ← lift (optional_number price)
    raise_when (bad_price at) order_error
    raise_when (fl.lt fill_tolerance (fl.sub increment (remaining_quantity o))) order_error
    raise_when (not (allowed o.status (fill_target increment o))) invalid_transition_error
    write_fill key o increment at
