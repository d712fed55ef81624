-- ===== src/Execution/OrderManager/Status.antt =====
-- quantcortex/execution/order_manager.py: the enums, and the table of legal transitions.
use text.Mathlib.Text.{◌==◌}
use quantcortex.Prelude.{◌≡◌, Bool, true, false, arith, if◌then◌else◌}
use quantcortex.Prelude.Result.{Result, ok, err}
use quantcortex.Python.Exception.{Exception, value_error}
use quantcortex.Python.Value.{Value, str}

pub data OrderStatus : Type 0 where
  new submitted partially_filled filled cancelled rejected : OrderStatus

pub data OrderSide : Type 0 where
  buy sell : OrderSide

pub data OrderType : Type 0 where
  market limit : OrderType

-- `OrderSide(value)`, `OrderType(value)` and `OrderStatus(value)` raise `ValueError` on anything
-- but the text of a member. The caller turns that into its own class.
unfoldable pub order_side : {F : Type 0} → Value F → Result Exception OrderSide
order_side (str s) = if s == "BUY" then ok buy else if s == "SELL" then ok sell else err value_error
order_side _ = err value_error

unfoldable pub order_type : {F : Type 0} → Value F → Result Exception OrderType
order_type (str s) =
    if s == "MARKET" then ok market else if s == "LIMIT" then ok limit else err value_error
order_type _ = err value_error

unfoldable pub order_status : {F : Type 0} → Value F → Result Exception OrderStatus
order_status (str s) =
    if s == "NEW"
    then ok new
    else if s == "SUBMITTED"
    then ok submitted
    else if s == "PARTIALLY_FILLED"
    then ok partially_filled
    else if s == "FILLED"
    then ok filled
    else if s == "CANCELLED"
    then ok cancelled
    else if s == "REJECTED"
    then ok rejected
    else err value_error
order_status _ = err value_error

-- `status is other`
abbrev pub same_status : OrderStatus → OrderStatus → Bool
same_status new new = true
same_status submitted submitted = true
same_status partially_filled partially_filled = true
same_status filled filled = true
same_status cancelled cancelled = true
same_status rejected rejected = true
same_status _ _ = false

-- `OrderStatus.is_terminal`
unfoldable pub is_terminal : OrderStatus → Bool
is_terminal filled = true
is_terminal cancelled = true
is_terminal rejected = true
is_terminal _ = false

-- `current in _VALID_TRANSITIONS[previous]`
unfoldable pub allowed : OrderStatus → OrderStatus → Bool
allowed new submitted = true
allowed new cancelled = true
allowed new rejected = true
allowed submitted partially_filled = true
allowed submitted filled = true
allowed submitted cancelled = true
allowed submitted rejected = true
allowed partially_filled partially_filled = true
allowed partially_filled filled = true
allowed partially_filled cancelled = true
allowed _ _ = false

-- Nothing leaves a terminal status.
pub terminal_final : (a b : OrderStatus) → is_terminal a ≡ true → allowed a b ≡ false
unfolding is_terminal allowed
terminal_final a b h = ground arith
