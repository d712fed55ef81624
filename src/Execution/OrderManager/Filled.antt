-- ===== src/Execution/OrderManager/Filled.antt =====
-- quantcortex/execution/order_manager.py: the order that `fill` writes, and the guards before it.
use quantcortex.Prelude.{
  String, ◌≡◌, refl, ap, ◌⊎◌, inl, inr, true, false, Option, none, some, [], ◌∷◌, ◌++◌, arith,
  if◌then◌else◌,
}
use quantcortex.Prelude.Result.{ok}
use quantcortex.Python.Dict.{lookup}
use quantcortex.Python.Float.{Float, zero, is_positive}
use quantcortex.Python.Value.{Value, null, bool, int, num, str, list, dict, other}
use quantcortex.Execution.OrderManager.Status.{OrderStatus, filled, partially_filled, allowed}
use quantcortex.Execution.OrderManager.Order.{
  Order, remaining_quantity, fill_tolerance, optional_number, bad_price, coerce_order_number,
}
use quantcortex.Execution.OrderManager.Manager.{
  Book, order_key, fill_increment, fill_target, average, grow,
}
use quantcortex.Execution.OrderManager.FillOutcomes.{after_fill}

module _ {F : Type 0} ⦃fl : Float F⦄ where
  -- The order that a fill writes: the increment is added, the status is FILLED where what then
  -- remains is within the tolerance and PARTIALLY_FILLED elsewhere, the history has the new status
  -- last, the average price is the one before where no price is given, and else the average
  -- weighted by volume, and all other fields stay.
  abbrev pub status_after : F → Order F → OrderStatus
  status_after increment o =
      if fl.le (fl.sub (remaining_quantity o) increment) fill_tolerance
      then filled
      else partially_filled

  abbrev pub average_before : Option F → F
  average_before none = zero
  average_before (some p) = if fl.eq p zero then zero else p

  abbrev pub average_after : F → Option F → Order F → Option F
  average_after increment none o = o.avg_fill_price
  average_after increment (some price) o = some (
      fl.div
        (fl.add (fl.mul (average_before o.avg_fill_price) o.filled_quantity)
          (fl.mul price increment))
        (fl.add o.filled_quantity increment))

  abbrev pub with_fill : F → Option F → Order F → Order F
  with_fill increment at o = record o {
    filled_quantity = fl.add o.filled_quantity increment;
    avg_fill_price = average_after increment at o;
    status = status_after increment o;
    history = o.history ++ status_after increment o ∷ [];
  }

  -- What a fill asks for: all that remains, or a number.
  abbrev pub Asks : Value F → Order F → F → Type 0
  Asks quantity o increment =
      ((quantity ≡ null) × (increment ≡ remaining_quantity o))
      ⊎ (coerce_order_number quantity ≡ ok increment)

  Asks-fill_increment :
      (quantity : Value F) (o : Order F) (increment : F)
      → fill_increment quantity o ≡ ok increment
      → Asks quantity o increment
  unfolding fill_increment
  Asks-fill_increment null o increment h = inl (refl, cc)
  Asks-fill_increment (bool _) o increment h = inr h
  Asks-fill_increment (int _) o increment h = inr h
  Asks-fill_increment (num _) o increment h = inr h
  Asks-fill_increment (str _) o increment h = inr h
  Asks-fill_increment (list _) o increment h = inr h
  Asks-fill_increment (dict _) o increment h = inr h
  Asks-fill_increment other o increment h = inr h

  -- A price is absent, or a positive number.
  abbrev pub IsPrice : Option F → Type 0
  IsPrice none = Unit
  IsPrice (some p) = is_positive p ≡ true

  IsPrice-usable : (at : Option F) → bad_price at ≡ false → IsPrice at
  IsPrice-usable none h = tt
  IsPrice-usable (some p) h = ground arith

  pub priced-with_fill :
      (at : Option F) (increment : F) (o priced : Order F)
      → average at increment o ≡ ok priced
      → after_fill increment o priced ≡ with_fill increment at o
  unfolding average fill_target
  priced-with_fill none increment o priced h =
      let same : priced ≡ grow increment o = cc in
      ap (λ (x : Order F). after_fill increment o x) same
  priced-with_fill (some price) increment o priced h = ground arith

  -- The fill passed its guards: the order under the id's key, the increment that was asked for,
  -- positive and within what remains, a usable price, and a legal transition.
  pub record Fillable (quantity price id : Value F) (b : Book F) (k : String) (o : Order F)
      (increment : F) (at : Option F) : Type 0 where
    pub keyed : order_key id ≡ ok k
    pub found : lookup k b ≡ some o
    pub asks : Asks quantity o increment
    pub positive : is_positive increment ≡ true
    pub fits : fl.lt fill_tolerance (fl.sub increment (remaining_quantity o)) ≡ false
    pub reads : optional_number price ≡ ok at
    pub priced : IsPrice at
    pub legal : allowed o.status (status_after increment o) ≡ true

  pub accepted-Fillable :
      {quantity price id : Value F} {b : Book F} {k : String} {o : Order F} {increment : F}
      {at : Option F}
      → order_key id ≡ ok k
      → lookup k b ≡ some o
      → fill_increment quantity o ≡ ok increment
      → is_positive increment ≡ true
      → fl.lt fill_tolerance (fl.sub increment (remaining_quantity o)) ≡ false
      → allowed o.status (fill_target increment o) ≡ true
      → optional_number price ≡ ok at
      → bad_price at ≡ false
      → Fillable quantity price id b k o increment at
  unfolding fill_target
  accepted-Fillable {quantity} {o = o} {increment} {at} keyed found taken positive fits legal read
        usable =
      record {
        keyed = keyed;
        found = found;
        asks = Asks-fill_increment quantity o increment taken;
        positive = positive;
        fits = fits;
        reads = read;
        priced = IsPrice-usable at usable;
        legal = legal;
      }
