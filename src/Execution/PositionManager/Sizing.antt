-- ===== src/Execution/PositionManager/Sizing.antt =====
-- quantcortex/execution/position_manager.py: `target_weights_to_orders`.
use Prim.Native.Nat.{Ordering}
use Prim.Native.String.{compare}
use quantcortex.Prelude.{
  String, Bool, true, false, not, Option, none, some, List, [], ◌∷◌, ◌++◌, if◌then◌else◌,
}
use quantcortex.Prelude.Result.{Result, ok, err, ◌>>=◌, ◌>>◌, raise_if}
use quantcortex.Python.Dict.{Dict, lookup, keys}
use quantcortex.Python.Exception.{Exception, value_error, type_error, overflow_error}
use quantcortex.Python.Float.{Float, zero, divide, is_close}
use quantcortex.Python.Value.{Value, null, bool, num}
use quantcortex.Execution.Brokers.Base.{Position}
use quantcortex.Execution.OrderManager.Status.{OrderSide, buy, sell}
use quantcortex.Execution.OrderManager.Manager.{or_zero}
use quantcortex.Execution.PositionManager.Mapping.{to_float, symbol_mapping}
use quantcortex.Execution.PositionManager.Book.{PositionManager, or_value_error}

-- one entry of the list of order intents
pub record Intent (F : Type 0) : Type 0 where
  pub symbol : String
  pub side : OrderSide
  pub quantity : F

-- A symbol put into a list that is sorted by code points, once.
unfoldable pub insert_sorted : String → List String → List String
insert_sorted k [] = k ∷ []
insert_sorted k (j ∷ js) = elim (compare k j) [
  | Ordering.lt ↦ k ∷ (j ∷ js)
  | Ordering.eq ↦ j ∷ js
  | Ordering.gt ↦ j ∷ insert_sorted k js
]

-- `sorted(set(symbols))`
unfoldable pub sorted : List String → List String
unfolding insert_sorted
sorted [] = []
sorted (k ∷ ks) = insert_sorted k (sorted ks)

module _ {F : Type 0} ⦃fl : Float F⦄ where
  -- Every value through `_to_float`, and `ValueError` at the first that is not a finite number.
  unfoldable pub finite_values : Dict (Value F) → Result Exception (Dict F)
  finite_values [] = ok []
  finite_values ((s, v) ∷ d) = do
    x ← or_value_error (to_float v)
    rest ← finite_values d
    ok ((s, x) ∷ rest)

  -- `{s: p.quantity for s, p in self._positions.items()}`
  unfoldable pub own_quantities : Dict (Position F) → Dict F
  own_quantities [] = []
  own_quantities ((s, p) ∷ d) = (s, p.quantity) ∷ own_quantities d

  -- the holdings: the manager's own, unless a mapping is given
  unfoldable pub holdings : Value F → PositionManager F → Result Exception (Dict F)
  holdings null m = ok (own_quantities m.positions)
  holdings v m = do d ← symbol_mapping v; finite_values d

  -- 1e-9, the default `rel_tol` of `math.isclose` and the `abs_tol` of its call
  abbrev pub share_tolerance : F
  share_tolerance = fl.scaled 1 9

  -- `float(math.trunc(x))`, which raises on an infinity and on NaN
  abbrev pub truncated : F → Result Exception F
  truncated x =
      if fl.is_finite x
      then ok (fl.trunc x)
      else err (if fl.eq x x then overflow_error else value_error)

  -- `self._to_float(amounts.get(symbol)) or 0.0`
  abbrev pub amount_of : Dict F → String → F
  amount_of amounts s =
      or_zero (elim (lookup s amounts) [ none ↦ none | some x ↦ to_float (num x) ])

  -- the target and the current shares: whole, the target towards zero, unless fractions are allowed
  unfoldable pub shares : Bool → F → F → Result Exception (F × F)
  shares true target current = ok (target, current)
  shares false target current = do
    raise_if (not (is_close share_tolerance share_tolerance current (fl.round current))) value_error
    wanted ← truncated target
    ok (wanted, fl.round current)

  abbrev pub intent_of : String → F → Intent F
  intent_of s delta = record {
    symbol = s;
    side = if fl.lt zero delta then buy else sell;
    quantity = fl.abs delta;
  }

  -- the order for one symbol, or none where nothing or too little is to be traded
  unfoldable pub intent :
      Bool
      → F
      → F
      → Dict F
      → Dict F
      → Dict (Value F)
      → String
      → Result Exception (Option (Intent F))
  unfolding shares
  intent fractional capital minimum weights current prices s = do
    price ← or_value_error (elim (lookup s prices) [ none ↦ none | some v ↦ to_float v ])
    raise_if (fl.le price zero) value_error
    target ← divide (fl.mul (amount_of weights s) capital) price
    (wanted, held) ← shares fractional target (amount_of current s)
    let delta = fl.sub wanted held
    ok (
        if fl.eq delta zero
        then none
        else if fl.lt (fl.mul (fl.abs delta) price) minimum
        then none
        else some (intent_of s delta))

  -- `orders.append` over the sorted symbols
  unfoldable pub intents :
      (String → Result Exception (Option (Intent F)))
      → List String
      → Result Exception (List (Intent F))
  intents f [] = ok []
  intents f (s ∷ ss) = do
    x ← f s
    rest ← intents f ss
    ok (elim x [ none ↦ rest | some i ↦ i ∷ rest ])

  abbrev pub as_bool : Value F → Result Exception Bool
  as_bool (bool b) = ok b
  as_bool _ = err type_error

  unfoldable pub target_weights_to_orders :
      Value F
      → Value F
      → Value F
      → Value F
      → Value F
      → Value F
      → PositionManager F
      → Result Exception (List (Intent F))
  target_weights_to_orders targets prices capital current minimum fractional m = do
    weight_map ← symbol_mapping targets
    price_map ← symbol_mapping prices
    fractions ← as_bool fractional
    base ← or_value_error (to_float capital)
    raise_if (fl.le base zero) value_error
    least ← or_value_error (to_float minimum)
    raise_if (fl.lt least zero) value_error
    weights ← finite_values weight_map
    held ← holdings current m
    intents (intent fractions base least weights held price_map)
        (sorted (keys weights ++ keys held))
