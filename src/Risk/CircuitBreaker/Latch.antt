-- ===== src/Risk/CircuitBreaker/Latch.antt =====
-- quantcortex/risk/circuit_breaker.py: the latch and `CircuitBreaker.apply`.
use quantcortex.Prelude.{
  Bool, true, false, not, ◌&&◌, ◌||◌, Option, none, some, List, map, all, is_empty, ◌==◌,
  if◌then◌else◌, replicate, length,
}
use quantcortex.Prelude.Result.{Result, ok, err}
use quantcortex.Python.Exception.{
  Exception, value_error, Exec, lift, gets, modify, raise_when, ◌>>=◌, ◌>>◌,
}
use quantcortex.Python.Float.{Float, zero, one, max}
use quantcortex.Python.Numpy.{Numpy, ArrayLike, array, as_array}
use quantcortex.Python.Value.{Value, null, num, float}
use quantcortex.Portfolio.Contract.{enforce_exposure_contract}
use quantcortex.Risk.CircuitBreaker.Drawdown.{CircuitBreaker, compute_drawdown}

module _ {F : Type 0} ⦃fl : Float F⦄ where
  -- `_update_state`: the latch after a drawdown
  unfoldable pub update_state : F → CircuitBreaker F → CircuitBreaker F
  update_state drawdown c =
      if c.tripped
      then (if c.auto_reset && fl.le drawdown c.reset_drawdown
          then record c { tripped = false }
          else c)
      else (if fl.le c.max_drawdown drawdown then record c { tripped = true } else c)

  -- `CircuitBreaker.reset`
  unfoldable pub reset : CircuitBreaker F → CircuitBreaker F
  reset c = record c { tripped = false }

module _ {F : Type 0} ⦃fl : Float F⦄ ⦃np : Numpy F⦄ where
  -- the current drawdown: given, or computed from the curve
  unfoldable pub current : Option (ArrayLike F) → Value F → Result Exception F
  current none null = err value_error
  current (some curve) null = compute_drawdown curve
  current curve v = float v

  -- a vector of finite numbers with an element; no test for booleans
  unfoldable pub book : ArrayLike F → Result Exception (List F)
  book weights = elim (as_array weights) [
    | err e ↦ err e
    | ok (dimensions, w) ↦
        if not (dimensions == 1) || is_empty w || not (all fl.is_finite w)
        then err value_error
        else ok w
  ]

  -- the cap on the gross exposure: that of the incoming book, and at least one
  abbrev pub gross_cap : List F → F
  gross_cap w = fl.add (max one (np.sum (map fl.abs w))) (fl.scaled 1 9)

  -- `enforce_exposure_contract(out, max_gross=max_gross)`, at its defaults
  abbrev pub enforced : List F → List F → Result Exception (List F)
  enforced w out =
      enforce_exposure_contract (array 1 out) (num (gross_cap w)) (num (fl.scaled 1 6))
        (num (fl.neg one)) (num one)

  -- the weights that leave the breaker
  abbrev pub flattened : Bool → List F → List F
  flattened tripped w = if tripped then replicate (length w) zero else w

  -- `CircuitBreaker.apply`; the latch moves before the result is enforced
  unfoldable pub apply :
      ArrayLike F → Option (ArrayLike F) → Value F → Exec (CircuitBreaker F) (List F)
  apply weights curve given = do
    w ← lift (book weights)
    d ← lift (current curve given)
    raise_when (not (fl.is_finite d) || not (fl.le zero d && fl.le d one)) value_error
    modify (update_state d)
    tripped ← gets (λ c. c.tripped)
    lift (enforced w (flattened tripped w))
