-- ===== src/Risk/CircuitBreaker/Drawdown.antt =====
-- quantcortex/risk/circuit_breaker.py: `compute_drawdown` and the construction of the breaker.
use quantcortex.Prelude.{Bool, false, not, ◌&&◌, ◌||◌, List, [], ◌∷◌, all, any, ◌==◌, if◌then◌else◌}
use quantcortex.Prelude.Result.{Result, ok, err, ◌>>=◌, ◌>>◌, raise_if}
use quantcortex.Python.Exception.{Exception, value_error, type_error}
use quantcortex.Python.Float.{Float, zero, one, max}
use quantcortex.Python.Numpy.{Numpy, ArrayLike, as_array}
use quantcortex.Python.Value.{int, of_int, Value, null, bool, num, is_bool, float}

pub record CircuitBreaker (F : Type 0) : Type 0 where
  pub max_drawdown : F
  pub reset_drawdown : F
  pub auto_reset : Bool
  pub tripped : Bool

module _ {F : Type 0} ⦃fl : Float F⦄ where
  -- `np.maximum.accumulate(eq)[-1]`, from a first peak
  unfoldable pub running_peak : F → List F → F
  running_peak peak [] = peak
  running_peak peak (x ∷ xs) = running_peak (if fl.lt peak x then x else peak) xs

  -- `eq[-1]`, from a first element
  unfoldable pub last : F → List F → F
  last x [] = x
  last x (y ∷ ys) = last y ys

  -- `compute_drawdown` on the elements of the curve
  unfoldable pub drawdown : List F → Result Exception F
  drawdown [] = err value_error
  drawdown (x ∷ xs) =
      if not (all fl.is_finite (x ∷ xs)) || any (λ v. fl.lt v zero) (x ∷ xs)
      then err value_error
      else if fl.le (running_peak x xs) zero
      then err value_error
      else ok (max (fl.sub one (fl.div (last x xs) (running_peak x xs))) zero)

  -- a number, where numpy's test raises `TypeError` on anything else
  abbrev pub number : Value F → Result Exception F
  number (int n) = ok (of_int n)
  number (num x) = ok x
  number _ = err type_error

  -- `float(reset_drawdown) if reset_drawdown is not None else max_drawdown / 2.0`
  unfoldable pub reset_level : Value F → F → Result Exception F
  reset_level null level = ok (fl.div level (fl.scaled 2 0))
  reset_level v level = float v

  abbrev pub flag : Value F → Result Exception Bool
  flag (bool b) = ok b
  flag _ = err type_error

  -- `CircuitBreaker.__init__`
  unfoldable pub make_breaker : Value F → Value F → Value F → Result Exception (CircuitBreaker F)
  make_breaker max_drawdown reset_drawdown auto_reset = do
    raise_if (is_bool max_drawdown || is_bool reset_drawdown) type_error
    level ← number max_drawdown
    raise_if (not (fl.is_finite level) || not (fl.lt zero level && fl.lt level one)) value_error
    reset ← reset_level reset_drawdown level
    raise_if (not (fl.is_finite reset) || fl.lt reset zero || fl.le level reset) value_error
    auto ← flag auto_reset
    ok (record { max_drawdown = level; reset_drawdown = reset; auto_reset = auto; tripped = false })

module _ {F : Type 0} ⦃fl : Float F⦄ ⦃np : Numpy F⦄ where
  -- `compute_drawdown`; what `np.asarray` raises is not caught
  unfoldable pub compute_drawdown : ArrayLike F → Result Exception F
  compute_drawdown curve = do
    (dimensions, eq) ← as_array curve
    raise_if (not (dimensions == 1)) value_error
    drawdown eq
