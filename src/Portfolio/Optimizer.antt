-- ===== src/Portfolio/Optimizer.antt =====
-- quantcortex/portfolio/base.py: `PortfolioOptimizer`. A subclass is the function that computes
-- its raw weights.
use quantcortex.Prelude.{Bool, false, ◌||◌, Option, some, List, [], ◌∷◌}
use quantcortex.Prelude.Result.{Result, ok, err, ◌>>=◌, ◌>>◌, raise_if}
use quantcortex.Python.Exception.{Exception, value_error, type_error}
use quantcortex.Python.Float.{Float, zero, max}
use quantcortex.Python.Numpy.{Numpy, ArrayLike}
use quantcortex.Python.Text.{TextCase}
use quantcortex.Python.Value.{Value, num, str, is_bool, float}
use quantcortex.Portfolio.Contract.{
  PortfolioMode, long_only, market_neutral, coerce_mode, target_sum, bad_tolerance, bad_bounds,
  enforce_weight_contract,
}
use quantcortex.Portfolio.Projection.{project_bounded_sum}

pub record PortfolioOptimizer (F : Type 0) : Type 0 where
  pub mode : PortfolioMode
  pub tolerance : F
  pub lower : F
  pub upper : F

module _ {F : Type 0} where
  -- `weight_bounds`: two values, or `ValueError`; `none` is a value without a length
  abbrev pub two_bounds : Option (List (Value F)) → Result Exception (Value F × Value F)
  two_bounds (some (a ∷ (b ∷ []))) = ok (a, b)
  two_bounds _ = err value_error

module _ {F : Type 0} ⦃fl : Float F⦄ where
  -- `mode is LONG_ONLY and upper <= 0.0`
  abbrev no_room : PortfolioMode → F → Bool
  no_room long_only upper = fl.le upper zero
  no_room market_neutral upper = false

  -- `PortfolioOptimizer.__init__`
  unfoldable pub make_optimizer :
      TextCase
      → Value F
      → Value F
      → Option (List (Value F))
      → Result Exception (PortfolioOptimizer F)
  make_optimizer tc mode tolerance bounds = do
    m ← coerce_mode tc mode
    raise_if (is_bool tolerance) type_error
    t ← float tolerance
    raise_if (bad_tolerance t) value_error
    (a, b) ← two_bounds bounds
    raise_if (is_bool a || is_bool b) type_error
    low ← float a
    high ← float b
    raise_if (bad_bounds low high) value_error
    raise_if (no_room m high) value_error
    ok (record { mode = m; tolerance = t; lower = low; upper = high })

-- the member of the enum, as a value
abbrev pub mode_value : {F : Type 0} → PortfolioMode → Value F
mode_value long_only = str "long_only"
mode_value market_neutral = str "market_neutral"

module _ {F : Type 0} ⦃fl : Float F⦄ ⦃np : Numpy F⦄ where
  -- `PortfolioOptimizer.optimize`, on what `_compute_weights` returned or raised
  unfoldable pub optimize :
      TextCase → PortfolioOptimizer F → Result Exception (ArrayLike F) → Result Exception (List F)
  optimize tc o computed = do
    raw ← computed
    enforce_weight_contract tc raw (mode_value o.mode) (num o.tolerance) (num o.lower) (num o.upper)

  -- the lower bound of a projection: at least zero in long-only mode
  abbrev pub floor : PortfolioMode → F → F
  floor long_only lower = max zero lower
  floor market_neutral lower = lower

  -- `_project_configured_bounds`
  unfoldable pub project_configured_bounds :
      PortfolioOptimizer F → ArrayLike F → Result Exception (List F)
  project_configured_bounds o weights =
      project_bounded_sum weights (num (target_sum o.mode)) (num (floor o.mode o.lower))
        (num o.upper) (num o.tolerance)
