-- ===== src/Portfolio/Normalize.antt =====
-- quantcortex/portfolio/base.py: `normalize_long_only` and `normalize_market_neutral`.
use quantcortex.Prelude.{Bool, not, ◌||◌, List, map, all, is_empty, ◌==◌}
use quantcortex.Prelude.Result.{Result, ok, ◌>>=◌, ◌>>◌, raise_if}
use quantcortex.Python.Exception.{Exception, weight_contract_violation}
use quantcortex.Python.Float.{Float, zero, one, max, min}
use quantcortex.Python.Numpy.{Numpy, ArrayLike, as_array, contains_boolean}

module _ {F : Type 0} ⦃fl : Float F⦄ where
  -- `np.clip(x, lower, upper)` on an element that is not NaN
  abbrev pub clip : F → F → F → F
  clip lower upper x = min (max x lower) upper

module _ {F : Type 0} ⦃fl : Float F⦄ ⦃np : Numpy F⦄ where
  -- the tests on the scores; what `np.asarray` raises is not caught
  unfoldable pub scores : ArrayLike F → Result Exception (List F)
  scores raw = do
    raise_if (contains_boolean raw) weight_contract_violation
    (dimensions, arr) ← as_array raw
    raise_if (not (dimensions == 1) || is_empty arr) weight_contract_violation
    raise_if (not (all fl.is_finite arr)) weight_contract_violation
    ok arr

  -- `total <= 0.0 or not np.isfinite(total)`
  abbrev pub no_mass : F → Bool
  no_mass total = fl.le total zero || not (fl.is_finite total)

  unfoldable pub normalize_long_only : ArrayLike F → Result Exception (List F)
  normalize_long_only raw = do
    arr ← scores raw
    let clipped = map (λ x. max x zero) arr
    raise_if (no_mass (np.sum clipped)) weight_contract_violation
    ok (map (λ x. fl.div x (np.sum clipped)) clipped)

  unfoldable pub normalize_market_neutral : ArrayLike F → Result Exception (List F)
  normalize_market_neutral raw = do
    arr ← scores raw
    let demeaned = map (λ x. fl.sub x (np.mean arr)) arr
    let gross = np.sum (map fl.abs demeaned)
    raise_if (no_mass gross) weight_contract_violation
    let w = map (λ x. clip (fl.neg one) one (fl.div x gross)) demeaned
    ok (map (λ x. fl.sub x (np.mean w)) w)
