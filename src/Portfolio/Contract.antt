-- ===== src/Portfolio/Contract.antt =====
-- quantcortex/portfolio/base.py: the modes and the two contracts on a weight vector.
pub mod Laws
mod Tests
use text.Mathlib.Text.{◌==◌ as str_eq}
use quantcortex.Prelude.{
  ℕ, String, ◌≡◌, Bool, true, false, not, ◌&&◌, ◌||◌, Option, none, some, List, [], ◌∷◌, map, any,
  all, is_empty, if◌then◌else◌, ◌==◌,
}
use quantcortex.Prelude.Result.{Result, ok, err, ◌>>=◌, ◌>>◌, raise_if}
use quantcortex.Python.Exception.{Exception, weight_contract_violation}
use quantcortex.Python.Float.{Float, zero, one}
use quantcortex.Python.Numpy.{Numpy, ArrayLike, as_array, contains_boolean}
use quantcortex.Python.Text.{TextCase}
use quantcortex.Python.Value.{Value, str, is_bool, float}

pub data PortfolioMode : Type 0 where
  long_only market_neutral : PortfolioMode

-- `PortfolioMode(text)`
unfoldable pub mode_of_text : String → Result Exception PortfolioMode
mode_of_text s =
    if str_eq s "long_only"
    then ok long_only
    else if str_eq s "market_neutral"
    then ok market_neutral
    else err weight_contract_violation

-- `PortfolioMode.coerce`: a member stays, and other text is matched in lower case. No other value
-- has the text of a member.
unfoldable pub coerce_mode : {F : Type 0} → TextCase → Value F → Result Exception PortfolioMode
coerce_mode tc (str s) = elim (mode_of_text s) [ ok m ↦ ok m | err _ ↦ mode_of_text (tc.lower s) ]
coerce_mode tc _ = err weight_contract_violation

module _ {F : Type 0} ⦃fl : Float F⦄ where
  -- `PortfolioMode.target_sum`
  unfoldable pub target_sum : PortfolioMode → F
  target_sum long_only = one
  target_sum market_neutral = zero

  -- `float(value)`, any of its exceptions as the contract's
  unfoldable pub contract_number : Value F → Result Exception F
  contract_number v = elim (float v) [ ok x ↦ ok x | err _ ↦ err weight_contract_violation ]

  -- `arr < -tolerance`, in long-only mode
  abbrev pub is_short : PortfolioMode → F → F → Bool
  is_short long_only tolerance w = fl.lt w (fl.neg tolerance)
  is_short market_neutral tolerance w = false

  -- `arr < lower - tolerance` or `arr > upper + tolerance`
  abbrev pub is_outside : F → F → F → F → Bool
  is_outside tolerance lower upper w =
      fl.lt w (fl.sub lower tolerance) || fl.lt (fl.add upper tolerance) w

  -- the tests on the limits
  abbrev pub bad_tolerance : F → Bool
  bad_tolerance t = not (fl.is_finite t) || fl.lt t zero

  abbrev pub bad_bounds : F → F → Bool
  bad_bounds lower upper = not (fl.is_finite lower) || not (fl.is_finite upper) || fl.lt upper lower

module _ {F : Type 0} ⦃fl : Float F⦄ ⦃np : Numpy F⦄ where
  -- A vector: no booleans, an array of one dimension, with elements, all of them finite.
  unfoldable pub finite_vector : ArrayLike F → Result Exception (List F)
  finite_vector weights = do
    raise_if (contains_boolean weights) weight_contract_violation
    (dimensions, arr) ← elim (as_array weights) [
      | err _ ↦ err weight_contract_violation
      | ok a ↦ ok a
    ]
    raise_if (not (dimensions == 1)) weight_contract_violation
    raise_if (is_empty arr) weight_contract_violation
    raise_if (not (all fl.is_finite arr)) weight_contract_violation
    ok arr

  -- `enforce_weight_contract` from the tests on the elements on
  unfoldable pub check_allocation : PortfolioMode → F → F → F → List F → Result Exception (List F)
  check_allocation mode tolerance lower upper arr = do
    raise_if (any (is_short mode tolerance) arr) weight_contract_violation
    raise_if (any (is_outside tolerance lower upper) arr) weight_contract_violation
    raise_if (fl.lt tolerance (fl.abs (fl.sub (np.sum arr) (target_sum mode))))
        weight_contract_violation
    ok arr

  -- `enforce_exposure_contract` from the tests on the elements on
  unfoldable pub check_exposure : F → F → F → F → List F → Result Exception (List F)
  check_exposure max_gross tolerance lower upper arr = do
    raise_if (any (is_outside tolerance lower upper) arr) weight_contract_violation
    raise_if (fl.lt (fl.add max_gross tolerance) (np.sum (map fl.abs arr)))
        weight_contract_violation
    ok arr

  unfoldable pub enforce_weight_contract :
      TextCase → ArrayLike F → Value F → Value F → Value F → Value F → Result Exception (List F)
  enforce_weight_contract tc weights mode tolerance lower upper = do
    m ← coerce_mode tc mode
    raise_if (is_bool tolerance || is_bool lower || is_bool upper) weight_contract_violation
    t ← contract_number tolerance
    low ← contract_number lower
    high ← contract_number upper
    raise_if (bad_tolerance t) weight_contract_violation
    raise_if (bad_bounds low high) weight_contract_violation
    arr ← finite_vector weights
    check_allocation m t low high arr

  unfoldable pub enforce_exposure_contract :
      ArrayLike F → Value F → Value F → Value F → Value F → Result Exception (List F)
  enforce_exposure_contract weights max_gross tolerance lower upper = do
    raise_if (is_bool tolerance || is_bool max_gross || is_bool lower || is_bool upper)
        weight_contract_violation
    t ← contract_number tolerance
    gross ← contract_number max_gross
    low ← contract_number lower
    high ← contract_number upper
    raise_if (bad_tolerance t) weight_contract_violation
    raise_if (bad_tolerance gross) weight_contract_violation
    raise_if (bad_bounds low high) weight_contract_violation
    arr ← finite_vector weights
    check_exposure gross t low high arr
