-- ===== src/Backtest/Costs/Caps.antt =====
-- quantcortex/backtest/costs/transaction_costs.py: the two caps on a rebalance, by volume and by
-- gross exposure.
use quantcortex.Prelude.{
  ℕ, zero as zero_ℕ, suc, not, ◌&&◌, ◌||◌, Option, none, some, List, map, all, any, ◌==◌, length,
  if◌then◌else◌,
}
use quantcortex.Prelude.Result.{Result, ok, ◌>>=◌, ◌>>◌, raise_if}
use quantcortex.Python.Exception.{Exception, value_error}
use quantcortex.Python.Float.{Float, zero, one, max, min}
use quantcortex.Python.Numpy.{Numpy, ArrayLike, as_array}
use quantcortex.Portfolio.Normalize.{clip}
use quantcortex.Backtest.Costs.Rates.{TransactionCostModel, zip_with}

module _ {F : Type 0} ⦃fl : Float F⦄ ⦃np : Numpy F⦄ where
  -- the share volume in dollars
  unfoldable pub in_dollars : List F → Option (ArrayLike F) → Result Exception (List F)
  in_dollars adv none = ok adv
  in_dollars adv (some prices) = do
    (dimensions, p) ← as_array prices
    raise_if (not (dimensions == 1 && length p == length adv)) value_error
    raise_if (not (all fl.is_finite p) || any (λ x. fl.le x zero) p) value_error
    ok (zip_with fl.mul adv p)

  -- `_dollar_adv`
  unfoldable pub dollar_adv :
      Option (ArrayLike F) → Option (ArrayLike F) → Result Exception (Option (List F))
  dollar_adv none prices = ok none
  dollar_adv (some adv) prices = do
    (dimensions, a) ← as_array adv
    raise_if (not (dimensions == 1)) value_error
    raise_if (not (all fl.is_finite a) || any (λ x. fl.lt x zero) a) value_error
    d ← in_dollars a prices
    ok (some d)

module _ {F : Type 0} ⦃fl : Float F⦄ where
  -- the fraction of one change that the volume allows
  abbrev pub volume_scale : F → F → F → F → F
  volume_scale cap capital change adv =
      let wanted = fl.mul (fl.abs change) capital in
      if fl.lt zero wanted then fl.div (min wanted (fl.mul cap adv)) wanted else one

  -- the changes under the cap on volume
  unfoldable pub volume_capped :
      TransactionCostModel F → F → List F → Option (List F) → Result Exception (List F)
  volume_capped m capital desired none = ok desired
  volume_capped m capital desired (some adv) = do
    raise_if (not (length adv == length desired)) value_error
    let scale = zip_with (volume_scale m.volume_cap capital) desired adv
    raise_if (not (all fl.is_finite scale)) value_error
    ok (zip_with fl.mul desired (map (clip zero one) scale))

  -- the part of a change that reduces a position, up to zero
  unfoldable pub reduction : F → F → F
  reduction w change =
      if fl.lt zero w && fl.lt change zero
      then max change (fl.neg w)
      else if fl.lt w zero && fl.lt zero change
      then min change (fl.neg w)
      else zero

module _ {F : Type 0} ⦃fl : Float F⦄ ⦃np : Numpy F⦄ where
  abbrev pub gross : List F → F
  gross ws = np.sum (map fl.abs ws)

  -- the gross exposure at a fraction of the increases
  abbrev pub gross_at : List F → List F → F → F
  gross_at reduced increasing mid = gross (zip_with fl.add reduced (map (fl.mul mid) increasing))

  -- `rounds` steps of the bisection, from a bracket
  unfoldable pub bisect_scale : ℕ → F → List F → List F → F → F → F
  bisect_scale zero_ℕ limit reduced increasing low high = low
  bisect_scale (suc n) limit reduced increasing low high =
      let mid = fl.div (fl.add low high) (fl.scaled 2 0) in
      let up = bisect_scale n limit reduced increasing mid high in
      let down = bisect_scale n limit reduced increasing low mid in
      if fl.le (gross_at reduced increasing mid) limit then up else down

  -- the increases, scaled down where they would exceed the limit
  unfoldable pub limited : F → List F → List F → List F
  limited limit reduced increasing =
      if fl.lt (fl.add limit (fl.scaled 1 12)) (gross (zip_with fl.add reduced increasing))
      then map (λ x. fl.mul x (bisect_scale 64 limit reduced increasing zero one)) increasing
      else increasing

  -- the changes under the cap on the gross exposure, reductions first
  unfoldable pub gross_capped : List F → List F → Option F → List F
  gross_capped prev executed none = executed
  gross_capped prev executed (some limit) =
      let reducing = zip_with reduction prev executed in
      let increasing = zip_with fl.sub executed reducing in
      let reduced = zip_with fl.add prev reducing in
      if fl.lt (fl.add limit (fl.scaled 1 12)) (gross reduced)
      then reducing
      else zip_with fl.add reducing (limited limit reduced increasing)
