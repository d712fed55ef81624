-- ===== src/Execution/PreTradeRisk/Weights.antt =====
-- quantcortex/execution/pre_trade_risk.py: `check_weights`.
use quantcortex.Prelude.{ℕ, not, List, ◌++◌, map, any, all, is_empty, ◌==◌, if◌then◌else◌}
use quantcortex.Prelude.Result.{ok, err}
use quantcortex.Python.Float.{Float, one, max}
use quantcortex.Python.Numpy.{Numpy, ArrayLike, as_array}
use quantcortex.Python.Text.{TextCase}
use quantcortex.Python.Value.{Value}
use quantcortex.Portfolio.Contract.{PortfolioMode, long_only, market_neutral, coerce_mode}
use quantcortex.Execution.PreTradeRisk.Limits.{
  Violation, PreTradeRiskCheck, Verdict, verdict, refuse, report, invalid_mode, not_coercible,
  not_a_vector, empty_weights, non_finite, outside_box, short_legs, over_weight, over_invested,
  not_neutral, over_gross,
}

module _ {F : Type 0} ⦃fl : Float F⦄ ⦃np : Numpy F⦄ (c : PreTradeRiskCheck F) where
  -- the tests of the mode
  unfoldable pub mode_violations : PortfolioMode → List F → List (Violation F)
  mode_violations long_only arr =
      report (any (λ w. fl.lt w (fl.neg c.tolerance)) arr) short_legs
      ++ report (fl.lt (fl.add c.max_gross c.tolerance) (np.sum arr)) (over_invested (np.sum arr))
  mode_violations market_neutral arr =
      report (fl.lt (max c.tolerance (fl.scaled 1 6)) (fl.abs (np.sum arr)))
        (not_neutral (np.sum arr))

  -- `check_weights` on a vector of finite numbers
  unfoldable pub weight_violations : PortfolioMode → List F → List (Violation F)
  weight_violations mode arr =
      report (any (λ w. fl.lt (fl.add one c.tolerance) (fl.abs w)) arr) outside_box
      ++ (mode_violations mode arr
          ++ (report (any (λ w. fl.lt (fl.add c.max_position_weight c.tolerance) (fl.abs w)) arr)
                over_weight
              ++ report (fl.lt (fl.add c.max_gross c.tolerance) (np.sum (map fl.abs arr)))
                  (over_gross (np.sum (map fl.abs arr)))))

  -- `check_weights` on an array
  unfoldable pub check_array : PortfolioMode → ℕ → List F → Verdict F
  check_array mode dimensions arr =
      if not (dimensions == 1)
      then refuse not_a_vector
      else if is_empty arr
      then refuse empty_weights
      else if not (all fl.is_finite arr)
      then refuse non_finite
      else verdict (weight_violations mode arr)

  unfoldable pub check_weights : TextCase → ArrayLike F → Value F → Verdict F
  check_weights tc weights mode = elim (coerce_mode tc mode) [
    | err _ ↦ refuse invalid_mode
    | ok m ↦ elim (as_array weights) [
      | err _ ↦ refuse not_coercible
      | ok (dimensions, arr) ↦ check_array m dimensions arr
    ]
  ]
