-- ===== src/Execution/PreTradeRisk/Gate.antt =====
-- quantcortex/execution/pre_trade_risk.py: `assert_safe`.
use quantcortex.Prelude.{Bool, true, false, Option, none, some, List, [], ◌∷◌, ◌++◌, if◌then◌else◌}
use quantcortex.Prelude.Result.{Result, ok, err}
use quantcortex.Python.Float.{Float}
use quantcortex.Python.Numpy.{Numpy, ArrayLike}
use quantcortex.Python.Text.{TextCase}
use quantcortex.Python.Value.{Value, null}
use quantcortex.Execution.PreTradeRisk.Limits.{
  Violation, PreTradeRiskCheck, Verdict, no_prices, no_positions, no_capital,
}
use quantcortex.Execution.PreTradeRisk.Weights.{check_weights}
use quantcortex.Execution.PreTradeRisk.Orders.{check_orders}
use quantcortex.Execution.PreTradeRisk.PostTrade.{check_post_trade_positions}

abbrev pub is_null : {F : Type 0} → Value F → Bool
is_null null = true
is_null _ = false

-- `if not ok: violations.extend(...)`
abbrev pub unless_ok : {F : Type 0} → Verdict F → List (Violation F)
unless_ok (true, vs) = []
unless_ok (false, vs) = vs

module _ {F : Type 0} ⦃fl : Float F⦄ ⦃np : Numpy F⦄ (c : PreTradeRiskCheck F) (tc : TextCase) where
  unfoldable pub weight_part : Option (ArrayLike F) → Value F → List (Violation F)
  weight_part none mode = []
  weight_part (some weights) mode = unless_ok (check_weights c tc weights mode)

  -- the post-trade check, which needs positions, prices and capital
  unfoldable pub post_part :
      List (Value F) → Value F → Value F → Value F → Value F → List (Violation F)
  post_part orders prices capital positions mode =
      if is_null positions
      then no_positions ∷ []
      else if is_null prices
      then []
      else if is_null capital
      then no_capital ∷ []
      else unless_ok (check_post_trade_positions c tc orders prices capital positions mode)

  unfoldable pub order_part :
      Option (List (Value F)) → Value F → Value F → Value F → Value F → List (Violation F)
  order_part none prices capital positions mode = []
  order_part (some orders) prices capital positions mode =
      (if is_null prices then no_prices ∷ [] else unless_ok (check_orders c orders prices capital))
      ++ post_part orders prices capital positions mode

  -- `raise PreTradeRiskError(violations)`
  abbrev pub raise_violations : List (Violation F) → Result (List (Violation F)) (Unit {0})
  raise_violations [] = ok tt
  raise_violations (v ∷ vs) = err (v ∷ vs)

  unfoldable pub assert_safe :
      Option (ArrayLike F)
      → Value F
      → Option (List (Value F))
      → Value F
      → Value F
      → Value F
      → Result (List (Violation F)) (Unit {0})
  assert_safe weights mode orders prices capital positions =
      raise_violations (weight_part weights mode ++ order_part orders prices capital positions mode)
