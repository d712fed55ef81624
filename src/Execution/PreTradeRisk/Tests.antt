-- ===== src/Execution/PreTradeRisk/Tests.antt =====
-- quantcortex/execution/pre_trade_risk.py on one order and two weights, in fixed-point numbers.
use quantcortex.Prelude.{ℕ, ◌*◌, ◌^◌, ◌≡◌, ◌↔◌, refl, none, some, List, [], ◌∷◌, true}
use quantcortex.Prelude.Int.{pos}
use quantcortex.Prelude.Result.{ok}
use quantcortex.Python.Dict.{insert, lookup}
use quantcortex.Python.Float.Ticks.{Tick, fin, ticks}
use quantcortex.Python.Numpy.{array}
use quantcortex.Python.Numpy.Vectors.{vectors}
use quantcortex.Python.Text.{TextCase, strip}
use quantcortex.Python.Value.{Value, null, num, str, dict, end, field}
use quantcortex.Portfolio.Contract.{long_only, mode_of_text, coerce_mode}
use quantcortex.Portfolio.Contract.Laws.{IsVector}
use quantcortex.Execution.PositionManager.Mapping.{
  symbol_mapping, normalize, symbol_key, as_mapping,
}
use quantcortex.Execution.PreTradeRisk.Limits.{PreTradeRiskCheck, make_check, cap, whitelist}
use quantcortex.Execution.PreTradeRisk.Weights.{check_weights}
use quantcortex.Execution.PreTradeRisk.Orders.{check_orders}
use quantcortex.Execution.PreTradeRisk.Gate.{assert_safe}
use quantcortex.Execution.PreTradeRisk.Safety.{IsWithinLimits, check_weights_iff}
use quantcortex.Execution.PreTradeRisk.OrderPolicy.{AreSafeOrders, check_orders_iff}
use quantcortex.Execution.PreTradeRisk.Assert.{Each, AreCleared, assert_safe_iff}

abbrev cent : ℕ → Tick
cent n = fin (pos (n * 10 ^ 10))

abbrev plain : TextCase
plain = record { lower = λ s. s; upper = λ s. s }

abbrev check : PreTradeRiskCheck Tick
check = record {
  max_position_weight = cent 60;
  max_gross = cent 100;
  max_notional = some (cent 100000);
  max_order_notional = none;
  allowed_symbols = none;
  tolerance = fin (pos 1000000);
}

make_check_numbers :
    make_check
      (num (cent 60))
      (num (cent 100))
      (num (cent 100000))
      null
      null
      (num (fin (pos 1000000)))
    ≡ ok check
unfolding make_check cap whitelist
make_check_numbers = refl

abbrev sixty_forty : List Tick
sixty_forty = cent 60 ∷ cent 40 ∷ []

is_long_only : coerce_mode {F = Tick} plain (str "long_only") ≡ ok long_only
unfolding coerce_mode mode_of_text
is_long_only = refl

check_weights_iff_example :
    ((check_weights check plain (array 1 sixty_forty) (str "long_only")).0 ≡ true)
    ↔ ((◌≡◌ {A = ℕ} 1 1) × IsVector sixty_forty × IsWithinLimits check long_only sixty_forty)
check_weights_iff_example =
    check_weights_iff check plain (array 1 sixty_forty) (str "long_only") long_only 1 sixty_forty
      is_long_only refl

abbrev prices : Value Tick
prices = dict (field (str "SPY") (num (cent 1000)) end)

abbrev order : Value Tick
order = dict (
    field (str "symbol") (str "SPY")
      (field (str "side") (str "BUY") (field (str "quantity") (num (cent 300)) end)))

prices_read : symbol_mapping prices ≡ ok (("SPY", num (cent 1000)) ∷ [])
unfolding symbol_mapping as_mapping normalize symbol_key strip insert lookup
prices_read = refl

check_orders_iff_example :
    ((check_orders check (order ∷ []) prices null).0 ≡ true)
    ↔ AreSafeOrders check (("SPY", num (cent 1000)) ∷ []) null (order ∷ [])
check_orders_iff_example =
    check_orders_iff check (order ∷ []) prices null (("SPY", num (cent 1000)) ∷ []) prices_read

abbrev positions : Value Tick
positions = dict (field (str "SPY") (num (cent 0)) end)

assert_safe_iff_example :
    (assert_safe check plain none
        (str "long_only")
        (some (order ∷ []))
        prices
        (num (cent 6000))
        positions
      ≡ ok tt)
    ↔ (Each (λ w. (check_weights check plain w (str "long_only")).0 ≡ true) none
        × Each
            (AreCleared check plain prices (num (cent 6000)) positions (str "long_only"))
            (some (order ∷ [])))
assert_safe_iff_example =
    assert_safe_iff check plain none (str "long_only") (some (order ∷ [])) prices (num (cent 6000))
      positions
