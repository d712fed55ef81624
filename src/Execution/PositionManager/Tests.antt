-- ===== src/Execution/PositionManager/Tests.antt =====
-- quantcortex/execution/position_manager.py on a small book, in fixed-point numbers.
use text.Mathlib.TextEquality.{eq_iff}
use quantcortex.Prelude.{All, false, ℕ, ◌*◌, ◌^◌, ◌≡◌, refl, ap, none, some, [], ◌∷◌, arith}
use quantcortex.Prelude.Int.{pos, ◌+ℤ◌, ◌-ℤ◌, ◌*ℤ◌}
use quantcortex.Prelude.Result.{Result, ok, err}
use quantcortex.Python.Dict.{lookup, insert, erase}
use quantcortex.Python.Exception.{Exception, value_error}
use quantcortex.Python.Float.Ticks.{Tick, fin, ticks, ticks-IsFloat}
use quantcortex.Python.Text.{strip}
use quantcortex.Python.Value.{Value, null, num, str, bool, dict, end, field}
use quantcortex.Execution.Brokers.Base.{Position}
use quantcortex.Execution.OrderManager.Status.{
  new, submitted, partially_filled, buy, market, allowed,
}
use quantcortex.Execution.OrderManager.Order.{Order, validate}
use quantcortex.Execution.PositionManager.Mapping.{
  to_float, symbol_key, as_mapping, normalize, symbol_mapping,
}
use quantcortex.Execution.PositionManager.Book.{
  PositionManager, empty, position_of, get_position, basis, settle, update, fill_price, apply_fill,
  update_fill,
}
use quantcortex.Execution.PositionManager.Fills.{update_atomic}
use quantcortex.Execution.PositionManager.Sizing.{
  Intent, finite_values, holdings, own_quantities, sorted, insert_sorted, intent, intents, shares,
  target_weights_to_orders,
}
use quantcortex.Execution.PositionManager.Orders.{IsWorth, target_weights_to_orders-IsWorth}
use quantcortex.Execution.PositionManager.Reports.{update_fill_idem, update_fill_atomic}
use quantcortex.Execution.PositionManager.Invariant.{IsTidy, updates-IsTidy, HasUpdated, update_lem}

abbrev whole : ℕ → Tick
whole n = fin (pos (n * 10 ^ 12))

abbrev spy : Tick → Tick → Tick → Position Tick
spy q a p = record { symbol = "SPY"; quantity = q; avg_price = a; market_price = p }

abbrev held : PositionManager Tick
held = record {
  positions = ("SPY", spy (whole 10) (whole 100) (whole 100)) ∷ [];
  applied_fills = [];
}

-- Ten more at 110: the average is the blend.
update_ten : update (str " SPY") (num (whole 10)) (num (whole 110)) held ≡ (
  ok (spy (whole 20) (whole 105) (whole 110)),
  record { positions = ("SPY", spy (whole 20) (whole 105) (whole 110)) ∷ []; applied_fills = [] },
)
unfolding update symbol_key to_float position_of basis settle strip lookup insert erase ◌+ℤ◌ ◌-ℤ◌
    ◌*ℤ◌
update_ten = refl

key_spy : symbol_key {F = Tick} (str " SPY") ≡ ok "SPY"
unfolding symbol_key strip
key_spy = refl

float_ten : to_float (num (whole 10)) ≡ some (whole 10)
unfolding to_float
float_ten = refl

update_lem_example :
    HasUpdated "SPY"
      (whole 10)
      held
      (spy (whole 20) (whole 105) (whole 110))
      (update (str " SPY") (num (whole 10)) (num (whole 110)) held).1
    × (lookup "TLT" (update (str " SPY") (num (whole 10)) (num (whole 110)) held).1.positions
        ≡ lookup "TLT" held.positions)
update_lem_example =
    update_lem (str " SPY") (num (whole 10)) (num (whole 110)) held
      (spy (whole 20) (whole 105) (whole 110)) "SPY" "TLT" (whole 10) key_spy float_ten
      (λ e. let same = (eq_iff "SPY" "TLT").1 e in ground (arith, same))
      (ap (λ (r : Result Exception (Position Tick) × PositionManager Tick). r.0) update_ten)

-- A price of zero is refused.
update_free : update (str "SPY") (num (whole 10)) (num (whole 0)) held ≡ (err value_error, held)
unfolding update symbol_key to_float strip ◌+ℤ◌ ◌-ℤ◌ ◌*ℤ◌
update_free = refl

update_atomic_example : (update (str "SPY") (num (whole 10)) (num (whole 0)) held).1 ≡ held
update_atomic_example =
    update_atomic (str "SPY") (num (whole 10)) (num (whole 0)) held value_error
      (ap (λ (r : Result Exception (Position Tick) × PositionManager Tick). r.0) update_free)

-- Four of ten shares, filled at 100.
abbrev order : Order Tick
order = record {
  order_id = "a";
  symbol = "SPY";
  side = buy;
  quantity = whole 10;
  order_type = market;
  limit_price = none;
  status = partially_filled;
  filled_quantity = whole 4;
  avg_fill_price = some (whole 100);
  reject_reason = null;
  history = new ∷ submitted ∷ partially_filled ∷ [];
}

abbrev after_order : PositionManager Tick
after_order = record {
  positions = ("SPY", spy (whole 4) (whole 100) (whole 100)) ∷ [];
  applied_fills = ("a", record { quantity = whole 4; notional = whole 400 }) ∷ [];
}

report_four : update_fill order empty ≡ (ok (spy (whole 4) (whole 100) (whole 100)), after_order)
unfolding update_fill apply_fill fill_price validate allowed update get_position symbol_key to_float
    position_of basis settle strip lookup insert erase ◌+ℤ◌ ◌-ℤ◌ ◌*ℤ◌
report_four = refl

update_fill_idem_example :
    let m' = (update_fill order empty).1 in
    (update_fill order m' ≡ get_position (str order.symbol) m') × ((update_fill order m').1 ≡ m')
update_fill_idem_example =
    update_fill_idem ticks-IsFloat order empty (spy (whole 4) (whole 100) (whole 100))
      (ap (λ (r : Result Exception (Position Tick) × PositionManager Tick). r.0) report_four)

-- A report that falls short of what has been applied.
abbrev late : Order Tick
late = record order { filled_quantity = whole 3 }

report_late : update_fill late after_order ≡ (err value_error, after_order)
unfolding update_fill apply_fill fill_price validate allowed strip lookup ◌+ℤ◌ ◌-ℤ◌ ◌*ℤ◌
report_late = refl

update_fill_atomic_example : (update_fill late after_order).1 ≡ after_order
update_fill_atomic_example =
    update_fill_atomic late after_order value_error
      (ap (λ (r : Result Exception (Position Tick) × PositionManager Tick). r.0) report_late)

empty-IsTidy : IsTidy {F = Tick} empty
unfolding lookup
empty-IsTidy = record { at_symbol = λ s p h. cc }

updates-IsTidy_example :
    IsTidy (update (str "SPY") (num (whole 10)) (num (whole 110)) empty).1
    × IsTidy (update_fill order empty).1
updates-IsTidy_example =
    updates-IsTidy (str "SPY") (num (whole 10)) (num (whole 110)) order empty empty-IsTidy

-- A capital of 10,000 with all of it in SPY at 100: ninety more shares than the ten held.
abbrev prices : Value Tick
prices = dict (field (str "SPY") (num (whole 100)) end)

prices_read : symbol_mapping prices ≡ ok (("SPY", num (whole 100)) ∷ [])
unfolding symbol_mapping as_mapping normalize symbol_key strip lookup insert
prices_read = refl

float_one : to_float (num (whole 1)) ≡ some (whole 1)
unfolding to_float
float_one = refl

abbrev ninety : Intent Tick
ninety = record { symbol = "SPY"; side = buy; quantity = whole 90 }

sized_orders :
    target_weights_to_orders
      (dict (field (str "SPY") (num (whole 1)) end))
      prices
      (num (whole 10000))
      null
      (num (whole 1))
      (bool false)
      held
    ≡ ok (ninety ∷ [])
unfolding target_weights_to_orders symbol_mapping as_mapping normalize symbol_key to_float
    finite_values holdings own_quantities sorted insert_sorted intent intents shares strip lookup
    insert ◌+ℤ◌ ◌-ℤ◌ ◌*ℤ◌
sized_orders = refl

weights_read : finite_values (("SPY", num (whole 1)) ∷ []) ≡ ok (("SPY", whole 1) ∷ [])
unfolding finite_values to_float
weights_read = refl

targets_read :
    symbol_mapping (dict (field (str "SPY") (num (whole 1)) end)) ≡ ok (("SPY", num (whole 1)) ∷ [])
unfolding symbol_mapping as_mapping normalize symbol_key strip lookup insert
targets_read = refl

capital_read : to_float (num (whole 10000)) ≡ some (whole 10000)
unfolding to_float
capital_read = refl

holdings_read : holdings null held ≡ ok (("SPY", whole 10) ∷ [])
unfolding holdings own_quantities
holdings_read = refl

target_weights_to_orders-IsWorth_example :
    All
      (IsWorth false
        (whole 10000)
        (whole 1)
        (("SPY", whole 1) ∷ [])
        (("SPY", whole 10) ∷ [])
        (("SPY", num (whole 100)) ∷ []))
      (ninety ∷ [])
target_weights_to_orders-IsWorth_example =
    target_weights_to_orders-IsWorth (dict (field (str "SPY") (num (whole 1)) end)) prices
      (num (whole 10000)) null (num (whole 1)) false held (("SPY", num (whole 1)) ∷ [])
      (("SPY", num (whole 100)) ∷ []) (("SPY", whole 1) ∷ []) (("SPY", whole 10) ∷ []) (whole 10000)
      (whole 1) (ninety ∷ []) targets_read weights_read prices_read capital_read float_one
      holdings_read sized_orders
