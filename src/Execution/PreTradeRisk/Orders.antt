-- ===== src/Execution/PreTradeRisk/Orders.antt =====
-- quantcortex/execution/pre_trade_risk.py: `check_orders`.
use text.Mathlib.Text.{◌==◌ as str_eq}
use quantcortex.Prelude.{
  ℕ, suc, String, Bool, true, false, not, Option, none, some, List, [], ◌∷◌, ◌++◌, any,
  if◌then◌else◌,
}
use quantcortex.Prelude.Result.{ok, err}
use quantcortex.Python.Dict.{Dict, lookup}
use quantcortex.Python.Float.{Float, zero}
use quantcortex.Python.Text.{strip, is_blank}
use quantcortex.Python.Value.{Value, null, dict, Fields, as_text}
use quantcortex.Execution.OrderManager.Status.{order_side}
use quantcortex.Execution.PositionManager.Mapping.{to_float, symbol_mapping}
use quantcortex.Python.Fields.{entry}
use quantcortex.Execution.PreTradeRisk.Limits.{
  Violation, PreTradeRiskCheck, Verdict, verdict, refuse, report, bad_mapping, bad_capital,
  not_a_mapping, bad_symbol, bad_quantity, bad_side, not_allowed, no_price, over_order_cap,
  over_total_cap,
}

module _ {F : Type 0} where
  -- `order.get(key)`
  abbrev pub item : String → Fields F → Value F
  item k fs = elim (entry k fs) [ none ↦ null | some v ↦ v ]

  -- a symbol: a text that is not blank, stripped
  abbrev pub symbol_of : Fields F → Option String
  symbol_of fs = elim (as_text (item "symbol" fs)) [
    | none ↦ none
    | some s ↦ if is_blank (strip s) then none else some (strip s)
  ]

module _ {F : Type 0} ⦃fl : Float F⦄ where
  -- a number that is finite and positive
  abbrev pub positive : Value F → Option F
  positive v = elim (to_float v) [ none ↦ none | some x ↦ if fl.le x zero then none else some x ]

  abbrev pub price_of : Dict (Value F) → String → Option F
  price_of prices s = elim (lookup s prices) [ none ↦ none | some v ↦ positive v ]

  -- whether an optional cap is exceeded
  abbrev pub exceeds : Option F → F → F → Bool
  exceeds none tolerance x = false
  exceeds (some limit) tolerance x = fl.lt (fl.add limit tolerance) x

  abbrev pub lacks_side : Fields F → Bool
  lacks_side fs = elim (order_side (item "side" fs)) [ ok _ ↦ false | err _ ↦ true ]

  abbrev pub add_some : F → Option F → F
  add_some total none = total
  add_some total (some x) = fl.add total x

module _ {F : Type 0} ⦃fl : Float F⦄ (c : PreTradeRiskCheck F) where
  abbrev pub off_list : String → Bool
  off_list s = elim c.allowed_symbols [ none ↦ false | some ss ↦ not (any (str_eq s) ss) ]

  -- an order with a symbol and a quantity: its violations, and what it adds to the total
  unfoldable pub sized_order :
      Dict (Value F) → Fields F → String → F → List (Violation F) × Option F
  sized_order prices fs s quantity =
      let early = report (lacks_side fs) (bad_side s) ++ report (off_list s) (not_allowed s) in
      elim (price_of prices s) [
        | none ↦ (early ++ no_price s ∷ [], none)
        | some price ↦
            let notional = fl.mul (fl.abs quantity) price in
            (
              early
                  ++ report (exceeds c.max_order_notional c.tolerance notional)
                      (over_order_cap s notional),
              some notional,
            )
      ]

  -- one round of the loop: the order's violations, and what it adds to the total
  unfoldable pub order_round : Dict (Value F) → ℕ → Value F → List (Violation F) × Option F
  order_round prices i (dict fs) = elim (symbol_of fs) [
    | none ↦ (bad_symbol i ∷ [], none)
    | some s ↦ elim (positive (item "quantity" fs)) [
      | none ↦ (bad_quantity s ∷ [], none)
      | some quantity ↦ sized_order prices fs s quantity
    ]
  ]
  order_round prices i _ = (not_a_mapping i ∷ [], none)

  -- the loop, with the index and the total so far
  unfoldable pub order_loop : Dict (Value F) → ℕ → F → List (Value F) → List (Violation F) × F
  order_loop prices i total [] = ([], total)
  order_loop prices i total (o ∷ os) =
      let (vs, extra) = order_round prices i o in
      let (rest, sum) = order_loop prices (suc i) (add_some total extra) os in (vs ++ rest, sum)

  -- `capital`, if one is given
  abbrev pub capital_violations : Value F → List (Violation F)
  capital_violations null = []
  capital_violations v = elim (positive v) [ none ↦ bad_capital ∷ [] | some _ ↦ [] ]

  unfoldable pub check_orders : List (Value F) → Value F → Value F → Verdict F
  check_orders orders prices capital = elim (symbol_mapping prices) [
    | err _ ↦ refuse bad_mapping
    | ok price_map ↦
        let (vs, total) = order_loop price_map 0 zero orders in
        verdict (
          capital_violations capital
          ++ (vs ++ report (exceeds c.max_notional c.tolerance total) (over_total_cap total)))
  ]
