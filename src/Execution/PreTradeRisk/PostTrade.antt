-- ===== src/Execution/PreTradeRisk/PostTrade.antt =====
-- quantcortex/execution/pre_trade_risk.py: `check_post_trade_positions`.
use quantcortex.Prelude.{
  String, Option, none, some, List, [], ◌∷◌, ◌++◌, map, length, ◌==◌, if◌then◌else◌,
}
use quantcortex.Prelude.Result.{ok, err}
use quantcortex.Python.Dict.{Dict, lookup, insert}
use quantcortex.Python.Float.{Float, zero}
use quantcortex.Python.Numpy.{Numpy, array}
use quantcortex.Python.Text.{TextCase}
use quantcortex.Python.Value.{Value, dict}
use quantcortex.Execution.OrderManager.Status.{OrderSide, order_side}
use quantcortex.Execution.PositionManager.Mapping.{to_float, symbol_mapping}
use quantcortex.Execution.PositionManager.Book.{signed}
use quantcortex.Execution.PositionManager.Sizing.{sorted}
use quantcortex.Execution.PreTradeRisk.Limits.{
  Violation, PreTradeRiskCheck, Verdict, verdict, refuse, bad_mapping, bad_capital, bad_position,
  no_side, no_symbol_or_quantity, no_post_price, post_trade,
}
use quantcortex.Execution.PreTradeRisk.Weights.{check_weights}
use quantcortex.Execution.PreTradeRisk.Orders.{item, symbol_of, positive, price_of}

module _ {F : Type 0} ⦃fl : Float F⦄ where
  -- the current quantities, and a violation for each that is no finite number
  unfoldable pub starting : Dict (Value F) → List (Violation F) × Dict F
  starting [] = ([], [])
  starting ((s, v) ∷ d) =
      let (vs, q) = starting d in
      elim (to_float v) [ none ↦ (bad_position s ∷ vs, q) | some x ↦ (vs, (s, x) ∷ q) ]

  -- `quantities.get(symbol, 0.0)`
  abbrev pub quantity_or_zero : Option F → F
  quantity_or_zero none = zero
  quantity_or_zero (some x) = x

  -- an order on a symbol, on the quantities so far
  abbrev pub traded : OrderSide → String → F → Dict F → Dict F
  traded side s quantity q =
      insert s (fl.add (quantity_or_zero (lookup s q)) (signed side quantity)) q

  -- one round of the loop over the orders
  unfoldable pub trade : Value F → Dict F → List (Violation F) × Dict F
  trade (dict fs) q = elim (order_side (item "side" fs)) [
    | err _ ↦ (no_side ∷ [], q)
    | ok side ↦ elim (symbol_of fs) [
      | none ↦ (no_symbol_or_quantity ∷ [], q)
      | some s ↦ elim (positive (item "quantity" fs)) [
        | none ↦ (no_symbol_or_quantity ∷ [], q)
        | some quantity ↦ ([], traded side s quantity q)
      ]
    ]
  ]
  trade _ q = ([], q)

  unfoldable pub trade_all : List (Value F) → Dict F → List (Violation F) × Dict F
  trade_all [] q = ([], q)
  trade_all (o ∷ os) q =
      let (vs, q') = trade o q in let (rest, out) = trade_all os q' in (vs ++ rest, out)

  -- the symbols whose quantity is not flat
  unfoldable pub open_symbols : F → Dict F → List String
  open_symbols tolerance [] = []
  open_symbols tolerance ((s, x) ∷ d) =
      let rest = open_symbols tolerance d in if fl.lt tolerance (fl.abs x) then s ∷ rest else rest

  -- the weights of the open symbols, and a violation for each without a usable price
  unfoldable pub post_weights :
      Dict (Value F) → F → Dict F → List String → List (Violation F) × List F
  post_weights prices capital q [] = ([], [])
  post_weights prices capital q (s ∷ ss) =
      let (vs, ws) = post_weights prices capital q ss in
      elim (price_of prices s) [
        | none ↦ (no_post_price s ∷ vs, ws)
        | some price ↦ (vs, fl.div (fl.mul (quantity_or_zero (lookup s q)) price) capital ∷ ws)
      ]

module _ {F : Type 0} ⦃fl : Float F⦄ ⦃np : Numpy F⦄ (c : PreTradeRiskCheck F) (tc : TextCase) where
  -- the violations of the post-trade weights, if every open symbol has one
  unfoldable pub exposure_violations : Value F → List String → List F → List (Violation F)
  exposure_violations mode symbols ws =
      if length ws == length symbols
      then map post_trade (check_weights c tc (array 1 ws) mode).1
      else []

  -- from the sorted open symbols on, with the violations so far
  unfoldable pub check_open :
      Value F → Dict (Value F) → F → Dict F → List (Violation F) → List String → Verdict F
  check_open mode prices capital q vs [] = verdict vs
  check_open mode prices capital q vs (s ∷ ss) =
      let (unpriced, ws) = post_weights prices capital q (s ∷ ss) in
      verdict (vs ++ (unpriced ++ exposure_violations mode (s ∷ ss) ws))

  -- on the mappings that were read
  unfoldable pub check_book :
      Value F → List (Value F) → F → Dict (Value F) → Dict (Value F) → Verdict F
  check_book mode orders capital prices positions =
      let (bad, q) = starting positions in
      let (refused, q') = trade_all orders q in
      check_open mode prices capital q' (bad ++ refused) (sorted (open_symbols c.tolerance q'))

  unfoldable pub check_post_trade_positions :
      List (Value F) → Value F → Value F → Value F → Value F → Verdict F
  check_post_trade_positions orders prices capital positions mode = elim (positive capital) [
    | none ↦ refuse bad_capital
    | some base ↦ elim (symbol_mapping prices) [
      | err _ ↦ refuse bad_mapping
      | ok price_map ↦ elim (symbol_mapping positions) [
        | err _ ↦ refuse bad_mapping
        | ok quantities ↦ check_book mode orders base price_map quantities
      ]
    ]
  ]
