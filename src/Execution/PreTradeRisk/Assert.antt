-- ===== src/Execution/PreTradeRisk/Assert.antt =====
-- quantcortex/execution/pre_trade_risk.py: what `assert_safe` lets through.
use quantcortex.Prelude.{
  String, ◌≡◌, ◌↔◌, refl, true, false, Option, none, some, List, [], ◌∷◌, ◌++◌, arith, Option-cases,
  inl, inr,
}
use quantcortex.Prelude.Result.{ok, Result-cases}
use quantcortex.Python.Dict.{Dict}
use quantcortex.Python.Float.{Float}
use quantcortex.Python.Numpy.{Numpy, ArrayLike}
use quantcortex.Python.Text.{TextCase}
use quantcortex.Python.Value.{Value}
use quantcortex.Execution.PositionManager.Mapping.{symbol_mapping}
use quantcortex.Execution.PreTradeRisk.Limits.{Violation, PreTradeRiskCheck, no_violations}
use quantcortex.Execution.PreTradeRisk.Weights.{check_array, check_weights}
use quantcortex.Execution.PreTradeRisk.Orders.{positive, check_orders}
use quantcortex.Execution.PreTradeRisk.PostTrade.{
  starting, trade_all, open_symbols, check_open, check_book, check_post_trade_positions,
}
use quantcortex.Execution.PositionManager.Sizing.{sorted}
use quantcortex.Execution.PreTradeRisk.Gate.{
  is_null, weight_part, post_part, order_part, raise_violations, assert_safe,
}
use quantcortex.Execution.PreTradeRisk.Safety.{no_violations-append}

-- A property of what an optional argument holds.
abbrev pub Each : {A : Type 0} → (A → Type 0) → Option A → Type 0
Each P none = Unit
Each P (some a) = P a

module _ {F : Type 0} ⦃fl : Float F⦄ ⦃np : Numpy F⦄ (c : PreTradeRiskCheck F) (tc : TextCase) where
  -- Orders that the gate passes: the two checks on them pass, on data that is there.
  pub record AreCleared (prices capital positions mode : Value F) (os : List (Value F))
      : Type 0 where
    pub priced : is_null prices ≡ false
    pub positioned : is_null positions ≡ false
    pub funded : is_null capital ≡ false
    pub safe : (check_orders c os prices capital).0 ≡ true
    pub safe_after : (check_post_trade_positions c tc os prices capital positions mode).0 ≡ true

  -- A check refuses exactly when it names a violation.
  weights-honest :
      (w : ArrayLike F) (mode : Value F)
      → (check_weights c tc w mode).0 ≡ no_violations (check_weights c tc w mode).1
  unfolding check_weights check_array
  weights-honest w mode = ground arith

  orders-honest :
      (os : List (Value F)) (prices capital : Value F)
      → (check_orders c os prices capital).0 ≡ no_violations (check_orders c os prices capital).1
  unfolding check_orders
  orders-honest os prices capital = ground arith

  open-honest :
      (mode : Value F) (prices : Dict (Value F)) (capital : F) (q : Dict F)
      (vs : List (Violation F)) (ss : List String)
      → (check_open c tc mode prices capital q vs ss).0
        ≡ no_violations (check_open c tc mode prices capital q vs ss).1
  unfolding check_open
  open-honest mode prices capital q vs [] = refl
  open-honest mode prices capital q vs (s ∷ ss) = refl

  book-honest :
      (mode : Value F) (orders : List (Value F)) (capital : F) (prices positions : Dict (Value F))
      → (check_book c tc mode orders capital prices positions).0
        ≡ no_violations (check_book c tc mode orders capital prices positions).1
  unfolding check_book
  book-honest mode os base table held =
      open-honest mode table base (trade_all os (starting held).1).1
        ((starting held).0 ++ (trade_all os (starting held).1).0)
        (sorted (open_symbols c.tolerance (trade_all os (starting held).1).1))

  post_trade-honest :
      (os : List (Value F)) (prices capital positions mode : Value F)
      → (check_post_trade_positions c tc os prices capital positions mode).0
        ≡ no_violations (check_post_trade_positions c tc os prices capital positions mode).1
  unfolding check_post_trade_positions
  post_trade-honest os prices capital positions mode = elim (Option-cases (positive capital)) [
    | inl unfunded ↦ ground arith
    | inr (base, funded) ↦ elim (Result-cases (symbol_mapping prices)) [
      | inr (e, unread) ↦ ground arith
      | inl (table, read) ↦ elim (Result-cases (symbol_mapping positions)) [
        | inr (e, unread) ↦ ground arith
        | inl (held, read') ↦
            let honest = book-honest mode os base table held in ground (arith, honest)
      ]
    ]
  ]

  weight_part_iff :
      (weights : Option (ArrayLike F)) (mode : Value F)
      → (no_violations (weight_part c tc weights mode) ≡ true)
        ↔ Each (λ w. (check_weights c tc w mode).0 ≡ true) weights
  unfolding weight_part
  weight_part_iff none mode = (λ h. tt, λ h. refl)
  weight_part_iff (some w) mode =
      let honest = weights-honest w mode in
      (λ h. ground (arith, honest), λ h. ground (arith, honest))

  order_part_iff :
      (orders : Option (List (Value F))) (prices capital positions mode : Value F)
      → (no_violations (order_part c tc orders prices capital positions mode) ≡ true)
        ↔ Each (AreCleared prices capital positions mode) orders
  unfolding order_part post_part
  order_part_iff none prices capital positions mode = (λ h. tt, λ h. refl)
  order_part_iff (some os) prices capital positions mode =
      let before = orders-honest os prices capital in
      let after = post_trade-honest os prices capital positions mode in
      (
        λ h. record {
          priced = grind (arith, no_violations-append, before, after);
          positioned = grind (arith, no_violations-append, before, after);
          funded = grind (arith, no_violations-append, before, after);
          safe = grind (arith, no_violations-append, before, after);
          safe_after = grind (arith, no_violations-append, before, after);
        },
        λ a. grind (
          arith, no_violations-append, before, after, a.priced, a.positioned, a.funded, a.safe,
          a.safe_after,
        ),
      )

  raise_violations_iff :
      (vs : List (Violation F)) → (raise_violations c tc vs ≡ ok tt) ↔ (no_violations vs ≡ true)
  raise_violations_iff [] = (λ h. refl, λ h. refl)
  raise_violations_iff (v ∷ vs) = (λ h. cc, λ h. cc)

  -- `assert_safe` returns exactly when the weights, if there are any, pass `check_weights` and the
  -- orders, if there are any, come with prices, positions and a capital and pass `check_orders` and
  -- `check_post_trade_positions`.
  pub assert_safe_iff :
      (weights : Option (ArrayLike F)) (mode : Value F) (orders : Option (List (Value F)))
      (prices capital positions : Value F)
      → (assert_safe c tc weights mode orders prices capital positions ≡ ok tt) ↔ (
          Each (λ w. (check_weights c tc w mode).0 ≡ true) weights
          × Each (AreCleared prices capital positions mode) orders)
  unfolding assert_safe
  assert_safe_iff weights mode orders prices capital positions =
      let first = weight_part_iff weights mode in
      let second = order_part_iff orders prices capital positions mode in
      let whole =
        raise_violations_iff
          (weight_part c tc weights mode ++ order_part c tc orders prices capital positions mode) in
      (
        λ h.
            let clear = whole.0 h in
            (
              first.0 (grind (arith, no_violations-append, clear)),
              second.0 (grind (arith, no_violations-append, clear)),
            ),
        λ p.
            let clear_weights = first.1 p.0 in
            let clear_orders = second.1 p.1 in
            whole.1 (grind (arith, no_violations-append, clear_weights, clear_orders)),
      )
