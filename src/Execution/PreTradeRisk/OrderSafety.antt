-- ===== src/Execution/PreTradeRisk/OrderSafety.antt =====
-- quantcortex/execution/pre_trade_risk.py: the tests that an order and a list of orders pass in
-- `check_orders`.
use quantcortex.Prelude.{
  ℕ, suc, String, ◌≡◌, ◌↔◌, refl, true, false, Option, none, some, List, [], ◌∷◌, All, arith,
  Option-cases, inl, inr,
}
use quantcortex.Prelude.Result.{ok}
use quantcortex.Python.Dict.{Dict}
use quantcortex.Python.Float.{Float, zero}
use quantcortex.Python.Value.{int, Value, null, bool, num, str, list, dict, other, Fields}
use quantcortex.Execution.PositionManager.Mapping.{symbol_mapping}
use quantcortex.Execution.PreTradeRisk.Limits.{PreTradeRiskCheck, no_violations}
use quantcortex.Execution.PreTradeRisk.Orders.{
  item, symbol_of, positive, price_of, exceeds, lacks_side, off_list, sized_order, order_round,
  add_some, order_loop, capital_violations, check_orders,
}
use quantcortex.Execution.PreTradeRisk.Safety.{no_violations-append}

module _ {F : Type 0} ⦃fl : Float F⦄ where
  -- What an order commits: its quantity at the price of its symbol, where it has them.
  abbrev pub notional : Dict (Value F) → Value F → Option F
  notional prices (dict fs) = elim (symbol_of fs) [
    | none ↦ none
    | some s ↦ elim (positive (item "quantity" fs)) [
      | none ↦ none
      | some q ↦ elim (price_of prices s) [ none ↦ none | some p ↦ some (fl.mul (fl.abs q) p) ]
    ]
  ]
  notional prices _ = none

  abbrev pub total_notional : Dict (Value F) → F → List (Value F) → F
  total_notional prices total [] = total
  total_notional prices total (o ∷ os) =
      total_notional prices (add_some total (notional prices o)) os

  module _ (c : PreTradeRiskCheck F) (prices : Dict (Value F)) where
    -- an order that every test lets through
    pub record Passes (o : Value F) : Type 0 where
      pub fields : Fields F
      pub symbol : String
      pub quantity : F
      pub price : F
      pub is_mapping : o ≡ dict fields
      pub has_symbol : symbol_of fields ≡ some symbol
      pub has_quantity : positive (item "quantity" fields) ≡ some quantity
      pub has_price : price_of prices symbol ≡ some price
      pub sided : lacks_side fields ≡ false
      pub listed : off_list c symbol ≡ false
      pub capped : exceeds c.max_order_notional c.tolerance (fl.mul (fl.abs quantity) price) ≡ false

    sized_sound :
        (fs : Fields F) (s : String) (q : F)
        → symbol_of fs ≡ some s
        → positive (item "quantity" fs) ≡ some q
        → no_violations (sized_order c prices fs s q).0 ≡ true
        → Passes (dict fs)
    unfolding sized_order
    sized_sound fs s q is_symbol is_quantity h = elim (Option-cases (price_of prices s)) [
      | inl unpriced ↦ absurd (grind (arith, no_violations-append))
      | inr (p, is_price) ↦ record {
        fields = fs;
        symbol = s;
        quantity = q;
        price = p;
        is_mapping = refl;
        has_symbol = is_symbol;
        has_quantity = is_quantity;
        has_price = is_price;
        sided = grind (arith, no_violations-append);
        listed = grind (arith, no_violations-append);
        capped = grind (arith, no_violations-append);
      }
    ]

    round_sound :
        (i : ℕ) (o : Value F) → no_violations (order_round c prices i o).0 ≡ true → Passes o
    unfolding order_round
    round_sound i (dict fs) h = elim (Option-cases (symbol_of fs)) [
      | inl e ↦ absurd (ground arith)
      | inr (s, is_symbol) ↦ elim (Option-cases (positive (item "quantity" fs))) [
        | inl e ↦ absurd (ground arith)
        | inr (q, is_quantity) ↦ sized_sound fs s q is_symbol is_quantity (ground arith)
      ]
    ]
    round_sound i null h = cc
    round_sound i (bool _) h = cc
    round_sound i (int _) h = cc
    round_sound i (num _) h = cc
    round_sound i (str _) h = cc
    round_sound i (list _) h = cc
    round_sound i other h = cc

    round_complete :
        (i : ℕ) (o : Value F) → Passes o → no_violations (order_round c prices i o).0 ≡ true
    unfolding order_round sized_order
    round_complete i o s =
        let is_mapping = s.is_mapping in
        let has_symbol = s.has_symbol in
        let has_quantity = s.has_quantity in
        let has_price = s.has_price in
        ground (arith, is_mapping, has_symbol, has_quantity, has_price, s.sided, s.listed, s.capped)

    loop_sound :
        (i : ℕ) (total : F) (os : List (Value F))
        → no_violations (order_loop c prices i total os).0 ≡ true
        → All Passes os
    unfolding order_loop
    loop_sound i total [] h = tt
    loop_sound i total (o ∷ os) h = (
      round_sound i o (grind (arith, no_violations-append)),
      loop_sound (suc i) (add_some total (order_round c prices i o).1) os
          (grind (arith, no_violations-append)),
    )

    loop_complete :
        (i : ℕ) (total : F) (os : List (Value F))
        → All Passes os
        → no_violations (order_loop c prices i total os).0 ≡ true
    unfolding order_loop
    loop_complete i total [] h = refl
    loop_complete i total (o ∷ os) h =
        let rest = loop_complete (suc i) (add_some total (order_round c prices i o).1) os h.1 in
        let first = round_complete i o h.0 in grind (arith, no_violations-append, rest, first)

    round_notional : (i : ℕ) (o : Value F) → (order_round c prices i o).1 ≡ notional prices o
    unfolding order_round sized_order
    round_notional i o = ground arith

    loop_total :
        (i : ℕ) (total : F) (os : List (Value F))
        → (order_loop c prices i total os).1 ≡ total_notional prices total os
    unfolding order_loop
    loop_total i total [] = refl
    loop_total i total (o ∷ os) = ground (
      arith,
      round_notional i o,
      loop_total (suc i) (add_some total (order_round c prices i o).1) os,
    )

    -- orders and a capital that every test lets through
    pub record AllPass (capital : Value F) (os : List (Value F)) : Type 0 where
      pub orders : All Passes os
      pub funded : no_violations (capital_violations c capital) ≡ true
      pub total : exceeds c.max_notional c.tolerance (total_notional prices zero os) ≡ false

  -- `check_orders` passes exactly when its tests do.
  pub check_orders_passes :
      (c : PreTradeRiskCheck F) (os : List (Value F)) (prices capital : Value F)
      (table : Dict (Value F))
      → symbol_mapping prices ≡ ok table
      → ((check_orders c os prices capital).0 ≡ true) ↔ AllPass c table capital os
  unfolding check_orders
  check_orders_passes c os prices capital table read = (
    λ h.
        let total = loop_total c table 0 zero os in
        record {
          orders = loop_sound c table 0 zero os (grind (arith, no_violations-append));
          funded = grind (arith, no_violations-append);
          total = grind (arith, no_violations-append);
        },
    λ s.
        let total = loop_total c table 0 zero os in
        let first = loop_complete c table 0 zero os s.orders in
        grind (arith, no_violations-append, total, first, s.funded, s.total),
  )
