-- ===== src/Execution/PreTradeRisk/OrderPolicy.antt =====
-- quantcortex/execution/pre_trade_risk.py: what `check_orders` lets through.
use text.Mathlib.Text.{◌==◌ as str_eq}
use quantcortex.Prelude.{
  String, ◌≡◌, ◌↔◌, ◌⊎◌, refl, sym, true, false, none, some, List, [], ◌∷◌, any, All, arith,
  Option-cases, inl, inr, ◌∙◌, ap, subst,
}
use quantcortex.Prelude.Result.{ok, Result-cases}
use quantcortex.Python.Dict.{Dict, lookup}
use quantcortex.Python.Float.{Float, zero}
use quantcortex.Python.Text.{strip, is_blank}
use quantcortex.Python.Value.{Value, null, dict, Fields, as_text}
use quantcortex.Execution.OrderManager.Status.{OrderSide, order_side}
use quantcortex.Execution.PositionManager.Mapping.{symbol_mapping}
use quantcortex.Execution.PreTradeRisk.Limits.{PreTradeRiskCheck, no_violations}
use quantcortex.Execution.PreTradeRisk.Orders.{
  item, symbol_of, positive, price_of, exceeds, lacks_side, off_list, add_some, capital_violations,
  check_orders,
}
use quantcortex.Execution.PreTradeRisk.OrderSafety.{
  notional, total_notional, Passes, check_orders_passes,
}
use quantcortex.Execution.PreTradeRisk.Thresholds.{
  IsAbove, IsWithin, positive_sound, positive_complete, exceeds_sound, exceeds_complete,
}

module _ {F : Type 0} ⦃fl : Float F⦄ where
  module _ (c : PreTradeRiskCheck F) (prices : Dict (Value F)) where
    -- A symbol on the list, where there is one.
    abbrev pub IsListed : String → Type 0
    IsListed s = (ss : List String) → c.allowed_symbols ≡ some ss → any (str_eq s) ss ≡ true

    -- An order that may go out: a mapping with a symbol that is a text, not blank, and listed, a
    -- side, a positive quantity, and a positive price of its symbol, within the cap on one order.
    pub record IsSafeOrder (o : Value F) : Type 0 where
      pub fields : Fields F
      pub text : String
      pub side : OrderSide
      pub quantity : F
      pub quote : Value F
      pub price : F
      pub is_mapping : o ≡ dict fields
      pub has_symbol : as_text (item "symbol" fields) ≡ some text
      pub named : is_blank (strip text) ≡ false
      pub has_side : order_side (item "side" fields) ≡ ok side
      pub has_quantity : IsAbove (item "quantity" fields) quantity
      pub quoted : lookup (strip text) prices ≡ some quote
      pub has_price : IsAbove quote price
      pub listed : IsListed (strip text)
      pub capped : IsWithin c.max_order_notional c.tolerance (fl.mul (fl.abs quantity) price)

    off_list_sound : (s : String) → off_list c s ≡ false → IsListed s
    off_list_sound s h ss same = ground arith

    off_list_complete : (s : String) → IsListed s → off_list c s ≡ false
    off_list_complete s h = elim (Option-cases c.allowed_symbols) [
      | inl all_allowed ↦ ground arith
      | inr (ss, same) ↦ let on = h ss same in ground arith
    ]

    side_of :
        (fs : Fields F)
        → lacks_side fs ≡ false
        → (d : OrderSide) × (order_side (item "side" fs) ≡ ok d)
    side_of fs h = elim (Result-cases (order_side (item "side" fs))) [
      | inr (e, bad) ↦ absurd (ground arith)
      | inl (d, read) ↦ (d, read)
    ]

    text_of :
        (fs : Fields F) (s : String)
        → symbol_of fs ≡ some s
        → (t : String) × (as_text (item "symbol" fs) ≡ some t)
          × (is_blank (strip t) ≡ false)
          × (strip t ≡ s)
    text_of fs s h = elim (Option-cases (as_text (item "symbol" fs))) [
      | inl missing ↦ absurd (ground arith)
      | inr (t, read) ↦ (t, read, ground arith, ground arith)
    ]

    quote_of :
        (s : String) (p : F)
        → price_of prices s ≡ some p
        → (v : Value F) × (lookup s prices ≡ some v) × IsAbove v p
    quote_of s p h = elim (Option-cases (lookup s prices)) [
      | inl missing ↦ absurd (ground arith)
      | inr (v, found) ↦ (v, found, positive_sound v p (ground arith))
    ]

    Passes-IsSafeOrder : (o : Value F) → Passes c prices o → IsSafeOrder o
    Passes-IsSafeOrder o p =
        let (t, read, filled, same) = text_of p.fields p.symbol p.has_symbol in
        let (d, sided) = side_of p.fields p.sided in
        let (v, found, above) = quote_of p.symbol p.price p.has_price in
        record {
          fields = p.fields;
          text = t;
          side = d;
          quantity = p.quantity;
          quote = v;
          price = p.price;
          is_mapping = p.is_mapping;
          has_symbol = read;
          named = filled;
          has_side = sided;
          has_quantity = positive_sound (item "quantity" p.fields) p.quantity p.has_quantity;
          quoted = ap (λ s. lookup s prices) same ∙ found;
          has_price = above;
          listed = subst IsListed (sym same) (off_list_sound p.symbol p.listed);
          capped =
              exceeds_sound c.max_order_notional c.tolerance (fl.mul (fl.abs p.quantity) p.price)
                p.capped;
        }

    IsSafeOrder-Passes : (o : Value F) → IsSafeOrder o → Passes c prices o
    IsSafeOrder-Passes o s =
        let counted = positive_complete (item "quantity" s.fields) s.quantity s.has_quantity in
        let priced = positive_complete s.quote s.price s.has_price in
        let has_symbol = s.has_symbol in
        let named = s.named in
        let quoted = s.quoted in
        let has_side = s.has_side in
        record {
          fields = s.fields;
          symbol = strip s.text;
          quantity = s.quantity;
          price = s.price;
          is_mapping = s.is_mapping;
          has_symbol = ground arith;
          has_quantity = counted;
          has_price = ground arith;
          sided = ground arith;
          listed = off_list_complete (strip s.text) s.listed;
          capped =
              exceeds_complete c.max_order_notional c.tolerance (fl.mul (fl.abs s.quantity) s.price)
                s.capped;
        }

    -- What the orders commit together: the quantity of each at its price, added up from zero.
    abbrev pub committed : (total : F) (os : List (Value F)) → All IsSafeOrder os → F
    committed total [] h = total
    committed total (o ∷ os) (s, rest) =
        committed (fl.add total (fl.mul (fl.abs s.quantity) s.price)) os rest

    notional-committed :
        (o : Value F) (s : IsSafeOrder o)
        → notional prices o ≡ some (fl.mul (fl.abs s.quantity) s.price)
    notional-committed o s =
        let p = IsSafeOrder-Passes o s in
        let is_mapping = s.is_mapping in
        let has_symbol = p.has_symbol in
        let has_quantity = p.has_quantity in let has_price = p.has_price in ground arith

    total-committed :
        (total : F) (os : List (Value F)) (h : All IsSafeOrder os)
        → total_notional prices total os ≡ committed total os h
    total-committed total [] h = refl
    total-committed total (o ∷ os) (s, rest) =
        ap (λ x. total_notional prices (add_some total x) os) (notional-committed o s)
        ∙ total-committed (fl.add total (fl.mul (fl.abs s.quantity) s.price)) os rest

    -- Orders that may go out together: each may, what they commit is within the cap on all, and the
    -- capital is absent or a finite number above zero.
    pub record AreSafeOrders (capital : Value F) (os : List (Value F)) : Type 0 where
      pub orders : All IsSafeOrder os
      pub total : IsWithin c.max_notional c.tolerance (committed zero os orders)
      pub funded : (capital ≡ null) ⊎ ((x : F) × IsAbove capital x)

    all_safe : (os : List (Value F)) → All (Passes c prices) os → All IsSafeOrder os
    all_safe [] h = tt
    all_safe (o ∷ os) (p, rest) = (Passes-IsSafeOrder o p, all_safe os rest)

    all_pass : (os : List (Value F)) → All IsSafeOrder os → All (Passes c prices) os
    all_pass [] h = tt
    all_pass (o ∷ os) (s, rest) = (IsSafeOrder-Passes o s, all_pass os rest)

    Above-some : (v : Value F) → ((x : F) × (positive v ≡ some x)) ⊎ (positive v ≡ none)
    Above-some v = elim (Option-cases (positive v)) [
      | inl missing ↦ inr missing
      | inr (x, found) ↦ inl (x, found)
    ]

    funded_sound :
        (v : Value F)
        → no_violations (capital_violations c v) ≡ true
        → (v ≡ null) ⊎ ((x : F) × IsAbove v x)
    funded_sound v h = elim (Above-some v) [
      | inl (x, found) ↦ inr (x, positive_sound v x found)
      | inr missing ↦ inl (ground arith)
    ]

    funded_complete :
        (v : Value F)
        → (v ≡ null) ⊎ ((x : F) × IsAbove v x)
        → no_violations (capital_violations c v) ≡ true
    funded_complete v (inl absent) = ap (λ w. no_violations (capital_violations c w)) absent
    funded_complete v (inr (x, above)) = let found = positive_complete v x above in ground arith

  -- `check_orders` passes, on prices it can read, exactly when each order is a mapping with a text
  -- for a symbol that is not blank and is on the list if there is one, a side, a finite positive
  -- quantity and a finite positive price, its notional is within the cap on one order, the sum of
  -- their notionals is within the cap on all, and a capital that is given is finite and positive.
  pub check_orders_iff :
      (c : PreTradeRiskCheck F) (os : List (Value F)) (prices capital : Value F)
      (table : Dict (Value F))
      → symbol_mapping prices ≡ ok table
      → ((check_orders c os prices capital).0 ≡ true) ↔ AreSafeOrders c table capital os
  check_orders_iff c os prices capital table read =
      let (there, back) = check_orders_passes c os prices capital table read in
      (
        λ h.
            let p = there h in
            let safe = all_safe c table os p.orders in
            record {
              orders = safe;
              total = exceeds_sound c.max_notional c.tolerance (committed c table zero os safe) (
                  ap (λ x. exceeds c.max_notional c.tolerance x)
                    (sym (total-committed c table zero os safe))
                  ∙ p.total);
              funded = funded_sound c table capital p.funded;
            },
        λ s. back (record {
          orders = all_pass c table os s.orders;
          funded = funded_complete c table capital s.funded;
          total =
              ap (λ x. exceeds c.max_notional c.tolerance x)
                (total-committed c table zero os s.orders)
              ∙ exceeds_complete c.max_notional c.tolerance (committed c table zero os s.orders)
                  s.total;
        }),
      )
