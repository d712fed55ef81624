-- ===== src/Execution/PositionManager/Orders.antt =====
-- quantcortex/execution/position_manager.py: the orders that `target_weights_to_orders` returns.
use quantcortex.Prelude.{
  String, ◌≡◌, refl, sym, subst, Bool, true, false, Option, none, some, List, [], ◌∷◌, ◌++◌, All,
  arith, inl, inr, Option-cases, if◌then◌else◌,
}
use quantcortex.Prelude.Result.{Result, ok, Result-cases}
use quantcortex.Python.Dict.{Dict, lookup, keys}
use quantcortex.Python.Exception.{Exception}
use quantcortex.Python.Float.{Float, zero, divide, is_close}
use quantcortex.Python.Value.{Value, bool}
use quantcortex.Execution.OrderManager.Status.{buy, sell}
use quantcortex.Execution.PositionManager.Mapping.{to_float, symbol_mapping}
use quantcortex.Execution.PositionManager.Book.{PositionManager}
use quantcortex.Execution.PositionManager.Sizing.{
  Intent, finite_values, holdings, shares, share_tolerance, amount_of, intent_of, intent, intents,
  sorted, target_weights_to_orders,
}

module _ {F : Type 0} ⦃fl : Float F⦄ where
  -- the price of a symbol, where it is a finite number
  abbrev pub finite_price : Dict (Value F) → String → Option F
  finite_price prices s = elim (lookup s prices) [ none ↦ none | some v ↦ to_float v ]

  -- The amount of a symbol: 0.0 where it has none, or one that is not finite.
  abbrev pub finite_amount : Dict F → String → F
  finite_amount amounts s = elim (lookup s amounts) [
    | none ↦ zero
    | some x ↦ if fl.is_finite x then (if fl.eq x zero then zero else x) else zero
  ]

  -- The change from the shares held to the target, which is the weight of the capital at the price;
  -- in whole shares the target is cut towards zero, and the holding is its rounding.
  abbrev pub change : Bool → F → F → F → F → F
  change true capital weight held price = fl.sub (fl.div (fl.mul weight capital) price) held
  change false capital weight held price =
      fl.sub (fl.trunc (fl.div (fl.mul weight capital) price)) (fl.round held)

  -- In whole shares, the holding is a whole number up to the tolerance and the target is finite.
  abbrev pub IsWhole : Bool → F → F → F → F → Type 0
  IsWhole true capital weight held price = Unit
  IsWhole false capital weight held price =
      (is_close share_tolerance share_tolerance held (fl.round held) ≡ true)
      × (fl.is_finite (fl.div (fl.mul weight capital) price) ≡ true)

  module _ (fractional : Bool) (capital minimum : F) (weights current : Dict F)
      (prices : Dict (Value F)) where
    -- An order worth sending: for the change of its symbol, which is not zero, on its side and of its
    -- size, at a positive price of its symbol, and not below the least notional.
    pub record IsWorth (i : Intent F) : Type 0 where
      pub price : F
      pub delta : F
      pub priced : finite_price prices i.symbol ≡ some price
      pub positive : fl.le price zero ≡ false
      pub whole :
          IsWhole fractional capital
            (finite_amount weights i.symbol)
            (finite_amount current i.symbol)
            price
      pub changed :
          delta
          ≡ change fractional capital
              (finite_amount weights i.symbol)
              (finite_amount current i.symbol)
              price
      pub moving : fl.eq delta zero ≡ false
      pub sided : i.side ≡ (if fl.lt zero delta then buy else sell)
      pub sized : i.quantity ≡ fl.abs delta
      pub worth : fl.lt (fl.mul i.quantity price) minimum ≡ false

  amount_of-finite : (amounts : Dict F) (s : String) → amount_of amounts s ≡ finite_amount amounts s
  unfolding to_float
  amount_of-finite amounts s = elim (Option-cases (lookup s amounts)) [
    | inl missing ↦ ground arith
    | inr (x, found) ↦ ground arith
  ]

  shares-change :
      (fractional : Bool) (capital weight held price target wanted kept : F)
      → divide (fl.mul weight capital) price ≡ ok target
      → shares fractional target held ≡ ok (wanted, kept)
      → IsWhole fractional capital weight held price
        × (fl.sub wanted kept ≡ change fractional capital weight held price)
  unfolding shares
  shares-change true capital weight held price target wanted kept divided shared = ground arith
  shares-change false capital weight held price target wanted kept divided shared = ground arith

  intent-IsWorth :
      (fractional : Bool) (capital minimum : F) (weights current : Dict F) (prices : Dict (Value F))
      (s : String) (i : Intent F)
      → intent fractional capital minimum weights current prices s ≡ ok (some i)
      → IsWorth fractional capital minimum weights current prices i
  unfolding intent
  intent-IsWorth fractional capital minimum weights current prices s i h =
      let w = amount_of weights s in
      let q = amount_of current s in
      elim (Option-cases (finite_price prices s)) [
        | inl missing ↦ absurd (ground arith)
        | inr (price, priced) ↦ elim (Result-cases (divide (fl.mul w capital) price)) [
          | inr (e, bad) ↦ absurd (ground arith)
          | inl (target, divided) ↦ elim (Result-cases (shares fractional target q)) [
            | inr (e, bad) ↦ absurd (ground arith)
            | inl ((wanted, held), shared) ↦
                let delta = fl.sub wanted held in
                let same : i ≡ intent_of s delta = ground arith in
                let (whole, changed) =
                  subst
                    (λ x.
                      IsWhole fractional capital (finite_amount weights s) x price
                      × (delta ≡ change fractional capital (finite_amount weights s) x price))
                    (amount_of-finite current s)
                    (subst
                      (λ x.
                        IsWhole fractional capital x q price
                        × (delta ≡ change fractional capital x q price))
                      (amount_of-finite weights s)
                      (shares-change fractional capital w q price target wanted held divided
                        shared)) in
                subst (IsWorth fractional capital minimum weights current prices) (sym same)
                  (record {
                    price = price;
                    delta = delta;
                    priced = priced;
                    positive = ground arith;
                    whole = whole;
                    changed = changed;
                    moving = ground arith;
                    sided = refl;
                    sized = refl;
                    worth = ground arith;
                  })
          ]
        ]
      ]

  intents-all :
      (W : Intent F → Type 0) (f : String → Result Exception (Option (Intent F)))
      → ((s : String) (i : Intent F) → f s ≡ ok (some i) → W i)
      → (ss : List String) (out : List (Intent F)) → intents f ss ≡ ok out
      → All W out
  unfolding intents
  intents-all W f each [] out h = let same : out ≡ [] = ground arith in subst (All W) (sym same) tt
  intents-all W f each (s ∷ ss) out h = elim (Result-cases (f s)) [
    | inr (e, bad) ↦ absurd (ground arith)
    | inl (x, made) ↦ elim (Result-cases (intents f ss)) [
      | inr (e, bad) ↦ absurd (ground arith)
      | inl (rest, others) ↦
          let worth = intents-all W f each ss rest others in
          elim (Option-cases x) [
            | inl nothing ↦ let same : out ≡ rest = ground arith in subst (All W) (sym same) worth
            | inr (i, some_order) ↦
                let same : out ≡ i ∷ rest = ground arith in
                subst (All W) (sym same) (each s i (ground arith), worth)
          ]
    ]
  ]

  -- Every order that `target_weights_to_orders` returns, for arguments that it can read, is for the
  -- change from the holding of its symbol to the target weight of the capital at a positive price of
  -- the symbol, in whole shares unless fractions are allowed: the change is not zero, the order is on
  -- its side and of its size, and not below the least notional. A symbol without a weight or a
  -- holding, or with one that is not finite, has 0.0.
  pub target_weights_to_orders-IsWorth :
      (targets prices capital current minimum : Value F) (fractional : Bool) (m : PositionManager F)
      (wanted table : Dict (Value F)) (weights held : Dict F) (base least : F)
      (out : List (Intent F))
      → symbol_mapping targets ≡ ok wanted
      → finite_values wanted ≡ ok weights
      → symbol_mapping prices ≡ ok table
      → to_float capital ≡ some base
      → to_float minimum ≡ some least
      → holdings current m ≡ ok held
      → target_weights_to_orders targets prices capital current minimum (bool fractional) m ≡ ok out
      → All (IsWorth fractional base least weights held table) out
  unfolding target_weights_to_orders
  target_weights_to_orders-IsWorth targets prices capital current minimum fractional m wanted table
        weights held base least out is_wanted is_weights read is_base is_least is_held h =
      intents-all (IsWorth fractional base least weights held table)
        (intent fractional base least weights held table)
        (intent-IsWorth fractional base least weights held table)
        (sorted (keys weights ++ keys held)) out (ground arith)
