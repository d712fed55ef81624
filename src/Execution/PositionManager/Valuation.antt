-- ===== src/Execution/PositionManager/Valuation.antt =====
-- quantcortex/execution/position_manager.py: `mark`, `market_value`, `net_exposure` and
-- `gross_exposure`.
use quantcortex.Prelude.{Option, none, some, [], ◌∷◌, if◌then◌else◌}
use quantcortex.Prelude.Result.{Result, ok, err, ◌>>=◌}
use quantcortex.Python.Dict.{Dict}
use quantcortex.Python.Exception.{Exception, value_error, Exec}
use quantcortex.Python.Float.{Float, zero}
use quantcortex.Python.Value.{Value, num, Fields}
use quantcortex.Execution.Brokers.Base.{Position}
use quantcortex.Execution.PositionManager.Mapping.{to_float, as_mapping}
use quantcortex.Python.Fields.{entry}
use quantcortex.Execution.PositionManager.Book.{PositionManager}

module _ {F : Type 0} ⦃fl : Float F⦄ where
  -- a price that is finite and positive, or `ValueError`
  unfoldable pub usable_price : Value F → Result Exception F
  usable_price v = elim (to_float v) [
    | none ↦ err value_error
    | some p ↦ if fl.le p zero then err value_error else ok p
  ]

  -- one position of `mark`: a symbol with no price keeps its own
  unfoldable pub marked : Option (Value F) → Position F → Result Exception (Position F)
  marked none p = ok p
  marked (some v) p = do price ← usable_price v; ok (record p { market_price = price })

  -- the loop of `mark`: what was marked before a raise stays marked
  unfoldable pub mark_all :
      Fields F → Dict (Position F) → Result Exception (Unit {0}) × Dict (Position F)
  unfolding marked
  mark_all prices [] = (ok tt, [])
  mark_all prices ((s, p) ∷ d) =
      let (r, d') = mark_all prices d in
      elim (marked (entry s prices) p) [ err e ↦ (err e, (s, p) ∷ d) | ok q ↦ (r, (s, q) ∷ d') ]

  unfoldable pub mark : Value F → Exec (PositionManager F) (Unit {0})
  mark prices m = elim (as_mapping prices) [
    | err e ↦ (err e, m)
    | ok fs ↦ let (r, d) = mark_all fs m.positions in (r, record m { positions = d })
  ]

  -- `prices.get(symbol, pos.market_price)`
  abbrev pub price_or : Position F → Option (Value F) → Value F
  price_or p none = num p.market_price
  price_or p (some v) = v

  -- the loop of a valuation, with what a position adds
  unfoldable pub value_all : (F → F) → Fields F → F → Dict (Position F) → Result Exception F
  value_all part prices total [] = ok total
  value_all part prices total ((s, p) ∷ d) = do
    price ← usable_price (price_or p (entry s prices))
    value_all part prices (fl.add total (part (fl.mul p.quantity price))) d

  unfoldable pub market_value : Value F → PositionManager F → Result Exception F
  market_value prices m = do fs ← as_mapping prices; value_all (λ x. x) fs zero m.positions

  unfoldable pub net_exposure : Value F → PositionManager F → Result Exception F
  net_exposure prices m = market_value prices m

  unfoldable pub gross_exposure : Value F → PositionManager F → Result Exception F
  gross_exposure prices m = do fs ← as_mapping prices; value_all fl.abs fs zero m.positions
