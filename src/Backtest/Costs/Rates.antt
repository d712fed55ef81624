-- ===== src/Backtest/Costs/Rates.antt =====
-- quantcortex/backtest/costs/transaction_costs.py: the rates of `TransactionCostModel`, and
-- `CostResult`.
use quantcortex.Prelude.{Bool, not, ◌&&◌, ◌||◌, Option, List, [], ◌∷◌, map}
use quantcortex.Prelude.Result.{Result, ok, err, ◌>>=◌, ◌>>◌, raise_if}
use quantcortex.Python.Exception.{Exception, value_error, type_error}
use quantcortex.Python.Float.{Float, zero, one, max, min}
use quantcortex.Python.Numpy.{Numpy}

-- A cost rate as it is passed: a number or a boolean. What numpy raises on other values is not
-- modelled.
pub data Rate (F : Type 0) : Type 0 where
  flag : Rate F
  rate : F → Rate F

pub record TransactionCostModel (F : Type 0) : Type 0 where
  pub commission : F
  pub slippage : F
  pub tax : F
  pub volume_cap : F

pub record CostResult (F : Type 0) : Type 0 where
  pub desired_change : List F
  pub executed_change : List F
  pub executed_weights : List F
  pub buy_cost : List F
  pub sell_cost : List F
  pub capped : List Bool
  pub total_cost : F
  pub net_return : Option F

-- the element-wise operation of two vectors of one length
abbrev pub zip_with : {A B C : Type 0} → (A → B → C) → List A → List B → List C
zip_with f [] ys = []
zip_with f (x ∷ xs) [] = []
zip_with f (x ∷ xs) (y ∷ ys) = f x y ∷ zip_with f xs ys

module _ {F : Type 0} where
  abbrev pub amount : Rate F → Result Exception F
  amount flag = err type_error
  amount (rate x) = ok x

module _ {F : Type 0} ⦃fl : Float F⦄ where
  -- `not np.isfinite(rate) or rate < 0.0`
  abbrev pub bad_rate : F → Bool
  bad_rate x = not (fl.is_finite x) || fl.lt x zero

  -- `TransactionCostModel.__init__`
  unfoldable pub make_cost_model :
      Rate F → Rate F → Rate F → Rate F → Result Exception (TransactionCostModel F)
  make_cost_model commission slippage tax volume_cap = do
    c ← amount commission
    s ← amount slippage
    t ← amount tax
    v ← amount volume_cap
    raise_if (bad_rate c || bad_rate s || bad_rate t) value_error
    raise_if (fl.le one (fl.add c s) || fl.le one (fl.add (fl.add c s) t)) value_error
    raise_if (not (fl.is_finite v) || not (fl.lt zero v && fl.le v one)) value_error
    ok (record { commission = c; slippage = s; tax = t; volume_cap = v })

  unfoldable pub buy_rate : TransactionCostModel F → F
  buy_rate m = fl.add m.commission m.slippage

  unfoldable pub sell_rate : TransactionCostModel F → F
  sell_rate m = fl.add (fl.add m.commission m.slippage) m.tax

  -- `np.clip(x, 0.0, None)` and `np.abs(np.clip(x, None, 0.0))` on an element that is not NaN
  abbrev pub bought : F → F
  bought x = max x zero

  abbrev pub sold : F → F
  sold x = fl.abs (min x zero)

  unfoldable pub per_asset_cost : CostResult F → List F
  per_asset_cost r = zip_with fl.add r.buy_cost r.sell_cost

module _ {F : Type 0} ⦃fl : Float F⦄ ⦃np : Numpy F⦄ where
  unfoldable pub turnover : CostResult F → F
  turnover r = max (np.sum (map bought r.executed_change)) (np.sum (map sold r.executed_change))

  unfoldable pub traded_notional : CostResult F → F
  traded_notional r = np.sum (map fl.abs r.executed_change)
