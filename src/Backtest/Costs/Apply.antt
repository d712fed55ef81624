-- ===== src/Backtest/Costs/Apply.antt =====
-- quantcortex/backtest/costs/transaction_costs.py: `apply_costs`.
use quantcortex.Prelude.{
  ℕ, Bool, not, ◌&&◌, ◌||◌, Option, none, some, List, [], ◌∷◌, map, all, is_empty, ◌==◌, length,
  if◌then◌else◌,
}
use quantcortex.Prelude.Result.{Result, ok, ◌>>=◌, ◌>>◌, raise_if}
use quantcortex.Python.Exception.{Exception, value_error, type_error}
use quantcortex.Python.Float.{Float, zero, one}
use quantcortex.Python.Numpy.{Numpy, ArrayLike, as_array}
use quantcortex.Python.Value.{Value, null, num, is_bool, float}
use quantcortex.Backtest.Costs.Rates.{
  TransactionCostModel, CostResult, zip_with, buy_rate, sell_rate, bought, sold,
}
use quantcortex.Backtest.Costs.Caps.{dollar_adv, volume_capped, gross_capped}

module _ {F : Type 0} ⦃fl : Float F⦄ ⦃np : Numpy F⦄ where
  -- the two weight vectors: of one dimension, not empty, of one length, finite
  unfoldable pub weight_pair : ArrayLike F → ArrayLike F → Result Exception (List F × List F)
  weight_pair prev new = do
    (m, w) ← as_array prev
    (n, v) ← as_array new
    raise_if (not (m == 1) || not (n == 1) || is_empty w) value_error
    raise_if (not (length w == length v)) value_error
    raise_if (not (all fl.is_finite w) || not (all fl.is_finite v)) value_error
    ok (w, v)

module _ {F : Type 0} ⦃fl : Float F⦄ where
  -- a number that is finite and positive, and no boolean
  unfoldable pub positive_float : Value F → Result Exception F
  positive_float v = do
    raise_if (is_bool v) type_error
    x ← float v
    raise_if (not (fl.is_finite x) || fl.le x zero) value_error
    ok x

  unfoldable pub gross_limit : Value F → Result Exception (Option F)
  gross_limit null = ok none
  gross_limit v = do x ← positive_float v; ok (some x)

  -- `np.isclose(a, b, rtol=1e-10, atol=1e-12)`
  abbrev pub is_near : F → F → Bool
  is_near a b =
      (fl.le (fl.abs (fl.sub a b)) (fl.add (fl.scaled 1 12) (fl.mul (fl.scaled 1 10) (fl.abs b)))
        && fl.is_finite b)
      || fl.eq a b

module _ {F : Type 0} ⦃fl : Float F⦄ ⦃np : Numpy F⦄ where
  -- the number in an array of no dimension
  abbrev pub only_element : List F → F
  only_element [] = zero
  only_element (x ∷ _) = x

  -- the portfolio's gross return at the executed weights: of a vector or of one number
  unfoldable pub gross_return : List F → ℕ → List F → Result Exception F
  gross_return weights n gr = do
    raise_if (not (n == 0 || n == 1) || (n == 1 && not (length gr == length weights))) value_error
    raise_if (not (all fl.is_finite gr)) value_error
    ok (
        if n == 1
        then np.sum (zip_with fl.mul weights gr)
        else fl.mul (np.sum weights) (only_element gr))

  unfoldable pub net : F → List F → Option (ArrayLike F) → Result Exception (Option F)
  net total weights none = ok none
  net total weights (some returns) = do
    (n, gr) ← as_array returns
    g ← gross_return weights n gr
    ok (some (fl.sub g total))

  -- the charges on the changes that are executed
  unfoldable pub charge :
      TransactionCostModel F
      → List F
      → List F
      → List F
      → Option (ArrayLike F)
      → Result Exception (CostResult F)
  charge m w desired executed returns = do
    let buys = map (λ x. fl.mul (bought x) (buy_rate m)) executed
    let sells = map (λ x. fl.mul (sold x) (sell_rate m)) executed
    let total = fl.add (np.sum buys) (np.sum sells)
    after ← net total (zip_with fl.add w executed) returns
    ok (record {
      desired_change = desired;
      executed_change = executed;
      executed_weights = zip_with fl.add w executed;
      buy_cost = buys;
      sell_cost = sells;
      capped = zip_with (λ e d. not (is_near e d)) executed desired;
      total_cost = total;
      net_return = after;
    })

  -- `TransactionCostModel.apply_costs`
  unfoldable pub apply_costs :
      TransactionCostModel F
      → ArrayLike F
      → ArrayLike F
      → Option (ArrayLike F)
      → Option (ArrayLike F)
      → Value F
      → Option (ArrayLike F)
      → Value F
      → Result Exception (CostResult F)
  apply_costs m prev new prices adv capital returns max_gross = do
    (w, v) ← weight_pair prev new
    limit ← gross_limit max_gross
    base ← positive_float capital
    let desired = zip_with fl.sub v w
    dollars ← dollar_adv adv prices
    afforded ← volume_capped m base desired dollars
    charge m w desired (gross_capped w afforded limit) returns

  -- `cost_of_turnover`
  unfoldable pub cost_of_turnover :
      TransactionCostModel F → ArrayLike F → ArrayLike F → Result Exception F
  cost_of_turnover m prev new = do
    r ← apply_costs m prev new none none (num one) none null
    ok r.total_cost
