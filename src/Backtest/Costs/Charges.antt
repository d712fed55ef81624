-- ===== src/Backtest/Costs/Charges.antt =====
-- quantcortex/backtest/costs/transaction_costs.py: what the turnover costs, and where the bisection
-- for the gross cap ends.
use quantcortex.Prelude.{
  ℕ, zero as zero_ℕ, suc, ◌≡◌, inl, inr, Bool, true, false, List, map, arith, Bool-cases,
}
use quantcortex.Prelude.Result.{ok, Result-cases}
use quantcortex.Prelude.Halving.{Halved, whole, below, above}
use quantcortex.Python.Float.{Float, zero, one, max, min}
use quantcortex.Python.Numpy.{Numpy, ArrayLike}
use quantcortex.Python.Value.{num}
use quantcortex.Backtest.Costs.Rates.{TransactionCostModel, zip_with, buy_rate, sell_rate}
use quantcortex.Backtest.Costs.Caps.{dollar_adv, volume_capped, gross_capped, bisect_scale}
use quantcortex.Backtest.Costs.Apply.{
  weight_pair, positive_float, gross_limit, net, charge, apply_costs, cost_of_turnover,
}

module _ {F : Type 0} ⦃fl : Float F⦄ ⦃np : Numpy F⦄ where
  -- Whether the gross exposure of the reduced weights with a fraction of the increases is within a
  -- limit.
  abbrev pub Fits : F → List F → List F → F → Bool → Type 0
  Fits limit reduced increasing s b =
      fl.le (np.sum (map fl.abs (zip_with fl.add reduced (map (λ x. fl.mul s x) increasing)))) limit
      ≡ b

  -- Where the bisection for the gross cap ends: at the lower end of a bracket that the halvings left,
  -- which is within the limit, and whose upper end is not.
  pub record Ends (n : ℕ) (limit : F) (reduced increasing : List F) (low high scale : F)
      : Type 0 where
    pub top : F
    pub halved : Halved (λ a b. fl.div (fl.add a b) (fl.scaled 2 0)) n low high scale top
    pub fits : Fits limit reduced increasing scale true
    pub tight : Fits limit reduced increasing top false

  -- From a bracket whose lower end fits under the limit on the gross exposure, and whose upper end does
  -- not, the bisection ends at the lower end of a bracket that is left after as many halvings as it has
  -- rounds, which fits, and whose upper end does not.
  pub bisect_scale_lem :
      (n : ℕ) (limit : F) (reduced increasing : List F) (low high : F)
      → Fits limit reduced increasing low true
      → Fits limit reduced increasing high false
      → Ends n limit reduced increasing low high (bisect_scale n limit reduced increasing low high)
  unfolding bisect_scale
  bisect_scale_lem zero_ℕ limit reduced increasing low high fits tight = record {
    top = high;
    halved = whole low high;
    fits = fits;
    tight = tight;
  }
  bisect_scale_lem (suc n) limit reduced increasing low high fits tight =
      let mid = fl.div (fl.add low high) (fl.scaled 2 0) in
      elim (Bool-cases (
        fl.le (np.sum (map fl.abs (zip_with fl.add reduced (map (λ x. fl.mul mid x) increasing))))
          limit)) [
            | inl within ↦
                let e = bisect_scale_lem n limit reduced increasing mid high within tight in
                rw within (record {
                  top = e.top;
                  halved = above n low high _ e.top e.halved;
                  fits = e.fits;
                  tight = e.tight;
                })
            | inr beyond ↦
                let e = bisect_scale_lem n limit reduced increasing low mid fits beyond in
                rw beyond (record {
                  top = e.top;
                  halved = below n low high _ e.top e.halved;
                  fits = e.fits;
                  tight = e.tight;
                })
          ]

  -- The cost of turnover that is returned for two vectors is that of each increase of a weight at the
  -- commission and the slippage, and of each decrease at the commission, the slippage and the tax:
  -- the sums of both, added.
  pub cost_of_turnover_lem :
      (m : TransactionCostModel F) (prev new : ArrayLike F) (w v : List F) (cost : F)
      → weight_pair prev new ≡ ok (w, v)
      → cost_of_turnover m prev new ≡ ok cost
      → cost
        ≡ fl.add
            (np.sum (
              map
                (λ x. fl.mul (max x zero) (fl.add m.commission m.slippage))
                (zip_with fl.sub v w)))
            (np.sum (
              map
                (λ x. fl.mul (fl.abs (min x zero)) (fl.add (fl.add m.commission m.slippage) m.tax))
                (zip_with fl.sub v w)))
  unfolding cost_of_turnover apply_costs dollar_adv volume_capped gross_limit gross_capped charge
      net buy_rate sell_rate
  cost_of_turnover_lem m prev new w v cost read h =
      elim (Result-cases (positive_float (num (one {F = F})))) [
        | inr (e, bad) ↦ absurd (ground arith)
        | inl (base, is_base) ↦ ground arith
      ]
