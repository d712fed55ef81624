-- ===== src/Backtest/Costs/Tests.antt =====
-- quantcortex/backtest/costs/transaction_costs.py on two weights, in fixed-point numbers.
use quantcortex.Prelude.{ℕ, ◌*◌, ◌^◌, ◌≡◌, refl, true, false, none, some, [], ◌∷◌, map}
use quantcortex.Prelude.Int.{pos, ◌+ℤ◌, ◌-ℤ◌, ◌*ℤ◌}
use quantcortex.Prelude.Result.{ok}
use quantcortex.Python.Float.{max, min}
use quantcortex.Python.Float.Ticks.{Tick, fin, ticks}
use quantcortex.Python.Numpy.{ArrayLike, array}
use quantcortex.Python.Numpy.Vectors.{vectors}
use quantcortex.Python.Value.{null, num}
use quantcortex.Backtest.Costs.Rates.{
  TransactionCostModel, CostResult, zip_with, rate, make_cost_model, buy_rate, sell_rate,
}
use quantcortex.Backtest.Costs.Caps.{
  in_dollars, dollar_adv, volume_capped, bisect_scale, gross_capped,
}
use quantcortex.Backtest.Costs.Apply.{
  weight_pair, positive_float, gross_limit, net, charge, apply_costs, cost_of_turnover,
}
use quantcortex.Backtest.Costs.Charges.{Ends, bisect_scale_lem, cost_of_turnover_lem}

abbrev cent : ℕ → Tick
cent n = fin (pos (n * 10 ^ 10))

-- less so many hundredths
abbrev less : ℕ → Tick
less n = ticks.neg (cent n)

abbrev model : TransactionCostModel Tick
model = record { commission = cent 1; slippage = cent 1; tax = cent 2; volume_cap = cent 10 }

make_model :
    make_cost_model (rate (cent 1)) (rate (cent 1)) (rate (cent 2)) (rate (cent 10)) ≡ ok model
unfolding make_cost_model ◌+ℤ◌
make_model = refl

-- At 0.9 a position, only a part of an increase fits under a gross exposure of one.
bisect_scale_lem_example :
    Ends 3
      (cent 100)
      (cent 90 ∷ [])
      (cent 20 ∷ [])
      (cent 0)
      (cent 100)
      (bisect_scale 3 (cent 100) (cent 90 ∷ []) (cent 20 ∷ []) (cent 0) (cent 100))
unfolding ◌+ℤ◌ ◌*ℤ◌
bisect_scale_lem_example =
    bisect_scale_lem 3 (cent 100) (cent 90 ∷ []) (cent 20 ∷ []) (cent 0) (cent 100) refl refl

abbrev before : ArrayLike Tick
before = array 1 (cent 60 ∷ cent 40 ∷ [])

abbrev after : ArrayLike Tick
after = array 1 (cent 50 ∷ cent 50 ∷ [])

pair_read : weight_pair before after ≡ ok (cent 60 ∷ cent 40 ∷ [], cent 50 ∷ cent 50 ∷ [])
unfolding weight_pair
pair_read = refl

-- A volume of 0.5 lets a twentieth of the capital trade in the first asset.
abbrev rebalanced : CostResult Tick
rebalanced = record {
  desired_change = less 10 ∷ cent 10 ∷ [];
  executed_change = less 5 ∷ cent 10 ∷ [];
  executed_weights = cent 55 ∷ cent 50 ∷ [];
  buy_cost = fin (pos 0) ∷ fin (pos (2 * 10 ^ 9)) ∷ [];
  sell_cost = fin (pos (2 * 10 ^ 9)) ∷ fin (pos 0) ∷ [];
  capped = true ∷ (false ∷ []);
  total_cost = fin (pos (4 * 10 ^ 9));
  net_return = none;
}

rebalance :
    apply_costs model before after none
      (some (array 1 (cent 50 ∷ cent 200 ∷ [])))
      (num (cent 100))
      none
      null
    ≡ ok rebalanced
unfolding apply_costs weight_pair positive_float gross_limit dollar_adv in_dollars volume_capped
    gross_capped charge net buy_rate sell_rate ◌+ℤ◌ ◌-ℤ◌ ◌*ℤ◌
rebalance = refl

turned_over : cost_of_turnover model before after ≡ ok (fin (pos (6 * 10 ^ 9)))
unfolding cost_of_turnover apply_costs weight_pair positive_float gross_limit dollar_adv
    volume_capped gross_capped charge net buy_rate sell_rate ◌+ℤ◌ ◌-ℤ◌ ◌*ℤ◌
turned_over = refl

cost_of_turnover_lem_example :
    let changes = zip_with ticks.sub (cent 50 ∷ cent 50 ∷ []) (cent 60 ∷ cent 40 ∷ []) in
    fin (pos (6 * 10 ^ 9))
    ≡ ticks.add
        (vectors.sum (map (λ x. ticks.mul (max x (cent 0)) (ticks.add (cent 1) (cent 1))) changes))
        (vectors.sum (
          map
            (λ x.
              ticks.mul
                (ticks.abs (min x (cent 0)))
                (ticks.add (ticks.add (cent 1) (cent 1)) (cent 2)))
            changes))
cost_of_turnover_lem_example =
    cost_of_turnover_lem model before after (cent 60 ∷ cent 40 ∷ []) (cent 50 ∷ cent 50 ∷ [])
      (fin (pos (6 * 10 ^ 9))) pair_read turned_over
