-- ===== src/Risk/VolTargeting/Tests.antt =====
-- quantcortex/risk/vol_targeting.py on two weights, in fixed-point numbers.
use quantcortex.Prelude.{ℕ, ◌*◌, ◌^◌, ◌≡◌, refl, Option, none, some, [], ◌∷◌}
use quantcortex.Prelude.Int.{pos, ◌+ℤ◌, ◌-ℤ◌, ◌*ℤ◌}
use quantcortex.Prelude.Result.{ok, err}
use quantcortex.Python.Exception.{type_error}
use quantcortex.Python.Float.Ticks.{Tick, fin, ticks, ticks-IsFloat}
use quantcortex.Python.Numpy.{array, contains_boolean}
use quantcortex.Python.Numpy.Vectors.{vectors}
use quantcortex.Python.Value.{null, num}
use quantcortex.Portfolio.Contract.{
  finite_vector, contract_number, check_exposure, enforce_exposure_contract,
}
use quantcortex.Risk.CircuitBreaker.Latch.{book}
use quantcortex.Risk.VolTargeting.Scaling.{
  Statistics, VolTargeting, scale_factor, capped_scale, base_scale, realized, scaling, apply_vol,
}
use quantcortex.Risk.VolTargeting.Overlay.{Targets, apply_vol_lem}

abbrev cent : ℕ → Tick
cent n = fin (pos (n * 10 ^ 10))

-- no statistics: the volatility is given
abbrev none_given : Statistics Tick
none_given = record {
  returns = λ v. err type_error;
  product = λ shape r w. r;
  deviation = λ r. cent 0;
  sqrt = λ n. cent 0;
}

abbrev overlay : Option Tick → Option Tick → VolTargeting Tick
overlay scale vol = record {
  target_vol = cent 10;
  max_leverage = cent 100;
  min_scale = cent 0;
  periods_per_year = 252;
  vol_floor = fin (pos 1000000);
  last_scale = scale;
  last_realized_vol = vol;
}

-- At twice the target, the book is halved.
apply_half :
    apply_vol none_given (array 1 (cent 60 ∷ cent 40 ∷ [])) null (num (cent 20)) (overlay none none)
    ≡ (ok (cent 30 ∷ cent 20 ∷ []), overlay (some (cent 50)) (some (cent 20)))
unfolding apply_vol scaling book realized base_scale scale_factor capped_scale
    enforce_exposure_contract contract_number finite_vector contains_boolean check_exposure ◌+ℤ◌
    ◌-ℤ◌ ◌*ℤ◌
apply_half = refl

apply_vol_lem_example :
    Targets none_given
      (array 1 (cent 60 ∷ cent 40 ∷ []))
      null
      (num (cent 20))
      (overlay none none)
      (overlay (some (cent 50)) (some (cent 20)))
      (cent 30 ∷ cent 20 ∷ [])
apply_vol_lem_example =
    apply_vol_lem ticks-IsFloat none_given (array 1 (cent 60 ∷ cent 40 ∷ [])) null (num (cent 20))
      (overlay none none) (overlay (some (cent 50)) (some (cent 20))) (cent 30 ∷ cent 20 ∷ [])
      apply_half
