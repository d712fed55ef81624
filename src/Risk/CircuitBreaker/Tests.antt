-- ===== src/Risk/CircuitBreaker/Tests.antt =====
-- quantcortex/risk/circuit_breaker.py on short curves, in fixed-point numbers.
use quantcortex.Prelude.{
  ℕ, ◌*◌, ◌^◌, ◌≡◌, refl, Bool, true, false, Option, none, some, [], ◌∷◌, All,
}
use quantcortex.Prelude.Int.{pos, ◌+ℤ◌, ◌-ℤ◌, ◌*ℤ◌}
use quantcortex.Prelude.Result.{ok}
use quantcortex.Python.Float.Ticks.{Tick, fin, ticks, ticks-IsFloat}
use quantcortex.Python.Numpy.{ArrayLike, array, contains_boolean}
use quantcortex.Python.Numpy.Vectors.{vectors}
use quantcortex.Python.Value.{null, bool, num}
use quantcortex.Portfolio.Contract.{
  finite_vector, contract_number, check_exposure, enforce_exposure_contract,
}
use quantcortex.Risk.CircuitBreaker.Drawdown.{
  CircuitBreaker, running_peak, last, drawdown, compute_drawdown, reset_level, make_breaker,
}
use quantcortex.Risk.CircuitBreaker.Latch.{update_state, current, book, apply}
use quantcortex.Python.Float.{zero, one}
use quantcortex.Risk.CircuitBreaker.Range.{compute_drawdown_bounded}
use quantcortex.Risk.CircuitBreaker.Overlay.{Applies, apply_lem}
use quantcortex.Risk.CircuitBreaker.Runs.{
  IsBreaker, make_breaker-IsBreaker, update_state_idem, apply_all, IsFlat, apply_all-latched,
}

-- hundredths
abbrev cent : ℕ → Tick
cent n = fin (pos (n * 10 ^ 10))

abbrev breaker : Bool → Bool → CircuitBreaker Tick
breaker auto tripped = record {
  max_drawdown = cent 20;
  reset_drawdown = cent 10;
  auto_reset = auto;
  tripped = tripped;
}

make_breaker_default : make_breaker (num (cent 20)) null (bool true) ≡ ok (breaker true false)
unfolding make_breaker reset_level ◌+ℤ◌ ◌-ℤ◌ ◌*ℤ◌
make_breaker_default = refl

make_breaker-IsBreaker_example : IsBreaker (breaker true false) × (false ≡ false)
make_breaker-IsBreaker_example =
    make_breaker-IsBreaker (num (cent 20)) null (bool true) (breaker true false)
      make_breaker_default

update_state_idem_example :
    update_state (cent 25) (update_state (cent 25) (breaker true false))
    ≡ update_state (cent 25) (breaker true false)
update_state_idem_example =
    update_state_idem ticks-IsFloat (cent 25) (breaker true false) make_breaker-IsBreaker_example.0

abbrev weights : ArrayLike Tick
weights = array 1 (cent 60 ∷ cent 40 ∷ [])

abbrev curve : Option (ArrayLike Tick)
curve = some (array 1 (cent 100 ∷ cent 200 ∷ cent 150 ∷ []))

-- A fall by a quarter trips the breaker.
apply_fall :
    apply weights curve null (breaker false false) ≡ (ok (cent 0 ∷ cent 0 ∷ []), breaker false true)
unfolding apply book current compute_drawdown drawdown running_peak last update_state
    enforce_exposure_contract contract_number finite_vector contains_boolean check_exposure ◌+ℤ◌
    ◌-ℤ◌ ◌*ℤ◌
apply_fall = refl

apply_lem_example :
    Applies weights curve null (breaker false false) (breaker false true) (cent 0 ∷ cent 0 ∷ [])
apply_lem_example =
    apply_lem weights curve null (breaker false false) (breaker false true) (cent 0 ∷ cent 0 ∷ [])
      apply_fall

apply_all-latched_example :
    ((apply_all
        ((weights, (none, num (cent 0))) ∷ (weights, (none, null)) ∷ [])
        (breaker false true)).1
      ≡ breaker false true)
    × All IsFlat
        (apply_all
          ((weights, (none, num (cent 0))) ∷ (weights, (none, null)) ∷ [])
          (breaker false true)).0
apply_all-latched_example =
    apply_all-latched ((weights, (none, num (cent 0))) ∷ (weights, (none, null)) ∷ [])
      (breaker false true) refl refl

fall : compute_drawdown (array 1 (cent 100 ∷ cent 200 ∷ cent 150 ∷ [])) ≡ ok (cent 25)
unfolding compute_drawdown drawdown running_peak last ◌+ℤ◌ ◌-ℤ◌ ◌*ℤ◌
fall = refl

compute_drawdown_bounded_example :
    (ticks.le zero (cent 25) ≡ true)
    × (ticks.le (cent 25) one ≡ true)
    × (ticks.is_finite (cent 25) ≡ true)
compute_drawdown_bounded_example =
    compute_drawdown_bounded ticks-IsFloat (array 1 (cent 100 ∷ cent 200 ∷ cent 150 ∷ [])) (cent 25)
      fall
