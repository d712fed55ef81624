-- ===== src/Portfolio/Contract/Tests.antt =====
-- quantcortex/portfolio/base.py on two weights, in fixed-point numbers.
use quantcortex.Prelude.{ℕ, ◌*◌, ◌^◌, ◌≡◌, refl, List, [], ◌∷◌, arith, true, false}
use quantcortex.Prelude.Int.{pos, ◌+ℤ◌, ◌-ℤ◌, ◌*ℤ◌}
use quantcortex.Prelude.Result.{ok}
use quantcortex.Python.Float.Ticks.{Tick, fin, ticks}
use quantcortex.Python.Numpy.{array, contains_boolean}
use quantcortex.Python.Numpy.Vectors.{vectors}
use quantcortex.Python.Text.{TextCase}
use quantcortex.Python.Value.{num, str}
use quantcortex.Portfolio.Contract.{
  long_only, mode_of_text, coerce_mode, target_sum, contract_number, finite_vector,
  check_allocation, check_exposure, enforce_weight_contract, enforce_exposure_contract,
}
use quantcortex.Portfolio.Contract.Laws.{
  AreLimits, IsVector, IsAllocation, IsExposure, enforce_weight_contract_sound,
  enforce_weight_contract_complete, enforce_exposure_contract_sound,
  enforce_exposure_contract_complete,
}

abbrev cent : ℕ → Tick
cent n = fin (pos (n * 10 ^ 10))

abbrev plain : TextCase
plain = record { lower = λ s. s; upper = λ s. s }

abbrev sixty_forty : List Tick
sixty_forty = cent 60 ∷ cent 40 ∷ []

is_long_only : coerce_mode {F = Tick} plain (str "long_only") ≡ ok long_only
unfolding coerce_mode mode_of_text
is_long_only = refl

accepted :
    enforce_weight_contract plain
      (array 1 sixty_forty)
      (str "long_only")
      (num (cent 1))
      (num (cent 0))
      (num (cent 100))
    ≡ ok sixty_forty
unfolding enforce_weight_contract coerce_mode mode_of_text contract_number finite_vector
    contains_boolean check_allocation target_sum ◌+ℤ◌ ◌-ℤ◌ ◌*ℤ◌
accepted = refl

enforce_weight_contract_sound_example :
    AreLimits (cent 1) (cent 0) (cent 100)
    × IsVector sixty_forty
    × IsAllocation long_only (cent 1) (cent 0) (cent 100) sixty_forty
enforce_weight_contract_sound_example =
    enforce_weight_contract_sound plain (array 1 sixty_forty) (str "long_only") (cent 1) (cent 0)
      (cent 100) long_only sixty_forty is_long_only accepted

limits : AreLimits (cent 1) (cent 0) (cent 100)
limits = record {
  tolerance_finite = refl;
  tolerance_nonneg = refl;
  lower_finite = refl;
  upper_finite = refl;
  ordered = refl;
}

vector : IsVector sixty_forty
vector = record { nonempty = λ e. absurd (ground arith); finite = (refl, (refl, tt)) }

allocation : IsAllocation long_only (cent 1) (cent 0) (cent 100) sixty_forty
unfolding target_sum ◌+ℤ◌ ◌-ℤ◌
allocation = record {
  weights = (
    record { long = λ _. refl; above = refl; below = refl },
    (record { long = λ _. refl; above = refl; below = refl }, tt),
  );
  budget = refl;
}

exposure : IsExposure (cent 100) (cent 1) (cent 0) (cent 100) sixty_forty
unfolding ◌+ℤ◌ ◌-ℤ◌
exposure = record {
  weights = (
    record { long = λ _. refl; above = refl; below = refl },
    (record { long = λ _. refl; above = refl; below = refl }, tt),
  );
  gross = refl;
}

enforce_weight_contract_complete_example :
    enforce_weight_contract plain
      (array 1 sixty_forty)
      (str "long_only")
      (num (cent 1))
      (num (cent 0))
      (num (cent 100))
    ≡ ok sixty_forty
enforce_weight_contract_complete_example =
    enforce_weight_contract_complete plain sixty_forty (str "long_only") (cent 1) (cent 0)
      (cent 100) long_only is_long_only limits vector allocation

exposed :
    enforce_exposure_contract
      (array 1 sixty_forty)
      (num (cent 100))
      (num (cent 1))
      (num (cent 0))
      (num (cent 100))
    ≡ ok sixty_forty
unfolding enforce_exposure_contract contract_number finite_vector contains_boolean check_exposure
    ◌+ℤ◌ ◌-ℤ◌ ◌*ℤ◌
exposed = refl

enforce_exposure_contract_sound_example :
    AreLimits (cent 1) (cent 0) (cent 100)
    × ((ticks.is_finite (cent 100) ≡ true) × (ticks.lt (cent 100) (cent 0) ≡ false))
    × IsVector sixty_forty
    × IsExposure (cent 100) (cent 1) (cent 0) (cent 100) sixty_forty
enforce_exposure_contract_sound_example =
    enforce_exposure_contract_sound (array 1 sixty_forty) (cent 100) (cent 1) (cent 0) (cent 100)
      sixty_forty exposed

enforce_exposure_contract_complete_example :
    enforce_exposure_contract
      (array 1 sixty_forty)
      (num (cent 100))
      (num (cent 1))
      (num (cent 0))
      (num (cent 100))
    ≡ ok sixty_forty
enforce_exposure_contract_complete_example =
    enforce_exposure_contract_complete sixty_forty (cent 100) (cent 1) (cent 0) (cent 100) refl
      limits vector exposure
