-- ===== src/Portfolio/Tests.antt =====
-- quantcortex/portfolio/base.py: a bisection in fixed-point numbers.
use quantcortex.Prelude.{ℕ, ◌*◌, ◌^◌, refl, List, [], ◌∷◌}
use quantcortex.Prelude.Int.{pos, ◌+ℤ◌, ◌-ℤ◌}
use quantcortex.Python.Float.Ticks.{Tick, fin, ticks}
use quantcortex.Python.Numpy.Vectors.{vectors}
use quantcortex.Portfolio.Projection.{bisect}
use quantcortex.Portfolio.Brackets.{Brackets, bisect_lem}

abbrev cent : ℕ → Tick
cent n = fin (pos (n * 10 ^ 10))

abbrev raw : List Tick
raw = cent 90 ∷ cent 30 ∷ []

-- The vector (0.9, 0.3) on the sum 1 in the box from 0 to 1, by shifts between -0.7 and 0.9.
bisect_lem_example :
    Brackets 4
      (cent 100)
      (cent 0)
      (cent 100)
      raw
      (ticks.neg (cent 70))
      (cent 90)
      (bisect 4 (cent 100) (cent 0) (cent 100) raw (ticks.neg (cent 70), cent 90))
unfolding ◌+ℤ◌ ◌-ℤ◌
bisect_lem_example =
    bisect_lem 4 (cent 100) (cent 0) (cent 100) raw (ticks.neg (cent 70)) (cent 90) refl refl
