-- ===== src/Portfolio/Projection.antt =====
-- quantcortex/portfolio/base.py: `project_bounded_sum`, a bisection and a pass over the residual.
use quantcortex.Prelude.{
  ℕ, zero as zero_ℕ, suc, not, ◌||◌, List, [], ◌∷◌, map, all, is_empty, length, replicate, ◌==◌,
  if◌then◌else◌,
}
use quantcortex.Prelude.Result.{Result, ok, err, ◌>>=◌, ◌>>◌, raise_if}
use quantcortex.Python.Exception.{Exception, weight_contract_violation}
use quantcortex.Python.Float.{Float, zero, max, min}
use quantcortex.Python.Numpy.{Numpy, ArrayLike, as_array, contains_boolean}
use quantcortex.Python.Value.{Value, is_bool}
use quantcortex.Portfolio.Contract.{contract_number, bad_tolerance, bad_bounds}
use quantcortex.Portfolio.Normalize.{clip}

module _ {F : Type 0} ⦃fl : Float F⦄ where
  -- 0.5 * (low + high)
  abbrev pub middle : F → F → F
  middle low high = fl.mul (fl.scaled 5 1) (fl.add low high)

  -- `np.clip(arr - theta, lower, upper)`
  abbrev pub shifted : F → F → F → List F → List F
  shifted lower upper theta arr = map (λ x. clip lower upper (fl.sub x theta)) arr

  -- The loop that spends a positive residual on the elements below `upper`.
  unfoldable pub top_up : F → F → F → List F → List F
  top_up upper tolerance residual [] = []
  top_up upper tolerance residual (p ∷ ps) =
      let increment = min residual (fl.sub upper p) in
      let left = fl.sub residual increment in
      let rest = top_up upper tolerance left ps in
      let same = top_up upper tolerance residual ps in
      if fl.lt p upper
      then fl.add p increment ∷ (if fl.le left tolerance then ps else rest)
      else p ∷ same

  -- The loop that takes a negative residual from the elements above `lower`.
  unfoldable pub take_down : F → F → F → List F → List F
  take_down lower tolerance residual [] = []
  take_down lower tolerance residual (p ∷ ps) =
      let decrement = min (fl.neg residual) (fl.sub p lower) in
      let left = fl.add residual decrement in
      let rest = take_down lower tolerance left ps in
      let same = take_down lower tolerance residual ps in
      if fl.lt lower p
      then fl.sub p decrement ∷ (if fl.le (fl.neg tolerance) left then ps else rest)
      else p ∷ same

  -- the residual pass
  unfoldable pub settle_residual : F → F → F → F → List F → List F
  settle_residual lower upper tolerance residual projected =
      if fl.lt zero residual
      then top_up upper tolerance residual projected
      else if fl.lt residual zero
      then take_down lower tolerance residual projected
      else projected

module _ {F : Type 0} ⦃fl : Float F⦄ ⦃np : Numpy F⦄ where
  -- `rounds` steps of the bisection, from the bracket that the last left
  unfoldable pub bisect : ℕ → F → F → F → List F → F × F → F × F
  bisect zero_ℕ target lower upper arr bracket = bracket
  bisect (suc n) target lower upper arr (low, high) =
      let theta = middle low high in
      bisect n target lower upper arr (
        if fl.lt target (np.sum (shifted lower upper theta arr))
        then (theta, high)
        else (low, theta))

  -- the bracket after the 128 rounds
  unfoldable pub bracket : F → F → F → List F → F × F
  bracket target lower upper arr =
      bisect 128 target lower upper arr
        (np.least (map (λ x. fl.sub x upper) arr), np.greatest (map (λ x. fl.sub x lower) arr))

  -- from the bisection on
  unfoldable pub search_theta : F → F → F → F → List F → Result Exception (List F)
  search_theta target lower upper tolerance arr = do
    let (low, high) = bracket target lower upper arr
    let projected = shifted lower upper (middle low high) arr
    let settled = settle_residual lower upper tolerance (fl.sub target (np.sum projected)) projected
    raise_if (fl.lt (max tolerance (fl.scaled 1 12)) (fl.abs (fl.sub target (np.sum settled))))
        weight_contract_violation
    ok settled

  -- the feasibility tests and the two corners, then the bisection
  unfoldable pub project : F → F → F → F → List F → Result Exception (List F)
  project target lower upper tolerance arr =
      let n = length arr in
      let minimum = fl.mul (fl.scaled n 0) lower in
      let maximum = fl.mul (fl.scaled n 0) upper in
      if fl.lt target (fl.sub minimum tolerance) || fl.lt (fl.add maximum tolerance) target
      then err weight_contract_violation
      else if fl.le (fl.abs (fl.sub target minimum)) tolerance
      then ok (replicate n lower)
      else if fl.le (fl.abs (fl.sub target maximum)) tolerance
      then ok (replicate n upper)
      else search_theta target lower upper tolerance arr

  abbrev pub contract_array : ArrayLike F → Result Exception (ℕ × List F)
  contract_array v = elim (as_array v) [ ok a ↦ ok a | err _ ↦ err weight_contract_violation ]

  unfoldable pub project_bounded_sum :
      ArrayLike F → Value F → Value F → Value F → Value F → Result Exception (List F)
  project_bounded_sum raw target_sum lower upper tolerance = do
    raise_if
        (is_bool target_sum
          || is_bool lower
          || is_bool upper
          || is_bool tolerance
          || contains_boolean raw)
        weight_contract_violation
    (dimensions, arr) ← contract_array raw
    target ← contract_number target_sum
    low ← contract_number lower
    high ← contract_number upper
    t ← contract_number tolerance
    raise_if (not (dimensions == 1) || is_empty arr || not (all fl.is_finite arr))
        weight_contract_violation
    raise_if (not (fl.is_finite target) || bad_bounds low high || bad_tolerance t)
        weight_contract_violation
    project target low high t arr
