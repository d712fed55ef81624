-- ===== src/Risk/CircuitBreaker/Range.antt =====
-- quantcortex/risk/circuit_breaker.py: the range of `compute_drawdown`.
use quantcortex.Prelude.{◌≡◌, true, false, List, [], ◌∷◌, all, any, arith, Bool-cases, inl, inr}
use quantcortex.Prelude.Result.{ok, Result-cases}
use quantcortex.Python.Float.{Float, IsFloat, zero, one}
use quantcortex.Python.Numpy.{Numpy, ArrayLike, as_array}
use quantcortex.Risk.CircuitBreaker.Drawdown.{running_peak, last, drawdown, compute_drawdown}

module _ {F : Type 0} ⦃fl : Float F⦄ where
  -- The last number of a finite curve is not above its running peak, and the peak is finite.
  last-le-peak :
      (laws : IsFloat fl) (x peak : F) (xs : List F)
      → fl.is_finite peak ≡ true
      → all fl.is_finite xs ≡ true
      → fl.le x peak ≡ true
      → (fl.le (last x xs) (running_peak peak xs) ≡ true)
        × (fl.is_finite (running_peak peak xs) ≡ true)
  unfolding running_peak last
  last-le-peak laws x peak [] f g h = (h, f)
  last-le-peak laws x peak (y ∷ ys) f g h = elim (Bool-cases (fl.lt peak y)) [
    | inl higher ↦
        let known =
          last-le-peak laws y y ys (ground arith) (ground arith) (laws.le_refl y (ground arith)) in
        ground (arith, higher, known)
    | inr lower ↦
        let below = laws.le_of_not_lt peak y f (ground arith) lower in
        let known = last-le-peak laws y peak ys f (ground arith) below in
        ground (arith, lower, known)
  ]

  -- The last number of a curve without negative numbers is not below zero.
  last_nonneg :
      (laws : IsFloat fl) (x : F) (xs : List F)
      → all fl.is_finite (x ∷ xs) ≡ true
      → any (λ v. fl.lt v zero) (x ∷ xs) ≡ false
      → fl.le zero (last x xs) ≡ true
  unfolding last
  last_nonneg laws x [] f h =
      laws.le_of_not_lt x zero (ground arith)
        (laws.finite_between zero (laws.zero-le-literal 0 0) (laws.zero-le-literal 1 0))
        (ground arith)
  last_nonneg laws x (y ∷ ys) f h = last_nonneg laws y ys (ground arith) (ground arith)

  drawdown_range :
      (laws : IsFloat fl) (x : F) (xs : List F) (d : F)
      → drawdown (x ∷ xs) ≡ ok d
      → (fl.le zero d ≡ true) × (fl.le d one ≡ true) × (fl.is_finite d ≡ true)
  unfolding drawdown
  drawdown_range laws x xs d h =
      let zero-le-one = laws.zero-le-literal 1 0 in
      let zero-le-zero = laws.zero-le-literal 0 0 in
      let finite : all fl.is_finite (x ∷ xs) ≡ true = ground arith in
      let clean : any (λ v. fl.lt v zero) (x ∷ xs) ≡ false = ground arith in
      let first : fl.is_finite x ≡ true = ground arith in
      let peak = last-le-peak laws x x xs first (ground arith) (laws.le_refl x first) in
      let low = last_nonneg laws x xs finite clean in
      let ratio = laws.div_unit (last x xs) (running_peak x xs) (ground (arith, peak)) low peak.0 in
      let rest = laws.one_sub (fl.div (last x xs) (running_peak x xs)) ratio.0 ratio.1 in
      let bounds : (fl.le zero d ≡ true) × (fl.le d one ≡ true) =
        ground (arith, rest, zero-le-one, zero-le-zero) in
      (bounds.0, bounds.1, laws.finite_between d bounds.0 bounds.1)

module _ {F : Type 0} ⦃fl : Float F⦄ ⦃np : Numpy F⦄ where
  -- A drawdown that `compute_drawdown` returns is finite and between 0 and 1.
  pub compute_drawdown_bounded :
      (laws : IsFloat fl) (curve : ArrayLike F) (d : F)
      → compute_drawdown curve ≡ ok d
      → (fl.le zero d ≡ true) × (fl.le d one ≡ true) × (fl.is_finite d ≡ true)
  unfolding compute_drawdown drawdown
  compute_drawdown_bounded laws curve d h = elim (Result-cases (as_array curve)) [
    | inr (e, bad) ↦ absurd (ground arith)
    | inl ((n, []), read) ↦ absurd (ground arith)
    | inl ((n, x ∷ xs), read) ↦ drawdown_range laws x xs d (ground arith)
  ]
