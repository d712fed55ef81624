-- ===== src/Portfolio/Contract/Laws.antt =====
-- quantcortex/portfolio/base.py: what the two contracts accept.
use quantcortex.Prelude.{
  ℕ, ◌≡◌, ◌≢◌, refl, sym, ◌∙◌, inl, inr, true, false, List, [], ◌∷◌, map, any, All, all_sound,
  all_complete, arith, subst,
}
use quantcortex.Prelude.Result.{ok, Result-cases}
use quantcortex.Python.Float.{Float, zero}
use quantcortex.Python.Numpy.{Numpy, ArrayLike, array, contains_boolean}
use quantcortex.Python.Text.{TextCase}
use quantcortex.Python.Value.{Value, num}
use quantcortex.Portfolio.Contract.{
  PortfolioMode, long_only, market_neutral, coerce_mode, target_sum, contract_number, is_short,
  is_outside, bad_tolerance, finite_vector, check_allocation, check_exposure,
  enforce_weight_contract, enforce_exposure_contract,
}

module _ {F : Type 0} ⦃fl : Float F⦄ where
  -- a weight that the mode and the box allow, up to the tolerance
  pub record IsWeight (mode : PortfolioMode) (tolerance lower upper w : F) : Type 0 where
    pub long : mode ≡ long_only → fl.lt w (fl.neg tolerance) ≡ false
    pub above : fl.lt w (fl.sub lower tolerance) ≡ false
    pub below : fl.lt (fl.add upper tolerance) w ≡ false

  is_short-long :
      (mode : PortfolioMode) (tolerance w : F)
      → is_short mode tolerance w ≡ false
      → mode ≡ long_only
      → fl.lt w (fl.neg tolerance) ≡ false
  is_short-long long_only tolerance w h same = h
  is_short-long market_neutral tolerance w h same = cc

  long-is_short :
      (mode : PortfolioMode) (tolerance w : F)
      → (mode ≡ long_only → fl.lt w (fl.neg tolerance) ≡ false)
      → is_short mode tolerance w ≡ false
  long-is_short long_only tolerance w h = h refl
  long-is_short market_neutral tolerance w h = refl

  IsWeight-of_tests :
      (mode : PortfolioMode) (tolerance lower upper : F) (ws : List F)
      → any (is_short mode tolerance) ws ≡ false
      → any (is_outside tolerance lower upper) ws ≡ false
      → All (IsWeight mode tolerance lower upper) ws
  IsWeight-of_tests mode tolerance lower upper [] s o = tt
  IsWeight-of_tests mode tolerance lower upper (w ∷ ws) s o = (
    record {
      long = is_short-long mode tolerance w (ground arith);
      above = ground arith;
      below = ground arith;
    },
    IsWeight-of_tests mode tolerance lower upper ws (ground arith) (ground arith),
  )

  tests-of_IsWeight :
      (mode : PortfolioMode) (tolerance lower upper : F) (ws : List F)
      → All (IsWeight mode tolerance lower upper) ws
      → (any (is_short mode tolerance) ws ≡ false)
        × (any (is_outside tolerance lower upper) ws ≡ false)
  tests-of_IsWeight mode tolerance lower upper [] h = ground arith
  tests-of_IsWeight mode tolerance lower upper (w ∷ ws) h =
      let none_short = long-is_short mode tolerance w h.0.long in
      ground (
        arith,
        tests-of_IsWeight mode tolerance lower upper ws h.1,
        none_short,
        h.0.above,
        h.0.below,
      )

  no_shorts : (tolerance : F) (ws : List F) → any (is_short market_neutral tolerance) ws ≡ false
  no_shorts tolerance [] = refl
  no_shorts tolerance (w ∷ ws) = no_shorts tolerance ws

  -- Limits that both contracts accept.
  pub record AreLimits (tolerance lower upper : F) : Type 0 where
    pub tolerance_finite : fl.is_finite tolerance ≡ true
    pub tolerance_nonneg : fl.lt tolerance zero ≡ false
    pub lower_finite : fl.is_finite lower ≡ true
    pub upper_finite : fl.is_finite upper ≡ true
    pub ordered : fl.lt upper lower ≡ false

  -- A vector of finite numbers with at least one element.
  pub record IsVector (ws : List F) : Type 0 where
    pub nonempty : ws ≢ []
    pub finite : All (λ w. fl.is_finite w ≡ true) ws

module _ {F : Type 0} ⦃fl : Float F⦄ ⦃np : Numpy F⦄ where
  -- The allocation contract: each weight allowed, and the sum at the mode's target.
  pub record IsAllocation (mode : PortfolioMode) (tolerance lower upper : F) (ws : List F)
      : Type 0 where
    pub weights : All (IsWeight mode tolerance lower upper) ws
    pub budget : fl.lt tolerance (fl.abs (fl.sub (np.sum ws) (target_sum mode))) ≡ false

  -- The exposure contract: each weight in the box, and the gross exposure within its cap.
  pub record IsExposure (max_gross tolerance lower upper : F) (ws : List F) : Type 0 where
    pub weights : All (IsWeight market_neutral tolerance lower upper) ws
    pub gross : fl.lt (fl.add max_gross tolerance) (np.sum (map fl.abs ws)) ≡ false

  check_allocation_sound :
      (mode : PortfolioMode) (tolerance lower upper : F) (ws out : List F)
      → check_allocation mode tolerance lower upper ws ≡ ok out
      → (out ≡ ws) × IsAllocation mode tolerance lower upper ws
  unfolding check_allocation
  check_allocation_sound mode tolerance lower upper ws out h = (
    ground arith,
    record {
      weights = IsWeight-of_tests mode tolerance lower upper ws (ground arith) (ground arith);
      budget = ground arith;
    },
  )

  check_allocation_complete :
      (mode : PortfolioMode) (tolerance lower upper : F) (ws : List F)
      → IsAllocation mode tolerance lower upper ws
      → check_allocation mode tolerance lower upper ws ≡ ok ws
  unfolding check_allocation
  check_allocation_complete mode tolerance lower upper ws a =
      ground (arith, tests-of_IsWeight mode tolerance lower upper ws a.weights, a.budget)

  check_exposure_sound :
      (gross tolerance lower upper : F) (ws out : List F)
      → check_exposure gross tolerance lower upper ws ≡ ok out
      → (out ≡ ws) × IsExposure gross tolerance lower upper ws
  unfolding check_exposure
  check_exposure_sound gross tolerance lower upper ws out h = (
    ground arith,
    record {
      weights =
          IsWeight-of_tests market_neutral tolerance lower upper ws (no_shorts tolerance ws)
            (ground arith);
      gross = ground arith;
    },
  )

  check_exposure_complete :
      (gross tolerance lower upper : F) (ws : List F)
      → IsExposure gross tolerance lower upper ws
      → check_exposure gross tolerance lower upper ws ≡ ok ws
  unfolding check_exposure
  check_exposure_complete gross tolerance lower upper ws a =
      ground (arith, tests-of_IsWeight market_neutral tolerance lower upper ws a.weights, a.gross)

  finite_vector_sound :
      (weights : ArrayLike F) (ws : List F) → finite_vector weights ≡ ok ws → IsVector ws
  unfolding finite_vector
  finite_vector_sound weights [] h = ground arith
  finite_vector_sound weights (w ∷ ws) h = record {
    nonempty = λ e. cc e;
    finite = all_sound fl.is_finite (w ∷ ws) (ground arith);
  }

  finite_vector_complete : (ws : List F) → IsVector ws → finite_vector (array 1 ws) ≡ ok ws
  unfolding finite_vector contains_boolean
  finite_vector_complete [] v = absurd (v.nonempty refl)
  finite_vector_complete (w ∷ ws) v = ground (arith, all_complete fl.is_finite (w ∷ ws) v.finite)

  -- What `enforce_weight_contract` returns, in a mode that it knows and at limits that are
  -- numbers, is a non-empty vector of finite numbers that meets the allocation contract of the
  -- mode, whatever weights it was given; the limits are usable.
  pub enforce_weight_contract_sound :
      (tc : TextCase) (weights : ArrayLike F) (mode : Value F) (t low high : F) (m : PortfolioMode)
      (out : List F)
      → coerce_mode tc mode ≡ ok m
      → enforce_weight_contract tc weights mode (num t) (num low) (num high) ≡ ok out
      → AreLimits t low high × IsVector out × IsAllocation m t low high out
  unfolding enforce_weight_contract contract_number
  enforce_weight_contract_sound tc weights mode t low high m out is_mode h =
      elim (Result-cases (finite_vector weights)) [
        | inr (e, raised) ↦ absurd (ground arith)
        | inl (arr, read) ↦
            let checked : check_allocation m t low high arr ≡ ok out = ground arith in
            let (same, a) = check_allocation_sound m t low high arr out checked in
            (
              ground arith,
              subst IsVector (sym same) (finite_vector_sound weights arr read),
              subst (IsAllocation m t low high) (sym same) a,
            )
      ]

  -- In a mode that it knows and at usable limits, `enforce_weight_contract` returns a non-empty
  -- vector of finite numbers that meets the allocation contract as it was given.
  pub enforce_weight_contract_complete :
      (tc : TextCase) (ws : List F) (mode : Value F) (t low high : F) (m : PortfolioMode)
      → coerce_mode tc mode ≡ ok m
      → AreLimits t low high
      → IsVector ws
      → IsAllocation m t low high ws
      → enforce_weight_contract tc (array 1 ws) mode (num t) (num low) (num high) ≡ ok ws
  unfolding enforce_weight_contract contract_number
  enforce_weight_contract_complete tc ws mode t low high m is_mode l v a =
      ground (arith, finite_vector_complete ws v, check_allocation_complete m t low high ws a)

  -- What `enforce_exposure_contract` returns, at limits that are numbers, is a non-empty vector
  -- of finite numbers that meets the exposure contract, whatever weights it was given; the
  -- limits are usable, the cap on the gross exposure, which is finite and not negative, included.
  pub enforce_exposure_contract_sound :
      (weights : ArrayLike F) (gross t low high : F) (out : List F)
      → enforce_exposure_contract weights (num gross) (num t) (num low) (num high) ≡ ok out
      → AreLimits t low high
        × ((fl.is_finite gross ≡ true) × (fl.lt gross zero ≡ false))
        × IsVector out
        × IsExposure gross t low high out
  unfolding enforce_exposure_contract contract_number
  enforce_exposure_contract_sound weights gross t low high out h =
      elim (Result-cases (finite_vector weights)) [
        | inr (e, raised) ↦ absurd (ground arith)
        | inl (arr, read) ↦
            let checked : check_exposure gross t low high arr ≡ ok out = ground arith in
            let (same, a) = check_exposure_sound gross t low high arr out checked in
            (
              ground arith,
              (ground arith, ground arith),
              subst IsVector (sym same) (finite_vector_sound weights arr read),
              subst (IsExposure gross t low high) (sym same) a,
            )
      ]

  -- At usable limits, `enforce_exposure_contract` returns a non-empty vector of finite numbers
  -- that meets the exposure contract as it was given.
  pub enforce_exposure_contract_complete :
      (ws : List F) (gross t low high : F)
      → bad_tolerance gross ≡ false
      → AreLimits t low high
      → IsVector ws
      → IsExposure gross t low high ws
      → enforce_exposure_contract (array 1 ws) (num gross) (num t) (num low) (num high) ≡ ok ws
  unfolding enforce_exposure_contract contract_number
  enforce_exposure_contract_complete ws gross t low high g l v a =
      ground (arith, finite_vector_complete ws v, check_exposure_complete gross t low high ws a)

  finite_vector_same : (n : ℕ) (ws arr : List F) → finite_vector (array n ws) ≡ ok arr → arr ≡ ws
  unfolding finite_vector contains_boolean
  finite_vector_same n ws arr h = ground arith

  -- The exposure contract returns an array as it was given.
  pub enforce_exposure_contract_same :
      (n : ℕ) (ws : List F) (gross t low high : F) (out : List F)
      → enforce_exposure_contract (array n ws) (num gross) (num t) (num low) (num high) ≡ ok out
      → out ≡ ws
  unfolding enforce_exposure_contract contract_number
  enforce_exposure_contract_same n ws gross t low high out h =
      elim (Result-cases (finite_vector (array n ws))) [
        | inr (e, raised) ↦ absurd (ground arith)
        | inl (arr, read) ↦
            let checked : check_exposure gross t low high arr ≡ ok out = ground arith in
            (check_exposure_sound gross t low high arr out checked).0
            ∙ finite_vector_same n ws arr read
      ]
