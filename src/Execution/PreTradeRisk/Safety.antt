-- ===== src/Execution/PreTradeRisk/Safety.antt =====
-- quantcortex/execution/pre_trade_risk.py: what `check_weights` and `assert_safe` let through.
use quantcortex.Prelude.{
  ℕ, ◌≡◌, refl, sym, ◌↔◌, true, false, ◌&&◌, List, [], ◌∷◌, ◌++◌, map, All, any-eq-false, any_none,
  all_sound, all_complete, arith, subst,
}
use quantcortex.Prelude.Result.{ok}
use quantcortex.Python.Float.{Float, one, max}
use quantcortex.Python.Numpy.{Numpy, ArrayLike, as_array}
use quantcortex.Python.Text.{TextCase}
use quantcortex.Python.Value.{Value}
use quantcortex.Portfolio.Contract.{PortfolioMode, long_only, market_neutral, coerce_mode}
use quantcortex.Portfolio.Contract.Laws.{IsVector}
use quantcortex.Execution.PreTradeRisk.Limits.{PreTradeRiskCheck, no_violations}
use quantcortex.Execution.PreTradeRisk.Weights.{
  mode_violations, weight_violations, check_array, check_weights,
}

pub no_violations-append {ℓ} :
    {A : Type ℓ} (xs ys : List A)
    → no_violations (xs ++ ys) ≡ (no_violations xs && no_violations ys)
no_violations-append [] ys = refl
no_violations-append (x ∷ xs) ys = refl

module _ {F : Type 0} ⦃fl : Float F⦄ where
  -- no weight is beyond a bound in magnitude
  abbrev pub AreWithin : F → List F → Type 0
  AreWithin bound ws = All (λ w. fl.lt bound (fl.abs w) ≡ false) ws

module _ {F : Type 0} ⦃fl : Float F⦄ ⦃np : Numpy F⦄ where
  -- what the mode asks of a book
  abbrev pub FitsMode : PreTradeRiskCheck F → PortfolioMode → List F → Type 0
  FitsMode c long_only ws =
      All (λ w. fl.lt w (fl.neg c.tolerance) ≡ false) ws
      × (fl.lt (fl.add c.max_gross c.tolerance) (np.sum ws) ≡ false)
  FitsMode c market_neutral ws =
      fl.lt (max c.tolerance (fl.scaled 1 6)) (fl.abs (np.sum ws)) ≡ false

  -- A book within the limits: the box, the mode, the cap on each position and that on the gross.
  pub record IsWithinLimits (c : PreTradeRiskCheck F) (mode : PortfolioMode) (ws : List F)
      : Type 0 where
    pub boxed : AreWithin (fl.add one c.tolerance) ws
    pub moded : FitsMode c mode ws
    pub capped : AreWithin (fl.add c.max_position_weight c.tolerance) ws
    pub gross : fl.lt (fl.add c.max_gross c.tolerance) (np.sum (map fl.abs ws)) ≡ false

  module _ (c : PreTradeRiskCheck F) where
    mode_sound :
        (mode : PortfolioMode) (ws : List F)
        → no_violations (mode_violations c mode ws) ≡ true
        → FitsMode c mode ws
    unfolding mode_violations
    mode_sound long_only ws h =
        (any-eq-false (λ w. fl.lt w (fl.neg c.tolerance)) ws (ground arith), ground arith)
    mode_sound market_neutral ws h = ground arith

    mode_complete :
        (mode : PortfolioMode) (ws : List F)
        → FitsMode c mode ws
        → no_violations (mode_violations c mode ws) ≡ true
    unfolding mode_violations
    mode_complete long_only ws h =
        let none_short = any_none (λ w. fl.lt w (fl.neg c.tolerance)) ws h.0 in
        ground (arith, none_short)
    mode_complete market_neutral ws h = ground arith

    weight_sound :
        (mode : PortfolioMode) (ws : List F)
        → no_violations (weight_violations c mode ws) ≡ true
        → IsWithinLimits c mode ws
    unfolding weight_violations
    weight_sound mode ws h = record {
      boxed =
          any-eq-false (λ w. fl.lt (fl.add one c.tolerance) (fl.abs w)) ws
            (grind (arith, no_violations-append));
      moded = mode_sound mode ws (grind (arith, no_violations-append));
      capped =
          any-eq-false (λ w. fl.lt (fl.add c.max_position_weight c.tolerance) (fl.abs w)) ws
            (grind (arith, no_violations-append));
      gross = grind (arith, no_violations-append);
    }

    weight_complete :
        (mode : PortfolioMode) (ws : List F)
        → IsWithinLimits c mode ws
        → no_violations (weight_violations c mode ws) ≡ true
    unfolding weight_violations
    weight_complete mode ws l =
        let box = any_none (λ w. fl.lt (fl.add one c.tolerance) (fl.abs w)) ws l.boxed in
        let capped =
          any_none (λ w. fl.lt (fl.add c.max_position_weight c.tolerance) (fl.abs w)) ws l.capped in
        let gross = l.gross in
        let fits = mode_complete mode ws l.moded in
        grind (arith, no_violations-append, box, capped, gross, fits)

    array_iff :
        (mode : PortfolioMode) (dimensions : ℕ) (ws : List F)
        → ((check_array c mode dimensions ws).0 ≡ true)
          ↔ ((dimensions ≡ 1) × IsVector ws × IsWithinLimits c mode ws)
    unfolding check_array
    array_iff mode n [] = (λ h. ground arith, λ p. absurd (p.1.nonempty refl))
    array_iff mode n (w ∷ ws) = (
      λ h.
          let passed : no_violations (weight_violations c mode (w ∷ ws)) ≡ true = ground arith in
          (
            ground arith,
            record {
              nonempty = λ e. cc e;
              finite = all_sound fl.is_finite (w ∷ ws) (ground arith);
            },
            weight_sound mode (w ∷ ws) passed,
          ),
      λ p.
          let finite = all_complete fl.is_finite (w ∷ ws) p.1.finite in
          let passed = weight_complete mode (w ∷ ws) p.2 in ground (arith, finite, passed, p.0),
    )

    -- `check_weights` passes a vector, in a mode it knows, exactly when it is a non-empty vector of
    -- finite numbers within every limit of the check.
    pub check_weights_iff :
        (tc : TextCase) (weights : ArrayLike F) (mode : Value F) (m : PortfolioMode)
        (dimensions : ℕ) (ws : List F)
        → coerce_mode tc mode ≡ ok m
        → as_array weights ≡ ok (dimensions, ws)
        → ((check_weights c tc weights mode).0 ≡ true)
          ↔ ((dimensions ≡ 1) × IsVector ws × IsWithinLimits c m ws)
    unfolding check_weights
    check_weights_iff tc weights mode m n ws is_mode read =
        let same : check_weights c tc weights mode ≡ check_array c m n ws = ground arith in
        subst (λ v. (v.0 ≡ true) ↔ ((n ≡ 1) × IsVector ws × IsWithinLimits c m ws)) (sym same)
          (array_iff m n ws)
