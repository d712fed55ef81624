-- ===== src/Risk/VolTargeting/Scaling.antt =====
-- quantcortex/risk/vol_targeting.py: the overlay `VolTargeting`, its scale factor and `apply`. The
-- matrix product, the standard deviation and the square root are numpy's.
use quantcortex.Prelude.{
  ℕ, Bool, not, ◌||◌, Option, none, some, List, [], ◌∷◌, map, all, is_empty, ◌==◌, length,
  if◌then◌else◌, leb,
}
use quantcortex.Prelude.Result.{Result, ok, err, ◌>>=◌, ◌>>◌, raise_if}
use quantcortex.Python.Exception.{Exception, value_error, type_error, Exec}
use quantcortex.Python.Float.{Float, zero, one, max, min, is_positive, divide}
use quantcortex.Python.Numpy.{Numpy, ArrayLike, array, as_array}
use quantcortex.Python.Value.{int, of_int, Value, null, num, is_bool, float}
use quantcortex.Portfolio.Contract.{enforce_exposure_contract}
use quantcortex.Portfolio.Normalize.{clip}
use quantcortex.Risk.CircuitBreaker.Latch.{book}

-- What `realized_portfolio_vol` calls of numpy: the shape and the elements of the returns, `r @ w`,
-- `np.std(port, ddof=1)` and `np.sqrt(n)`.
pub record Statistics (F : Type 0) : Type 0 where
  pub returns : Value F → Result Exception (List ℕ × List F)
  pub product : List ℕ → List F → List F → List F
  pub deviation : List F → F
  pub sqrt : ℕ → F

pub record VolTargeting (F : Type 0) : Type 0 where
  pub target_vol : F
  pub max_leverage : F
  pub min_scale : F
  pub periods_per_year : ℕ
  pub vol_floor : F
  pub last_scale : Option F
  pub last_realized_vol : Option F

module _ {F : Type 0} ⦃fl : Float F⦄ where
  positive : F → Result Exception F
  positive x = if is_positive x then ok x else err value_error

  -- `np.isfinite(value)` and the comparison raise `TypeError` on what is no number.
  abbrev pub positive_number : Value F → Result Exception F
  unfolding positive
  positive_number (int n) = positive (of_int n)
  positive_number (num x) = positive x
  positive_number _ = err type_error

  -- `VolTargeting.__init__`; `periods_per_year` is an `int`, or `none` for any other value
  unfoldable pub make_vol_targeting :
      Value F → Value F → Value F → Option ℕ → Value F → Result Exception (VolTargeting F)
  make_vol_targeting target leverage minimum periods floor = do
    raise_if (is_bool target || is_bool leverage || is_bool minimum || is_bool floor) type_error
    t ← positive_number target
    most ← positive_number leverage
    least ← float minimum
    n ← elim periods [ none ↦ err value_error | some k ↦ if k == 0 then err value_error else ok k ]
    f ← float floor
    raise_if (not (fl.is_finite least) || fl.lt least zero || fl.lt most least) value_error
    raise_if (not (is_positive f)) value_error
    ok (record {
      target_vol = t;
      max_leverage = most;
      min_scale = least;
      periods_per_year = n;
      vol_floor = f;
      last_scale = none;
      last_realized_vol = none;
    })

  -- `not np.isfinite(rv) or rv < 0.0`
  abbrev pub bad_vol : F → Bool
  bad_vol rv = not (fl.is_finite rv) || fl.lt rv zero

  -- `VolTargeting.scale_factor`
  unfoldable pub scale_factor : VolTargeting F → Value F → Result Exception F
  scale_factor v realized = do
    rv ← float realized
    raise_if (bad_vol rv) value_error
    raw ← divide v.target_vol (max rv v.vol_floor)
    ok (clip v.min_scale v.max_leverage raw)

module _ {F : Type 0} ⦃fl : Float F⦄ ⦃np : Numpy F⦄ where
  -- the scale, capped by the leverage at the gross exposure and by the box at the largest weight
  unfoldable pub capped_scale : VolTargeting F → List F → F → F
  capped_scale v w scale =
      let gross = np.sum (map fl.abs w) in
      let largest = np.greatest (map fl.abs w) in
      let levered = if fl.lt zero gross then min scale (fl.div v.max_leverage gross) else scale in
      if fl.lt zero largest then min levered (fl.div one largest) else levered

  -- the scale before the caps: one where there is no measurable risk
  unfoldable pub base_scale : VolTargeting F → F → Result Exception F
  base_scale v realized =
      if fl.le realized v.vol_floor then ok one else scale_factor v (num realized)

  -- the portfolio's returns: those of the assets times the weights, or the series itself
  unfoldable pub portfolio_returns :
      Statistics F → List F → List ℕ → List F → Result Exception (List F)
  portfolio_returns st w (rows ∷ (columns ∷ [])) r =
      if columns == length w then ok (st.product (rows ∷ (columns ∷ [])) r w) else err value_error
  portfolio_returns st w (n ∷ []) r = ok r
  portfolio_returns st w _ r = err value_error

  -- `realized_portfolio_vol`, at a positive `periods_per_year`
  unfoldable pub realized_portfolio_vol :
      Statistics F → ArrayLike F → Value F → ℕ → Result Exception F
  realized_portfolio_vol st weights returns periods = do
    (dimensions, w) ← as_array weights
    (shape, r) ← st.returns returns
    raise_if (not (dimensions == 1) || is_empty w || not (all fl.is_finite w)) value_error
    raise_if (periods == 0) value_error
    raise_if (not (all fl.is_finite r)) value_error
    port ← portfolio_returns st w shape r
    raise_if (leb (length port) 1) value_error
    ok (fl.mul (st.deviation port) (st.sqrt periods))

  -- the volatility: given, or estimated from the returns
  unfoldable pub realized :
      Statistics F → VolTargeting F → List F → Value F → Value F → Result Exception F
  realized st v w null null = err value_error
  realized st v w returns null = realized_portfolio_vol st (array 1 w) returns v.periods_per_year
  realized st v w returns given = float given

  abbrev pub record_scale : F → F → VolTargeting F → VolTargeting F
  record_scale vol scale v = record v { last_realized_vol = some vol; last_scale = some scale }

  -- `enforce_exposure_contract(scaled, max_gross=self.max_leverage + 1e-9)`, at its defaults
  abbrev pub enforced_scaled : VolTargeting F → List F → Result Exception (List F)
  enforced_scaled v out =
      enforce_exposure_contract (array 1 out) (num (fl.add v.max_leverage (fl.scaled 1 9)))
        (num (fl.scaled 1 6)) (num (fl.neg one)) (num one)

  -- `apply` up to the caps: the book, the volatility and the scale
  unfoldable pub scaling :
      Statistics F
      → ArrayLike F
      → Value F
      → Value F
      → VolTargeting F
      → Result Exception (List F × (F × F))
  scaling st weights returns given v = do
    w ← book weights
    vol ← realized st v w returns given
    raise_if (bad_vol vol) value_error
    scale ← base_scale v vol
    ok (w, (vol, capped_scale v w scale))

  -- `VolTargeting.apply`; what it records stays where the contract then raises
  unfoldable pub apply_vol :
      Statistics F → ArrayLike F → Value F → Value F → Exec (VolTargeting F) (List F)
  apply_vol st weights returns given v = elim (scaling st weights returns given v) [
    | err e ↦ (err e, v)
    | ok (w, (vol, scale)) ↦
        (enforced_scaled v (map (λ x. fl.mul x scale) w), record_scale vol scale v)
  ]
