-- ===== src/Risk/VolTargeting/Overlay.antt =====
-- quantcortex/risk/vol_targeting.py: what a call of `VolTargeting.apply` reads, records and returns.
use quantcortex.Prelude.{◌≡◌, refl, ◌⊎◌, inl, inr, true, false, some, List, map, arith, Bool-cases}
use quantcortex.Prelude.Result.{ok}
use quantcortex.Python.Float.{Float, IsFloat, zero, one, max, min}
use quantcortex.Python.Numpy.{Numpy, ArrayLike, array}
use quantcortex.Python.Value.{Value, null, bool, int, num, str, list, dict, other, float}
use quantcortex.Portfolio.Contract.Laws.{IsExposure}
use quantcortex.Risk.CircuitBreaker.Overlay.{IsBook, book-IsBook}
use quantcortex.Risk.VolTargeting.Scaling.{
  Statistics, VolTargeting, realized_portfolio_vol, realized, base_scale, scale_factor,
  capped_scale, apply_vol,
}
use quantcortex.Risk.VolTargeting.Caps.{apply_vol-Scaled}

module _ {F : Type 0} ⦃fl : Float F⦄ where
  -- The smaller of two numbers is above neither, nor above what the first is not above.
  min_left : (laws : IsFloat fl) (a b : F) → fl.lt a (min a b) ≡ false
  min_left laws a b = elim (Bool-cases (fl.lt b a)) [
    | inr kept ↦ let self = laws.lt_irrefl a in ground arith
    | inl less ↦ elim (Bool-cases (fl.lt a b)) [
      | inr apart ↦ ground arith
      | inl more ↦
          let loop = laws.lt_trans a b a more less in
          let self = laws.lt_irrefl a in absurd (ground arith)
    ]
  ]

  min_right : (laws : IsFloat fl) (a b : F) → fl.lt b (min a b) ≡ false
  min_right laws a b = elim (Bool-cases (fl.lt b a)) [
    | inr kept ↦ ground arith
    | inl less ↦ let self = laws.lt_irrefl b in ground arith
  ]

  min_keeps : (laws : IsFloat fl) (x a b : F) → fl.lt x a ≡ false → fl.lt x (min a b) ≡ false
  min_keeps laws x a b h = elim (Bool-cases (fl.lt b a)) [
    | inr kept ↦ ground arith
    | inl less ↦ elim (Bool-cases (fl.lt x b)) [
      | inr apart ↦ ground arith
      | inl more ↦ let above = laws.lt_trans x b a more less in absurd (ground arith)
    ]
  ]

module _ {F : Type 0} ⦃fl : Float F⦄ ⦃np : Numpy F⦄ where
  -- A scale under the caps: not above the scale of the volatility, nor above what brings the gross
  -- exposure to the leverage, nor above what brings the largest weight to 1, and one of the three.
  pub record IsCapped (v : VolTargeting F) (ws : List F) (base scale : F) : Type 0 where
    pub within_base : fl.lt base scale ≡ false
    pub within_leverage :
        fl.lt zero (np.sum (map fl.abs ws)) ≡ true
        → fl.lt (fl.div v.max_leverage (np.sum (map fl.abs ws))) scale ≡ false
    pub within_box :
        fl.lt zero (np.greatest (map fl.abs ws)) ≡ true
        → fl.lt (fl.div one (np.greatest (map fl.abs ws))) scale ≡ false
    pub attained :
        (scale ≡ base)
        ⊎ ((scale ≡ fl.div v.max_leverage (np.sum (map fl.abs ws)))
            ⊎ (scale ≡ fl.div one (np.greatest (map fl.abs ws))))

  capped_scale-IsCapped :
      (laws : IsFloat fl) (v : VolTargeting F) (ws : List F) (base : F)
      → IsCapped v ws base (capped_scale v ws base)
  unfolding capped_scale
  capped_scale-IsCapped laws v ws base =
      let gross = np.sum (map fl.abs ws) in
      let largest = np.greatest (map fl.abs ws) in
      let a = fl.div v.max_leverage gross in
      let b = fl.div one largest in
      let self = laws.lt_irrefl base in
      let first = min_left laws base a in
      let second = min_right laws base a in
      let third = min_left laws base b in
      let fourth = min_right laws base b in
      let fifth = min_keeps laws base (min base a) b first in
      let sixth = min_keeps laws a (min base a) b second in
      let seventh = min_right laws (min base a) b in
      elim (Bool-cases (fl.lt zero gross)) [
        | inl exposed ↦ elim (Bool-cases (fl.lt zero largest)) [
          | inl bound ↦ rw exposed (
              rw bound (record {
                within_base = fifth;
                within_leverage = λ _. sixth;
                within_box = λ _. seventh;
                attained = ground arith;
              }))
          | inr free ↦ rw exposed (
              rw free (record {
                within_base = first;
                within_leverage = λ _. second;
                within_box = λ h. absurd (ground arith);
                attained = ground arith;
              }))
        ]
        | inr flat ↦ elim (Bool-cases (fl.lt zero largest)) [
          | inl bound ↦ rw flat (
              rw bound (record {
                within_base = third;
                within_leverage = λ h. absurd (ground arith);
                within_box = λ _. fourth;
                attained = ground arith;
              }))
          | inr free ↦ rw flat (
              rw free (record {
                within_base = self;
                within_leverage = λ h. absurd (ground arith);
                within_box = λ h. absurd (ground arith);
                attained = inl refl;
              }))
        ]
      ]

  -- A volatility that is given, or estimated from the returns where none is.
  abbrev pub IsVol : Statistics F → VolTargeting F → List F → Value F → Value F → F → Type 0
  IsVol st v ws returns given vol =
      ((given ≡ null)
        × (realized_portfolio_vol st (array 1 ws) returns v.periods_per_year ≡ ok vol))
      ⊎ (float given ≡ ok vol)

  realized-IsVol :
      (st : Statistics F) (v : VolTargeting F) (ws : List F) (returns given : Value F) (vol : F)
      → realized st v ws returns given ≡ ok vol
      → IsVol st v ws returns given vol
  unfolding realized
  realized-IsVol st v ws null null vol h = cc
  realized-IsVol st v ws (bool _) null vol h = inl (refl, h)
  realized-IsVol st v ws (int _) null vol h = inl (refl, h)
  realized-IsVol st v ws (num _) null vol h = inl (refl, h)
  realized-IsVol st v ws (str _) null vol h = inl (refl, h)
  realized-IsVol st v ws (list _) null vol h = inl (refl, h)
  realized-IsVol st v ws (dict _) null vol h = inl (refl, h)
  realized-IsVol st v ws other null vol h = inl (refl, h)
  realized-IsVol st v ws returns (bool _) vol h = inr (ground arith)
  realized-IsVol st v ws returns (int _) vol h = inr (ground arith)
  realized-IsVol st v ws returns (num _) vol h = inr (ground arith)
  realized-IsVol st v ws returns (str _) vol h = inr (ground arith)
  realized-IsVol st v ws returns (list _) vol h = inr (ground arith)
  realized-IsVol st v ws returns (dict _) vol h = inr (ground arith)
  realized-IsVol st v ws returns other vol h = inr (ground arith)

  -- The scale of a volatility: 1 at the floor or below, and else the target over the volatility,
  -- between the least scale and the leverage.
  abbrev pub IsBase : VolTargeting F → F → F → Type 0
  IsBase v vol base =
      ((fl.le vol v.vol_floor ≡ true) × (base ≡ one))
      ⊎ ((fl.le vol v.vol_floor ≡ false)
          × (base
              ≡ min (max (fl.div v.target_vol (max vol v.vol_floor)) v.min_scale) v.max_leverage))

  base_scale-IsBase :
      (v : VolTargeting F) (vol base : F) → base_scale v vol ≡ ok base → IsBase v vol base
  unfolding base_scale scale_factor
  base_scale-IsBase v vol base h = elim (Bool-cases (fl.le vol v.vol_floor)) [
    | inl low ↦ inl (low, ground arith)
    | inr high ↦ inr (high, ground arith)
  ]

  -- What a call of `apply` that returns did.
  pub record Targets (st : Statistics F) (weights : ArrayLike F) (returns given : Value F)
      (v v' : VolTargeting F) (out : List F) : Type 0 where
    pub incoming : List F
    pub vol : F
    pub base : F
    pub scale : F
    pub read : IsBook weights incoming
    pub is_vol : IsVol st v incoming returns given vol
    pub vol_finite : fl.is_finite vol ≡ true
    pub vol_nonneg : fl.lt vol zero ≡ false
    pub is_base : IsBase v vol base
    pub is_capped : IsCapped v incoming base scale
    pub recorded : v' ≡ record v { last_realized_vol = some vol; last_scale = some scale }
    pub returned : out ≡ map (λ x. fl.mul x scale) incoming
    pub exposed :
        IsExposure (fl.add v.max_leverage (fl.scaled 1 9)) (fl.scaled 1 6) (fl.neg one) one out

  -- A call of `VolTargeting.apply` that returns read a book and a volatility, given or estimated from
  -- the returns, that is finite and not negative. It multiplied every weight by one scale, and
  -- recorded the volatility and the scale and nothing else. The scale is 1 for a volatility at the
  -- floor or below, and else the target over the volatility between the configured bounds, capped by
  -- the leverage over the gross exposure and by 1 over the largest weight. The exposure contract
  -- accepts the result at the leverage and 1e-9.
  pub apply_vol_lem :
      (laws : IsFloat fl) (st : Statistics F) (weights : ArrayLike F) (returns given : Value F)
      (v v' : VolTargeting F) (out : List F)
      → apply_vol st weights returns given v ≡ (ok out, v')
      → Targets st weights returns given v v' out
  apply_vol_lem laws st weights returns given v v' out h =
      let s = apply_vol-Scaled st weights returns given v v' out h in
      let usable = s.usable in
      record {
        incoming = s.incoming;
        vol = s.vol;
        base = s.base;
        scale = capped_scale v s.incoming s.base;
        read = book-IsBook weights s.incoming s.is_book;
        is_vol = realized-IsVol st v s.incoming returns given s.vol s.is_realized;
        vol_finite = ground arith;
        vol_nonneg = ground arith;
        is_base = base_scale-IsBase v s.vol s.base s.is_base;
        is_capped = capped_scale-IsCapped laws v s.incoming s.base;
        recorded = s.recorded;
        returned = s.returned;
        exposed = s.exposed;
      }
