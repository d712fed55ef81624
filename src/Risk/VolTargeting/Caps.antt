-- ===== src/Risk/VolTargeting/Caps.antt =====
-- quantcortex/risk/vol_targeting.py: the steps of `VolTargeting.apply`.
use quantcortex.Prelude.{◌≡◌, false, List, map, arith, inl, inr}
use quantcortex.Prelude.Result.{ok, Result-cases}
use quantcortex.Python.Float.{Float, one}
use quantcortex.Python.Numpy.{Numpy, ArrayLike, array}
use quantcortex.Python.Value.{Value}
use quantcortex.Portfolio.Contract.Laws.{
  IsExposure, enforce_exposure_contract_sound, enforce_exposure_contract_same,
}
use quantcortex.Risk.CircuitBreaker.Latch.{book}
use quantcortex.Risk.VolTargeting.Scaling.{
  Statistics, VolTargeting, bad_vol, base_scale, capped_scale, realized, record_scale,
  enforced_scaled, scaling, apply_vol,
}

module _ {F : Type 0} ⦃fl : Float F⦄ ⦃np : Numpy F⦄ where
  -- the steps of a call of `apply` that returns
  pub record Scaled (st : Statistics F) (weights : ArrayLike F) (returns given : Value F)
      (v v' : VolTargeting F) (out : List F) : Type 0 where
    pub incoming : List F
    pub vol : F
    pub base : F
    pub is_book : book weights ≡ ok incoming
    pub is_realized : realized st v incoming returns given ≡ ok vol
    pub usable : bad_vol vol ≡ false
    pub is_base : base_scale v vol ≡ ok base
    pub recorded : v' ≡ record_scale vol (capped_scale v incoming base) v
    pub returned : out ≡ map (λ x. fl.mul x (capped_scale v incoming base)) incoming
    pub exposed :
        IsExposure (fl.add v.max_leverage (fl.scaled 1 9)) (fl.scaled 1 6) (fl.neg one) one out

  -- what `apply` did, in the terms of its own steps
  pub apply_vol-Scaled :
      (st : Statistics F) (weights : ArrayLike F) (returns given : Value F) (v v' : VolTargeting F)
      (out : List F)
      → apply_vol st weights returns given v ≡ (ok out, v')
      → Scaled st weights returns given v v' out
  unfolding apply_vol scaling
  apply_vol-Scaled st weights returns given v v' out h = elim (Result-cases (book weights)) [
    | inr (e, bad) ↦ absurd (ground arith)
    | inl (w, is_book) ↦ elim (Result-cases (realized st v w returns given)) [
      | inr (e, bad) ↦ absurd (ground arith)
      | inl (vol, is_realized) ↦ elim (Result-cases (base_scale v vol)) [
        | inr (e, bad) ↦ absurd (ground arith)
        | inl (base, is_base) ↦
            let scale = capped_scale v w base in
            let scaled = map (λ x. fl.mul x scale) w in
            let done : enforced_scaled v scaled ≡ ok out = ground arith in
            let gross = fl.add v.max_leverage (fl.scaled 1 9) in
            record {
              incoming = w;
              vol = vol;
              base = base;
              is_book = is_book;
              is_realized = is_realized;
              usable = ground arith;
              is_base = is_base;
              recorded = ground arith;
              returned =
                  enforce_exposure_contract_same 1 scaled gross (fl.scaled 1 6) (fl.neg one) one out
                    done;
              exposed =
                  (enforce_exposure_contract_sound (array 1 scaled) gross (fl.scaled 1 6)
                    (fl.neg one) one out done).3;
            }
      ]
    ]
  ]
