-- ===== src/Execution/PreTradeRisk/Thresholds.antt =====
-- quantcortex/execution/pre_trade_risk.py: numbers above zero, and sums within a cap.
use quantcortex.Prelude.{◌≡◌, refl, false, Option, none, some, arith, Option-cases, inl, inr}
use quantcortex.Python.Float.{Float, zero}
use quantcortex.Python.Value.{Value}
use quantcortex.Execution.PositionManager.Mapping.{to_float}
use quantcortex.Execution.PreTradeRisk.Orders.{positive, exceeds}

module _ {F : Type 0} ⦃fl : Float F⦄ where
  -- A value that is a finite number above zero.
  abbrev pub IsAbove : Value F → F → Type 0
  IsAbove v x = (to_float v ≡ some x) × (fl.le x zero ≡ false)

  -- A sum within an optional cap, up to the tolerance.
  abbrev pub IsWithin : Option F → F → F → Type 0
  IsWithin cap tolerance x =
      (limit : F) → cap ≡ some limit → fl.lt (fl.add limit tolerance) x ≡ false

  pub positive_sound : (v : Value F) (x : F) → positive v ≡ some x → IsAbove v x
  positive_sound v x h = elim (Option-cases (to_float v)) [
    | inl missing ↦ absurd (ground arith)
    | inr (y, read) ↦ ground arith
  ]

  pub positive_complete : (v : Value F) (x : F) → IsAbove v x → positive v ≡ some x
  positive_complete v x (read, above) = ground arith

  pub exceeds_sound :
      (cap : Option F) (tolerance x : F)
      → exceeds cap tolerance x ≡ false
      → IsWithin cap tolerance x
  exceeds_sound none tolerance x h limit same = cc
  exceeds_sound (some l) tolerance x h limit same = ground arith

  pub exceeds_complete :
      (cap : Option F) (tolerance x : F)
      → IsWithin cap tolerance x
      → exceeds cap tolerance x ≡ false
  exceeds_complete none tolerance x h = refl
  exceeds_complete (some l) tolerance x h = h l refl
