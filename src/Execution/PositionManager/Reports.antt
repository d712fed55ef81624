-- ===== src/Execution/PositionManager/Reports.antt =====
-- quantcortex/execution/position_manager.py: cumulative reports of an order are applied once, and
-- a raise changes nothing.
use quantcortex.Prelude.{◌≡◌, refl, sym, ap, ◌∙◌, false, some, arith, subst, Bool-cases, inl, inr}
use quantcortex.Prelude.Result.{Result, ok, err, Result-cases}
use quantcortex.Python.Dict.{lookup, lookup-insert_self}
use quantcortex.Python.Exception.{Exception, value_error}
use quantcortex.Python.Float.{Float, IsFloat}
use quantcortex.Python.Value.{Value, str}
use quantcortex.Execution.Brokers.Base.{Position}
use quantcortex.Execution.OrderManager.Order.{Order, validate}
use quantcortex.Execution.OrderManager.Validity.{validate_sound}
use quantcortex.Execution.PositionManager.Book.{
  PositionManager, AppliedFill, flat_tolerance, get_position, update_fill, or_none,
}
use quantcortex.Execution.PositionManager.Fills.{
  Applies, refused, applied, recorded, apply_fill-Applies,
}

module _ {F : Type 0} ⦃fl : Float F⦄ where
  pub get_position_keeps : (v : Value F) (m : PositionManager F) → (get_position v m).1 ≡ m
  unfolding get_position
  get_position_keeps v m = ground arith

  -- what has been applied of an order
  abbrev pub prior : Order F → PositionManager F → AppliedFill F
  prior o m = or_none (lookup o.order_id m.applied_fills)

  abbrev pub growth : Order F → PositionManager F → F
  growth o m = fl.sub o.filled_quantity (prior o m).quantity

  -- `update_fill`: a raise that changed nothing, a report with nothing new, or one that is applied.
  pub data Reports (o : Order F) (m : PositionManager F)
      : Result Exception (Position F) × PositionManager F → Type 0 where
    failed : (e : Exception) → Reports o m (err e, m)
    repeated : validate o ≡ ok tt → Reports o m (get_position (str o.symbol) m)
    grown :
        {r : Result Exception (Position F) × PositionManager F}
        → validate o ≡ ok tt
        → fl.le (growth o m) flat_tolerance ≡ false
        → Applies o (growth o m) (prior o m) m r
        → Reports o m r

  pub update_fill-Reports : (o : Order F) (m : PositionManager F) → Reports o m (update_fill o m)
  unfolding update_fill
  update_fill-Reports o m = elim (Result-cases (validate o)) [
    | inr (e, raised) ↦ subst (Reports o m) (ground arith) (failed e)
    | inl (_, valid) ↦
        elim (Bool-cases (fl.lt o.filled_quantity (fl.sub (prior o m).quantity (fl.scaled 1 9)))) [
          | inl fell ↦ subst (Reports o m) (ground arith) (failed value_error)
          | inr kept ↦ elim (Bool-cases (fl.le (growth o m) flat_tolerance)) [
            | inl old ↦ subst (Reports o m) (ground arith) (repeated valid)
            | inr fresh ↦
                subst (Reports o m) (ground arith)
                  (grown valid fresh (apply_fill-Applies o (growth o m) (prior o m) m))
          ]
        ]
  ]

  -- A report whose quantity is on record is read and not applied.
  on_record :
      IsFloat fl
      → (o : Order F) (m : PositionManager F) (a : AppliedFill F) → validate o ≡ ok tt
      → lookup o.order_id m.applied_fills ≡ some a
      → a.quantity ≡ o.filled_quantity
      → update_fill o m ≡ get_position (str o.symbol) m
  unfolding update_fill
  on_record laws o m a valid found same =
      let finite = (validate_sound o valid).fill_finite in
      ground (
        arith,
        laws.sub_self o.filled_quantity finite,
        laws.sub_literal o.filled_quantity 1 9 finite,
        laws.zero-le-literal 1 12,
      )

  Applies-on_record :
      {o : Order F} {increment : F} {a : AppliedFill F} {m : PositionManager F} {p : Position F}
      {r : Result Exception (Position F) × PositionManager F}
      → IsFloat fl
      → validate o ≡ ok tt
      → Applies o increment a m r
      → r.0 ≡ ok p
      → update_fill o r.1 ≡ get_position (str o.symbol) r.1
  Applies-on_record laws valid (refused e) h = cc
  Applies-on_record {o} laws valid (applied price unit p m' is_price is_unit done) h =
      let notional = fl.mul o.filled_quantity price in
      on_record laws o (recorded o notional m')
        (record { quantity = o.filled_quantity; notional = notional }) valid
        (lookup-insert_self o.order_id _ m'.applied_fills) refl

  Reports-again :
      {o : Order F} {m : PositionManager F} {p : Position F}
      {r : Result Exception (Position F) × PositionManager F}
      → IsFloat fl
      → Reports o m r
      → r ≡ update_fill o m
      → r.0 ≡ ok p
      → update_fill o r.1 ≡ get_position (str o.symbol) r.1
  Reports-again laws (failed e) same h = cc
  Reports-again {o} {m} laws (repeated valid) same h = rw get_position_keeps (sym same)
  Reports-again laws (grown valid fresh a) same h = Applies-on_record laws valid a h

  -- The same cumulative report, applied a second time, changes nothing: it returns the position
  -- that the first left.
  pub update_fill_idem :
      IsFloat fl
      → (o : Order F) (m : PositionManager F) (p : Position F) → (update_fill o m).0 ≡ ok p
      → let m' = (update_fill o m).1 in
        (update_fill o m' ≡ get_position (str o.symbol) m') × ((update_fill o m').1 ≡ m')
  update_fill_idem laws o m p h =
      let again = Reports-again laws (update_fill-Reports o m) refl h in
      (
        again,
        ap (λ (r : Result Exception (Position F) × PositionManager F). r.1) again
            ∙ get_position_keeps (str o.symbol) (update_fill o m).1,
      )

  Applies-atomic :
      {o : Order F} {increment : F} {a : AppliedFill F} {m : PositionManager F} {e : Exception}
      {r : Result Exception (Position F) × PositionManager F}
      → Applies o increment a m r
      → r.0 ≡ err e
      → r.1 ≡ m
  Applies-atomic (refused x) h = refl
  Applies-atomic (applied price unit p m' is_price is_unit done) h = cc

  Reports-atomic :
      {o : Order F} {m : PositionManager F} {e : Exception}
      {r : Result Exception (Position F) × PositionManager F}
      → Reports o m r
      → r.0 ≡ err e
      → r.1 ≡ m
  Reports-atomic (failed x) h = refl
  Reports-atomic {o} {m} (repeated valid) h = get_position_keeps (str o.symbol) m
  Reports-atomic (grown valid fresh a) h = Applies-atomic a h

  -- A report that raises has changed neither the positions nor the record of applied fills.
  pub update_fill_atomic :
      (o : Order F) (m : PositionManager F) (e : Exception)
      → (update_fill o m).0 ≡ err e
      → (update_fill o m).1 ≡ m
  update_fill_atomic o m e h = Reports-atomic (update_fill-Reports o m) h
