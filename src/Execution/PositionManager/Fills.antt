-- ===== src/Execution/PositionManager/Fills.antt =====
-- quantcortex/execution/position_manager.py: updates are all or nothing, and a cumulative report
-- is applied once.
use quantcortex.Prelude.{
  String, ◌≡◌, ◌≢◌, refl, ap, inl, inr, Bool, true, false, not, some, arith, ◌||◌, subst,
  Bool-cases, Option-cases,
}
use quantcortex.Prelude.Result.{Result, ok, err, Result-cases}
use quantcortex.Python.Dict.{insert}
use quantcortex.Python.Exception.{Exception, value_error}
use quantcortex.Python.Float.{Float, zero, is_positive, divide}
use quantcortex.Python.Value.{Value, str, num}
use quantcortex.Execution.Brokers.Base.{Position}
use quantcortex.Execution.OrderManager.Order.{Order}
use quantcortex.Execution.PositionManager.Mapping.{to_float, symbol_key}
use quantcortex.Execution.PositionManager.Book.{
  PositionManager, AppliedFill, position_of, basis, moved_to, settle, update, apply_fill,
  fill_price, signed,
}

module _ {F : Type 0} ⦃fl : Float F⦄ where
  -- `update`: a raise that changed nothing, or the position settled.
  pub data Updates (symbol delta price : Value F) (m : PositionManager F)
      : Result Exception (Position F) × PositionManager F → Type 0 where
    refused : (e : Exception) → Updates symbol delta price m (err e, m)
    updated :
        (s : String) (d p a : F)
        → symbol_key symbol ≡ ok s
        → to_float delta ≡ some d
        → to_float price ≡ some p
        → is_positive p ≡ true
        → basis (position_of s m) d p ≡ ok a
        → Updates symbol delta price m (settle s (moved_to (position_of s m) d p a) m)

  module _ (symbol delta price : Value F) (m : PositionManager F) where
    update_at :
        (s : String) (d p : F)
        → symbol_key symbol ≡ ok s
        → to_float delta ≡ some d
        → to_float price ≡ some p
        → Updates symbol delta price m (update symbol delta price m)
    unfolding update
    update_at s d p key is_d is_p = elim (Bool-cases (is_positive p)) [
      | inr bad ↦ subst (Updates symbol delta price m) (ground arith) (refused value_error)
      | inl positive ↦ elim (Result-cases (basis (position_of s m) d p)) [
        | inr (e, raised) ↦ subst (Updates symbol delta price m) (ground arith) (refused e)
        | inl (a, based) ↦
            subst (Updates symbol delta price m) (ground arith)
              (updated s d p a key is_d is_p positive based)
      ]
    ]

    pub update-Updates : Updates symbol delta price m (update symbol delta price m)
    unfolding update
    update-Updates = elim (Result-cases (symbol_key symbol)) [
      | inr (e, raised) ↦ subst (Updates symbol delta price m) (ground arith) (refused e)
      | inl (s, key) ↦ elim (Option-cases (to_float delta)) [
        | inl missing ↦ subst (Updates symbol delta price m) (ground arith) (refused value_error)
        | inr (d, is_d) ↦ elim (Option-cases (to_float price)) [
          | inl missing ↦ subst (Updates symbol delta price m) (ground arith) (refused value_error)
          | inr (p, is_p) ↦ update_at s d p key is_d is_p
        ]
      ]
    ]

  settle_returns :
      (s : String) (p : Position F) (m : PositionManager F) (e : Exception)
      → (settle s p m).0 ≢ err e
  unfolding settle
  settle_returns s p m e h = ground arith

  Updates-atomic :
      {symbol delta price : Value F} {m : PositionManager F} {e : Exception}
      {r : Result Exception (Position F) × PositionManager F}
      → Updates symbol delta price m r
      → r.0 ≡ err e
      → r.1 ≡ m
  Updates-atomic (refused x) h = refl
  Updates-atomic {m = m} {e} (updated s d p a key is_d is_p positive based) h =
      absurd (settle_returns s (moved_to (position_of s m) d p a) m e h)

  -- An update that raises has changed nothing.
  pub update_atomic :
      (symbol delta price : Value F) (m : PositionManager F) (e : Exception)
      → (update symbol delta price m).0 ≡ err e
      → (update symbol delta price m).1 ≡ m
  update_atomic symbol delta price m e h = Updates-atomic (update-Updates symbol delta price m) h

  -- `m` with the cumulative quantity and notional of `o` recorded
  abbrev pub recorded : Order F → F → PositionManager F → PositionManager F
  recorded o notional m = record m {
    applied_fills =
        insert o.order_id (record { quantity = o.filled_quantity; notional = notional })
          m.applied_fills;
  }

  -- `update_fill` on a new quantity: a raise that changed nothing, or an update that was recorded.
  pub data Applies (o : Order F) (increment : F) (prior : AppliedFill F) (m : PositionManager F)
      : Result Exception (Position F) × PositionManager F → Type 0 where
    refused : (e : Exception) → Applies o increment prior m (err e, m)
    applied :
        (price unit : F) (p : Position F) (m' : PositionManager F)
        → fill_price o ≡ some price
        → divide (fl.sub (fl.mul o.filled_quantity price) prior.notional) increment ≡ ok unit
        → update (str o.symbol) (num (signed o.side increment)) (num unit) m ≡ (ok p, m')
        → Applies o increment prior m (ok p, recorded o (fl.mul o.filled_quantity price) m')

  module _ (o : Order F) (increment : F) (prior : AppliedFill F) (m : PositionManager F) where
    apply_update :
        (price unit : F)
        → fill_price o ≡ some price
        → (fl.le (fl.sub (fl.mul o.filled_quantity price) prior.notional) zero
            || not (fl.is_finite (fl.sub (fl.mul o.filled_quantity price) prior.notional)))
          ≡ false
        → divide (fl.sub (fl.mul o.filled_quantity price) prior.notional) increment ≡ ok unit
        → (r : Result Exception (Position F)) (m' : PositionManager F)
        → update (str o.symbol) (num (signed o.side increment)) (num unit) m ≡ (r, m')
        → Applies o increment prior m (apply_fill o increment prior m)
    unfolding apply_fill
    apply_update price unit is_price grows is_unit (ok p) m' done =
        subst (Applies o increment prior m) (ground arith)
          (applied price unit p m' is_price is_unit done)
    apply_update price unit is_price grows is_unit (err e) m' done =
        let call = update (str o.symbol) (num (signed o.side increment)) (num unit) m in
        let same =
          update_atomic (str o.symbol) (num (signed o.side increment)) (num unit) m e
            (ap (λ (r : Result Exception (Position F) × PositionManager F). r.0) done) in
        let kept : m' ≡ m = ground arith in
        subst (Applies o increment prior m) (ground arith) (refused e)

    pub apply_fill-Applies : Applies o increment prior m (apply_fill o increment prior m)
    unfolding apply_fill
    apply_fill-Applies = elim (Option-cases (fill_price o)) [
      | inl missing ↦ subst (Applies o increment prior m) (ground arith) (refused value_error)
      | inr (price, is_price) ↦ elim (Bool-cases (shrinks price)) [
        | inl bad ↦ subst (Applies o increment prior m) (ground arith) (refused value_error)
        | inr grows ↦ elim (Result-cases (divide (growth price) increment)) [
          | inr (e, raised) ↦ subst (Applies o increment prior m) (ground arith) (refused e)
          | inl (unit, is_unit) ↦
              let call = update (str o.symbol) (num (signed o.side increment)) (num unit) m in
              apply_update price unit is_price grows is_unit call.0 call.1 refl
        ]
      ]
    ]
      where
        growth : F → F
        growth price = fl.sub (fl.mul o.filled_quantity price) prior.notional

        shrinks : F → Bool
        shrinks price = fl.le (growth price) zero || not (fl.is_finite (growth price))
