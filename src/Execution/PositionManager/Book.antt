-- ===== src/Execution/PositionManager/Book.antt =====
-- quantcortex/execution/position_manager.py: `PositionManager`, its book of positions and the
-- fills that it has applied. A position is a mutable object that the book holds.
use quantcortex.Prelude.{String, not, ◌&&◌, ◌||◌, Option, none, some, [], if◌then◌else◌, same_bool}
use quantcortex.Prelude.Result.{Result, ok, err}
use quantcortex.Python.Dict.{Dict, lookup, insert, erase}
use quantcortex.Python.Exception.{
  Exception, value_error, Exec, pure, lift, gets, modify, raise_when, ◌>>=◌, ◌>>◌,
}
use quantcortex.Python.Float.{Float, zero, divide, is_positive}
use quantcortex.Python.Value.{Value, num, str}
use quantcortex.Execution.Brokers.Base.{Position}
use quantcortex.Execution.OrderManager.Status.{OrderSide, buy, sell}
use quantcortex.Execution.OrderManager.Order.{Order, validate}
use quantcortex.Execution.PositionManager.Mapping.{to_float, symbol_key}

-- the cumulative quantity and notional of an order that have been applied
pub record AppliedFill (F : Type 0) : Type 0 where
  pub quantity : F
  pub notional : F

pub record PositionManager (F : Type 0) : Type 0 where
  pub positions : Dict (Position F)
  pub applied_fills : Dict (AppliedFill F)

abbrev pub empty : {F : Type 0} → PositionManager F
empty = record { positions = []; applied_fills = [] }

-- `value is None` raises `ValueError`.
abbrev pub or_value_error {ℓ} : {A : Type ℓ} → Option A → Result Exception A
or_value_error none = err value_error
or_value_error (some a) = ok a

module _ {F : Type 0} ⦃fl : Float F⦄ where
  -- `Position(symbol=symbol, quantity=0.0)`
  abbrev pub flat : String → Position F
  flat s = record { symbol = s; quantity = zero; avg_price = zero; market_price = zero }

  abbrev pub or_flat : String → Option (Position F) → Position F
  or_flat s none = flat s
  or_flat s (some p) = p

  unfoldable pub position_of : String → PositionManager F → Position F
  position_of s m = or_flat s (lookup s m.positions)

  unfoldable pub get_position : Value F → Exec (PositionManager F) (Position F)
  get_position symbol = do s ← lift (symbol_key symbol); gets (position_of s)

  -- the average price after `delta` at `price`: a blend where exposure opens or grows, the price
  -- where it flips, and the old average where it shrinks
  unfoldable pub basis : Position F → F → F → Result Exception F
  basis p delta price =
      let old = p.quantity in
      let fresh = fl.add old delta in
      let blend =
        divide (fl.add (fl.mul (fl.abs old) p.avg_price) (fl.mul (fl.abs delta) price))
          (fl.abs fresh) in
      if fl.eq old zero || same_bool (fl.lt zero old) (fl.lt zero delta)
      then (if fl.eq fresh zero then ok p.avg_price else blend)
      else if not (same_bool (fl.lt zero old) (fl.lt zero fresh)) && not (fl.eq fresh zero)
      then ok price
      else ok p.avg_price

  -- 1e-12
  abbrev pub flat_tolerance : F
  flat_tolerance = fl.scaled 1 12

  -- the position after `delta` at `price`
  abbrev pub moved_to : Position F → F → F → F → Position F
  moved_to p delta price average = record p {
    quantity = fl.add p.quantity delta;
    avg_price = average;
    market_price = price;
  }

  -- A position that has become flat leaves the book.
  unfoldable pub settle : String → Position F → Exec (PositionManager F) (Position F)
  settle s p m =
      if fl.lt (fl.abs p.quantity) flat_tolerance
      then (ok (record p { quantity = zero }), record m { positions = erase s m.positions })
      else (ok p, record m { positions = insert s p m.positions })

  unfoldable pub update : Value F → Value F → Value F → Exec (PositionManager F) (Position F)
  update symbol delta price = do
    s ← lift (symbol_key symbol)
    d ← lift (or_value_error (to_float delta))
    p ← lift (or_value_error (to_float price))
    raise_when (not (is_positive p)) value_error
    position ← gets (position_of s)
    average ← lift (basis position d p)
    settle s (moved_to position d p average)

  abbrev pub or_none : Option (AppliedFill F) → AppliedFill F
  or_none none = record { quantity = zero; notional = zero }
  or_none (some a) = a

  -- `order.avg_fill_price or order.limit_price`
  unfoldable pub fill_price : Order F → Option F
  fill_price o = elim o.avg_fill_price [
    | none ↦ o.limit_price
    | some p ↦ if fl.eq p zero then o.limit_price else some p
  ]

  -- `increment if order.side is OrderSide.BUY else -increment`
  abbrev pub signed : OrderSide → F → F
  signed buy x = x
  signed sell x = fl.neg x

  -- the rest of `update_fill`, once a new quantity is known
  unfoldable pub apply_fill : Order F → F → AppliedFill F → Exec (PositionManager F) (Position F)
  apply_fill o increment prior = do
    price ← lift (or_value_error (fill_price o))
    let cumulative = fl.mul o.filled_quantity price
    let incremental = fl.sub cumulative prior.notional
    raise_when (fl.le incremental zero || not (fl.is_finite incremental)) value_error
    unit ← lift (divide incremental increment)
    position ← update (str o.symbol) (num (signed o.side increment)) (num unit)
    modify (λ m. record m {
      applied_fills =
          insert o.order_id (record { quantity = o.filled_quantity; notional = cumulative })
            m.applied_fills;
    })
    pure position

  unfoldable pub update_fill : Order F → Exec (PositionManager F) (Position F)
  update_fill o = do
    lift (validate o)
    prior ← gets (λ m. or_none (lookup o.order_id m.applied_fills))
    raise_when (fl.lt o.filled_quantity (fl.sub prior.quantity (fl.scaled 1 9))) value_error
    let increment = fl.sub o.filled_quantity prior.quantity
    let rest = apply_fill o increment prior
    if fl.le increment flat_tolerance then get_position (str o.symbol) else rest
