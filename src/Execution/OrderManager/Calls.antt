-- ===== src/Execution/OrderManager/Calls.antt =====
-- quantcortex/execution/order_manager.py: the methods of `OrderManager` that change the book, as
-- requests to one entry point.
use quantcortex.Prelude.Result.{Result}
use quantcortex.Python.Exception.{Exception}
use quantcortex.Python.Float.{Float}
use quantcortex.Python.Value.{Value}
use quantcortex.Execution.OrderManager.Order.{Order}
use quantcortex.Execution.OrderManager.Manager.{
  Book, submit, cancel, reject, create_order, register, fill,
}

-- One call of a method. The caller goes on after a raise.
pub data Request (F : Type 0) : Type 0 where
  create : Value F → Value F → Value F → Value F → Value F → Value F → Request F
  enter : Order F → Request F
  send : Value F → Request F
  execute : Value F → Value F → Value F → Request F
  withdraw : Value F → Request F
  refuse : Value F → Value F → Request F

module _ {F : Type 0} ⦃fl : Float F⦄ where
  unfoldable pub call : Request F → Book F → Result Exception (Order F) × Book F
  call (create id symbol side quantity kind price) b =
      create_order id symbol side quantity kind price b
  call (enter o) b = register o b
  call (send id) b = submit id b
  call (execute id quantity price) b = fill id quantity price b
  call (withdraw id) b = cancel id b
  call (refuse id reason) b = reject id reason b
