-- ===== src/Execution/OrderManager/Effects.antt =====
-- quantcortex/execution/order_manager.py: what a transition call does to its order, and what `get`
-- reads after `create_order`.
use quantcortex.Prelude.{String, ◌≡◌, some, arith, if◌then◌else◌}
use quantcortex.Prelude.Result.{Result, ok, err}
use quantcortex.Python.Dict.{lookup, insert, lookup-insert_self}
use quantcortex.Python.Exception.{Exception, invalid_transition_error}
use quantcortex.Python.Float.{Float}
use quantcortex.Python.Value.{Value}
use quantcortex.Execution.OrderManager.Status.{OrderStatus, submitted, cancelled, rejected, allowed}
use quantcortex.Execution.OrderManager.Order.{Order, OrderArgs}
use quantcortex.Execution.OrderManager.Manager.{
  Book, order_key, find, get, move, transition, submit, cancel, reject, create_order,
}
use quantcortex.Execution.OrderManager.Outcomes.{
  advance, Creates, refused, created, create_order-Creates,
}
use quantcortex.Execution.OrderManager.FillOutcomes.{refused}

module _ {F : Type 0} where
  -- A known id is found under its key.
  find_known :
      (id : Value F) (k : String) (o : Order F) (b : Book F)
      → order_key id ≡ ok k
      → lookup k b ≡ some o
      → find id b ≡ (ok (k, o), b)
  unfolding find
  find_known id k o b keyed found = ground arith

  -- What a transition call comes to on a known order: the table of legal transitions decides.
  abbrev pub transited :
      (Order F → Order F)
      → OrderStatus
      → String
      → Order F
      → Book F
      → Result Exception (Order F) × Book F
  transited touch next k o b =
      if allowed o.status next
      then (ok (touch (advance next o)), insert k (touch (advance next o)) b)
      else (err invalid_transition_error, b)

  move_lem :
      (touch : Order F → Order F) (next : OrderStatus) (id : Value F) (k : String) (o : Order F)
      (b : Book F)
      → find id b ≡ (ok (k, o), b)
      → move touch next id b ≡ transited touch next k o b
  unfolding move transition
  move_lem touch next id k o b here = ground arith

  -- `submit`, `cancel` and `reject` of an order under a key that was read make the transition
  -- exactly where the table allows it, and otherwise raise and change nothing.
  pub transitions_lem :
      (id reason : Value F) (k : String) (o : Order F) (b : Book F)
      → order_key id ≡ ok k
      → lookup k b ≡ some o
      → (submit id b ≡ transited (λ x. x) submitted k o b)
        × (cancel id b ≡ transited (λ x. x) cancelled k o b)
        × (reject id reason b ≡ transited (λ x. record x { reject_reason = reason }) rejected k o b)
  unfolding submit cancel reject
  transitions_lem id reason k o b keyed found =
      let here = find_known id k o b keyed found in
      (
        move_lem _ submitted id k o b here,
        move_lem _ cancelled id k o b here,
        move_lem _ rejected id k o b here,
      )

module _ {F : Type 0} ⦃fl : Float F⦄ where
  Creates-get :
      {args : String → OrderArgs F} {id : Value F} {b : Book F} {o : Order F}
      {r : Result Exception (Order F) × Book F}
      → Creates args id b r
      → r.0 ≡ ok o
      → get id r.1 ≡ (ok o, r.1)
  unfolding get
  Creates-get (refused e) h = cc
  Creates-get {id = id} {b = b} (created k o keyed free made) h =
      let here = find_known id k o (insert k o b) keyed (lookup-insert_self k o b) in ground arith

  -- An order that was created is what `get` returns for the same id.
  pub get-create_order :
      (id symbol side quantity kind price : Value F) (b : Book F) (o : Order F)
      → (create_order id symbol side quantity kind price b).0 ≡ ok o
      → let b' = (create_order id symbol side quantity kind price b).1 in get id b' ≡ (ok o, b')
  get-create_order id symbol side quantity kind price b o h =
      Creates-get (create_order-Creates id symbol side quantity kind price b) h
