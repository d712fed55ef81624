-- ===== src/Execution/OrderManager/Outcomes.antt =====
-- quantcortex/execution/order_manager.py: what a method call can come to, one constructor for
-- each way, so that a proof about a method need not open it.
use quantcortex.Prelude.{
  String, subst, ◌≡◌, inl, inr, ◌⊎◌, true, none, some, [], ◌∷◌, ◌++◌, arith, Option-cases,
  Bool-cases,
}
use quantcortex.Prelude.Result.{Result, ok, err, Result-cases}
use quantcortex.Python.Dict.{lookup, insert}
use quantcortex.Python.Exception.{
  Exception, invalid_transition_error, duplicate_order_error, unknown_order_error,
}
use quantcortex.Python.Float.{Float}
use quantcortex.Python.Value.{Value, str}
use quantcortex.Execution.OrderManager.Status.{OrderStatus, allowed}
use quantcortex.Execution.OrderManager.Order.{Order, validate, OrderArgs, make_order, order_args}
use quantcortex.Execution.OrderManager.Manager.{
  Book, order_key, find, transition, move, create_order, register,
}

-- the order after a transition
abbrev pub advance : {F : Type 0} → OrderStatus → Order F → Order F
advance next o = record o { status = next; history = o.history ++ next ∷ [] }

module _ {F : Type 0} where
  -- `submit`, `cancel` and `reject`: a raise that changed nothing, or one legal transition of the
  -- order under its key.
  pub data Moves (touch : Order F → Order F) (next : OrderStatus) (id : Value F) (b : Book F)
      : Result Exception (Order F) × Book F → Type 0 where
    refused : (e : Exception) → Moves touch next id b (err e, b)
    moved :
        (k : String) (o : Order F)
        → order_key id ≡ ok k
        → lookup k b ≡ some o
        → allowed o.status next ≡ true
        → Moves touch next id b (ok (touch (advance next o)), insert k (touch (advance next o)) b)

  -- A call that found its key has one order to work on.
  pub find_cases :
      (id : Value F) (b : Book F)
      → ((e : Exception) × (find id b ≡ (err e, b)))
        ⊎ ((k : String) × (o : Order F) × (order_key id ≡ ok k)
            × (lookup k b ≡ some o)
            × (find id b ≡ (ok (k, o), b)))
  unfolding find
  find_cases id b = elim (Result-cases (order_key id)) [
    | inr (e, raised) ↦ inl (e, ground arith)
    | inl (k, keyed) ↦ elim (Option-cases (lookup k b)) [
      | inl missing ↦ inl (unknown_order_error, ground arith)
      | inr (o, found) ↦ inr (k, o, keyed, found, ground arith)
    ]
  ]

  pub move-Moves :
      (touch : Order F → Order F) (next : OrderStatus) (id : Value F) (b : Book F)
      → Moves touch next id b (move touch next id b)
  unfolding move transition
  move-Moves touch next id b = elim (find_cases id b) [
    | inl (e, raised) ↦ subst (Moves touch next id b) (ground arith) (refused e)
    | inr (k, o, keyed, found, at) ↦ elim (Bool-cases (allowed o.status next)) [
      | inl legal ↦ subst (Moves touch next id b) (ground arith) (moved k o keyed found legal)
      | inr illegal ↦
          subst (Moves touch next id b) (ground arith) (refused invalid_transition_error)
    ]
  ]

module _ {F : Type 0} ⦃fl : Float F⦄ where
  -- `create_order`: a raise that changed nothing, or a new entry under a key that was free.
  pub data Creates (args : String → OrderArgs F) (id : Value F) (b : Book F)
      : Result Exception (Order F) × Book F → Type 0 where
    refused : (e : Exception) → Creates args id b (err e, b)
    created :
        (k : String) (o : Order F)
        → order_key id ≡ ok k
        → lookup k b ≡ none
        → make_order (args k) ≡ ok o
        → Creates args id b (ok o, insert k o b)

  pub create_order-Creates :
      (id symbol side quantity kind price : Value F) (b : Book F)
      → Creates
          (λ k. order_args (str k) symbol side quantity kind price)
          id
          b
          (create_order id symbol side quantity kind price b)
  unfolding create_order
  create_order-Creates id symbol side quantity kind price b = elim (Result-cases (order_key id)) [
    | inr (e, raised) ↦ subst C (ground arith) (refused e)
    | inl (k, keyed) ↦ elim (Option-cases (lookup k b)) [
      | inr (o, taken) ↦ subst C (ground arith) (refused duplicate_order_error)
      | inl free ↦ elim (Result-cases (make_order (args k))) [
        | inr (e, raised) ↦ subst C (ground arith) (refused e)
        | inl (o, made) ↦ subst C (ground arith) (created k o keyed free made)
      ]
    ]
  ]
    where
      args : String → OrderArgs F
      args k = order_args (str k) symbol side quantity kind price

      C : Result Exception (Order F) × Book F → Type 0
      C r = Creates args id b r

  pub data Registers (o : Order F) (b : Book F) : Result Exception (Order F) × Book F → Type 0 where
    refused : (e : Exception) → Registers o b (err e, b)
    registered :
        (k : String)
        → validate o ≡ ok tt
        → order_key {F = F} (str o.order_id) ≡ ok k
        → lookup k b ≡ none
        → Registers o b (ok (record o { order_id = k }), insert k (record o { order_id = k }) b)

  pub register-Registers : (o : Order F) (b : Book F) → Registers o b (register o b)
  unfolding register
  register-Registers o b = elim (Result-cases (validate o)) [
    | inr (e, raised) ↦ subst (Registers o b) (ground arith) (refused e)
    | inl (_, valid) ↦ elim (Result-cases (order_key {F = F} (str o.order_id))) [
      | inr (e, raised) ↦ subst (Registers o b) (ground arith) (refused e)
      | inl (k, keyed) ↦ elim (Option-cases (lookup k b)) [
        | inr (x, taken) ↦ subst (Registers o b) (ground arith) (refused duplicate_order_error)
        | inl free ↦ subst (Registers o b) (ground arith) (registered k valid keyed free)
      ]
    ]
  ]
