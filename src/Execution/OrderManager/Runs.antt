-- ===== src/Execution/OrderManager/Runs.antt =====
-- quantcortex/execution/order_manager.py: sequences of calls, and what a raise leaves behind.
use text.Mathlib.TextEquality.{eq_iff}
use quantcortex.Prelude.{String, ◌≡◌, true, Option, none, some, List, [], ◌∷◌, arith}
use quantcortex.Prelude.Result.{Result}
use quantcortex.Python.Dict.{lookup, insert, lookup-insert}
use quantcortex.Python.Exception.{Exception}
use quantcortex.Python.Float.{Float}
use quantcortex.Python.Value.{Value}
use quantcortex.Execution.OrderManager.Status.{
  OrderStatus, submitted, cancelled, rejected, allowed, is_terminal, terminal_final,
}
use quantcortex.Execution.OrderManager.Order.{Order, OrderArgs}
use quantcortex.Execution.OrderManager.Manager.{Book, submit, cancel, reject}
use quantcortex.Execution.OrderManager.Calls.{
  Request, call, create, enter, send, execute, withdraw, refuse,
}
use quantcortex.Execution.OrderManager.Outcomes.{
  advance, Moves, Creates, Registers, refused, moved, created, registered, move-Moves,
  create_order-Creates, register-Registers,
}
use quantcortex.Execution.OrderManager.FillOutcomes.{
  Fills, Writes, accepted, divided, invalidated, written, fill-Fills, refused,
}

module _ {F : Type 0} ⦃fl : Float F⦄ where
  pub run : List (Request F) → Book F → Book F
  unfolding call
  run [] b = b
  run (r ∷ rs) b = run rs (call r b).1

  -- What any call may do to the book: nothing, a new entry under a free key, or a write to an
  -- order that one legal transition takes to its new status.
  pub data Changes (b : Book F) : Book F → Type 0 where
    unchanged : Changes b b
    entered : (k : String) (o : Order F) → lookup k b ≡ none → Changes b (insert k o b)
    changed :
        (k : String) (o o' : Order F)
        → lookup k b ≡ some o
        → (t : OrderStatus) → allowed o.status t ≡ true
        → Changes b (insert k o' b)

  Moves-Changes :
      {touch : Order F → Order F} {next : OrderStatus} {id : Value F} {b : Book F}
      {r : Result Exception (Order F) × Book F}
      → Moves touch next id b r
      → Changes b r.1
  Moves-Changes (refused e) = unchanged
  Moves-Changes {touch} {next} (moved k o keyed found legal) =
      changed k o (touch (advance next o)) found next legal

  Writes-Changes :
      {k : String} {o : Order F} {increment : F} {at : Option F} {b : Book F}
      {r : Result Exception (Order F) × Book F} (t : OrderStatus)
      → Writes k o increment at b r
      → lookup k b ≡ some o
      → allowed o.status t ≡ true
      → Changes b r.1
  Writes-Changes {k} {o} t (divided e z) found legal = changed k o _ found t legal
  Writes-Changes {k} {o} t (invalidated e p a v) found legal = changed k o _ found t legal
  Writes-Changes {k} {o} t (written p a v) found legal = changed k o _ found t legal

  Fills-Changes :
      {quantity price id : Value F} {b : Book F} {r : Result Exception (Order F) × Book F}
      → Fills quantity price id b r
      → Changes b r.1
  Fills-Changes (refused e) = unchanged
  Fills-Changes (accepted k o increment at keyed found taken positive fits legal read usable w) =
      Writes-Changes _ w found legal

  Creates-Changes :
      {args : String → OrderArgs F} {id : Value F} {b : Book F}
      {r : Result Exception (Order F) × Book F}
      → Creates args id b r
      → Changes b r.1
  Creates-Changes (refused e) = unchanged
  Creates-Changes (created k o keyed free made) = entered k o free

  Registers-Changes :
      {o : Order F} {b : Book F} {r : Result Exception (Order F) × Book F}
      → Registers o b r
      → Changes b r.1
  Registers-Changes (refused e) = unchanged
  Registers-Changes {o} (registered k valid keyed free) = entered k (record o { order_id = k }) free

  pub call-Changes : (r : Request F) (b : Book F) → Changes b (call r b).1
  unfolding call submit cancel reject
  call-Changes (create id symbol side quantity kind price) b =
      Creates-Changes (create_order-Creates id symbol side quantity kind price b)
  call-Changes (enter o) b = Registers-Changes (register-Registers o b)
  call-Changes (send id) b = Moves-Changes (move-Moves _ submitted id b)
  call-Changes (execute id quantity price) b = Fills-Changes (fill-Fills id quantity price b)
  call-Changes (withdraw id) b = Moves-Changes (move-Moves _ cancelled id b)
  call-Changes (refuse id reason) b = Moves-Changes (move-Moves _ rejected id b)

  Changes-terminal :
      {b b' : Book F} (k : String) (o : Order F)
      → Changes b b'
      → lookup k b ≡ some o
      → is_terminal o.status ≡ true
      → lookup k b' ≡ some o
  Changes-terminal k o unchanged found over = found
  Changes-terminal {b} k o (entered j x free) found over =
      ground (arith, lookup-insert j k x b, eq_iff j k)
  Changes-terminal {b} k o (changed j x x' here t legal) found over =
      ground (arith, lookup-insert j k x' b, eq_iff j k, terminal_final x.status t)

  -- Once an order is filled, cancelled or rejected, no sequence of calls changes its entry.
  pub run-terminal :
      (rs : List (Request F)) (b : Book F) (k : String) (o : Order F)
      → lookup k b ≡ some o
      → is_terminal o.status ≡ true
      → lookup k (run rs b) ≡ some o
  unfolding run
  run-terminal [] b k o found over = found
  run-terminal (r ∷ rs) b k o found over =
      run-terminal rs (call r b).1 k o (Changes-terminal k o (call-Changes r b) found over) over
