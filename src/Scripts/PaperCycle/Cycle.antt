-- ===== src/Scripts/PaperCycle/Cycle.antt =====
-- scripts/paper_trade_cycle.py: one invocation's submission, `run_paper` from its store on. The
-- checks before it, of the endpoint, the account and the risk, send nothing.
use quantcortex.Prelude.{
  ℕ, suc, String, Bool, true, false, not, ◌&&◌, Option, none, some, List, [], ◌∷◌, ◌++◌, is_empty,
  if◌then◌else◌, ◌==◌,
}
use quantcortex.Prelude.Result.{Result, ok, err}
use quantcortex.Python.Dict.{Dict, values}
use quantcortex.Python.Exception.{
  Exception, broker_error, state_persistence_error, value_error, Exec, pure, lift, ◌>>=◌, ◌>>◌,
}
use quantcortex.Python.Float.{Float}
use quantcortex.Python.Objects.{is_truthy}
use quantcortex.Python.Value.{Value, bool, null, Fields, end}
use quantcortex.Execution.Brokers.Base.{Position}
use quantcortex.Execution.OrderManager.Status.{OrderStatus, buy, sell, cancelled, rejected}
use quantcortex.Execution.OrderManager.Order.{Order}
use quantcortex.Execution.OrderManager.Manager.{Book, register}
use quantcortex.Execution.StatePersistence.Codec.{item_or}
use quantcortex.Execution.StatePersistence.Snapshot.{ExecutionSnapshot}
use quantcortex.Scripts.PaperCycle.Intents.{Naming, of_side}
use quantcortex.Scripts.PaperCycle.Session.{
  Broker, SnapshotStore, Context, Session, by_id, merge, migrated_key, is_empty_ledger,
  load_submission_ledger, persist,
}
use quantcortex.Scripts.PaperCycle.Submit.{Run, is_caught, reconcile_or_submit}

-- What `run_paper` has read and computed before it submits: the positions, the open orders (there
-- are none by then), the metadata of the snapshot, and the order intents.
pub record Plan (F : Type 0) : Type 0 where
  pub positions : Dict (Position F)
  pub open_orders : List (Order F)
  pub metadata : List (String × Value F)
  pub intents : List (Value F)

-- `om`, `failures` and `reconciled`
pub record Tally (F : Type 0) : Type 0 where
  pub book : Book F
  pub failures : ℕ
  pub reconciled : Bool

-- The broker and the store, with the client order ids that were sent: what outlives a process.
pub record World (B S : Type 0) : Type 0 where
  pub broker : B
  pub store : S
  pub sent : List String

-- `placed.status in {OrderStatus.CANCELLED, OrderStatus.REJECTED}`
unfoldable pub is_refused : OrderStatus → Bool
is_refused cancelled = true
is_refused rejected = true
is_refused _ = false

module _ {F : Type 0} where
  -- the ledger and the context that the previous snapshot, or none, leads to
  unfoldable pub context_after : Plan F → ExecutionSnapshot F → Bool → Context F
  unfolding by_id merge
  context_after plan previous migrated = record {
    positions = plan.positions;
    orders = values (by_id plan.open_orders (by_id previous.orders []));
    metadata = merge (plan.metadata ++ (migrated_key, bool migrated) ∷ []) previous.metadata;
    revision = some previous.revision;
  }

  unfoldable pub first_context : Plan F → Bool → Context F
  unfolding merge
  first_context plan migrated = record {
    positions = plan.positions;
    orders = plan.open_orders;
    metadata = merge (plan.metadata ++ (migrated_key, bool migrated) ∷ []) end;
    revision = none;
  }

module _ {F B S : Type 0} where
  -- the ledger and the context of the session
  unfoldable pub begin : Fields F → Context F → Exec (Session F B S) (Unit {0})
  begin ledger context s = (ok tt, record s { ledger = ledger; context = context })

  -- a call of the store
  unfoldable pub with_store : {A : Type 0} → Exec S A → Exec (Session F B S) A
  with_store call s = let (r, store) = call s.store in (r, record s { store = store })

module _ {F B S : Type 0} ⦃fl : Float F⦄ (naming : Naming F) (br : Broker F B)
    (st : SnapshotStore F S) (run : Run) where
  -- the ledger and the context, from the previous snapshot or the older ledger
  unfoldable pub starting : Plan F → Option (ExecutionSnapshot F) → Exec (Session F B S) (Unit {0})
  unfolding begin with_store load_submission_ledger context_after first_context
  starting plan none = do
    ledger ← with_store (load_submission_ledger st)
    begin ledger (first_context plan (not (is_empty_ledger ledger)))
  starting plan (some snap) =
      begin snap.intents
        (context_after plan snap (is_truthy (item_or null migrated_key snap.metadata)))

  -- `_initialise_submission_state`, on a store that keeps snapshots
  unfoldable pub initialise : Plan F → Exec (Session F B S) (Unit {0})
  unfolding with_store starting persist
  initialise plan = do previous ← with_store st.load; starting plan previous; persist st

  -- what follows the registration of an order that was sent
  unfoldable pub after_register :
      (Tally F → Exec (Session F B S) (Tally F))
      → Tally F
      → Order F
      → Session F B S
      → Result Exception (Order F) × Book F
      → Result Exception (Tally F) × Session F B S
  unfolding is_caught is_refused
  after_register continue t o s (err e, book) =
      if is_caught e
      then (ok (record t { book = book; failures = suc t.failures }), s)
      else (err e, s)
  after_register continue t o s (ok _, book) =
      if is_refused o.status
      then (ok (record t { book = book; failures = suc t.failures }), s)
      else continue (record t { book = book }) s

  -- what follows one intent of the phase: the loop goes on, breaks or raises
  unfoldable pub after_intent :
      (Tally F → Exec (Session F B S) (Tally F))
      → Tally F
      → Result Exception (Order F × Bool) × Session F B S
      → Result Exception (Tally F) × Session F B S
  unfolding is_caught after_register
  after_intent continue t (err e, s) =
      if is_caught e then (ok (record t { failures = suc t.failures }), s) else (err e, s)
  after_intent continue t (ok (o, false), s) = (ok (record t { reconciled = true }), s)
  after_intent continue t (ok (o, true), s) = after_register continue t o s (register o t.book)

  -- `for order in phase`
  unfoldable pub phase : List (Value F) → Tally F → Exec (Session F B S) (Tally F)
  unfolding reconcile_or_submit after_intent
  phase [] t s = (ok t, s)
  phase (intent ∷ intents) t s =
      after_intent (phase intents) t (reconcile_or_submit naming br st run intent s)

  -- the exit status
  unfoldable pub exit_status : List (Value F) → List (Value F) → Tally F → ℕ
  exit_status sells buys t =
      if not (is_empty sells) && not (is_empty buys) && t.failures == 0 && not t.reconciled
      then 1
      else if t.reconciled
      then 1
      else if t.failures == 0
      then 0
      else 1

  -- the phase of the sells, or of the buys where there are none
  unfoldable pub submit_sides : List (Value F) → List (Value F) → Exec (Session F B S) ℕ
  unfolding phase exit_status
  submit_sides sells buys = do
    t ←
        phase (if is_empty sells then buys else sells)
          (record { book = []; failures = 0; reconciled = false })
    pure (exit_status sells buys t)

  -- `run_paper` from the store on, before its handlers
  unfoldable pub submit_plan : Plan F → Exec (Session F B S) ℕ
  unfolding initialise of_side submit_sides
  submit_plan plan = do
    initialise plan
    sells ← lift (of_side sell plan.intents)
    buys ← lift (of_side buy plan.intents)
    submit_sides sells buys

  -- `except (BrokerError, StatePersistenceError, ValueError): return 1`
  abbrev pub reported : Result Exception ℕ → Result Exception ℕ
  reported (err broker_error) = ok 1
  reported (err state_persistence_error) = ok 1
  reported (err value_error) = ok 1
  reported r = r

  -- one invocation of the script, from its store on
  unfoldable pub invoke : Plan F → World B S → Result Exception ℕ × World B S
  unfolding submit_plan
  invoke plan w =
      let start : Session F B S = record {
        broker = w.broker;
        store = w.store;
        sent = w.sent;
        ledger = end;
        context = record { positions = []; orders = []; metadata = end; revision = none };
      } in
      let (r, s) = submit_plan plan start in
      (reported r, record { broker = s.broker; store = s.store; sent = s.sent })
