-- ===== src/Scripts/PaperCycle/Submit.antt =====
-- scripts/paper_trade_cycle.py: `_initialise_submission_state`, `_reconcile_or_submit`, and the
-- phase of `run_paper` that submits.
use quantcortex.Prelude.{
  String, Bool, true, false, not, ◌&&◌, Option, none, some, is_some, [], ◌∷◌, ◌++◌, if◌then◌else◌,
}
use quantcortex.Prelude.Result.{Result, ok, err}
use quantcortex.Python.Exception.{
  Exception, broker_error, order_error, duplicate_order_error, unknown_order_error,
  invalid_transition_error, state_persistence_error, Exec, pure, lift, ◌>>=◌, ◌>>◌,
}
use quantcortex.Python.Float.{Float}
use quantcortex.Python.Value.{Value, str, Fields}
use quantcortex.Execution.OrderManager.Order.{Order}
use quantcortex.Execution.StatePersistence.Orders.{status_text, fields}
use quantcortex.Scripts.PaperCycle.Intents.{
  Day, Naming, intent_request, make_client_order_id, ledger_record, assert_order_matches_intent,
}
use quantcortex.Scripts.PaperCycle.Session.{
  Broker, SnapshotStore, Session, persist, remember, note, recorded,
}

-- `except (BrokerError, OrderError)`: the classes and their subclasses
unfoldable pub is_caught : Exception → Bool
is_caught broker_error = true
is_caught order_error = true
is_caught duplicate_order_error = true
is_caught unknown_order_error = true
is_caught invalid_transition_error = true
is_caught _ = false

unfoldable pub is_persistence_error : Exception → Bool
is_persistence_error state_persistence_error = true
is_persistence_error _ = false

-- What one invocation is given: the day of the prices, the clock, the option
-- `--retry-confirmed-missing`.
pub record Run : Type 0 where
  pub day : Option Day
  pub now : String
  pub retry_confirmed_missing : Bool

-- `pd.Timestamp(as_of)` of a record; the id was made of the same day before.
abbrev pub day_of : Option Day → Day
day_of none = record { token = ""; iso = "" }
day_of (some d) = d

module _ {F B S : Type 0} ⦃fl : Float F⦄ (naming : Naming F) (br : Broker F B)
    (st : SnapshotStore F S) (run : Run) where
  -- a call of the broker that looks for an order
  unfoldable pub look_up : String → Exec (Session F B S) (Option (Order F))
  look_up id s = let (r, b) = br.find id s.broker in (r, record s { broker = b })

  -- the call of the broker that sends the order
  unfoldable pub send : String → Order F → Exec (Session F B S) (Order F)
  send id request s =
      let (r, b) = br.place request.symbol request.side request.quantity id s.broker in
      (r, record s { broker = b; sent = id ∷ s.sent })

  -- the ledger's entry, unless a prior attempt forbids another
  unfoldable pub prior_attempt : String → Exec (Session F B S) (Option (Value F))
  unfolding recorded
  prior_attempt id s =
      let prior = recorded id s.ledger in
      if is_some prior && not run.retry_confirmed_missing
      then (err broker_error, s)
      else (ok prior, s)

  -- the record of an attempt, which says so where an operator has confirmed that a prior one failed
  unfoldable pub attempting : Order F → Option (Value F) → Fields F
  attempting request none = fields (ledger_record run.now (day_of run.day) request "ATTEMPTING")
  attempting request (some _) = fields (
      ledger_record run.now (day_of run.day) request "ATTEMPTING"
      ++ ("operator_confirmed_missing_at", str run.now) ∷ [])

  -- the record of an order that the broker has
  unfoldable pub known_order : Order F → Order F → Fields F
  known_order request o = fields (
      ledger_record run.now (day_of run.day) request (status_text o.status)
      ++ ("broker_order_id", str o.order_id) ∷ [])

  -- `except StatePersistenceError: pass`
  abbrev pub suppressed :
      Result Exception (Unit {0}) × Session F B S → Result Exception (Unit {0}) × Session F B S
  suppressed (ok _, s) = (ok tt, s)
  suppressed (err e, s) = if is_persistence_error e then (ok tt, s) else (err e, s)

  -- the handler of a failed submission, which raises again
  unfoldable pub failed : String → Order F → Exception → Exec (Session F B S) (Order F)
  unfolding note persist is_persistence_error
  failed id request e = do
    note id (fields (ledger_record run.now (day_of run.day) request "UNKNOWN"))
    (λ s. suppressed (persist st s))
    lift (err e)

  -- the submission and its check
  unfoldable pub sent_order : String → Order F → Exec (Session F B S) (Order F)
  unfolding send assert_order_matches_intent
  sent_order id request = do
    placed ← send id request
    lift (assert_order_matches_intent placed request)
    pure placed

  abbrev pub handled :
      String
      → Order F
      → Result Exception (Order F) × Session F B S
      → Result Exception (Order F) × Session F B S
  handled id request (ok o, s) = (ok o, s)
  handled id request (err e, s) = if is_caught e then failed id request e s else (err e, s)

  unfoldable pub attempt : String → Order F → Exec (Session F B S) (Order F)
  unfolding sent_order failed is_caught
  attempt id request s = handled id request (sent_order id request s)

  -- the order goes on record, and into the snapshot
  unfoldable pub settled : String → Order F → Order F → Bool → Exec (Session F B S) (Order F × Bool)
  unfolding known_order note remember persist
  settled id request o now_sent = do
    note id (known_order request o)
    remember o
    persist st
    pure (o, now_sent)

  -- an order that the broker already has
  unfoldable pub reconcile : String → Order F → Order F → Exec (Session F B S) (Order F × Bool)
  unfolding assert_order_matches_intent settled
  reconcile id request existing = do
    lift (assert_order_matches_intent existing request)
    settled id request existing false

  -- the attempt, which is on record before it is made
  unfoldable pub marked : String → Order F → Fields F → Exec (Session F B S) (Order F × Bool)
  unfolding note persist attempt settled
  marked id request mark = do
    note id mark
    persist st
    placed ← attempt id request
    settled id request placed true

  -- an order that the broker does not have
  unfoldable pub submit_once : String → Order F → Exec (Session F B S) (Order F × Bool)
  unfolding prior_attempt attempting marked
  submit_once id request = do prior ← prior_attempt id; marked id request (attempting request prior)

  unfoldable pub route : String → Order F → Option (Order F) → Exec (Session F B S) (Order F × Bool)
  unfolding reconcile submit_once
  route id request none = submit_once id request
  route id request (some o) = reconcile id request o

  -- `_reconcile_or_submit`; the client id that it also returns is for a message.
  unfoldable pub reconcile_or_submit : Value F → Exec (Session F B S) (Order F × Bool)
  unfolding intent_request make_client_order_id look_up route
  reconcile_or_submit intent = do
    request ← lift (intent_request intent)
    id ← lift (make_client_order_id naming run.day intent)
    existing ← look_up id
    route id request existing
