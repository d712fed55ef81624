-- ===== src/Scripts/PaperCycle/Tests.antt =====
-- scripts/paper_trade_cycle.py with a store in memory and a broker that never finds an order.
use quantcortex.Prelude.{
  ◌*◌, ◌^◌, String, ◌≡◌, ◌⊎◌, refl, true, false, Option, none, some, List, [], ◌∷◌,
}
use quantcortex.Prelude.Int.{pos, ◌+ℤ◌, ◌-ℤ◌, ◌*ℤ◌}
use quantcortex.Prelude.Result.{ok, err}
use quantcortex.Python.Exception.{Exception}
use quantcortex.Python.Fields.{entry, is_key}
use quantcortex.Python.Float.Ticks.{Tick, fin, ticks}
use quantcortex.Python.Text.{strip}
use quantcortex.Python.Value.{
  Value, null, bool, int, num, str, list, dict, other, Fields, end, field,
}
use quantcortex.Execution.OrderManager.Status.{
  new, buy, market, order_side, order_type, order_status,
}
use quantcortex.Execution.OrderManager.Order.{
  Order, validate, make_order, coerced, coerce_order_number, optional_number, statuses,
  validate_order_request,
}
use quantcortex.Execution.StatePersistence.Orders.{has_duplicates}
use quantcortex.Execution.StatePersistence.Save.{Request}
use quantcortex.Execution.StatePersistence.Snapshot.{ExecutionSnapshot}
use quantcortex.Scripts.PaperCycle.Cycle.{Plan, World}
use quantcortex.Scripts.PaperCycle.Cycles.{Invocation, invoke_all, sends_once}
use quantcortex.Scripts.PaperCycle.Intents.{
  Naming, intent_request, make_client_order_id, assert_order_matches_intent, same_side,
}
use quantcortex.Scripts.PaperCycle.Ledger.{is_known, is_known_in, IsDurable}
use quantcortex.Scripts.PaperCycle.Placing.{Unsaved}
use quantcortex.Scripts.PaperCycle.Sends.{reconcile_or_submit-sends}
use quantcortex.Scripts.PaperCycle.Session.{Broker, SnapshotStore, Session, recorded}
use quantcortex.Scripts.PaperCycle.Submit.{Run, reconcile_or_submit}

abbrev Memory : Type 0
Memory = Option (ExecutionSnapshot Tick)

abbrev intents_of : Value Tick → Fields Tick
intents_of (dict fs) = fs
intents_of _ = end

abbrev snapshot : Fields Tick → ExecutionSnapshot Tick
snapshot intents = record {
  schema_version = int (pos 1);
  revision = 1;
  updated_at = "2024-01-02T22:00:00+00:00";
  positions = [];
  orders = [];
  intents = intents;
  metadata = end;
}

abbrev saved : Request Tick → ExecutionSnapshot Tick
saved req = snapshot (intents_of req.intents)

abbrev memory : SnapshotStore Tick Memory
memory = record {
  load = λ s. (ok s, s);
  save = λ req s. (ok (saved req), some (saved req));
  load_attempts = λ s. (ok (dict end), s);
}

abbrev durable : Memory → Fields Tick
durable none = end
durable (some snap) = snap.intents

known-intents_of :
    (id : String) (v : Value Tick) → is_known_in id v ≡ true → is_known id (intents_of v) ≡ true
unfolding is_known_in
known-intents_of id (dict fs) h = h
known-intents_of id null h = cc
known-intents_of id (bool _) h = cc
known-intents_of id (int _) h = cc
known-intents_of id (num _) h = cc
known-intents_of id (str _) h = cc
known-intents_of id (list _) h = cc
known-intents_of id other h = cc

known-loaded :
    (s : Memory) (snap : ExecutionSnapshot Tick) (id : String)
    → (memory.load s).0 ≡ ok (some snap)
    → is_known id (durable s) ≡ true
    → is_known id snap.intents ≡ true
known-loaded none snap id read known = cc
known-loaded (some kept) snap id read known = cc

unknown-absent :
    (s : Memory) (v : Value Tick) (id : String)
    → (memory.load s).0 ≡ ok none
    → is_known id (durable s) ≡ true
    → is_known_in id v ≡ true
unfolding entry recorded
unknown-absent none v id absent known = cc
unknown-absent (some kept) v id absent known = cc

memory-IsDurable : IsDurable memory durable
unfolding entry
memory-IsDurable = record {
  save_records = λ s req snap id returned known. known-intents_of id req.intents known;
  save_keeps = λ s req id known kept. known-intents_of id req.intents known;
  load_keeps = λ s id known. known;
  load_known = λ s snap id read known. known-loaded s snap id read known;
  attempts_keep = λ s id known. known;
  attempts_known = λ s v id absent read known. unknown-absent s v id absent known;
}

abbrev ten : Tick
ten = fin (pos (10 * 10 ^ 12))

abbrev intent : Value Tick
intent = dict (
    field (str "symbol") (str "SPY")
      (field (str "side") (str "BUY") (field (str "quantity") (num ten) end)))

abbrev order_named : String → Order Tick
order_named id = record {
  order_id = id;
  symbol = "SPY";
  side = buy;
  quantity = ten;
  order_type = market;
  limit_price = none;
  status = new;
  filled_quantity = fin (pos 0);
  avg_fill_price = none;
  reject_reason = null;
  history = new ∷ [];
}

abbrev forgetful : Broker Tick (List String)
forgetful = record {
  find = λ id b. (ok none, b);
  place = λ symbol side quantity id b. (ok (order_named "broker-1"), id ∷ b);
}

abbrev naming : Naming Tick
naming = record { format = λ x. "10"; digest = λ s. "0123456789abcdef0123" }

abbrev run : Run
run = record {
  day = some (record { token = "20240102"; iso = "2024-01-02" });
  now = "2024-01-02T22:00:00+00:00";
  retry_confirmed_missing = false;
}

abbrev plan : Plan Tick
plan = record { positions = []; open_orders = []; metadata = []; intents = intent ∷ [] }

abbrev invocation : Invocation Tick (List String)
invocation = record { run = run; plan = plan; drift = λ b. b }

abbrev world : World (List String) Memory
world = record { broker = []; store = none; sent = [] }

-- The same intent in three invocations.
sends_once_example :
    has_duplicates
      (invoke_all naming forgetful memory (invocation ∷ invocation ∷ invocation ∷ []) world).sent
    ≡ false
sends_once_example =
    sends_once naming forgetful memory durable memory-IsDurable
      (invocation ∷ invocation ∷ invocation ∷ []) world (refl, (refl, (refl, tt))) refl

asked : intent_request intent ≡ ok (order_named "preflight")
unfolding intent_request entry is_key validate_order_request make_order coerced coerce_order_number
    optional_number statuses order_side order_type order_status strip validate ◌+ℤ◌ ◌-ℤ◌
asked = refl

abbrev client_id : String
client_id = "qc-mar-20240102-0123456789abcdef0123"

named : make_client_order_id naming run.day intent ≡ ok client_id
unfolding make_client_order_id
named = rw asked refl

abbrev session : Session Tick (List String) Memory
session = record {
  broker = [];
  store = none;
  sent = [];
  ledger = end;
  context = record { positions = []; orders = []; metadata = end; revision = none };
}

reconcile_or_submit-sends_example :
    (((reconcile_or_submit naming forgetful memory run intent session).0
        ≡ ok (order_named "broker-1", true))
      × ((reconcile_or_submit naming forgetful memory run intent session).1.sent ≡ client_id ∷ []))
    ⊎ ((e : Exception) × ((reconcile_or_submit naming forgetful memory run intent session).0
          ≡ err e)
        × Unsaved naming forgetful memory run none
            (reconcile_or_submit naming forgetful memory run intent session).1)
unfolding entry recorded assert_order_matches_intent same_side ◌-ℤ◌ ◌*ℤ◌
reconcile_or_submit-sends_example =
    reconcile_or_submit-sends naming forgetful memory run intent session (order_named "preflight")
      (order_named "broker-1") client_id [] asked named refl refl refl refl
