-- ===== src/Scripts/PaperCycle/Session.antt =====
-- scripts/paper_trade_cycle.py: the state of one submission, and how it is persisted. The broker and
-- the store are behind interfaces. Each of their calls may raise, and any of them may be where the
-- process ends (`process_killed`).
use quantcortex.Prelude.{
  ℕ, String, Bool, true, false, Option, none, some, List, [], ◌∷◌, map, if◌then◌else◌,
}
use quantcortex.Prelude.Int.{pos}
use quantcortex.Prelude.Result.{Result, ok, err}
use quantcortex.Python.Dict.{Dict, insert, values}
use quantcortex.Python.Exception.{Exception, state_persistence_error, Exec, pure, lift, ◌>>=◌, ◌>>◌}
use quantcortex.Python.Fields.{entry, set_field}
use quantcortex.Python.Float.{Float}
use quantcortex.Python.Objects.{is_truthy}
use quantcortex.Python.Text.{strip, is_blank}
use quantcortex.Python.Value.{Value, null, int, str, dict, Fields, end, field}
use quantcortex.Execution.Brokers.Base.{Position}
use quantcortex.Execution.OrderManager.Status.{OrderSide}
use quantcortex.Execution.OrderManager.Order.{Order}
use quantcortex.Execution.StatePersistence.Codec.{object_of}
use quantcortex.Execution.StatePersistence.Orders.{order}
use quantcortex.Execution.StatePersistence.Positions.{position}
use quantcortex.Execution.StatePersistence.Save.{Request}
use quantcortex.Execution.StatePersistence.Snapshot.{ExecutionSnapshot}

-- A broker in the state `B`.
pub record Broker (F B : Type 0) : Type 0 where
  -- `find_order_by_client_order_id`
  pub find : String → B → Result Exception (Option (Order F)) × B
  -- `submit_order`, with the client order id last
  pub place : String → OrderSide → F → String → B → Result Exception (Order F) × B

-- A store of execution snapshots in the state `S`.
pub record SnapshotStore (F S : Type 0) : Type 0 where
  -- `load_execution_snapshot` and `save_execution_snapshot`
  pub load : S → Result Exception (Option (ExecutionSnapshot F)) × S
  pub save : Request F → S → Result Exception (ExecutionSnapshot F) × S
  -- `load_state("paper_submission_attempts", default={})`
  pub load_attempts : S → Result Exception (Value F) × S

-- `snapshot_context`
pub record Context (F : Type 0) : Type 0 where
  pub positions : Dict (Position F)
  pub orders : List (Order F)
  pub metadata : Fields F
  pub revision : Option ℕ

-- `sent` is the client order ids that `submit_order` was called with, the latest first: the broker
-- has seen them, and the program does not.
pub record Session (F B S : Type 0) : Type 0 where
  pub broker : B
  pub store : S
  pub sent : List String
  pub ledger : Fields F
  pub context : Context F

-- "migrated_legacy_submission_ledger"
abbrev pub migrated_key : String
migrated_key = "migrated_legacy_submission_ledger"

module _ {F : Type 0} where
  abbrev pub unless_null : Value F → Option (Value F)
  unless_null null = none
  unless_null v = some v

  unfoldable pub revision_value : Option ℕ → Value F
  revision_value none = null
  revision_value (some n) = int (pos n)

  -- the arguments of `save_execution_snapshot` in `_persist_submission_state`
  unfoldable pub request_of : Fields F → Context F → Request F
  unfolding revision_value
  request_of ledger c = record {
    positions = some (map (λ e. (str e.0, position e.1)) c.positions);
    orders = some (map order c.orders);
    intents = dict ledger;
    metadata = dict c.metadata;
    expected_revision = revision_value c.revision;
  }

  -- `ledger.get(client_id)`, where `None` is no record
  unfoldable pub recorded : String → Fields F → Option (Value F)
  recorded id ledger = elim (entry id ledger) [ none ↦ none | some v ↦ unless_null v ]

  -- `{order.order_id: order for ...}`, put into a dictionary
  unfoldable pub by_id : List (Order F) → Dict (Order F) → Dict (Order F)
  by_id [] d = d
  by_id (o ∷ os) d = by_id os (insert o.order_id o d)

  -- the checks of `_load_submission_ledger` on the entries
  unfoldable pub check_ledger : Fields F → Result Exception (Unit {0})
  check_ledger end = ok tt
  check_ledger (field (str k) (dict _) fs) =
      let rest = check_ledger fs in if is_blank (strip k) then err state_persistence_error else rest
  check_ledger (field _ _ fs) = err state_persistence_error

  -- `{**a, **b}`
  unfoldable pub merge : List (String × Value F) → Fields F → Fields F
  merge [] fs = fs
  merge ((k, v) ∷ rest) fs = merge rest (set_field k v fs)

  abbrev pub is_empty_ledger : Fields F → Bool
  is_empty_ledger end = true
  is_empty_ledger (field _ _ _) = false

module _ {F S : Type 0} ⦃fl : Float F⦄ (st : SnapshotStore F S) where
  -- `_load_submission_ledger`
  unfoldable pub load_submission_ledger : S → Result Exception (Fields F) × S
  unfolding check_ledger
  load_submission_ledger = do
    v ← st.load_attempts
    fs ← lift (object_of (if is_truthy v then v else dict end))
    lift (check_ledger fs)
    pure fs

module _ {F B S : Type 0} (st : SnapshotStore F S) where
  -- what a save leaves in the session
  unfoldable pub persisted :
      Session F B S
      → Result Exception (ExecutionSnapshot F) × S
      → Result Exception (Unit {0}) × Session F B S
  persisted s (err e, store) = (err e, record s { store = store })
  persisted s (ok snap, store) = (
    ok tt,
    record s {
      store = store;
      context = record {
        positions = snap.positions;
        orders = snap.orders;
        metadata = snap.metadata;
        revision = some snap.revision;
      };
    },
  )

  -- `_persist_submission_state`
  unfoldable pub persist : Exec (Session F B S) (Unit {0})
  unfolding persisted request_of
  persist s = persisted s (st.save (request_of s.ledger s.context) s.store)

module _ {F B S : Type 0} where
  -- `_remember_snapshot_order`
  unfoldable pub remember : Order F → Exec (Session F B S) (Unit {0})
  unfolding by_id
  remember o s = (
    ok tt,
    record s {
      context = record s.context {
        orders = values (insert o.order_id o (by_id s.context.orders []));
      };
    },
  )

  -- `ledger[client_id] = record`
  unfoldable pub note : String → Fields F → Exec (Session F B S) (Unit {0})
  note id fs s = (ok tt, record s { ledger = set_field id (dict fs) s.ledger })
