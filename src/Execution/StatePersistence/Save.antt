-- ===== src/Execution/StatePersistence/Save.antt =====
-- quantcortex/execution/state_persistence.py: `load_execution_snapshot` and
-- `save_execution_snapshot`, which replaces the snapshot of the revision that the caller expects.
use quantcortex.Prelude.{ℕ, suc, String, Option, none, some, List, [], ◌∷◌}
use quantcortex.Prelude.Int.{pos}
use quantcortex.Prelude.Result.{Result, ok, err, ◌>>=◌, ◌>>◌}
use quantcortex.Python.Dict.{Dict, insert}
use quantcortex.Python.Exception.{Exception, state_persistence_error, Exec}
use quantcortex.Python.Fields.{set_field}
use quantcortex.Python.Float.{Float}
use quantcortex.Python.Value.{Value, null, int, str, list, dict, Items, Fields, end}
use quantcortex.Execution.StatePersistence.Codec.{object_of, or_persistence_error}
use quantcortex.Execution.StatePersistence.Orders.{OrderLike, fields, serialise_orders}
use quantcortex.Execution.StatePersistence.Positions.{PositionLike, serialise_positions}
use quantcortex.Execution.StatePersistence.Snapshot.{
  ExecutionSnapshot, positive_int, snapshot_revision, assert_snapshot_revision,
  deserialise_snapshot,
}
use quantcortex.Execution.StatePersistence.Store.{
  Backend, redis, file, Io, contended, unwritable, Setup, commit, redis_key, stored, write_file,
  read_file,
}

-- The arguments of `save_execution_snapshot`.
pub record Request (F : Type 0) : Type 0 where
  pub positions : Option (List (Value F × PositionLike F))
  pub orders : Option (List (OrderLike F))
  pub intents : Value F
  pub metadata : Value F
  pub expected_revision : Value F

-- What `save_execution_snapshot` has made of them before it reads the store.
pub record Prepared (F : Type 0) : Type 0 where
  pub expected : Option ℕ
  pub positions : Dict (Value F)
  pub orders : Items F
  pub intents : Value F
  pub metadata : Value F

-- "execution_snapshot"
abbrev pub snapshot_key : String
snapshot_key = "execution_snapshot"

module _ {F : Type 0} where
  -- `None`, or a positive `int`
  unfoldable pub expected_of : Value F → Result Exception (Option ℕ)
  expected_of null = ok none
  expected_of v = do n ← positive_int v; ok (some n)

  -- `{} if intents is None else intents`, a `dict`
  abbrev pub mapping_or_empty : Value F → Result Exception (Fields F)
  mapping_or_empty null = ok end
  mapping_or_empty v = object_of v

  -- the payload that `build` returns
  unfoldable pub snapshot_fields : String → ℕ → Prepared F → Fields F
  snapshot_fields now revision p = fields (
      ("schema_version", int (pos 1))
      ∷ ("revision", int (pos (suc revision)))
      ∷ ("updated_at", str now)
      ∷ ("positions", dict (fields p.positions))
      ∷ ("orders", list p.orders)
      ∷ ("intents", p.intents)
      ∷ ("metadata", p.metadata)
      ∷ [])

  -- `build`
  unfoldable pub build : String → Prepared F → Value F → Result Exception (Fields F)
  unfolding snapshot_fields
  build now p current = do
    revision ← snapshot_revision current
    assert_snapshot_revision revision p.expected
    ok (snapshot_fields now revision p)

  -- `store.get(state_key)`
  abbrev pub or_null : Option (Value F) → Value F
  or_null none = null
  or_null (some v) = v

-- the outcome of a write, with what to return
abbrev pub returning : {S A : Type 0} → A → Result Exception (Unit {0}) × S → Result Exception A × S
returning a (ok _, s) = (ok a, s)
returning a (err e, s) = (err e, s)

-- `pipeline.execute` raises `WatchError` where the key has changed since `watch`.
abbrev pub at_execute : Io → Io
at_execute contended = unwritable
at_execute io = io

module _ {F T : Type 0} ⦃fl : Float F⦄ (st : Setup F T) where
  -- `json.loads(json.dumps(v))`
  unfoldable pub json_copy : Value F → Result Exception (Value F)
  json_copy v = or_persistence_error (do t ← st.codec.dumps v; st.codec.loads t)

  -- `save_execution_snapshot` up to `build`
  unfoldable pub prepare : Request F → Result Exception (Prepared F)
  unfolding expected_of json_copy
  prepare req = do
    expected ← expected_of req.expected_revision
    positions ← serialise_positions req.positions
    orders ← serialise_orders req.orders
    intents ← mapping_or_empty req.intents
    metadata ← mapping_or_empty req.metadata
    safe_intents ← json_copy (dict intents)
    safe_metadata ← json_copy (dict metadata)
    ok (record {
      expected = expected;
      positions = positions;
      orders = orders;
      intents = safe_intents;
      metadata = safe_metadata;
    })

  -- the file or Redis with the payload for a snapshot
  unfoldable pub write_snapshot :
      Io → Fields F → Backend T → Result Exception (Unit {0}) × Backend T
  unfolding commit redis_key read_file write_file
  write_snapshot io payload (redis d) = elim (st.codec.dumps (dict payload)) [
    | err _ ↦ (err state_persistence_error, redis d)
    | ok t ↦ commit (at_execute io) (redis (insert (redis_key st snapshot_key) t d)) (redis d)
  ]
  write_snapshot io payload (file f) = elim (read_file st f) [
    | err e ↦ (err e, file f)
    | ok fs ↦ write_file st io (set_field snapshot_key (dict payload) fs) f
  ]

  -- `save_execution_snapshot` from its read on
  unfoldable pub replace : Io → String → Prepared F → Exec (Backend T) (Fields F)
  unfolding build write_snapshot stored
  replace io now p b = elim (stored st io snapshot_key b) [
    | err e ↦ (err e, b)
    | ok found ↦ elim (build now p (or_null found)) [
      | err e ↦ (err e, b)
      | ok payload ↦ returning payload (write_snapshot io payload b)
    ]
  ]

  -- the snapshot of the payload that was written
  abbrev pub rehydrated :
      Result Exception (Fields F) × Backend T → Result Exception (ExecutionSnapshot F) × Backend T
  rehydrated (ok payload, b) = (deserialise_snapshot st.calendar (dict payload), b)
  rehydrated (err e, b) = (err e, b)

  -- `save_execution_snapshot`, at a time of the clock
  unfoldable pub save_execution_snapshot :
      Io → String → Request F → Exec (Backend T) (ExecutionSnapshot F)
  unfolding prepare replace
  save_execution_snapshot io now req b = elim (prepare req) [
    | err e ↦ (err e, b)
    | ok p ↦ rehydrated (replace io now p b)
  ]

  -- `load_execution_snapshot`
  unfoldable pub load_execution_snapshot : Io → Exec (Backend T) (Option (ExecutionSnapshot F))
  unfolding stored
  load_execution_snapshot io b = elim (stored st io snapshot_key b) [
    | err e ↦ (err e, b)
    | ok none ↦ (ok none, b)
    | ok (some null) ↦ (ok none, b)
    | ok (some v) ↦ elim (deserialise_snapshot st.calendar v) [
      | err e ↦ (err e, b)
      | ok snapshot ↦ (ok (some snapshot), b)
    ]
  ]
