-- ===== src/Execution/StatePersistence/Snapshot.antt =====
-- quantcortex/execution/state_persistence.py: the versioned snapshot of the execution state.
use Prim.Native.Char.{code}
use Prim.Native.String.{[], ◌∷◌, ◌++◌}
use quantcortex.Prelude.{
  ℕ, zero, suc, String, Bool, false, not, Option, none, some, List, if◌then◌else◌, ◌==◌,
}
use quantcortex.Prelude.Int.{pos}
use quantcortex.Prelude.Result.{Result, ok, err, ◌>>=◌, ◌>>◌, raise_if}
use quantcortex.Python.Dict.{Dict}
use quantcortex.Python.Exception.{Exception, state_persistence_error}
use quantcortex.Python.Float.{Float, one}
use quantcortex.Python.Value.{Value, null, bool, int, num, str, list, dict, nil, Fields, end}
use quantcortex.Execution.Brokers.Base.{Position}
use quantcortex.Execution.OrderManager.Order.{Order}
use quantcortex.Execution.StatePersistence.Codec.{item_or, object_of}
use quantcortex.Execution.StatePersistence.Orders.{deserialise_orders}
use quantcortex.Execution.StatePersistence.Positions.{deserialise_positions}

pub record ExecutionSnapshot (F : Type 0) : Type 0 where
  pub schema_version : Value F
  pub revision : ℕ
  pub updated_at : String
  pub positions : Dict (Position F)
  pub orders : List (Order F)
  pub intents : Fields F
  pub metadata : Fields F

-- `datetime.fromisoformat(text)`, a library: `none` where it raises `ValueError`, and otherwise
-- whether the time has a time zone.
pub record Calendar : Type 0 where
  pub has_timezone : String → Option Bool

-- `text.replace("Z", "+00:00")`
unfoldable pub replace_z : String → String
replace_z [] = []
replace_z (c ∷ s) = let rest = replace_z s in if code c == 90 then "+00:00" ++ rest else c ∷ rest

-- `_assert_snapshot_revision`
unfoldable pub assert_snapshot_revision : ℕ → Option ℕ → Result Exception (Unit {0})
assert_snapshot_revision zero none = ok tt
assert_snapshot_revision zero (some _) = err state_persistence_error
assert_snapshot_revision (suc n) none = err state_persistence_error
assert_snapshot_revision (suc n) (some e) =
    if e == suc n then ok tt else err state_persistence_error

-- the time zone of `updated_at`
unfoldable pub check_time : Calendar → String → Result Exception (Unit {0})
unfolding replace_z
check_time cal s = elim (cal.has_timezone (replace_z s)) [
  | none ↦ err state_persistence_error
  | some aware ↦ raise_if (not aware) state_persistence_error
]

module _ {F : Type 0} where
  -- a positive `int` that is no `bool`
  abbrev pub positive_int : Value F → Result Exception ℕ
  positive_int (int (pos (suc n))) = ok (suc n)
  positive_int _ = err state_persistence_error

  -- `_snapshot_revision`; `null` is the absent snapshot.
  unfoldable pub snapshot_revision : Value F → Result Exception ℕ
  snapshot_revision null = ok 0
  snapshot_revision v = do fs ← object_of v; positive_int (item_or null "revision" fs)

  -- `isinstance(v, str)`, or `StatePersistenceError`
  abbrev pub text_of : Value F → Result Exception String
  text_of (str s) = ok s
  text_of _ = err state_persistence_error

module _ {F : Type 0} ⦃fl : Float F⦄ where
  -- `v == 1`; `True` and `1.0` equal it.
  unfoldable pub equals_one : Value F → Bool
  equals_one (int (pos n)) = n == 1
  equals_one (bool b) = b
  equals_one (num x) = fl.eq x one
  equals_one _ = false

  -- `_deserialise_snapshot` after the revision
  unfoldable pub read_snapshot :
      Calendar → Value F → ℕ → Fields F → Result Exception (ExecutionSnapshot F)
  unfolding check_time
  read_snapshot cal schema revision fs = do
    updated ← text_of (item_or null "updated_at" fs)
    check_time cal updated
    intents ← object_of (item_or (dict end) "intents" fs)
    metadata ← object_of (item_or (dict end) "metadata" fs)
    positions ← deserialise_positions (item_or (dict end) "positions" fs)
    orders ← deserialise_orders (item_or (list nil) "orders" fs)
    ok (record {
      schema_version = schema;
      revision = revision;
      updated_at = updated;
      positions = positions;
      orders = orders;
      intents = intents;
      metadata = metadata;
    })

  -- `_deserialise_snapshot`
  unfoldable pub deserialise_snapshot : Calendar → Value F → Result Exception (ExecutionSnapshot F)
  unfolding snapshot_revision equals_one read_snapshot
  deserialise_snapshot cal v = do
    fs ← object_of v
    raise_if (not (equals_one (item_or null "schema_version" fs))) state_persistence_error
    revision ← snapshot_revision v
    read_snapshot cal (item_or null "schema_version" fs) revision fs
