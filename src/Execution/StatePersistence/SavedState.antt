-- ===== src/Execution/StatePersistence/SavedState.antt =====
-- quantcortex/execution/state_persistence.py: an execution state, the arguments that save it, and the
-- snapshot that is read from its payload.
use quantcortex.Prelude.{ℕ, zero, suc, String, ◌≡◌, refl, true, false, some, List, map, All}
use quantcortex.Prelude.Int.{pos}
use quantcortex.Prelude.Result.{ok}
use quantcortex.Python.Fields.{is_json, is_json_fields, entry, is_key, is_fresh}
use quantcortex.Python.Float.{Float, IsFloat}
use quantcortex.Python.Value.{int, dict, Fields}
use quantcortex.Execution.Brokers.Base.{Position}
use quantcortex.Execution.OrderManager.Order.{Order}
use quantcortex.Execution.StatePersistence.JsonSafe.{
  IsKeepable, order_items, order_ids, deserialise_orders-order_items, order_items-IsJson,
}
use quantcortex.Execution.StatePersistence.Orders.{order, has_duplicates}
use quantcortex.Execution.StatePersistence.PositionRoundTrip.{
  IsPosition, book_argument, book_payload, book_of, symbols_of, deserialise_positions-book,
  book_payload-IsJson,
}
use quantcortex.Execution.StatePersistence.Revisions.{expected_at, expected_value}
use quantcortex.Execution.StatePersistence.Save.{Request, Prepared, expected_of, snapshot_fields}
use quantcortex.Execution.StatePersistence.Snapshot.{
  Calendar, ExecutionSnapshot, deserialise_snapshot, read_snapshot, snapshot_revision, equals_one,
  check_time, replace_z,
}

-- An execution state: the positions, the orders, and what goes with them.
pub record State (F : Type 0) : Type 0 where
  pub book : List (Position F)
  pub orders : List (Order F)
  pub intents : Fields F
  pub metadata : Fields F

module _ {F : Type 0} where
  -- the arguments that save it over a revision, what is made of them, and the snapshot
  abbrev pub request : ℕ → State F → Request F
  request r s = record {
    positions = some (book_argument s.book);
    orders = some (map order s.orders);
    intents = dict s.intents;
    metadata = dict s.metadata;
    expected_revision = expected_value r;
  }

  abbrev pub prepared : ℕ → State F → Prepared F
  prepared r s = record {
    expected = expected_at r;
    positions = book_payload s.book;
    orders = order_items s.orders;
    intents = dict s.intents;
    metadata = dict s.metadata;
  }

  abbrev pub snapshot_of : String → ℕ → State F → ExecutionSnapshot F
  snapshot_of now r s = record {
    schema_version = int (pos 1);
    revision = suc r;
    updated_at = now;
    positions = book_of s.book;
    orders = s.orders;
    intents = s.intents;
    metadata = s.metadata;
  }

pub expected_of-expected_value :
    (F : Type 0) (r : ℕ) → expected_of {F = F} (expected_value r) ≡ ok (expected_at r)
unfolding expected_of
expected_of-expected_value F zero = refl
expected_of-expected_value F (suc r) = refl

check_time-aware :
    (cal : Calendar) (now : String)
    → cal.has_timezone (replace_z now) ≡ some true
    → check_time cal now ≡ ok tt
unfolding check_time
check_time-aware cal now h = cc

module _ {F : Type 0} ⦃fl : Float F⦄ where
  -- A state that the store keeps as it is.
  pub record IsState (s : State F) : Type 0 where
    pub positions : All IsPosition s.book
    pub one_each : has_duplicates (symbols_of s.book) ≡ false
    pub orders : All IsKeepable s.orders
    pub distinct : has_duplicates (order_ids s.orders) ≡ false
    pub intents : is_json_fields s.intents ≡ true
    pub metadata : is_json_fields s.metadata ≡ true

  pub snapshot_fields-IsJson :
      (now : String) (r : ℕ) (s : State F)
      → IsState s
      → is_json_fields (snapshot_fields now r (prepared r s)) ≡ true
  unfolding snapshot_fields is_json is_fresh entry is_key
  snapshot_fields-IsJson now r s v =
      rw (book_payload-IsJson s.book v.positions v.one_each)
        (rw (order_items-IsJson s.orders v.orders) (rw v.intents (rw v.metadata refl)))

  pub deserialise_snapshot-snapshot_fields :
      IsFloat fl
      → (cal : Calendar) (now : String) (r : ℕ) (s : State F) → IsState s
      → cal.has_timezone (replace_z now) ≡ some true
      → deserialise_snapshot cal (dict (snapshot_fields now r (prepared r s)))
        ≡ ok (snapshot_of now r s)
  unfolding deserialise_snapshot snapshot_fields read_snapshot snapshot_revision equals_one entry
      is_key
  deserialise_snapshot-snapshot_fields law cal now r s v time = rw (check_time-aware cal now time) (
      rw (deserialise_positions-book s.book v.positions v.one_each)
        (rw (deserialise_orders-order_items law s.orders v.orders v.distinct) refl))
