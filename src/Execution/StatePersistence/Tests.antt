-- ===== src/Execution/StatePersistence/Tests.antt =====
-- quantcortex/execution/state_persistence.py on one order and one position, in fixed-point numbers.
use quantcortex.Prelude.{ℕ, suc, ◌*◌, ◌^◌, String, ◌≡◌, refl, true, none, some, List, [], ◌∷◌, map}
use quantcortex.Prelude.Int.{pos, ◌+ℤ◌, ◌-ℤ◌}
use quantcortex.Prelude.Result.{ok, err}
use quantcortex.Python.Dict.{lookup}
use quantcortex.Python.Exception.{Exception, state_persistence_error}
use quantcortex.Python.Fields.{is_json, set_field, entry, is_key, is_fresh}
use quantcortex.Python.Float.Ticks.{Tick, fin, ticks, ticks-IsFloat}
use quantcortex.Python.Text.{strip}
use quantcortex.Python.Value.{Value, null, str, int, dict, end, field}
use quantcortex.Execution.Brokers.Base.{Position}
use quantcortex.Execution.OrderManager.Status.{
  new, submitted, partially_filled, buy, market, allowed,
}
use quantcortex.Execution.OrderManager.Order.{Order, validate}
use quantcortex.Execution.OrderManager.Validity.{IsValid, validate_sound}
use quantcortex.Execution.StatePersistence.Codec.{plain, plain-IsCodec}
use quantcortex.Execution.StatePersistence.Orders.{
  deserialise_order, serialise_order, seen, has_duplicates,
}
use quantcortex.Execution.StatePersistence.OrderRoundTrip.{deserialise_order-serialise_order}
use quantcortex.Execution.StatePersistence.PositionRoundTrip.{IsPosition}
use quantcortex.Execution.StatePersistence.Durable.{IsSound}
use quantcortex.Execution.StatePersistence.Failure.{AllOrNothing, save_state-AllOrNothing}
use quantcortex.Execution.StatePersistence.KeyValue.{
  Call, save, load, delete, Model, perform_all, replies, Holds,
}
use quantcortex.Execution.StatePersistence.Refinement.{perform_all-replies}
use quantcortex.Execution.StatePersistence.SavedState.{State, IsState, request, snapshot_of}
use quantcortex.Execution.StatePersistence.Reload.{save-load, no_lost_update}
use quantcortex.Execution.StatePersistence.Revisions.{revision_of, expected_value}
use quantcortex.Execution.StatePersistence.Save.{save_execution_snapshot, load_execution_snapshot}
use quantcortex.Execution.StatePersistence.Snapshot.{snapshot_revision}
use quantcortex.Execution.StatePersistence.Store.{
  Backend, redis, file, works, cut_short, Setup, edit_file, put_payload, read_file, write_file,
  write_temp, replace_target, sync_folder, replace_file, stored, reading, save_state, save_payload,
  state_key,
}
use quantcortex.Execution.StatePersistence.Writers.{
  save_execution_snapshot-ok, save_execution_snapshot-stale,
}

abbrev units : ℕ → Tick
units n = fin (pos (n * 10 ^ 12))

abbrev bought : Order Tick
bought = record {
  order_id = "a-1";
  symbol = "SPY";
  side = buy;
  quantity = units 10;
  order_type = market;
  limit_price = none;
  status = partially_filled;
  filled_quantity = units 4;
  avg_fill_price = some (units 400);
  reject_reason = null;
  history = new ∷ submitted ∷ partially_filled ∷ [];
}

bought-IsValid : IsValid bought
unfolding validate allowed strip ◌+ℤ◌ ◌-ℤ◌
bought-IsValid = validate_sound bought refl

deserialise_order-serialise_order_example :
    deserialise_order (dict (serialise_order bought)) ≡ ok bought
unfolding strip
deserialise_order-serialise_order_example =
    deserialise_order-serialise_order ticks-IsFloat bought bought-IsValid (refl, refl)

abbrev held : Position Tick
held = record {
  symbol = "SPY";
  quantity = units 4;
  avg_price = units 400;
  market_price = units 410;
}

held-IsPosition : IsPosition held
unfolding strip
held-IsPosition = record {
  stripped = refl;
  named = refl;
  finite_quantity = refl;
  finite_average = refl;
  finite_market = refl;
  average_nonneg = refl;
  market_nonneg = refl;
}

abbrev state : State Tick
state = record { book = held ∷ []; orders = bought ∷ []; intents = end; metadata = end }

state-IsState : IsState state
unfolding strip is_json has_duplicates seen
state-IsState = record {
  positions = (held-IsPosition, tt);
  one_each = refl;
  orders = ((bought-IsValid, (refl, refl), refl), tt);
  distinct = refl;
  intents = refl;
  metadata = refl;
}

abbrev setup : Setup Tick (Value Tick)
setup = record {
  codec = plain;
  calendar = record { has_timezone = λ _. some true };
  namespace = "qc";
  cut = λ t. t;
}

abbrev now : String
now = "2024-01-02T22:00:00+00:00"

abbrev nothing_stored : Backend (Value Tick)
nothing_stored = redis []

nothing-IsSound : IsSound setup nothing_stored
nothing-IsSound = tt

revision_of-nothing : revision_of setup nothing_stored ≡ ok 0
unfolding revision_of stored lookup reading snapshot_revision
revision_of-nothing = refl

abbrev Saved : Type 0
Saved =
    (b' : Backend (Value Tick)) × (save_execution_snapshot setup works now (request 0 state)
        nothing_stored
      ≡ (ok (snapshot_of now 0 state), b'))
    × (load_execution_snapshot setup works b' ≡ (ok (some (snapshot_of now 0 state)), b'))
    × (revision_of setup b' ≡ ok 1)
    × IsSound setup b'

save-load_example : Saved
save-load_example =
    save-load setup ticks-IsFloat plain-IsCodec now 0 state nothing_stored refl state-IsState
      nothing-IsSound revision_of-nothing

first_save : Saved
first_save =
    save-load setup ticks-IsFloat plain-IsCodec now 0 state nothing_stored refl state-IsState
      nothing-IsSound revision_of-nothing

save_execution_snapshot-ok_example :
    (r : ℕ) × (revision_of setup nothing_stored ≡ ok r)
    × ((request 0 state).expected_revision ≡ expected_value r)
    × ((snapshot_of now 0 state).revision ≡ suc r)
save_execution_snapshot-ok_example =
    save_execution_snapshot-ok setup works now (request 0 state) nothing_stored first_save.0
      (snapshot_of now 0 state) first_save.1

save_execution_snapshot-stale_example :
    (e : Exception) × (save_execution_snapshot setup works now (request 1 state) nothing_stored
      ≡ (err e, nothing_stored))
save_execution_snapshot-stale_example =
    save_execution_snapshot-stale setup works now (request 1 state) nothing_stored 0
      revision_of-nothing (λ h. cc)

no_lost_update_example :
    (e : Exception) × (save_execution_snapshot setup works now (request 0 state) first_save.0
      ≡ (err e, first_save.0))
no_lost_update_example =
    no_lost_update setup works works now now 0 state (request 0 state) nothing_stored first_save.0
      (snapshot_of now 0 state) plain-IsCodec state-IsState nothing-IsSound first_save.1 refl

abbrev calls : List (Call Tick)
calls = save "k" (int (pos 7)) ∷ load " k" null ∷ delete "k" ∷ load "k" (str "gone") ∷ []

abbrev no_entries : Model Tick
no_entries _ = none

no_entries-Holds : Holds setup nothing_stored no_entries
unfolding lookup
no_entries-Holds = λ k. tt

perform_all-replies_example :
    (perform_all setup calls nothing_stored).0 ≡ map (λ v. ok v) (replies calls no_entries)
unfolding strip is_json
perform_all-replies_example =
    perform_all-replies setup calls no_entries nothing_stored plain-IsCodec
      ((refl, refl), (refl, (refl, (refl, tt)))) no_entries-Holds

calls-replies : replies calls no_entries ≡ null ∷ int (pos 7) ∷ null ∷ str "gone" ∷ []
unfolding replies strip
calls-replies = refl

-- The write of the temporary file is cut short: the file stays.
abbrev old_file : Backend (Value Tick)
old_file = file (some (dict (field (str "k") (str "old") end)))

save_state-AllOrNothing_example :
    AllOrNothing old_file old_file (save_state setup works (str "k") null old_file)
unfolding save_state save_payload state_key edit_file reading read_file put_payload write_file
    replace_file write_temp replace_target sync_folder strip is_json plain set_field is_key is_fresh
    entry
save_state-AllOrNothing_example =
    save_state-AllOrNothing setup cut_short (str "k") null old_file old_file state_persistence_error
      refl
