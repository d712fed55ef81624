-- ===== src/Execution/StatePersistence/Store.antt =====
-- quantcortex/execution/state_persistence.py: `StatePersistence` as a store of JSON values, kept in
-- Redis or in a file. Redis and the file system are external: a store is the texts that it holds,
-- and `Io` is what befalls one call. The file's lock makes each call one step.
use Prim.Native.String.{◌++◌}
use quantcortex.Prelude.{String, Option, none, some, is_some, List, if◌then◌else◌}
use quantcortex.Prelude.Result.{Result, ok, err}
use quantcortex.Python.Dict.{Dict, lookup, insert, erase}
use quantcortex.Python.Exception.{
  Exception, value_error, state_persistence_error, Exec, lift, ◌>>=◌,
}
use quantcortex.Python.Fields.{entry, set_field, drop_field}
use quantcortex.Python.Float.{Float}
use quantcortex.Python.Objects.{is_truthy}
use quantcortex.Python.Value.{Value, str, list, dict, nil, Fields, end}
use quantcortex.Execution.Brokers.Base.{Position, symbol_or}
use quantcortex.Execution.OrderManager.Order.{Order}
use quantcortex.Execution.StatePersistence.Codec.{Codec, object_of}
use quantcortex.Execution.StatePersistence.Orders.{
  OrderLike, fields, serialise_orders, deserialise_orders,
}
use quantcortex.Execution.StatePersistence.Positions.{
  PositionLike, serialise_positions, deserialise_positions,
}
use quantcortex.Execution.StatePersistence.Snapshot.{Calendar}

-- Redis: a text for each key. File: its text, or `none` where there is no file.
pub data Backend (T : Type 0) : Type 0 where
  redis : Dict T → Backend T
  file : Option T → Backend T

-- One call's fate. `unreadable`: the read raises. `unwritable`: Redis raises before the write takes
-- effect, or no temporary file can be made. `cut_short`: the write of the temporary file, or its
-- `fsync`, raises. `unreplaced`: `os.replace` raises. `unsynced`: the write has taken effect and a
-- later call raises, the `fsync` of the folder, or the reply of Redis is lost. `contended`: another
-- client wrote a watched key.
pub data Io : Type 0 where
  works unreadable unwritable cut_short unreplaced unsynced contended : Io

-- The folder of the state file: the file, and the temporary file beside it, where they are.
pub record Folder (T : Type 0) : Type 0 where
  pub target : Option T
  pub temp : Option T

-- What a store is made with. `cut` is the file system's: what of a text is in a file when its write
-- has raised.
pub record Setup (F T : Type 0) : Type 0 where
  pub cut : T → T
  pub codec : Codec F T
  pub calendar : Calendar
  pub namespace : String

module _ {S : Type 0} where
  -- a write of Redis
  unfoldable pub commit : Io → S → S → Result Exception (Unit {0}) × S
  commit unwritable fresh old = (err state_persistence_error, old)
  commit unsynced fresh old = (err state_persistence_error, fresh)
  commit _ fresh old = (ok tt, fresh)

-- a read
unfoldable pub reading : Io → Result Exception (Unit {0})
reading unreadable = err state_persistence_error
reading _ = ok tt

-- `_state_key`
unfoldable pub state_key : {F : Type 0} → Value F → Result Exception String
state_key v = symbol_or value_error v

module _ {F T : Type 0} ⦃fl : Float F⦄ (st : Setup F T) where
  -- `_key`
  unfoldable pub redis_key : String → String
  redis_key key = st.namespace ++ (":" ++ key)

  -- `_read_file`
  unfoldable pub read_file : Option T → Result Exception (Fields F)
  read_file none = ok end
  read_file (some t) = elim (st.codec.loads t) [
    | err _ ↦ err state_persistence_error
    | ok v ↦ object_of v
  ]

  -- `tempfile.mkstemp`, and the text written and flushed to the temporary file
  unfoldable pub write_temp : Io → T → Exec (Folder T) (Unit {0})
  write_temp unwritable t d = (err state_persistence_error, d)
  write_temp cut_short t d = (err state_persistence_error, record d { temp = some (st.cut t) })
  write_temp _ t d = (ok tt, record d { temp = some t })

  -- `os.replace(tmp, self._file_path)`
  unfoldable pub replace_target : Io → Exec (Folder T) (Unit {0})
  replace_target unreplaced d = (err state_persistence_error, d)
  replace_target _ d = (ok tt, record { target = d.temp; temp = none })

  -- the `fsync` of the folder
  unfoldable pub sync_folder : Io → Exec (Folder T) (Unit {0})
  sync_folder unsynced d = (err state_persistence_error, d)
  sync_folder _ d = (ok tt, d)

  -- `except Exception`: the temporary file is removed, if it is there.
  abbrev pub cleaned_up :
      Result Exception (Unit {0}) × Folder T → Result Exception (Unit {0}) × Folder T
  cleaned_up (ok _, d) = (ok tt, d)
  cleaned_up (err e, d) = (err e, record d { temp = none })

  -- the `try` statement of `_write_file`
  unfoldable pub replace_file : Io → T → Exec (Folder T) (Unit {0})
  unfolding write_temp replace_target sync_folder
  replace_file io t d =
      cleaned_up ((write_temp io t >>= λ _. replace_target io >>= λ _. sync_folder io) d)

  -- `_write_file`; a value that cannot be dumped leaves the file, as a write that is cut short does.
  unfoldable pub write_file : Io → Fields F → Option T → Result Exception (Unit {0}) × Backend T
  unfolding replace_file
  write_file io fs old = elim (st.codec.dumps (dict fs)) [
    | err _ ↦ (err state_persistence_error, file old)
    | ok t ↦
        let (r, d) = replace_file io t (record { target = old; temp = none }) in (r, file d.target)
  ]

  -- the file with an entry changed
  unfoldable pub edit_file :
      Io
      → (Fields F → Result Exception (Fields F))
      → Option T
      → Result Exception (Unit {0}) × Backend T
  unfolding reading read_file write_file
  edit_file io change f = elim (reading io) [
    | err e ↦ (err e, file f)
    | ok _ ↦ elim (read_file f) [
      | err e ↦ (err e, file f)
      | ok fs ↦ elim (change fs) [ err e ↦ (err e, file f) | ok gs ↦ write_file io gs f ]
    ]
  ]

  -- `store[state_key] = json.loads(payload)`
  unfoldable pub put_payload : String → T → Fields F → Result Exception (Fields F)
  put_payload key payload fs = elim (st.codec.loads payload) [
    | err _ ↦ err state_persistence_error
    | ok v ↦ ok (set_field key v fs)
  ]

  -- `save_state`
  unfoldable pub save_payload : Io → String → T → Exec (Backend T) (Unit {0})
  unfolding redis_key edit_file put_payload commit
  save_payload io key payload (redis d) =
      commit io (redis (insert (redis_key key) payload d)) (redis d)
  save_payload io key payload (file f) = edit_file io (put_payload key payload) f

  unfoldable pub save_state : Io → Value F → Value F → Exec (Backend T) (Unit {0})
  unfolding state_key save_payload
  save_state io key obj = do
    k ← lift (state_key key)
    payload ← lift (st.codec.dumps obj)
    save_payload io k payload

  -- the value under a key, where there is one
  unfoldable pub stored : Io → String → Backend T → Result Exception (Option (Value F))
  unfolding reading read_file redis_key
  stored io key (redis d) = elim (reading io) [
    | err e ↦ err e
    | ok _ ↦ elim (lookup (redis_key key) d) [
      | none ↦ ok none
      | some t ↦ elim (st.codec.loads t) [
        | err _ ↦ err state_persistence_error
        | ok v ↦ ok (some v)
      ]
    ]
  ]
  stored io key (file f) = elim (reading io) [
    | err e ↦ err e
    | ok _ ↦ elim (read_file f) [ err e ↦ err e | ok fs ↦ ok (entry key fs) ]
  ]

  -- `load_state`
  unfoldable pub load_state : Io → Value F → Value F → Exec (Backend T) (Value F)
  unfolding state_key stored
  load_state io key default b = elim (state_key key) [
    | err e ↦ (err e, b)
    | ok k ↦ elim (stored io k b) [
      | err e ↦ (err e, b)
      | ok none ↦ (ok default, b)
      | ok (some v) ↦ (ok v, b)
    ]
  ]

  -- `delete_state`: a file without the key is not written.
  unfoldable pub delete_key : Io → String → Exec (Backend T) (Unit {0})
  unfolding redis_key commit reading read_file write_file
  delete_key io key (redis d) = commit io (redis (erase (redis_key key) d)) (redis d)
  delete_key io key (file f) = elim (reading io) [
    | err e ↦ (err e, file f)
    | ok _ ↦ elim (read_file f) [
      | err e ↦ (err e, file f)
      | ok fs ↦
          if is_some (entry key fs) then write_file io (drop_field key fs) f else (ok tt, file f)
    ]
  ]

  unfoldable pub delete_state : Io → Value F → Exec (Backend T) (Unit {0})
  unfolding state_key delete_key
  delete_state io key = do k ← lift (state_key key); delete_key io k

  -- `self.load_state(key, default) or default`
  abbrev pub or_default : Value F → Value F → Value F
  or_default default v = if is_truthy v then v else default

  -- `save_positions`, `load_positions`, `save_orders` and `load_orders`
  unfoldable pub save_positions :
      Io → Option (List (Value F × PositionLike F)) → Exec (Backend T) (Unit {0})
  unfolding save_state
  save_positions io positions = do
    d ← lift (serialise_positions positions)
    save_state io (str "positions") (dict (fields d))

  unfoldable pub load_positions : Io → Exec (Backend T) (Dict (Position F))
  unfolding load_state
  load_positions io = do
    v ← load_state io (str "positions") (dict end)
    lift (deserialise_positions (or_default (dict end) v))

  unfoldable pub save_orders : Io → Option (List (OrderLike F)) → Exec (Backend T) (Unit {0})
  unfolding save_state
  save_orders io orders = do
    items ← lift (serialise_orders orders)
    save_state io (str "orders") (list items)

  unfoldable pub load_orders : Io → Exec (Backend T) (List (Order F))
  unfolding load_state
  load_orders io = do
    v ← load_state io (str "orders") (list nil)
    lift (deserialise_orders (or_default (list nil) v))
