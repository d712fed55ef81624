-- ===== src/Execution/StatePersistence/Durable.antt =====
-- quantcortex/execution/state_persistence.py: what a write of the snapshot leaves in the store.
use quantcortex.Prelude.{◌≡◌, refl, true, Option, none, some, String, sym, ap, subst, ◌∙◌, arith}
use quantcortex.Prelude.Result.{ok}
use quantcortex.Python.Dict.{Dict, lookup, lookup-insert_self, insert}
use quantcortex.Python.Fields.{
  is_json, is_json_fields, entry, set_field, entry-set_field, set_field-IsJson,
}
use quantcortex.Python.Float.{Float}
use quantcortex.Python.Value.{Value, dict, Fields}
use quantcortex.Execution.StatePersistence.Codec.{IsCodec}
use quantcortex.Execution.StatePersistence.Store.{
  Backend, redis, file, Io, works, unreadable, unwritable, cut_short, unreplaced, unsynced,
  contended, Setup, stored, reading, read_file, write_file, write_temp, replace_target, sync_folder,
  replace_file, commit, redis_key,
}
use quantcortex.Execution.StatePersistence.Save.{snapshot_key, write_snapshot, at_execute}

module _ {F : Type 0} ⦃fl : Float F⦄ where
  pub is_json-dict : (fs : Fields F) → is_json_fields fs ≡ true → is_json (dict fs) ≡ true
  unfolding is_json
  is_json-dict fs h = h

module _ {F T : Type 0} ⦃fl : Float F⦄ (st : Setup F T) where
  -- A file, where there is one, holds a JSON object.
  abbrev pub IsSound : Backend T → Type 0
  IsSound (redis d) = Unit
  IsSound (file f) = (fs : Fields F) × (read_file st f ≡ ok fs) × (is_json_fields fs ≡ true)

  -- a write that returns
  commit-ok : (io : Io) (fresh old b : Backend T) → commit io fresh old ≡ (ok tt, b) → b ≡ fresh
  unfolding commit
  commit-ok works fresh old b h = cc
  commit-ok unreadable fresh old b h = cc
  commit-ok unwritable fresh old b h = cc
  commit-ok cut_short fresh old b h = cc
  commit-ok unreplaced fresh old b h = cc
  commit-ok unsynced fresh old b h = cc
  commit-ok contended fresh old b h = cc

  -- A replacement that returns puts the text in the file.
  replace_file-ok :
      (io : Io) (t : T) (f : Option T)
      → (replace_file st io t (record { target = f; temp = none })).0 ≡ ok tt
      → (replace_file st io t (record { target = f; temp = none })).1.target ≡ some t
  unfolding replace_file write_temp replace_target sync_folder
  replace_file-ok works t f h = refl
  replace_file-ok unreadable t f h = refl
  replace_file-ok unwritable t f h = cc
  replace_file-ok cut_short t f h = cc
  replace_file-ok unreplaced t f h = cc
  replace_file-ok unsynced t f h = cc
  replace_file-ok contended t f h = refl

  pub write_file-ok :
      (io : Io) (fs : Fields F) (f : Option T) (b : Backend T)
      → IsCodec st.codec
      → is_json_fields fs ≡ true
      → write_file st io fs f ≡ (ok tt, b)
      → (g : Option T) × (b ≡ file g) × (read_file st g ≡ ok fs)
  unfolding write_file read_file
  write_file-ok io fs f b law json h =
      let (t, dumped, loaded) = law.round_trip (dict fs) (is_json-dict fs json) in
      let kept = replace_file-ok io t f (ground arith) in (some t, ground (arith, kept), cc)

  pub stored-redis :
      (k : String) (d : Dict T) (t : T) (v : Value F)
      → lookup (redis_key st k) d ≡ some t
      → st.codec.loads t ≡ ok v
      → stored st works k (redis d) ≡ ok (some v)
  unfolding stored reading
  stored-redis k d t v found loaded = cc

  pub stored-file :
      (k : String) (f : Option T) (fs : Fields F)
      → read_file st f ≡ ok fs
      → stored st works k (file f) ≡ ok (entry k fs)
  unfolding stored reading
  stored-file k f fs read = cc

  -- The store is sound and holds the snapshot.
  IsKept : Fields F → Backend T → Type 0
  IsKept payload b = (stored st works snapshot_key b ≡ ok (some (dict payload))) × IsSound b

  -- A snapshot that was written is what is read next.
  pub write_snapshot-stored :
      (io : Io) (payload : Fields F) (b b' : Backend T)
      → IsCodec st.codec
      → is_json_fields payload ≡ true
      → IsSound b
      → write_snapshot st io payload b ≡ (ok tt, b')
      → (stored st works snapshot_key b' ≡ ok (some (dict payload))) × IsSound b'
  unfolding write_snapshot IsKept
  write_snapshot-stored io payload (redis d) b' law json sound h =
      let (t, dumped, loaded) = law.round_trip (dict payload) (is_json-dict payload json) in
      let key = redis_key st snapshot_key in
      let wrote = commit-ok (at_execute io) (redis (insert key t d)) (redis d) b' cc in
      subst (IsKept payload) (sym wrote) (
        stored-redis snapshot_key (insert key t d) t (dict payload) (lookup-insert_self key t d)
            loaded,
        tt,
      )
  write_snapshot-stored io payload (file f) b' law json (fs, read, good) h =
      let new = set_field snapshot_key (dict payload) fs in
      let valid =
        set_field-IsJson snapshot_key (dict payload) fs (is_json-dict payload json) good in
      let (g, wrote, read') = write_file-ok io new f b' law valid cc in
      let kept = ap ok (entry-set_field snapshot_key snapshot_key (dict payload) fs) in
      subst (IsKept payload) (sym wrote)
        (stored-file snapshot_key g new read' ∙ kept, (new, read', valid))

  pub write_file-works :
      (fs : Fields F) (f : Option T)
      → IsCodec st.codec
      → is_json_fields fs ≡ true
      → (b : Backend T) × (write_file st works fs f ≡ (ok tt, b))
  unfolding write_file replace_file write_temp replace_target sync_folder
  write_file-works fs f law json =
      let (t, dumped, loaded) = law.round_trip (dict fs) (is_json-dict fs json) in
      (file (some t), cc)

  -- A write into a sound store that works returns.
  pub write_snapshot-works :
      (payload : Fields F) (b : Backend T)
      → IsCodec st.codec
      → is_json_fields payload ≡ true
      → IsSound b
      → (b' : Backend T) × (write_snapshot st works payload b ≡ (ok tt, b'))
  unfolding write_snapshot commit
  write_snapshot-works payload (redis d) law json sound =
      let (t, dumped, loaded) = law.round_trip (dict payload) (is_json-dict payload json) in
      (redis (insert (redis_key st snapshot_key) t d), cc)
  write_snapshot-works payload (file f) law json (fs, read, good) =
      let new = set_field snapshot_key (dict payload) fs in
      let valid =
        set_field-IsJson snapshot_key (dict payload) fs (is_json-dict payload json) good in
      let (b', wrote) = write_file-works new f law valid in (b', cc)
