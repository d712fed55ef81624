-- ===== src/Execution/StatePersistence/Reload.antt =====
-- quantcortex/execution/state_persistence.py: an execution state that is saved is loaded again, and
-- two writers cannot both replace the same snapshot.
use quantcortex.Prelude.{ℕ, suc, String, ◌≡◌, refl, sym, ap, subst, ◌∙◌, true, some}
use quantcortex.Prelude.Result.{ok, err, bind-ok}
use quantcortex.Python.Exception.{Exception}
use quantcortex.Python.Fields.{is_json, is_json_fields}
use quantcortex.Python.Float.{Float, IsFloat}
use quantcortex.Python.Value.{Value, dict, Fields}
use quantcortex.Execution.StatePersistence.Codec.{IsCodec}
use quantcortex.Execution.StatePersistence.Durable.{
  IsSound, write_snapshot-stored, is_json-dict, write_snapshot-works,
}
use quantcortex.Execution.StatePersistence.JsonSafe.{serialise_orders-orders}
use quantcortex.Execution.StatePersistence.PositionRoundTrip.{serialise_positions-book}
use quantcortex.Execution.StatePersistence.Revisions.{
  revision_of, replace-ok, snapshot_fields-revision, assert_snapshot_revision-expected,
  expected_at-injective, expected_value-step,
}
use quantcortex.Execution.StatePersistence.Save.{
  Request, Prepared, snapshot_key, build, or_null, replace, prepare, snapshot_fields,
  save_execution_snapshot, load_execution_snapshot, write_snapshot, json_copy,
}
use quantcortex.Execution.StatePersistence.Snapshot.{
  ExecutionSnapshot, deserialise_snapshot, snapshot_revision, replace_z,
}
use quantcortex.Execution.StatePersistence.Store.{Backend, Io, works, Setup, stored}
use quantcortex.Execution.StatePersistence.Writers.{saved-parts, save_execution_snapshot-stale}
use quantcortex.Execution.StatePersistence.SavedState.{
  State, IsState, request, prepared, snapshot_of, expected_of-expected_value,
  snapshot_fields-IsJson, deserialise_snapshot-snapshot_fields,
}

module _ {F T : Type 0} ⦃fl : Float F⦄ (st : Setup F T) where
  json_copy-IsJson : (v : Value F) → IsCodec st.codec → is_json v ≡ true → json_copy st v ≡ ok v
  unfolding json_copy
  json_copy-IsJson v law h =
      let (t, dumped, loaded) = law.round_trip v h in rw dumped (rw loaded refl)

  prepare-request :
      IsCodec st.codec
      → (r : ℕ) (s : State F) → IsState s
      → prepare st (request r s) ≡ ok (prepared r s)
  unfolding prepare
  prepare-request law r s v = rw (expected_of-expected_value F r) (
      rw (serialise_positions-book s.book v.positions v.one_each) (
        rw (serialise_orders-orders s.orders v.orders v.distinct) (
          rw (json_copy-IsJson (dict s.intents) law (is_json-dict s.intents v.intents)) (
            rw (json_copy-IsJson (dict s.metadata) law (is_json-dict s.metadata v.metadata))
              refl))))

  -- what stands in a store that holds a snapshot
  revision-of_stored :
      (b : Backend T) (now : String) (r : ℕ) (p : Prepared F)
      → stored st works snapshot_key b ≡ ok (some (dict (snapshot_fields now r p)))
      → revision_of st b ≡ ok (suc r)
  unfolding revision_of
  revision-of_stored b now r p h = rw h (snapshot_fields-revision now r p)

  load-of_stored :
      (b : Backend T) (payload : Fields F) (snap : ExecutionSnapshot F)
      → stored st works snapshot_key b ≡ ok (some (dict payload))
      → deserialise_snapshot st.calendar (dict payload) ≡ ok snap
      → load_execution_snapshot st works b ≡ (ok (some snap), b)
  unfolding load_execution_snapshot
  load-of_stored b payload snap h read = cc

  build-expected :
      (now : String) (r : ℕ) (s : State F) (current : Value F)
      → snapshot_revision current ≡ ok r
      → build now (prepared r s) current ≡ ok (snapshot_fields now r (prepared r s))
  unfolding build
  build-expected now r s current h = rw h (rw (assert_snapshot_revision-expected r) refl)

  -- the step from a read of the store to a write that works
  replace-works :
      (now : String) (r : ℕ) (s : State F) (b b' : Backend T)
      → revision_of st b ≡ ok r
      → write_snapshot st works (snapshot_fields now r (prepared r s)) b ≡ (ok tt, b')
      → replace st works now (prepared r s) b ≡ (ok (snapshot_fields now r (prepared r s)), b')
  unfolding replace revision_of
  replace-works now r s b b' current wrote =
      let (found, read, revision) = bind-ok (stored st works snapshot_key b) _ current in
      let built = build-expected now r s (or_null found) revision in cc

  -- Where the codec reads back what it writes, the clock's text has a time zone, the calls of Redis
  -- or the file system work and the file, if there is one, holds a JSON object: a save that expects
  -- the revision that stands returns the snapshot of the next revision, and a load from the store
  -- that it leaves returns the same snapshot, with the positions, the orders, the intents and the
  -- metadata as they were given. The positions and orders are valid and distinct, with stripped
  -- texts, and all of the state can stand in JSON.
  pub save-load :
      IsFloat fl
      → IsCodec st.codec
      → (now : String) (r : ℕ) (s : State F) (b : Backend T)
      → st.calendar.has_timezone (replace_z now) ≡ some true
      → IsState s
      → IsSound st b
      → revision_of st b ≡ ok r
      → (b' : Backend T) × (save_execution_snapshot st works now (request r s) b
          ≡ (ok (snapshot_of now r s), b'))
        × (load_execution_snapshot st works b' ≡ (ok (some (snapshot_of now r s)), b'))
        × (revision_of st b' ≡ ok (suc r))
        × IsSound st b'
  unfolding save_execution_snapshot
  save-load law codec now r s b time v sound current =
      let payload = snapshot_fields now r (prepared r s) in
      let json = snapshot_fields-IsJson now r s v in
      let (b', wrote) = write_snapshot-works st payload b codec json sound in
      let (kept, sound') = write_snapshot-stored st works payload b b' codec json sound wrote in
      let read = deserialise_snapshot-snapshot_fields law st.calendar now r s v time in
      let made = prepare-request codec r s v in
      let replaced = replace-works now r s b b' current wrote in
      (
        b',
        cc,
        load-of_stored b' payload (snapshot_of now r s) kept read,
        revision-of_stored b' now r (prepared r s) kept,
        sound',
      )

  -- the revision that a save leaves
  saved_revision :
      (io : Io) (now : String) (r : ℕ) (s : State F) (b b' : Backend T) (snap : ExecutionSnapshot F)
      → IsCodec st.codec
      → IsState s
      → IsSound st b
      → save_execution_snapshot st io now (request r s) b ≡ (ok snap, b')
      → revision_of st b' ≡ ok (suc r)
  saved_revision io now r s b b' snap codec v sound h =
      let (p, payload, made, replaced, _) = saved-parts st io now (request r s) b b' snap h in
      let (r', _, expected, same, wrote) = replace-ok st io now p b b' payload replaced in
      let same_p : p ≡ prepared r s = let made' = prepare-request codec r s v in cc in
      let same_r = expected_at-injective r r' (ap (λ q. q.expected) (sym same_p) ∙ expected) in
      let equal : payload ≡ snapshot_fields now r (prepared r s) = cc in
      let json =
        subst (λ z. is_json_fields z ≡ true) (sym equal) (snapshot_fields-IsJson now r s v) in
      let (kept, _) = write_snapshot-stored st io payload b b' codec json sound wrote in
      revision-of_stored b' now r (prepared r s) (kept ∙ ap (λ z. ok (some (dict z))) equal)

  -- Two writers that expect the same revision: once the first one's save of a state that the store
  -- keeps has returned, on a sound store with a lawful codec, the second one's save raises, whatever
  -- it writes and whatever befalls its calls, and leaves the store as it found it.
  pub no_lost_update :
      (io io' : Io) (now now' : String) (r : ℕ) (s : State F) (req : Request F) (b b' : Backend T)
      (snap : ExecutionSnapshot F)
      → IsCodec st.codec
      → IsState s
      → IsSound st b
      → save_execution_snapshot st io now (request r s) b ≡ (ok snap, b')
      → req.expected_revision ≡ (request r s).expected_revision
      → (e : Exception) × (save_execution_snapshot st io' now' req b' ≡ (err e, b'))
  no_lost_update io io' now now' r s req b b' snap codec v sound h same =
      save_execution_snapshot-stale st io' now' req b' (suc r)
        (saved_revision io now r s b b' snap codec v sound h)
        (λ equal. expected_value-step F r (sym same ∙ equal))
