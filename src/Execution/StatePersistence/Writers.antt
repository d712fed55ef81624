-- ===== src/Execution/StatePersistence/Writers.antt =====
-- quantcortex/execution/state_persistence.py: `save_execution_snapshot` with several writers.
use quantcortex.Prelude.{ℕ, suc, String, ◌≡◌, ◌≢◌, inl, inr, ap, ◌∙◌}
use quantcortex.Prelude.Result.{Result, ok, err, Result-cases, bind-ok}
use quantcortex.Python.Exception.{Exception}
use quantcortex.Python.Float.{Float}
use quantcortex.Python.Value.{dict, Fields}
use quantcortex.Execution.StatePersistence.Orders.{serialise_orders}
use quantcortex.Execution.StatePersistence.Positions.{serialise_positions}
use quantcortex.Execution.StatePersistence.Snapshot.{ExecutionSnapshot, deserialise_snapshot}
use quantcortex.Execution.StatePersistence.Store.{Backend, Io, Setup, stored}
use quantcortex.Execution.StatePersistence.Save.{
  Request, Prepared, snapshot_key, expected_of, build, or_null, replace, prepare,
  save_execution_snapshot, rehydrated, json_copy, mapping_or_empty,
}
use quantcortex.Execution.StatePersistence.Revisions.{
  expected_at, expected_value, expected_of-ok, revision_of, replace-ok, build-ok, stored-works,
  deserialise_snapshot-revision, snapshot_fields-revision,
}

module _ {F T : Type 0} ⦃fl : Float F⦄ (st : Setup F T) where
  prepare-expected :
      (req : Request F) (p : Prepared F)
      → prepare st req ≡ ok p
      → expected_of req.expected_revision ≡ ok p.expected
  unfolding prepare
  prepare-expected req p h =
      let (e, expected, h₁) = bind-ok (expected_of req.expected_revision) _ h in
      let (_, _, h₂) = bind-ok (serialise_positions req.positions) _ h₁ in
      let (_, _, h₃) = bind-ok (serialise_orders req.orders) _ h₂ in
      let (intents, _, h₄) = bind-ok (mapping_or_empty req.intents) _ h₃ in
      let (metadata, _, h₅) = bind-ok (mapping_or_empty req.metadata) _ h₄ in
      let (_, _, h₆) = bind-ok (json_copy st (dict intents)) _ h₅ in
      let (_, _, h₇) = bind-ok (json_copy st (dict metadata)) _ h₆ in cc

  rehydrated-ok :
      (w : Result Exception (Fields F) × Backend T) (b : Backend T) (snap : ExecutionSnapshot F)
      → rehydrated st w ≡ (ok snap, b)
      → (payload : Fields F) × (w ≡ (ok payload, b))
        × (deserialise_snapshot st.calendar (dict payload) ≡ ok snap)
  rehydrated-ok (ok payload, b') b snap h = (payload, cc, cc)
  rehydrated-ok (err e, b') b snap h = cc

  pub saved-parts :
      (io : Io) (now : String) (req : Request F) (b b' : Backend T) (snap : ExecutionSnapshot F)
      → save_execution_snapshot st io now req b ≡ (ok snap, b')
      → (p : Prepared F) × (payload : Fields F) × (prepare st req ≡ ok p)
        × (replace st io now p b ≡ (ok payload, b'))
        × (deserialise_snapshot st.calendar (dict payload) ≡ ok snap)
  unfolding save_execution_snapshot
  saved-parts io now req b b' snap h = elim (Result-cases (prepare st req)) [
    | inr (e, failed) ↦ cc
    | inl (p, prepared) ↦
        let (payload, replaced, read) = rehydrated-ok (replace st io now p b) b' snap cc in
        (p, payload, prepared, replaced, read)
  ]

  -- A save that returns, whatever it wrote: its caller expected the revision that stood in the store
  -- (none where there was no snapshot), and the snapshot returned has the next revision.
  pub save_execution_snapshot-ok :
      (io : Io) (now : String) (req : Request F) (b b' : Backend T) (snap : ExecutionSnapshot F)
      → save_execution_snapshot st io now req b ≡ (ok snap, b')
      → (r : ℕ) × (revision_of st b ≡ ok r)
        × (req.expected_revision ≡ expected_value r)
        × (snap.revision ≡ suc r)
  save_execution_snapshot-ok io now req b b' snap h =
      let (p, payload, prepared, replaced, read) = saved-parts io now req b b' snap h in
      let (r, current, expected, same, wrote) = replace-ok st io now p b b' payload replaced in
      (
        r,
        current,
        expected_of-ok req.expected_revision r (prepare-expected req p prepared ∙ ap ok expected),
        deserialise_snapshot-revision st st.calendar payload (suc r) snap
            (rw same (snapshot_fields-revision now r p)) read,
      )

  stale_revision :
      (req : Request F) (p : Prepared F) (b : Backend T) (r r' : ℕ)
      → revision_of st b ≡ ok r
      → prepare st req ≡ ok p
      → revision_of st b ≡ ok r'
      → p.expected ≡ expected_at r'
      → expected_of req.expected_revision ≡ ok (expected_at r)
  stale_revision req p b r r' current prepared current' expected =
      let start = prepare-expected req p prepared in cc

  -- A save whose caller expects another revision than the one that stands raises, and leaves the
  -- store as it was, whatever befalls the call.
  pub save_execution_snapshot-stale :
      (io : Io) (now : String) (req : Request F) (b : Backend T) (r : ℕ)
      → revision_of st b ≡ ok r
      → req.expected_revision ≢ expected_value r
      → (e : Exception) × (save_execution_snapshot st io now req b ≡ (err e, b))
  unfolding save_execution_snapshot replace revision_of
  save_execution_snapshot-stale io now req b r current stale =
      elim (Result-cases (prepare st req)) [
        | inr (e, failed) ↦ (e, cc)
        | inl (p, prepared) ↦ elim (Result-cases (stored st io snapshot_key b)) [
          | inr (e, failed) ↦ (e, cc)
          | inl (found, read) ↦ elim (Result-cases (build now p (or_null found))) [
            | inr (e, failed) ↦ (e, cc)
            | inl (payload, built) ↦
                let (r', current', expected, _) = build-ok now p (or_null found) payload built in
                absurd (
                  stale (
                    expected_of-ok req.expected_revision r (
                      stale_revision req p b r r' current prepared
                        (rw (stored-works st io snapshot_key b found read) current') expected)))
          ]
        ]
      ]
