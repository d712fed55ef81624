-- ===== src/Execution/StatePersistence/Revisions.antt =====
-- quantcortex/execution/state_persistence.py: what the revision of a snapshot guarantees a writer.
use quantcortex.Prelude.{
  ℕ, zero, suc, String, ◌≡◌, ◌≢◌, refl, not, Option, none, some, arith, inl, inr,
}
use quantcortex.Prelude.Int.{pos}
use quantcortex.Prelude.Result.{Result, ok, err, ◌>>=◌, bind-ok, Result-cases, raise_if}
use quantcortex.Python.Exception.{Exception, state_persistence_error}
use quantcortex.Python.Fields.{entry, is_key}
use quantcortex.Python.Float.{Float}
use quantcortex.Python.Value.{Value, null, int, list, dict, nil, Fields, end}
use quantcortex.Execution.StatePersistence.Codec.{item_or, object_of}
use quantcortex.Execution.StatePersistence.Orders.{deserialise_orders}
use quantcortex.Execution.StatePersistence.Positions.{deserialise_positions}
use quantcortex.Execution.StatePersistence.Snapshot.{
  Calendar, ExecutionSnapshot, snapshot_revision, assert_snapshot_revision, read_snapshot,
  deserialise_snapshot, text_of, check_time, equals_one,
}
use quantcortex.Execution.StatePersistence.Store.{
  Backend, redis, file, Io, works, unreadable, unwritable, cut_short, unreplaced, unsynced,
  contended, Setup, stored, reading,
}
use quantcortex.Execution.StatePersistence.Save.{
  Prepared, snapshot_key, expected_of, snapshot_fields, build, or_null, replace, write_snapshot,
  returning,
}

-- The revision that a writer has to expect where a revision stands; 0 is no snapshot.
abbrev pub expected_at : ℕ → Option ℕ
expected_at zero = none
expected_at (suc n) = some (suc n)

assert_snapshot_revision-ok :
    (r : ℕ) (e : Option ℕ) → assert_snapshot_revision r e ≡ ok tt → e ≡ expected_at r
unfolding assert_snapshot_revision
assert_snapshot_revision-ok r e h = ground arith

pub assert_snapshot_revision-expected : (r : ℕ) → assert_snapshot_revision r (expected_at r) ≡ ok tt
unfolding assert_snapshot_revision
assert_snapshot_revision-expected zero = refl
assert_snapshot_revision-expected (suc r) = ground arith

pub expected_at-injective : (r q : ℕ) → expected_at r ≡ expected_at q → r ≡ q
expected_at-injective r q h = ground arith

module _ {F : Type 0} where
  -- the same as an argument
  abbrev pub expected_value : ℕ → Value F
  expected_value zero = null
  expected_value (suc n) = int (pos (suc n))

  pub expected_of-ok :
      (v : Value F) (r : ℕ) → expected_of v ≡ ok (expected_at r) → v ≡ expected_value r
  unfolding expected_of
  expected_of-ok v r h = ground arith

  pub build-ok :
      (now : String) (p : Prepared F) (current : Value F) (payload : Fields F)
      → build now p current ≡ ok payload
      → (r : ℕ) × (snapshot_revision current ≡ ok r)
        × (p.expected ≡ expected_at r)
        × (payload ≡ snapshot_fields now r p)
  unfolding build
  build-ok now p current payload h =
      let (r, read, rest) = bind-ok (snapshot_revision current) _ h in
      let (_, checked, same) = bind-ok (assert_snapshot_revision r p.expected) _ rest in
      (r, read, assert_snapshot_revision-ok r p.expected checked, cc)

  pub snapshot_fields-revision :
      (now : String) (r : ℕ) (p : Prepared F)
      → snapshot_revision (dict (snapshot_fields now r p)) ≡ ok (suc r)
  unfolding snapshot_revision snapshot_fields entry is_key
  snapshot_fields-revision now r p = refl

pub expected_value-step : (F : Type 0) (r : ℕ) → expected_value {F = F} r ≢ expected_value (suc r)
expected_value-step F zero h = cc
expected_value-step F (suc r) h = ground arith

module _ {F T : Type 0} ⦃fl : Float F⦄ (st : Setup F T) where
  -- The revision that stands in the store.
  unfoldable pub revision_of : Backend T → Result Exception ℕ
  revision_of b = do found ← stored st works snapshot_key b; snapshot_revision (or_null found)

  pub stored-works :
      (io : Io) (k : String) (b : Backend T) (v : Option (Value F))
      → stored st io k b ≡ ok v
      → stored st works k b ≡ ok v
  unfolding stored reading
  stored-works works k b v h = h
  stored-works unreadable k (redis _) v h = cc
  stored-works unreadable k (file _) v h = cc
  stored-works unwritable k (redis _) v h = h
  stored-works unwritable k (file _) v h = h
  stored-works cut_short k (redis _) v h = h
  stored-works cut_short k (file _) v h = h
  stored-works unreplaced k (redis _) v h = h
  stored-works unreplaced k (file _) v h = h
  stored-works unsynced k (redis _) v h = h
  stored-works unsynced k (file _) v h = h
  stored-works contended k (redis _) v h = h
  stored-works contended k (file _) v h = h

  read_snapshot-revision :
      (cal : Calendar) (schema : Value F) (r : ℕ) (fs : Fields F) (snap : ExecutionSnapshot F)
      → read_snapshot cal schema r fs ≡ ok snap
      → snap.revision ≡ r
  unfolding read_snapshot
  read_snapshot-revision cal schema r fs snap h =
      let (updated, _, h₁) = bind-ok (text_of (item_or null "updated_at" fs)) _ h in
      let (_, _, h₂) = bind-ok (check_time cal updated) _ h₁ in
      let (_, _, h₃) = bind-ok (object_of (item_or (dict end) "intents" fs)) _ h₂ in
      let (_, _, h₄) = bind-ok (object_of (item_or (dict end) "metadata" fs)) _ h₃ in
      let (_, _, h₅) = bind-ok (deserialise_positions (item_or (dict end) "positions" fs)) _ h₄ in
      let (_, _, h₆) = bind-ok (deserialise_orders (item_or (list nil) "orders" fs)) _ h₅ in cc

  pub deserialise_snapshot-revision :
      (cal : Calendar) (fs : Fields F) (r : ℕ) (snap : ExecutionSnapshot F)
      → snapshot_revision (dict fs) ≡ ok r
      → deserialise_snapshot cal (dict fs) ≡ ok snap
      → snap.revision ≡ r
  unfolding deserialise_snapshot
  deserialise_snapshot-revision cal fs r snap read h =
      let schema : Value F = item_or null "schema_version" fs in
      let (_, _, h₁) = bind-ok (raise_if (not (equals_one schema)) state_persistence_error) _ h in
      let (r', read', h₂) = bind-ok (snapshot_revision (dict fs)) _ h₁ in
      let same = read_snapshot-revision cal schema r' fs snap h₂ in cc

  write-ok :
      (w : Result Exception (Unit {0}) × Backend T) (payload payload' : Fields F) (b : Backend T)
      → returning payload w ≡ (ok payload', b)
      → (w ≡ (ok tt, b)) × (payload ≡ payload')
  write-ok (ok _, b') payload payload' b h = (cc, cc)
  write-ok (err e, b') payload payload' b h = cc

  -- `replace` wrote the payload of the next revision over the revision that was expected.
  pub replace-ok :
      (io : Io) (now : String) (p : Prepared F) (b b' : Backend T) (payload : Fields F)
      → replace st io now p b ≡ (ok payload, b')
      → (r : ℕ) × (revision_of b ≡ ok r)
        × (p.expected ≡ expected_at r)
        × (payload ≡ snapshot_fields now r p)
        × (write_snapshot st io payload b ≡ (ok tt, b'))
  unfolding replace revision_of
  replace-ok io now p b b' payload h = elim (Result-cases (stored st io snapshot_key b)) [
    | inr (e, failed) ↦ cc
    | inl (found, read) ↦ elim (Result-cases (build now p (or_null found))) [
      | inr (e, failed) ↦ cc
      | inl (made, built) ↦
          let (r, current, expected, same) = build-ok now p (or_null found) made built in
          let (wrote, equal) = write-ok (write_snapshot st io made b) made payload b' (cc) in
          (r, rw (stored-works io snapshot_key b found read) current, expected, cc, cc)
    ]
  ]
