-- ===== src/Execution/StatePersistence/Codec.antt =====
-- quantcortex/execution/state_persistence.py: the calls of `json`, a library. `json.dumps` is that of
-- `allow_nan=False`. A dataclass inside a value is not modelled, but for the orders and positions.
use quantcortex.Prelude.{String, ◌≡◌, refl, true, none, some, if◌then◌else◌}
use quantcortex.Prelude.Result.{Result, ok, err}
use quantcortex.Python.Exception.{Exception, value_error, key_error, state_persistence_error}
use quantcortex.Python.Float.{Float}
use quantcortex.Python.Fields.{entry, is_json}
use quantcortex.Python.Value.{Value, dict, Fields}

-- `T` is the type of the JSON texts.
pub record Codec (F T : Type 0) : Type 0 where
  pub dumps : Value F → Result Exception T
  pub loads : T → Result Exception (Value F)

-- What can stand in JSON is written, and read back as it was.
pub record IsCodec {F T : Type 0} ⦃fl : Float F⦄ (co : Codec F T) : Type 0 where
  pub round_trip :
      (v : Value F) → is_json v ≡ true → (t : T) × (co.dumps v ≡ ok t) × (co.loads t ≡ ok v)

-- The codec of the examples: the text of a value is the value.
unfoldable pub plain : {F : Type 0} ⦃fl : Float F⦄ → Codec F (Value F)
plain = record { dumps = λ v. if is_json v then ok v else err value_error; loads = λ v. ok v }

pub plain-IsCodec : {F : Type 0} ⦃fl : Float F⦄ → IsCodec (plain {F = F})
unfolding plain
plain-IsCodec = record { round_trip = λ v h. (v, rw h refl, refl) }

-- `except (...) as exc: raise StatePersistenceError(...) from exc`
abbrev pub or_persistence_error {ℓ} : {A : Type ℓ} → Result Exception A → Result Exception A
or_persistence_error (ok a) = ok a
or_persistence_error (err _) = err state_persistence_error

module _ {F : Type 0} where
  -- `data[k]`
  abbrev pub item : String → Fields F → Result Exception (Value F)
  item k fs = elim (entry k fs) [ none ↦ err key_error | some v ↦ ok v ]

  -- `data.get(k, default)`
  abbrev pub item_or : Value F → String → Fields F → Value F
  item_or default k fs = elim (entry k fs) [ none ↦ default | some v ↦ v ]

  -- a mapping, or `StatePersistenceError`
  abbrev pub object_of : Value F → Result Exception (Fields F)
  object_of (dict fs) = ok fs
  object_of _ = err state_persistence_error
