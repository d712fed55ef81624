-- ===== src/Execution/StatePersistence/KeyValue.antt =====
-- quantcortex/execution/state_persistence.py: calls on the store, and the map from keys to values that
-- it stands for.
use Prim.Native.String.{◌++◌, len, slice}
use text.Mathlib.Text.{◌==◌}
use text.Mathlib.TextEquality.{eq_iff}
use text.Mathlib.TextPositions.{slice-append_right, len-append}
use quantcortex.Prelude.{
  String, ◌≡◌, sym, ap, ◌∙◌, Bool, true, false, Option, none, some, List, [], ◌∷◌, arith,
  if◌then◌else◌,
}
use quantcortex.Prelude.Result.{Result, ok, err}
use quantcortex.Python.Dict.{lookup}
use quantcortex.Python.Exception.{Exception}
use quantcortex.Python.Fields.{is_json, is_json_fields, entry}
use quantcortex.Python.Float.{Float}
use quantcortex.Python.Text.{strip, is_blank}
use quantcortex.Python.Value.{Value, null, str, Fields}
use quantcortex.Execution.StatePersistence.Store.{
  Backend, redis, file, works, Setup, redis_key, read_file, save_state, load_state, delete_state,
}

-- A map, and the calls on it.
abbrev pub Model : Type 0 → Type 0
Model F = String → Option (Value F)

pub data Call (F : Type 0) : Type 0 where
  save : String → Value F → Call F
  load : String → Value F → Call F
  delete : String → Call F

module _ {F : Type 0} where
  abbrev pub set_to : String → Option (Value F) → Model F → Model F
  set_to k o m j = if k == j then o else m j

  abbrev pub or_else : Value F → Option (Value F) → Value F
  or_else default none = default
  or_else default (some v) = v

  -- what a call does to the map, and what it returns
  abbrev pub next : Call F → Model F → Model F
  next (save k v) m = set_to (strip k) (some v) m
  next (load k default) m = m
  next (delete k) m = set_to (strip k) none m

  abbrev pub reply : Call F → Model F → Value F
  reply (save k v) m = null
  reply (load k default) m = or_else default (m (strip k))
  reply (delete k) m = null

  unfoldable pub replies : List (Call F) → Model F → List (Value F)
  replies [] m = []
  replies (c ∷ cs) m = reply c m ∷ replies cs (next c m)

-- A prefix does not hide what follows it.
prefix-injective : (p s t : String) → p ++ s ≡ p ++ t → s ≡ t
prefix-injective p s t h = sym (rest_of s) ∙ ap (λ u. slice u (len p) (len u)) h ∙ rest_of t
  where
    rest_of : (u : String) → slice (p ++ u) (len p) (len (p ++ u)) ≡ u
    rest_of u = rw (len-append p u) (slice-append_right p u)

module _ {F T : Type 0} ⦃fl : Float F⦄ (st : Setup F T) where
  -- the result of a call that returns nothing
  unfoldable pub none_of :
      Result Exception (Unit {0}) × Backend T → Result Exception (Value F) × Backend T
  none_of (ok _, b) = (ok null, b)
  none_of (err e, b) = (err e, b)

  -- a call on the store, when Redis or the file system works
  unfoldable pub perform : Call F → Backend T → Result Exception (Value F) × Backend T
  unfolding none_of
  perform (save k v) b = none_of (save_state st works (str k) v b)
  perform (load k default) b = load_state st works (str k) default b
  perform (delete k) b = none_of (delete_state st works (str k) b)

  -- A stored text, beside the value in the map.
  abbrev pub Slot : Option T → Option (Value F) → Type 0
  Slot none none = Unit
  Slot (some t) (some v) = st.codec.loads t ≡ ok v
  Slot _ _ = ⊥

  pub Slot-if :
      (o o' : Option T) (x x' : Option (Value F)) (b : Bool)
      → Slot o x
      → Slot o' x'
      → Slot (if b then o else o') (if b then x else x')
  Slot-if o o' x x' true h h' = h
  Slot-if o o' x x' false h h' = h'

  -- The store holds the map.
  abbrev pub Holds : Backend T → Model F → Type 0
  Holds (redis d) m = (k : String) → Slot (lookup (redis_key st k) d) (m k)
  Holds (file f) m =
      (fs : Fields F) × (read_file st f ≡ ok fs)
      × (is_json_fields fs ≡ true)
      × ((k : String) → entry k fs ≡ m k)

  abbrev pub IsCall : Call F → Type 0
  IsCall (save k v) = (is_blank (strip k) ≡ false) × (is_json v ≡ true)
  IsCall (load k default) = is_blank (strip k) ≡ false
  IsCall (delete k) = is_blank (strip k) ≡ false

  redis_key-injective : (k j : String) → redis_key st k ≡ redis_key st j → k ≡ j
  unfolding redis_key
  redis_key-injective k j h =
      prefix-injective ":" k j (prefix-injective st.namespace (":" ++ k) (":" ++ j) h)

  pub redis_key_eq : (k j : String) → (redis_key st k == redis_key st j) ≡ (k == j)
  unfolding redis_key
  redis_key_eq k j =
      ground (arith, eq_iff (redis_key st k) (redis_key st j), eq_iff k j, redis_key-injective k j)

  -- the calls one after the other, with what each returned
  unfoldable pub perform_all :
      List (Call F) → Backend T → List (Result Exception (Value F)) × Backend T
  unfolding perform
  perform_all [] b = ([], b)
  perform_all (c ∷ cs) b =
      let (r, b') = perform c b in let (rs, b'') = perform_all cs b' in (r ∷ rs, b'')
