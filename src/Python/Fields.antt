-- ===== src/Python/Fields.antt =====
-- Python's `dict` with keys of any kind, and the values that a JSON text can hold.
use text.Mathlib.Text.{◌==◌}
use text.Mathlib.TextEquality.{eq_iff}
use quantcortex.Prelude.{
  String, ◌≡◌, refl, Bool, true, false, not, ◌&&◌, Option, none, some, arith, if◌then◌else◌,
  is_some,
}
use quantcortex.Python.Float.{Float}
use quantcortex.Python.Value.{
  Value, null, bool, int, num, str, list, dict, other, Items, nil, cons, Fields, end, field,
}

module _ {F : Type 0} where
  -- whether an object is the text
  unfoldable pub is_key : String → Value F → Bool
  is_key k (str s) = s == k
  is_key k _ = false

  -- `d.get(k)` for a text
  unfoldable pub entry : String → Fields F → Option (Value F)
  entry k end = none
  entry k (field j v fs) = if is_key k j then some v else entry k fs

  -- `d[k] = v` for a text
  unfoldable pub set_field : String → Value F → Fields F → Fields F
  set_field k v end = field (str k) v end
  set_field k v (field j w fs) = if is_key k j then field j v fs else field j w (set_field k v fs)

  -- `del d[k]` for a text that is a key
  unfoldable pub drop_field : String → Fields F → Fields F
  drop_field k end = end
  drop_field k (field j w fs) =
      let rest = drop_field k fs in if is_key k j then rest else field j w rest

  is_key_two :
      (k j : String) (v : Value F)
      → is_key k v ≡ true
      → is_key j v ≡ (if k == j then true else false)
  unfolding is_key
  is_key_two k j (str s) h = ground (arith, eq_iff s k, eq_iff k j, eq_iff s j)
  is_key_two k j null h = cc
  is_key_two k j (bool _) h = cc
  is_key_two k j (int _) h = cc
  is_key_two k j (num _) h = cc
  is_key_two k j (list _) h = cc
  is_key_two k j (dict _) h = cc
  is_key_two k j other h = cc

  if_is_key :
      (k j : String) (o : Option (Value F))
      → (if is_key j (str k) then o else none) ≡ (if k == j then o else none)
  unfolding is_key
  if_is_key k j o = refl

  pub entry-set_field :
      (k j : String) (v : Value F) (fs : Fields F)
      → entry j (set_field k v fs) ≡ (if k == j then some v else entry j fs)
  unfolding entry set_field
  entry-set_field k j v end = if_is_key k j (some v)
  entry-set_field k j v (field i w fs) =
      ground (arith, eq_iff k j, is_key_two k j i, entry-set_field k j v fs)

  pub entry-drop_field :
      (k j : String) (fs : Fields F)
      → entry j (drop_field k fs) ≡ (if k == j then none else entry j fs)
  unfolding entry drop_field
  entry-drop_field k j end = ground arith
  entry-drop_field k j (field i w fs) =
      ground (arith, eq_iff k j, is_key_two k j i, entry-drop_field k j fs)

  -- a text that is not among the keys
  unfoldable pub is_fresh : Value F → Fields F → Bool
  is_fresh (str k) fs = not (is_some (entry k fs))
  is_fresh _ fs = false

  is_fresh-set_field :
      (k : String) (i v : Value F) (fs : Fields F)
      → is_key k i ≡ false
      → is_fresh i fs ≡ true
      → is_fresh i (set_field k v fs) ≡ true
  unfolding is_fresh is_key
  is_fresh-set_field k (str i) v fs h f =
      ground (arith, entry-set_field k i v fs, eq_iff i k, eq_iff k i)
  is_fresh-set_field k null v fs h f = cc
  is_fresh-set_field k (bool _) v fs h f = cc
  is_fresh-set_field k (int _) v fs h f = cc
  is_fresh-set_field k (num _) v fs h f = cc
  is_fresh-set_field k (list _) v fs h f = cc
  is_fresh-set_field k (dict _) v fs h f = cc
  is_fresh-set_field k other v fs h f = cc

  is_fresh-drop_field :
      (k : String) (i : Value F) (fs : Fields F)
      → is_fresh i fs ≡ true
      → is_fresh i (drop_field k fs) ≡ true
  unfolding is_fresh
  is_fresh-drop_field k (str i) fs f = ground (arith, entry-drop_field k i fs)
  is_fresh-drop_field k null fs f = cc
  is_fresh-drop_field k (bool _) fs f = cc
  is_fresh-drop_field k (int _) fs f = cc
  is_fresh-drop_field k (num _) fs f = cc
  is_fresh-drop_field k (list _) fs f = cc
  is_fresh-drop_field k (dict _) fs f = cc
  is_fresh-drop_field k other fs f = cc

module _ {F : Type 0} ⦃fl : Float F⦄ where
  -- What `json.dumps(v, allow_nan=False)` writes and `json.loads` reads back as it was: texts for
  -- keys, each of them once, and finite numbers.
  unfoldable mutual
    pub is_json : Value F → Bool
    is_json (num x) = fl.is_finite x
    is_json (list vs) = is_json_items vs
    is_json (dict fs) = is_json_fields fs
    is_json other = false
    is_json _ = true

    pub is_json_items : Items F → Bool
    is_json_items nil = true
    is_json_items (cons v vs) = is_json v && is_json_items vs

    pub is_json_fields : Fields F → Bool
    is_json_fields end = true
    is_json_fields (field k v fs) = is_fresh k fs && is_json v && is_json_fields fs

  is_json_fields-field :
      (k v : Value F) (fs : Fields F)
      → is_json_fields (field k v fs) ≡ (is_fresh k fs && is_json v && is_json_fields fs)
  unfolding is_json
  is_json_fields-field k v fs = refl

  fresh_field :
      (k : String) (v : Value F) → is_json v ≡ true → is_json_fields (field (str k) v end) ≡ true
  unfolding is_json is_fresh entry
  fresh_field k v h = rw h refl

  pub entry-IsJson :
      (k : String) (fs : Fields F) {v : Value F}
      → is_json_fields fs ≡ true
      → entry k fs ≡ some v
      → is_json v ≡ true
  unfolding entry
  entry-IsJson k end j h = cc
  entry-IsJson k (field i w fs) {v} j h =
      ground (arith, is_json_fields-field i w fs, entry-IsJson k fs {v = v})

  pub set_field-IsJson :
      (k : String) (v : Value F) (fs : Fields F)
      → is_json v ≡ true
      → is_json_fields fs ≡ true
      → is_json_fields (set_field k v fs) ≡ true
  unfolding set_field
  set_field-IsJson k v end j h = fresh_field k v j
  set_field-IsJson k v (field i w fs) j h = ground (
    arith,
    is_json_fields-field i w fs,
    is_json_fields-field i v fs,
    is_json_fields-field i w (set_field k v fs),
    set_field-IsJson k v fs,
    is_fresh-set_field k i v fs,
  )

  pub drop_field-IsJson :
      (k : String) (fs : Fields F)
      → is_json_fields fs ≡ true
      → is_json_fields (drop_field k fs) ≡ true
  unfolding drop_field
  drop_field-IsJson k end h = h
  drop_field-IsJson k (field i w fs) h = ground (
    arith,
    is_json_fields-field i w fs,
    is_json_fields-field i w (drop_field k fs),
    drop_field-IsJson k fs,
    is_fresh-drop_field k i fs,
  )
