-- ===== src/Execution/StatePersistence/Refinement.antt =====
-- quantcortex/execution/state_persistence.py: the store implements a map from keys to values, in
-- Redis and in a file alike.
use text.Mathlib.Text.{◌==◌}
use text.Mathlib.TextEquality.{eq_iff}
use quantcortex.Prelude.{
  String, ◌≡◌, refl, sym, ap, subst, ◌∙◌, false, Option, none, some, List, [], ◌∷◌, arith,
  if◌then◌else◌, All, map, Option-cases, inl, inr,
}
use quantcortex.Prelude.Result.{Result, ok}
use quantcortex.Python.Dict.{Dict, lookup, insert, erase, lookup-insert, lookup-erase}
use quantcortex.Python.Exception.{Exception}
use quantcortex.Python.Fields.{
  entry, set_field, drop_field, entry-set_field, entry-drop_field, set_field-IsJson,
  drop_field-IsJson,
}
use quantcortex.Python.Float.{Float}
use quantcortex.Python.Text.{strip, is_blank}
use quantcortex.Python.Value.{Value, null, Fields}
use quantcortex.Execution.StatePersistence.Codec.{IsCodec}
use quantcortex.Execution.StatePersistence.Durable.{write_file-ok, write_file-works}
use quantcortex.Execution.StatePersistence.Store.{
  Backend, redis, file, works, Setup, redis_key, read_file, edit_file, put_payload, commit, reading,
  state_key, save_payload, save_state, stored, load_state, delete_key, delete_state,
}
use quantcortex.Execution.StatePersistence.KeyValue.{
  Model, Call, save, load, delete, set_to, or_else, next, reply, replies, none_of, perform, Slot,
  Slot-if, Holds, IsCall, redis_key_eq, perform_all,
}

module _ {F T : Type 0} ⦃fl : Float F⦄ (st : Setup F T) where
  -- The call returned what the map does, and the store holds what the map has become.
  Implements : Call F → Model F → Result Exception (Value F) × Backend T → Type 0
  Implements c m w = (w.0 ≡ ok (reply c m)) × Holds st w.1 (next c m)

  Slot-insert :
      (k j : String) (t : T) (v : Value F) (d : Dict T) (m : Model F)
      → st.codec.loads t ≡ ok v
      → Slot st (lookup (redis_key st j) d) (m j)
      → Slot st (lookup (redis_key st j) (insert (redis_key st k) t d)) (set_to k (some v) m j)
  Slot-insert k j t v d m loaded h =
      rw (lookup-insert (redis_key st k) (redis_key st j) t d)
        (rw (redis_key_eq st k j) (Slot-if st (some t) _ (some v) _ (k == j) loaded h))

  Slot-erase :
      (k j : String) (d : Dict T) (m : Model F)
      → Slot st (lookup (redis_key st j) d) (m j)
      → Slot st (lookup (redis_key st j) (erase (redis_key st k) d)) (set_to k none m j)
  Slot-erase k j d m h =
      rw (lookup-erase (redis_key st k) (redis_key st j) d)
        (rw (redis_key_eq st k j) (Slot-if st none _ none _ (k == j) tt h))

  perform-save :
      (k : String) (v : Value F) (m : Model F) (b : Backend T)
      → IsCodec st.codec
      → IsCall st (save k v)
      → Holds st b m
      → Implements (save k v) m (perform st (save k v) b)
  unfolding perform none_of save_state save_payload edit_file put_payload reading commit state_key
      Implements
  perform-save k v m (redis d) codec (named, json) h =
      let (t, dumped, loaded) = codec.round_trip v json in
      let after = redis (insert (redis_key st (strip k)) t d) in
      let done : perform st (save k v) (redis d) ≡ (ok null, after) = cc in
      subst (Implements (save k v) m) (sym done)
        (refl, λ j. Slot-insert (strip k) j t v d m loaded (h j))
  perform-save k v m (file f) codec (named, json) (fs, read, good, same) =
      let (t, dumped, loaded) = codec.round_trip v json in
      let new = set_field (strip k) v fs in
      let valid = set_field-IsJson (strip k) v fs json good in
      let (b', wrote) = write_file-works st new f codec valid in
      let (g, equal, read') = write_file-ok st works new f b' codec valid wrote in
      let done : perform st (save k v) (file f) ≡ (ok null, file g) = cc in
      subst (Implements (save k v) m) (sym done) (
        refl,
        (
          new,
          read',
          valid,
          λ j.
              entry-set_field (strip k) j v fs
              ∙ ap (λ o. if strip k == j then some v else o) (same j),
        ),
      )

  load-Slot :
      (k : String) (default : Value F) (d : Dict T) (o : Option T) (x : Option (Value F))
      → is_blank (strip k) ≡ false
      → lookup (redis_key st (strip k)) d ≡ o
      → Slot st o x
      → perform st (load k default) (redis d) ≡ (ok (or_else default x), redis d)
  unfolding perform load_state stored reading state_key
  load-Slot k default d none none named found h = cc
  load-Slot k default d (some t) (some v) named found h = cc
  load-Slot k default d none (some v) named found h = absurd h
  load-Slot k default d (some t) none named found h = absurd h

  load-file :
      (k : String) (default : Value F) (f : Option T) (fs : Fields F)
      → is_blank (strip k) ≡ false
      → read_file st f ≡ ok fs
      → perform st (load k default) (file f) ≡ (ok (or_else default (entry (strip k) fs)), file f)
  unfolding perform load_state
  load-file k default f fs named read = elim (Option-cases (entry (strip k) fs)) [
    | inl absent ↦ cc
    | inr (v, present) ↦ cc
  ]

  keep_absent :
      (k j : String) (fs : Fields F) (m : Model F)
      → entry k fs ≡ none
      → entry j fs ≡ m j
      → entry j fs ≡ set_to k none m j
  keep_absent k j fs m absent same = ground (arith, eq_iff k j)

  perform-load :
      (k : String) (default : Value F) (m : Model F) (b : Backend T)
      → IsCall st (load k default)
      → Holds st b m
      → Implements (load k default) m (perform st (load k default) b)
  unfolding Implements
  perform-load k default m (redis d) named h =
      let key = redis_key st (strip k) in
      let done = load-Slot k default d (lookup key d) (m (strip k)) named refl (h (strip k)) in
      subst (Implements (load k default) m) (sym done) (refl, h)
  perform-load k default m (file f) named (fs, read, good, same) =
      let done = load-file k default f fs named read in
      subst (Implements (load k default) m) (sym done)
        (ap (λ o. ok (or_else default o)) (same (strip k)), (fs, read, good, same))

  perform-delete :
      (k : String) (m : Model F) (b : Backend T)
      → IsCodec st.codec
      → IsCall st (delete k)
      → Holds st b m
      → Implements (delete k) m (perform st (delete k) b)
  unfolding perform none_of delete_state delete_key reading commit state_key Implements
  perform-delete k m (redis d) codec named h =
      let after = redis (erase (redis_key st (strip k)) d) in
      let done : perform st (delete k) (redis d) ≡ (ok null, after) = cc in
      subst (Implements (delete k) m) (sym done) (refl, λ j. Slot-erase (strip k) j d m (h j))
  perform-delete k m (file f) codec named (fs, read, good, same) =
      let new = drop_field (strip k) fs in
      let valid = drop_field-IsJson (strip k) fs good in
      let gone : (j : String) → entry j new ≡ set_to (strip k) none m j = λ j.
        entry-drop_field (strip k) j fs ∙ ap (λ o. if strip k == j then none else o) (same j) in
      elim (Option-cases (entry (strip k) fs)) [
        | inl absent ↦
            let done : perform st (delete k) (file f) ≡ (ok null, file f) = cc in
            subst (Implements (delete k) m) (sym done)
              (refl, (fs, read, good, λ j. keep_absent (strip k) j fs m absent (same j)))
        | inr (v, present) ↦
            let (b', wrote) = write_file-works st new f codec valid in
            let (g, equal, read') = write_file-ok st works new f b' codec valid wrote in
            let done : perform st (delete k) (file f) ≡ (ok null, file g) = cc in
            subst (Implements (delete k) m) (sym done) (refl, (new, read', valid, gone))
      ]

  perform-Implements :
      (c : Call F) (m : Model F) (b : Backend T)
      → IsCodec st.codec
      → IsCall st c
      → Holds st b m
      → Implements c m (perform st c b)
  perform-Implements (save k v) m b codec c h = perform-save k v m b codec c h
  perform-Implements (load k default) m b codec c h = perform-load k default m b c h
  perform-Implements (delete k) m b codec c h = perform-delete k m b codec c h

  -- Any sequence of saves, loads and deletes under keys that are not blank, of values that can stand
  -- in JSON, returns what the same calls on a map from stripped keys to values return: a store that
  -- holds the map and whose calls of Redis or the file system work refines it, whichever of the two
  -- it is kept in. The codec reads back what it writes.
  pub perform_all-replies :
      (cs : List (Call F)) (m : Model F) (b : Backend T)
      → IsCodec st.codec
      → All (IsCall st) cs
      → Holds st b m
      → (perform_all st cs b).0 ≡ map (λ v. ok v) (replies cs m)
  unfolding perform_all replies Implements
  perform_all-replies [] m b codec cs h = refl
  perform_all-replies (c ∷ cs) m b codec (valid, rest) h =
      let (same, h') = perform-Implements c m b codec valid h in
      rw same (
        ap (λ rs. ok (reply c m) ∷ rs)
          (perform_all-replies cs (next c m) (perform st c b).1 codec rest h'))
