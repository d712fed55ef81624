-- ===== src/Execution/StatePersistence/Failure.antt =====
-- quantcortex/execution/state_persistence.py: a save that raises.
use quantcortex.Prelude.{String, ◌≡◌, ◌∙◌, ap, arith, Option, none, ◌⊎◌, inl, inr}
use quantcortex.Prelude.Result.{Result, ok, err, Result-cases}
use quantcortex.Python.Exception.{Exception}
use quantcortex.Python.Float.{Float}
use quantcortex.Python.Value.{Value, dict, Fields}
use quantcortex.Execution.StatePersistence.Store.{
  Backend, redis, file, Io, works, unreadable, unwritable, cut_short, unreplaced, unsynced,
  contended, Setup, Folder, commit, write_temp, replace_target, sync_folder, replace_file, reading,
  read_file, write_file, edit_file, put_payload, save_payload, save_state, state_key, redis_key,
}
use quantcortex.Python.Dict.{insert}

-- A call that raised left the state as it was, or as the call that works leaves it.
abbrev pub AllOrNothing : {S : Type 0} → S → S → Result Exception (Unit {0}) × S → Type 0
AllOrNothing before after working = (after ≡ before) ⊎ (working ≡ (ok tt, after))

module _ {F T : Type 0} ⦃fl : Float F⦄ (st : Setup F T) where
  commit-AllOrNothing :
      (io : Io) (fresh old b : Backend T) (e : Exception)
      → commit io fresh old ≡ (err e, b)
      → AllOrNothing old b (commit works fresh old)
  unfolding commit
  commit-AllOrNothing works fresh old b e h = cc
  commit-AllOrNothing unreadable fresh old b e h = cc
  commit-AllOrNothing contended fresh old b e h = cc
  commit-AllOrNothing cut_short fresh old b e h = cc
  commit-AllOrNothing unreplaced fresh old b e h = cc
  commit-AllOrNothing unwritable fresh old b e h = inl cc
  commit-AllOrNothing unsynced fresh old b e h = inr cc

  -- The replacement of the file is all or nothing, and leaves no temporary file behind.
  replace_file-AllOrNothing :
      (io : Io) (t : T) (f : Option T) (d : Folder T) (e : Exception)
      → replace_file st io t (record { target = f; temp = none }) ≡ (err e, d)
      → AllOrNothing
          (record { target = f; temp = none })
          d
          (replace_file st works t (record { target = f; temp = none }))
  unfolding replace_file write_temp replace_target sync_folder
  replace_file-AllOrNothing works t f d e h = cc
  replace_file-AllOrNothing unreadable t f d e h = cc
  replace_file-AllOrNothing contended t f d e h = cc
  replace_file-AllOrNothing unwritable t f d e h = inl cc
  replace_file-AllOrNothing cut_short t f d e h = inl cc
  replace_file-AllOrNothing unreplaced t f d e h = inl cc
  replace_file-AllOrNothing unsynced t f d e h = inr cc

  write_file-AllOrNothing :
      (io : Io) (fs : Fields F) (f : Option T) (b : Backend T) (e : Exception)
      → write_file st io fs f ≡ (err e, b)
      → AllOrNothing (file f) b (write_file st works fs f)
  unfolding write_file
  write_file-AllOrNothing io fs f b e h = elim (Result-cases (st.codec.dumps (dict fs))) [
    | inr (x, failed) ↦ inl cc
    | inl (t, dumped) ↦
        let folder : Folder T = record { target = f; temp = none } in
        let after = (replace_file st io t folder).1 in
        let out : b ≡ file after.target = ground arith in
        elim (replace_file-AllOrNothing io t f after e (ground arith)) [
          | inl kept ↦ inl (out ∙ ap (λ (d : Folder T). file d.target) kept)
          | inr wrote ↦ inr (ground arith)
        ]
  ]

  edit_file-AllOrNothing :
      (io : Io) (change : Fields F → Result Exception (Fields F)) (f : Option T) (b : Backend T)
      (e : Exception)
      → edit_file st io change f ≡ (err e, b)
      → AllOrNothing (file f) b (edit_file st works change f)
  unfolding edit_file reading
  edit_file-AllOrNothing io change f b e h = elim (Result-cases (reading io)) [
    | inr (x, failed) ↦ inl cc
    | inl (u, ready) ↦ elim (Result-cases (read_file st f)) [
      | inr (x, failed) ↦ inl cc
      | inl (fs, read) ↦ elim (Result-cases (change fs)) [
        | inr (x, failed) ↦ inl cc
        | inl (gs, changed) ↦ elim (write_file-AllOrNothing io gs f b e cc) [
          | inl kept ↦ inl kept
          | inr wrote ↦ inr cc
        ]
      ]
    ]
  ]

  save_payload-AllOrNothing :
      (io : Io) (k : String) (t : T) (b b' : Backend T) (e : Exception)
      → save_payload st io k t b ≡ (err e, b')
      → AllOrNothing b b' (save_payload st works k t b)
  unfolding save_payload
  save_payload-AllOrNothing io k t (redis d) b' e h =
      commit-AllOrNothing io (redis (insert (redis_key st k) t d)) (redis d) b' e h
  save_payload-AllOrNothing io k t (file f) b' e h =
      edit_file-AllOrNothing io (put_payload st k t) f b' e h

  -- A save of a value that raises, wherever its call fails, has left the whole store as it was, or as
  -- the same save leaves it when the call works. In a file, the call fails in the read, or in any step
  -- of the write: the temporary file, the replacement of the file, the folder.
  pub save_state-AllOrNothing :
      (io : Io) (key v : Value F) (b b' : Backend T) (e : Exception)
      → save_state st io key v b ≡ (err e, b')
      → AllOrNothing b b' (save_state st works key v b)
  unfolding save_state
  save_state-AllOrNothing io key v b b' e h = elim (Result-cases (state_key key)) [
    | inr (x, failed) ↦ inl cc
    | inl (k, named) ↦ elim (Result-cases (st.codec.dumps v)) [
      | inr (x, failed) ↦ inl cc
      | inl (t, dumped) ↦ elim (save_payload-AllOrNothing io k t b b' e cc) [
        | inl kept ↦ inl kept
        | inr wrote ↦ inr cc
      ]
    ]
  ]
