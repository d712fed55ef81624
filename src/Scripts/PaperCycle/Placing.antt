-- ===== src/Scripts/PaperCycle/Placing.antt =====
-- scripts/paper_trade_cycle.py: the steps around a submission, up to a save that raises.
use quantcortex.Prelude.{String, ◌≡◌, refl, Bool, true, List}
use quantcortex.Prelude.Result.{Result, ok, err}
use quantcortex.Python.Exception.{Exception, pure, ◌>>◌}
use quantcortex.Python.Float.{Float}
use quantcortex.Python.Value.{Fields}
use quantcortex.Execution.OrderManager.Order.{Order}
use quantcortex.Execution.StatePersistence.Save.{Request}
use quantcortex.Execution.StatePersistence.Snapshot.{ExecutionSnapshot}
use quantcortex.Scripts.PaperCycle.Intents.{Naming}
use quantcortex.Scripts.PaperCycle.Session.{
  Broker, SnapshotStore, Session, persist, persisted, request_of, remember, note,
}
use quantcortex.Scripts.PaperCycle.Submit.{Run, known_order, settled}
use quantcortex.Scripts.PaperCycle.Triples.{Triple, After, triple-bind}

-- A store that saves which returned lead to.
pub data Saved {F S : Type 0} (st : SnapshotStore F S) (origin : S) : S → Type 0 where
  start : Saved st origin origin
  after :
      (req : Request F) (snap : ExecutionSnapshot F) (before next : S)
      → Saved st origin before
      → st.save req before ≡ (ok snap, next)
      → Saved st origin next

module _ {F B S : Type 0} ⦃fl : Float F⦄ (naming : Naming F) (br : Broker F B)
    (st : SnapshotStore F S) (run : Run) (origin : S) where
  abbrev pub Sent : List String → B → Session F B S → Type 0
  Sent ids b s = (s.sent ≡ ids) × (s.broker ≡ b) × Saved st origin s.store

  -- The session ended in a save: a store that the saves before it led to refused the session's own
  -- ledger and context.
  abbrev pub Unsaved : Session F B S → Type 0
  Unsaved s =
      (store : S) × (e : Exception) × Saved st origin store
      × (st.save (request_of s.ledger s.context) store ≡ (err e, s.store))

  pub note-Sent :
      (ids : List String) (b : B) (id : String) (fs : Fields F)
      → Triple (Sent ids b) (note id fs) (λ _. Sent ids b) Unsaved
  unfolding note
  note-Sent ids b id fs s h = h

  remember-Sent :
      (ids : List String) (b : B) (o : Order F)
      → Triple (Sent ids b) (remember o) (λ _. Sent ids b) Unsaved
  unfolding remember
  remember-Sent ids b o s h = h

  persisted-Sent :
      (ids : List String) (b : B) (s : Session F B S)
      (w : Result Exception (ExecutionSnapshot F) × S)
      → st.save (request_of s.ledger s.context) s.store ≡ w
      → Sent ids b s
      → After (λ _. Sent ids b) Unsaved (persisted st s w)
  unfolding persisted
  persisted-Sent ids b s (ok snap, store) same (sent, here, reached) =
      (sent, here, after (request_of s.ledger s.context) snap s.store store reached same)
  persisted-Sent ids b s (err e, store) same (sent, here, reached) = (s.store, e, reached, same)

  pub persist-Sent :
      (ids : List String) (b : B) → Triple (Sent ids b) (persist st) (λ _. Sent ids b) Unsaved
  unfolding persist
  persist-Sent ids b s h =
      persisted-Sent ids b s (st.save (request_of s.ledger s.context) s.store) refl h

  -- The result is the order, sent by this call.
  abbrev pub Placed : List String → Order F → Order F × Bool → Session F B S → Type 0
  Placed ids o r s = (r ≡ (o, true)) × (s.sent ≡ ids)

  pub settled-Placed :
      (ids : List String) (b : B) (id : String) (request o : Order F)
      → Triple (Sent ids b) (settled naming br st run id request o true) (Placed ids o) Unsaved
  unfolding settled
  settled-Placed ids b id request o =
      let mark = known_order naming br st run request o in
      triple-bind (Sent ids b) (note id mark) (λ _. Sent ids b) _ (Placed ids o) Unsaved
        (note-Sent ids b id mark)
        (λ _.
          triple-bind (Sent ids b) (remember o) (λ _. Sent ids b)
            (λ _. persist st >> pure (o, true)) (Placed ids o) Unsaved (remember-Sent ids b o)
            (λ _.
              triple-bind (Sent ids b) (persist st) (λ _. Sent ids b) (λ _. pure (o, true))
                (Placed ids o) Unsaved (persist-Sent ids b) (λ _ s h. (refl, h.0))))
