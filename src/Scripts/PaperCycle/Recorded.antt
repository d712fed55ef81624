-- ===== src/Scripts/PaperCycle/Recorded.antt =====
-- scripts/paper_trade_cycle.py: every id that is sent was put on record before, by each step of
-- `_reconcile_or_submit` up to the submission.
use quantcortex.Prelude.{
  String, ◌≡◌, refl, true, false, ◌∷◌, All, Bool-cases, Option-cases, inl, inr,
}
use quantcortex.Prelude.Result.{Result, ok, err}
use quantcortex.Python.Exception.{Exception, lift, pure}
use quantcortex.Python.Float.{Float}
use quantcortex.Python.Value.{Fields}
use quantcortex.Execution.OrderManager.Order.{Order}
use quantcortex.Execution.StatePersistence.Orders.{seen, has_duplicates}
use quantcortex.Execution.StatePersistence.Snapshot.{ExecutionSnapshot}
use quantcortex.Scripts.PaperCycle.Intents.{Naming, assert_order_matches_intent}
use quantcortex.Scripts.PaperCycle.Ledger.{
  is_known, is_known_in, is_known-noted, unseen-of_unknown, All-set_field, IsDurable, IsSafe,
  save-All,
}
use quantcortex.Scripts.PaperCycle.Session.{
  Broker, SnapshotStore, Session, persist, persisted, request_of, remember, note, recorded,
}
use quantcortex.Scripts.PaperCycle.Submit.{
  Run, is_caught, look_up, send, prior_attempt, failed, sent_order, attempt, suppressed, handled,
  is_persistence_error,
}
use quantcortex.Scripts.PaperCycle.Triples.{Triple, After, triple-bind, triple-lift}

module _ {F B S : Type 0} ⦃fl : Float F⦄ (naming : Naming F) (br : Broker F B)
    (st : SnapshotStore F S) (run : Run) (durable : S → Fields F) where
  -- Every id that was sent is on the durable ledger and on the session's, and none was sent twice.
  abbrev pub IsRecorded : Session F B S → Type 0
  IsRecorded s = IsSafe st durable s.sent s.store × All (λ id. is_known id s.ledger ≡ true) s.sent

  -- Besides, one id was not sent, is on the session's ledger, and is on the durable one.
  abbrev pub IsNew : String → Session F B S → Type 0
  IsNew id s = IsRecorded s × (seen id s.sent ≡ false)

  abbrev pub IsNoted : String → Session F B S → Type 0
  IsNoted id s = IsNew id s × (is_known id s.ledger ≡ true)

  abbrev pub IsReady : String → Session F B S → Type 0
  IsReady id s = IsNoted id s × (is_known id (durable s.store) ≡ true)

  pub note-IsRecorded :
      (id : String) (fs : Fields F) → Triple IsRecorded (note id fs) (λ _. IsRecorded) IsRecorded
  unfolding note
  note-IsRecorded id fs s ((one, kept), known) =
      ((one, kept), All-set_field id fs s.ledger s.sent known)

  pub note-IsNoted :
      (id : String) (fs : Fields F) → Triple (IsNew id) (note id fs) (λ _. IsNoted id) IsRecorded
  unfolding note
  note-IsNoted id fs s (((one, kept), known), unseen) = (
    (((one, kept), All-set_field id fs s.ledger s.sent known), unseen),
    is_known-noted id fs s.ledger,
  )

  pub remember-IsRecorded :
      (o : Order F) → Triple IsRecorded (remember o) (λ _. IsRecorded) IsRecorded
  unfolding remember
  remember-IsRecorded o s h = h

  persisted-IsRecorded :
      (s : Session F B S) (w : Result Exception (ExecutionSnapshot F) × S)
      → has_duplicates s.sent ≡ false
      → All (λ id. is_known id (durable w.1) ≡ true) s.sent
      → All (λ id. is_known id s.ledger ≡ true) s.sent
      → After (λ _. IsRecorded) IsRecorded (persisted st s w)
  unfolding persisted
  persisted-IsRecorded s (ok snap, store) one kept known = ((one, kept), known)
  persisted-IsRecorded s (err e, store) one kept known = ((one, kept), known)

  persisted-IsReady :
      (id : String) (s : Session F B S) (w : Result Exception (ExecutionSnapshot F) × S)
      → IsNoted id s
      → All (λ id. is_known id (durable w.1) ≡ true) s.sent
      → ((snap : ExecutionSnapshot F) → w.0 ≡ ok snap → is_known id (durable w.1) ≡ true)
      → After (λ _. IsReady id) IsRecorded (persisted st s w)
  unfolding persisted
  persisted-IsReady id s (ok snap, store) ((((one, _), known), unseen), noted) kept recorded =
      (((((one, kept), known), unseen), noted), recorded snap refl)
  persisted-IsReady id s (err e, store) ((((one, _), known), unseen), noted) kept recorded =
      ((one, kept), known)

  pub persist-IsRecorded :
      IsDurable st durable → Triple IsRecorded (persist st) (λ _. IsRecorded) IsRecorded
  unfolding persist request_of is_known_in
  persist-IsRecorded law s ((one, kept), known) =
      let req = request_of s.ledger s.context in
      persisted-IsRecorded s (st.save req s.store) one
        (save-All st durable law s.store req s.sent known kept) known

  pub persist-IsReady :
      (id : String)
      → IsDurable st durable
      → Triple (IsNoted id) (persist st) (λ _. IsReady id) IsRecorded
  unfolding persist request_of is_known_in
  persist-IsReady id law s ((((one, kept), known), unseen), noted) =
      let req = request_of s.ledger s.context in
      persisted-IsReady id s (st.save req s.store) ((((one, kept), known), unseen), noted)
        (save-All st durable law s.store req s.sent known kept)
        (λ snap returned. law.save_records s.store req snap id returned noted)

  pub look_up-IsRecorded :
      (id : String) → Triple IsRecorded (look_up naming br st run id) (λ _. IsRecorded) IsRecorded
  unfolding look_up
  look_up-IsRecorded id s h =
      let (r, b) = br.find id s.broker in triple-lift IsRecorded r (record s { broker = b }) h

  -- The id that is sent was not sent before, and is on record.
  send-IsRecorded :
      (id : String) (request : Order F)
      → Triple (IsReady id) (send naming br st run id request) (λ _. IsRecorded) IsRecorded
  unfolding send has_duplicates
  send-IsRecorded id request s (((((one, kept), known), unseen), noted), stored) =
      let (r, b) = br.place request.symbol request.side request.quantity id s.broker in
      triple-lift IsRecorded r (record s { broker = b; sent = id ∷ s.sent })
        ((rw unseen one, (stored, kept)), (noted, known))

  sent_order-IsRecorded :
      (id : String) (request : Order F)
      → Triple (IsReady id) (sent_order naming br st run id request) (λ _. IsRecorded) IsRecorded
  unfolding sent_order
  sent_order-IsRecorded id request =
      triple-bind (IsReady id) (send naming br st run id request) (λ _. IsRecorded) _
        (λ _. IsRecorded) IsRecorded (send-IsRecorded id request)
        (λ placed.
          triple-bind IsRecorded (lift (assert_order_matches_intent placed request))
            (λ _. IsRecorded) (λ _. pure placed) (λ _. IsRecorded) IsRecorded
            (triple-lift IsRecorded (assert_order_matches_intent placed request)) (λ _ s h. h))

  suppressed-IsRecorded :
      (w : Result Exception (Unit {0}) × Session F B S)
      → After (λ _. IsRecorded) IsRecorded w
      → After (λ _. IsRecorded) IsRecorded (suppressed naming br st run w)
  suppressed-IsRecorded (ok _, s) h = h
  suppressed-IsRecorded (err e, s) h = elim (Bool-cases (is_persistence_error e)) [
    | inl caught ↦ rw caught h
    | inr escapes ↦ rw escapes h
  ]

  failed-IsRecorded :
      IsDurable st durable
      → (id : String) (request : Order F) (e : Exception)
      → Triple IsRecorded (failed naming br st run id request e) (λ _. IsRecorded) IsRecorded
  unfolding failed
  failed-IsRecorded law id request e =
      triple-bind IsRecorded (note id _) (λ _. IsRecorded) _ (λ _. IsRecorded) IsRecorded
        (note-IsRecorded id _)
        (λ _.
          triple-bind IsRecorded (λ s. suppressed naming br st run (persist st s)) (λ _. IsRecorded)
            (λ _. lift (err e)) (λ _. IsRecorded) IsRecorded
            (λ s h. suppressed-IsRecorded (persist st s) (persist-IsRecorded law s h))
            (λ _. triple-lift {A = Order F} IsRecorded (err e)))

  handled-IsRecorded :
      IsDurable st durable
      → (id : String) (request : Order F) (w : Result Exception (Order F) × Session F B S)
      → After (λ _. IsRecorded) IsRecorded w
      → After (λ _. IsRecorded) IsRecorded (handled naming br st run id request w)
  handled-IsRecorded law id request (ok o, s) h = h
  handled-IsRecorded law id request (err e, s) h = elim (Bool-cases (is_caught e)) [
    | inl caught ↦ rw caught (failed-IsRecorded law id request e s h)
    | inr escapes ↦ rw escapes h
  ]

  pub attempt-IsRecorded :
      IsDurable st durable
      → (id : String) (request : Order F)
      → Triple (IsReady id) (attempt naming br st run id request) (λ _. IsRecorded) IsRecorded
  unfolding attempt
  attempt-IsRecorded law id request s h =
      handled-IsRecorded law id request (sent_order naming br st run id request s)
        (sent_order-IsRecorded id request s h)

  pub prior_attempt-IsNew :
      run.retry_confirmed_missing ≡ false
      → (id : String)
      → Triple IsRecorded (prior_attempt naming br st run id) (λ _. IsNew id) IsRecorded
  unfolding prior_attempt
  prior_attempt-IsNew strict id s (safe, known) = elim (Option-cases (recorded id s.ledger)) [
    | inl absent ↦ rw absent ((safe, known), unseen-of_unknown id s.ledger s.sent known absent)
    | inr (v, present) ↦ rw present (rw strict (safe, known))
  ]
