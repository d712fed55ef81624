-- ===== src/Scripts/PaperCycle/Once.antt =====
-- scripts/paper_trade_cycle.py: `_reconcile_or_submit` sends no client order id twice.
use quantcortex.Prelude.{String, Bool, ◌≡◌, true, false, Option, none, some}
use quantcortex.Python.Exception.{lift, pure, ◌>>=◌, ◌>>◌}
use quantcortex.Python.Float.{Float}
use quantcortex.Python.Value.{Value, Fields}
use quantcortex.Execution.OrderManager.Order.{Order}
use quantcortex.Scripts.PaperCycle.Intents.{
  Naming, intent_request, make_client_order_id, assert_order_matches_intent,
}
use quantcortex.Scripts.PaperCycle.Ledger.{IsDurable}
use quantcortex.Scripts.PaperCycle.Session.{Broker, SnapshotStore, Session, persist, remember, note}
use quantcortex.Scripts.PaperCycle.Submit.{
  Run, look_up, prior_attempt, attempting, known_order, attempt, reconcile, submit_once,
  reconcile_or_submit, settled, marked, route,
}
use quantcortex.Scripts.PaperCycle.Triples.{Triple, triple-bind, triple-lift}
use quantcortex.Scripts.PaperCycle.Recorded.{
  IsRecorded, IsNew, IsNoted, IsReady, note-IsRecorded, note-IsNoted, remember-IsRecorded,
  persist-IsRecorded, persist-IsReady, look_up-IsRecorded, attempt-IsRecorded, prior_attempt-IsNew,
}

module _ {F B S : Type 0} ⦃fl : Float F⦄ (naming : Naming F) (br : Broker F B)
    (st : SnapshotStore F S) (run : Run) (durable : S → Fields F) where
  -- the conditions of `Recorded`, of this session
  abbrev Kept : Session F B S → Type 0
  Kept = IsRecorded naming br st run durable

  abbrev New : String → Session F B S → Type 0
  New = IsNew naming br st run durable

  abbrev Noted : String → Session F B S → Type 0
  Noted = IsNoted naming br st run durable

  abbrev Ready : String → Session F B S → Type 0
  Ready = IsReady naming br st run durable

  settle-IsRecorded :
      IsDurable st durable
      → (id : String) (request o : Order F) (now_sent : Bool)
      → Triple Kept (settled naming br st run id request o now_sent) (λ _. Kept) Kept
  unfolding settled
  settle-IsRecorded law id request o now_sent =
      triple-bind Kept (note id (known_order naming br st run request o)) (λ _. Kept) _ (λ _. Kept)
        Kept (note-IsRecorded naming br st run durable id (known_order naming br st run request o))
        (λ _.
          triple-bind Kept (remember o) (λ _. Kept) (λ _. persist st >> pure (o, now_sent))
            (λ _. Kept) Kept (remember-IsRecorded naming br st run durable o)
            (λ _.
              triple-bind Kept (persist st) (λ _. Kept) (λ _. pure (o, now_sent)) (λ _. Kept) Kept
                (persist-IsRecorded naming br st run durable law) (λ _ s h. h)))

  marked-IsRecorded :
      IsDurable st durable
      → (id : String) (request : Order F) (mark : Fields F)
      → Triple (New id) (marked naming br st run id request mark) (λ _. Kept) Kept
  unfolding marked
  marked-IsRecorded law id request mark =
      triple-bind (New id) (note id mark) (λ _. Noted id) _ (λ _. Kept) Kept
        (note-IsNoted naming br st run durable id mark)
        (λ _.
          triple-bind (Noted id) (persist st) (λ _. Ready id)
            (λ _. do
              placed ← attempt naming br st run id request
              settled naming br st run id request placed true)
            (λ _. Kept) Kept (persist-IsReady naming br st run durable id law)
            (λ _.
              triple-bind (Ready id) (attempt naming br st run id request) (λ _. Kept)
                (λ placed. settled naming br st run id request placed true) (λ _. Kept) Kept
                (attempt-IsRecorded naming br st run durable law id request)
                (λ placed. settle-IsRecorded law id request placed true)))

  reconcile-IsRecorded :
      IsDurable st durable
      → (id : String) (request existing : Order F)
      → Triple Kept (reconcile naming br st run id request existing) (λ _. Kept) Kept
  unfolding reconcile
  reconcile-IsRecorded law id request existing =
      triple-bind Kept (lift (assert_order_matches_intent existing request)) (λ _. Kept) _
        (λ _. Kept) Kept (triple-lift Kept (assert_order_matches_intent existing request))
        (λ _. settle-IsRecorded law id request existing false)

  submit_once-IsRecorded :
      IsDurable st durable
      → run.retry_confirmed_missing ≡ false
      → (id : String) (request : Order F)
      → Triple Kept (submit_once naming br st run id request) (λ _. Kept) Kept
  unfolding submit_once
  submit_once-IsRecorded law strict id request =
      triple-bind Kept (prior_attempt naming br st run id) (λ _. New id) _ (λ _. Kept) Kept
        (prior_attempt-IsNew naming br st run durable strict id)
        (λ prior. marked-IsRecorded law id request (attempting naming br st run request prior))

  route-IsRecorded :
      IsDurable st durable
      → run.retry_confirmed_missing ≡ false
      → (id : String) (request : Order F) (existing : Option (Order F))
      → Triple Kept (route naming br st run id request existing) (λ _. Kept) Kept
  unfolding route
  route-IsRecorded law strict id request none = submit_once-IsRecorded law strict id request
  route-IsRecorded law strict id request (some o) = reconcile-IsRecorded law id request o

  -- `_reconcile_or_submit` without the option keeps every id that was sent on record, and sends none
  -- a second time.
  pub reconcile_or_submit-IsRecorded :
      IsDurable st durable
      → run.retry_confirmed_missing ≡ false
      → (intent : Value F)
      → Triple Kept (reconcile_or_submit naming br st run intent) (λ _. Kept) Kept
  unfolding reconcile_or_submit
  reconcile_or_submit-IsRecorded law strict intent =
      triple-bind Kept (lift (intent_request intent)) (λ _. Kept) _ (λ _. Kept) Kept
        (triple-lift Kept (intent_request intent))
        (λ request.
          triple-bind Kept (lift (make_client_order_id naming run.day intent)) (λ _. Kept)
            (λ id. look_up naming br st run id >>= route naming br st run id request) (λ _. Kept)
            Kept (triple-lift Kept (make_client_order_id naming run.day intent))
            (λ id.
              triple-bind Kept (look_up naming br st run id) (λ _. Kept)
                (route naming br st run id request) (λ _. Kept) Kept
                (look_up-IsRecorded naming br st run durable id)
                (route-IsRecorded law strict id request)))
