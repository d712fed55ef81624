-- ===== src/Scripts/PaperCycle/Sends.antt =====
-- scripts/paper_trade_cycle.py: an order that is new to the ledger and to the broker is sent, unless a
-- save raises.
use quantcortex.Prelude.{
  String, ◌≡◌, refl, sym, ap, subst, Bool, true, none, List, ◌∷◌, ◌⊎◌, inl, inr,
}
use quantcortex.Prelude.Result.{Result, ok, err}
use quantcortex.Python.Exception.{Exception, lift, ◌>>=◌}
use quantcortex.Python.Float.{Float}
use quantcortex.Python.Value.{Value, Fields}
use quantcortex.Execution.OrderManager.Order.{Order}
use quantcortex.Scripts.PaperCycle.Intents.{
  Naming, intent_request, make_client_order_id, assert_order_matches_intent,
}
use quantcortex.Scripts.PaperCycle.Session.{Broker, SnapshotStore, Session, persist, note, recorded}
use quantcortex.Scripts.PaperCycle.Submit.{
  Run, look_up, send, prior_attempt, attempting, sent_order, attempt, submit_once,
  reconcile_or_submit, settled, marked, route,
}
use quantcortex.Scripts.PaperCycle.Triples.{Triple, After, triple-bind, bind-returned}
use quantcortex.Scripts.PaperCycle.Placing.{
  Saved, start, Sent, Unsaved, note-Sent, persist-Sent, Placed, settled-Placed,
}

module _ {F B S : Type 0} ⦃fl : Float F⦄ (naming : Naming F) (br : Broker F B)
    (st : SnapshotStore F S) (run : Run) (origin : S) where
  -- the conditions of `Placing`, of this session
  abbrev SentAt : List String → B → Session F B S → Type 0
  SentAt = Sent naming br st run origin

  abbrev PlacedAs : List String → Order F → Order F × Bool → Session F B S → Type 0
  PlacedAs = Placed naming br st run origin

  abbrev Halted : Session F B S → Type 0
  Halted = Unsaved naming br st run origin

  pair :
      {x y : String} {z w : Session F B S}
      → x ≡ y
      → z ≡ w
      → ◌≡◌ {A = String × Session F B S} (x, z) (y, w)
  pair p q = cc

  -- the outcome of the attempt, where the broker takes the order
  abbrev Taken : List String → B → Order F → Order F → Session F B S → Type 0
  Taken ids b o placed s = (placed ≡ o) × SentAt ids b s

  attempt-Taken :
      (ids : List String) (b : B) (id : String) (request o : Order F)
      → (br.place request.symbol request.side request.quantity id b).0 ≡ ok o
      → assert_order_matches_intent o request ≡ ok tt
      → Triple
          (SentAt ids b)
          (attempt naming br st run id request)
          (Taken (id ∷ ids) (br.place request.symbol request.side request.quantity id b).1 o)
          Halted
  unfolding attempt sent_order send
  attempt-Taken ids b id request o takes matches s (same, here, reached) =
      let answer = br.place request.symbol request.side request.quantity id s.broker in
      let taken : answer.0 ≡ ok o = rw here takes in
      let after : Session F B S = record s { broker = answer.1; sent = id ∷ s.sent } in
      let done : attempt naming br st run id request s ≡ (ok o, after) = cc in
      subst
        (After (Taken (id ∷ ids) (br.place request.symbol request.side request.quantity id b).1 o)
          Halted)
        (sym done)
        (
          refl,
          (
            ap (λ l. id ∷ l) same,
            ap (λ z. (br.place request.symbol request.side request.quantity id z).1) here,
            reached,
          ),
        )

  marked-Placed :
      (ids : List String) (b : B) (id : String) (request o : Order F) (mark : Fields F)
      → (br.place request.symbol request.side request.quantity id b).0 ≡ ok o
      → assert_order_matches_intent o request ≡ ok tt
      → Triple
          (SentAt ids b)
          (marked naming br st run id request mark)
          (PlacedAs (id ∷ ids) o)
          Halted
  unfolding marked
  marked-Placed ids b id request o mark takes matches =
      let b' = (br.place request.symbol request.side request.quantity id b).1 in
      triple-bind (SentAt ids b) (note id mark) (λ _. SentAt ids b) _ (PlacedAs (id ∷ ids) o) Halted
        (note-Sent naming br st run origin ids b id mark)
        (λ _.
          triple-bind (SentAt ids b) (persist st) (λ _. SentAt ids b)
            (λ _. attempt naming br st run id request >>= λ placed.
              settled naming br st run id request placed true)
            (PlacedAs (id ∷ ids) o) Halted (persist-Sent naming br st run origin ids b)
            (λ _.
              triple-bind (SentAt ids b) (attempt naming br st run id request)
                (Taken (id ∷ ids) b' o) (λ placed. settled naming br st run id request placed true)
                (PlacedAs (id ∷ ids) o) Halted (attempt-Taken ids b id request o takes matches)
                (λ placed s h.
                  subst
                    (λ x.
                      After (PlacedAs (id ∷ ids) o) Halted
                        (settled naming br st run id request x true s))
                    (sym h.0)
                    (settled-Placed naming br st run origin (id ∷ ids) b' id request o s h.1))))

  After-Placed :
      (ids : List String) (o : Order F) (w : Result Exception (Order F × Bool) × Session F B S)
      → After (PlacedAs ids o) Halted w
      → ((w.0 ≡ ok (o, true)) × (w.1.sent ≡ ids)) ⊎ ((e : Exception) × (w.0 ≡ err e) × Halted w.1)
  After-Placed ids o (ok r, s) (same, sent) = inl (ap ok same, sent)
  After-Placed ids o (err e, s) h = inr (e, refl, h)

  prior_attempt-none :
      (id : String) (s : Session F B S)
      → recorded id s.ledger ≡ none
      → prior_attempt naming br st run id s ≡ (ok none, s)
  unfolding prior_attempt
  prior_attempt-none id s absent = rw absent refl

  abbrev At : Session F B S → Session F B S → Type 0
  At s z = z ≡ s

  lift-returned :
      {A : Type 0} (P : Session F B S → Type 0) (r : Result Exception A) (a : A)
      → r ≡ ok a
      → Triple P (lift r) (λ x z. (x ≡ a) × P z) Halted
  lift-returned P r a same z h =
      subst (λ x. After (λ y z. (y ≡ a) × P z) Halted (x, z)) (sym same) (refl, h)

  look_up-none :
      (id : String) (s : Session F B S) (b : B)
      → br.find id s.broker ≡ (ok none, b)
      → look_up naming br st run id s ≡ (ok none, record s { broker = b })
  unfolding look_up
  look_up-none id s b absent = cc

  submit_once-marked :
      (id : String) (request : Order F) (s : Session F B S)
      → recorded id s.ledger ≡ none
      → submit_once naming br st run id request s
        ≡ marked naming br st run id request (attempting naming br st run request none) s
  unfolding submit_once
  submit_once-marked id request s absent =
      bind-returned (prior_attempt naming br st run id)
        (λ prior. marked naming br st run id request (attempting naming br st run request prior)) s
        s none (prior_attempt-none id s absent)

  route-Placed :
      (id : String) (request o : Order F) (s : Session F B S)
      → Saved st origin s.store
      → recorded id s.ledger ≡ none
      → (br.place request.symbol request.side request.quantity id s.broker).0 ≡ ok o
      → assert_order_matches_intent o request ≡ ok tt
      → After (PlacedAs (id ∷ s.sent) o) Halted (route naming br st run id request none s)
  unfolding route
  route-Placed id request o s reached new takes matches =
      let mark = attempting naming br st run request none in
      subst (After (PlacedAs (id ∷ s.sent) o) Halted) (sym (submit_once-marked id request s new))
        (marked-Placed s.sent s.broker id request o mark takes matches s (refl, refl, reached))

  found-Placed :
      (s : Session F B S) (request o : Order F) (id : String) (b : B)
      → Saved st origin s.store
      → br.find id s.broker ≡ (ok none, b)
      → recorded id s.ledger ≡ none
      → (br.place request.symbol request.side request.quantity id b).0 ≡ ok o
      → assert_order_matches_intent o request ≡ ok tt
      → After
          (PlacedAs (id ∷ s.sent) o)
          Halted
          ((look_up naming br st run id >>= route naming br st run id request) s)
  found-Placed s request o id b reached absent new takes matches =
      let found : Session F B S = record s { broker = b } in
      subst (After (PlacedAs (id ∷ s.sent) o) Halted)
        (sym (
          bind-returned (look_up naming br st run id) (route naming br st run id request) s found
            none (look_up-none id s b absent)))
        (route-Placed id request o found reached new takes matches)

  reconcile_or_submit-Placed :
      (intent : Value F) (s : Session F B S) (request o : Order F) (id : String) (b : B)
      → Saved st origin s.store
      → intent_request intent ≡ ok request
      → make_client_order_id naming run.day intent ≡ ok id
      → br.find id s.broker ≡ (ok none, b)
      → recorded id s.ledger ≡ none
      → (br.place request.symbol request.side request.quantity id b).0 ≡ ok o
      → assert_order_matches_intent o request ≡ ok tt
      → Triple
          (At s)
          (reconcile_or_submit naming br st run intent)
          (PlacedAs (id ∷ s.sent) o)
          Halted
  unfolding reconcile_or_submit
  reconcile_or_submit-Placed intent s request o id b reached asked named absent new takes matches =
      let goal = PlacedAs (id ∷ s.sent) o in
      let found =
        λ (x : String) (r : Order F). look_up naming br st run x >>= route naming br st run x r in
      let rest =
        λ (r : Order F). lift (make_client_order_id naming run.day intent) >>= λ x. found x r in
      triple-bind (At s) (lift (intent_request intent)) (λ r z. (r ≡ request) × At s z) rest goal
        Halted (lift-returned (At s) (intent_request intent) request asked)
        (λ r z h.
          subst (λ y. After goal Halted (rest y z)) (sym h.0)
            (triple-bind (At s) (lift (make_client_order_id naming run.day intent))
              (λ x y. (x ≡ id) × At s y) (λ x. found x request) goal Halted
              (lift-returned (At s) (make_client_order_id naming run.day intent) id named)
              (λ x y k.
                subst (λ w. After goal Halted (found w.0 request w.1)) (sym (pair k.0 k.1))
                  (found-Placed s request o id b reached absent new takes matches))
              z h.1))

module _ {F B S : Type 0} ⦃fl : Float F⦄ (naming : Naming F) (br : Broker F B)
    (st : SnapshotStore F S) (run : Run) where
  -- An intent whose request is valid, whose client order id the ledger has no record of and the
  -- broker does not find, and whose order the broker takes and returns one that matches it: the
  -- call returns that order as submitted by it, after one call of `submit_order`, with that id; or
  -- it raises, and the session ended in a save, in which the store that its own saves have led to
  -- refused its ledger and context.
  pub reconcile_or_submit-sends :
      (intent : Value F) (s : Session F B S) (request o : Order F) (id : String) (b : B)
      → intent_request intent ≡ ok request
      → make_client_order_id naming run.day intent ≡ ok id
      → br.find id s.broker ≡ (ok none, b)
      → recorded id s.ledger ≡ none
      → (br.place request.symbol request.side request.quantity id b).0 ≡ ok o
      → assert_order_matches_intent o request ≡ ok tt
      → (((reconcile_or_submit naming br st run intent s).0 ≡ ok (o, true))
          × ((reconcile_or_submit naming br st run intent s).1.sent ≡ id ∷ s.sent))
        ⊎ ((e : Exception) × ((reconcile_or_submit naming br st run intent s).0 ≡ err e)
            × Unsaved naming br st run s.store (reconcile_or_submit naming br st run intent s).1)
  reconcile_or_submit-sends intent s request o id b asked named absent new takes matches =
      After-Placed naming br st run s.store (id ∷ s.sent) o
        (reconcile_or_submit naming br st run intent s)
        (reconcile_or_submit-Placed naming br st run s.store intent s request o id b start asked
          named absent new takes matches s refl)
