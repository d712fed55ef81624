-- ===== src/Scripts/PaperCycle/Startup.antt =====
-- scripts/paper_trade_cycle.py: what an invocation reads before it submits
-- tells it of every id that was sent before.
use quantcortex.Prelude.{
  String, ◌≡◌, true, false, Option, none, some, List, [], ◌∷◌, All, if◌then◌else◌, not,
}
use quantcortex.Prelude.Result.{Result, ok, err}
use quantcortex.Python.Exception.{Exception, Exec, lift, pure, ◌>>◌}
use quantcortex.Python.Float.{Float}
use quantcortex.Python.Objects.{is_truthy}
use quantcortex.Python.Value.{
  Value, null, bool, int, num, str, list, dict, other, Fields, end, field,
}
use quantcortex.Execution.StatePersistence.Codec.{object_of}
use quantcortex.Execution.StatePersistence.Orders.{has_duplicates}
use quantcortex.Execution.StatePersistence.Snapshot.{ExecutionSnapshot}
use quantcortex.Scripts.PaperCycle.Cycle.{
  Plan, begin, with_store, initialise, starting, first_context,
}
use quantcortex.Scripts.PaperCycle.Intents.{Naming}
use quantcortex.Scripts.PaperCycle.Ledger.{is_known, is_known_in, IsDurable, IsSafe}
use quantcortex.Scripts.PaperCycle.Recorded.{IsRecorded, persist-IsRecorded}
use quantcortex.Scripts.PaperCycle.Session.{
  Broker, SnapshotStore, Session, persist, load_submission_ledger, check_ledger, is_empty_ledger,
}
use quantcortex.Scripts.PaperCycle.Submit.{Run}
use quantcortex.Scripts.PaperCycle.Triples.{
  Triple, After, triple-bind, triple-lift_ok, triple-weaken, After-ok,
}

module _ {F : Type 0} ⦃fl : Float F⦄ where
  -- the mapping that stands for a value that may be false
  known-object_of :
      (id : String) (v : Value F) (fs : Fields F)
      → is_known_in id v ≡ true
      → object_of (if is_truthy v then v else dict end) ≡ ok fs
      → is_known id fs ≡ true
  unfolding is_known_in is_truthy
  known-object_of id (dict end) fs known made = cc
  known-object_of id (dict (field k v gs)) fs known made = cc
  known-object_of id null fs known made = cc
  known-object_of id (bool _) fs known made = cc
  known-object_of id (int _) fs known made = cc
  known-object_of id (num _) fs known made = cc
  known-object_of id (str _) fs known made = cc
  known-object_of id (list _) fs known made = cc
  known-object_of id other fs known made = cc

  All-object_of :
      (v : Value F) (fs : Fields F) (ids : List String)
      → object_of (if is_truthy v then v else dict end) ≡ ok fs
      → All (λ id. is_known_in id v ≡ true) ids
      → All (λ id. is_known id fs ≡ true) ids
  All-object_of v fs [] made known = tt
  All-object_of v fs (id ∷ ids) made (k, ks) =
      (known-object_of id v fs k made, All-object_of v fs ids made ks)

module _ {F B S : Type 0} ⦃fl : Float F⦄ (naming : Naming F) (br : Broker F B)
    (st : SnapshotStore F S) (run : Run) (durable : S → Fields F) where
  load-All :
      IsDurable st durable
      → (s : S) (ids : List String) → All (λ id. is_known id (durable s) ≡ true) ids
      → All (λ id. is_known id (durable (st.load s).1) ≡ true) ids
  load-All law s [] h = tt
  load-All law s (id ∷ ids) (k, ks) = (law.load_keeps s id k, load-All law s ids ks)

  loaded-All :
      IsDurable st durable
      → (s : S) (snap : ExecutionSnapshot F) (ids : List String) → (st.load s).0 ≡ ok (some snap)
      → All (λ id. is_known id (durable s) ≡ true) ids
      → All (λ id. is_known id snap.intents ≡ true) ids
  loaded-All law s snap [] read h = tt
  loaded-All law s snap (id ∷ ids) read (k, ks) =
      (law.load_known s snap id read k, loaded-All law s snap ids read ks)

  attempts-All :
      IsDurable st durable
      → (s : S) (v : Value F) (ids : List String) → (st.load s).0 ≡ ok none
      → (st.load_attempts (st.load s).1).0 ≡ ok v
      → All (λ id. is_known id (durable s) ≡ true) ids
      → All (λ id. is_known_in id v ≡ true) ids
  attempts-All law s v [] none_read read h = tt
  attempts-All law s v (id ∷ ids) none_read read (k, ks) =
      (law.attempts_known s v id none_read read k, attempts-All law s v ids none_read read ks)

  kept-All :
      IsDurable st durable
      → (s : S) (ids : List String) → All (λ id. is_known id (durable s) ≡ true) ids
      → All (λ id. is_known id (durable (st.load_attempts s).1) ≡ true) ids
  kept-All law s [] h = tt
  kept-All law s (id ∷ ids) (k, ks) = (law.attempts_keep s id k, kept-All law s ids ks)

  -- what has been sent is on the ledger that the older store has
  abbrev Attempted : List String → S → Type 0
  Attempted sent s =
      IsSafe st durable sent s
      × ((v : Value F) → (st.load_attempts s).0 ≡ ok v → All (λ id. is_known_in id v ≡ true) sent)

  abbrev Held : List String → Fields F → S → Type 0
  Held sent fs s = IsSafe st durable sent s × All (λ id. is_known id fs ≡ true) sent

  load_attempts-Held :
      IsDurable st durable
      → (sent : List String)
      → Triple
          (Attempted sent)
          st.load_attempts
          (λ v s. IsSafe st durable sent s × All (λ id. is_known_in id v ≡ true) sent)
          (IsSafe st durable sent)
  load_attempts-Held law sent s ((one, kept), known) =
      let kept' = kept-All law s sent kept in
      After-ok (st.load_attempts s)
        (λ v s. IsSafe st durable sent s × All (λ id. is_known_in id v ≡ true) sent)
        (IsSafe st durable sent) (λ v read. ((one, kept'), known v read)) (one, kept')

  load_submission_ledger-Held :
      IsDurable st durable
      → (sent : List String)
      → Triple (Attempted sent) (load_submission_ledger st) (Held sent) (IsSafe st durable sent)
  unfolding load_submission_ledger
  load_submission_ledger-Held law sent =
      let rest : Fields F → Exec S (Fields F) = λ fs. lift (check_ledger fs) >> pure fs in
      triple-bind (Attempted sent) st.load_attempts
        (λ v s. IsSafe st durable sent s × All (λ id. is_known_in id v ≡ true) sent) _ (Held sent)
        (IsSafe st durable sent) (load_attempts-Held law sent)
        (λ v.
          triple-bind (λ s. IsSafe st durable sent s × All (λ id. is_known_in id v ≡ true) sent)
            (lift (object_of (if is_truthy v then v else dict end))) (Held sent) rest (Held sent)
            (IsSafe st durable sent)
            (triple-lift_ok _ (object_of (if is_truthy v then v else dict end)) (Held sent)
              (IsSafe st durable sent) (λ s h fs made. (h.0, All-object_of v fs sent made h.1))
              (λ s h. h.0))
            (λ fs.
              triple-bind (Held sent fs) (lift (check_ledger fs)) (λ _. Held sent fs) (λ _. pure fs)
                (Held sent) (IsSafe st durable sent)
                (triple-lift_ok (Held sent fs) (check_ledger fs) (λ _. Held sent fs)
                  (IsSafe st durable sent) (λ s h _ _. h) (λ s h. h.0))
                (λ _ s h. h)))

  -- what holds of the session after the previous snapshot was read
  abbrev Safely : Session F B S → Type 0
  Safely s = IsSafe st durable s.sent s.store

  abbrev Start : Option (ExecutionSnapshot F) → Session F B S → Type 0
  Start none s = Attempted s.sent s.store
  Start (some snap) s = Safely s × All (λ id. is_known id snap.intents ≡ true) s.sent

  with_store-After :
      {A : Type 0} (s : Session F B S) (w : Result Exception A × S) (Q : A → Session F B S → Type 0)
      (E : Session F B S → Type 0)
      → After
          (λ a store. Q a (record s { store = store }))
          (λ store. E (record s { store = store }))
          w
      → After Q E (w.0, record s { store = w.1 })
  with_store-After s (ok a, store) Q E h = h
  with_store-After s (err e, store) Q E h = h

  -- The ledger is set before anything is sent.
  starting-IsRecorded :
      IsDurable st durable
      → (plan : Plan F) (previous : Option (ExecutionSnapshot F)) (s : Session F B S)
      → Start previous s
      → After
          (λ _. IsRecorded naming br st run durable)
          Safely
          (starting naming br st run plan previous s)
  unfolding starting begin with_store
  starting-IsRecorded law plan none s h =
      triple-bind (λ z. Attempted z.sent z.store) (with_store (load_submission_ledger st))
        (λ ledger z. Held z.sent ledger z.store)
        (λ ledger. begin ledger (first_context plan (not (is_empty_ledger ledger))))
        (λ _. IsRecorded naming br st run durable) Safely
        (λ z held.
          with_store-After z (load_submission_ledger st z.store)
            (λ ledger y. Held y.sent ledger y.store) Safely
            (load_submission_ledger-Held law z.sent z.store held))
        (λ ledger z held. held) s h
  starting-IsRecorded law plan (some snap) s (safe, known) = (safe, known)

  loaded-Start :
      IsDurable st durable
      → (s : Session F B S) → has_duplicates s.sent ≡ false
      → All (λ id. is_known id (durable s.store) ≡ true) s.sent
      → All (λ id. is_known id (durable (st.load s.store).1) ≡ true) s.sent
      → (previous : Option (ExecutionSnapshot F)) → (st.load s.store).0 ≡ ok previous
      → Start previous (record s { store = (st.load s.store).1 })
  loaded-Start law s one kept kept' none read =
      ((one, kept'), λ v loaded. attempts-All law s.store v s.sent read loaded kept)
  loaded-Start law s one kept kept' (some snap) read =
      ((one, kept'), loaded-All law s.store snap s.sent read kept)

  read-Start :
      IsDurable st durable
      → (s : Session F B S) → Safely s
      → After Start Safely (with_store st.load s)
  unfolding with_store
  read-Start law s (one, kept) =
      let kept' = load-All law s.store s.sent kept in
      with_store-After s (st.load s.store) Start Safely (
        After-ok (st.load s.store) (λ previous store. Start previous (record s { store = store }))
          (IsSafe st durable s.sent) (loaded-Start law s one kept kept') (one, kept'))

  -- `_initialise_submission_state` puts every id that was sent before on the session's ledger.
  pub initialise-IsRecorded :
      IsDurable st durable
      → (plan : Plan F)
      → Triple Safely
          (initialise naming br st run plan)
          (λ _. IsRecorded naming br st run durable)
          Safely
  unfolding initialise
  initialise-IsRecorded law plan =
      triple-bind Safely (with_store st.load) Start
        (λ previous. starting naming br st run plan previous >> persist st)
        (λ _. IsRecorded naming br st run durable) Safely (read-Start law)
        (λ previous.
          triple-bind (Start previous) (starting naming br st run plan previous)
            (λ _. IsRecorded naming br st run durable) (λ _. persist st)
            (λ _. IsRecorded naming br st run durable) Safely
            (starting-IsRecorded law plan previous)
            (λ _.
              triple-weaken (IsRecorded naming br st run durable) (persist st)
                (λ _. IsRecorded naming br st run durable) (IsRecorded naming br st run durable)
                Safely (persist-IsRecorded naming br st run durable law) (λ s h. h.0)))
