-- ===== src/Scripts/PaperCycle/Cycles.antt =====
-- scripts/paper_trade_cycle.py: any number of invocations, each of which may end anywhere.
use quantcortex.Prelude.{
  ℕ, ◌≡◌, refl, sym, subst, Bool, true, false, List, [], ◌∷◌, All, Bool-cases, inl, inr,
  if◌then◌else◌, is_empty,
}
use quantcortex.Prelude.Result.{Result, ok, err}
use quantcortex.Python.Exception.{Exception, Exec, lift, pure, ◌>>=◌}
use quantcortex.Python.Float.{Float}
use quantcortex.Python.Value.{Value, Fields}
use quantcortex.Execution.OrderManager.Order.{Order}
use quantcortex.Execution.OrderManager.Manager.{Book, register}
use quantcortex.Execution.OrderManager.Status.{buy, sell}
use quantcortex.Execution.StatePersistence.Orders.{has_duplicates}
use quantcortex.Scripts.PaperCycle.Cycle.{
  Plan, Tally, World, initialise, after_intent, after_register, phase, submit_plan, submit_sides,
  invoke, is_refused, exit_status,
}
use quantcortex.Scripts.PaperCycle.Intents.{Naming, of_side}
use quantcortex.Scripts.PaperCycle.Ledger.{IsDurable, IsSafe}
use quantcortex.Scripts.PaperCycle.Once.{reconcile_or_submit-IsRecorded}
use quantcortex.Scripts.PaperCycle.Recorded.{IsRecorded}
use quantcortex.Scripts.PaperCycle.Session.{Broker, SnapshotStore, Session}
use quantcortex.Scripts.PaperCycle.Startup.{initialise-IsRecorded}
use quantcortex.Scripts.PaperCycle.Submit.{Run, is_caught, reconcile_or_submit}
use quantcortex.Scripts.PaperCycle.Triples.{
  Triple, After, triple-bind, triple-lift, triple-weaken, After-state,
}

-- One invocation: its options, what it has computed, and what the broker does before it.
pub record Invocation (F B : Type 0) : Type 0 where
  pub run : Run
  pub plan : Plan F
  pub drift : B → B

module _ {F B S : Type 0} ⦃fl : Float F⦄ (naming : Naming F) (br : Broker F B)
    (st : SnapshotStore F S) (run : Run) (durable : S → Fields F) where
  abbrev Kept : Session F B S → Type 0
  Kept s = IsRecorded naming br st run durable s

  after_register-Kept :
      (continue : Tally F → Exec (Session F B S) (Tally F))
      → ((t : Tally F) → Triple Kept (continue t) (λ _. Kept) Kept)
      → (t : Tally F) (o : Order F) (s : Session F B S) (w : Result Exception (Order F) × Book F)
      → Kept s
      → After (λ _. Kept) Kept (after_register naming br st run continue t o s w)
  unfolding after_register
  after_register-Kept continue goes t o s (err e, book) h = elim (Bool-cases (is_caught e)) [
    | inl caught ↦ rw caught h
    | inr escapes ↦ rw escapes h
  ]
  after_register-Kept continue goes t o s (ok _, book) h = elim (Bool-cases (is_refused o.status)) [
    | inl refused ↦ rw refused h
    | inr placed ↦ rw placed (goes (record t { book = book }) s h)
  ]

  after_intent-Kept :
      (continue : Tally F → Exec (Session F B S) (Tally F))
      → ((t : Tally F) → Triple Kept (continue t) (λ _. Kept) Kept)
      → (t : Tally F) (w : Result Exception (Order F × Bool) × Session F B S)
      → After (λ _. Kept) Kept w
      → After (λ _. Kept) Kept (after_intent naming br st run continue t w)
  unfolding after_intent
  after_intent-Kept continue goes t (err e, s) h = elim (Bool-cases (is_caught e)) [
    | inl caught ↦ rw caught h
    | inr escapes ↦ rw escapes h
  ]
  after_intent-Kept continue goes t (ok (o, false), s) h = h
  after_intent-Kept continue goes t (ok (o, true), s) h =
      after_register-Kept continue goes t o s (register o t.book) h

  phase-Kept :
      IsDurable st durable
      → run.retry_confirmed_missing ≡ false
      → (intents : List (Value F)) (t : Tally F)
      → Triple Kept (phase naming br st run intents t) (λ _. Kept) Kept
  unfolding phase
  phase-Kept law strict [] t s h = h
  phase-Kept law strict (intent ∷ intents) t s h =
      after_intent-Kept (phase naming br st run intents) (phase-Kept law strict intents) t
        (reconcile_or_submit naming br st run intent s)
        (reconcile_or_submit-IsRecorded naming br st run durable law strict intent s h)

  abbrev Safely : Session F B S → Type 0
  Safely s = IsSafe st durable s.sent s.store

  submit_sides-Safely :
      IsDurable st durable
      → run.retry_confirmed_missing ≡ false
      → (sells buys : List (Value F))
      → Triple Kept (submit_sides naming br st run sells buys) (λ _. Safely) Safely
  unfolding submit_sides
  submit_sides-Safely law strict sells buys =
      let first = if is_empty sells then buys else sells in
      let start : Tally F = record { book = []; failures = 0; reconciled = false } in
      triple-bind Kept (phase naming br st run first start) (λ _. Kept)
        (λ t. pure (exit_status naming br st run sells buys t)) (λ _. Safely) Safely
        (triple-weaken Kept (phase naming br st run first start) (λ _. Kept) Kept Safely
          (phase-Kept law strict first start) (λ s h. h.0))
        (λ t s h. h.0)

  submit_plan-Safely :
      IsDurable st durable
      → run.retry_confirmed_missing ≡ false
      → (plan : Plan F) → Triple Safely (submit_plan naming br st run plan) (λ _. Safely) Safely
  unfolding submit_plan
  submit_plan-Safely law strict plan =
      let sides : List (Value F) → List (Value F) → Exec (Session F B S) ℕ =
        λ sells buys. submit_sides naming br st run sells buys in
      let drop = λ (A : Type 0) (r : Result Exception A).
        triple-weaken Kept (lift r) (λ _. Kept) Kept Safely (triple-lift Kept r) (λ s h. h.0) in
      triple-bind Safely (initialise naming br st run plan) (λ _. Kept) _ (λ _. Safely) Safely
        (initialise-IsRecorded naming br st run durable law plan)
        (λ _.
          triple-bind Kept (lift (of_side sell plan.intents)) (λ _. Kept)
            (λ sells. lift (of_side buy plan.intents) >>= sides sells) (λ _. Safely) Safely
            (drop (List (Value F)) (of_side sell plan.intents))
            (λ sells.
              triple-bind Kept (lift (of_side buy plan.intents)) (λ _. Kept) (sides sells)
                (λ _. Safely) Safely (drop (List (Value F)) (of_side buy plan.intents))
                (submit_sides-Safely law strict sells)))

  invoke-IsSafe :
      IsDurable st durable
      → run.retry_confirmed_missing ≡ false
      → (plan : Plan F) (w : World B S) → IsSafe st durable w.sent w.store
      → IsSafe st durable
          (invoke naming br st run plan w).1.sent
          (invoke naming br st run plan w).1.store
  unfolding invoke
  invoke-IsSafe law strict plan w h =
      After-state (submit_plan naming br st run plan _) Safely
        (submit_plan-Safely law strict plan _ h)

module _ {F B S : Type 0} ⦃fl : Float F⦄ (naming : Naming F) (br : Broker F B)
    (st : SnapshotStore F S) where
  -- the invocations, one after the other
  unfoldable pub invoke_all : List (Invocation F B) → World B S → World B S
  unfolding invoke
  invoke_all [] w = w
  invoke_all (i ∷ is) w =
      invoke_all is (invoke naming br st i.run i.plan (record w { broker = i.drift w.broker })).1

module _ {F B S : Type 0} ⦃fl : Float F⦄ (naming : Naming F) (br : Broker F B)
    (st : SnapshotStore F S) (durable : S → Fields F) where
  invoke_all-IsSafe :
      IsDurable st durable
      → (is : List (Invocation F B)) (w : World B S)
      → All (λ i. i.run.retry_confirmed_missing ≡ false) is
      → IsSafe st durable w.sent w.store
      → IsSafe st durable (invoke_all naming br st is w).sent (invoke_all naming br st is w).store
  unfolding invoke_all
  invoke_all-IsSafe law [] w strict h = h
  invoke_all-IsSafe law (i ∷ is) w (one, rest) h =
      let w' = record w { broker = i.drift w.broker } in
      invoke_all-IsSafe law is (invoke naming br st i.run i.plan w').1 rest
        (invoke-IsSafe naming br st i.run durable law one i.plan w' h)

  -- Where nothing was sent before, and none of the invocations has the option that allows a retry,
  -- no sequence of them calls the broker's `submit_order` twice with one client order id: whatever
  -- the broker answers, whatever it does between them, and whichever of the calls raise or end the
  -- process. The store's saves and loads are durable.
  pub sends_once :
      IsDurable st durable
      → (is : List (Invocation F B)) (w : World B S)
      → All (λ i. i.run.retry_confirmed_missing ≡ false) is
      → w.sent ≡ []
      → has_duplicates (invoke_all naming br st is w).sent ≡ false
  unfolding has_duplicates
  sends_once law is w strict nothing =
      (invoke_all-IsSafe law is w strict
        (subst (λ ids. IsSafe st durable ids w.store) (sym nothing) (refl, tt))).0
