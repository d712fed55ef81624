-- ===== src/Execution/OrderManager/FillOutcomes.antt =====
-- quantcortex/execution/order_manager.py: what `fill` can come to, one constructor for each way.
use quantcortex.Prelude.{
  String, subst, sym, ap, ◌∙◌, ◌≡◌, refl, inl, inr, true, false, Option, none, some, arith,
  Bool-cases,
}
use quantcortex.Prelude.Result.{Result, ok, err, Result-cases}
use quantcortex.Python.Dict.{lookup, insert, insert-insert}
use quantcortex.Python.Exception.{
  Exception, order_error, invalid_transition_error, lift, pure, ◌>>=◌,
}
use quantcortex.Python.Float.{Float, zero, is_positive}
use quantcortex.Python.Value.{Value}
use quantcortex.Execution.OrderManager.Status.{allowed}
use quantcortex.Execution.OrderManager.Order.{
  Order, fill_tolerance, bad_price, optional_number, validate, remaining_quantity,
}
use quantcortex.Execution.OrderManager.Manager.{
  Book, order_key, find, transition, write_fill, fill, fill_increment, fill_target, grow, average,
}
use quantcortex.Execution.OrderManager.Outcomes.{advance, find_cases}

module _ {F : Type 0} ⦃fl : Float F⦄ where
  -- Pricing a fill adds the increment and leaves all else but the average price.
  pub average-grows :
      (at : Option F) (increment : F) (o : Order F) {priced : Order F}
      → average at increment o ≡ ok priced
      → priced ≡ record (grow increment o) { avg_fill_price = priced.avg_fill_price }
  unfolding average
  average-grows none increment o h = ground arith
  average-grows (some p) increment o h = ground arith

  average_raises :
      (at : Option F) (increment : F) (o : Order F) {e : Exception}
      → average at increment o ≡ err e
      → fl.eq (fl.add o.filled_quantity increment) zero ≡ true
  unfolding average
  average_raises at increment o h = ground arith

  -- the order that a fill leaves, once its price is known
  abbrev pub after_fill : F → Order F → Order F → Order F
  after_fill increment o priced = advance (fill_target increment o) priced

  -- `fill` from its first write on: a raise by the division of the average price or by the final
  -- validation, both with the order already written, or a filled order that is valid.
  pub data Writes (k : String) (o : Order F) (increment : F) (at : Option F) (b : Book F)
      : Result Exception (Order F) × Book F → Type 0 where
    divided :
        (e : Exception)
        → fl.eq (fl.add o.filled_quantity increment) zero ≡ true
        → Writes k o increment at b (err e, insert k (grow increment o) b)
    invalidated :
        (e : Exception) (priced : Order F)
        → average at increment o ≡ ok priced
        → validate (after_fill increment o priced) ≡ err e
        → Writes k o increment at b (err e, insert k (after_fill increment o priced) b)
    written :
        (priced : Order F)
        → average at increment o ≡ ok priced
        → validate (after_fill increment o priced) ≡ ok tt
        → Writes k o increment at b
            (ok (after_fill increment o priced), insert k (after_fill increment o priced) b)

  module _ (k : String) (o : Order F) (increment : F) (at : Option F) (b : Book F) where
    transition_after :
        (priced : Order F)
        → allowed o.status (fill_target increment o) ≡ true
        → average at increment o ≡ ok priced
        → transition priced (fill_target increment o) ≡ ok (after_fill increment o priced)
    unfolding transition
    transition_after priced legal h =
        let same : priced.status ≡ o.status =
          ap (λ (x : Order F). x.status) (average-grows at increment o h) in
        ground arith

    write_end :
        (priced : Order F)
        → allowed o.status (fill_target increment o) ≡ true
        → average at increment o ≡ ok priced
        → write_fill k o increment at b
          ≡ (lift (validate (after_fill increment o priced)) >>= λ _.
                pure (after_fill increment o priced))
              (insert k (after_fill increment o priced) b)
    unfolding write_fill
    write_end priced legal h = rw (h, transition_after priced legal h) (simp insert-insert)

    write_raises :
        {e : Exception}
        → average at increment o ≡ err e
        → write_fill k o increment at b ≡ (err e, insert k (grow increment o) b)
    unfolding write_fill
    write_raises h = rw h

    pub write_fill-Writes :
        allowed o.status (fill_target increment o) ≡ true
        → Writes k o increment at b (write_fill k o increment at b)
    write_fill-Writes legal = elim (Result-cases (average at increment o)) [
      | inr (e, raised) ↦
          subst (Writes k o increment at b) (sym (write_raises raised))
            (divided e (average_raises at increment o raised))
      | inl (priced, h) ↦ elim (Result-cases (validate (after_fill increment o priced))) [
        | inr (e, invalid) ↦
            subst (Writes k o increment at b) (sym (write_end priced legal h ∙ rw invalid refl))
              (invalidated e priced h invalid)
        | inl (_, valid) ↦
            subst (Writes k o increment at b) (sym (write_end priced legal h ∙ rw valid refl))
              (written priced h valid)
      ]
    ]

  -- `fill`: a raise that changed nothing, or the guards passed and the order is written.
  pub data Fills (quantity price id : Value F) (b : Book F)
      : Result Exception (Order F) × Book F → Type 0 where
    refused : (e : Exception) → Fills quantity price id b (err e, b)
    accepted :
        (k : String) (o : Order F) (increment : F) (at : Option F)
        {r : Result Exception (Order F) × Book F}
        → order_key id ≡ ok k
        → lookup k b ≡ some o
        → fill_increment quantity o ≡ ok increment
        → is_positive increment ≡ true
        → fl.lt fill_tolerance (fl.sub increment (remaining_quantity o)) ≡ false
        → allowed o.status (fill_target increment o) ≡ true
        → optional_number price ≡ ok at
        → bad_price at ≡ false
        → Writes k o increment at b r
        → Fills quantity price id b r

  module _ (id quantity price : Value F) (b : Book F) where
    fill_at :
        (k : String) (o : Order F) (increment : F) (at : Option F)
        → order_key id ≡ ok k
        → lookup k b ≡ some o
        → find id b ≡ (ok (k, o), b)
        → fill_increment quantity o ≡ ok increment
        → is_positive increment ≡ true
        → optional_number price ≡ ok at
        → bad_price at ≡ false
        → Fills quantity price id b (fill id quantity price b)
    unfolding fill
    fill_at k o increment at keyed found here taken positive read usable =
        elim (Bool-cases (fl.lt fill_tolerance (fl.sub increment (remaining_quantity o)))) [
          | inl exceeds ↦ subst (Fills quantity price id b) (ground arith) (refused order_error)
          | inr fits ↦ elim (Bool-cases (allowed o.status (fill_target increment o))) [
            | inr illegal ↦
                subst (Fills quantity price id b) (ground arith) (refused invalid_transition_error)
            | inl legal ↦ subst (Fills quantity price id b) (ground arith) (
                accepted k o increment at keyed found taken positive fits legal read usable
                  (write_fill-Writes k o increment at b legal))
          ]
        ]

    fill_found :
        (k : String) (o : Order F)
        → order_key id ≡ ok k
        → lookup k b ≡ some o
        → find id b ≡ (ok (k, o), b)
        → Fills quantity price id b (fill id quantity price b)
    unfolding fill
    fill_found k o keyed found here = elim (Result-cases (fill_increment quantity o)) [
      | inr (e, raised) ↦ subst (Fills quantity price id b) (ground arith) (refused e)
      | inl (increment, taken) ↦ elim (Bool-cases (is_positive increment)) [
        | inr bad ↦ subst (Fills quantity price id b) (ground arith) (refused order_error)
        | inl positive ↦ elim (Result-cases (optional_number price)) [
          | inr (e, raised) ↦ subst (Fills quantity price id b) (ground arith) (refused e)
          | inl (at, read) ↦ elim (Bool-cases (bad_price at)) [
            | inl bad ↦ subst (Fills quantity price id b) (ground arith) (refused order_error)
            | inr usable ↦ fill_at k o increment at keyed found here taken positive read usable
          ]
        ]
      ]
    ]

    pub fill-Fills : Fills quantity price id b (fill id quantity price b)
    unfolding fill
    fill-Fills = elim (find_cases id b) [
      | inl (e, raised) ↦ subst (Fills quantity price id b) (ground arith) (refused e)
      | inr (k, o, keyed, found, here) ↦ fill_found k o keyed found here
    ]
