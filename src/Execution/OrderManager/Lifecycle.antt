-- ===== src/Execution/OrderManager/Lifecycle.antt =====
-- quantcortex/execution/order_manager.py: every method keeps the book sound.
use quantcortex.Prelude.{String, ◌≡◌, refl, ap, ◌∙◌, false, Option, some, arith, subst}
use quantcortex.Prelude.Result.{Result, ok, bind-ok}
use quantcortex.Python.Dict.{lookup}
use quantcortex.Python.Exception.{Exception}
use quantcortex.Python.Float.{Float}
use quantcortex.Python.Text.{strip, is_blank, strip_idem}
use quantcortex.Python.Value.{Value, str}
use quantcortex.Execution.OrderManager.Status.{OrderStatus, submitted, cancelled, rejected}
use quantcortex.Execution.OrderManager.Order.{
  Order, OrderArgs, text_field, coerced, validate, make_order, order_args,
}
use quantcortex.Execution.OrderManager.Manager.{Book, order_key, submit, cancel, reject, average}
use quantcortex.Execution.OrderManager.Calls.{
  Request, call, create, enter, send, execute, withdraw, refuse,
}
use quantcortex.Execution.OrderManager.Outcomes.{
  advance, Moves, Creates, Registers, refused, moved, created, registered, move-Moves,
  create_order-Creates, register-Registers,
}
use quantcortex.Execution.OrderManager.FillOutcomes.{
  after_fill, Fills, Writes, accepted, divided, invalidated, written, fill-Fills, average-grows,
  refused,
}
use quantcortex.Execution.OrderManager.Validity.{IsValid, FillFits, validate_sound}
use quantcortex.Execution.OrderManager.Soundness.{
  make_order-IsValid, IsSound, insert-IsSound, order_key_stripped, advance-IsValid,
}

module _ {F : Type 0} ⦃fl : Float F⦄ where
  -- what `reject` and the others write beside the transition
  record Harmless (touch : Order F → Order F) : Type 0 where
    keeps : (o : Order F) → IsValid o → IsValid (touch o)
    same_id : (o : Order F) → (touch o).order_id ≡ o.order_id

  Moves-IsSound :
      {touch : Order F → Order F} {next : OrderStatus} {id : Value F} {b : Book F}
      {r : Result Exception (Order F) × Book F}
      → Harmless touch
      → ((o : Order F) → FillFits next o.filled_quantity o.quantity)
      → Moves touch next id b r
      → IsSound b
      → IsSound r.1
  Moves-IsSound t fits (refused e) s = s
  Moves-IsSound {touch} {next} {b = b} t fits (moved k o keyed found legal) s =
      let e = s.at_key k o found in
      insert-IsSound k (touch (advance next o)) b
        (record {
          valid = t.keeps (advance next o) (advance-IsValid next o legal (fits o) e.valid);
          keyed = t.same_id (advance next o) ∙ e.keyed;
          stripped = e.stripped;
        })
        s

  Creates-IsSound :
      {args : String → OrderArgs F} {id : Value F} {b : Book F}
      {r : Result Exception (Order F) × Book F}
      → ((k : String) (o : Order F) → strip k ≡ k → make_order (args k) ≡ ok o → o.order_id ≡ k)
      → Creates args id b r
      → IsSound b
      → IsSound r.1
  Creates-IsSound named (refused e) s = s
  Creates-IsSound {args} {id} {b} named (created k o keyed free made) s =
      let stripped = order_key_stripped id k keyed in
      insert-IsSound k o b
        (record {
          valid = make_order-IsValid (args k) made;
          keyed = named k o stripped made;
          stripped = stripped;
        })
        s

  coerced_id :
      (r : OrderArgs F) {o : Order F} (id : String)
      → coerced r ≡ ok o
      → text_field r.order_id ≡ ok id
      → o.order_id ≡ id
  unfolding coerced
  coerced_id r id h e = ground arith

  made_id :
      (k : String) (symbol side quantity kind price : Value F) (o : Order F)
      → strip k ≡ k
      → make_order (order_args (str k) symbol side quantity kind price) ≡ ok o
      → o.order_id ≡ k
  unfolding make_order
  made_id k symbol side quantity kind price o same made =
      let args = order_args (str k) symbol side quantity kind price in
      let (draft, read, e) = bind-ok (coerced args) _ made in
      let (_, v, e') = bind-ok (validate draft) _ e in
      let read_id : draft.order_id ≡ strip k = coerced_id args (strip k) read refl in
      let out : draft ≡ o = ground arith in
      subst (λ (x : Order F). x.order_id ≡ k) out (read_id ∙ same)

  rename-IsValid :
      (o : Order F) (k : String)
      → is_blank (strip k) ≡ false
      → IsValid o
      → IsValid (record o { order_id = k })
  rename-IsValid o k h v = record {
    named = h;
    listed = v.listed;
    sized = v.sized;
    limited = v.limited;
    priced = v.priced;
    fill_finite = v.fill_finite;
    fill_nonneg = v.fill_nonneg;
    fill_bounded = v.fill_bounded;
    averaged = v.averaged;
    fill_fits = v.fill_fits;
    walked = v.walked;
  }

  order_key_named : (v : Value F) (k : String) → order_key v ≡ ok k → is_blank (strip k) ≡ false
  unfolding order_key
  order_key_named (str s) k h = ground (arith, strip_idem s)
  order_key_named _ k h = cc

  Registers-IsSound :
      {o : Order F} {b : Book F} {r : Result Exception (Order F) × Book F}
      → Registers o b r
      → IsSound b
      → IsSound r.1
  Registers-IsSound (refused e) s = s
  Registers-IsSound {o} {b} (registered k valid keyed free) s =
      let id : Value F = str o.order_id in
      insert-IsSound k (record o { order_id = k }) b
        (record {
          valid = rename-IsValid o k (order_key_named id k keyed) (validate_sound o valid);
          keyed = refl;
          stripped = order_key_stripped id k keyed;
        })
        s

  plain-Harmless : Harmless (λ o. o)
  plain-Harmless = record { keeps = λ o v. v; same_id = λ o. refl }

  reason-Harmless : (reason : Value F) → Harmless (λ o. record o { reject_reason = reason })
  reason-Harmless reason = record {
    keeps = λ o v. record {
      named = v.named;
      listed = v.listed;
      sized = v.sized;
      limited = v.limited;
      priced = v.priced;
      fill_finite = v.fill_finite;
      fill_nonneg = v.fill_nonneg;
      fill_bounded = v.fill_bounded;
      averaged = v.averaged;
      fill_fits = v.fill_fits;
      walked = v.walked;
    };
    same_id = λ o. refl;
  }

  after_fill_id :
      (at : Option F) (increment : F) (o : Order F) {priced : Order F}
      → average at increment o ≡ ok priced
      → priced.order_id ≡ o.order_id
  after_fill_id at increment o h = ap (λ (x : Order F). x.order_id) (average-grows at increment o h)

  Writes-IsSound :
      {k : String} {o o' : Order F} {increment : F} {at : Option F} {b : Book F}
      {r : Result Exception (Order F) × Book F}
      → Writes k o increment at b r
      → lookup k b ≡ some o
      → r.0 ≡ ok o'
      → IsSound b
      → IsSound r.1
  Writes-IsSound (divided e z) found h s = cc
  Writes-IsSound (invalidated e priced a v) found h s = cc
  Writes-IsSound {k} {o} {increment = increment} {at} {b} (written priced a v) found h s =
      let e = s.at_key k o found in
      insert-IsSound k (after_fill increment o priced) b
        (record {
          valid = validate_sound (after_fill increment o priced) v;
          keyed = after_fill_id at increment o a ∙ e.keyed;
          stripped = e.stripped;
        })
        s

  Fills-IsSound :
      {quantity price id : Value F} {o' : Order F} {b : Book F}
      {r : Result Exception (Order F) × Book F}
      → Fills quantity price id b r
      → r.0 ≡ ok o'
      → IsSound b
      → IsSound r.1
  Fills-IsSound (refused e) h s = s
  Fills-IsSound (accepted k o increment at keyed found taken positive fits legal read usable w) h
        s =
      Writes-IsSound w found h s

  -- A call that returns keeps a sound book sound, whichever the method.
  pub call-IsSound :
      (r : Request F) (b : Book F) (o : Order F)
      → IsSound b
      → (call r b).0 ≡ ok o
      → IsSound (call r b).1
  unfolding call submit cancel reject
  call-IsSound (create id symbol side quantity kind price) b o s h =
      Creates-IsSound (λ k x. made_id k symbol side quantity kind price x)
        (create_order-Creates id symbol side quantity kind price b) s
  call-IsSound (enter x) b o s h = Registers-IsSound (register-Registers x b) s
  call-IsSound (send id) b o s h =
      Moves-IsSound plain-Harmless (λ x. tt) (move-Moves _ submitted id b) s
  call-IsSound (execute id quantity price) b o s h =
      Fills-IsSound (fill-Fills id quantity price b) h s
  call-IsSound (withdraw id) b o s h =
      Moves-IsSound plain-Harmless (λ x. tt) (move-Moves _ cancelled id b) s
  call-IsSound (refuse id reason) b o s h =
      Moves-IsSound (reason-Harmless reason) (λ x. tt) (move-Moves _ rejected id b) s
