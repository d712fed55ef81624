-- ===== src/Execution/OrderManager/FillEffects.antt =====
-- quantcortex/execution/order_manager.py: what `fill` does to its order, and what a raise of it leaves.
use quantcortex.Prelude.{
  String, ◌≡◌, refl, sym, ap, ◌∙◌, ◌⊎◌, inl, inr, false, Option, some, arith, subst,
}
use quantcortex.Prelude.Result.{Result, ok, err}
use quantcortex.Python.Dict.{lookup, insert}
use quantcortex.Python.Exception.{Exception}
use quantcortex.Python.Float.{Float, IsFloat, zero}
use quantcortex.Python.Value.{Value}
use quantcortex.Execution.OrderManager.Order.{Order, validate}
use quantcortex.Execution.OrderManager.Manager.{Book, order_key, fill}
use quantcortex.Execution.OrderManager.Soundness.{IsSound}
use quantcortex.Execution.OrderManager.FillOutcomes.{
  after_fill, Fills, Writes, accepted, divided, invalidated, written, fill-Fills, refused,
}
use quantcortex.Execution.OrderManager.Filled.{
  with_fill, Fillable, priced-with_fill, accepted-Fillable,
}

module _ {F : Type 0} ⦃fl : Float F⦄ where
  -- What a raise leaves: the book as it was, or with the filled order that the validation refused.
  abbrev pub IsAtomic : Value F → Value F → Value F → Book F → Exception → Book F → Type 0
  IsAtomic quantity price id b e b' =
      (b' ≡ b)
      ⊎ ((k : String) × (o : Order F) × (increment : F) × (at : Option F) × Fillable quantity price
            id b k o increment at
          × (validate (with_fill increment at o) ≡ err e)
          × (b' ≡ insert k (with_fill increment at o) b))

  Writes-IsAtomic :
      {quantity price id : Value F} {k : String} {o : Order F} {increment : F} {at : Option F}
      {b : Book F} {e : Exception} {r : Result Exception (Order F) × Book F}
      → Writes k o increment at b r
      → Fillable quantity price id b k o increment at
      → fl.eq (fl.add o.filled_quantity increment) zero ≡ false
      → r.0 ≡ err e
      → IsAtomic quantity price id b e r.1
  Writes-IsAtomic (divided x z) ready positive h = cc
  Writes-IsAtomic {k = k} {o} {increment} {at} {b} {e} (invalidated x priced a v) ready positive h =
      let same : x ≡ e = ground arith in
      let out = priced-with_fill at increment o priced a in
      inr (
        k,
        o,
        increment,
        at,
        ready,
        subst (λ y. validate y ≡ err e) out (v ∙ ap err same),
        ap (λ y. insert k y b) out,
      )
  Writes-IsAtomic (written priced a v) ready positive h = cc

  Fills-IsAtomic :
      {quantity price id : Value F} {b : Book F} {e : Exception}
      {r : Result Exception (Order F) × Book F}
      → Fills quantity price id b r
      → IsFloat fl
      → IsSound b
      → r.0 ≡ err e
      → IsAtomic quantity price id b e r.1
  Fills-IsAtomic (refused x) laws s h = inl refl
  Fills-IsAtomic (accepted k o increment at keyed found taken positive fits legal read usable w)
        laws s h =
      let v = (s.at_key k o found).valid in
      Writes-IsAtomic w (accepted-Fillable keyed found taken positive fits legal read usable)
        (laws.add_positive o.filled_quantity increment v.fill_finite v.fill_nonneg positive) h

  -- On a sound book, a fill that raises has changed nothing, or all its guards passed and the final
  -- validation refused the order: then the order under the id's key is left filled, as it would be
  -- after a fill that returns, and nothing else has changed.
  pub fill-IsAtomic :
      IsFloat fl
      → (id quantity price : Value F) (b : Book F) (e : Exception) → IsSound b
      → (fill id quantity price b).0 ≡ err e
      → IsAtomic quantity price id b e (fill id quantity price b).1
  fill-IsAtomic laws id quantity price b e s h =
      Fills-IsAtomic (fill-Fills id quantity price b) laws s h

  -- What a fill that returned has done to the order under its key.
  abbrev pub HasFilled :
      Value F → Value F → Value F → String → Order F → Book F → Order F → Book F → Type 0
  HasFilled quantity price id k o b o' b' =
      (increment : F) × (at : Option F) × Fillable quantity price id b k o increment at
      × (o' ≡ with_fill increment at o)
      × (validate o' ≡ ok tt)
      × (b' ≡ insert k o' b)

  Writes-HasFilled :
      {quantity price id : Value F} {k : String} {o o' : Order F} {increment : F} {at : Option F}
      {b : Book F} {r : Result Exception (Order F) × Book F}
      → Writes k o increment at b r
      → Fillable quantity price id b k o increment at
      → r.0 ≡ ok o'
      → HasFilled quantity price id k o b o' r.1
  Writes-HasFilled (divided x z) ready h = cc
  Writes-HasFilled (invalidated x priced a v) ready h = cc
  Writes-HasFilled {k = k} {o} {o'} {increment} {at} {b} (written priced a v) ready h =
      let made = priced-with_fill at increment o priced a in
      let out : after_fill increment o priced ≡ o' = ground arith in
      (
        increment,
        at,
        ready,
        sym out ∙ made,
        subst (λ x. validate x ≡ ok tt) out v,
        ap (λ x. insert k x b) out,
      )

  Fills-HasFilled :
      {k : String} {o o' : Order F} {quantity price id : Value F} {b : Book F}
      {r : Result Exception (Order F) × Book F}
      → Fills quantity price id b r
      → order_key id ≡ ok k
      → lookup k b ≡ some o
      → r.0 ≡ ok o'
      → HasFilled quantity price id k o b o' r.1
  Fills-HasFilled (refused e) key here h = cc
  Fills-HasFilled {k} {o} {o'} {quantity} {price} {id} {b} {r}
        (accepted j x increment at keyed found taken positive fits legal read usable w) key here h =
      let same_key : j ≡ k = ground arith in
      let same : x ≡ o = ground (arith, ap (λ i. lookup i b) same_key) in
      subst (λ i. HasFilled quantity price id i o b o' r.1) same_key
        (subst (λ y. HasFilled quantity price id j y b o' r.1) same
          (Writes-HasFilled w (accepted-Fillable keyed found taken positive fits legal read usable)
            h))

  -- A fill that returns, of an order under a key that was read, asked for a positive increment within
  -- what remains, or for all that remains, at no price or a positive one. It has added the increment
  -- to that order, moved it along a legal transition to FILLED or PARTIALLY_FILLED as the remainder
  -- decides, recorded the transition, averaged the price by volume, left its other fields, and the
  -- order is valid; nothing else in the book has changed.
  pub fill_lem :
      (id quantity price : Value F) (k : String) (o o' : Order F) (b : Book F)
      → order_key id ≡ ok k
      → lookup k b ≡ some o
      → (fill id quantity price b).0 ≡ ok o'
      → HasFilled quantity price id k o b o' (fill id quantity price b).1
  fill_lem id quantity price k o o' b key here h =
      Fills-HasFilled (fill-Fills id quantity price b) key here h
