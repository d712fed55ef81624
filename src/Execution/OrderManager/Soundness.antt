-- ===== src/Execution/OrderManager/Soundness.antt =====
-- quantcortex/execution/order_manager.py: a sound book, which keeps valid orders under their own ids.
use text.Mathlib.Text.{◌==◌}
use text.Mathlib.TextEquality.{eq_iff}
use quantcortex.Prelude.{
  String, ◌≡◌, sym, ◌∙◌, inl, inr, true, some, arith, subst, Bool-cases, if◌then◌else◌,
}
use quantcortex.Prelude.Result.{ok, bind-ok}
use quantcortex.Python.Dict.{lookup, insert, lookup-insert}
use quantcortex.Python.Float.{Float}
use quantcortex.Python.Text.{strip, strip_idem}
use quantcortex.Python.Value.{Value, str}
use quantcortex.Execution.OrderManager.Status.{OrderStatus, allowed}
use quantcortex.Execution.OrderManager.Order.{Order, OrderArgs, coerced, validate, make_order}
use quantcortex.Execution.OrderManager.Manager.{Book, order_key}
use quantcortex.Execution.OrderManager.Outcomes.{advance}
use quantcortex.Execution.OrderManager.Validity.{
  IsValid, FillFits, validate_sound, IsHistory-append,
}

module _ {F : Type 0} ⦃fl : Float F⦄ where
  -- A constructed order is valid.
  pub make_order-IsValid : (r : OrderArgs F) {o : Order F} → make_order r ≡ ok o → IsValid o
  unfolding make_order
  make_order-IsValid r {o} h =
      let (made, _, e) = bind-ok (coerced r) _ h in
      let (_, v, e') = bind-ok (validate made) _ e in subst IsValid (cc) (validate_sound made v)

  -- An entry is a valid order under its own id, which is stripped.
  pub record IsEntry (k : String) (o : Order F) : Type 0 where
    pub valid : IsValid o
    pub keyed : o.order_id ≡ k
    pub stripped : strip k ≡ k

  pub record IsSound (b : Book F) : Type 0 where
    pub at_key : (k : String) (o : Order F) → lookup k b ≡ some o → IsEntry k o

  insert-IsEntry :
      (k : String) (o : Order F) (b : Book F)
      → IsEntry k o
      → IsSound b
      → (j : String) (x : Order F) → (if k == j then some o else lookup j b) ≡ some x
      → IsEntry j x
  insert-IsEntry k o b e s j x h = elim (Bool-cases (k == j)) [
    | inl same ↦ subst (λ i. IsEntry i x) ((eq_iff k j).0 same) (subst (IsEntry k) (ground arith) e)
    | inr other ↦ s.at_key j x (rw other at h)
  ]

  pub insert-IsSound :
      (k : String) (o : Order F) (b : Book F) → IsEntry k o → IsSound b → IsSound (insert k o b)
  insert-IsSound k o b e s = record {
    at_key = λ j x h. insert-IsEntry k o b e s j x (sym (lookup-insert k j o b) ∙ h);
  }

  pub order_key_stripped : (v : Value F) (k : String) → order_key v ≡ ok k → strip k ≡ k
  unfolding order_key
  order_key_stripped (str s) k h = ground (arith, strip_idem s)
  order_key_stripped _ k h = cc

  -- A legal transition of a valid order is valid, if the fill fits the new status.
  pub advance-IsValid :
      (next : OrderStatus) (o : Order F)
      → allowed o.status next ≡ true
      → FillFits next o.filled_quantity o.quantity
      → IsValid o
      → IsValid (advance next o)
  advance-IsValid next o a fits v = record {
    named = v.named;
    listed = v.listed;
    sized = v.sized;
    limited = v.limited;
    priced = v.priced;
    fill_finite = v.fill_finite;
    fill_nonneg = v.fill_nonneg;
    fill_bounded = v.fill_bounded;
    averaged = v.averaged;
    fill_fits = fits;
    walked = IsHistory-append o.history o.status next v.walked a;
  }
