-- ===== src/Execution/StatePersistence/JsonSafe.antt =====
-- quantcortex/execution/state_persistence.py: the orders of a snapshot are JSON objects, and
-- come back as they were.
use text.Mathlib.TextEquality.{eq_iff}
use quantcortex.Prelude.{
  String, ◌≡◌, refl, true, false, Option, none, some, List, [], ◌∷◌, map, arith, All,
}
use quantcortex.Prelude.Result.{ok}
use quantcortex.Python.Fields.{is_json, is_json_items, is_json_fields, entry, is_key, is_fresh}
use quantcortex.Python.Float.{Float, IsFloat}
use quantcortex.Python.Value.{list, dict, Items, nil, cons}
use quantcortex.Execution.OrderManager.Status.{OrderStatus}
use quantcortex.Execution.OrderManager.Order.{Order}
use quantcortex.Execution.OrderManager.Validity.{IsValid, IsPrice, validate_complete}
use quantcortex.Execution.StatePersistence.Orders.{
  order, optional, status_items, serialise_order, seen, has_duplicates, all_objects, serialise_all,
  serialise_orders, deserialise_all, deserialise_orders,
}
use quantcortex.Execution.StatePersistence.OrderRoundTrip.{
  IsStripped, deserialise_order-serialise_order,
}

module _ {F : Type 0} where
  -- the objects of a list of orders
  abbrev pub order_items : List (Order F) → Items F
  order_items [] = nil
  order_items (o ∷ os) = cons (dict (serialise_order o)) (order_items os)

  abbrev pub order_ids : List (Order F) → List String
  order_ids os = map (λ o. o.order_id) os

  abbrev pub IsUnseen : List String → Order F → Type 0
  IsUnseen ids o = seen o.order_id ids ≡ false

  IsUnseen-cons :
      (i : String) (ids : List String) (os : List (Order F))
      → seen i (order_ids os) ≡ false
      → All (IsUnseen ids) os
      → All (IsUnseen (i ∷ ids)) os
  unfolding seen
  IsUnseen-cons i ids [] h u = tt
  IsUnseen-cons i ids (o ∷ os) h u = (
    ground (arith, eq_iff o.order_id i, eq_iff i o.order_id),
    IsUnseen-cons i ids os (ground arith) u.1,
  )

  IsUnseen-nil : (os : List (Order F)) → All (IsUnseen []) os
  unfolding seen
  IsUnseen-nil [] = tt
  IsUnseen-nil (o ∷ os) = (refl, IsUnseen-nil os)

  all_objects-order_items : (os : List (Order F)) → all_objects (order_items os) ≡ true
  all_objects-order_items [] = refl
  all_objects-order_items (o ∷ os) = all_objects-order_items os

status_items-IsJson :
    (F : Type 0) ⦃fl : Float F⦄ (h : List OrderStatus)
    → is_json_items (status_items {F = F} h) ≡ true
unfolding is_json status_items
status_items-IsJson F [] = refl
status_items-IsJson F (s ∷ ss) = status_items-IsJson F ss

module _ {F : Type 0} ⦃fl : Float F⦄ where
  -- An order that the store keeps as it is: valid, with stripped texts and a JSON reason.
  abbrev pub IsKeepable : Order F → Type 0
  IsKeepable o = IsValid o × IsStripped o × (is_json o.reject_reason ≡ true)

  optional-IsJson : (p : Option F) → IsPrice p → is_json (optional p) ≡ true
  unfolding is_json
  optional-IsJson none h = refl
  optional-IsJson (some x) h = h.0

  serialise_order-IsJson : (o : Order F) → IsKeepable o → is_json_fields (serialise_order o) ≡ true
  unfolding serialise_order is_json is_fresh entry is_key
  serialise_order-IsJson o (v, _, reason) = rw (v.sized.0) (
      rw (optional-IsJson o.limit_price v.priced) (
        rw v.fill_finite (
          rw (optional-IsJson o.avg_fill_price v.averaged)
            (rw reason (rw (status_items-IsJson F o.history) refl)))))

  pub order_items-IsJson :
      (os : List (Order F)) → All IsKeepable os → is_json_items (order_items os) ≡ true
  unfolding is_json
  order_items-IsJson [] h = refl
  order_items-IsJson (o ∷ os) (k, rest) =
      rw (serialise_order-IsJson o k) (order_items-IsJson os rest)

  serialise_all-orders :
      (os : List (Order F)) (ids : List String)
      → All IsKeepable os
      → has_duplicates (order_ids os) ≡ false
      → All (IsUnseen ids) os
      → serialise_all (map order os) ids ≡ ok (order_items os)
  unfolding serialise_all has_duplicates
  serialise_all-orders [] ids k d u = refl
  serialise_all-orders (o ∷ os) ids (k, ks) d (fresh, u) = rw (validate_complete o k.0) (
      rw fresh (
        rw
          (serialise_all-orders os (o.order_id ∷ ids) ks (ground arith)
            (IsUnseen-cons o.order_id ids os (ground arith) u))
          refl))

  pub serialise_orders-orders :
      (os : List (Order F))
      → All IsKeepable os
      → has_duplicates (order_ids os) ≡ false
      → serialise_orders (some (map order os)) ≡ ok (order_items os)
  unfolding serialise_orders
  serialise_orders-orders os k d = rw (serialise_all-orders os [] k d (IsUnseen-nil os)) refl

  deserialise_all-order_items :
      IsFloat fl
      → (os : List (Order F)) → All IsKeepable os
      → deserialise_all (order_items os) ≡ ok os
  unfolding deserialise_all
  deserialise_all-order_items law [] k = refl
  deserialise_all-order_items law (o ∷ os) ((v, s, _), ks) =
      rw (deserialise_order-serialise_order law o v s)
        (rw (deserialise_all-order_items law os ks) refl)

  pub deserialise_orders-order_items :
      IsFloat fl
      → (os : List (Order F)) → All IsKeepable os
      → has_duplicates (order_ids os) ≡ false
      → deserialise_orders (list (order_items os)) ≡ ok os
  unfolding deserialise_orders
  deserialise_orders-order_items law os k d =
      rw (all_objects-order_items os) (rw (deserialise_all-order_items law os k) (rw d refl))
