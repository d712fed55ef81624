-- ===== src/Execution/StatePersistence/OrderRoundTrip.antt =====
-- quantcortex/execution/state_persistence.py: an order that was persisted comes back as it was.
use quantcortex.Prelude.{◌≡◌, ◌≢◌, refl, subst, Option, none, some, List, [], ◌∷◌, arith}
use quantcortex.Prelude.Result.{ok}
use quantcortex.Python.Float.{Float, IsFloat, zero}
use quantcortex.Python.Fields.{entry, is_key}
use quantcortex.Python.Objects.{iterate, is_truthy}
use quantcortex.Python.Text.{strip}
use quantcortex.Python.Value.{null, num, str, list, dict}
use quantcortex.Execution.OrderManager.Status.{
  OrderStatus, new, submitted, partially_filled, filled, cancelled, rejected, OrderSide, buy, sell,
  OrderType, market, limit, order_status, order_side, order_type,
}
use quantcortex.Execution.OrderManager.Order.{
  Order, order_args, make_order, statuses, coerced, coerce_order_number, optional_number,
}
use quantcortex.Execution.OrderManager.Validity.{IsValid, IsHistory, validate_complete}
use quantcortex.Execution.StatePersistence.Orders.{
  status_text, side_text, type_text, optional, status_items, to_list, serialise_order,
  coerce_persisted_number, persisted_average, restored_history, deserialise_order,
}

order_status-status_text :
    (F : Type 0) (s : OrderStatus) → order_status {F = F} (str (status_text s)) ≡ ok s
unfolding order_status status_text
order_status-status_text F new = refl
order_status-status_text F submitted = refl
order_status-status_text F partially_filled = refl
order_status-status_text F filled = refl
order_status-status_text F cancelled = refl
order_status-status_text F rejected = refl

order_side-side_text : (F : Type 0) (s : OrderSide) → order_side {F = F} (str (side_text s)) ≡ ok s
unfolding order_side side_text
order_side-side_text F buy = refl
order_side-side_text F sell = refl

order_type-type_text : (F : Type 0) (t : OrderType) → order_type {F = F} (str (type_text t)) ≡ ok t
unfolding order_type type_text
order_type-type_text F market = refl
order_type-type_text F limit = refl

statuses-status_items :
    (F : Type 0) (ss : List OrderStatus) → statuses (to_list (status_items {F = F} ss)) ≡ ok ss
unfolding statuses to_list status_items
statuses-status_items F [] = refl
statuses-status_items F (s ∷ ss) =
    rw (order_status-status_text F s) (rw (statuses-status_items F ss) refl)

module _ {F : Type 0} where
  -- The text has no white space around it.
  abbrev pub IsStripped : Order F → Type 0
  IsStripped o = (strip o.order_id ≡ o.order_id) × (strip o.symbol ≡ o.symbol)

restored_history-status_items :
    (F : Type 0) ⦃fl : Float F⦄ (kept h : List OrderStatus)
    → h ≢ []
    → restored_history kept (list (status_items {F = F} h)) ≡ ok h
unfolding restored_history is_truthy iterate status_items
restored_history-status_items F kept [] h = absurd (h refl)
restored_history-status_items F kept (s ∷ ss) h = statuses-status_items F (s ∷ ss)

module _ {F : Type 0} ⦃fl : Float F⦄ where
  -- the order that the constructor makes of the serialised arguments
  abbrev fresh : Order F → Order F
  fresh o = record o {
    status = new;
    filled_quantity = zero;
    avg_fill_price = none;
    reject_reason = null;
    history = new ∷ [];
  }

  fresh-IsValid : IsFloat fl → (o : Order F) → IsValid o → IsValid (fresh o)
  fresh-IsValid law o v = record {
    named = v.named;
    listed = v.listed;
    sized = v.sized;
    limited = v.limited;
    priced = v.priced;
    fill_finite = law.finite_between zero (law.zero-le-literal 0 0) (law.zero-le-literal 1 0);
    fill_nonneg = law.lt_irrefl zero;
    fill_bounded = law.add_literal o.quantity 1 9 (ground (arith, v.sized));
    averaged = tt;
    fill_fits = tt;
    walked = refl;
  }

  optional_number-optional : (p : Option F) → optional_number (optional p) ≡ ok p
  unfolding optional_number coerce_order_number
  optional_number-optional none = refl
  optional_number-optional (some x) = refl

  persisted_average-optional : (p : Option F) → persisted_average (optional p) ≡ ok p
  unfolding persisted_average coerce_persisted_number
  persisted_average-optional none = refl
  persisted_average-optional (some x) = refl

  make_order-serialised :
      IsFloat fl
      → (o : Order F) → IsValid o
      → IsStripped o
      → make_order (
          order_args
            (str o.order_id)
            (str o.symbol)
            (str (side_text o.side))
            (num o.quantity)
            (str (type_text o.order_type))
            (optional o.limit_price))
        ≡ ok (fresh o)
  unfolding make_order coerced coerce_order_number statuses order_status
  make_order-serialised law o v s = rw s.0 (
      rw s.1 (
        rw (order_side-side_text F o.side) (
          rw (order_type-type_text F o.order_type) (
            rw (optional_number-optional o.limit_price) (
              rw (optional_number-optional none)
                (rw (validate_complete (fresh o) (fresh-IsValid law o v)) refl))))))

  history-nonempty : (o : Order F) → IsValid o → o.history ≢ []
  history-nonempty o v e = subst (λ h. IsHistory h o.status) e v.walked

  -- A valid order whose id and symbol have no white space around them is restored from its JSON
  -- object as it was: every field, the lifecycle's included.
  pub deserialise_order-serialise_order :
      IsFloat fl
      → (o : Order F) → IsValid o
      → IsStripped o
      → deserialise_order (dict (serialise_order o)) ≡ ok o
  unfolding deserialise_order serialise_order entry is_key coerce_persisted_number
  deserialise_order-serialise_order law o v s = rw (make_order-serialised law o v s) (
      rw (persisted_average-optional o.avg_fill_price) (
        rw (order_status-status_text F o.status) (
          rw (restored_history-status_items F (new ∷ []) o.history (history-nonempty o v))
            (rw (validate_complete o v) refl))))
