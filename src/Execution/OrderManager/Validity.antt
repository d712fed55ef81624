-- ===== src/Execution/OrderManager/Validity.antt =====
-- quantcortex/execution/order_manager.py: what `Order.validate` accepts.
use quantcortex.Prelude.{◌≡◌, ◌≢◌, ◌↔◌, true, false, Option, none, some, List, [], ◌∷◌, ◌++◌, arith}
use quantcortex.Prelude.Result.{ok}
use quantcortex.Python.Float.{Float, zero, is_close}
use quantcortex.Python.Text.{strip, is_blank}
use quantcortex.Execution.OrderManager.Status.{
  OrderStatus, partially_filled, filled, OrderType, market, limit, allowed,
}
use quantcortex.Execution.OrderManager.Order.{Order, fill_tolerance, ends_at, all_legal, validate}

-- A walk through legal transitions from a first status to a last one.
abbrev pub Walk : OrderStatus → List OrderStatus → OrderStatus → Type 0
Walk s [] t = s ≡ t
Walk s (x ∷ r) t = (allowed s x ≡ true) × Walk x r t

-- A history: a first status and a walk.
abbrev pub IsHistory : List OrderStatus → OrderStatus → Type 0
IsHistory [] t = ⊥
IsHistory (x ∷ r) t = Walk x r t

Walk-of_tests :
    (s t : OrderStatus) (r : List OrderStatus)
    → ends_at t (s ∷ r) ≡ true
    → all_legal (s ∷ r) ≡ true
    → Walk s r t
Walk-of_tests s t [] e l = ground arith
Walk-of_tests s t (x ∷ r) e l = ground (arith, Walk-of_tests x t r e)

tests-of_Walk :
    (s t : OrderStatus) (r : List OrderStatus)
    → Walk s r t
    → (ends_at t (s ∷ r) ≡ true) × (all_legal (s ∷ r) ≡ true)
tests-of_Walk s t [] h = ground arith
tests-of_Walk s t (x ∷ r) h = ground (arith, tests-of_Walk x t r h.1)

IsHistory-of_tests :
    (h : List OrderStatus) (t : OrderStatus)
    → ends_at t h ≡ true
    → all_legal h ≡ true
    → IsHistory h t
IsHistory-of_tests [] t e l = cc
IsHistory-of_tests (s ∷ r) t e l = Walk-of_tests s t r e l

tests-of_IsHistory :
    (h : List OrderStatus) (t : OrderStatus)
    → IsHistory h t
    → (ends_at t h ≡ true) × (all_legal h ≡ true)
tests-of_IsHistory [] t w = absurd w
tests-of_IsHistory (s ∷ r) t w = tests-of_Walk s t r w

-- One more legal transition extends the walk.
pub Walk-append :
    (s t u : OrderStatus) (r : List OrderStatus)
    → Walk s r t
    → allowed t u ≡ true
    → Walk s (r ++ u ∷ []) u
Walk-append s t u [] h a = ground arith
Walk-append s t u (x ∷ r) h a = ground (arith, Walk-append x t u r h.1 a)

pub IsHistory-append :
    (h : List OrderStatus) (t u : OrderStatus)
    → IsHistory h t
    → allowed t u ≡ true
    → IsHistory (h ++ u ∷ []) u
IsHistory-append [] t u w a = absurd w
IsHistory-append (s ∷ r) t u w a = Walk-append s t u r w a

module _ {F : Type 0} ⦃fl : Float F⦄ where
  -- `none`, or a price that is finite and positive
  abbrev pub IsPrice : Option F → Type 0
  IsPrice none = Unit
  IsPrice (some p) = (fl.is_finite p ≡ true) × (fl.le p zero ≡ false)

  abbrev pub NeedsLimit : OrderType → Option F → Type 0
  NeedsLimit limit p = p ≢ none
  NeedsLimit market p = Unit

  -- what the status says of the fill
  abbrev pub FillFits : OrderStatus → F → F → Type 0
  FillFits filled done total = is_close zero fill_tolerance done total ≡ true
  FillFits partially_filled done total =
      (fl.lt zero done ≡ true) × (fl.lt done (fl.sub total fill_tolerance) ≡ true)
  FillFits _ done total = Unit

  pub record IsValid (o : Order F) : Type 0 where
    pub named : is_blank (strip o.order_id) ≡ false
    pub listed : is_blank (strip o.symbol) ≡ false
    pub sized : (fl.is_finite o.quantity ≡ true) × (fl.le o.quantity zero ≡ false)
    pub limited : NeedsLimit o.order_type o.limit_price
    pub priced : IsPrice o.limit_price
    pub fill_finite : fl.is_finite o.filled_quantity ≡ true
    pub fill_nonneg : fl.lt o.filled_quantity zero ≡ false
    pub fill_bounded : fl.lt (fl.add o.quantity fill_tolerance) o.filled_quantity ≡ false
    pub averaged : IsPrice o.avg_fill_price
    pub fill_fits : FillFits o.status o.filled_quantity o.quantity
    pub walked : IsHistory o.history o.status

  -- `validate` returns only on a valid order.
  pub validate_sound : (o : Order F) → validate o ≡ ok tt → IsValid o
  unfolding validate
  validate_sound o h = record {
    named = ground arith;
    listed = ground arith;
    sized = ground arith;
    limited = ground arith;
    priced = ground arith;
    fill_finite = ground arith;
    fill_nonneg = ground arith;
    fill_bounded = ground arith;
    averaged = ground arith;
    fill_fits = ground arith;
    walked = IsHistory-of_tests o.history o.status (ground arith) (ground arith);
  }

  pub validate_complete : (o : Order F) → IsValid o → validate o ≡ ok tt
  unfolding validate
  validate_complete o v = ground (arith, tests-of_IsHistory o.history o.status v.walked)

  -- `Order.validate` returns exactly on the valid orders.
  pub validate_iff : (o : Order F) → (validate o ≡ ok tt) ↔ IsValid o
  validate_iff o = (validate_sound o, validate_complete o)
