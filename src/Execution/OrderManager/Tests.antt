-- ===== src/Execution/OrderManager/Tests.antt =====
-- quantcortex/execution/order_manager.py on a small book, in fixed-point numbers.
use quantcortex.Prelude.{◌*◌, ◌^◌, ◌≡◌, refl, ap, ◌↔◌, none, some, List, [], ◌∷◌, subst}
use quantcortex.Prelude.Int.{pos, ◌+ℤ◌, ◌-ℤ◌, ◌*ℤ◌}
use quantcortex.Prelude.Result.{Result, ok, err}
use quantcortex.Python.Dict.{lookup, insert}
use quantcortex.Python.Exception.{Exception, order_error, invalid_transition_error}
use quantcortex.Python.Float.Ticks.{Tick, fin, nan, limit, ticks, ticks-IsFloat}
use quantcortex.Python.Text.{strip}
use quantcortex.Python.Value.{Value, null, num, str}
use quantcortex.Execution.OrderManager.Status.{
  OrderStatus, new, submitted, partially_filled, filled, cancelled, rejected, buy, market, allowed,
  is_terminal, order_side, order_type, order_status,
}
use quantcortex.Execution.OrderManager.Order.{
  Order, validate, coerce_order_number, optional_number, statuses, coerced, make_order,
  remaining_quantity,
}
use quantcortex.Execution.OrderManager.Manager.{
  Book, order_key, find, get, transition, submit, cancel, reject, create_order, fill_increment,
  fill_target, average, write_fill, fill, move,
}
use quantcortex.Execution.OrderManager.Calls.{call, Request, create, execute, send}
use quantcortex.Execution.OrderManager.Validity.{IsValid, validate_iff}
use quantcortex.Execution.OrderManager.Lifecycle.{call-IsSound}
use quantcortex.Execution.OrderManager.Soundness.{IsSound}
use quantcortex.Execution.OrderManager.Effects.{transited, transitions_lem, get-create_order}
use quantcortex.Execution.OrderManager.FillEffects.{IsAtomic, fill-IsAtomic, HasFilled, fill_lem}
use quantcortex.Execution.OrderManager.Runs.{run, run-terminal}

abbrev ten : Tick
ten = fin (pos (10 * 10 ^ 12))

abbrev order : OrderStatus → Tick → List OrderStatus → Order Tick
order s done h = record {
  order_id = "a";
  symbol = "SPY";
  side = buy;
  quantity = ten;
  order_type = market;
  limit_price = none;
  status = s;
  filled_quantity = done;
  avg_fill_price = none;
  reject_reason = null;
  history = h;
}

abbrev fresh : Order Tick
fresh = order new (fin (pos 0)) (new ∷ [])

abbrev request : Request Tick
request = create (str " a ") (str "SPY") (str "BUY") (num ten) (str "MARKET") null

abbrev book : Book Tick
book = ("a", fresh) ∷ []

call-create : call request [] ≡ (ok fresh, book)
unfolding call create_order order_key make_order coerced coerce_order_number optional_number
    statuses order_side order_type order_status validate strip allowed lookup insert ◌+ℤ◌
call-create = refl

none-IsSound : IsSound {F = Tick} []
unfolding lookup
none-IsSound = record { at_key = λ k o h. cc }

book-IsSound : IsSound book
book-IsSound =
    subst IsSound (ap (λ (r : Result Exception (Order Tick) × Book Tick). r.1) call-create) (
      call-IsSound request [] fresh none-IsSound
        (ap (λ (r : Result Exception (Order Tick) × Book Tick). r.0) call-create))

call-IsSound_example : IsSound (call request []).1
call-IsSound_example =
    call-IsSound request [] fresh none-IsSound
      (ap (λ (r : Result Exception (Order Tick) × Book Tick). r.0) call-create)

validate_iff_example : (validate fresh ≡ ok tt) ↔ IsValid fresh
validate_iff_example = validate_iff fresh

key_a : order_key {F = Tick} (str "a") ≡ ok "a"
unfolding order_key strip
key_a = refl

transitions_lem_example :
    (submit (str "a") book ≡ transited (λ x. x) submitted "a" fresh book)
    × (cancel (str "a") book ≡ transited (λ x. x) cancelled "a" fresh book)
    × (reject (str "a") (str "halted") book
        ≡ transited (λ x. record x { reject_reason = str "halted" }) rejected "a" fresh book)
unfolding lookup
transitions_lem_example = transitions_lem (str "a") (str "halted") "a" fresh book key_a refl

get-create_order_example :
    let b' =
      (create_order (str " a ") (str "SPY") (str "BUY") (num ten) (str "MARKET") null []).1 in
    get (str " a ") b' ≡ (ok fresh, b')
unfolding call
get-create_order_example =
    get-create_order (str " a ") (str "SPY") (str "BUY") (num ten) (str "MARKET") null [] fresh
      (ap (λ (r : Result Exception (Order Tick) × Book Tick). r.0) call-create)

abbrev live : Order Tick
live = order submitted (fin (pos 0)) (new ∷ submitted ∷ [])

abbrev live_book : Book Tick
live_book = ("a", live) ∷ []

abbrev half : Order Tick
half = order partially_filled (fin (pos (4 * 10 ^ 12))) (new ∷ submitted ∷ partially_filled ∷ [])

abbrev four : Value Tick
four = num (fin (pos (4 * 10 ^ 12)))

fill-four : fill (str "a") four null live_book ≡ (ok half, ("a", half) ∷ [])
unfolding fill find fill_increment coerce_order_number optional_number remaining_quantity
    fill_target allowed write_fill average transition validate order_key strip lookup insert ◌+ℤ◌
    ◌-ℤ◌ ◌*ℤ◌
fill-four = refl

fill_lem_example :
    HasFilled four null (str "a") "a" live live_book half (fill (str "a") four null live_book).1
unfolding lookup
fill_lem_example =
    fill_lem (str "a") four null "a" live half live_book key_a refl
      (ap (λ (r : Result Exception (Order Tick) × Book Tick). r.0) fill-four)

-- A new order cannot be filled: the raise leaves the book alone.
fill_new : fill (str "a") four null book ≡ (err invalid_transition_error, book)
unfolding fill find fill_increment coerce_order_number optional_number remaining_quantity
    fill_target allowed order_key strip lookup ◌+ℤ◌ ◌-ℤ◌ ◌*ℤ◌
fill_new = refl

-- A price whose average is out of range: the final validation raises, and the book is left with
-- the order that it refused.
abbrev spoilt : Order Tick
spoilt = record (order filled ten (new ∷ submitted ∷ filled ∷ [])) { avg_fill_price = some nan }

fill_overflow :
    fill (str "a") null (num (fin (pos limit))) live_book ≡ (err order_error, ("a", spoilt) ∷ [])
unfolding fill find fill_increment coerce_order_number optional_number remaining_quantity
    fill_target allowed write_fill average transition validate order_key strip lookup insert ◌+ℤ◌
    ◌-ℤ◌ ◌*ℤ◌
fill_overflow = refl

live-call : call (send (str "a")) book ≡ (ok live, live_book)
unfolding call submit move transition find order_key strip lookup insert allowed ◌+ℤ◌
live-call = refl

live-IsSound : IsSound live_book
live-IsSound =
    subst IsSound (ap (λ (r : Result Exception (Order Tick) × Book Tick). r.1) live-call) (
      call-IsSound (send (str "a")) book live book-IsSound
        (ap (λ (r : Result Exception (Order Tick) × Book Tick). r.0) live-call))

fill-IsAtomic_example :
    IsAtomic null
      (num (fin (pos limit)))
      (str "a")
      live_book
      order_error
      (fill (str "a") null (num (fin (pos limit))) live_book).1
fill-IsAtomic_example =
    fill-IsAtomic ticks-IsFloat (str "a") null (num (fin (pos limit))) live_book order_error
      live-IsSound (ap (λ (r : Result Exception (Order Tick) × Book Tick). r.0) fill_overflow)

abbrev dead : Order Tick
dead = order cancelled (fin (pos 0)) (new ∷ cancelled ∷ [])

run-terminal_example :
    lookup "a"
      (run (send (str "a") ∷ execute (str "a") null null ∷ request ∷ []) (("a", dead) ∷ []))
    ≡ some dead
unfolding lookup is_terminal
run-terminal_example =
    run-terminal (send (str "a") ∷ execute (str "a") null null ∷ request ∷ []) (("a", dead) ∷ [])
      "a" dead refl refl
