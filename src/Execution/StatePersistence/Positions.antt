-- ===== src/Execution/StatePersistence/Positions.antt =====
-- quantcortex/execution/state_persistence.py: positions as JSON objects, and back.
use quantcortex.Prelude.{String, Option, none, some, List, [], ◌∷◌, if◌then◌else◌}
use text.Mathlib.Text.{◌==◌}
use quantcortex.Prelude.Result.{Result, ok, err, ◌>>=◌, ◌>>◌, raise_if}
use quantcortex.Python.Dict.{Dict, insert, contains}
use quantcortex.Python.Exception.{Exception, value_error, state_persistence_error}
use quantcortex.Python.Float.{Float, zero}
use quantcortex.Python.Value.{Value, num, str, dict, Fields, end, field, is_bool}
use quantcortex.Python.Text.{strip, is_blank}
use quantcortex.Execution.Brokers.Base.{Position, symbol_or, make_position}
use quantcortex.Execution.StatePersistence.Codec.{item_or, object_of, or_persistence_error}
use quantcortex.Execution.StatePersistence.Orders.{fields}

-- A value of `positions`: a `Position`, or another object.
pub data PositionLike (F : Type 0) : Type 0 where
  position : Position F → PositionLike F
  quantity : Value F → PositionLike F

module _ {F : Type 0} where
  -- `_serialise` of a position
  unfoldable pub serialise_position : Position F → Fields F
  serialise_position p = fields (
      ("symbol", str p.symbol)
      ∷ ("quantity", num p.quantity)
      ∷ ("avg_price", num p.avg_price)
      ∷ ("market_price", num p.market_price)
      ∷ [])

module _ {F : Type 0} ⦃fl : Float F⦄ where
  -- `Position(symbol=symbol, quantity=quantity)`
  abbrev pub bare_position : Value F → Value F → Result Exception (Position F)
  bare_position symbol q = make_position symbol q (num zero) (num zero)

  -- the payload of one position
  unfoldable pub payload_of : String → PositionLike F → Result Exception (Value F)
  unfolding serialise_position
  payload_of key (position p) =
      if p.symbol == key then ok (dict (serialise_position p)) else err state_persistence_error
  payload_of key (quantity q) = do
    raise_if (is_bool q) state_persistence_error
    p ← or_persistence_error (bare_position (str key) q)
    ok (num p.quantity)

  -- the loop of `_serialise_positions`, with the entries so far
  unfoldable pub serialise_each :
      List (Value F × PositionLike F) → Dict (Value F) → Result Exception (Dict (Value F))
  unfolding payload_of
  serialise_each [] d = ok d
  serialise_each ((symbol, like) ∷ rest) d = do
    key ← symbol_or state_persistence_error symbol
    raise_if (contains key d) state_persistence_error
    v ← payload_of key like
    serialise_each rest (insert key v d)

  -- `_serialise_positions`; `none` is no `dict`.
  unfoldable pub serialise_positions :
      Option (List (Value F × PositionLike F)) → Result Exception (Dict (Value F))
  unfolding serialise_each
  serialise_positions none = err state_persistence_error
  serialise_positions (some entries) = serialise_each entries []

  -- one entry of the persisted positions, under its symbol
  unfoldable pub position_from : Value F → Value F → Result Exception (Position F)
  position_from symbol (dict fs) =
      make_position (item_or symbol "symbol" fs) (item_or (num zero) "quantity" fs)
        (item_or (num zero) "avg_price" fs) (item_or (num zero) "market_price" fs)
  position_from symbol v = bare_position symbol v

  -- a key that is a text and not blank, as it is
  abbrev pub raw_symbol : Value F → Result Exception String
  raw_symbol (str s) = if is_blank (strip s) then err value_error else ok s
  raw_symbol _ = err value_error

  -- the loop of `_deserialise_positions`, with the entries so far
  unfoldable pub deserialise_each :
      Fields F → Dict (Position F) → Result Exception (Dict (Position F))
  unfolding position_from
  deserialise_each end d = ok d
  deserialise_each (field k v fs) d = do
    s ← raw_symbol k
    p ← position_from k v
    deserialise_each fs (insert s p d)

  -- `_deserialise_positions`
  unfoldable pub deserialise_positions : Value F → Result Exception (Dict (Position F))
  unfolding deserialise_each
  deserialise_positions v = do fs ← object_of v; or_persistence_error (deserialise_each fs [])
