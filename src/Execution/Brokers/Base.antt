-- ===== src/Execution/Brokers/Base.antt =====
-- quantcortex/execution/brokers/base.py: what a broker reports. The adapters' own calls are the
-- vendors' libraries; a broker is the list of positions that it returns.
use quantcortex.Prelude.{String, not, ◌&&◌, ◌||◌, none, some, List, [], ◌∷◌, if◌then◌else◌}
use quantcortex.Prelude.Result.{Result, ok, err, ◌>>=◌, ◌>>◌, raise_if}
use quantcortex.Python.Dict.{Dict, contains, insert}
use quantcortex.Python.Exception.{Exception, broker_error}
use quantcortex.Python.Float.{Float, zero}
use quantcortex.Python.Text.{TextCase, strip, is_blank}
use quantcortex.Python.Value.{Value, dict, Fields, end, field, is_bool, as_text, float}

pub record Position (F : Type 0) : Type 0 where
  pub symbol : String
  pub quantity : F
  pub avg_price : F
  pub market_price : F

pub record AccountInfo (F : Type 0) : Type 0 where
  pub cash : F
  pub equity : F
  pub buying_power : F
  pub currency : String
  pub extra : Dict (Value F)

-- a text that is not blank, stripped
abbrev pub symbol_or {ℓ} : {F : Type 0} {E : Type ℓ} → E → Value F → Result E String
symbol_or e v = elim (as_text v) [
  | none ↦ err e
  | some s ↦ if is_blank (strip s) then err e else ok (strip s)
]

module _ {F : Type 0} ⦃fl : Float F⦄ where
  -- the loop over the numeric fields: no boolean, and `float(raw)` or `BrokerError`
  unfoldable pub numeric_field : Value F → Result Exception F
  numeric_field v =
      if is_bool v
      then err broker_error
      else elim (float v) [ ok x ↦ ok x | err _ ↦ err broker_error ]

  -- `Position(...)` with `__post_init__`
  unfoldable pub make_position :
      Value F → Value F → Value F → Value F → Result Exception (Position F)
  make_position symbol quantity avg market = do
    s ← symbol_or broker_error symbol
    q ← numeric_field quantity
    a ← numeric_field avg
    p ← numeric_field market
    raise_if (not (fl.is_finite q && fl.is_finite a && fl.is_finite p)) broker_error
    raise_if (fl.lt a zero || fl.lt p zero) broker_error
    ok (record { symbol = s; quantity = q; avg_price = a; market_price = p })

  -- `Position.market_value` and `Position.unrealized_pnl`
  unfoldable pub position_value : Position F → F
  position_value p = fl.mul p.quantity p.market_price

  unfoldable pub unrealized_pnl : Position F → F
  unrealized_pnl p = fl.mul (fl.sub p.market_price p.avg_price) p.quantity

-- `{key.strip(): value for ...}` after every key was found to be a text that is not blank
unfoldable pub extra_entries :
    {F : Type 0} → Fields F → Dict (Value F) → Result Exception (Dict (Value F))
extra_entries end d = ok d
extra_entries (field k v fs) d = do s ← symbol_or broker_error k; extra_entries fs (insert s v d)

abbrev pub as_fields {ℓ} : {F : Type 0} {E : Type ℓ} → E → Value F → Result E (Fields F)
as_fields e (dict fs) = ok fs
as_fields e _ = err e

module _ {F : Type 0} ⦃fl : Float F⦄ (tc : TextCase) where
  -- `AccountInfo(...)` with `__post_init__`
  unfoldable pub make_account :
      Value F → Value F → Value F → Value F → Value F → Result Exception (AccountInfo F)
  unfolding extra_entries
  make_account cash equity power currency extra = do
    c ← numeric_field cash
    e ← numeric_field equity
    p ← numeric_field power
    raise_if (not (fl.is_finite c && fl.is_finite e && fl.is_finite p)) broker_error
    text ← symbol_or broker_error currency
    fields ← as_fields broker_error extra
    entries ← extra_entries fields []
    ok (record {
      cash = c;
      equity = e;
      buying_power = p;
      currency = tc.upper text;
      extra = entries;
    })

module _ {F : Type 0} where
  unfoldable pub collect : List (Position F) → Dict F → Result Exception (Dict F)
  collect [] d = ok d
  collect (p ∷ ps) d =
      let rest = collect ps (insert p.symbol p.quantity d) in
      if contains p.symbol d then err broker_error else rest

  -- `Broker.positions_as_dict`, on what `get_positions` returned
  unfoldable pub positions_as_dict : List (Position F) → Result Exception (Dict F)
  unfolding collect
  positions_as_dict ps = collect ps []
