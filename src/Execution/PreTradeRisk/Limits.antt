-- ===== src/Execution/PreTradeRisk/Limits.antt =====
-- quantcortex/execution/pre_trade_risk.py: the limits of `PreTradeRiskCheck`, and the violations.
use quantcortex.Prelude.{ℕ, String, Bool, true, false, not, ◌||◌, Option, none, some, List, [], ◌∷◌}
use quantcortex.Prelude.Result.{Result, ok, err, ◌>>=◌, ◌>>◌, raise_if}
use quantcortex.Python.Exception.{Exception, value_error, type_error}
use quantcortex.Python.Float.{Float, zero, one}
use quantcortex.Python.Value.{
  Value, null, str, list, dict, Items, nil, cons, Fields, end, field, is_bool, float,
}
use quantcortex.Execution.Brokers.Base.{symbol_or}

-- One constructor for each message, with what it names: an index, a symbol or an amount.
pub data Violation (F : Type 0) : Type 0 where
  invalid_mode not_coercible not_a_vector empty_weights non_finite : Violation F
  outside_box short_legs over_weight : Violation F
  over_invested not_neutral over_gross : F → Violation F
  bad_mapping bad_capital : Violation F
  not_a_mapping bad_symbol : ℕ → Violation F
  bad_quantity bad_side not_allowed no_price : String → Violation F
  over_order_cap : String → F → Violation F
  over_total_cap : F → Violation F
  bad_position : String → Violation F
  no_side no_symbol_or_quantity : Violation F
  no_post_price : String → Violation F
  no_prices no_positions no_capital : Violation F
  -- a violation of the post-trade weights
  post_trade : Violation F → Violation F

pub record PreTradeRiskCheck (F : Type 0) : Type 0 where
  pub max_position_weight : F
  pub max_gross : F
  pub max_notional : Option F
  pub max_order_notional : Option F
  pub allowed_symbols : Option (List String)
  pub tolerance : F

module _ {F : Type 0} where
  -- the symbols of the whitelist, each a text that is not blank, stripped
  unfoldable pub symbol_items : Items F → Result Exception (List String)
  symbol_items nil = ok []
  symbol_items (cons v vs) = do s ← symbol_or value_error v; rest ← symbol_items vs; ok (s ∷ rest)

  -- A mapping is iterated by its keys.
  unfoldable pub symbol_keys : Fields F → Result Exception (List String)
  symbol_keys end = ok []
  symbol_keys (field k _ fs) = do s ← symbol_or value_error k; rest ← symbol_keys fs; ok (s ∷ rest)

  -- `allowed_symbols`: `None`, or a collection that is no single text
  unfoldable pub whitelist : Value F → Result Exception (Option (List String))
  unfolding symbol_items symbol_keys
  whitelist null = ok none
  whitelist (list items) = do ss ← symbol_items items; ok (some ss)
  whitelist (dict fs) = do ss ← symbol_keys fs; ok (some ss)
  whitelist (str _) = err value_error
  whitelist _ = err type_error

module _ {F : Type 0} ⦃fl : Float F⦄ where
  -- an optional cap
  unfoldable pub cap : Value F → Result Exception (Option F)
  cap null = ok none
  cap v = do x ← float v; ok (some x)

  -- `not np.isfinite(value) or value < 0.0`
  abbrev pub bad_limit : F → Bool
  bad_limit x = not (fl.is_finite x) || fl.lt x zero

  abbrev pub bad_cap : Option F → Bool
  bad_cap none = false
  bad_cap (some x) = bad_limit x

  -- `PreTradeRiskCheck.__init__`
  unfoldable pub make_check :
      Value F
      → Value F
      → Value F
      → Value F
      → Value F
      → Value F
      → Result Exception (PreTradeRiskCheck F)
  make_check position gross notional order_notional allowed tolerance = do
    raise_if (is_bool position || is_bool gross || is_bool tolerance) type_error
    p ← float position
    g ← float gross
    raise_if (is_bool notional || is_bool order_notional) type_error
    n ← cap notional
    o ← cap order_notional
    symbols ← whitelist allowed
    t ← float tolerance
    raise_if (bad_limit p || fl.lt one p) value_error
    raise_if (bad_limit g) value_error
    raise_if (bad_cap n || bad_cap o) value_error
    raise_if (bad_limit t) value_error
    ok (record {
      max_position_weight = p;
      max_gross = g;
      max_notional = n;
      max_order_notional = o;
      allowed_symbols = symbols;
      tolerance = t;
    })

-- `(not violations), violations`
abbrev pub Verdict : Type 0 → Type 0
Verdict F = Bool × List (Violation F)

abbrev pub no_violations {ℓ} : {A : Type ℓ} → List A → Bool
no_violations [] = true
no_violations (_ ∷ _) = false

abbrev pub verdict : {F : Type 0} → List (Violation F) → Verdict F
verdict vs = (no_violations vs, vs)

abbrev pub refuse : {F : Type 0} → Violation F → Verdict F
refuse v = (false, v ∷ [])

-- `if test: violations.append(v)`
abbrev pub report : {F : Type 0} → Bool → Violation F → List (Violation F)
report true v = v ∷ []
report false v = []
