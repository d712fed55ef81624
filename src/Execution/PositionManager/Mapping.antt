-- ===== src/Execution/PositionManager/Mapping.antt =====
-- quantcortex/execution/position_manager.py: `_to_float`, `_as_mapping`, `_symbol_key` and
-- `_symbol_mapping`. quantcortex/execution/pre_trade_risk.py repeats all four but `_symbol_key`.
-- A pandas Series stands for the mapping that it converts to.
use quantcortex.Prelude.{String, Option, none, some, [], ◌∷◌, ◌++◌, if◌then◌else◌}
use quantcortex.Prelude.Result.{Result, ok, err, ◌>>=◌}
use quantcortex.Python.Dict.{Dict, contains}
use quantcortex.Python.Exception.{Exception, value_error, type_error}
use quantcortex.Python.Float.{Float}
use quantcortex.Python.Value.{Value, null, dict, Fields, end, field, is_bool, float}
use quantcortex.Execution.Brokers.Base.{symbol_or}

-- `_to_float`
unfoldable pub to_float : {F : Type 0} ⦃fl : Float F⦄ → Value F → Option F
to_float null = none
to_float ⦃fl⦄ v =
    if is_bool v
    then none
    else elim (float v) [ ok x ↦ if fl.is_finite x then some x else none | err _ ↦ none ]

module _ {F : Type 0} where
  -- `_as_mapping`
  unfoldable pub as_mapping : Value F → Result Exception (Fields F)
  as_mapping null = ok end
  as_mapping (dict fs) = ok fs
  as_mapping _ = err type_error

  -- `_symbol_key`
  unfoldable pub symbol_key : Value F → Result Exception String
  symbol_key v = symbol_or value_error v

  -- the loop of `_symbol_mapping`, with the entries so far
  unfoldable pub normalize : Fields F → Dict (Value F) → Result Exception (Dict (Value F))
  unfolding symbol_key
  normalize end d = ok d
  normalize (field k v fs) d = do
    s ← symbol_key k
    if contains s d then err value_error else normalize fs (d ++ (s, v) ∷ [])

  -- `_symbol_mapping`
  unfoldable pub symbol_mapping : Value F → Result Exception (Dict (Value F))
  unfolding as_mapping normalize
  symbol_mapping v = do fs ← as_mapping v; normalize fs []
