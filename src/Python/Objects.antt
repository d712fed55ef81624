-- ===== src/Python/Objects.antt =====
-- The truth value of an object, and what a loop over it yields.
use Prim.Native.String.{[], ◌∷◌}
use quantcortex.Prelude.{String, zero, Bool, true, false, not}
use quantcortex.Prelude.Int.{pos}
use quantcortex.Prelude.Result.{Result, ok, err}
use quantcortex.Python.Exception.{Exception, type_error}
use quantcortex.Python.Float.{Float}
use quantcortex.Python.Text.{is_blank}
use quantcortex.Python.Value.{
  Value, null, bool, int, num, str, list, dict, other, Items, nil, cons, Fields, end, field,
}

module _ {F : Type 0} where
  -- the characters of a text, each a text
  characters : String → Items F
  characters [] = nil
  characters (c ∷ s) = cons (str (c ∷ [])) (characters s)

  keys_of : Fields F → Items F
  keys_of end = nil
  keys_of (field k _ fs) = cons k (keys_of fs)

  -- `iter(v)`; a mapping yields its keys
  unfoldable pub iterate : Value F → Result Exception (Items F)
  unfolding characters keys_of
  iterate (list vs) = ok vs
  iterate (dict fs) = ok (keys_of fs)
  iterate (str s) = ok (characters s)
  iterate _ = err type_error

-- `bool(v)`
unfoldable pub is_truthy : {F : Type 0} ⦃fl : Float F⦄ → Value F → Bool
is_truthy null = false
is_truthy (bool b) = b
is_truthy (int (pos zero)) = false
is_truthy (int _) = true
is_truthy ⦃fl⦄ (num x) = not (fl.eq x (fl.scaled 0 0))
is_truthy (str s) = not (is_blank s)
is_truthy (list nil) = false
is_truthy (list _) = true
is_truthy (dict end) = false
is_truthy (dict _) = true
is_truthy other = true
