-- ===== src/Python/Value.antt =====
-- The values of a dynamically typed argument, `isinstance` and `float(value)`.
use quantcortex.Prelude.Int.{ℤ, pos, negsuc}
use quantcortex.Prelude.{suc, String, Bool, true, false, Option, none, some, if◌then◌else◌}
use quantcortex.Prelude.Result.{Result, ok, err}
use quantcortex.Python.Float.{Float}
use quantcortex.Python.Exception.{Exception, type_error, value_error}

-- `int` and `float` values are told apart. A member of a `str` enum is the text of its value;
-- `other` is an object that is no number, text, list, mapping or `None`.
mutual
  pub data Value (F : Type 0) : Type 0 where
    null : Value F
    bool : Bool → Value F
    int : ℤ → Value F
    num : F → Value F
    str : String → Value F
    list : Items F → Value F
    dict : Fields F → Value F
    other : Value F

  pub data Items (F : Type 0) : Type 0 where
    nil : Items F
    cons : Value F → Items F → Items F

  -- The entries of a mapping; a key need not be a text.
  pub data Fields (F : Type 0) : Type 0 where
    end : Fields F
    field : Value F → Value F → Fields F → Fields F

module _ {F : Type 0} where
  abbrev pub is_bool : Value F → Bool
  is_bool (bool _) = true
  is_bool _ = false

  abbrev pub as_text : Value F → Option String
  as_text (str s) = some s
  as_text _ = none

-- `float(n)` of an `int`, to the nearest
abbrev pub of_int : {F : Type 0} ⦃fl : Float F⦄ → ℤ → F
of_int ⦃fl⦄ (pos n) = fl.scaled n 0
of_int ⦃fl⦄ (negsuc n) = fl.neg (fl.scaled (suc n) 0)

-- `float(value)`; a boolean is 0 or 1.
abbrev pub float : {F : Type 0} ⦃fl : Float F⦄ → Value F → Result Exception F
float ⦃fl⦄ (bool b) = ok (if b then fl.scaled 1 0 else fl.scaled 0 0)
float ⦃fl⦄ (int n) = ok (of_int n)
float (num x) = ok x
float ⦃fl⦄ (str s) = elim (fl.parse s) [ none ↦ err value_error | some x ↦ ok x ]
float _ = err type_error
