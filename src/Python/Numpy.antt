-- ===== src/Python/Numpy.antt =====
-- The parts of numpy that the program calls: a third-party library, so its operations are
-- parameters. Element-wise arithmetic and comparison are written out where they are used.
pub mod Vectors
use quantcortex.Prelude.{ℕ, String, Bool, false, Option, none, some, List, any}
use quantcortex.Prelude.Result.{Result, ok}
use quantcortex.Python.Exception.{Exception}
use quantcortex.Python.Value.{Value, is_bool}

pub record Numpy (F : Type 0) : Type 0 where
  -- `np.asarray(v, dtype=np.float64)`: the number of dimensions and the elements in order, or the
  -- `TypeError` or `ValueError` that it raises
  pub asarray : Value F → Result Exception (ℕ × List F)
  -- `np.asarray(v, dtype=object).ravel()`, or `none` where it raises
  pub ravel : Value F → Option (List (Value F))
  -- `a.sum()`, `a.mean()`, `np.min(a)` and `np.max(a)` of a vector
  pub sum : List F → F
  pub mean : List F → F
  pub least : List F → F
  pub greatest : List F → F

-- An argument that the program makes an array of: an array already, or another value.
pub data ArrayLike (F : Type 0) : Type 0 where
  array : ℕ → List F → ArrayLike F
  object : Value F → ArrayLike F

module _ {F : Type 0} ⦃np : Numpy F⦄ where
  abbrev pub as_array : ArrayLike F → Result Exception (ℕ × List F)
  as_array (array n xs) = ok (n, xs)
  as_array (object v) = np.asarray v

  -- quantcortex/portfolio/base.py: `_contains_boolean`, on an array or another value
  unfoldable pub contains_boolean : ArrayLike F → Bool
  contains_boolean (array n xs) = false
  contains_boolean (object v) = elim (np.ravel v) [ none ↦ false | some vs ↦ any is_bool vs ]
