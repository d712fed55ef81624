-- ===== src/Python/Numpy/Vectors.antt =====
-- A `Numpy` that runs: arrays of one dimension from flat lists of numbers. The examples use it.
use quantcortex.Prelude.{Bool, some, List, [], ◌∷◌, length, if◌then◌else◌}
use quantcortex.Prelude.Result.{Result, ok, err, ◌>>=◌}
use quantcortex.Python.Exception.{Exception, type_error}
use quantcortex.Python.Float.{zero}
use quantcortex.Python.Float.Ticks.{Tick, ticks}
use quantcortex.Python.Numpy.{Numpy}
use quantcortex.Python.Value.{int, of_int, Value, num, list, Items, nil, cons}

abbrev numbers : Items Tick → Result Exception (List Tick)
numbers nil = ok []
numbers (cons (int n) vs) = do xs ← numbers vs; ok (of_int n ∷ xs)
numbers (cons (num x) vs) = do xs ← numbers vs; ok (x ∷ xs)
numbers (cons _ vs) = err type_error

abbrev values : Items Tick → List (Value Tick)
values nil = []
values (cons v vs) = v ∷ values vs

abbrev total : List Tick → Tick
total [] = zero
total (x ∷ xs) = ticks.add x (total xs)

-- the extreme of a list by a test, from a first element
abbrev extreme : (Tick → Tick → Bool) → Tick → List Tick → Tick
extreme beyond x [] = x
extreme beyond x (y ∷ ys) = extreme beyond (if beyond y x then y else x) ys

abbrev extreme_of : (Tick → Tick → Bool) → List Tick → Tick
extreme_of beyond [] = zero
extreme_of beyond (x ∷ xs) = extreme beyond x xs

instance abbrev pub vectors : Numpy Tick
vectors = record {
  asarray = λ v. elim v [
    | list items ↦ do xs ← numbers items; ok (1, xs)
    | int n ↦ ok (0, of_int n ∷ [])
    | num x ↦ ok (0, x ∷ [])
    | _ ↦ err type_error
  ];
  ravel = λ v. elim v [ list items ↦ some (values items) | w ↦ some (w ∷ []) ];
  sum = total;
  mean = λ xs. ticks.div (total xs) (ticks.scaled (length xs) 0);
  least = extreme_of ticks.lt;
  greatest = extreme_of (λ a b. ticks.lt b a);
}
