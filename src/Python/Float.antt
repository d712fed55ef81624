-- ===== src/Python/Float.antt =====
-- Python's `float`. The type and its operations are parameters; `IsFloat` holds the facts about
-- IEEE-754 doubles, rounding and non-finite values included, that the proofs rest on.
pub mod Ticks
use quantcortex.Prelude.{◌≡◌, true, false, ℕ, String, Bool, Option, not, ◌&&◌, ◌||◌, if◌then◌else◌}
use quantcortex.Prelude.Result.{Result, ok, err}
use quantcortex.Python.Exception.{Exception, zero_division}

pub record Float (F : Type 0) : Type 0 where
  -- `scaled m k` is the literal m × 10⁻ᵏ, rounded.
  pub scaled : ℕ → ℕ → F
  pub add : F → F → F
  pub sub : F → F → F
  pub mul : F → F → F
  -- Division by a divisor that is not zero.
  pub div : F → F → F
  pub neg : F → F
  pub abs : F → F
  -- `<`, `<=` and `==`
  pub lt : F → F → Bool
  pub le : F → F → Bool
  pub eq : F → F → Bool
  -- `math.isfinite`
  pub is_finite : F → Bool
  -- `math.trunc` and `round`, back as floats
  pub trunc : F → F
  pub round : F → F
  -- `float(text)`; `none` where it raises `ValueError`
  pub parse : String → Option F

module _ {F : Type 0} ⦃fl : Float F⦄ where
  abbrev pub zero : F
  zero = fl.scaled 0 0

  abbrev pub one : F
  one = fl.scaled 1 0

  -- `a / b` raises where `b` is zero.
  abbrev pub divide : F → F → Result Exception F
  divide a b = if fl.eq b zero then err zero_division else ok (fl.div a b)

  -- Python's `max` and `min` keep the first argument unless the second is beyond it.
  abbrev pub max : F → F → F
  max a b = if fl.lt a b then b else a

  abbrev pub min : F → F → F
  min a b = if fl.lt b a then b else a

  -- `math.isfinite(x) and x > 0.0`
  abbrev pub is_positive : F → Bool
  is_positive x = fl.is_finite x && not (fl.le x zero)

  -- `math.isclose(a, b, rel_tol=rel, abs_tol=tol)`
  abbrev pub is_close : F → F → F → F → Bool
  is_close rel tol a b =
      fl.eq a b
      || (let gap = fl.abs (fl.sub b a) in
          fl.is_finite a
          && fl.is_finite b
          && (fl.le gap (fl.abs (fl.mul rel b))
              || fl.le gap (fl.abs (fl.mul rel a))
              || fl.le gap tol))

-- What the proofs use of IEEE-754 doubles. Each fact holds of them under rounding to nearest.
pub record IsFloat {F : Type 0} (fl : Float F) : Type 0 where
  -- x - x is exactly 0.0
  pub sub_self : (x : F) → fl.is_finite x ≡ true → fl.sub x x ≡ fl.scaled 0 0
  -- Taking a literal off does not raise a number.
  pub sub_literal :
      (x : F) (m k : ℕ) → fl.is_finite x ≡ true → fl.lt x (fl.sub x (fl.scaled m k)) ≡ false
  -- Literals are not below 0.0.
  pub zero-le-literal : (m k : ℕ) → fl.le (fl.scaled 0 0) (fl.scaled m k) ≡ true
  -- A sum with a positive number does not come to 0.0, unless the other is negative.
  pub add_positive :
      (x y : F)
      → fl.is_finite x ≡ true
      → fl.lt x (fl.scaled 0 0) ≡ false
      → is_positive ⦃fl = fl⦄ y ≡ true
      → fl.eq (fl.add x y) (fl.scaled 0 0) ≡ false
  -- A literal added to a positive number does not go below 0.0, and nothing is below itself.
  pub add_literal :
      (x : F) (m k : ℕ)
      → is_positive ⦃fl = fl⦄ x ≡ true
      → fl.lt (fl.add x (fl.scaled m k)) (fl.scaled 0 0) ≡ false
  pub lt_irrefl : (x : F) → fl.lt x x ≡ false
  -- `<` and `<=` are transitive; a comparison with NaN is false.
  pub lt_trans : (x y z : F) → fl.lt x y ≡ true → fl.lt y z ≡ true → fl.lt x z ≡ true
  pub le_trans : (x y z : F) → fl.le x y ≡ true → fl.le y z ≡ true → fl.le x z ≡ true
  -- Finite numbers are ordered, and a number between 0.0 and 1.0 is finite.
  pub le_refl : (x : F) → fl.is_finite x ≡ true → fl.le x x ≡ true
  pub le_of_not_lt :
      (x y : F)
      → fl.is_finite x ≡ true
      → fl.is_finite y ≡ true
      → fl.lt x y ≡ false
      → fl.le y x ≡ true
  pub finite_between :
      (x : F)
      → fl.le (fl.scaled 0 0) x ≡ true
      → fl.le x (fl.scaled 1 0) ≡ true
      → fl.is_finite x ≡ true
  -- A fraction of a number by one that is not below it is between 0.0 and 1.0, and so is 1.0 - x.
  pub div_unit :
      (x y : F)
      → is_positive ⦃fl = fl⦄ y ≡ true
      → fl.le (fl.scaled 0 0) x ≡ true
      → fl.le x y ≡ true
      → (fl.le (fl.scaled 0 0) (fl.div x y) ≡ true) × (fl.le (fl.div x y) (fl.scaled 1 0) ≡ true)
  pub one_sub :
      (x : F)
      → fl.le (fl.scaled 0 0) x ≡ true
      → fl.le x (fl.scaled 1 0) ≡ true
      → (fl.le (fl.scaled 0 0) (fl.sub (fl.scaled 1 0) x) ≡ true)
        × (fl.le (fl.sub (fl.scaled 1 0) x) (fl.scaled 1 0) ≡ true)
