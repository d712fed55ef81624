-- ===== src/Python/Float/Ticks.antt =====
-- A `Float` that runs: multiples of 10⁻¹², with a greatest magnitude, and one value that stands
-- for all that is not finite. The examples use it; the program's floats are doubles.
use text.Mathlib.Text.{◌==◌ as str_eq}
use native.Mathlib.Nat.{div-le_of_le-mul}
use quantcortex.Prelude.{
  ℕ, ◌+◌, ◌*◌, ◌/◌, ◌^◌, ◌≤◌, ◌≡◌, subst, sym, Bool, true, false, ◌&&◌, none, some, arith, ltb,
  ◌==◌, if◌then◌else◌,
}
use quantcortex.Prelude.Int.{
  ℤ, pos, negsuc, pos_part, neg_part, ◌+ℤ◌, ◌-ℤ◌, ◌*ℤ◌, magnitude, signed_as, ltb_ℤ, leb_ℤ,
}
use quantcortex.Python.Float.{Float, IsFloat, is_positive}

pub data Tick : Type 0 where
  fin : ℤ → Tick
  nan : Tick

abbrev unit : ℕ
unit = 10 ^ 12

abbrev pub limit : ℕ
limit = 10 ^ 40

-- out of range is not finite
abbrev fit : ℤ → Tick
fit a = if ltb limit (magnitude a) then nan else fin a

abbrev lift₂ : (ℤ → ℤ → ℤ) → Tick → Tick → Tick
lift₂ f (fin a) (fin b) = fit (f a b)
lift₂ f _ _ = nan

abbrev test : (ℤ → ℤ → Bool) → Tick → Tick → Bool
test f (fin a) (fin b) = f a b
test f _ _ = false

-- to the nearest below in magnitude
abbrev scale_down : ℤ → ℤ
scale_down a = signed_as a (magnitude a / unit)

abbrev div_ℤ : ℤ → ℤ → ℤ
div_ℤ a b = signed_as (a *ℤ b) (magnitude a * unit / magnitude b)

abbrev on_fin : (ℤ → ℤ) → Tick → Tick
on_fin f (fin a) = fin (f a)
on_fin f nan = nan

abbrev is_fin : Tick → Bool
is_fin (fin _) = true
is_fin nan = false

abbrev truncate : ℤ → ℤ
truncate a = signed_as a (magnitude a / unit * unit)

instance abbrev pub ticks : Float Tick
ticks = record {
  scaled = λ m k. fin (pos (m * unit / 10 ^ k));
  add = lift₂ ◌+ℤ◌;
  sub = lift₂ ◌-ℤ◌;
  mul = lift₂ (λ a b. scale_down (a *ℤ b));
  div = lift₂ div_ℤ;
  neg = on_fin (λ a. pos 0 -ℤ a);
  abs = on_fin (λ a. pos (magnitude a));
  lt = test ltb_ℤ;
  le = test leb_ℤ;
  eq = test (λ a b. pos_part a == pos_part b && neg_part a == neg_part b);
  is_finite = is_fin;
  trunc = on_fin truncate;
  round = on_fin (λ a. signed_as a ((magnitude a + unit / 2) / unit * unit));
  parse = λ s. if str_eq s "nan" then some nan else none;
}

-- a fraction by a number that is not below, in multiples of the unit
fraction_le : (a b : ℕ) → a ≤ b → a * unit / b ≤ unit
fraction_le a b h = div-le_of_le-mul b (omega (arith, h))

signed_pos : (a b q : ℕ) → signed_as (pos a *ℤ pos b) q ≡ pos q
unfolding ◌*ℤ◌
signed_pos a b q = ground arith

within_one :
    (q : ℕ)
    → q ≤ unit
    → (ticks.le (ticks.scaled 0 0) (fit (pos q)) ≡ true)
      × (ticks.le (fit (pos q)) (ticks.scaled 1 0) ≡ true)
within_one q h = ground arith

ticks_div_unit :
    (x y : Tick)
    → is_positive y ≡ true
    → ticks.le (ticks.scaled 0 0) x ≡ true
    → ticks.le x y ≡ true
    → (ticks.le (ticks.scaled 0 0) (ticks.div x y) ≡ true)
      × (ticks.le (ticks.div x y) (ticks.scaled 1 0) ≡ true)
unfolding ◌*ℤ◌
ticks_div_unit (fin (pos a)) (fin (pos b)) p l h =
    let quotient = magnitude (pos a) * unit / magnitude (pos b) in
    let same = signed_pos a b quotient in
    let bounds =
      within_one quotient (fraction_le (magnitude (pos a)) (magnitude (pos b)) (ground arith)) in
    subst
      (λ z.
        (ticks.le (ticks.scaled 0 0) (fit z) ≡ true) × (ticks.le (fit z) (ticks.scaled 1 0) ≡ true))
      (sym same) bounds
ticks_div_unit (fin (negsuc a)) y p l h = ground arith
ticks_div_unit (fin (pos a)) (fin (negsuc b)) p l h = ground arith
ticks_div_unit nan y p l h = cc
ticks_div_unit (fin (pos a)) nan p l h = cc

pub ticks-IsFloat : IsFloat ticks
unfolding ◌+ℤ◌ ◌-ℤ◌
ticks-IsFloat = record {
  sub_self = λ x h. ground arith;
  sub_literal = λ x m k h. ground arith;
  zero-le-literal = λ m k. ground arith;
  add_positive = λ x y f n p. ground arith;
  add_literal = λ x m k p. ground arith;
  lt_irrefl = λ x. ground arith;
  lt_trans = λ x y z p q. ground arith;
  le_trans = λ x y z p q. ground arith;
  le_refl = λ x f. ground arith;
  le_of_not_lt = λ x y f g h. ground arith;
  finite_between = λ x p q. ground arith;
  div_unit = ticks_div_unit;
  one_sub = λ x p q. ground arith;
}
