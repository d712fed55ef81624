-- ===== src/Python/Text.antt =====
-- Python's `str`: `strip`, and equality and order by code points.
use Prim.Native.Char.{Char, code}
use Prim.Native.String.{[], ◌∷◌}
use quantcortex.Prelude.{
  String, ◌≡◌, refl, Bool, true, false, ◌&&◌, ◌||◌, arith, leb, ◌==◌, if◌then◌else◌, Bool-cases,
  inl, inr,
}

-- The characters that `str.strip` takes for white space.
is_space : Char → Bool
is_space ch =
    let c = code ch in
    (leb 9 c && leb c 13)
    || (leb 28 c && leb c 32)
    || (leb 0x2000 c && leb c 0x200a)
    || c == 0x85
    || c == 0xa0
    || c == 0x1680
    || c == 0x2028
    || c == 0x2029
    || c == 0x202f
    || c == 0x205f
    || c == 0x3000

abbrev pub is_blank : String → Bool
is_blank [] = true
is_blank (_ ∷ _) = false

strip_left : String → String
strip_left [] = []
strip_left (c ∷ s) = if is_space c then strip_left s else c ∷ s

strip_right : String → String
strip_right [] = []
strip_right (c ∷ s) =
    let rest = strip_right s in if is_space c && is_blank rest then [] else c ∷ rest

unfoldable pub strip : String → String
unfolding strip_left strip_right is_space
strip s = strip_right (strip_left s)

strip_right_idem : (s : String) → strip_right (strip_right s) ≡ strip_right s
unfolding strip_right
strip_right_idem [] = refl
strip_right_idem (c ∷ s) = ground (arith, strip_right_idem s)

strip_left-strip_right-strip_left :
    (s : String) → strip_left (strip_right (strip_left s)) ≡ strip_right (strip_left s)
unfolding strip_left strip_right
strip_left-strip_right-strip_left [] = refl
strip_left-strip_right-strip_left (c ∷ s) = elim (Bool-cases (is_space c)) [
  | inl space ↦ rw space (strip_left-strip_right-strip_left s)
  | inr other ↦ ground arith
]

-- Stripping a stripped text changes nothing.
pub strip_idem : (s : String) → strip (strip s) ≡ strip s
unfolding strip
strip_idem s = rw strip_left-strip_right-strip_left (strip_right_idem (strip_left s))

strip_spaces : strip "  SPY \t" ≡ "SPY"
unfolding strip
strip_spaces = refl

-- `str.lower` and `str.upper` follow the Unicode tables of Python's build: parameters.
pub record TextCase : Type 0 where
  pub lower : String → String
  pub upper : String → String
