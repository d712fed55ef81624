-- ===== src/Prelude/Halving.antt =====
-- Bisection: the brackets that halvings of one bracket can leave, for any choice of the middle.
use Prim.Native.Nat.{ℕ, zero, suc}

module _ {F : Type 0} (middle : F → F → F) where
  -- One bracket is another after so many halvings: each keeps the part below or the part above the
  -- middle.
  pub data Halved : ℕ → F → F → F → F → Type 0 where
    whole : (low high : F) → Halved zero low high low high
    below :
        (n : ℕ) (low high bottom top : F)
        → Halved n low (middle low high) bottom top
        → Halved (suc n) low high bottom top
    above :
        (n : ℕ) (low high bottom top : F)
        → Halved n (middle low high) high bottom top
        → Halved (suc n) low high bottom top
