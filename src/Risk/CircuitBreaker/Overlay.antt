-- ===== src/Risk/CircuitBreaker/Overlay.antt =====
-- quantcortex/risk/circuit_breaker.py: what a call of `CircuitBreaker.apply` reads, moves and returns.
use quantcortex.Prelude.{
  ◌≡◌, ◌≢◌, refl, sym, subst, ◌⊎◌, inl, inr, true, false, not, Option, none, some, List, [], ◌∷◌,
  All, all_sound, replicate, length, map, arith,
}
use quantcortex.Prelude.Result.{ok, Result-cases}
use quantcortex.Python.Float.{Float, zero, one, max}
use quantcortex.Python.Numpy.{Numpy, ArrayLike, as_array}
use quantcortex.Python.Value.{Value, null, bool, int, num, str, list, dict, other, float}
use quantcortex.Portfolio.Contract.Laws.{IsExposure}
use quantcortex.Risk.CircuitBreaker.Drawdown.{CircuitBreaker, compute_drawdown}
use quantcortex.Risk.CircuitBreaker.Latch.{update_state, current, book, apply}
use quantcortex.Risk.CircuitBreaker.Runs.{apply-Applied}

module _ {F : Type 0} ⦃fl : Float F⦄ ⦃np : Numpy F⦄ where
  -- The weights are an array of one dimension, with elements, all of them finite.
  pub record IsBook (weights : ArrayLike F) (ws : List F) : Type 0 where
    pub is_array : as_array weights ≡ ok (1, ws)
    pub nonempty : ws ≢ []
    pub finite : All (λ w. fl.is_finite w ≡ true) ws

  pub book-IsBook : (weights : ArrayLike F) (ws : List F) → book weights ≡ ok ws → IsBook weights ws
  unfolding book
  book-IsBook weights ws h = elim (Result-cases (as_array weights)) [
    | inr (e, bad) ↦ absurd (ground arith)
    | inl ((n, []), read) ↦ absurd (ground arith)
    | inl ((n, w ∷ rest), read) ↦
        let same : ws ≡ w ∷ rest = ground arith in
        let flat : n ≡ 1 = ground arith in
        record {
          is_array = ground arith;
          nonempty = λ e. cc;
          finite =
              subst (All (λ x. fl.is_finite x ≡ true)) (sym same)
                (all_sound fl.is_finite (w ∷ rest) (ground arith));
        }
  ]

  -- A drawdown that is given, or computed from the curve where none is.
  abbrev pub IsDrawdown : Option (ArrayLike F) → Value F → F → Type 0
  IsDrawdown curve given d =
      ((given ≡ null)
        × (equity : ArrayLike F) × (curve ≡ some equity)
        × (compute_drawdown equity ≡ ok d))
      ⊎ (float given ≡ ok d)

  current-IsDrawdown :
      (curve : Option (ArrayLike F)) (given : Value F) (d : F)
      → current curve given ≡ ok d
      → IsDrawdown curve given d
  unfolding current
  current-IsDrawdown none null d h = cc
  current-IsDrawdown (some equity) null d h = inl (refl, equity, refl, h)
  current-IsDrawdown none (bool _) d h = inr h
  current-IsDrawdown none (int _) d h = inr h
  current-IsDrawdown none (num _) d h = inr h
  current-IsDrawdown none (str _) d h = inr h
  current-IsDrawdown none (list _) d h = inr h
  current-IsDrawdown none (dict _) d h = inr h
  current-IsDrawdown none other d h = inr h
  current-IsDrawdown (some _) (bool _) d h = inr h
  current-IsDrawdown (some _) (int _) d h = inr h
  current-IsDrawdown (some _) (num _) d h = inr h
  current-IsDrawdown (some _) (str _) d h = inr h
  current-IsDrawdown (some _) (list _) d h = inr h
  current-IsDrawdown (some _) (dict _) d h = inr h
  current-IsDrawdown (some _) other d h = inr h

  -- How the latch moves: an open one trips where the drawdown is at the trip level or beyond, and a
  -- tripped one opens where resets are automatic and the drawdown is at the reset level or below.
  pub record IsLatched (d : F) (c c' : CircuitBreaker F) : Type 0 where
    pub same_levels : c' ≡ record c { tripped = c'.tripped }
    pub trips : c.tripped ≡ false → c'.tripped ≡ fl.le c.max_drawdown d
    pub stays_manual : c.tripped ≡ true → c.auto_reset ≡ false → c'.tripped ≡ true
    pub resets :
        c.tripped ≡ true → c.auto_reset ≡ true → c'.tripped ≡ not (fl.le d c.reset_drawdown)

  update_state-IsLatched : (d : F) (c : CircuitBreaker F) → IsLatched d c (update_state d c)
  unfolding update_state
  update_state-IsLatched d c = record {
    same_levels = ground arith;
    trips = λ h. ground arith;
    stays_manual = λ h manual. ground arith;
    resets = λ h auto. ground arith;
  }

  -- What a call of `apply` that returns did.
  pub record Applies (weights : ArrayLike F) (curve : Option (ArrayLike F)) (given : Value F)
      (c c' : CircuitBreaker F) (out : List F) : Type 0 where
    pub incoming : List F
    pub drawdown : F
    pub read : IsBook weights incoming
    pub is_drawdown : IsDrawdown curve given drawdown
    pub bounded : (fl.le zero drawdown ≡ true) × (fl.le drawdown one ≡ true)
    pub latched : IsLatched drawdown c c'
    pub flat : c'.tripped ≡ true → out ≡ replicate (length incoming) zero
    pub passed : c'.tripped ≡ false → out ≡ incoming
    pub exposed :
        IsExposure
          (fl.add (max one (np.sum (map fl.abs incoming))) (fl.scaled 1 9))
          (fl.scaled 1 6)
          (fl.neg one)
          one
          out

  -- A call of `apply` that returns read a book and a drawdown between 0 and 1, given or computed from
  -- the curve. An open latch is tripped by it exactly where the drawdown is at the trip level or
  -- beyond, a tripped one is opened exactly where resets are automatic and the drawdown is at the
  -- reset level or below, and the breaker is otherwise the same. The call returned the book if the
  -- latch is then open and as many zeros if it is tripped, and the exposure contract accepts that at
  -- the gross exposure of the incoming book, or 1 if that is larger, and 1e-9.
  pub apply_lem :
      (weights : ArrayLike F) (curve : Option (ArrayLike F)) (given : Value F)
      (c c' : CircuitBreaker F) (out : List F)
      → apply weights curve given c ≡ (ok out, c')
      → Applies weights curve given c c' out
  apply_lem weights curve given c c' out h =
      let a = apply-Applied weights curve given c c' out h in
      let returned = a.returned in
      record {
        incoming = a.incoming;
        drawdown = a.drawdown;
        read = book-IsBook weights a.incoming a.is_book;
        is_drawdown = current-IsDrawdown curve given a.drawdown a.is_current;
        bounded = a.bounded;
        latched =
            subst (IsLatched a.drawdown c) (sym a.moved) (update_state-IsLatched a.drawdown c);
        flat = λ t. ground arith;
        passed = λ t. ground arith;
        exposed = a.exposed;
      }
