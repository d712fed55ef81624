-- ===== src/Risk/CircuitBreaker/Runs.antt =====
-- quantcortex/risk/circuit_breaker.py: the steps of `CircuitBreaker.apply`, and runs of calls.
use quantcortex.Prelude.{
  ℕ, zero as zero_ℕ, suc, ◌≡◌, refl, sym, ap, ◌∙◌, subst, inl, inr, true, false, Option, List, [],
  ◌∷◌, All, replicate, length, arith,
}
use quantcortex.Prelude.Result.{Result, ok, err, Result-cases}
use quantcortex.Python.Exception.{Exception}
use quantcortex.Python.Float.{Float, IsFloat, zero, one}
use quantcortex.Python.Numpy.{Numpy, ArrayLike, array}
use quantcortex.Python.Value.{Value}
use quantcortex.Portfolio.Contract.Laws.{
  IsExposure, enforce_exposure_contract_same, enforce_exposure_contract_sound,
}
use quantcortex.Risk.CircuitBreaker.Drawdown.{
  CircuitBreaker, make_breaker, reset_level, number, flag,
}
use quantcortex.Risk.CircuitBreaker.Latch.{
  update_state, current, book, gross_cap, enforced, flattened, apply,
}

module _ {F : Type 0} ⦃fl : Float F⦄ where
  -- What the constructor establishes: the reset level is below the trip level.
  pub record IsBreaker (c : CircuitBreaker F) : Type 0 where
    pub reset_nonneg : fl.lt c.reset_drawdown zero ≡ false
    pub apart : fl.le c.max_drawdown c.reset_drawdown ≡ false
    pub level_positive : fl.lt zero c.max_drawdown ≡ true
    pub level_below_one : fl.lt c.max_drawdown one ≡ true

  -- A breaker that `CircuitBreaker(...)` returns is armed, and its levels are ordered: the
  -- reset level is not negative, the trip level is not at or below it, and it is between 0 and 1.
  pub make_breaker-IsBreaker :
      (max_drawdown reset_drawdown auto_reset : Value F) (c : CircuitBreaker F)
      → make_breaker max_drawdown reset_drawdown auto_reset ≡ ok c
      → IsBreaker c × (c.tripped ≡ false)
  unfolding make_breaker
  make_breaker-IsBreaker m r a c h = elim (Result-cases (number m)) [
    | inr (e, bad) ↦ absurd (ground arith)
    | inl (level, is_level) ↦ elim (Result-cases (reset_level r level)) [
      | inr (e, bad) ↦ absurd (ground arith)
      | inl (low, is_low) ↦ elim (Result-cases (flag a)) [
        | inr (e, bad) ↦ absurd (ground arith)
        | inl (auto, is_auto) ↦ (
          record {
            reset_nonneg = ground arith;
            apart = ground arith;
            level_positive = ground arith;
            level_below_one = ground arith;
          },
          ground arith,
        )
      ]
    ]
  ]

  -- On a breaker whose levels are apart, a second report of the same drawdown leaves the latch
  -- where the first one put it.
  pub update_state_idem :
      (laws : IsFloat fl) (d : F) (c : CircuitBreaker F)
      → IsBreaker c
      → update_state d (update_state d c) ≡ update_state d c
  unfolding update_state
  update_state_idem laws d c s =
      let apart = s.apart in
      let ordered = laws.le_trans c.max_drawdown d c.reset_drawdown in
      ground (arith, apart, ordered)

module _ {F : Type 0} ⦃fl : Float F⦄ ⦃np : Numpy F⦄ where
  -- the steps of a call of `apply` that returns
  pub record Applied (weights : ArrayLike F) (curve : Option (ArrayLike F)) (given : Value F)
      (c c' : CircuitBreaker F) (out : List F) : Type 0 where
    pub incoming : List F
    pub drawdown : F
    pub is_book : book weights ≡ ok incoming
    pub is_current : current curve given ≡ ok drawdown
    pub bounded : (fl.le zero drawdown ≡ true) × (fl.le drawdown one ≡ true)
    pub moved : c' ≡ update_state drawdown c
    pub returned : out ≡ flattened c'.tripped incoming
    pub exposed : IsExposure (gross_cap incoming) (fl.scaled 1 6) (fl.neg one) one out

  enforced_sound :
      (w v out : List F)
      → enforced w v ≡ ok out
      → (out ≡ v) × IsExposure (gross_cap w) (fl.scaled 1 6) (fl.neg one) one out
  enforced_sound w v out h = (
    enforce_exposure_contract_same 1 v (gross_cap w) (fl.scaled 1 6) (fl.neg one) one out h,
    (enforce_exposure_contract_sound (array 1 v) (gross_cap w) (fl.scaled 1 6) (fl.neg one) one out
        h).3,
  )

  -- what `apply` did, in the terms of its own steps
  pub apply-Applied :
      (weights : ArrayLike F) (curve : Option (ArrayLike F)) (given : Value F)
      (c c' : CircuitBreaker F) (out : List F)
      → apply weights curve given c ≡ (ok out, c')
      → Applied weights curve given c c' out
  unfolding apply
  apply-Applied weights curve given c c' out h = elim (Result-cases (book weights)) [
    | inr (e, bad) ↦ absurd (ground arith)
    | inl (w, is_book) ↦ elim (Result-cases (current curve given)) [
      | inr (e, bad) ↦ absurd (ground arith)
      | inl (d, is_current) ↦
          let moved : c' ≡ update_state d c = ground arith in
          let contract =
            enforced_sound w (flattened (update_state d c).tripped w) out (ground arith) in
          record {
            incoming = w;
            drawdown = d;
            is_book = is_book;
            is_current = is_current;
            bounded = ground arith;
            moved = moved;
            returned = contract.0 ∙ ap (λ b. flattened b.tripped w) (sym moved);
            exposed = contract.1;
          }
    ]
  ]

  -- A tripped latch without `auto_reset` stays where it is, whatever a call does.
  apply-tripped :
      (weights : ArrayLike F) (curve : Option (ArrayLike F)) (given : Value F)
      (c : CircuitBreaker F)
      → c.auto_reset ≡ false
      → c.tripped ≡ true
      → (apply weights curve given c).1 ≡ c
  unfolding apply update_state
  apply-tripped weights curve given c manual tripped = elim (Result-cases (book weights)) [
    | inr (e, bad) ↦ ground arith
    | inl (w, is_book) ↦ elim (Result-cases (current curve given)) [
      | inr (e, bad) ↦ ground arith
      | inl (d, is_current) ↦ ground arith
    ]
  ]

  -- One call after another, whether the last returned or raised; the results in order.
  abbrev pub apply_all :
      List (ArrayLike F × (Option (ArrayLike F) × Value F))
      → CircuitBreaker F
      → List (Result Exception (List F)) × CircuitBreaker F
  apply_all [] c = ([], c)
  apply_all ((weights, (curve, given)) ∷ calls) c =
      let (r, c') = apply weights curve given c in
      let (rs, c'') = apply_all calls c' in (r ∷ rs, c'')

module _ {F : Type 0} ⦃fl : Float F⦄ where
  abbrev pub IsZeros : List F → Type 0
  IsZeros ws = All (λ w. w ≡ zero) ws

  abbrev pub IsFlat : Result Exception (List F) → Type 0
  IsFlat (ok ws) = IsZeros ws
  IsFlat (err _) = Unit

zeros : (F : Type 0) ⦃fl : Float F⦄ (n : ℕ) → IsZeros {F = F} (replicate n zero)
zeros F zero_ℕ = tt
zeros F (suc n) = (refl, zeros F n)

module _ {F : Type 0} ⦃fl : Float F⦄ ⦃np : Numpy F⦄ where
  apply-IsFlat :
      (weights : ArrayLike F) (curve : Option (ArrayLike F)) (given : Value F)
      (c : CircuitBreaker F)
      → c.auto_reset ≡ false
      → c.tripped ≡ true
      → IsFlat (apply weights curve given c).0
  apply-IsFlat weights curve given c manual tripped =
      let kept = apply-tripped weights curve given c manual tripped in
      elim (Result-cases (apply weights curve given c).0) [
        | inr (e, raised) ↦ subst IsFlat (sym raised) tt
        | inl (out, returned) ↦
            let a = apply-Applied weights curve given c c out (ground (arith, kept, returned)) in
            let flat : out ≡ replicate (length a.incoming) zero =
              ground (arith, a.returned, tripped) in
            subst IsFlat (sym returned) (subst IsZeros (sym flat) (zeros F (length a.incoming)))
      ]

  -- Once tripped, a breaker without `auto_reset` stays as it is through any sequence of calls of
  -- `apply`, whatever their curves and drawdowns and whether they raise, and each call that returns
  -- returns zeros.
  pub apply_all-latched :
      (calls : List (ArrayLike F × (Option (ArrayLike F) × Value F))) (c : CircuitBreaker F)
      → c.auto_reset ≡ false
      → c.tripped ≡ true
      → ((apply_all calls c).1 ≡ c) × All IsFlat (apply_all calls c).0
  apply_all-latched [] c manual tripped = (refl, tt)
  apply_all-latched ((weights, (curve, given)) ∷ calls) c manual tripped =
      let kept = apply-tripped weights curve given c manual tripped in
      let rest = apply_all-latched calls c manual tripped in
      (
        ap (λ b. (apply_all calls b).1) kept ∙ rest.0,
        (
          apply-IsFlat weights curve given c manual tripped,
          subst (λ b. All IsFlat (apply_all calls b).0) (sym kept) rest.1,
        ),
      )
