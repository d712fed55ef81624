-- ===== src/Portfolio/Brackets.antt =====
-- quantcortex/portfolio/base.py: where the bisection of `project_bounded_sum` ends.
use quantcortex.Prelude.{
  ℕ, zero as zero_ℕ, suc, ◌≡◌, inl, inr, Bool, true, false, List, map, Bool-cases,
}
use quantcortex.Prelude.Halving.{Halved, whole, below, above}
use quantcortex.Python.Float.{Float, max, min}
use quantcortex.Python.Numpy.{Numpy}
use quantcortex.Portfolio.Projection.{bisect}

module _ {F : Type 0} ⦃fl : Float F⦄ ⦃np : Numpy F⦄ where
  -- Whether the elements, each less a shift and then put into the box, sum to more than the target.
  abbrev pub Exceeds : F → F → F → List F → F → Bool → Type 0
  Exceeds target lower upper arr theta b =
      fl.lt target (np.sum (map (λ x. min (max (fl.sub x theta) lower) upper) arr)) ≡ b

  -- A bracket of the shift that the halvings left: the sum is more than the target at its lower end,
  -- and not at its upper end.
  pub record Brackets (n : ℕ) (target lower upper : F) (arr : List F) (low high : F) (b : F × F)
      : Type 0 where
    pub narrowed : Halved (λ a b. fl.mul (fl.scaled 5 1) (fl.add a b)) n low high b.0 b.1
    pub exceeds : Exceeds target lower upper arr b.0 true
    pub within : Exceeds target lower upper arr b.1 false

  -- From a bracket of the shift at whose lower end the shifted elements in the box sum to more than the
  -- target, and at whose upper end they do not, the bisection ends in such a bracket, which is left
  -- after as many halvings as it has rounds.
  pub bisect_lem :
      (n : ℕ) (target lower upper : F) (arr : List F) (low high : F)
      → Exceeds target lower upper arr low true
      → Exceeds target lower upper arr high false
      → Brackets n target lower upper arr low high (bisect n target lower upper arr (low, high))
  unfolding bisect
  bisect_lem zero_ℕ target lower upper arr low high more less = record {
    narrowed = whole low high;
    exceeds = more;
    within = less;
  }
  bisect_lem (suc n) target lower upper arr low high more less =
      let theta = fl.mul (fl.scaled 5 1) (fl.add low high) in
      elim (Bool-cases
        (fl.lt target (np.sum (map (λ x. min (max (fl.sub x theta) lower) upper) arr)))) [
          | inl beyond ↦
              let e = bisect_lem n target lower upper arr theta high beyond less in
              rw beyond (record {
                narrowed = above n low high _ _ e.narrowed;
                exceeds = e.exceeds;
                within = e.within;
              })
          | inr short ↦
              let e = bisect_lem n target lower upper arr low theta more short in
              rw short (record {
                narrowed = below n low high _ _ e.narrowed;
                exceeds = e.exceeds;
                within = e.within;
              })
        ]
