-- ===== src/Scripts/PaperCycle/Triples.antt =====
-- Reasoning about methods that mutate an object and may raise: a precondition, what holds of the
-- state and the result of a return, and what holds of the state after a raise.
use quantcortex.Prelude.{◌≡◌, refl, ap}
use quantcortex.Prelude.Result.{Result, ok, err}
use quantcortex.Python.Exception.{Exception, Exec, lift, ◌>>=◌}

module _ {S : Type 0} where
  abbrev pub After :
      {A : Type 0} → (A → S → Type 0) → (S → Type 0) → Result Exception A × S → Type 0
  After Q E (ok a, s) = Q a s
  After Q E (err e, s) = E s

  abbrev pub Triple :
      {A : Type 0} → (S → Type 0) → Exec S A → (A → S → Type 0) → (S → Type 0) → Type 0
  Triple P m Q E = (s : S) → P s → After Q E (m s)

  After-bind :
      {A B : Type 0} (w : Result Exception A × S) (k : A → Exec S B) (Q : A → S → Type 0)
      (R : B → S → Type 0) (E : S → Type 0)
      → After Q E w
      → ((a : A) → Triple (Q a) (k a) R E)
      → After R E (elim w.0 [ ok a ↦ k a w.1 | err e ↦ (err e, w.1) ])
  After-bind (ok a, s) k Q R E h rest = rest a s h
  After-bind (err e, s) k Q R E h rest = h

  pub triple-bind :
      {A B : Type 0} (P : S → Type 0) (m : Exec S A) (Q : A → S → Type 0) (k : A → Exec S B)
      (R : B → S → Type 0) (E : S → Type 0)
      → Triple P m Q E
      → ((a : A) → Triple (Q a) (k a) R E)
      → Triple P (m >>= k) R E
  triple-bind P m Q k R E first rest s p = After-bind (m s) k Q R E (first s p) rest

  -- A value that needs no state leaves the state as it is.
  pub triple-lift :
      {A : Type 0} (P : S → Type 0) (r : Result Exception A) → Triple P (lift r) (λ _. P) P
  triple-lift P (ok a) s p = p
  triple-lift P (err e) s p = p

  -- A value that needs no state, where what it is matters.
  pub triple-lift_ok :
      {A : Type 0} (P : S → Type 0) (r : Result Exception A) (Q : A → S → Type 0) (E : S → Type 0)
      → ((s : S) → P s → (a : A) → r ≡ ok a → Q a s)
      → ((s : S) → P s → E s)
      → Triple P (lift r) Q E
  triple-lift_ok P (ok a) Q E good bad s p = good s p a refl
  triple-lift_ok P (err e) Q E good bad s p = bad s p

  -- An outcome, where what was returned matters.
  pub After-ok :
      {A : Type 0} (w : Result Exception A × S) (Q : A → S → Type 0) (E : S → Type 0)
      → ((a : A) → w.0 ≡ ok a → Q a w.1)
      → E w.1
      → After Q E w
  After-ok (ok a, s) Q E good bad = good a refl
  After-ok (err e, s) Q E good bad = bad

  After-weaken :
      {A : Type 0} (w : Result Exception A × S) (Q : A → S → Type 0) (E E' : S → Type 0)
      → After Q E w
      → ((s : S) → E s → E' s)
      → After Q E' w
  After-weaken (ok a, s) Q E E' h weaker = h
  After-weaken (err e, s) Q E E' h weaker = weaker s h

  pub triple-weaken :
      {A : Type 0} (P : S → Type 0) (m : Exec S A) (Q : A → S → Type 0) (E E' : S → Type 0)
      → Triple P m Q E
      → ((s : S) → E s → E' s)
      → Triple P m Q E'
  triple-weaken P m Q E E' h weaker s p = After-weaken (m s) Q E E' (h s p) weaker

  -- One condition on the state, whichever way the method ends.
  pub After-state :
      {A : Type 0} (w : Result Exception A × S) (E : S → Type 0) → After (λ _. E) E w → E w.1
  After-state (ok a, s) E h = h
  After-state (err e, s) E h = h

  pub bind-returned :
      {A B : Type 0} (m : Exec S A) (k : A → Exec S B) (s s' : S) (a : A)
      → m s ≡ (ok a, s')
      → (m >>= k) s ≡ k a s'
  bind-returned m k s s' a h = ap (λ w. elim w.0 [ ok x ↦ k x w.1 | err e ↦ (err e, w.1) ]) h
