-- ===== src/Python/Exception.antt =====
-- The exception classes of the modelled files, and methods that mutate an object and may raise.
use quantcortex.Prelude.{Bool, true, false}
use quantcortex.Prelude.Result.{Result, ok, err}

-- One constructor for each class. Messages are not modelled: no handler reads them.
pub data Exception : Type 0 where
  value_error type_error key_error zero_division overflow_error : Exception
  order_error duplicate_order_error unknown_order_error invalid_transition_error : Exception
  broker_error weight_contract_violation state_persistence_error : Exception
  -- the end of the process, which no handler sees
  process_killed : Exception

-- A method: what it wrote before a raise stays written, so the state comes back beside an error.
abbrev pub Exec : Type 0 → Type 0 → Type 0
Exec S A = S → Result Exception A × S

module _ {S A : Type 0} where
  abbrev pub pure : A → Exec S A
  pure a s = (ok a, s)

  abbrev pub lift : Result Exception A → Exec S A
  lift r s = (r, s)

  abbrev pub gets : (S → A) → Exec S A
  gets f s = (ok (f s), s)

abbrev pub modify : {S : Type 0} → (S → S) → Exec S Unit
modify f s = (ok tt, f s)

abbrev pub raise_when : {S : Type 0} → Bool → Exception → Exec S Unit
raise_when true e s = (err e, s)
raise_when false e s = (ok tt, s)

infixl 5 ◌>>=◌ ◌>>◌
abbrev pub ◌>>=◌ : {S A B : Type 0} → Exec S A → (A → Exec S B) → Exec S B
◌>>=◌ m f s = let (r, s') = m s in elim r [ ok a ↦ f a s' | err e ↦ (err e, s') ]

abbrev pub ◌>>◌ : {S B : Type 0} → Exec S Unit → Exec S B → Exec S B
m >> k = m >>= λ _. k
