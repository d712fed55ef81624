-- ===== src/Execution/PositionManager/Invariant.antt =====
-- quantcortex/execution/position_manager.py: the book holds no flat position, and an update moves
-- one quantity by its delta.
use text.Mathlib.Text.{◌==◌}
use text.Mathlib.TextEquality.{eq_iff}
use quantcortex.Prelude.{
  String, ◌≡◌, ◌≢◌, refl, sym, ap, ◌∙◌, true, false, none, some, arith, subst, Bool-cases,
  Option-cases, if◌then◌else◌, inl, inr,
}
use quantcortex.Prelude.Result.{Result, ok}
use quantcortex.Python.Dict.{
  lookup, lookup-insert, lookup-insert_self, lookup-insert_ne, lookup-erase,
}
use quantcortex.Python.Exception.{Exception}
use quantcortex.Python.Float.{Float, zero, is_positive}
use quantcortex.Python.Value.{Value, str, num}
use quantcortex.Execution.Brokers.Base.{Position}
use quantcortex.Execution.OrderManager.Order.{Order}
use quantcortex.Execution.PositionManager.Mapping.{to_float, symbol_key}
use quantcortex.Execution.PositionManager.Book.{
  PositionManager, AppliedFill, signed, flat_tolerance, position_of, moved_to, settle, update,
  update_fill,
}
use quantcortex.Execution.PositionManager.Fills.{
  Updates, refused, updated, update-Updates, Applies, applied,
}
use quantcortex.Execution.PositionManager.Reports.{
  Reports, failed, repeated, grown, update_fill-Reports, get_position_keeps,
}

module _ {F : Type 0} ⦃fl : Float F⦄ where
  -- A position that is held: under its own symbol, not flat, with a usable price.
  pub record IsHeld (s : String) (p : Position F) : Type 0 where
    pub named : p.symbol ≡ s
    pub sized : fl.lt (fl.abs p.quantity) flat_tolerance ≡ false
    pub priced : is_positive p.market_price ≡ true

  pub record IsTidy (m : PositionManager F) : Type 0 where
    pub at_symbol : (s : String) (p : Position F) → lookup s m.positions ≡ some p → IsHeld s p

  insert-IsHeld :
      (s : String) (p : Position F) (m : PositionManager F)
      → IsHeld s p
      → IsTidy m
      → (j : String) (x : Position F) → (if s == j then some p else lookup j m.positions) ≡ some x
      → IsHeld j x
  insert-IsHeld s p m held t j x h = elim (Bool-cases (s == j)) [
    | inl same ↦
        subst (λ i. IsHeld i x) ((eq_iff s j).0 same) (subst (IsHeld s) (ground arith) held)
    | inr other ↦ t.at_symbol j x (rw other at h)
  ]

  erase-IsHeld :
      (s : String) (m : PositionManager F)
      → IsTidy m
      → (j : String) (x : Position F) → (if s == j then none else lookup j m.positions) ≡ some x
      → IsHeld j x
  erase-IsHeld s m t j x h = elim (Bool-cases (s == j)) [
    | inl same ↦ ground arith
    | inr other ↦ t.at_symbol j x (rw other at h)
  ]

  settle-IsTidy :
      (s : String) (p : Position F) (m : PositionManager F)
      → p.symbol ≡ s
      → is_positive p.market_price ≡ true
      → IsTidy m
      → IsTidy (settle s p m).1
  unfolding settle
  settle-IsTidy s p m named priced t =
      elim (Bool-cases (fl.lt (fl.abs p.quantity) flat_tolerance)) [
        | inl flat ↦ rw flat (record {
          at_symbol = λ j x h. erase-IsHeld s m t j x (sym (lookup-erase s j m.positions) ∙ h);
        })
        | inr sized ↦ rw sized (record {
          at_symbol = λ j x h.
              insert-IsHeld s p m (record { named = named; sized = sized; priced = priced }) t j x
                (sym (lookup-insert s j p m.positions) ∙ h);
        })
      ]

  position_of_named : (s : String) (m : PositionManager F) → IsTidy m → (position_of s m).symbol ≡ s
  unfolding position_of
  position_of_named s m t = elim (Option-cases (lookup s m.positions)) [
    | inl missing ↦ ground arith
    | inr (p, found) ↦ let held = t.at_symbol s p found in ground (arith, held.named)
  ]

  Updates-IsTidy :
      {symbol delta price : Value F} {m : PositionManager F}
      {r : Result Exception (Position F) × PositionManager F}
      → Updates symbol delta price m r
      → IsTidy m
      → IsTidy r.1
  Updates-IsTidy (refused e) t = t
  Updates-IsTidy {m = m} (updated s d p a key is_d is_p positive based) t =
      settle-IsTidy s (moved_to (position_of s m) d p a) m (position_of_named s m t) positive t

  Applies-IsTidy :
      {o : Order F} {increment : F} {a : AppliedFill F} {m : PositionManager F}
      {r : Result Exception (Position F) × PositionManager F}
      → Applies o increment a m r
      → IsTidy m
      → IsTidy r.1
  Applies-IsTidy (Applies.refused e) t = t
  Applies-IsTidy {o} {increment} {m = m} (applied price unit p m' is_price is_unit done) t =
      let call = update (str o.symbol) (num (signed o.side increment)) (num unit) m in
      let tidy =
        Updates-IsTidy (update-Updates (str o.symbol) (num (signed o.side increment)) (num unit) m)
          t in
      let moved =
        subst IsTidy (ap (λ (r : Result Exception (Position F) × PositionManager F). r.1) done)
          tidy in
      record { at_symbol = moved.at_symbol }

  Reports-IsTidy :
      {o : Order F} {m : PositionManager F} {r : Result Exception (Position F) × PositionManager F}
      → Reports o m r
      → IsTidy m
      → IsTidy r.1
  Reports-IsTidy (failed e) t = t
  Reports-IsTidy {o} {m} (repeated valid) t =
      subst IsTidy (sym (get_position_keeps (str o.symbol) m)) t
  Reports-IsTidy (grown valid fresh a) t = Applies-IsTidy a t

  -- On a book where each position is held under its own symbol, is not flat and has a positive
  -- price, neither `update` nor `update_fill`, returning or raising, leaves a position that is
  -- not so.
  pub updates-IsTidy :
      (symbol delta price : Value F) (o : Order F) (m : PositionManager F)
      → IsTidy m
      → IsTidy (update symbol delta price m).1 × IsTidy (update_fill o m).1
  updates-IsTidy symbol delta price o m t = (
    Updates-IsTidy (update-Updates symbol delta price m) t,
    Reports-IsTidy (update_fill-Reports o m) t,
  )

  -- the quantity that an update leaves
  abbrev pub quantity_after : F → F
  quantity_after q = if fl.lt (fl.abs q) flat_tolerance then zero else q

  -- What an update of `s` by `d` has done: the quantity of `s`, and all that it left alone.
  abbrev pub HasUpdated : String → F → PositionManager F → Position F → PositionManager F → Type 0
  HasUpdated s d m p m' =
      (p.quantity ≡ quantity_after (fl.add (position_of s m).quantity d))
      × ((position_of s m').quantity ≡ p.quantity)
      × (m'.applied_fills ≡ m.applied_fills)

  settle_lem :
      (s : String) (q : Position F) (m : PositionManager F) (p : Position F)
      → (settle s q m).0 ≡ ok p
      → (p.quantity ≡ quantity_after q.quantity)
        × ((position_of s (settle s q m).1).quantity ≡ p.quantity)
        × ((settle s q m).1.applied_fills ≡ m.applied_fills)
  unfolding settle position_of
  settle_lem s q m p h =
      ground (arith, lookup-insert_self s q m.positions, lookup-erase s s m.positions, eq_iff s s)

  settle_others :
      (s j : String) (p : Position F) (m : PositionManager F)
      → s ≢ j
      → lookup j (settle s p m).1.positions ≡ lookup j m.positions
  unfolding settle
  settle_others s j p m ne =
      ground
        (arith, lookup-erase s j m.positions, lookup-insert_ne s j p m.positions ne, eq_iff s j)

  Updates-HasUpdated :
      {symbol delta price : Value F} {m : PositionManager F} {p : Position F} {s : String} {d : F}
      {r : Result Exception (Position F) × PositionManager F}
      → Updates symbol delta price m r
      → symbol_key symbol ≡ ok s
      → to_float delta ≡ some d
      → r.0 ≡ ok p
      → HasUpdated s d m p r.1
  Updates-HasUpdated (refused e) key is_d h = cc
  Updates-HasUpdated {m = m} {p} {s} {d} {r} (updated s' d' price a key' is_d' is_p positive based)
        key is_d h =
      let same_s : s' ≡ s = ground arith in
      let same_d : d' ≡ d = ground arith in
      let moved = moved_to (position_of s' m) d' price a in
      let done = settle_lem s' moved m p h in
      subst (λ i. HasUpdated i d m p r.1) same_s (subst (λ x. HasUpdated s' x m p r.1) same_d done)

  Updates-others :
      {symbol delta price : Value F} {m : PositionManager F} {s : String} (j : String)
      {r : Result Exception (Position F) × PositionManager F}
      → Updates symbol delta price m r
      → symbol_key symbol ≡ ok s
      → s ≢ j
      → lookup j r.1.positions ≡ lookup j m.positions
  Updates-others j (refused e) key ne = refl
  Updates-others {m = m} {s} j (updated s' d p a key' is_d is_p positive based) key ne =
      let same : s' ≡ s = ground arith in
      settle_others s' j (moved_to (position_of s' m) d p a) m (λ e. ne (sym same ∙ e))

  -- An update that returns, of a symbol and by a delta that it can read, adds the delta to the
  -- quantity of the symbol, to zero where the sum is flat, and leaves all applied fills and the
  -- position of any other symbol.
  pub update_lem :
      (symbol delta price : Value F) (m : PositionManager F) (p : Position F) (s j : String) (d : F)
      → symbol_key symbol ≡ ok s
      → to_float delta ≡ some d
      → s ≢ j
      → (update symbol delta price m).0 ≡ ok p
      → let m' = (update symbol delta price m).1 in
        HasUpdated s d m p m' × (lookup j m'.positions ≡ lookup j m.positions)
  update_lem symbol delta price m p s j d key is_d ne h =
      let u = update-Updates symbol delta price m in
      (Updates-HasUpdated u key is_d h, Updates-others j u key ne)
