-- ===== src/Scripts/PaperCycle/Ledger.antt =====
-- scripts/paper_trade_cycle.py: the ledger of submissions, and what is relied on of its store.
use text.Mathlib.Text.{◌==◌}
use text.Mathlib.TextEquality.{eq_iff}
use text.Mathlib.TextPositions.{eq_refl}
use quantcortex.Prelude.{
  String, ◌≡◌, refl, Bool, true, false, none, some, is_some, List, [], ◌∷◌, arith, All, Bool-cases,
  inl, inr,
}
use quantcortex.Prelude.Result.{ok}
use quantcortex.Python.Fields.{set_field, entry-set_field}
use quantcortex.Python.Value.{Value, dict, Fields}
use quantcortex.Execution.StatePersistence.Orders.{seen, has_duplicates}
use quantcortex.Execution.StatePersistence.Save.{Request}
use quantcortex.Execution.StatePersistence.Snapshot.{ExecutionSnapshot}
use quantcortex.Scripts.PaperCycle.Session.{SnapshotStore, recorded}

module _ {F : Type 0} where
  -- the id is in the ledger
  abbrev pub is_known : String → Fields F → Bool
  is_known id fs = is_some (recorded id fs)

  unfoldable pub is_known_in : String → Value F → Bool
  is_known_in id (dict fs) = is_known id fs
  is_known_in id _ = false

  is_known-set_field :
      (id k : String) (gs fs : Fields F)
      → is_known id fs ≡ true
      → is_known id (set_field k (dict gs) fs) ≡ true
  unfolding recorded
  is_known-set_field id k gs fs h = elim (Bool-cases (k == id)) [
    | inl same ↦ let e = entry-set_field k id (dict gs) fs in cc
    | inr other ↦ let e = entry-set_field k id (dict gs) fs in cc
  ]

  pub is_known-noted :
      (id : String) (gs fs : Fields F) → is_known id (set_field id (dict gs) fs) ≡ true
  unfolding recorded
  is_known-noted id gs fs =
      let put = entry-set_field id id (dict gs) fs in let same = eq_refl id in cc

  -- An id that is in no ledger entry is none of those that are.
  pub unseen-of_unknown :
      (id : String) (fs : Fields F) (ids : List String)
      → All (λ k. is_known k fs ≡ true) ids
      → recorded id fs ≡ none
      → seen id ids ≡ false
  unfolding seen
  unseen-of_unknown id fs [] h none_there = refl
  unseen-of_unknown id fs (k ∷ ids) (known, rest) none_there =
      ground (arith, eq_iff k id, unseen-of_unknown id fs ids rest)

  pub All-set_field :
      (k : String) (gs fs : Fields F) (ids : List String)
      → All (λ i. is_known i fs ≡ true) ids
      → All (λ i. is_known i (set_field k (dict gs) fs) ≡ true) ids
  All-set_field k gs fs [] h = tt
  All-set_field k gs fs (i ∷ ids) (known, rest) =
      (is_known-set_field i k gs fs known, All-set_field k gs fs ids rest)

-- What the program relies on of a store: `durable` is the ledger that a process that starts now
-- would read. An id is known where the ledger has a record of it, which `None` is not. A save that returns has stored the intents, and one that raises has lost none that
-- were both there and in its intents. A load changes nothing, and finds what is there.
pub record IsDurable {F S : Type 0} (st : SnapshotStore F S) (durable : S → Fields F) : Type 0 where
  pub save_records :
      (s : S) (req : Request F) (snap : ExecutionSnapshot F) (id : String)
      → (st.save req s).0 ≡ ok snap
      → is_known_in id req.intents ≡ true
      → is_known id (durable (st.save req s).1) ≡ true
  pub save_keeps :
      (s : S) (req : Request F) (id : String)
      → is_known_in id req.intents ≡ true
      → is_known id (durable s) ≡ true
      → is_known id (durable (st.save req s).1) ≡ true
  pub load_keeps :
      (s : S) (id : String)
      → is_known id (durable s) ≡ true
      → is_known id (durable (st.load s).1) ≡ true
  pub load_known :
      (s : S) (snap : ExecutionSnapshot F) (id : String)
      → (st.load s).0 ≡ ok (some snap)
      → is_known id (durable s) ≡ true
      → is_known id snap.intents ≡ true
  pub attempts_keep :
      (s : S) (id : String)
      → is_known id (durable s) ≡ true
      → is_known id (durable (st.load_attempts s).1) ≡ true
  -- without a snapshot, the older ledger is the one that counts
  pub attempts_known :
      (s : S) (v : Value F) (id : String)
      → (st.load s).0 ≡ ok none
      → (st.load_attempts (st.load s).1).0 ≡ ok v
      → is_known id (durable s) ≡ true
      → is_known_in id v ≡ true

module _ {F S : Type 0} (st : SnapshotStore F S) (durable : S → Fields F) where
  -- Every id that was sent is on the durable ledger, and none was sent twice.
  abbrev pub IsSafe : List String → S → Type 0
  IsSafe sent store =
      (has_duplicates sent ≡ false) × All (λ id. is_known id (durable store) ≡ true) sent

  pub save-All :
      IsDurable st durable
      → (s : S) (req : Request F) (ids : List String)
      → All (λ id. is_known_in id req.intents ≡ true) ids
      → All (λ id. is_known id (durable s) ≡ true) ids
      → All (λ id. is_known id (durable (st.save req s).1) ≡ true) ids
  save-All law s req [] known kept = tt
  save-All law s req (id ∷ ids) (k, ks) (d, ds) =
      (law.save_keeps s req id k d, save-All law s req ids ks ds)
