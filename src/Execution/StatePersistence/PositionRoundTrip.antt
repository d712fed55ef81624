-- ===== src/Execution/StatePersistence/PositionRoundTrip.antt =====
-- quantcortex/execution/state_persistence.py: the positions of a snapshot are JSON objects, and come
-- back as they were.
use text.Mathlib.Text.{◌==◌}
use text.Mathlib.TextEquality.{eq_iff}
use text.Mathlib.TextPositions.{eq_refl}
use quantcortex.Prelude.{
  String, ◌≡◌, refl, true, false, some, List, [], ◌∷◌, ◌++◌, map, arith, All, ap, sym, ◌∙◌,
  append-nil, append-cons,
}
use quantcortex.Prelude.Result.{ok}
use quantcortex.Python.Dict.{Dict, insert, contains, lookup}
use quantcortex.Python.Fields.{is_json, is_json_fields, entry, is_key, is_fresh}
use quantcortex.Python.Float.{Float, zero}
use quantcortex.Python.Text.{strip, is_blank}
use quantcortex.Python.Value.{Value, num, str, dict}
use quantcortex.Execution.Brokers.Base.{Position, make_position, numeric_field}
use quantcortex.Execution.StatePersistence.Orders.{fields, seen, has_duplicates}
use quantcortex.Execution.StatePersistence.Positions.{
  PositionLike, position, serialise_position, payload_of, serialise_each, serialise_positions,
  position_from, deserialise_each, deserialise_positions,
}

module _ {ℓ} {V : Type ℓ} where
  -- A key that is not there is added at the end.
  insert-append :
      (k : String) (v : V) (d : Dict V) → contains k d ≡ false → insert k v d ≡ d ++ (k, v) ∷ []
  unfolding insert lookup
  insert-append k v [] h = refl
  insert-append k v ((j, w) ∷ d) h = ground (arith, insert-append k v d)

  contains-append :
      (k j : String) (v : V) (d : Dict V)
      → (j == k) ≡ false
      → contains k d ≡ false
      → contains k (d ++ (j, v) ∷ []) ≡ false
  unfolding lookup
  contains-append k j v [] n h = ground arith
  contains-append k j v ((i, w) ∷ d) n h = ground (arith, contains-append k j v d n)

module _ {F : Type 0} where
  -- the argument for a book, its payload, and the book that is read
  abbrev pub book_argument : List (Position F) → List (Value F × PositionLike F)
  book_argument ps = map (λ p. (str p.symbol, position p)) ps

  abbrev pub book_payload : List (Position F) → Dict (Value F)
  book_payload ps = map (λ p. (p.symbol, dict (serialise_position p))) ps

  abbrev pub book_of : List (Position F) → Dict (Position F)
  book_of ps = map (λ p. (p.symbol, p)) ps

  abbrev pub symbols_of : List (Position F) → List String
  symbols_of ps = map (λ p. p.symbol) ps

module _ {F : Type 0} ⦃fl : Float F⦄ where
  -- What the constructor of a position guarantees of it.
  pub record IsPosition (p : Position F) : Type 0 where
    pub stripped : strip p.symbol ≡ p.symbol
    pub named : is_blank p.symbol ≡ false
    pub finite_quantity : fl.is_finite p.quantity ≡ true
    pub finite_average : fl.is_finite p.avg_price ≡ true
    pub finite_market : fl.is_finite p.market_price ≡ true
    pub average_nonneg : fl.lt p.avg_price zero ≡ false
    pub market_nonneg : fl.lt p.market_price zero ≡ false

  make_position-fields :
      (p : Position F)
      → IsPosition p
      → make_position (str p.symbol) (num p.quantity) (num p.avg_price) (num p.market_price) ≡ ok p
  unfolding make_position numeric_field
  make_position-fields p v = rw v.stripped (
      rw v.named (
        rw v.finite_quantity (
          rw v.finite_average
            (rw v.finite_market (rw v.average_nonneg (rw v.market_nonneg refl))))))

  position_from-serialise_position :
      (k : Value F) (p : Position F)
      → IsPosition p
      → position_from k (dict (serialise_position p)) ≡ ok p
  unfolding position_from serialise_position entry is_key
  position_from-serialise_position k p v = make_position-fields p v

  serialise_position-IsJson :
      (p : Position F) → IsPosition p → is_json_fields (serialise_position p) ≡ true
  unfolding serialise_position is_json is_fresh entry is_key
  serialise_position-IsJson p v =
      rw v.finite_quantity (rw v.finite_average (rw v.finite_market refl))

  abbrev Unbooked {ℓ} : {V : Type ℓ} → Dict V → Position F → Type 0
  Unbooked d p = contains p.symbol d ≡ false

  Unbooked-append {ℓ} :
      {V : Type ℓ} (i : String) (v : V) (d : Dict V) (ps : List (Position F))
      → seen i (symbols_of ps) ≡ false
      → All (Unbooked d) ps
      → All (Unbooked (d ++ (i, v) ∷ [])) ps
  unfolding seen
  Unbooked-append i v d [] h u = tt
  Unbooked-append i v d (p ∷ ps) h u = (
    contains-append p.symbol i v d (ground (arith, eq_iff p.symbol i, eq_iff i p.symbol)) u.0,
    Unbooked-append i v d ps (ground arith) u.1,
  )

  Unbooked-nil {ℓ} : (V : Type ℓ) (ps : List (Position F)) → All (Unbooked {V = V} []) ps
  unfolding lookup
  Unbooked-nil V [] = tt
  Unbooked-nil V (p ∷ ps) = (refl, Unbooked-nil V ps)

  serialise_each-book :
      (ps : List (Position F)) (d : Dict (Value F))
      → All IsPosition ps
      → has_duplicates (symbols_of ps) ≡ false
      → All (Unbooked d) ps
      → serialise_each (book_argument ps) d ≡ ok (d ++ book_payload ps)
  unfolding serialise_each payload_of has_duplicates
  serialise_each-book [] d v n u = ap ok (sym (append-nil d))
  serialise_each-book (p ∷ ps) d (v, vs) n (fresh, u) =
      let entry_of : Value F = dict (serialise_position p) in
      let u' = Unbooked-append p.symbol entry_of d ps (ground arith) u in
      rw v.stripped (
        rw v.named (
          rw fresh (
            rw (eq_refl p.symbol) (
              rw (insert-append p.symbol entry_of d fresh) (
                serialise_each-book ps (d ++ (p.symbol, entry_of) ∷ []) vs (ground arith) u'
                ∙ ap ok (append-cons d (p.symbol, entry_of) (book_payload ps)))))))

  deserialise_each-book :
      (ps : List (Position F)) (d : Dict (Position F))
      → All IsPosition ps
      → has_duplicates (symbols_of ps) ≡ false
      → All (Unbooked d) ps
      → deserialise_each (fields (book_payload ps)) d ≡ ok (d ++ book_of ps)
  unfolding deserialise_each has_duplicates
  deserialise_each-book [] d v n u = ap ok (sym (append-nil d))
  deserialise_each-book (p ∷ ps) d (v, vs) n (fresh, u) =
      let u' = Unbooked-append p.symbol p d ps (ground arith) u in
      rw v.stripped (
        rw v.named (
          rw (position_from-serialise_position (str p.symbol) p v) (
            rw (insert-append p.symbol p d fresh) (
              deserialise_each-book ps (d ++ (p.symbol, p) ∷ []) vs (ground arith) u'
              ∙ ap ok (append-cons d (p.symbol, p) (book_of ps))))))

  fresh-book :
      (i : String) (ps : List (Position F))
      → seen i (symbols_of ps) ≡ false
      → is_fresh (str i) (fields (book_payload ps)) ≡ true
  unfolding is_fresh seen entry is_key
  fresh-book i [] h = refl
  fresh-book i (p ∷ ps) h = ground (arith, fresh-book i ps)

  -- The payload of a book is a JSON object, and the book is read from it again.
  pub serialise_positions-book :
      (ps : List (Position F))
      → All IsPosition ps
      → has_duplicates (symbols_of ps) ≡ false
      → serialise_positions (some (book_argument ps)) ≡ ok (book_payload ps)
  unfolding serialise_positions
  serialise_positions-book ps v n = serialise_each-book ps [] v n (Unbooked-nil (Value F) ps)

  pub deserialise_positions-book :
      (ps : List (Position F))
      → All IsPosition ps
      → has_duplicates (symbols_of ps) ≡ false
      → deserialise_positions (dict (fields (book_payload ps))) ≡ ok (book_of ps)
  unfolding deserialise_positions
  deserialise_positions-book ps v n =
      rw (deserialise_each-book ps [] v n (Unbooked-nil (Position F) ps)) refl

  pub book_payload-IsJson :
      (ps : List (Position F))
      → All IsPosition ps
      → has_duplicates (symbols_of ps) ≡ false
      → is_json_fields (fields (book_payload ps)) ≡ true
  unfolding is_json has_duplicates
  book_payload-IsJson [] v n = refl
  book_payload-IsJson (p ∷ ps) (v, vs) n =
      rw (fresh-book p.symbol ps (ground arith))
        (rw (serialise_position-IsJson p v) (book_payload-IsJson ps vs (ground arith)))
