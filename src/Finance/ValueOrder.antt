-- ===== src/Finance/ValueOrder.antt =====
-- The valuation of finance/engine.py: the three scenario values stand in order.
use house_analysis_ai.Prelude.{
  ℕ, Bool, true, false, Option, none, some, List, [], ◌∷◌, String, map, ◌≡◌, refl, inl, inr,
  if◌then◌else◌, arith, All, collect-All, Bool-cases, Result, Ensures-ok, Ensures-then, returns,
}
use house_analysis_ai.Python.{Python, ◌≼◌, ◌⊕◌, ◌⊖◌, ◌⊗◌, zero_decimal, one_decimal, nonzero, sum}
use house_analysis_ai.Python.Laws.{IsDecimal}
use house_analysis_ai.Python.Order
use house_analysis_ai.Contracts.{
  Date, NormalizedProperty, ValuationCandidate, AssumptionSet, ValueBlock, LiabilityBlock,
  UnderwritingResult, UnderwritingStatus,
}
use house_analysis_ai.Finance.{
  money, counted, weighted, candidate_weights, value_times_weight, weight_of, expected_value,
  dispersion_of, low_value, high_value, value_block, insufficient, sufficient, underwrite_from,
  underwrite_valid, underwrite,
}

module _ {D : Type 0} ⦃py : Python D⦄ where
  -- A candidate counts with a value and a weight that are not negative.
  abbrev pub IsCounted : String × D × D → Type 0
  IsCounted (kind, value, weight) = (zero_decimal ≼ value) × (zero_decimal ≼ weight)

module _ {D : Type 0} ⦃py : Python D⦄ (laws : IsDecimal D) where
  open laws use {
    le_total, le_trans, zero-le-times, zero-le-over, zero-le-dec, times_mono_right, minus_mono,
    plus_mono, one-minus-zero, one-plus-zero, quantize_mono, whole_quantize, quantize_again,
    again_quantize, quantize-times-one, one-times-quantize,
  }
  open py use {dec, quantize, le}

  counted-IsCounted :
      (kind : String) (value base weight : D) {w : String × D × D}
      → counted kind value base weight ≡ some w
      → IsCounted w
  unfolding counted
  counted-IsCounted kind value base weight e =
      ground (arith, le_total zero_decimal value, le_total zero_decimal weight)

  weighted-IsCounted :
      (r : NormalizedProperty D) (a : AssumptionSet D) (as_of : Option Date)
      (c : ValuationCandidate D) (w : String × D × D)
      → weighted r a as_of c ≡ some w
      → IsCounted w
  unfolding weighted
  weighted-IsCounted r a as_of c w e = go c.value.value _ _ _ e
    where
      go :
          (o : Option D) (kind : String) (base weight : D)
          → elim o [ none ↦ none | some value ↦ counted kind value base weight ] ≡ some w
          → IsCounted w
      go none kind base weight e = cc
      go (some v) kind base weight e = counted-IsCounted kind v base weight e

  candidates-IsCounted :
      (r : NormalizedProperty D) (a : AssumptionSet D) (as_of : Option Date)
      → All IsCounted (candidate_weights r a as_of)
  unfolding candidate_weights
  candidates-IsCounted r a as_of =
      collect-All IsCounted (weighted r a as_of) r.valuation_candidates
        (weighted-IsCounted r a as_of)

  products-All :
      (cs : List (String × D × D))
      → All IsCounted cs
      → All (λ x. zero_decimal ≼ x) (map value_times_weight cs)
  products-All [] h = tt
  products-All (c ∷ cs) h = (zero-le-times _ _ h.0.0 h.0.1, products-All cs h.1)

  weights-All :
      (cs : List (String × D × D))
      → All IsCounted cs
      → All (λ x. zero_decimal ≼ x) (map weight_of cs)
  weights-All [] h = tt
  weights-All (c ∷ cs) h = (h.0.1, weights-All cs h.1)

  zero-le-zero : dec 0 0 ≼ dec 0 0
  zero-le-zero = Order.le_refl laws zero_decimal

  zero-le-quantize : (k : ℕ) (x : D) → zero_decimal ≼ x → zero_decimal ≼ quantize k x
  zero-le-quantize k x h = le_trans _ _ _ (whole_quantize k 0) (quantize_mono k zero_decimal x h)

  zero-le-expected :
      (cs : List (String × D × D))
      → All IsCounted cs
      → nonzero (sum (map weight_of cs)) ≡ true
      → zero_decimal ≼ expected_value cs
  unfolding expected_value money
  zero-le-expected cs h n = zero-le-quantize 2 _ (
      zero-le-over _ _ (Order.zero-le-sum_from laws zero_decimal _ zero-le-zero (products-All cs h))
        (ground (
          arith,
          Order.zero-le-sum_from laws zero_decimal (map weight_of cs) zero-le-zero
              (weights-All cs h),
        )))

  zero-le-dispersion : (cs : List (String × D × D)) (v : D) → zero_decimal ≼ dispersion_of cs v
  unfolding dispersion_of
  zero-le-dispersion [] v = zero-le-dec 15 2
  zero-le-dispersion (x ∷ []) v = zero-le-dec 15 2
  zero-le-dispersion (x ∷ y ∷ rest) v =
      zero-le-quantize 6 _ (le_trans _ _ _ (zero-le-dec 4 2) (Order.le_max_left laws (dec 4 2) _))

  -- A rounded value times at most one is at most the value, and times at least one at least it.
  shrink :
      (x d : D) → zero_decimal ≼ money x → zero_decimal ≼ d → money x ⊗ (one_decimal ⊖ d) ≼ money x
  unfolding money
  shrink x d h k =
      le_trans _ _ _
        (times_mono_right (quantize 2 x) _ one_decimal h (
          le_trans _ _ _
            (minus_mono one_decimal one_decimal d zero_decimal (Order.le_refl laws one_decimal) k)
            one-minus-zero))
        (quantize-times-one 2 x)

  grow :
      (x d : D) → zero_decimal ≼ money x → zero_decimal ≼ d → money x ≼ money x ⊗ (one_decimal ⊕ d)
  unfolding money
  grow x d h k = le_trans _ _ _ (one-times-quantize 2 x) (
      times_mono_right (quantize 2 x) one_decimal _ h (
        le_trans _ _ _ one-plus-zero
          (plus_mono one_decimal one_decimal zero_decimal d (Order.le_refl laws one_decimal) k)))

  money-le : (x y : D) → y ≼ money x → money y ≼ money x
  unfolding money
  money-le x y h = le_trans _ _ _ (quantize_mono 2 _ _ h) (quantize_again 2 x)

  le-money : (x y : D) → money x ≼ y → money x ≼ money y
  unfolding money
  le-money x y h = le_trans _ _ _ (again_quantize 2 x) (quantize_mono 2 _ _ h)

  low_value-le :
      (x d : D) (low : Option D)
      → zero_decimal ≼ money x
      → zero_decimal ≼ d
      → low_value (money x) d low ≼ money x
  unfolding low_value
  low_value-le x d none h k = money-le x _ (shrink x d h k)
  low_value-le x d (some low) h k = elim (Bool-cases (le low (money x))) [
    | inl below ↦ rw below (money-le x _ (Order.max-le laws _ low _ (shrink x d h k) below))
    | inr above ↦ rw above (money-le x _ (shrink x d h k))
  ]

  le-high_value :
      (x d : D) (high : Option D)
      → zero_decimal ≼ money x
      → zero_decimal ≼ d
      → money x ≼ high_value (money x) d high
  unfolding high_value
  le-high_value x d none h k = le-money x _ (grow x d h k)
  le-high_value x d (some high) h k = elim (Bool-cases (le (money x) high)) [
    | inl above ↦ rw above (le-money x _ (Order.le-min laws _ high _ (grow x d h k) above))
    | inr below ↦ rw below (le-money x _ (grow x d h k))
  ]

  -- What the valuation promises of a list of counted candidates whose weights have a sum: the
  -- conservative value is at most the expected one, which is at least 0 and at most the
  -- optimistic one.
  abbrev pub IsOrdered : ValueBlock D → Type 0
  IsOrdered v =
      (low : D) × (expected : D) × (high : D) × (v.v_low ≡ some low)
      × (v.v_expected ≡ some expected)
      × (v.v_high ≡ some high)
      × (zero_decimal ≼ expected)
      × (low ≼ expected)
      × (expected ≼ high)

  pub value_block-IsOrdered :
      (r : NormalizedProperty D) (a : AssumptionSet D) (cs : List (String × D × D))
      → All IsCounted cs
      → nonzero (sum (map weight_of cs)) ≡ true
      → IsOrdered (value_block r a cs)
  unfolding value_block expected_value
  value_block-IsOrdered r a cs h n = (
    _,
    _,
    _,
    refl,
    refl,
    refl,
    zero-le-expected cs h n,
    low_value-le _ _ _ (zero-le-expected cs h n) (zero-le-dispersion cs _),
    le-high_value _ _ _ (zero-le-expected cs h n) (zero-le-dispersion cs _),
  )

  underwrite_from-IsOrdered :
      (r : NormalizedProperty D) (a : AssumptionSet D) (owed : LiabilityBlock D × D) (debt : Bool)
      (cs : List (String × D × D))
      → All IsCounted cs
      → (underwrite_from r a owed debt cs).status ≡ UnderwritingStatus.ok
      → IsOrdered (underwrite_from r a owed debt cs).value
  unfolding underwrite_from insufficient sufficient
  underwrite_from-IsOrdered r a owed debt [] h e = cc
  underwrite_from-IsOrdered r a owed debt (c ∷ cs) h e =
      split (nonzero (sum (map weight_of (c ∷ cs)))) refl e
    where
      pick : Bool → UnderwritingResult D
      pick b = if b then sufficient r a owed debt (c ∷ cs) else insufficient r a owed.0 debt

      split :
          (b : Bool)
          → nonzero (sum (map weight_of (c ∷ cs))) ≡ b
          → (pick b).status ≡ UnderwritingStatus.ok
          → IsOrdered (pick b).value
      split true n e = value_block-IsOrdered r a (c ∷ cs) h n
      split false n e = cc

  -- A property that is underwritten with the status `ok` has its three values in order: the
  -- conservative one is at most the expected one, which is at least 0 and at most the optimistic
  -- one. Nothing is asked of the record or of the assumptions.
  pub underwrite-IsOrdered :
      (r : NormalizedProperty D) (a : AssumptionSet D) (as_of : Option Date)
      {u : UnderwritingResult D}
      → underwrite r a as_of ≡ Result.ok u
      → u.status ≡ UnderwritingStatus.ok
      → IsOrdered u.value
  unfolding underwrite underwrite_valid
  underwrite-IsOrdered r a as_of {u} e =
      let P : UnderwritingResult D → Type 0 =
        λ v. v.status ≡ UnderwritingStatus.ok → IsOrdered v.value in
      Ensures-ok {P = P}
        (Ensures-then _ _
          λ checked. returns (underwrite_from-IsOrdered r a _ _ _ (candidates-IsCounted r a _)))
        e
