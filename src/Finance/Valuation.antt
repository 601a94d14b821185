-- ===== src/Finance/Valuation.antt =====
-- `_comp_quality`, `_comp_range` and `_candidate_weights` of finance/engine.py.
use house_analysis_ai.Prelude.{
  ℕ, Bool, not, ◌||◌, Option, none, some, List, [], ◌∷◌, ◌++◌, String, Dict, ◌==◌, string_eq, leb,
  if◌then◌else◌, collect, length,
}
use house_analysis_ai.Prelude.Int.{pos}
use house_analysis_ai.Python.{
  Python, ◌⊖◌, ◌⊗◌, ◌⊘◌, zero_decimal, one_decimal, lt, nonzero, max_of, min_of, sum,
}
use house_analysis_ai.Contracts.{
  Date, days_since, NormalizedProperty, ComparableSale, ValuationCandidate, AssumptionSet,
}
use house_analysis_ai.Finance.Money.{value_of, get_or, default_to, clamp}
use house_analysis_ai.Finance.Rates.{contains}

module _ {D : Type 0} ⦃py : Python D⦄ where
  open py use {dec, of_int, power, quantize, le, casefold, lower, strip, absolute}

  -- a comparable that is included and has a price
  abbrev priced : ComparableSale D → Option (ComparableSale D)
  priced c = if c.included then elim (value_of c.price) [ none ↦ none | some _ ↦ some c ] else none

  abbrev count_of : List D → D
  count_of xs = of_int (pos (length xs))

  -- `1` up to the first limit, a first cut up to the second, and a second cut above it
  abbrev graded : D → D → D → D
  graded first second mean =
      if le mean first then one_decimal else if le mean second then dec 9 1 else dec 8 1

  -- a factor for the mean of what is known of the comparables, and `1` where nothing is
  abbrev mean_factor : D → D → List D → D
  mean_factor first second [] = one_decimal
  mean_factor first second (x ∷ xs) = graded first second (sum (x ∷ xs) ⊘ count_of (x ∷ xs))

  abbrev count_factor : ℕ → D
  count_factor n = if leb 5 n then one_decimal else if leb 3 n then dec 85 2 else dec 7 1

  abbrev distance_factor : List (ComparableSale D) → D
  distance_factor comps = mean_factor one_decimal (dec 2 0) (collect (λ c. c.distance) comps)

  abbrev sale_days : Date → ComparableSale D → Option D
  sale_days as_of c = elim c.sale_date [
    | none ↦ none
    | some sold ↦ some (of_int (pos (days_since as_of sold)))
  ]

  abbrev recency_factor : Option Date → List (ComparableSale D) → D
  recency_factor none comps = one_decimal
  recency_factor (some as_of) comps =
      mean_factor (dec 180 0) (dec 365 0) (collect (sale_days as_of) comps)

  -- `if c.sqft`, which a size of zero fails
  abbrev size_delta : D → ComparableSale D → Option D
  size_delta subject c = elim c.sqft [
    | none ↦ none
    | some sqft ↦ (if nonzero sqft then some (absolute (sqft ⊖ subject) ⊘ subject) else none)
  ]

  abbrev size_factor : Option D → List (ComparableSale D) → D
  size_factor none comps = one_decimal
  size_factor (some subject) comps =
      if nonzero subject
      then mean_factor (dec 1 1) (dec 2 1) (collect (size_delta subject) comps)
      else one_decimal

  -- The factors for distance, recency and size multiply the factor for the count. One that has no
  -- data is 1, and leaves the short product as it is. The mean of the whole days is taken in
  -- decimals.
  unfoldable pub quality_of : NormalizedProperty D → Option Date → List (ComparableSale D) → D
  quality_of record' as_of [] = one_decimal
  quality_of record' as_of (c ∷ cs) =
      let comps = c ∷ cs in
      clamp
        (count_factor (length comps)
          ⊗ distance_factor comps
          ⊗ recency_factor as_of comps
          ⊗ size_factor (value_of record'.attributes.sqft) comps)
        (dec 3 1) one_decimal

  -- `_comp_quality`
  unfoldable pub comp_quality : NormalizedProperty D → Option Date → D
  comp_quality record' as_of = quality_of record' as_of (collect priced record'.comparables)

  abbrev comp_price : ComparableSale D → Option D
  comp_price c = if c.included then value_of c.price else none

  abbrev is_comp : ValuationCandidate D → Bool
  is_comp candidate = contains "comp" (lower candidate.valuation_type)

  abbrev first_min : List D → Option D
  first_min [] = none
  first_min (x ∷ xs) = some (min_of x xs)

  abbrev first_max : List D → Option D
  first_max [] = none
  first_max (x ∷ xs) = some (max_of x xs)

  -- `_comp_range`
  unfoldable pub comp_range : NormalizedProperty D → Option D × Option D
  comp_range record' =
      let prices = collect comp_price record'.comparables in
      let candidates = record'.valuation_candidates in
      (
        first_min (prices ++ collect (λ c. if is_comp c then c.value_low else none) candidates),
        first_max (prices ++ collect (λ c. if is_comp c then c.value_high else none) candidates),
      )

  -- `SPEC_TYPE_WEIGHT`
  abbrev spec_type_weight : Dict D
  spec_type_weight =
      ("avm", dec 30 2)
      ∷ ("comp", dec 35 2)
      ∷ ("comp_listing", dec 15 2)
      ∷ ("list_price", dec 10 2)
      ∷ ("assessed", dec 10 2)
      ∷ []

  abbrev recency_decay : Option Date → Option Date → D
  recency_decay (some valued) (some as_of) =
      power (dec 5 1) (of_int (pos (days_since as_of valued)) ⊘ dec 90 0)
  recency_decay _ _ = one_decimal

  -- what the base weight of a candidate is multiplied by
  abbrev adjustment : NormalizedProperty D → Option Date → String → ValuationCandidate D → D
  adjustment record' as_of kind candidate =
      if kind == "avm"
      then (one_decimal
          ⊗ default_to candidate.value.confidence candidate.reported_confidence
          ⊗ recency_decay candidate.as_of as_of)
      else if contains "comp" kind
      then one_decimal ⊗ comp_quality record' as_of
      else one_decimal

  -- a candidate with its kind, its value and its weight, if none of the tests passes it over
  unfoldable pub counted : String → D → D → D → Option (String × D × D)
  counted kind value base weight =
      if le value zero_decimal || le base zero_decimal || not (lt zero_decimal weight)
      then none
      else some (kind, value, weight)

  unfoldable pub weighted :
      NormalizedProperty D
      → AssumptionSet D
      → Option Date
      → ValuationCandidate D
      → Option (String × D × D)
  weighted record' assumptions as_of candidate = elim candidate.value.value [
    | none ↦ none
    | some value ↦
        (let kind = casefold (strip candidate.valuation_type) in
          let base =
            get_or kind assumptions.valuation_weights (get_or kind spec_type_weight one_decimal) in
          counted kind value base (quantize 6 (base ⊗ adjustment record' as_of kind candidate)))
  ]

  -- `_candidate_weights`
  unfoldable pub candidate_weights :
      NormalizedProperty D → AssumptionSet D → Option Date → List (String × D × D)
  candidate_weights record' assumptions as_of =
      collect (weighted record' assumptions as_of) record'.valuation_candidates
