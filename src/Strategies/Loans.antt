-- ===== src/Strategies/Loans.antt =====
-- When `rental` of strategies/engine.py raises, its loan included.
use house_analysis_ai.Prelude.{
  Bool, true, false, not, ◌&&◌, ◌||◌, none, some, any, lookup, ◌≡◌, refl, ap, ◌∙◌, is_some, is_ok,
  is_ok-bind, is_ok-raise_if, is_ok-last, is_ok-guard, is_ok-else, is_ok-then, is_ok-some,
  is_ok-elim, arith, Dict,
}
use house_analysis_ai.Prelude.Int.{ℤ, pos, leb_ℤ}
use house_analysis_ai.Python.{Python, ◌⊗◌, ◌⊘◌, zero_decimal, one_decimal, same, sum}
use house_analysis_ai.Contracts.{
  Scenario, NormalizedProperty, CostBlock, UnderwritingResult, AssumptionSet,
}
use house_analysis_ai.Finance.{value_of, get_or}
use house_analysis_ai.Strategies.{
  v_as_is, costs_at, is_below_zero, outside_unit, outside_closed_unit, acquisition_cost,
  discount_of, yearly_payment, annual_debt_service, amort_years_of, leveraged, leverage_of,
  operating_rates, rental_at, rental,
}
use house_analysis_ai.Strategies.Errors.{can_acquire, acquisition_cost-returns}

and_assoc : (a b c : Bool) → (a && (b && c)) ≡ (a && b && c)
and_assoc true b c = refl
and_assoc false b c = refl

module _ {D : Type 0} ⦃py : Python D⦄ where
  open py use {dec, le, quantize}

  -- A loan has a yearly payment: it is none, it bears no interest, or its discount is not zero.
  abbrev pub has_payment : D → D → ℤ → Bool
  has_payment loan rate years =
      le loan zero_decimal
      || (same (rate ⊘ dec 12 0) zero_decimal
          || not (same (discount_of (rate ⊘ dec 12 0) years) zero_decimal))

  -- The terms with which `rental` reports the financing as invalid.
  abbrev pub invalid_terms : D → D → ℤ → Bool
  invalid_terms ltv rate years =
      outside_closed_unit ltv || is_below_zero rate || leb_ℤ years (pos 0)

  -- The configurations whose loan, if there is one, can be served or is reported as invalid.
  abbrev pub can_finance : Dict D → D → Bool
  can_finance config price = elim (lookup "ltv" config) [
    | none ↦ true
    | some ltv ↦ elim (lookup "rate" config) [
      | none ↦ true
      | some rate ↦
          invalid_terms ltv rate (amort_years_of config)
          || has_payment (quantize 2 (price ⊗ ltv)) rate (amort_years_of config)
    ]
  ]

  -- The assumptions with which the income and the purchase of a rental can be computed.
  abbrev pub can_operate : AssumptionSet D → Bool
  can_operate a =
      not (
        outside_unit (get_or "vacancy" a.strategy.rental (dec 6 2))
        || any is_below_zero (operating_rates a.strategy.rental)
        || le one_decimal (sum (operating_rates a.strategy.rental)))
      && not (is_below_zero (get_or "owner_utilities_monthly" a.strategy.rental zero_decimal))

  debt_service-returns :
      (loan rate : D) (years : ℤ)
      → (is_below_zero rate || leb_ℤ years (pos 0)) ≡ false
      → is_ok (annual_debt_service loan rate years) ≡ has_payment loan rate years
  unfolding annual_debt_service yearly_payment
  debt_service-returns loan rate years h = is_ok-else (le loan zero_decimal) _ _ _ refl λ k.
      is_ok-raise_if (is_below_zero rate || leb_ℤ years (pos 0)) _ _ _ (
        is_ok-else (same (rate ⊘ dec 12 0) zero_decimal) _ _ _ refl
          λ l. is_ok-guard (same (discount_of (rate ⊘ dec 12 0) years) zero_decimal) _ _)
      ∙ ap
          (λ b.
            not b
            && (same (rate ⊘ dec 12 0) zero_decimal
                || not (same (discount_of (rate ⊘ dec 12 0) years) zero_decimal)))
          h

  leveraged-returns :
      (price acquisition : D) (cost : CostBlock D) (noi : D) (years : ℤ) (ltv rate : D)
      → is_ok (leveraged price acquisition cost noi years ltv rate)
        ≡ (invalid_terms ltv rate years || has_payment (quantize 2 (price ⊗ ltv)) rate years)
  unfolding leveraged
  leveraged-returns price acquisition cost noi years ltv rate =
      is_ok-else (invalid_terms ltv rate years) _ _ _ refl λ k.
        is_ok-last (annual_debt_service _ rate years) _
        ∙ debt_service-returns _ rate years (ground arith)

  leverage_of-returns :
      (config : Dict D) (price acquisition : D) (cost : CostBlock D) (noi : D)
      → is_ok (leverage_of config price acquisition cost noi) ≡ can_finance config price
  unfolding leverage_of
  leverage_of-returns config price acquisition cost noi =
      is_ok-elim (lookup "ltv" config) _ _ _ refl λ ltv.
        is_ok-elim (lookup "rate" config) _ _ _ refl
          λ rate. leveraged-returns price acquisition cost noi (amort_years_of config) ltv rate

  rental_at-returns :
      (r : NormalizedProperty D) (a : AssumptionSet D) (price : D) (scenario : Scenario)
      (rent value : D) (cost : CostBlock D)
      → is_ok (rental_at r a price scenario rent value cost)
        ≡ (can_operate a && (can_acquire a && can_finance a.strategy.rental price))
  unfolding rental_at
  rental_at-returns r a price scenario rent value cost =
      let finance = can_finance a.strategy.rental price in
      is_ok-raise_if _ _ _ _ (
        is_ok-raise_if _ _ _ _ (
          is_ok-bind (acquisition_cost price a) _ finance (λ acquisition.
            is_ok-last (leverage_of a.strategy.rental price acquisition cost _) _
            ∙ leverage_of-returns a.strategy.rental price acquisition cost _)
          ∙ ap (λ b. b && finance) (acquisition_cost-returns price a)))
      ∙ and_assoc _ _ (can_acquire a && finance)

  pub rental-returns :
      (r : NormalizedProperty D) (u : UnderwritingResult D) (a : AssumptionSet D) (price : D)
      (scenario : Scenario)
      → is_ok (rental r u a price scenario) ≡ (
          not (is_some (value_of r.rental.rent_estimate))
          || (le price zero_decimal
              || (not (is_some (v_as_is u scenario))
                  || (not (is_some (costs_at u scenario))
                      || (not (is_some (value_of r.attributes.sqft))
                          || (can_operate a
                              && (can_acquire a && can_finance a.strategy.rental price)))))))
  unfolding rental
  rental-returns r u a price scenario =
      is_ok-some (value_of r.rental.rent_estimate) _ _ _ refl λ rent.
        is_ok-else (le price zero_decimal) _ _ _ refl λ k.
          is_ok-some (v_as_is u scenario) _ _ _ refl λ value.
            is_ok-some (costs_at u scenario) _ _ _ refl λ cost.
              is_ok-then (is_some (value_of r.attributes.sqft)) _ _ _
                (rental_at-returns r a price scenario rent value cost) refl
