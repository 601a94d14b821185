-- ===== src/Strategies/Rental.antt =====
-- `rental` and `_annual_debt_service` of strategies/engine.py.
use house_analysis_ai.Prelude.{
  ◌||◌, Option, none, some, List, [], ◌∷◌, Dict, lookup, if◌then◌else◌, any, is_some, Result, ok,
  value_error, arithmetic_error, ◌>>◌, ◌>>=◌, raise_if,
}
use house_analysis_ai.Prelude.Int.{ℤ, pos, ◌-ℤ◌, ◌*ℤ◌, leb_ℤ}
use house_analysis_ai.Python.{Python, ◌⊕◌, ◌⊖◌, ◌⊗◌, ◌⊘◌, zero_decimal, one_decimal, lt, same, sum}
use house_analysis_ai.Contracts.{
  Scenario, StrategyType, NormalizedProperty, CostBlock, UnderwritingResult, StrategyResult,
  AssumptionSet,
}
use house_analysis_ai.Finance.{value_of, get_or}
use house_analysis_ai.Strategies.Balance.{tracked_or_zero}
use house_analysis_ai.Strategies.Costs.{
  v_as_is, costs_at, is_below_zero, outside_unit, outside_closed_unit, acquisition_cost, echo,
  unavailable_result, viable_if, ratio,
}

-- The cash flow of a purchase with its coverage of the debt and what it invests.
pub record Leverage (D : Type 0) : Type 0 where
  pub cash_flow : D
  pub dscr : Option D
  pub invested : D

module _ {D : Type 0} ⦃py : Python D⦄ where
  open py use {dec, of_int, to_int, power, quantize, le}

  -- `ONE - (ONE + monthly_rate) ** -payments`
  unfoldable pub discount_of : D → ℤ → D
  discount_of monthly_rate amort_years =
      one_decimal ⊖ power (one_decimal ⊕ monthly_rate) (of_int (pos 0 -ℤ amort_years *ℤ pos 12))

  -- the yearly payment of a loan that bears interest, by a division that raises where the discount
  -- is zero
  unfoldable pub yearly_payment : D → D → ℤ → Result D
  yearly_payment loan monthly_rate amort_years =
      let discount = discount_of monthly_rate amort_years in
      raise_if (same discount zero_decimal) arithmetic_error
      >> ok (quantize 2 (loan ⊗ monthly_rate ⊘ discount ⊗ dec 12 0))

  -- `_annual_debt_service`
  unfoldable pub annual_debt_service : D → D → ℤ → Result D
  annual_debt_service loan annual_rate amort_years =
      let monthly_rate = annual_rate ⊘ dec 12 0 in
      if le loan zero_decimal then ok zero_decimal else (do
        raise_if (is_below_zero annual_rate || leb_ℤ amort_years (pos 0))
            (value_error "rental rate must be nonnegative and amortization term must be positive")
        (if same monthly_rate zero_decimal
            then ok (quantize 2 (loan ⊘ of_int amort_years))
            else yearly_payment loan monthly_rate amort_years))

  -- `int(config.get("amort_years", 30))`
  abbrev pub amort_years_of : Dict D → ℤ
  amort_years_of config = elim (lookup "amort_years" config) [
    | none ↦ pos 30
    | some years ↦ to_int years
  ]

  -- a purchase with a loan, or none where the terms of the loan are invalid
  unfoldable pub leveraged : D → D → CostBlock D → D → ℤ → D → D → Result (Option (Leverage D))
  leveraged price acquisition cost noi amort_years ltv rate =
      let loan = quantize 2 (price ⊗ ltv) in
      if outside_closed_unit ltv || is_below_zero rate || leb_ℤ amort_years (pos 0)
      then ok none
      else (do
        debt_service ← annual_debt_service loan rate amort_years
        ok (
            some (record {
              cash_flow = quantize 2 (noi ⊖ debt_service);
              dscr =
                  if lt zero_decimal debt_service
                  then some (quantize 6 (noi ⊘ debt_service))
                  else none;
              invested = price ⊖ loan ⊕ acquisition ⊕ cost.repairs;
            })))

  -- the purchase with the loan of the configuration, if it has one
  unfoldable pub leverage_of : Dict D → D → D → CostBlock D → D → Result (Option (Leverage D))
  leverage_of config price acquisition cost noi =
      let unleveraged : Result (Option (Leverage D)) = ok (
        some (record {
          cash_flow = noi;
          dscr = none;
          invested = price ⊕ acquisition ⊕ cost.repairs;
        })) in
      elim (lookup "ltv" config) [
        | none ↦ unleveraged
        | some ltv ↦ elim (lookup "rate" config) [
          | none ↦ unleveraged
          | some rate ↦ leveraged price acquisition cost noi (amort_years_of config) ltv rate
        ]
      ]

  -- the effective gross income of a year
  unfoldable pub gross_income : D → D → D
  gross_income rent vacancy = quantize 2 (rent ⊗ dec 12 0 ⊗ (one_decimal ⊖ vacancy))

  -- the operating expenses of a year
  unfoldable pub operating_expenses : NormalizedProperty D → AssumptionSet D → D → D → D → D → D
  operating_expenses record' a value owner_utilities egi rates = quantize 2 (
      tracked_or_zero record'.taxes.annual_taxes
      ⊕ value ⊗ a.holding.insurance_pct_yr
      ⊕ tracked_or_zero record'.hoa.monthly_dues ⊗ dec 12 0
      ⊕ owner_utilities ⊗ dec 12 0
      ⊕ egi ⊗ rates)

  abbrev pub rental_result : D → D → D → D → Leverage D → Scenario → StrategyResult D
  rental_result price egi opex noi leverage scenario = record {
    strategy = StrategyType.rental;
    scenario = scenario;
    status = viable_if (le zero_decimal leverage.cash_flow);
    unavailable_reason = none;
    mao = none;
    all_in_basis = none;
    profit = some leverage.cash_flow;
    roi = none;
    margin_of_safety = none;
    metrics =
        ("egi", some egi)
        ∷ ("opex", some opex)
        ∷ ("noi", some noi)
        ∷ ("cap_rate", ratio noi price)
        ∷ ("cash_flow", some leverage.cash_flow)
        ∷ ("coc", ratio leverage.cash_flow leverage.invested)
        ∷ ("dscr", leverage.dscr)
        ∷ [];
    inputs_echo = echo price;
    notices = [];
  }

  abbrev pub operating_rates : Dict D → List D
  operating_rates config =
      get_or "maintenance_pct" config (dec 8 2)
      ∷ get_or "management_pct" config (dec 8 2)
      ∷ get_or "reserves_pct" config (dec 5 2)
      ∷ []

  -- the result, or the lack of one where the loan is invalid
  unfoldable pub rental_or_invalid :
      D → D → D → D → Option (Leverage D) → Scenario → StrategyResult D
  rental_or_invalid price egi opex noi none scenario =
      unavailable_result StrategyType.rental scenario "invalid_rental_financing_assumptions" price
  rental_or_invalid price egi opex noi (some leverage) scenario =
      rental_result price egi opex noi leverage scenario

  -- `rental` at its rent, its value and its costs
  unfoldable pub rental_at :
      NormalizedProperty D
      → AssumptionSet D
      → D
      → Scenario
      → D
      → D
      → CostBlock D
      → Result (StrategyResult D)
  rental_at record' a price scenario rent value cost = do
    let config = a.strategy.rental
    let vacancy = get_or "vacancy" config (dec 6 2)
    let owner_utilities = get_or "owner_utilities_monthly" config zero_decimal
    raise_if
        (outside_unit vacancy
          || any is_below_zero (operating_rates config)
          || le one_decimal (sum (operating_rates config)))
        (value_error "rental vacancy and operating percentages are invalid")
    raise_if (is_below_zero owner_utilities)
        (value_error "owner-paid utilities must be nonnegative")
    let egi = gross_income rent vacancy
    let opex = operating_expenses record' a value owner_utilities egi (sum (operating_rates config))
    let noi = quantize 2 (egi ⊖ opex)
    acquisition ← acquisition_cost price a
    leverage ← leverage_of config price acquisition cost noi
    ok (rental_or_invalid price egi opex noi leverage scenario)

  -- `rental`
  unfoldable pub rental :
      NormalizedProperty D
      → UnderwritingResult D
      → AssumptionSet D
      → D
      → Scenario
      → Result (StrategyResult D)
  rental record' underwriting a price scenario =
      let no_value = ok (unavailable_result StrategyType.rental scenario "no_value_data" price) in
      elim (value_of record'.rental.rent_estimate) [
        | none ↦ ok (unavailable_result StrategyType.rental scenario "no_rent_data" price)
        | some rent ↦
            (if le price zero_decimal
              then ok
                  (unavailable_result StrategyType.rental scenario "invalid_purchase_price" price)
              else elim (v_as_is underwriting scenario) [
                | none ↦ no_value
                | some value ↦ elim (costs_at underwriting scenario) [
                  | none ↦ no_value
                  | some cost ↦
                      (if is_some (value_of record'.attributes.sqft)
                        then rental_at record' a price scenario rent value cost
                        else ok
                            (unavailable_result StrategyType.rental scenario "no_sqft_data" price))
                ]
              ])
      ]
