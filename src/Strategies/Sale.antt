-- ===== src/Strategies/Sale.antt =====
-- `cash`, `flip` and `wholesale` of strategies/engine.py. The optional trace recorder, which only
-- reads the values, is absent.
use house_analysis_ai.Prelude.{
  Bool, not, ◌&&◌, ◌||◌, Option, none, some, [], ◌∷◌, if◌then◌else◌, is_some, Result, ok,
  value_error, ◌>>◌, ◌>>=◌, raise_if,
}
use house_analysis_ai.Python.{Python, ◌⊕◌, ◌⊖◌, ◌⊗◌, ◌⊘◌, zero_decimal, one_decimal, hundred}
use house_analysis_ai.Contracts.{
  Scenario, StrategyType, NormalizedProperty, CostBlock, UnderwritingResult, StrategyResult,
  AssumptionSet,
}
use house_analysis_ai.Finance.{value_of}
use house_analysis_ai.Strategies.Balance.{decimal_or_zero}
use house_analysis_ai.Strategies.Costs.{
  holding_mult, v_as_is, arv_at, costs_at, is_below_zero, checked_resale_pct,
  checked_acquisition_pct, checked_acquisition_flat, acquisition_cost, outside_closed_unit,
  cash_mao, echo, unavailable_result, viable_if, ratio, hard_money_terms, flip_margin, flip_mao,
  resale_flip_cost, months_base_from_condition,
}

-- what a flip with its loan costs and earns
pub record FlipBasis (D : Type 0) : Type 0 where
  pub loan : D
  pub financing : D
  pub all_in : D
  pub profit : D
  pub coc_denominator : D

module _ {D : Type 0} ⦃py : Python D⦄ where
  open py use {dec, quantize, le}

  -- the all-in basis of a cash purchase
  unfoldable pub cash_all_in : CostBlock D → D → D → D → D
  cash_all_in cost pct flat price =
      quantize 2 (price ⊕ quantize 2 (price ⊗ pct ⊕ flat) ⊕ cost.repairs ⊕ cost.holding)

  -- the profit of a cash purchase
  unfoldable pub cash_profit : D → D → D → D
  cash_profit value resale_pct all_in = quantize 2 (value ⊗ (one_decimal ⊖ resale_pct) ⊖ all_in)

  abbrev pub cash_result : D → D → D → D → D → Scenario → StrategyResult D
  cash_result value price all_in profit mao scenario = record {
    strategy = StrategyType.cash;
    scenario = scenario;
    status = viable_if (le zero_decimal profit);
    unavailable_reason = none;
    mao = some mao;
    all_in_basis = some all_in;
    profit = some profit;
    roi = ratio profit all_in;
    margin_of_safety = ratio (value ⊖ all_in) value;
    metrics = [];
    inputs_echo = echo price;
    notices = [];
  }

  -- `cash` at its value and its costs
  unfoldable pub cash_at :
      AssumptionSet D → D → Scenario → D → CostBlock D → Result (StrategyResult D)
  cash_at a price scenario value cost = do
    pct ← checked_acquisition_pct a
    flat ← checked_acquisition_flat a
    resale ← checked_resale_pct a
    mao ← cash_mao value cost a
    let all_in = cash_all_in cost pct flat price
    ok (cash_result value price all_in (cash_profit value resale all_in) mao scenario)

  -- `cash` for the value and the costs that it finds
  unfoldable pub cash_from :
      AssumptionSet D → D → Scenario → Option D → Option (CostBlock D) → Result (StrategyResult D)
  cash_from a price scenario (some value) (some cost) =
      if le price zero_decimal
      then ok (unavailable_result StrategyType.cash scenario "invalid_purchase_price" price)
      else cash_at a price scenario value cost
  cash_from a price scenario _ _ =
      ok (unavailable_result StrategyType.cash scenario "no_value_data" price)

  -- `cash`, which does not read the record
  unfoldable pub cash :
      UnderwritingResult D → AssumptionSet D → D → Scenario → Result (StrategyResult D)
  cash underwriting a price scenario =
      cash_from a price scenario (v_as_is underwriting scenario) (costs_at underwriting scenario)

  -- `loan` of `flip`
  unfoldable pub flip_loan : D → D → CostBlock D → D
  flip_loan ltv price cost = quantize 2 (ltv ⊗ (price ⊕ cost.repairs))

  -- `financing` of `flip`
  unfoldable pub flip_financing : AssumptionSet D → D → D → D → D → D
  flip_financing a rate points loan months =
      quantize 2 (points ⊗ loan ⊕ a.acquisition.financing_flat ⊕ loan ⊗ rate ⊘ dec 12 0 ⊗ months)

  abbrev pub flip_basis :
      AssumptionSet D → D → CostBlock D → D → D × D × D → D → D → D → FlipBasis D
  flip_basis a price cost arv (rate, points, ltv) months resale_flip acquisition =
      let loan = flip_loan ltv price cost in
      let financing = flip_financing a rate points loan months in
      let all_in =
        quantize 2 (price ⊕ cost.repairs ⊕ cost.holding ⊕ financing ⊕ acquisition ⊕ resale_flip) in
      record {
        loan = loan;
        financing = financing;
        all_in = all_in;
        profit = quantize 2 (arv ⊖ all_in);
        coc_denominator = quantize 2 (price ⊕ cost.repairs ⊖ loan) ⊕ cost.holding ⊕ acquisition;
      }

  abbrev pub flip_result : D → D → FlipBasis D → D → Scenario → StrategyResult D
  flip_result arv price basis mao scenario = record {
    strategy = StrategyType.flip;
    scenario = scenario;
    status = viable_if (le zero_decimal basis.profit);
    unavailable_reason = none;
    mao = some mao;
    all_in_basis = some basis.all_in;
    profit = some basis.profit;
    roi = ratio basis.profit basis.all_in;
    margin_of_safety = ratio (arv ⊖ basis.all_in) arv;
    metrics =
        ("coc", ratio basis.profit basis.coc_denominator)
        ∷ ("margin", ratio basis.profit arv)
        ∷ ("financing", some basis.financing)
        ∷ ("loan", some basis.loan)
        ∷ [];
    inputs_echo = echo price;
    notices = [];
  }

  -- `flip` at its value after repairs and its costs
  unfoldable pub flip_at :
      NormalizedProperty D
      → AssumptionSet D
      → D
      → Scenario
      → D
      → CostBlock D
      → Result (StrategyResult D)
  flip_at record' a price scenario arv cost = do
    let months = quantize 4 (months_base_from_condition record' a ⊗ holding_mult scenario)
    terms ← hard_money_terms a
    resale_flip ← resale_flip_cost arv a
    acquisition ← acquisition_cost price a
    margin_target ← flip_margin a.strategy.flip_target_margin_by_arv_band arv
    mao ← flip_mao arv cost resale_flip margin_target a months
    ok (
        flip_result arv price (flip_basis a price cost arv terms months resale_flip acquisition) mao
          scenario)

  -- `flip`
  unfoldable pub flip :
      NormalizedProperty D
      → UnderwritingResult D
      → AssumptionSet D
      → D
      → Scenario
      → Result (StrategyResult D)
  flip record' underwriting a price scenario =
      let no_value = ok (unavailable_result StrategyType.flip scenario "no_value_data" price) in
      let no_sqft = ok (unavailable_result StrategyType.flip scenario "no_sqft_data" price) in
      elim (costs_at underwriting scenario) [
        | none ↦ no_value
        | some cost ↦
            (if not (is_some (v_as_is underwriting scenario))
              then no_value
              else if le price zero_decimal
              then ok (unavailable_result StrategyType.flip scenario "invalid_purchase_price" price)
              else elim (arv_at underwriting scenario) [
                | none ↦ no_sqft
                | some arv ↦
                    (if is_some (value_of record'.attributes.sqft)
                      then flip_at record' a price scenario arv cost
                      else no_sqft)
              ])
      ]

  -- `underwriting.confidence` as a data confidence of 0 to 100, where none is given
  abbrev pub dcs_or : UnderwritingResult D → Option D → D
  dcs_or underwriting none = quantize 4 (decimal_or_zero (some underwriting.confidence) ⊗ hundred)
  dcs_or underwriting (some dcs) = dcs

  abbrev pub wholesale_result : D → D → D → D → Bool → D → Scenario → StrategyResult D
  wholesale_result price threshold max_contract spread viable dcs scenario = record {
    strategy = StrategyType.wholesale;
    scenario = scenario;
    status = viable_if viable;
    unavailable_reason = none;
    mao = some max_contract;
    all_in_basis = none;
    profit = some spread;
    roi = none;
    margin_of_safety = none;
    metrics =
        ("investor_threshold", some threshold) ∷ ("spread", some spread) ∷ ("dcs", some dcs) ∷ [];
    inputs_echo = echo price;
    notices = [];
  }

  -- `wholesale` at its value after repairs and its costs
  unfoldable pub wholesale_at :
      AssumptionSet D → D → Scenario → D → D → D → CostBlock D → Result (StrategyResult D)
  wholesale_at a price scenario dcs wholesale_min arv cost = do
    raise_if
        (outside_closed_unit a.strategy.wholesale_investor_pct
          || is_below_zero a.strategy.min_assignment_spread)
        (value_error "wholesale percentage/spread assumptions are invalid")
    let threshold = quantize 2 (arv ⊗ a.strategy.wholesale_investor_pct ⊖ cost.repairs)
    let spread = quantize 2 (threshold ⊖ price)
    ok (
        wholesale_result price threshold (quantize 2 (threshold ⊖ a.strategy.min_assignment_spread))
          spread (le a.strategy.min_assignment_spread spread && le wholesale_min dcs) dcs scenario)

  -- `wholesale` for the value after repairs and the costs that it finds
  unfoldable pub wholesale_from :
      AssumptionSet D
      → D
      → Scenario
      → D
      → D
      → Bool
      → Option D
      → Option (CostBlock D)
      → Result (StrategyResult D)
  wholesale_from a price scenario dcs wholesale_min has_value (some arv) (some cost) =
      if le price zero_decimal
      then ok (unavailable_result StrategyType.wholesale scenario "invalid_purchase_price" price)
      else wholesale_at a price scenario dcs wholesale_min arv cost
  wholesale_from a price scenario dcs wholesale_min has_value _ _ = ok (
      unavailable_result StrategyType.wholesale scenario
        (if has_value then "no_sqft_data" else "no_value_data") price)

  -- `wholesale`
  unfoldable pub wholesale :
      UnderwritingResult D
      → AssumptionSet D
      → D
      → Scenario
      → Option D
      → D
      → Result (StrategyResult D)
  wholesale underwriting a price scenario data_confidence wholesale_min =
      wholesale_from a price scenario (dcs_or underwriting data_confidence) wholesale_min
        (is_some (v_as_is underwriting scenario)) (arv_at underwriting scenario)
        (costs_at underwriting scenario)
