-- ===== src/Strategies/Costs.antt =====
-- The costs that the strategies of strategies/engine.py share: percentages with their checks, the
-- maximum offers, and the results without numbers.
use house_analysis_ai.Prelude.{
  Bool, not, ◌&&◌, ◌||◌, Option, none, some, List, [], ◌∷◌, String, Dict, assoc, if◌then◌else◌, any,
  Result, ok, value_error, ◌>>◌, ◌>>=◌, raise_if,
}
use house_analysis_ai.Python.{
  Python, ◌⊕◌, ◌⊖◌, ◌⊗◌, ◌⊘◌, zero_decimal, one_decimal, lt, nonzero, sum,
}
use house_analysis_ai.Contracts.{
  Scenario, scenario_eq, StrategyType, StrategyStatus, NormalizedProperty, CostBlock,
  UnderwritingResult, StrategyResult, AssumptionSet,
}
use house_analysis_ai.Finance.{transfer_tax_rate, get_or, condition_of}

-- `"viable" if b else "not_viable"`
abbrev pub viable_if : Bool → StrategyStatus
viable_if b = if b then StrategyStatus.viable else StrategyStatus.not_viable

module _ {D : Type 0} ⦃py : Python D⦄ where
  open py use {dec, of_int, quantize, le}

  -- `SCENARIO_ORDER`
  abbrev pub holding_mult : Scenario → D
  holding_mult Scenario.conservative = dec 15 1
  holding_mult Scenario.expected = one_decimal
  holding_mult Scenario.optimistic = dec 75 2

  -- `_round_5000`
  unfoldable pub round_5000 : D → D
  round_5000 value = quantize 0 (value ⊘ dec 5000 0) ⊗ dec 5000 0

  -- `_v_as_is`
  abbrev pub v_as_is : UnderwritingResult D → Scenario → Option D
  v_as_is underwriting Scenario.conservative = underwriting.value.v_low
  v_as_is underwriting Scenario.expected = underwriting.value.v_expected
  v_as_is underwriting Scenario.optimistic = underwriting.value.v_high

  -- `underwriting.value.arv_by_scenario.get(scenario)`
  abbrev pub arv_at : UnderwritingResult D → Scenario → Option D
  arv_at underwriting scenario = elim (assoc scenario underwriting.value.arv_by_scenario) [
    | none ↦ none
    | some arv ↦ arv
  ]

  -- `_costs`
  abbrev pub costs_at : UnderwritingResult D → Scenario → Option (CostBlock D)
  costs_at underwriting scenario = assoc scenario underwriting.costs

  -- `CostBlock()`
  abbrev pub no_costs : CostBlock D
  no_costs = record {
    acquisition = zero_decimal;
    repairs = zero_decimal;
    holding = zero_decimal;
    resale = zero_decimal;
    financing = zero_decimal;
  }

  abbrev pub is_below_zero : D → Bool
  is_below_zero value = lt value zero_decimal

  -- the sum of percentages that are not negative and stay below one
  unfoldable pub checked_total : List D → String → Result D
  checked_total values message = do
    raise_if (any is_below_zero values || le one_decimal (sum values)) (value_error message)
    ok (sum values)

  abbrev pub resale_pcts : AssumptionSet D → List D
  resale_pcts a =
      a.resale.commission_pct ∷ a.resale.seller_closing_pct ∷ a.resale.concessions_pct
      ∷ a.resale.misc_pct ∷ []

  -- `_resale_pct`
  unfoldable pub checked_resale_pct : AssumptionSet D → Result D
  checked_resale_pct a =
      checked_total (resale_pcts a)
        "resale percentages must be nonnegative and total less than 100%"

  abbrev pub acquisition_pcts : AssumptionSet D → List D
  acquisition_pcts a =
      a.acquisition.closing_pct
      ∷ a.acquisition.title_pct
      ∷ a.acquisition.acq_fee_pct
      ∷ transfer_tax_rate a.acquisition.transfer_tax_lookup_key
      ∷ []

  -- `_acquisition_pct`
  unfoldable pub checked_acquisition_pct : AssumptionSet D → Result D
  checked_acquisition_pct a =
      checked_total (acquisition_pcts a)
        "acquisition percentages must be nonnegative and total less than 100%"

  abbrev pub flat_costs : AssumptionSet D → List D
  flat_costs a =
      a.acquisition.escrow_flat ∷ a.acquisition.inspection_flat ∷ a.acquisition.legal_flat ∷ []

  -- `_acquisition_flat`
  unfoldable pub checked_acquisition_flat : AssumptionSet D → Result D
  checked_acquisition_flat a = do
    raise_if (any is_below_zero (flat_costs a))
        (value_error "flat acquisition costs must be nonnegative")
    ok (sum (flat_costs a))

  -- `_acquisition_cost`
  unfoldable pub acquisition_cost : D → AssumptionSet D → Result D
  acquisition_cost price a = do
    pct ← checked_acquisition_pct a
    flat ← checked_acquisition_flat a
    ok (quantize 2 (price ⊗ pct ⊕ flat))

  -- `not ZERO <= x < ONE`
  abbrev pub outside_unit : D → Bool
  outside_unit x = not (le zero_decimal x && lt x one_decimal)

  -- `not ZERO <= x <= ONE`
  abbrev pub outside_closed_unit : D → Bool
  outside_closed_unit x = not (le zero_decimal x && le x one_decimal)

  -- `_cash_mao`
  unfoldable pub cash_mao : D → CostBlock D → AssumptionSet D → Result D
  cash_mao value cost a = do
    raise_if (outside_unit a.strategy.cash_target_margin)
        (value_error "cash target margin must be between zero and one")
    flat ← checked_acquisition_flat a
    pct ← checked_acquisition_pct a
    let available =
        value ⊗ (one_decimal ⊖ a.strategy.cash_target_margin)
        ⊖ cost.repairs
        ⊖ cost.holding
        ⊖ cost.resale
        ⊖ flat
    ok (quantize 2 (available ⊘ (one_decimal ⊕ pct)))

  -- `_echo`
  abbrev pub echo : D → Dict D
  echo price = if nonzero price then ("purchase_price", price) ∷ [] else []

  -- `_unavailable`
  unfoldable pub unavailable_result : StrategyType → Scenario → String → D → StrategyResult D
  unavailable_result strategy scenario reason price = record {
    strategy = strategy;
    scenario = scenario;
    status = StrategyStatus.unavailable;
    unavailable_reason = some reason;
    mao = none;
    all_in_basis = none;
    profit = none;
    roi = none;
    margin_of_safety = none;
    metrics = [];
    inputs_echo = echo price;
    notices = [];
  }

  -- `_q(a / b, Q6) if b else None`
  abbrev pub ratio : D → D → Option D
  ratio a b = if nonzero b then some (quantize 6 (a ⊘ b)) else none

  -- `_months_base_from_condition`
  unfoldable pub months_base_from_condition : NormalizedProperty D → AssumptionSet D → D
  months_base_from_condition record' a =
      let months = a.holding.repair_months_by_condition in
      a.holding.acquisition_months
      ⊕ get_or (condition_of record') months (get_or "moderate" months (dec 3 0))
      ⊕ of_int a.holding.market_days_default ⊘ dec 30 0

  -- `_hard_money`: the rate, the points and the loan to value
  unfoldable pub hard_money_terms : AssumptionSet D → Result (D × D × D)
  hard_money_terms a = do
    let rate = get_or "rate" a.strategy.hard_money (dec 1 1)
    let points = get_or "points" a.strategy.hard_money (dec 2 2)
    let ltv = get_or "ltv" a.strategy.hard_money (dec 85 2)
    raise_if (is_below_zero rate || is_below_zero points || outside_closed_unit ltv)
        (value_error "hard-money rate/points must be nonnegative and LTV must be 0-1")
    ok (rate, points, ltv)

  -- `_flip_margin`
  unfoldable pub flip_margin : Dict D → D → Result D
  flip_margin bands arv = do
    let default' = get_or "default" bands (dec 2 1)
    let margin =
        if le (dec 500_000 0) arv
        then get_or "over_500k" bands default'
        else get_or "under_500k" bands default'
    raise_if (outside_unit margin) (value_error "flip target margin must be between zero and one")
    ok margin

  -- `_flip_mao`
  unfoldable pub flip_mao : D → CostBlock D → D → D → AssumptionSet D → D → Result D
  flip_mao arv cost resale_flip margin_target a months = do
    (rate, points, ltv) ← hard_money_terms a
    flat ← checked_acquisition_flat a
    pct ← checked_acquisition_pct a
    let coeff = ltv ⊗ (points ⊕ rate ⊘ dec 12 0 ⊗ months)
    let k_const =
        arv ⊗ (one_decimal ⊖ margin_target)
        ⊖ cost.repairs
        ⊖ cost.holding
        ⊖ resale_flip
        ⊖ flat
        ⊖ a.acquisition.financing_flat
    ok (quantize 2 ((k_const ⊖ coeff ⊗ cost.repairs) ⊘ (one_decimal ⊕ coeff ⊕ pct)))

  -- `_resale_flip`
  unfoldable pub resale_flip_cost : D → AssumptionSet D → Result D
  resale_flip_cost arv a = do
    pct ← checked_resale_pct a
    ok (quantize 2 (arv ⊗ pct ⊕ a.resale.staging_flat))
