-- ===== src/Finance/Underwrite.antt =====
-- `underwrite` of finance/engine.py: the blocks of the three scenarios, put together.
use house_analysis_ai.Prelude.{
  Option, none, some, List, [], ◌∷◌, String, map, if◌then◌else◌, Result, ok, ◌>>◌, Bool,
}
use house_analysis_ai.Python.{Python, ◌⊕◌, zero_decimal, nonzero, sum}
use house_analysis_ai.Contracts.{
  Date, Scenario, UnderwritingStatus, NormalizedProperty, ValueBlock, LiabilityBlock,
  UnderwritingResult, AssumptionSet, EquityBlock,
}
use house_analysis_ai.Finance.Money.{money, default_to}
use house_analysis_ai.Finance.Validation.{validate_assumptions}
use house_analysis_ai.Finance.Valuation.{candidate_weights, comp_range}
use house_analysis_ai.Finance.Debt.{reference_of}
use house_analysis_ai.Finance.Liabilities.{liabilities}
use house_analysis_ai.Finance.Engine.{
  repairs_base, holding_months_base, has_debt_data, weight_of, expected_value, dispersion_of,
  low_value, high_value, confidence_of, scenario_repairs, resale_pct, holding_cost, cost_block,
  scenario_potential, equity_block,
}

module _ {D : Type 0} ⦃py : Python D⦄ where
  abbrev no_value : ValueBlock D
  no_value = record {
    v_low = none;
    v_expected = none;
    v_high = none;
    dispersion = none;
    arv_by_scenario = [];
    valuation_confidence = none;
  }

  -- the result without a valuation
  unfoldable pub insufficient :
      NormalizedProperty D → AssumptionSet D → LiabilityBlock D → Bool → UnderwritingResult D
  insufficient record' assumptions block debt = record {
    property_id = record'.property_id;
    assumption_set_id = assumptions.id;
    engine_version = "finance-3";
    status = UnderwritingStatus.insufficient_data;
    unavailable_reason = some "no_valuation_candidates";
    value = no_value;
    liabilities = block;
    equity = [];
    costs = [];
    holding_months_base = none;
    debt_data_present = debt;
    confidence = zero_decimal;
  }

  -- the value after repairs, where these can be computed
  unfoldable pub arv_of : NormalizedProperty D → AssumptionSet D → Scenario → D → Option D
  arv_of record' assumptions scenario value =
      elim (scenario_repairs assumptions (repairs_base record' assumptions) scenario) [
        | none ↦ none
        | some repairs ↦ some (money (value ⊕ repairs))
      ]

  -- the values of the scenarios, in the order of the loop over them
  unfoldable pub value_block :
      NormalizedProperty D → AssumptionSet D → List (String × D × D) → ValueBlock D
  value_block record' assumptions candidates =
      let v_exp = expected_value candidates in
      let dispersion = dispersion_of candidates v_exp in
      let (comp_low, comp_high) = comp_range record' in
      let v_low = low_value v_exp dispersion comp_low in
      let v_high = high_value v_exp dispersion comp_high in
      record {
        v_low = some v_low;
        v_expected = some v_exp;
        v_high = some v_high;
        dispersion = some dispersion;
        arv_by_scenario =
            (Scenario.conservative, arv_of record' assumptions Scenario.conservative v_low)
            ∷ (Scenario.expected, arv_of record' assumptions Scenario.expected v_exp)
            ∷ (Scenario.optimistic, arv_of record' assumptions Scenario.optimistic v_high)
            ∷ [];
        valuation_confidence = some (confidence_of record' candidates);
      }

  -- the equity of a scenario at its value
  unfoldable pub scenario_equity :
      NormalizedProperty D → AssumptionSet D → LiabilityBlock D × D → Scenario → D → EquityBlock D
  scenario_equity record' assumptions (block, weighted) scenario value =
      equity_block value (default_to zero_decimal block.confirmed)
        (scenario_potential block weighted scenario) (resale_pct assumptions)
        (holding_cost record' assumptions scenario value)

  abbrev scenario_values : ValueBlock D → List (Scenario × D)
  scenario_values v =
      (Scenario.conservative, default_to zero_decimal v.v_low)
      ∷ (Scenario.expected, default_to zero_decimal v.v_expected)
      ∷ (Scenario.optimistic, default_to zero_decimal v.v_high)
      ∷ []

  -- the result with a valuation
  unfoldable pub sufficient :
      NormalizedProperty D
      → AssumptionSet D
      → LiabilityBlock D × D
      → Bool
      → List (String × D × D)
      → UnderwritingResult D
  sufficient record' assumptions owed debt candidates =
      let value = value_block record' assumptions candidates in
      record {
        property_id = record'.property_id;
        assumption_set_id = assumptions.id;
        engine_version = "finance-3";
        status = UnderwritingStatus.ok;
        unavailable_reason = none;
        value = value;
        liabilities = owed.0;
        equity =
            map (λ (s, v). (s, scenario_equity record' assumptions owed s v))
              (scenario_values value);
        costs = map (λ (s, v). (s, cost_block record' assumptions s v)) (scenario_values value);
        holding_months_base = some (holding_months_base record' assumptions);
        debt_data_present = debt;
        confidence = confidence_of record' candidates;
      }

  -- the result for the candidates found. The weights add up to more than zero where there is one:
  -- the test of their sum stands as in the code.
  unfoldable pub underwrite_from :
      NormalizedProperty D
      → AssumptionSet D
      → LiabilityBlock D × D
      → Bool
      → List (String × D × D)
      → UnderwritingResult D
  underwrite_from record' assumptions owed debt [] = insufficient record' assumptions owed.0 debt
  underwrite_from record' assumptions owed debt (c ∷ cs) =
      if nonzero (sum (map weight_of (c ∷ cs)))
      then sufficient record' assumptions owed debt (c ∷ cs)
      else insufficient record' assumptions owed.0 debt

  -- `_underwrite`
  unfoldable pub underwrite_valid :
      NormalizedProperty D → AssumptionSet D → Option Date → UnderwritingResult D
  underwrite_valid record' assumptions as_of =
      let ref = reference_of record' as_of in
      underwrite_from record' assumptions (liabilities record' assumptions ref)
        (has_debt_data record' assumptions ref) (candidate_weights record' assumptions ref)

  unfoldable pub underwrite :
      NormalizedProperty D → AssumptionSet D → Option Date → Result (UnderwritingResult D)
  underwrite record' assumptions as_of = do
    validate_assumptions assumptions
    ok (underwrite_valid record' assumptions as_of)
