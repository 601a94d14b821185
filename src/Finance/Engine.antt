-- ===== src/Finance/Engine.antt =====
-- `underwrite` of finance/engine.py with `_repairs_base`, `_holding_months_base` and
-- `_has_debt_data`. The optional trace recorder, which only reads the values, is absent.
use house_analysis_ai.Prelude.{
  Bool, false, not, ◌&&◌, ◌||◌, Option, none, some, List, [], ◌∷◌, String, lookup, if◌then◌else◌,
  any, is_some, map,
}
use house_analysis_ai.Python.{
  Python, ◌⊕◌, ◌⊖◌, ◌⊗◌, ◌⊘◌, zero_decimal, one_decimal, lt, nonzero, max, min, sum,
}
use house_analysis_ai.Contracts.{
  Date, Scenario, Condition, NormalizedProperty, MortgageRecord, LienRecord, LiabilityBlock,
  EquityBlock, CostBlock, AssumptionSet,
}
use house_analysis_ai.Finance.Money.{money, money_or_zero, value_of, get_or, default_to, clamp}
use house_analysis_ai.Finance.Rates.{transfer_tax_rate}
use house_analysis_ai.Finance.Debt.{is_heloc, is_closed, mortgage_balance, published_bid}

-- the text of a condition
abbrev pub condition_text : Condition → String
condition_text Condition.pristine = "pristine"
condition_text Condition.cosmetic = "cosmetic"
condition_text Condition.moderate = "moderate"
condition_text Condition.heavy = "heavy"
condition_text Condition.gut = "gut"

module _ {D : Type 0} ⦃py : Python D⦄ where
  open py use {dec, of_int, power, quantize, le, root}

  abbrev pub condition_of : NormalizedProperty D → String
  condition_of record' = elim record'.condition [
    | none ↦ "moderate"
    | some c ↦ condition_text c.condition
  ]

  -- `_repairs_base`
  unfoldable pub repairs_base : NormalizedProperty D → AssumptionSet D → Option D
  repairs_base record' assumptions = elim (value_of record'.attributes.sqft) [
    | none ↦ none
    | some sqft ↦
        (let psf = assumptions.repairs.psf_by_condition in
          let rate : Option D = elim (lookup (condition_of record') psf) [
            | none ↦ lookup "moderate" psf
            | some r ↦ some r
          ] in
          elim rate [
            | none ↦ none
            | some r ↦ some (money (sqft ⊗ r ⊗ assumptions.repairs.regional_index))
          ])
  ]

  -- `_holding_months_base`
  unfoldable pub holding_months_base : NormalizedProperty D → AssumptionSet D → D
  holding_months_base record' assumptions =
      let months = assumptions.holding.repair_months_by_condition in
      assumptions.holding.acquisition_months
      ⊕ get_or (condition_of record') months (get_or "moderate" months (dec 3 0))
      ⊕ of_int assumptions.holding.market_days_default ⊘ dec 30 0

  abbrev has_balance : Option Date → MortgageRecord D → Bool
  has_balance as_of mortgage = mortgage.is_open && is_some (mortgage_balance mortgage as_of)

  abbrev has_limit : MortgageRecord D → Bool
  has_limit mortgage =
      mortgage.is_open && is_heloc mortgage && elim (value_of mortgage.original_amount) [
        | none ↦ false
        | some limit ↦ lt zero_decimal limit
      ]

  abbrev has_lien_amount : AssumptionSet D → LienRecord D → Bool
  has_lien_amount assumptions lien =
      not (is_closed lien)
      && (is_some (value_of lien.amount)
          || lt zero_decimal (get_or lien.lien_type assumptions.unknown_lien_medians zero_decimal))

  -- `_has_debt_data`
  unfoldable pub has_debt_data : NormalizedProperty D → AssumptionSet D → Option Date → Bool
  has_debt_data record' assumptions as_of =
      is_some (published_bid record')
      || any (has_balance as_of) record'.mortgages
      || any has_limit record'.mortgages
      || any (has_lien_amount assumptions) record'.liens

  abbrev pub value_times_weight : String × D × D → D
  value_times_weight (_, value, weight) = value ⊗ weight

  abbrev pub weight_of : String × D × D → D
  weight_of (_, _, weight) = weight

  abbrev squared_deviation : D → String × D × D → D
  squared_deviation v_exp (_, value, weight) = weight ⊗ power (value ⊖ v_exp) (dec 2 0)

  -- the weighted mean of the candidates
  unfoldable pub expected_value : List (String × D × D) → D
  expected_value candidates =
      money (sum (map value_times_weight candidates) ⊘ sum (map weight_of candidates))

  -- one candidate is no agreement: its dispersion is fixed
  unfoldable pub dispersion_of : List (String × D × D) → D → D
  dispersion_of [] v_exp = dec 15 2
  dispersion_of (x ∷ []) v_exp = dec 15 2
  dispersion_of (x ∷ y ∷ rest) v_exp =
      let candidates = x ∷ y ∷ rest in
      let variance =
        sum (map (squared_deviation v_exp) candidates) ⊘ sum (map weight_of candidates) in
      quantize 6
        (clamp (if nonzero v_exp then root variance ⊘ v_exp else dec 30 2) (dec 4 2) (dec 30 2))

  -- `v_low`, which a comparable range below the expectation lifts
  unfoldable pub low_value : D → D → Option D → D
  low_value v_exp dispersion comp_low =
      let raw = v_exp ⊗ (one_decimal ⊖ dispersion) in
      elim comp_low [
        | none ↦ money raw
        | some low ↦ money (if le low v_exp then max raw low else raw)
      ]

  -- `v_high`, which a comparable range above the expectation lowers
  unfoldable pub high_value : D → D → Option D → D
  high_value v_exp dispersion comp_high =
      let raw = v_exp ⊗ (one_decimal ⊕ dispersion) in
      elim comp_high [
        | none ↦ money raw
        | some high ↦ money (if le v_exp high then min raw high else raw)
      ]

  -- the cap where one candidate alone was found
  unfoldable pub confidence_of : NormalizedProperty D → List (String × D × D) → D
  confidence_of record' candidates =
      let confidence =
        clamp record'.data_quality.mean_extraction_confidence zero_decimal one_decimal in
      elim candidates [
        | [] ↦ confidence
        | _ ∷ rest ↦ elim rest [ [] ↦ min confidence (dec 5 1) | _ ∷ _ ↦ confidence ]
      ]

  -- the repairs of a scenario, where they can be computed
  unfoldable pub scenario_repairs : AssumptionSet D → Option D → Scenario → Option D
  scenario_repairs assumptions none scenario = none
  scenario_repairs assumptions (some base) Scenario.conservative =
      some (money (base ⊗ assumptions.repairs.high_multiplier))
  scenario_repairs assumptions (some base) Scenario.expected = some base
  scenario_repairs assumptions (some base) Scenario.optimistic =
      some (money (base ⊗ assumptions.repairs.low_multiplier))

  -- `HOLDING_PERIOD_FACTOR`
  abbrev holding_factor : Scenario → D
  holding_factor Scenario.conservative = dec 15 1
  holding_factor Scenario.expected = one_decimal
  holding_factor Scenario.optimistic = dec 75 2

  unfoldable pub resale_pct : AssumptionSet D → D
  resale_pct a =
      a.resale.commission_pct ⊕ a.resale.seller_closing_pct ⊕ a.resale.concessions_pct
      ⊕ a.resale.misc_pct

  unfoldable pub acq_pct : AssumptionSet D → D
  acq_pct a =
      a.acquisition.closing_pct
      ⊕ a.acquisition.title_pct
      ⊕ a.acquisition.acq_fee_pct
      ⊕ transfer_tax_rate a.acquisition.transfer_tax_lookup_key

  unfoldable pub acq_flat : AssumptionSet D → D
  acq_flat a = a.acquisition.escrow_flat ⊕ a.acquisition.inspection_flat ⊕ a.acquisition.legal_flat

  unfoldable pub holding_cost : NormalizedProperty D → AssumptionSet D → Scenario → D → D
  holding_cost record' a scenario value =
      let months = quantize 4 (holding_months_base record' a ⊗ holding_factor scenario) in
      let taxes_annual = default_to zero_decimal (value_of record'.taxes.annual_taxes) in
      let hoa_dues = default_to zero_decimal (value_of record'.hoa.monthly_dues) in
      let monthly = money_or_zero (
        taxes_annual ⊘ dec 12 0
        ⊕ value ⊗ (a.holding.insurance_pct_yr ⊕ a.holding.maintenance_pct_yr) ⊘ dec 12 0
        ⊕ a.holding.utilities_monthly
        ⊕ hoa_dues) in
      money_or_zero (monthly ⊗ (if nonzero months then months else zero_decimal))

  unfoldable pub cost_block : NormalizedProperty D → AssumptionSet D → Scenario → D → CostBlock D
  cost_block record' a scenario value = record {
    acquisition = money_or_zero (value ⊗ acq_pct a ⊕ acq_flat a);
    repairs = default_to zero_decimal (scenario_repairs a (repairs_base record' a) scenario);
    holding = holding_cost record' a scenario value;
    resale = money_or_zero (value ⊗ resale_pct a);
    financing = zero_decimal;
  }

  -- the potential obligations that a scenario counts
  abbrev pub scenario_potential : LiabilityBlock D → D → Scenario → D
  scenario_potential block weighted Scenario.conservative = default_to zero_decimal block.potential
  scenario_potential block weighted Scenario.expected = weighted
  scenario_potential block weighted Scenario.optimistic = zero_decimal

  unfoldable pub equity_block : D → D → D → D → D → EquityBlock D
  equity_block value confirmed potential resale holding =
      let gross = money_or_zero (value ⊖ confirmed) in
      record {
        gross = some gross;
        adjusted = some (money (value ⊖ confirmed ⊖ potential));
        net_realizable =
            some (money (value ⊗ (one_decimal ⊖ resale) ⊖ confirmed ⊖ potential ⊖ holding));
        equity_pct = if nonzero value then some (quantize 6 (gross ⊘ value)) else none;
      }
