-- ===== src/Strategies/Months.antt =====
-- `_months_base_from_costs` of strategies/engine.py, which recovers the holding months of an
-- underwriting from its costs.
use house_analysis_ai.Prelude.{Option, none, some, List, [], ◌∷◌, map, if◌then◌else◌}
use house_analysis_ai.Python.{Python, ◌⊕◌, ◌⊖◌, ◌⊗◌, ◌⊘◌, zero_decimal, lt, nonzero}
use house_analysis_ai.Contracts.{Scenario, UnderwritingResult, AssumptionSet}
use house_analysis_ai.Finance.{get_or}
use house_analysis_ai.Strategies.Costs.{holding_mult, v_as_is, costs_at}

-- A scenario's value and its holding costs.
abbrev Held : Type 0 → Type 0
Held D = D × D

module _ {D : Type 0} ⦃py : Python D⦄ where
  open py use {dec, of_int, quantize, absolute}

  abbrev market_months : AssumptionSet D → D
  market_months a = of_int a.holding.market_days_default ⊘ dec 30 0

  abbrev moderate_months : AssumptionSet D → D
  moderate_months a = get_or "moderate" a.holding.repair_months_by_condition (dec 3 0)

  -- the base without costs to compare with
  abbrev fallback_months : AssumptionSet D → D
  fallback_months a = a.holding.acquisition_months ⊕ moderate_months a ⊕ market_months a

  -- the value and the holding costs of a scenario, where both are known
  abbrev held : UnderwritingResult D → Scenario → Option (Held D)
  held underwriting scenario = elim (v_as_is underwriting scenario) [
    | none ↦ none
    | some value ↦ elim (costs_at underwriting scenario) [
      | none ↦ none
      | some cost ↦ some (value, cost.holding)
    ]
  ]

  -- how far the months predict the holding costs of a scenario
  unfoldable pub months_error : D → D → D → D → Held D → D
  months_error rate flat months factor (value, holding) =
      absolute (holding ⊖ (flat ⊕ rate ⊗ value) ⊗ quantize 4 (months ⊗ factor))

  -- the error of a candidate, which is none where its months are zero
  unfoldable pub candidate_error : D → Held D → Held D → Held D → D → Option D
  candidate_error rate low middle high months =
      let months_exp = quantize 4 (months ⊗ holding_mult Scenario.expected) in
      let flat = middle.1 ⊘ months_exp ⊖ rate ⊗ middle.0 in
      if nonzero months_exp
      then some (
          zero_decimal
          ⊕ months_error rate flat months (holding_mult Scenario.conservative) low
          ⊕ months_error rate flat months (holding_mult Scenario.optimistic) high)
      else none

  -- the first of the candidates with the least error: its error and its months
  unfoldable pub best_months : (D → Option D) → Option (D × D) → List D → Option (D × D)
  best_months error best [] = best
  best_months error best (months ∷ rest) =
      let chosen : Option (D × D) = elim (error months) [
        | none ↦ best
        | some e ↦ elim best [
          | none ↦ some (e, months)
          | some (least, kept) ↦ (if lt e least then some (e, months) else some (least, kept))
        ]
      ] in
      best_months error chosen rest

  -- The members of a Python set, whose order the language leaves open, are listed by `listed`.
  unfoldable pub months_base_from_costs :
      (List D → List D) → UnderwritingResult D → AssumptionSet D → D
  months_base_from_costs listed underwriting a =
      let rate = (a.holding.insurance_pct_yr ⊕ a.holding.maintenance_pct_yr) ⊘ dec 12 0 in
      let candidates =
        listed (moderate_months a ∷ map (λ item. item.1) a.holding.repair_months_by_condition) in
      let months =
        map (λ repair. a.holding.acquisition_months ⊕ repair ⊕ market_months a) candidates in
      elim underwriting.holding_months_base [
        | some base ↦ base
        | none ↦ elim (held underwriting Scenario.conservative) [
          | none ↦ fallback_months a
          | some low ↦ elim (held underwriting Scenario.expected) [
            | none ↦ fallback_months a
            | some middle ↦ elim (held underwriting Scenario.optimistic) [
              | none ↦ fallback_months a
              | some high ↦ elim (best_months (candidate_error rate low middle high) none months) [
                | none ↦ fallback_months a
                | some best ↦ best.1
              ]
            ]
          ]
        ]
      ]
