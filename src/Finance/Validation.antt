-- ===== src/Finance/Validation.antt =====
-- `_validate_assumptions` of finance/engine.py.
use house_analysis_ai.Prelude.{
  Bool, not, ◌&&◌, ◌||◌, List, [], ◌∷◌, ◌++◌, any, Dict, Result, ok, value_error, ◌>>◌, raise_if,
}
use house_analysis_ai.Prelude.Int.{pos, leb_ℤ}
use house_analysis_ai.Python.{Python, zero_decimal, one_decimal, lt, sum}
use house_analysis_ai.Contracts.{AssumptionSet}

module _ {D : Type 0} ⦃py : Python D⦄ where
  open py use {le}

  abbrev pub is_negative : D → Bool
  is_negative value = lt value zero_decimal

  abbrev pub any_below_zero : Dict D → Bool
  any_below_zero d = any (λ item. is_negative item.1) d

  abbrev pub acquisition_rates : AssumptionSet D → List D
  acquisition_rates a =
      a.acquisition.closing_pct ∷ a.acquisition.title_pct ∷ a.acquisition.financing_points
      ∷ a.acquisition.acq_fee_pct ∷ []

  abbrev pub resale_rates : AssumptionSet D → List D
  resale_rates a =
      a.resale.commission_pct ∷ a.resale.seller_closing_pct ∷ a.resale.concessions_pct
      ∷ a.resale.misc_pct ∷ []

  abbrev pub flat_amounts : AssumptionSet D → List D
  flat_amounts a =
      a.acquisition.escrow_flat ∷ a.acquisition.financing_flat ∷ a.acquisition.inspection_flat
      ∷ a.acquisition.legal_flat ∷ a.resale.staging_flat ∷ a.holding.insurance_pct_yr
      ∷ a.holding.utilities_monthly ∷ a.holding.maintenance_pct_yr ∷ a.holding.acquisition_months
      ∷ []

  unfoldable pub validate_assumptions : AssumptionSet D → Result (Unit {0})
  validate_assumptions a = do
    raise_if (any is_negative (acquisition_rates a ++ resale_rates a))
        (value_error "acquisition and resale percentages must be nonnegative")
    raise_if (le one_decimal (sum (acquisition_rates a)) || le one_decimal (sum (resale_rates a)))
        (value_error "acquisition and resale percentage totals must be below 100%")
    raise_if (any is_negative (flat_amounts a) || not (leb_ℤ (pos 0) a.holding.market_days_default))
        (value_error "cost and duration assumptions must be nonnegative")
    raise_if (any_below_zero a.holding.repair_months_by_condition)
        (value_error "repair durations must be nonnegative")
    raise_if
        (le a.repairs.regional_index zero_decimal
          || any_below_zero a.repairs.psf_by_condition
          || not (
              le zero_decimal a.repairs.low_multiplier
              && le a.repairs.low_multiplier one_decimal
              && le one_decimal a.repairs.high_multiplier))
        (value_error "repair assumptions must preserve low <= expected <= high")
    raise_if
        (any (λ item. not (le zero_decimal item.1 && le item.1 one_decimal))
          a.attachment_probability)
        (value_error "attachment probabilities must be between zero and one")
    raise_if (any_below_zero a.unknown_lien_medians)
        (value_error "unknown-lien medians must be nonnegative")
    raise_if (any_below_zero a.valuation_weights)
        (value_error "valuation weights must be nonnegative")
    ok tt
