-- ===== src/Contracts/Assumptions.antt =====
-- The assumption set of contracts/models.py.
use house_analysis_ai.Prelude.{Option, List, Dict, String}
use house_analysis_ai.Prelude.Int.{ℤ}
use house_analysis_ai.Contracts.Dates.{Uuid}
use house_analysis_ai.Contracts.Enums.{AttachmentBasis}

pub record AcquisitionCosts (D : Type 0) : Type 0 where
  pub closing_pct : D
  pub title_pct : D
  pub escrow_flat : D
  pub transfer_tax_lookup_key : Option String
  pub financing_points : D
  pub financing_flat : D
  pub inspection_flat : D
  pub legal_flat : D
  pub acq_fee_pct : D

pub record RepairAssumptions (D : Type 0) : Type 0 where
  pub psf_by_condition : Dict D
  pub low_multiplier : D
  pub high_multiplier : D
  pub regional_index : D

pub record HoldingAssumptions (D : Type 0) : Type 0 where
  pub insurance_pct_yr : D
  pub utilities_monthly : D
  pub maintenance_pct_yr : D
  pub acquisition_months : D
  pub repair_months_by_condition : Dict D
  pub market_days_default : ℤ

pub record ResaleAssumptions (D : Type 0) : Type 0 where
  pub commission_pct : D
  pub seller_closing_pct : D
  pub concessions_pct : D
  pub staging_flat : D
  pub misc_pct : D

pub record StrategyAssumptions (D : Type 0) : Type 0 where
  pub cash_target_margin : D
  pub flip_target_margin_by_arv_band : Dict D
  pub wholesale_investor_pct : D
  pub min_assignment_spread : D
  pub hard_money : Dict D
  pub rental : Dict D

pub record AssumptionSet (D : Type 0) : Type 0 where
  pub id : Uuid
  pub version : ℤ
  pub name : String
  pub acquisition : AcquisitionCosts D
  pub repairs : RepairAssumptions D
  pub holding : HoldingAssumptions D
  pub resale : ResaleAssumptions D
  pub strategy : StrategyAssumptions D
  pub attachment_probability : List (AttachmentBasis × D)
  pub unknown_lien_medians : Dict D
  pub valuation_weights : Dict D
