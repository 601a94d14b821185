-- ===== src/Samples.antt =====
-- Concrete records of contracts/models.py over fixed-point numbers, for the witnesses.
use house_analysis_ai.Prelude.{ℕ, String, true, false, none, some, List, [], ◌∷◌, Result}
use house_analysis_ai.Prelude.Int.{pos}
use house_analysis_ai.Python.Fixed.{Fixed, fixed_python}
use house_analysis_ai.Contracts.{
  SourceKind, AttachmentBasis, Scenario, StrategyType, StrategyStatus, Condition, Date,
  TrackedValue, ValuationCandidate, MortgageRecord, LienRecord, ForeclosureState,
  NormalizedProperty, StrategyResult, CostBlock, UnderwritingStatus, UnderwritingResult,
  AssumptionSet,
}

-- n / 10 ** k
abbrev pub amount : ℕ → ℕ → Fixed
amount n k = fixed_python.dec n k

abbrev pub tracked : ℕ → TrackedValue Fixed
tracked n = record {
  value = some (amount n 0);
  confidence = amount 9 1;
  source_kind = SourceKind.report;
  is_estimated = false;
  fact_id = none;
  as_of = none;
  null_reason = none;
}

abbrev pub today : Date
today = record { year = 2025; month = 6; day = 1 }

abbrev candidate : ℕ → ValuationCandidate Fixed
candidate n = record {
  valuation_type = "appraisal";
  value = tracked n;
  value_low = none;
  value_high = none;
  as_of = some today;
  reported_confidence = none;
  weight_hint = none;
}

abbrev lien : LienRecord Fixed
lien = record {
  lien_type = "judgment";
  amount = some (tracked 20_000);
  amount_is_estimated = false;
  status = "open";
  attachment_basis = AttachmentBasis.owner_named_only;
  attachment_confidence = amount 5 1;
  recording_date = some today;
  priority = none;
}

abbrev mortgage : MortgageRecord Fixed
mortgage = record {
  position = "first";
  lender = none;
  original_amount = some (tracked 300_000);
  rate = none;
  term_months = none;
  origination_date = none;
  estimated_balance = some (tracked 250_000);
  balance_method = "reported";
  is_open = true;
}

abbrev pub second_mortgage : String → ℕ → MortgageRecord Fixed
second_mortgage position balance = record mortgage {
  position = position;
  estimated_balance = some (tracked balance);
}

abbrev auction : ForeclosureState Fixed
auction = record {
  stage = "nts";
  nod_date = none;
  nts_date = some today;
  original_sale_date = none;
  current_sale_date = some (record { year = 2025; month = 6; day = 20 });
  published_bid = none;
  default_amount = none;
  postponement_count = pos 0;
  rescission_count = pos 0;
  trustee = none;
  is_active = true;
}

-- A house with two appraisals, a mortgage and a lien, twenty days before its auction.
abbrev pub house : NormalizedProperty Fixed
house = record {
  property_id = 1;
  apn = none;
  address = record {
    line1 = none;
    unit = none;
    city = none;
    state = none;
    zip5 = none;
    county = none;
    fips = none;
    lat = none;
    lng = none;
  };
  attributes = record {
    property_type = none;
    beds = none;
    baths = none;
    sqft = some (tracked 1_500);
    lot_sqft = none;
    year_built = none;
    units = none;
  };
  ownership = record {
    owner_names = [];
    entity_type = none;
    is_owner_occupied = none;
    is_absentee = some true;
    ownership_start_date = none;
    purchase_price = none;
    years_owned = none;
  };
  valuation_candidates = candidate 400_000 ∷ candidate 500_000 ∷ [];
  mortgages = mortgage ∷ [];
  liens = lien ∷ [];
  foreclosure = some auction;
  bankruptcies = [];
  taxes = record {
    annual_taxes = some (tracked 6_000);
    assessed_value = none;
    delinquent_amount = none;
    delinquent_years = none;
  };
  hoa = record { monthly_dues = none; arrears = none; has_lien = false };
  rental = record { rent_estimate = none; source = none };
  listings = [];
  comparables = [];
  condition = some (record { condition = Condition.moderate; evidence = none });
  data_quality = record {
    critical_field_coverage = amount 20 2;
    source_counts_by_field = [];
    conflict_count = pos 0;
    material_conflict_count = pos 0;
    verified_field_count = pos 0;
    ocr_applied = false;
    newest_report_date = none;
    mean_extraction_confidence = amount 80 2;
  };
  open_flags = [];
  resolution_version = "1";
}

abbrev pub assumptions : AssumptionSet Fixed
assumptions = record {
  id = 7;
  version = pos 1;
  name = "base";
  acquisition = record {
    closing_pct = amount 1 2;
    title_pct = amount 5 3;
    escrow_flat = amount 1_500 0;
    transfer_tax_lookup_key = none;
    financing_points = amount 0 0;
    financing_flat = amount 0 0;
    inspection_flat = amount 500 0;
    legal_flat = amount 1_000 0;
    acq_fee_pct = amount 0 0;
  };
  repairs = record {
    psf_by_condition = ("moderate", amount 35 0) ∷ [];
    low_multiplier = amount 8 1;
    high_multiplier = amount 14 1;
    regional_index = amount 1 0;
  };
  holding = record {
    insurance_pct_yr = amount 5 3;
    utilities_monthly = amount 250 0;
    maintenance_pct_yr = amount 1 2;
    acquisition_months = amount 1 0;
    repair_months_by_condition = ("moderate", amount 3 0) ∷ [];
    market_days_default = pos 60;
  };
  resale = record {
    commission_pct = amount 5 2;
    seller_closing_pct = amount 1 2;
    concessions_pct = amount 1 2;
    staging_flat = amount 0 0;
    misc_pct = amount 0 0;
  };
  strategy = record {
    cash_target_margin = amount 10 2;
    flip_target_margin_by_arv_band = [];
    wholesale_investor_pct = amount 70 2;
    min_assignment_spread = amount 10_000 0;
    hard_money = [];
    rental = [];
  };
  attachment_probability = (AttachmentBasis.owner_named_only, amount 4 1) ∷ [];
  unknown_lien_medians = [];
  valuation_weights = ("appraisal", amount 1 0) ∷ [];
}

abbrev pub offer : StrategyType → ℕ → StrategyResult Fixed
offer strategy profit = record {
  strategy = strategy;
  scenario = Scenario.expected;
  status = StrategyStatus.viable;
  unavailable_reason = none;
  mao = some (amount 300_000 0);
  all_in_basis = none;
  profit = some (amount profit 0);
  roi = some (amount 25 2);
  margin_of_safety = some (amount 20 2);
  metrics = [];
  inputs_echo = [];
  notices = [];
}

-- two strategies three points apart
abbrev pub offers : List (StrategyResult Fixed)
offers = offer StrategyType.wholesale 60_000 ∷ offer StrategyType.flip 61_000 ∷ []

-- a result with an expected equity of 42 %
abbrev pub underwritten : UnderwritingResult Fixed
underwritten = record {
  property_id = 1;
  assumption_set_id = 7;
  engine_version = "finance-3";
  status = UnderwritingStatus.ok;
  unavailable_reason = none;
  value = record {
    v_low = some (amount 400_000 0);
    v_expected = some (amount 450_000 0);
    v_high = some (amount 500_000 0);
    dispersion = some (amount 11 2);
    arv_by_scenario = [];
    valuation_confidence = some (amount 8 1);
  };
  liabilities = record {
    confirmed = some (amount 250_000 0);
    potential = none;
    maximum = none;
    breakdown = [];
  };
  equity =
      (
        Scenario.expected,
        record {
          gross = some (amount 200_000 0);
          adjusted = none;
          net_realizable = none;
          equity_pct = some (amount 42 2);
        },
      )
      ∷ [];
  costs = [];
  holding_months_base = none;
  debt_data_present = true;
  confidence = amount 8 1;
}

abbrev costs : CostBlock Fixed
costs = record {
  acquisition = amount 9_000 0;
  repairs = amount 50_000 0;
  holding = amount 8_000 0;
  resale = amount 31_500 0;
  financing = amount 0 0;
}

-- the same result with costs and with values after repairs
abbrev pub priced : UnderwritingResult Fixed
priced = record underwritten {
  value = record {
    v_low = some (amount 400_000 0);
    v_expected = some (amount 450_000 0);
    v_high = some (amount 500_000 0);
    dispersion = some (amount 11 2);
    arv_by_scenario =
        (Scenario.conservative, some (amount 470_000 0))
        ∷ (Scenario.expected, some (amount 500_000 0))
        ∷ (Scenario.optimistic, some (amount 540_000 0))
        ∷ [];
    valuation_confidence = some (amount 8 1);
  };
  liabilities = record {
    confirmed = some (amount 250_000 0);
    potential = some (amount 20_000 0);
    maximum = some (amount 270_000 0);
    breakdown =
        record {
          label = "judgment";
          amount = amount 20_000 0;
          expected_amount = some (amount 8_000 0);
          basis = "owner_named_only";
          is_estimated = false;
        }
        ∷ [];
  };
  costs =
      (Scenario.conservative, costs)
      ∷ (Scenario.expected, costs)
      ∷ (Scenario.optimistic, costs)
      ∷ [];
  holding_months_base = some (amount 6 0);
}

-- what a call returned, or a value in place of it
abbrev pub returned_or {ℓ} : {A : Type ℓ} → A → Result A → A
returned_or a (Result.ok b) = b
returned_or a (Result.err e) = a
