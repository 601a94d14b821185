-- ===== src/Contracts/Records.antt =====
-- The records of contracts/models.py, field by field, over the type of decimals. What the engines
-- never read is left out: the candidates of a value block, dicts made for display.
use house_analysis_ai.Prelude.{Bool, Option, List, Dict, String}
use house_analysis_ai.Prelude.Int.{ℤ}
use house_analysis_ai.Contracts.Dates.{Uuid, Date}
use house_analysis_ai.Contracts.Enums.{
  SourceKind, NullReason, AttachmentBasis, Scenario, StrategyType, FlagType, UnderwritingStatus,
  StrategyStatus, Condition,
}

-- A value with where it comes from. `confidence`, a Python float in [0, 1], is carried as the
-- decimal that `str` writes for it; the program compares it and converts it by
-- `Decimal(str(...))`.
pub record TrackedValue (D : Type 0) : Type 0 where
  pub value : Option D
  pub confidence : D
  pub source_kind : SourceKind
  pub is_estimated : Bool
  pub fact_id : Option Uuid
  pub as_of : Option Date
  pub null_reason : Option NullReason

pub record AddressBlock (D : Type 0) : Type 0 where
  pub line1 : Option String
  pub unit : Option String
  pub city : Option String
  pub state : Option String
  pub zip5 : Option String
  pub county : Option String
  pub fips : Option String
  pub lat : Option D
  pub lng : Option D

pub record PropertyAttributes (D : Type 0) : Type 0 where
  pub property_type : Option (TrackedValue D)
  pub beds : Option (TrackedValue D)
  pub baths : Option (TrackedValue D)
  pub sqft : Option (TrackedValue D)
  pub lot_sqft : Option (TrackedValue D)
  pub year_built : Option (TrackedValue D)
  pub units : Option (TrackedValue D)

pub record OwnershipBlock (D : Type 0) : Type 0 where
  pub owner_names : List String
  pub entity_type : Option String
  pub is_owner_occupied : Option Bool
  pub is_absentee : Option Bool
  pub ownership_start_date : Option Date
  pub purchase_price : Option (TrackedValue D)
  pub years_owned : Option D

pub record ValuationCandidate (D : Type 0) : Type 0 where
  pub valuation_type : String
  pub value : TrackedValue D
  pub value_low : Option D
  pub value_high : Option D
  pub as_of : Option Date
  pub reported_confidence : Option D
  pub weight_hint : Option D

pub record MortgageRecord (D : Type 0) : Type 0 where
  pub position : String
  pub lender : Option String
  pub original_amount : Option (TrackedValue D)
  pub rate : Option D
  pub term_months : Option ℤ
  pub origination_date : Option Date
  pub estimated_balance : Option (TrackedValue D)
  pub balance_method : String
  pub is_open : Bool

pub record LienRecord (D : Type 0) : Type 0 where
  pub lien_type : String
  pub amount : Option (TrackedValue D)
  pub amount_is_estimated : Bool
  pub status : String
  pub attachment_basis : AttachmentBasis
  pub attachment_confidence : D
  pub recording_date : Option Date
  pub priority : Option ℤ

pub record ForeclosureState (D : Type 0) : Type 0 where
  pub stage : String
  pub nod_date : Option Date
  pub nts_date : Option Date
  pub original_sale_date : Option Date
  pub current_sale_date : Option Date
  pub published_bid : Option (TrackedValue D)
  pub default_amount : Option (TrackedValue D)
  pub postponement_count : ℤ
  pub rescission_count : ℤ
  pub trustee : Option String
  pub is_active : Bool

pub record BankruptcyRecord : Type 0 where
  pub chapter : String
  pub status : String
  pub filing_date : Option Date
  pub discharge_date : Option Date
  pub sequence : Option ℤ

pub record TaxBlock (D : Type 0) : Type 0 where
  pub annual_taxes : Option (TrackedValue D)
  pub assessed_value : Option (TrackedValue D)
  pub delinquent_amount : Option (TrackedValue D)
  pub delinquent_years : Option ℤ

pub record HoaBlock (D : Type 0) : Type 0 where
  pub monthly_dues : Option (TrackedValue D)
  pub arrears : Option (TrackedValue D)
  pub has_lien : Bool

pub record RentalBlock (D : Type 0) : Type 0 where
  pub rent_estimate : Option (TrackedValue D)
  pub source : Option String

pub record ListingRecord (D : Type 0) : Type 0 where
  pub list_date : Date
  pub delist_date : Option Date
  pub price : Option (TrackedValue D)
  pub status : String
  pub dom : Option ℤ

pub record ComparableSale (D : Type 0) : Type 0 where
  pub address : String
  pub sale_date : Option Date
  pub price : Option (TrackedValue D)
  pub sqft : Option D
  pub distance : Option D
  pub similarity : Option D
  pub included : Bool

pub record ConditionSignal : Type 0 where
  pub condition : Condition
  pub evidence : Option String

pub record FlagSummary (D : Type 0) : Type 0 where
  pub type : FlagType
  pub severity : String
  pub is_gating : Bool
  pub financial_impact : Option D

pub record DataQualityBlock (D : Type 0) : Type 0 where
  pub critical_field_coverage : D
  pub source_counts_by_field : Dict ℤ
  pub conflict_count : ℤ
  pub material_conflict_count : ℤ
  pub verified_field_count : ℤ
  pub ocr_applied : Bool
  pub newest_report_date : Option Date
  pub mean_extraction_confidence : D

pub record NormalizedProperty (D : Type 0) : Type 0 where
  pub property_id : Uuid
  pub apn : Option String
  pub address : AddressBlock D
  pub attributes : PropertyAttributes D
  pub ownership : OwnershipBlock D
  pub valuation_candidates : List (ValuationCandidate D)
  pub mortgages : List (MortgageRecord D)
  pub liens : List (LienRecord D)
  pub foreclosure : Option (ForeclosureState D)
  pub bankruptcies : List BankruptcyRecord
  pub taxes : TaxBlock D
  pub hoa : HoaBlock D
  pub rental : RentalBlock D
  pub listings : List (ListingRecord D)
  pub comparables : List (ComparableSale D)
  pub condition : Option ConditionSignal
  pub data_quality : DataQualityBlock D
  pub open_flags : List (FlagSummary D)
  pub resolution_version : String

pub record ValueBlock (D : Type 0) : Type 0 where
  pub v_low : Option D
  pub v_expected : Option D
  pub v_high : Option D
  pub dispersion : Option D
  pub arv_by_scenario : List (Scenario × Option D)
  pub valuation_confidence : Option D

-- A dict of `LiabilityBlock.breakdown`: the keys that `_liabilities` writes. `expected_amount` is
-- absent from a confirmed line.
pub record BreakdownItem (D : Type 0) : Type 0 where
  pub label : String
  pub amount : D
  pub expected_amount : Option D
  pub basis : String
  pub is_estimated : Bool

pub record LiabilityBlock (D : Type 0) : Type 0 where
  pub confirmed : Option D
  pub potential : Option D
  pub maximum : Option D
  pub breakdown : List (BreakdownItem D)

pub record EquityBlock (D : Type 0) : Type 0 where
  pub gross : Option D
  pub adjusted : Option D
  pub net_realizable : Option D
  pub equity_pct : Option D

pub record CostBlock (D : Type 0) : Type 0 where
  pub acquisition : D
  pub repairs : D
  pub holding : D
  pub resale : D
  pub financing : D

pub record UnderwritingResult (D : Type 0) : Type 0 where
  pub property_id : Uuid
  pub assumption_set_id : Uuid
  pub engine_version : String
  pub status : UnderwritingStatus
  pub unavailable_reason : Option String
  pub value : ValueBlock D
  pub liabilities : LiabilityBlock D
  pub equity : List (Scenario × EquityBlock D)
  pub costs : List (Scenario × CostBlock D)
  pub holding_months_base : Option D
  pub debt_data_present : Bool
  pub confidence : D

pub record StrategyResult (D : Type 0) : Type 0 where
  pub strategy : StrategyType
  pub scenario : Scenario
  pub status : StrategyStatus
  pub unavailable_reason : Option String
  pub mao : Option D
  pub all_in_basis : Option D
  pub profit : Option D
  pub roi : Option D
  pub margin_of_safety : Option D
  pub metrics : Dict (Option D)
  pub inputs_echo : Dict D
  pub notices : List String

pub record OfferPoint (D : Type 0) : Type 0 where
  pub offer_price : D
  pub scenario : Scenario
  pub confirmed_payoffs : D
  pub potential_payoffs : D
  pub closing_costs : D
  pub proceeds_low : D
  pub proceeds_expected : D
  pub proceeds_high : D
  pub buyer_basis : D
  pub profit : D
  pub roi : Option D
  pub is_short_sale : Bool
  pub label : Option String

pub record OfferGrid (D : Type 0) : Type 0 where
  pub property_id : Uuid
  pub points : List (OfferPoint D)
  pub interpolatable : Bool

pub record ScoreSet (D : Type 0) : Type 0 where
  pub property_id : Uuid
  pub scoring_config_id : Uuid
  pub fos : D
  pub distress : D
  pub data_confidence : D
  pub risk : D
  pub overall : D
  pub components : Dict D
  pub gates_applied : List String
  pub is_rankable : Bool
  pub recommended_strategy : Option StrategyType
  pub recommended_alternatives : List StrategyType
