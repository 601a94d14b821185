-- ===== src/Contracts/Enums.antt =====
-- The enumerations of contracts/models.py. A member is equal to itself alone: the tests compare
-- the places of two members in the list.
use house_analysis_ai.Prelude.{ℕ, String, Eq, ◌==◌, number_eq}

pub data SourceKind : Type 0 where
  report derived human api pasted : SourceKind

pub data NullReason : Type 0 where
  not_present illegible redacted conflicting_in_source : NullReason

pub data AttachmentBasis : Type 0 where
  recorded_against_property owner_named_only unknown undrawn_heloc_capacity : AttachmentBasis

pub data Scenario : Type 0 where
  conservative expected optimistic : Scenario

pub data StrategyType : Type 0 where
  cash flip wholesale rental subject_to foreclosure : StrategyType

pub data FlagType : Type 0 where
  identity_conflict lien_attachment conflicting_mortgage foreclosure_unclear : FlagType
  missing_lien_amount valuation_dispersion missing_apn low_extraction_confidence : FlagType
  bid_mismatch range_violation possible_duplicate short_sale_candidate : FlagType

-- the literals of `UnderwritingResult.status` and `StrategyResult.status`
pub data UnderwritingStatus : Type 0 where
  ok insufficient_data : UnderwritingStatus

pub data StrategyStatus : Type 0 where
  viable not_viable unavailable requires_human_review : StrategyStatus

-- the literals of `ConditionSignal.condition`
pub data Condition : Type 0 where
  pristine cosmetic moderate heavy gut : Condition

abbrev basis_index : AttachmentBasis → ℕ
basis_index recorded_against_property = 0
basis_index owner_named_only = 1
basis_index unknown = 2
basis_index undrawn_heloc_capacity = 3

-- `AttachmentBasis.value`
abbrev pub basis_text : AttachmentBasis → String
basis_text recorded_against_property = "recorded_against_property"
basis_text owner_named_only = "owner_named_only"
basis_text unknown = "unknown"
basis_text undrawn_heloc_capacity = "undrawn_heloc_capacity"

abbrev scenario_index : Scenario → ℕ
scenario_index conservative = 0
scenario_index expected = 1
scenario_index optimistic = 2

-- `STRATEGY_PRIORITY.index(strategy)` of scoring/engine.py
abbrev pub priority : StrategyType → ℕ
priority cash = 0
priority flip = 1
priority wholesale = 2
priority rental = 3
priority subject_to = 4
priority foreclosure = 5

abbrev flag_index : FlagType → ℕ
flag_index identity_conflict = 0
flag_index lien_attachment = 1
flag_index conflicting_mortgage = 2
flag_index foreclosure_unclear = 3
flag_index missing_lien_amount = 4
flag_index valuation_dispersion = 5
flag_index missing_apn = 6
flag_index low_extraction_confidence = 7
flag_index bid_mismatch = 8
flag_index range_violation = 9
flag_index possible_duplicate = 10
flag_index short_sale_candidate = 11

abbrev underwriting_index : UnderwritingStatus → ℕ
underwriting_index UnderwritingStatus.ok = 0
underwriting_index insufficient_data = 1

abbrev status_index : StrategyStatus → ℕ
status_index viable = 0
status_index not_viable = 1
status_index unavailable = 2
status_index requires_human_review = 3

instance abbrev pub basis_eq : Eq AttachmentBasis
basis_eq = record { beq = λ a b. basis_index a == basis_index b }

instance abbrev pub scenario_eq : Eq Scenario
scenario_eq = record { beq = λ a b. scenario_index a == scenario_index b }

instance abbrev pub strategy_eq : Eq StrategyType
strategy_eq = record { beq = λ a b. priority a == priority b }

instance abbrev pub flag_eq : Eq FlagType
flag_eq = record { beq = λ a b. flag_index a == flag_index b }

instance abbrev pub underwriting_eq : Eq UnderwritingStatus
underwriting_eq = record { beq = λ a b. underwriting_index a == underwriting_index b }

instance abbrev pub status_eq : Eq StrategyStatus
status_eq = record { beq = λ a b. status_index a == status_index b }
