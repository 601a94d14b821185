-- ===== src/Strategies/Foreclosure.antt =====
-- `subject_to`, `foreclosure` and `all_strategies` of strategies/engine.py.
use Prim.Native.String.{◌++◌ as text_join}
use house_analysis_ai.Prelude.{
  Bool, false, not, ◌&&◌, ◌||◌, Option, none, some, List, [], ◌∷◌, ◌++◌, map, String, Dict, insert,
  update, ◌==◌, string_eq, if◌then◌else◌, any, is_some, keep, Result, ok, ◌>>=◌,
}
use house_analysis_ai.Prelude.Int.{pos, leb_ℤ}
use house_analysis_ai.Python.{
  Python, ◌⊕◌, ◌⊖◌, ◌⊗◌, ◌⊘◌, zero_decimal, one_decimal, lt, nonzero, max, sum,
}
use house_analysis_ai.Contracts.{
  Date, AttachmentBasis, basis_eq, Scenario, StrategyType, StrategyStatus, NormalizedProperty,
  MortgageRecord, LienRecord, ForeclosureState, UnderwritingResult, StrategyResult, AssumptionSet,
}
use house_analysis_ai.Finance.{value_of, get_or, position_key, is_closed}
use house_analysis_ai.Strategies.Balance.{
  decimal_or_zero, tracked_or_zero, resolved_mortgage_balance, first_mortgage, is_foreclosing,
  distress_present,
}
use house_analysis_ai.Strategies.Costs.{
  v_as_is, costs_at, no_costs, acquisition_cost, echo, unavailable_result, viable_if,
}
use house_analysis_ai.Strategies.Sale.{cash, flip, wholesale, dcs_or}
use house_analysis_ai.Strategies.Rental.{rental}

-- a risk flag of a foreclosure: its name, whether it fired, and its source
abbrev pub RiskFlag : Type 0
RiskFlag = String × Bool × String

abbrev notice_of : RiskFlag → String
notice_of (name, fired, source) = text_join name (text_join " (source: " (text_join source ")"))

-- `bool(x)` of an optional truth value
abbrev is_true : Option Bool → Bool
is_true none = false
is_true (some b) = b

module _ {D : Type 0} ⦃py : Python D⦄ where
  open py use {dec, quantize, le}

  -- `Decimal(1) if b else Decimal(0)`
  abbrev pub decimal_of : Bool → D
  decimal_of b = if b then one_decimal else zero_decimal

  -- `_resolved_mortgage_balance(first, as_of) if first else None`
  abbrev first_balance : NormalizedProperty D → Option Date → Date → Option D
  first_balance record' as_of today = elim (first_mortgage record') [
    | none ↦ none
    | some first ↦ resolved_mortgage_balance first as_of today
  ]

  -- whether the balance is at most 80 % of the value, where both are known
  unfoldable pub balance_condition : Option D → Option D → Option D
  balance_condition (some balance) (some value) =
      if nonzero value then some (decimal_of (le balance (value ⊗ dec 8 1))) else none
  balance_condition _ _ = none

  -- `subject_to`, which does not read the assumptions
  unfoldable pub subject_to :
      NormalizedProperty D
      → UnderwritingResult D
      → D
      → Scenario
      → Option Date
      → Date
      → StrategyResult D
  subject_to record' underwriting price scenario as_of today = record {
    strategy = StrategyType.subject_to;
    scenario = scenario;
    status = StrategyStatus.requires_human_review;
    unavailable_reason = none;
    mao = none;
    all_in_basis = none;
    profit = none;
    roi = none;
    margin_of_safety = none;
    metrics =
        ("condition_rate_200bps_below_market", none)
        ∷ (
          "condition_balance_le_80pct_value",
          balance_condition (first_balance record' as_of today) (v_as_is underwriting scenario),
        )
        ∷ ("condition_no_acceleration", some (decimal_of (not (is_foreclosing record'))))
        ∷ ("condition_distress_present", some (decimal_of (distress_present record')))
        ∷ [];
    inputs_echo = echo price;
    notices = "detection only - due-on-sale / legal review required" ∷ [];
  }

  -- the largest balance at a junior position
  abbrev pub raise_junior : String → Dict D → Option D → Dict D
  raise_junior position juniors none = juniors
  raise_junior position juniors (some balance) =
      insert position (max (get_or position juniors zero_decimal) balance) juniors

  -- a round of the loop over the mortgages
  unfoldable pub add_junior : Option Date → Date → Dict D → MortgageRecord D → Dict D
  add_junior as_of today juniors mortgage =
      let position = position_key py mortgage.position in
      if not mortgage.is_open || position == "1"
      then juniors
      else raise_junior position juniors (resolved_mortgage_balance mortgage as_of today)

  unfoldable pub juniors_from : Option Date → Date → Dict D → List (MortgageRecord D) → Dict D
  juniors_from as_of today juniors [] = juniors
  juniors_from as_of today juniors (m ∷ ms) =
      juniors_from as_of today (add_junior as_of today juniors m) ms

  abbrev is_recorded : LienRecord D → Bool
  is_recorded lien =
      not (is_closed lien) && lien.attachment_basis == AttachmentBasis.recorded_against_property

  -- the debts that survive the auction beside the obligations
  unfoldable pub junior_debt : NormalizedProperty D → Option Date → Date → D
  junior_debt record' as_of today =
      sum (map (λ item. item.1) (juniors_from as_of today [] record'.mortgages))
      ⊕ sum (map (λ lien. tracked_or_zero lien.amount) (keep is_recorded record'.liens))

  -- what the auction settles: the bid, or else the balance of the first mortgage
  unfoldable pub obligations_of : NormalizedProperty D → ForeclosureState D → Option Date → Date → D
  obligations_of record' state as_of today = elim (value_of state.published_bid) [
    | none ↦ decimal_or_zero (first_balance record' as_of today)
    | some bid ↦ bid
  ]

  -- two months of holding at the low value
  unfoldable pub auction_holding : NormalizedProperty D → AssumptionSet D → D → D
  auction_holding record' a v_low =
      let monthly = quantize 2 (
        tracked_or_zero record'.taxes.annual_taxes ⊘ dec 12 0
        ⊕ v_low ⊗ (a.holding.insurance_pct_yr ⊕ a.holding.maintenance_pct_yr) ⊘ dec 12 0
        ⊕ a.holding.utilities_monthly
        ⊕ tracked_or_zero record'.hoa.monthly_dues) in
      quantize 2 (monthly ⊗ dec 2 0)

  -- the repairs, of the conservative scenario where the condition is unknown
  unfoldable pub auction_repairs : NormalizedProperty D → UnderwritingResult D → Scenario → D
  auction_repairs record' underwriting scenario =
      let repair_scenario = if is_some record'.condition then scenario else Scenario.conservative in
      elim (costs_at underwriting repair_scenario) [
        | none ↦ no_costs.repairs
        | some cost ↦ cost.repairs
      ]

  unfoldable pub risk_flags : NormalizedProperty D → ForeclosureState D → D → List RiskFlag
  risk_flags record' state juniors =
      ("flag_junior_liens_present", lt zero_decimal juniors, "mortgages/liens")
      ∷ (
        "flag_irs_lien",
        any (λ lien. lien.lien_type == "federal_tax")
            (keep (λ lien. not (is_closed lien)) record'.liens),
        "liens",
      )
      ∷ ("flag_hoa_super_priority", record'.hoa.has_lien, "hoa")
      ∷ ("flag_owner_occupied", is_true record'.ownership.is_owner_occupied, "ownership")
      ∷ ("flag_interior_unknown", not (is_some record'.condition), "condition")
      ∷ ("flag_postponements_ge_3", leb_ℤ (pos 3) state.postponement_count, "foreclosure")
      ∷ []

  unfoldable pub foreclosure_result :
      D → D → D → D → D → List RiskFlag → Scenario → StrategyResult D
  foreclosure_result price total transfer_costs holding spread flags scenario = record {
    strategy = StrategyType.foreclosure;
    scenario = scenario;
    status = viable_if (lt zero_decimal spread);
    unavailable_reason = none;
    mao = none;
    all_in_basis = none;
    profit = some spread;
    roi = none;
    margin_of_safety = none;
    metrics =
        update
          (("total_obligations", some total)
            ∷ ("transfer_costs", some transfer_costs)
            ∷ ("auction_holding", some holding)
            ∷ ("spread", some spread)
            ∷ [])
          (map (λ flag. (flag.0, some (decimal_of flag.1))) flags);
    inputs_echo = echo price;
    notices = map notice_of (keep (λ flag. flag.1) flags);
  }

  -- `foreclosure` of an active foreclosure at its low value
  unfoldable pub foreclosure_at :
      NormalizedProperty D
      → UnderwritingResult D
      → AssumptionSet D
      → D
      → Scenario
      → Option Date
      → Date
      → ForeclosureState D
      → D
      → Result (StrategyResult D)
  foreclosure_at record' underwriting a price scenario as_of today state v_low = do
    let obligations = obligations_of record' state as_of today
    let juniors = junior_debt record' as_of today
    transfer_costs ←
        (if lt zero_decimal obligations then acquisition_cost obligations a else ok zero_decimal)
    let total =
        quantize 2
          (obligations ⊕ juniors ⊕ tracked_or_zero record'.taxes.delinquent_amount ⊕ transfer_costs)
    let holding = auction_holding record' a v_low
    let spread =
        quantize 2 (v_low ⊖ total ⊖ auction_repairs record' underwriting scenario ⊖ holding)
    ok (
        foreclosure_result price total transfer_costs holding spread
          (risk_flags record' state juniors) scenario)

  -- `foreclosure`
  unfoldable pub foreclosure :
      NormalizedProperty D
      → UnderwritingResult D
      → AssumptionSet D
      → D
      → Scenario
      → Option Date
      → Date
      → Result (StrategyResult D)
  foreclosure record' underwriting a price scenario as_of today =
      let inactive =
        ok (unavailable_result StrategyType.foreclosure scenario "no_active_foreclosure" price) in
      elim record'.foreclosure [
        | none ↦ inactive
        | some state ↦
            (if state.is_active
              then elim underwriting.value.v_low [
                | none ↦
                    ok (unavailable_result StrategyType.foreclosure scenario "no_value_data" price)
                | some v_low ↦
                    foreclosure_at record' underwriting a price scenario as_of today state v_low
              ]
              else inactive)
      ]

  -- the six results of a scenario, in the order of the list that the code extends
  unfoldable pub scenario_strategies :
      NormalizedProperty D
      → UnderwritingResult D
      → AssumptionSet D
      → D
      → Option Date
      → Date
      → D
      → D
      → Scenario
      → Result (List (StrategyResult D))
  scenario_strategies record' underwriting a price as_of today dcs wholesale_min scenario = do
    by_cash ← cash underwriting a price scenario
    by_flip ← flip record' underwriting a price scenario
    by_wholesale ← wholesale underwriting a price scenario (some dcs) wholesale_min
    by_rental ← rental record' underwriting a price scenario
    by_foreclosure ← foreclosure record' underwriting a price scenario as_of today
    ok (
        by_cash
        ∷ by_flip
        ∷ by_wholesale
        ∷ by_rental
        ∷ subject_to record' underwriting price scenario as_of today
        ∷ by_foreclosure
        ∷ [])

  -- `all_strategies`
  unfoldable pub all_strategies :
      NormalizedProperty D
      → UnderwritingResult D
      → AssumptionSet D
      → D
      → Option Date
      → Date
      → Option D
      → D
      → Result (List (StrategyResult D))
  all_strategies record' underwriting a price as_of today data_confidence_value wholesale_min = do
    let dcs = dcs_or underwriting data_confidence_value
    let run = scenario_strategies record' underwriting a price as_of today dcs wholesale_min
    low ← run Scenario.conservative
    middle ← run Scenario.expected
    high ← run Scenario.optimistic
    ok (low ++ middle ++ high)
