-- ===== src/Tests/Strategies.antt =====
-- The theorems on strategies/engine.py at concrete records.
use house_analysis_ai.Prelude.{
  Bool, true, false, none, some, List, [], ◌∷◌, collect, In, inl, map, ◌≡◌, refl, Result, is_ok, ok,
  ◌>>=◌, String, All, is_some, ◌&&◌, ◌||◌, not, ◌↔◌,
}
use house_analysis_ai.Python.{max_of, zero_decimal, ◌≼◌, lt}
use house_analysis_ai.Python.Fixed.{Fixed, Fixed-IsDecimal, fixed_python}
use house_analysis_ai.Contracts.{
  Scenario, StrategyType, StrategyStatus, StrategyResult, NormalizedProperty, AssumptionSet,
  OfferPoint, OfferGrid, MortgageRecord, to_ordinal, days_since,
}
use house_analysis_ai.Finance
use house_analysis_ai.Finance.{
  value_of, transfer_tax_rate, reference_of, liabilities, position_key, money, money_or_zero,
  counted, weighted, candidate_weights, underwrite_from, sufficient, underwrite_valid, insufficient,
  value_block, expected_value, low_value, high_value, dispersion_of, arv_of, scenario_repairs,
  repairs_base, total_sums, cost_block, holding_cost, holding_months_base, acq_pct, acq_flat,
  get_or, comp_range, add_capacity, add_potential, no_sums,
}
use house_analysis_ai.Strategies.{
  resolved_mortgage_balance, first_mortgage, largest, round_5000, checked_total, checked_resale_pct,
  checked_acquisition_pct, checked_acquisition_flat, acquisition_cost, cash_mao, unavailable_result,
  hard_money_terms, flip_margin, flip_mao, resale_flip_cost, cash_all_in, cash_profit, cash_at,
  cash_from, cash, flip_at, flip, wholesale_at, wholesale_from, wholesale, rental, juniors_from,
  obligations_of, foreclosure_at, foreclosure, scenario_strategies, all_strategies, dcs_or,
  months_base_from_costs, expected_share, add_share, weighted_from, weighted_potential, profit_of,
  offer_point, flip_marker, insert_entry, sort_entries, scenario_points, grid_around, offer_grid,
  short_sale_flag_requests, ShortSalePayload, v_as_is, costs_at,
}
use house_analysis_ai.Strategies.Reports
use house_analysis_ai.Strategies.Steps
use house_analysis_ai.Strategies.Proceeds
use house_analysis_ai.Strategies.Prices
use house_analysis_ai.Strategies.Errors
use house_analysis_ai.Strategies.Loans
use house_analysis_ai.Strategies.Juniors
use house_analysis_ai.Strategies.Grid
use house_analysis_ai.Strategies.Sorted
use house_analysis_ai.Samples.{
  house, tracked, assumptions, priced, today, amount, returned_or, second_mortgage,
}
use house_analysis_ai.Tests.{house_underwriting, house-underwrites, ok-returned_or}

-- All strategies at a price of 250,000.
abbrev run : Result (List (StrategyResult Fixed))
run = all_strategies house priced assumptions (amount 250_000 0) none today none (amount 60 0)

abbrev results : List (StrategyResult Fixed)
results = returned_or [] run

run-returns_ok : is_ok run ≡ true
unfolding ◌>>=◌ transfer_tax_rate checked_total checked_resale_pct checked_acquisition_pct
    checked_acquisition_flat acquisition_cost cash_mao hard_money_terms flip_margin flip_mao
    resale_flip_cost cash_at cash_from cash flip_at flip wholesale_at wholesale_from wholesale
    rental foreclosure_at foreclosure scenario_strategies all_strategies obligations_of
    first_mortgage largest resolved_mortgage_balance position_key
run-returns_ok = refl

run-returns : run ≡ ok results
run-returns = ok-returned_or [] run run-returns_ok

abbrev blank : StrategyResult Fixed
blank = unavailable_result StrategyType.cash Scenario.expected "" (amount 0 0)

abbrev first_of : List (StrategyResult Fixed) → StrategyResult Fixed
first_of [] = blank
first_of (x ∷ xs) = x

abbrev has_first : List (StrategyResult Fixed) → Bool
has_first [] = false
has_first (x ∷ xs) = true

In-first_of : (xs : List (StrategyResult Fixed)) → has_first xs ≡ true → In (first_of xs) xs
In-first_of [] h = absurd (no h)
  where
    no : false ≡ true → ⊥
    no e = cc
In-first_of (x ∷ xs) h = inl refl

results-has_first : has_first results ≡ true
unfolding ◌>>=◌ transfer_tax_rate checked_total checked_resale_pct checked_acquisition_pct
    checked_acquisition_flat acquisition_cost cash_mao hard_money_terms flip_margin flip_mao
    resale_flip_cost cash_at cash_from cash flip_at flip wholesale_at wholesale_from wholesale
    rental foreclosure_at foreclosure scenario_strategies all_strategies obligations_of
    first_mortgage largest resolved_mortgage_balance position_key
results-has_first = refl

first-viable : (first_of results).status ≡ StrategyStatus.viable
unfolding ◌>>=◌ transfer_tax_rate checked_total checked_resale_pct checked_acquisition_pct
    checked_acquisition_flat acquisition_cost cash_mao hard_money_terms flip_margin flip_mao
    resale_flip_cost cash_at cash_from cash flip_at flip wholesale_at wholesale_from wholesale
    rental foreclosure_at foreclosure scenario_strategies all_strategies obligations_of
    first_mortgage largest resolved_mortgage_balance position_key cash_profit cash_all_in
first-viable = refl

all_strategies-tags_example : map (λ x. (x.scenario, x.strategy)) results ≡ Reports.all_pairs
all_strategies-tags_example =
    Reports.all_strategies-tags Fixed-IsDecimal house priced assumptions (amount 250_000 0) none
      today none (amount 60 0) run-returns

all_strategies-Pays_example :
    Reports.Pays (Reports.Gate house (dcs_or priced none) (amount 60 0)) (first_of results)
all_strategies-Pays_example =
    Reports.all_strategies-Pays Fixed-IsDecimal house priced assumptions (amount 250_000 0) none
      today none (amount 60 0) run-returns (first_of results)
      (In-first_of results results-has_first) first-viable

house-Owed : All Steps.IsOwed house.liens
house-Owed = (refl, tt)

weighted_potential_bounds_example :
    (p : Fixed) × (house_underwriting.liabilities.potential ≡ some p)
    × (zero_decimal ≼ weighted_potential house_underwriting assumptions)
    × (weighted_potential house_underwriting assumptions ≼ p)
    × ((liabilities house assumptions (reference_of house (some today))).1
        ≼ weighted_potential house_underwriting assumptions)
weighted_potential_bounds_example =
    Proceeds.weighted_potential_bounds Fixed-IsDecimal house assumptions (some today)
      house-underwrites house-Owed

-- The offers at the underwriting of the house.
abbrev house_grid_run : Result (OfferGrid Fixed)
house_grid_run = offer_grid (λ xs. xs) house_underwriting 1 assumptions

-- The offers at the priced underwriting.
abbrev grid_run : Result (OfferGrid Fixed)
grid_run = offer_grid (λ xs. xs) priced 1 assumptions

abbrev no_grid : OfferGrid Fixed
no_grid = record { property_id = 0; points = []; interpolatable = true }

grid_run-returns : is_ok grid_run ≡ true
unfolding ◌>>=◌ transfer_tax_rate round_5000 checked_total checked_resale_pct
    checked_acquisition_pct checked_acquisition_flat acquisition_cost cash_mao hard_money_terms
    flip_margin flip_mao resale_flip_cost months_base_from_costs profit_of offer_point flip_marker
    insert_entry sort_entries scenario_points grid_around offer_grid
grid_run-returns = refl

abbrev digest : ShortSalePayload Fixed → String
digest payload = "digest"

short_sale_empty_example :
    (short_sale_flag_requests digest (returned_or no_grid grid_run) ≡ [])
    ↔ All Grid.Covers (returned_or no_grid grid_run).points
short_sale_empty_example =
    Grid.short_sale_empty digest (λ xs. xs) priced 1 assumptions
      (ok-returned_or no_grid grid_run grid_run-returns)

-- An underwriting of the house that says what its costs are, as a call that returns.
house_grid_run-returns : is_ok house_grid_run ≡ true
unfolding ◌>>=◌ transfer_tax_rate round_5000 checked_total checked_resale_pct
    checked_acquisition_pct checked_acquisition_flat acquisition_cost cash_mao hard_money_terms
    flip_margin flip_mao resale_flip_cost months_base_from_costs profit_of offer_point flip_marker
    insert_entry sort_entries scenario_points grid_around offer_grid money money_or_zero to_ordinal
    days_since counted weighted candidate_weights underwrite_from sufficient underwrite_valid
    insufficient liabilities value_block expected_value low_value high_value dispersion_of arv_of
    scenario_repairs repairs_base total_sums cost_block holding_cost holding_months_base
    Finance.resale_pct acq_pct acq_flat comp_range
house_grid_run-returns = refl

offer_grid-InOrder_example : All Proceeds.InOrder (returned_or no_grid house_grid_run).points
offer_grid-InOrder_example =
    Grid.offer_grid-InOrder Fixed-IsDecimal house assumptions (some today) (λ xs. xs) 1
      house-underwrites house-Owed (ok-returned_or no_grid house_grid_run house_grid_run-returns)

-- A cash purchase at 250,000, and one at 240,000.
abbrev cash_run : Result (StrategyResult Fixed)
cash_run = cash priced assumptions (amount 250_000 0) Scenario.expected

cash-viable :
    (is_ok cash_run ≡ true) × ((returned_or blank cash_run).status ≡ StrategyStatus.viable)
unfolding ◌>>=◌ transfer_tax_rate checked_total checked_resale_pct checked_acquisition_pct
    checked_acquisition_flat acquisition_cost cash_mao cash_at cash_from cash cash_profit
    cash_all_in
cash-viable = (refl, refl)

cash-IsViable_lower_example :
    Prices.IsViable (cash priced assumptions (amount 240_000 0) Scenario.expected)
cash-IsViable_lower_example =
    Prices.cash-IsViable_lower Fixed-IsDecimal priced assumptions (amount 240_000 0)
      (amount 250_000 0) Scenario.expected refl refl
      (returned_or blank cash_run, ok-returned_or blank cash_run cash-viable.0, cash-viable.1)

-- A wholesale at 250,000, and one at 240,000.
abbrev wholesale_run : Result (StrategyResult Fixed)
wholesale_run = wholesale priced assumptions (amount 250_000 0) Scenario.expected none (amount 60 0)

wholesale-viable :
    (is_ok wholesale_run ≡ true)
    × ((returned_or blank wholesale_run).status ≡ StrategyStatus.viable)
unfolding ◌>>=◌ wholesale_at wholesale_from wholesale
wholesale-viable = (refl, refl)

wholesale-IsViable_lower_example :
    Prices.IsViable
      (wholesale priced assumptions (amount 240_000 0) Scenario.expected none (amount 60 0))
wholesale-IsViable_lower_example =
    Prices.wholesale-IsViable_lower Fixed-IsDecimal priced assumptions (amount 240_000 0)
      (amount 250_000 0) Scenario.expected none (amount 60 0) refl refl
      (
        returned_or blank wholesale_run,
        ok-returned_or blank wholesale_run wholesale-viable.0,
        wholesale-viable.1,
      )

offer_point-returns_example :
    is_ok (offer_point priced assumptions (amount 250_000 0) Scenario.expected none) ≡ (
      lt zero_decimal (amount 250_000 0)
      && (is_some priced.liabilities.confirmed
          && (is_some priced.liabilities.potential
              && (Errors.can_acquire assumptions
                  && (not (is_some (v_as_is priced Scenario.expected))
                      || Errors.can_resell assumptions)))))
offer_point-returns_example =
    Errors.offer_point-returns priced assumptions (amount 250_000 0) Scenario.expected none

-- A house that is let for 2,500 a month, with a loan at seven percent.
abbrev let_house : NormalizedProperty Fixed
let_house = record house { rental = record { rent_estimate = some (tracked 2_500); source = none } }

abbrev let_terms : AssumptionSet Fixed
let_terms = record assumptions {
  strategy = record assumptions.strategy {
    rental = ("ltv", amount 75 2) ∷ ("rate", amount 7 2) ∷ [];
  };
}

rental-returns_example :
    is_ok (rental let_house priced let_terms (amount 250_000 0) Scenario.expected) ≡ (
      not (is_some (value_of let_house.rental.rent_estimate))
      || (fixed_python.le (amount 250_000 0) zero_decimal
          || (not (is_some (v_as_is priced Scenario.expected))
              || (not (is_some (costs_at priced Scenario.expected))
                  || (not (is_some (value_of let_house.attributes.sqft))
                      || (Loans.can_operate let_terms
                          && (Errors.can_acquire let_terms
                              && Loans.can_finance let_terms.strategy.rental
                                  (amount 250_000 0))))))))
rental-returns_example =
    Loans.rental-returns let_house priced let_terms (amount 250_000 0) Scenario.expected

-- A second mortgage that is reported twice, under two names of its position.
abbrev seconds : List (MortgageRecord Fixed)
seconds = second_mortgage "second" 40_000 ∷ second_mortgage "2" 45_000 ∷ []

junior_largest_example :
    get_or "2" (juniors_from none today [] seconds) zero_decimal
    ≡ max_of zero_decimal (collect (Juniors.junior_at none today "2") seconds)
junior_largest_example = Juniors.junior_largest none today "2" seconds

-- The points of the expected scenario, for two offers in the wrong order.
abbrev points_run : Result (List (OfferPoint Fixed))
points_run =
    scenario_points priced assumptions ((amount 300_000 0, none) ∷ (amount 250_000 0, none) ∷ [])
      (amount 6 0) Scenario.expected (some (amount 450_000 0))

points_run-returns : is_ok points_run ≡ true
unfolding ◌>>=◌ transfer_tax_rate checked_total checked_resale_pct checked_acquisition_pct
    checked_acquisition_flat acquisition_cost cash_mao hard_money_terms flip_margin flip_mao
    resale_flip_cost profit_of offer_point flip_marker insert_entry sort_entries scenario_points
points_run-returns = refl

scenario_points-IsAscending_example :
    Sorted.IsAscending (map (λ p. p.offer_price) (returned_or [] points_run))
scenario_points-IsAscending_example =
    Sorted.scenario_points-IsAscending Fixed-IsDecimal priced assumptions
      ((amount 300_000 0, none) ∷ (amount 250_000 0, none) ∷ []) (amount 6 0) Scenario.expected
      (some (amount 450_000 0)) (ok-returned_or [] points_run points_run-returns)

-- The whole limit of a credit line without a known draw is deducted from the offers, and half of it
-- from the equity.
abbrev credit_line : Fixed × Fixed
credit_line =
    let sums = add_capacity assumptions "heloc" (amount 100_000 0 ∷ []) no_sums in
    (weighted_from assumptions zero_decimal sums.breakdown, sums.potential_weighted)

credit_line-differs : credit_line ≡ (amount 100_000 0, amount 50_000 0)
unfolding add_capacity add_potential weighted_from add_share expected_share money money_or_zero
credit_line-differs = refl
