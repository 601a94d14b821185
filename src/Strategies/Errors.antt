-- ===== src/Strategies/Errors.antt =====
-- When `offer_point` of strategies/engine.py raises.
use house_analysis_ai.Prelude.{
  Bool, not, ◌&&◌, ◌||◌, Option, none, some, List, any, ◌≡◌, refl, ap, ◌∙◌, is_some, is_ok,
  is_ok-bind, is_ok-raise_if, is_ok-or_raise, is_ok-last, is_ok-guard, String,
}
use house_analysis_ai.Python.{Python, zero_decimal, one_decimal, lt, sum}
use house_analysis_ai.Contracts.{Scenario, UnderwritingResult, AssumptionSet}
use house_analysis_ai.Strategies.{
  v_as_is, is_below_zero, acquisition_pcts, resale_pcts, flat_costs, checked_total,
  checked_resale_pct, checked_acquisition_pct, checked_acquisition_flat, acquisition_cost,
  profit_of, offer_point,
}

module _ {D : Type 0} ⦃py : Python D⦄ where
  open py use {le}

  -- Percentages that are not negative and stay below one together.
  abbrev pub are_percentages : List D → Bool
  are_percentages xs = not (any is_below_zero xs || le one_decimal (sum xs))

  -- The assumptions with which an offer's acquisition costs can be computed.
  abbrev pub can_acquire : AssumptionSet D → Bool
  can_acquire a = are_percentages (acquisition_pcts a) && not (any is_below_zero (flat_costs a))

  -- The assumptions with which a resale can be computed.
  abbrev pub can_resell : AssumptionSet D → Bool
  can_resell a = are_percentages (resale_pcts a)

  total-returns :
      (xs : List D) (message : String) → is_ok (checked_total xs message) ≡ are_percentages xs
  unfolding checked_total
  total-returns xs message = is_ok-guard (any is_below_zero xs || le one_decimal (sum xs)) _ _

  acquisition_pct-returns :
      (a : AssumptionSet D)
      → is_ok (checked_acquisition_pct a) ≡ are_percentages (acquisition_pcts a)
  unfolding checked_acquisition_pct
  acquisition_pct-returns a = total-returns _ _

  acquisition_flat-returns :
      (a : AssumptionSet D)
      → is_ok (checked_acquisition_flat a) ≡ not (any is_below_zero (flat_costs a))
  unfolding checked_acquisition_flat
  acquisition_flat-returns a = is_ok-guard (any is_below_zero (flat_costs a)) _ _

  pub acquisition_cost-returns :
      (price : D) (a : AssumptionSet D) → is_ok (acquisition_cost price a) ≡ can_acquire a
  unfolding acquisition_cost
  acquisition_cost-returns price a =
      is_ok-bind _ _ _ (λ pct. is_ok-last (checked_acquisition_flat a) _)
      ∙ ap (λ b. b && is_ok (checked_acquisition_flat a)) (acquisition_pct-returns a)
      ∙ ap (λ b. are_percentages (acquisition_pcts a) && b) (acquisition_flat-returns a)

  resale_pct-returns : (a : AssumptionSet D) → is_ok (checked_resale_pct a) ≡ can_resell a
  unfolding checked_resale_pct
  resale_pct-returns a = total-returns _ _

  -- A profit needs the resale's assumptions where there is a value.
  profit_of-returns :
      (a : AssumptionSet D) (basis : D) (value : Option D)
      → is_ok (profit_of a basis value) ≡ (not (is_some value) || can_resell a)
  unfolding profit_of
  profit_of-returns a basis none = refl
  profit_of-returns a basis (some value) =
      is_ok-last (checked_resale_pct a) _ ∙ resale_pct-returns a

  -- An offer has a point exactly when it is positive, the underwriting knows both the confirmed and
  -- the potential obligations, the acquisition's percentages and costs are valid, and the resale's
  -- percentages are valid or the scenario has no value. In every other case the call raises.
  pub offer_point-returns :
      (u : UnderwritingResult D) (a : AssumptionSet D) (offer : D) (scenario : Scenario)
      (label : Option String)
      → is_ok (offer_point u a offer scenario label) ≡ (
          lt zero_decimal offer
          && (is_some u.liabilities.confirmed
              && (is_some u.liabilities.potential
                  && (can_acquire a && (not (is_some (v_as_is u scenario)) || can_resell a)))))
  unfolding offer_point
  offer_point-returns u a offer scenario label = is_ok-raise_if (le offer zero_decimal) _ _ _ (
      is_ok-or_raise u.liabilities.confirmed _ _ _ λ confirmed.
        is_ok-or_raise u.liabilities.potential _ _ _ λ potential.
          is_ok-bind (acquisition_cost offer a) _ _ (λ acquisition.
            is_ok-last (profit_of a _ (v_as_is u scenario)) _ ∙ profit_of-returns a _ _)
          ∙ ap (λ b. b && (not (is_some (v_as_is u scenario)) || can_resell a))
              (acquisition_cost-returns offer a))
