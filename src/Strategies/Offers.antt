-- ===== src/Strategies/Offers.antt =====
-- The offers of strategies/engine.py: `offer_point`, `offer_grid` and what they read of the
-- breakdown. The optional trace recorder, which only reads the values, is absent.
use text.Mathlib.Text.{starts_with}
use house_analysis_ai.Prelude.{
  Bool, true, ◌&&◌, Option, none, some, List, [], ◌∷◌, ◌++◌, map, String, assoc, ◌==◌, string_eq,
  if◌then◌else◌, any, is_some, Result, ok, value_error, ◌>>◌, ◌>>=◌, raise_if, or_raise, each,
}
use house_analysis_ai.Prelude.Int.{pos}
use house_analysis_ai.Python.{Python, ◌⊕◌, ◌⊖◌, ◌⊗◌, zero_decimal, one_decimal, lt, max, min}
use house_analysis_ai.Contracts.{
  Uuid, AttachmentBasis, basis_eq, basis_text, Scenario, UnderwritingStatus, underwriting_eq,
  BreakdownItem, CostBlock, UnderwritingResult, AssumptionSet, OfferPoint, OfferGrid,
}
use house_analysis_ai.Finance.{transfer_tax_rate}
use house_analysis_ai.Strategies.Costs.{
  holding_mult, round_5000, v_as_is, arv_at, costs_at, no_costs, checked_resale_pct,
  acquisition_cost, cash_mao, ratio, flip_margin, flip_mao, resale_flip_cost,
}
use house_analysis_ai.Strategies.Months.{months_base_from_costs}

abbrev pub missing_liabilities : String
missing_liabilities = "liability data is required to calculate seller proceeds"

-- An offer of the grid: its price, and the name of a maximum offer.
abbrev pub Entry : Type 0 → Type 0
Entry D = D × Option String

module _ {D : Type 0} ⦃py : Python D⦄ where
  open py use {dec, of_int, quantize, le}

  -- `_payoff_fees`
  unfoldable pub payoff_fees : UnderwritingResult D → D
  payoff_fees underwriting =
      if any (λ item. starts_with item.label "mortgage:") underwriting.liabilities.breakdown
      then dec 1200 0
      else zero_decimal

  abbrev pub attachment : AssumptionSet D → AttachmentBasis → D → D
  attachment a basis default' = elim (assoc basis a.attachment_probability) [
    | none ↦ default'
    | some probability ↦ probability
  ]

  -- the share of a line with no expected amount, by the text of its basis
  unfoldable pub share_by_basis : AssumptionSet D → BreakdownItem D → Option D
  share_by_basis a item =
      let clamped : AttachmentBasis → D =
        λ basis. min one_decimal (max zero_decimal (attachment a basis one_decimal)) in
      if item.basis == "undrawn_heloc_capacity"
      then some (
          quantize 2 (item.amount ⊗ attachment a AttachmentBasis.undrawn_heloc_capacity (dec 50 2)))
      else if item.basis == basis_text AttachmentBasis.owner_named_only
      then some (quantize 2 (item.amount ⊗ clamped AttachmentBasis.owner_named_only))
      else if item.basis == basis_text AttachmentBasis.unknown
      then some (quantize 2 (item.amount ⊗ clamped AttachmentBasis.unknown))
      else none

  -- the expected amount of a line, or else its share by the basis
  abbrev pub share_or : Option D → Option D → Option D
  share_or by_basis none = by_basis
  share_or by_basis (some expected_amount) = some (quantize 2 expected_amount)

  -- what a line adds to the weighted potential, if anything
  unfoldable pub expected_share : AssumptionSet D → BreakdownItem D → Option D
  expected_share a item = share_or (share_by_basis a item) item.expected_amount

  abbrev pub plus_share : D → Option D → D
  plus_share weighted none = weighted
  plus_share weighted (some share) = weighted ⊕ share

  -- a round of the loop of `_weighted_potential`
  unfoldable pub add_share : AssumptionSet D → D → BreakdownItem D → D
  add_share a weighted item = plus_share weighted (expected_share a item)

  unfoldable pub weighted_from : AssumptionSet D → D → List (BreakdownItem D) → D
  weighted_from a weighted [] = weighted
  weighted_from a weighted (item ∷ items) = weighted_from a (add_share a weighted item) items

  -- `_weighted_potential`
  unfoldable pub weighted_potential : UnderwritingResult D → AssumptionSet D → D
  weighted_potential underwriting a =
      weighted_from a zero_decimal underwriting.liabilities.breakdown

  abbrev pub cost_or_none : UnderwritingResult D → Scenario → CostBlock D
  cost_or_none underwriting scenario = elim (costs_at underwriting scenario) [
    | none ↦ no_costs
    | some cost ↦ cost
  ]

  -- `closing` of `offer_point`
  unfoldable pub closing_of : AssumptionSet D → D → D
  closing_of a offer = quantize 2 (
      offer ⊗ (a.acquisition.title_pct ⊕ transfer_tax_rate a.acquisition.transfer_tax_lookup_key)
      ⊕ a.acquisition.escrow_flat)

  -- the profit of an offer, where the scenario has a value
  unfoldable pub profit_of : AssumptionSet D → D → Option D → Result (Option D)
  profit_of a buyer_basis none = ok none
  profit_of a buyer_basis (some value) = do
    resale ← checked_resale_pct a
    ok (some (quantize 2 (value ⊗ (one_decimal ⊖ resale) ⊖ buyer_basis)))

  -- what the seller is left with, before the obligations that may attach
  unfoldable pub proceeds_high_of : UnderwritingResult D → AssumptionSet D → D → D → D
  proceeds_high_of underwriting a offer confirmed =
      quantize 2 (offer ⊖ quantize 2 (confirmed ⊕ payoff_fees underwriting) ⊖ closing_of a offer)

  abbrev pub point_of :
      UnderwritingResult D
      → AssumptionSet D
      → D
      → Scenario
      → Option String
      → D
      → D
      → D
      → Option D
      → OfferPoint D
  point_of underwriting a offer scenario label confirmed potential buyer_basis profit =
      let high = proceeds_high_of underwriting a offer confirmed in
      let low = quantize 2 (high ⊖ potential) in
      record {
        offer_price = offer;
        scenario = scenario;
        confirmed_payoffs = quantize 2 (confirmed ⊕ payoff_fees underwriting);
        potential_payoffs = potential;
        closing_costs = closing_of a offer;
        proceeds_low = low;
        proceeds_expected = quantize 2 (high ⊖ weighted_potential underwriting a);
        proceeds_high = high;
        buyer_basis = buyer_basis;
        profit = elim profit [ none ↦ zero_decimal | some p ↦ p ];
        roi = elim profit [ none ↦ none | some p ↦ ratio p buyer_basis ];
        is_short_sale = lt low zero_decimal;
        label = label;
      }

  -- `offer_point`
  unfoldable pub offer_point :
      UnderwritingResult D → AssumptionSet D → D → Scenario → Option String → Result (OfferPoint D)
  offer_point underwriting a offer scenario label = do
    raise_if (le offer zero_decimal) (value_error "offer must be greater than zero")
    confirmed ← or_raise underwriting.liabilities.confirmed (value_error missing_liabilities)
    potential ← or_raise underwriting.liabilities.potential (value_error missing_liabilities)
    acquisition ← acquisition_cost offer a
    let cost = cost_or_none underwriting scenario
    let buyer_basis = quantize 2 (offer ⊕ acquisition ⊕ cost.repairs ⊕ cost.holding)
    profit ← profit_of a buyer_basis (v_as_is underwriting scenario)
    ok (point_of underwriting a offer scenario label confirmed potential buyer_basis profit)

  -- the nine offers at 60 % to 100 % of the expected value
  abbrev grid_offers : D → List (Entry D)
  grid_offers v_exp =
      map (λ index. (round_5000 (v_exp ⊗ (dec 60 2 ⊕ of_int (pos index) ⊗ dec 5 2)), none))
        (0 ∷ 1 ∷ 2 ∷ 3 ∷ 4 ∷ 5 ∷ 6 ∷ 7 ∷ 8 ∷ [])

  abbrev marker : String → D → List (Entry D)
  marker label mao = if lt zero_decimal mao then (mao, some label) ∷ [] else []

  -- the maximum offer of a flip, where the value after repairs is known
  unfoldable pub flip_marker :
      AssumptionSet D → D → Scenario → CostBlock D → Option D → Result (List (Entry D))
  flip_marker a months_base scenario cost none = ok []
  flip_marker a months_base scenario cost (some arv) = do
    resale_flip ← resale_flip_cost arv a
    margin_target ← flip_margin a.strategy.flip_target_margin_by_arv_band arv
    mao ←
        flip_mao arv cost resale_flip margin_target a
          (quantize 4 (months_base ⊗ holding_mult scenario))
    ok (marker "mao_flip" mao)

  -- `sorted(entries, key=price)`, which keeps the order of equal prices
  unfoldable pub insert_entry : Entry D → List (Entry D) → List (Entry D)
  insert_entry e [] = e ∷ []
  insert_entry e (f ∷ fs) = if le e.0 f.0 then e ∷ f ∷ fs else f ∷ insert_entry e fs

  unfoldable pub sort_entries : List (Entry D) → List (Entry D)
  sort_entries [] = []
  sort_entries (e ∷ es) = insert_entry e (sort_entries es)

  abbrev pub point_at :
      UnderwritingResult D → AssumptionSet D → Scenario → Entry D → Result (OfferPoint D)
  point_at underwriting a scenario (offer, label) = offer_point underwriting a offer scenario label

  -- a round of the loop over the scenarios; a scenario without a value has no points
  unfoldable pub scenario_points :
      UnderwritingResult D
      → AssumptionSet D
      → List (Entry D)
      → D
      → Scenario
      → Option D
      → Result (List (OfferPoint D))
  scenario_points underwriting a offers months_base scenario none = ok []
  scenario_points underwriting a offers months_base scenario (some value) = do
    let cost = cost_or_none underwriting scenario
    mao ← cash_mao value cost a
    flips ← flip_marker a months_base scenario cost (arv_at underwriting scenario)
    each (point_at underwriting a scenario)
        (sort_entries (offers ++ (marker "mao_cash" mao ++ flips)))

  abbrev pub empty_grid : Uuid → OfferGrid D
  empty_grid property_id = record { property_id = property_id; points = []; interpolatable = true }

  -- the grid around an expected value
  unfoldable pub grid_around :
      (List D → List D) → UnderwritingResult D → Uuid → AssumptionSet D → D → Result (OfferGrid D)
  grid_around listed underwriting property_id a v_exp = do
    let offers = grid_offers v_exp
    let months_base = months_base_from_costs listed underwriting a
    let run = λ (scenario : Scenario).
        scenario_points underwriting a offers months_base scenario (v_as_is underwriting scenario)
    low ← run Scenario.conservative
    middle ← run Scenario.expected
    high ← run Scenario.optimistic
    ok (record { property_id = property_id; points = low ++ middle ++ high; interpolatable = true })

  abbrev pub has_liabilities : UnderwritingResult D → Bool
  has_liabilities underwriting =
      is_some underwriting.liabilities.confirmed && is_some underwriting.liabilities.potential

  -- `offer_grid`, which does not read its argument `center`
  unfoldable pub offer_grid :
      (List D → List D) → UnderwritingResult D → Uuid → AssumptionSet D → Result (OfferGrid D)
  offer_grid listed underwriting property_id a = elim underwriting.value.v_expected [
    | none ↦ ok (empty_grid property_id)
    | some v_exp ↦
        (if underwriting.status == UnderwritingStatus.ok && has_liabilities underwriting
          then grid_around listed underwriting property_id a v_exp
          else ok (empty_grid property_id))
  ]
