-- ===== src/Strategies/ShortSale.antt =====
-- `short_sale_flag_requests` of strategies/engine.py. The digest of the payload, SHA-256 of its
-- JSON, is the argument `digest`.
use house_analysis_ai.Prelude.{ℕ, List, [], ◌∷◌, map, String, length, keep, any, ◌==◌}
use house_analysis_ai.Python.{Python, max_of, min_of}
use house_analysis_ai.Contracts.{Uuid, Scenario, scenario_eq, FlagType, OfferPoint, OfferGrid}

-- The payload of the flag: its numbers and its scenarios. The two texts are constants, and `str`
-- of the amounts is left to the digest.
pub record ShortSalePayload (D : Type 0) : Type 0 where
  pub affected_offer_points : ℕ
  pub affected_scenarios : ℕ
  pub underwriting_scenario_count : ℕ
  pub scenarios : List Scenario
  pub offer_price_min : D
  pub offer_price_max : D
  pub proceeds_low_min : D
  pub proceeds_low_max : D

-- The `FlagRequest`, of type `short_sale_candidate` and raised by "strategies", whose dedupe key is
-- the property and the logical key.
pub record ShortSaleFlag (D : Type 0) : Type 0 where
  pub property_id : Uuid
  pub flag_type : FlagType
  pub payload : ShortSalePayload D
  pub financial_impact_usd : D
  pub logical_key : String
  pub fingerprint : String

module _ {D : Type 0} ⦃py : Python D⦄ where
  open py use {absolute}

  -- `sorted({point.scenario.value ...})`: the scenarios in the order of their texts
  abbrev pub scenarios_of : List (OfferPoint D) → List Scenario
  scenarios_of points =
      keep (λ s. any (λ point. point.scenario == s) points)
        (Scenario.conservative ∷ Scenario.expected ∷ Scenario.optimistic ∷ [])

  abbrev payload_of : OfferPoint D → List (OfferPoint D) → ShortSalePayload D
  payload_of point points =
      let affected = point ∷ points in
      let prices = map (λ p. p.offer_price) points in
      let proceeds = map (λ p. p.proceeds_low) points in
      record {
        affected_offer_points = length affected;
        affected_scenarios = length affected;
        underwriting_scenario_count = length (scenarios_of affected);
        scenarios = scenarios_of affected;
        offer_price_min = min_of point.offer_price prices;
        offer_price_max = max_of point.offer_price prices;
        proceeds_low_min = min_of point.proceeds_low proceeds;
        proceeds_low_max = max_of point.proceeds_low proceeds;
      }

  -- the flag of the points that are short sales
  unfoldable pub short_sale_flags :
      (ShortSalePayload D → String) → Uuid → List (OfferPoint D) → List (ShortSaleFlag D)
  short_sale_flags digest property_id [] = []
  short_sale_flags digest property_id (point ∷ points) =
      let payload = payload_of point points in
      record {
        property_id = property_id;
        flag_type = FlagType.short_sale_candidate;
        payload = payload;
        financial_impact_usd = absolute payload.proceeds_low_min;
        logical_key = "short_sale_candidate";
        fingerprint = digest payload;
      }
      ∷ []

  -- `short_sale_flag_requests`
  unfoldable pub short_sale_flag_requests :
      (ShortSalePayload D → String) → OfferGrid D → List (ShortSaleFlag D)
  short_sale_flag_requests digest grid =
      short_sale_flags digest grid.property_id (keep (λ point. point.is_short_sale) grid.points)
