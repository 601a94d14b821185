-- ===== src/Strategies/Grid.antt =====
-- The points of `offer_grid` of strategies/engine.py, and the flag for a short sale.
use house_analysis_ai.Prelude.{
  Bool, true, false, ◌&&◌, if◌then◌else◌, Option, none, some, List, [], ◌∷◌, keep, String, All,
  All-append, ◌≡◌, ◌↔◌, refl, arith, ok, each-All, Ensures, returns, Ensures-ok, Ensures-then,
  Ensures-bind, Ensures-if, Ensures-option, ◌==◌,
}
use house_analysis_ai.Python.{Python, ◌≼◌, zero_decimal, lt}
use house_analysis_ai.Python.Laws.{IsDecimal}
use house_analysis_ai.Contracts.{
  Uuid, Date, Scenario, UnderwritingStatus, underwriting_eq, NormalizedProperty, UnderwritingResult,
  AssumptionSet, OfferPoint, OfferGrid,
}
use house_analysis_ai.Finance.{underwrite}
use house_analysis_ai.Strategies.{
  Entry, offer_point, scenario_points, has_liabilities, grid_around, offer_grid, point_at,
  ShortSalePayload, short_sale_flags, short_sale_flag_requests,
}
use house_analysis_ai.Strategies.Steps.{IsOwed}
use house_analysis_ai.Strategies.Proceeds.{InOrder, offer_point-Ensures}

module _ {D : Type 0} ⦃py : Python D⦄ where
  open py use {le}

  scenario_points-All :
      (P : OfferPoint D → Type 0) (u : UnderwritingResult D) (a : AssumptionSet D)
      (offers : List (Entry D)) (months : D) (scenario : Scenario) (value : Option D)
      → ((offer : D) (label : Option String) → Ensures P (offer_point u a offer scenario label))
      → Ensures (All P) (scenario_points u a offers months scenario value)
  unfolding scenario_points
  scenario_points-All P u a offers months scenario none h = returns tt
  scenario_points-All P u a offers months scenario (some value) h = Ensures-then _ _ λ mao.
      Ensures-then _ _ λ flips. each-All P (point_at u a scenario) _ λ entry. h entry.0 entry.1

  -- What every offer's point ensures, all points of the grid have.
  offer_grid-All :
      (P : OfferPoint D → Type 0) (listed : List D → List D) (u : UnderwritingResult D) (id : Uuid)
      (a : AssumptionSet D)
      → ((offer : D) (scenario : Scenario) (label : Option String)
          → Ensures P (offer_point u a offer scenario label))
      → Ensures (λ g. All P g.points) (offer_grid listed u id a)
  unfolding offer_grid grid_around
  offer_grid-All P listed u id a h = Ensures-option u.value.v_expected _ _ (returns tt) λ v_exp e.
      Ensures-if (u.status == UnderwritingStatus.ok && has_liabilities u) _ _
        (λ k.
          Ensures-bind _ (scenario_points-All P u a _ _ Scenario.conservative _ (λ o l. h o _ l))
            λ low p.
              Ensures-bind _ (scenario_points-All P u a _ _ Scenario.expected _ (λ o l. h o _ l))
                λ middle q.
                  Ensures-bind _
                    (scenario_points-All P u a _ _ Scenario.optimistic _ (λ o l. h o _ l))
                    λ high s. returns (All-append P _ high (All-append P low middle p q) s))
        λ k. returns tt

  -- A point is marked exactly where its low proceeds are negative.
  abbrev IsMarked : OfferPoint D → Type 0
  IsMarked p = p.is_short_sale ≡ lt p.proceeds_low zero_decimal

  offer_point-IsMarked :
      (u : UnderwritingResult D) (a : AssumptionSet D) (offer : D) (scenario : Scenario)
      (label : Option String)
      → Ensures IsMarked (offer_point u a offer scenario label)
  unfolding offer_point
  offer_point-IsMarked u a offer scenario label = Ensures-then _ _ λ t.
      Ensures-then _ _ λ confirmed.
        Ensures-then _ _
          λ potential. Ensures-then _ _ λ acquisition. Ensures-then _ _ λ profit. returns refl

  -- The offers of the points that cover every obligation.
  abbrev pub Covers : OfferPoint D → Type 0
  Covers p = zero_decimal ≼ p.proceeds_low

  uncovered :
      (digest : ShortSalePayload D → String) (id : Uuid) (p : OfferPoint D)
      (rest : List (OfferPoint D)) (b : Bool) (low : D)
      → b ≡ lt low zero_decimal
      → short_sale_flags digest id (if b then p ∷ rest else rest) ≡ []
      → (zero_decimal ≼ low) × (short_sale_flags digest id rest ≡ [])
  unfolding short_sale_flags
  uncovered digest id p rest true low h e = cc
  uncovered digest id p rest false low h e = (ground arith, e)

  covered :
      (digest : ShortSalePayload D → String) (id : Uuid) (p : OfferPoint D)
      (rest : List (OfferPoint D)) (b : Bool) (low : D)
      → b ≡ lt low zero_decimal
      → zero_decimal ≼ low
      → short_sale_flags digest id rest ≡ []
      → short_sale_flags digest id (if b then p ∷ rest else rest) ≡ []
  covered digest id p rest true low h k e = ground arith
  covered digest id p rest false low h k e = e

  flags-Covers :
      (digest : ShortSalePayload D → String) (id : Uuid) (points : List (OfferPoint D))
      → All IsMarked points
      → short_sale_flags digest id (keep (λ p. p.is_short_sale) points) ≡ []
      → All Covers points
  flags-Covers digest id [] h e = tt
  flags-Covers digest id (p ∷ ps) h e =
      let (low, rest) = uncovered digest id p _ p.is_short_sale p.proceeds_low h.0 e in
      (low, flags-Covers digest id ps h.1 rest)

  Covers-flags :
      (digest : ShortSalePayload D → String) (id : Uuid) (points : List (OfferPoint D))
      → All IsMarked points
      → All Covers points
      → short_sale_flags digest id (keep (λ p. p.is_short_sale) points) ≡ []
  unfolding short_sale_flags
  Covers-flags digest id [] h c = refl
  Covers-flags digest id (p ∷ ps) h c =
      covered digest id p _ p.is_short_sale p.proceeds_low h.0 c.0
        (Covers-flags digest id ps h.1 c.1)

  -- Of a grid of offers that returns, a short sale is flagged unless every point of the grid leaves
  -- the seller, after all confirmed and potential obligations, with at least zero; then none is.
  pub short_sale_empty :
      (digest : ShortSalePayload D → String) (listed : List D → List D) (u : UnderwritingResult D)
      (id : Uuid) (a : AssumptionSet D) {grid : OfferGrid D}
      → offer_grid listed u id a ≡ ok grid
      → (short_sale_flag_requests digest grid ≡ []) ↔ All Covers grid.points
  unfolding short_sale_flag_requests
  short_sale_empty digest listed u id a {grid} e =
      let marked =
        Ensures-ok (offer_grid-All IsMarked listed u id a (offer_point-IsMarked u a)) e in
      (
        flags-Covers digest grid.property_id grid.points marked,
        Covers-flags digest grid.property_id grid.points marked,
      )

module _ {D : Type 0} ⦃py : Python D⦄ (laws : IsDecimal D) where
  -- At an underwriting of a property whose reported lien amounts are not negative, every point of
  -- the grid of offers has its proceeds in order: the low ones, with every potential obligation
  -- deducted, are at most the expected ones, and these at most the high ones.
  pub offer_grid-InOrder :
      (r : NormalizedProperty D) (a : AssumptionSet D) (as_of : Option Date)
      (listed : List D → List D) (id : Uuid) {u : UnderwritingResult D} {grid : OfferGrid D}
      → underwrite r a as_of ≡ ok u
      → All IsOwed r.liens
      → offer_grid listed u id a ≡ ok grid
      → All InOrder grid.points
  offer_grid-InOrder r a as_of listed id {u} e h k =
      Ensures-ok
        (offer_grid-All InOrder listed u id a
          λ offer scenario label. offer_point-Ensures laws r a as_of offer scenario label e h)
        k
