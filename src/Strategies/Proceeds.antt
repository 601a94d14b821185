-- ===== src/Strategies/Proceeds.antt =====
-- The expected proceeds of `offer_point` of strategies/engine.py at an underwriting of
-- finance/engine.py.
use house_analysis_ai.Prelude.{
  Bool, true, false, not, ◌&&◌, Option, some, List, [], ◌∷◌, foldl, foldl-keeps, map, collect-All,
  All, All-always, is_some, ◌≡◌, refl, subst, sym, Option-elim_keeps, if_keeps, ok, Ensures,
  returns, Ensures-ok, Ensures-then, Ensures-bind, Ensures-raise_if, or_raise-Ensures, String,
}
use house_analysis_ai.Python.{Python, ◌≼◌, ◌⊖◌, zero_decimal, nonzero, lt, sum}
use house_analysis_ai.Python.Laws.{IsDecimal}
use house_analysis_ai.Python.Order
use house_analysis_ai.Contracts.{
  Date, Scenario, NormalizedProperty, MortgageRecord, LiabilityBlock, UnderwritingResult,
  AssumptionSet, OfferPoint,
}
use house_analysis_ai.Finance.{
  Sums, money_or_zero, value_of, is_heloc, any_below_zero, mortgage_balance, reference_of,
  published_bid, unknown_limit, add_group, add_lien, no_sums, total_sums, sort_groups, group_open,
  liabilities, validate_assumptions, insufficient, sufficient, underwrite_from, underwrite_valid,
  underwrite, weight_of,
}
use house_analysis_ai.Finance.Rounded
use house_analysis_ai.Finance.Rounded.{IsRounded}
use house_analysis_ai.Strategies.{weighted_from, weighted_potential, proceeds_high_of, offer_point}
use house_analysis_ai.Strategies.Deductions.{Deducts}
use house_analysis_ai.Strategies.Steps.{
  IsOwed, add_evaluated-Deducts, add_bid-Deducts, add_reported-Deducts, add_lien-Deducts,
}

module _ {D : Type 0} ⦃py : Python D⦄ where
  -- The proceeds of an offer: the low ones, the expected ones, the high ones.
  abbrev pub InOrder : OfferPoint D → Type 0
  InOrder p = (p.proceeds_low ≼ p.proceeds_expected) × (p.proceeds_expected ≼ p.proceeds_high)

module _ {D : Type 0} ⦃py : Python D⦄ (laws : IsDecimal D) where
  open py use {quantize}
  open laws use {le_trans, minus_mono, quantize_mono, quantize_again, quantize-minus-zero}

  zero-le-unknown_limit :
      (as_of : Option Date) (m : MortgageRecord D) (l : D)
      → unknown_limit as_of m ≡ some l
      → zero_decimal ≼ l
  zero-le-unknown_limit as_of m =
      if_keeps Positive (is_heloc m && not (is_some (mortgage_balance m as_of))) _ _
        (λ h.
          Option-elim_keeps Positive (value_of m.original_amount) _ _ (λ l e. cc)
            λ limit k.
              if_keeps Positive (lt zero_decimal limit) _ _
                (λ h l e.
                  Order.lt→le laws zero_decimal l
                    (subst {A = D} (λ x. lt zero_decimal x ≡ true) (cc) h))
                λ h l e. cc)
        λ h l e. cc
    where
      Positive : Option D → Type 0
      Positive o = (l : D) → o ≡ some l → zero_decimal ≼ l

  no_sums-Deducts : (a : AssumptionSet D) → Deducts a (no_sums {D = D})
  unfolding weighted_from
  no_sums-Deducts a = record {
    zero-le = Order.le_refl laws _;
    finance-le = Order.le_refl laws _;
    weighted-le = Order.le_refl laws _;
    weighted-IsRounded = Rounded.zero-IsRounded laws;
    potential-IsRounded = Rounded.zero-IsRounded laws;
  }

  add_group-Deducts :
      (a : AssumptionSet D) (as_of : Option Date) (bid : Option D) (sums : Sums D)
      (group : String × List (MortgageRecord D))
      → Deducts a sums
      → Deducts a (add_group a as_of bid sums group)
  add_group-Deducts a as_of bid sums (position, group) d =
      add_evaluated-Deducts laws a bid position _ _ sums
        (collect-All (λ l. zero_decimal ≼ l) (unknown_limit as_of) group
          (zero-le-unknown_limit as_of))
        d

  total_sums-Deducts :
      (r : NormalizedProperty D) (a : AssumptionSet D) (as_of : Option Date)
      → any_below_zero a.unknown_lien_medians ≡ false
      → All IsOwed r.liens
      → Deducts a (total_sums r a as_of)
  unfolding total_sums
  total_sums-Deducts r a as_of m h =
      let bid = published_bid r in
      let groups = sort_groups (group_open [] r.mortgages) in
      let mortgages : Deducts a (foldl (add_group a as_of bid) no_sums groups) =
        foldl-keeps (Deducts a) (λ g. Unit) (add_group a as_of bid) no_sums groups
          (λ s g t d. add_group-Deducts a as_of bid s g d) (All-always (λ g. tt) groups)
          (no_sums-Deducts a) in
      add_reported-Deducts laws a _ _ _ (
        add_reported-Deducts laws a _ _ _ (
          foldl-keeps (Deducts a) IsOwed (add_lien a) _ r.liens
            (λ s l o d. add_lien-Deducts laws a s l m o d) h
            (add_bid-Deducts laws a bid r.mortgages _ mortgages)))

  -- The block of the obligations against the offers' deduction from its breakdown.
  liabilities-Deducts :
      (r : NormalizedProperty D) (a : AssumptionSet D) (as_of : Option Date)
      → any_below_zero a.unknown_lien_medians ≡ false
      → All IsOwed r.liens
      → (p : D) × ((liabilities r a as_of).0.potential ≡ some p)
        × (zero_decimal ≼ weighted_from a zero_decimal (liabilities r a as_of).0.breakdown)
        × (weighted_from a zero_decimal (liabilities r a as_of).0.breakdown ≼ p)
        × ((liabilities r a as_of).1
            ≼ weighted_from a zero_decimal (liabilities r a as_of).0.breakdown)
  unfolding liabilities
  liabilities-Deducts r a as_of m h =
      let d = total_sums-Deducts r a as_of m h in
      let sums = total_sums r a as_of in
      (
        money_or_zero sums.potential,
        refl,
        d.zero-le,
        le_trans _ _ _ d.weighted-le (
            le_trans _ _ _ d.potential-IsRounded.le-quantize
              (Rounded.le-money_or_zero laws sums.potential)),
        le_trans _ _ _ (Rounded.money_or_zero-le laws sums.potential_weighted)
            (le_trans _ _ _ (quantize_mono 2 _ _ d.finance-le) d.weighted-IsRounded.quantize-le),
      )

  validated-medians :
      (a : AssumptionSet D)
      → Ensures (λ t. any_below_zero a.unknown_lien_medians ≡ false) (validate_assumptions a)
  unfolding validate_assumptions
  validated-medians a = Ensures-then _ _ λ t. Ensures-then _ _ λ t. Ensures-then _ _ λ t.
      Ensures-then _ _ λ t. Ensures-then _ _ λ t. Ensures-then _ _ λ t.
        Ensures-raise_if (any_below_zero a.unknown_lien_medians) _ _
          λ h. Ensures-then _ _ λ t. returns h

  underwrite_from-liabilities :
      (r : NormalizedProperty D) (a : AssumptionSet D) (owed : LiabilityBlock D × D) (debt : Bool)
      (cs : List (String × D × D))
      → (underwrite_from r a owed debt cs).liabilities ≡ owed.0
  unfolding underwrite_from sufficient insufficient
  underwrite_from-liabilities r a owed debt [] = refl
  underwrite_from-liabilities r a owed debt (c ∷ cs) =
      if_keeps {B = UnderwritingResult D} (λ u. u.liabilities ≡ owed.0)
        (nonzero (sum (map weight_of (c ∷ cs)))) _ _ (λ h. refl) λ h. refl

  -- The obligations of an underwriting, which were validated.
  underwrite-liabilities :
      (r : NormalizedProperty D) (a : AssumptionSet D) (as_of : Option Date)
      → Ensures
          (λ u.
            (u.liabilities ≡ (liabilities r a (reference_of r as_of)).0)
            × (any_below_zero a.unknown_lien_medians ≡ false))
          (underwrite r a as_of)
  unfolding underwrite underwrite_valid
  underwrite-liabilities r a as_of =
      Ensures-bind _ (validated-medians a) λ t h. returns (underwrite_from-liabilities r a _ _ _, h)

  -- What is deducted from an offer at the underwriting u for the obligations that may attach.
  pub weighted_potential_bounds :
      (r : NormalizedProperty D) (a : AssumptionSet D) (as_of : Option Date)
      {u : UnderwritingResult D}
      → underwrite r a as_of ≡ ok u
      → All IsOwed r.liens
      → (p : D) × (u.liabilities.potential ≡ some p)
        × (zero_decimal ≼ weighted_potential u a)
        × (weighted_potential u a ≼ p)
        × ((liabilities r a (reference_of r as_of)).1 ≼ weighted_potential u a)
  unfolding weighted_potential
  weighted_potential_bounds r a as_of e h =
      let (same, m) = Ensures-ok (underwrite-liabilities r a as_of) e in
      subst
        (λ b.
          (p : D) × (b.potential ≡ some p)
          × (zero_decimal ≼ weighted_from a zero_decimal b.breakdown)
          × (weighted_from a zero_decimal b.breakdown ≼ p)
          × ((liabilities r a (reference_of r as_of)).1 ≼ weighted_from a zero_decimal b.breakdown))
        (sym same) (liabilities-Deducts r a (reference_of r as_of) m h)

  -- A number in cents, less what is not negative, is at most itself in cents.
  less-le : (x w : D) → zero_decimal ≼ w → quantize 2 (quantize 2 x ⊖ w) ≼ quantize 2 x
  less-le x w h =
      le_trans _ _ _
        (quantize_mono 2 _ _ (
          le_trans _ _ _ (minus_mono _ _ w zero_decimal (Order.le_refl laws _) h)
            (quantize-minus-zero 2 x)))
        (quantize_again 2 x)

  proceeds_order :
      (u : UnderwritingResult D) (a : AssumptionSet D) (offer confirmed potential : D)
      → zero_decimal ≼ weighted_potential u a
      → weighted_potential u a ≼ potential
      → let high = proceeds_high_of u a offer confirmed in
        let expected = quantize 2 (high ⊖ weighted_potential u a) in
        (quantize 2 (high ⊖ potential) ≼ expected) × (expected ≼ high)
  unfolding proceeds_high_of
  proceeds_order u a offer confirmed potential h k =
      (quantize_mono 2 _ _ (minus_mono _ _ _ _ (Order.le_refl laws _) k), less-le _ _ h)

  -- Every point of an offer at an underwriting has its proceeds in order.
  pub offer_point-Ensures :
      (r : NormalizedProperty D) (a : AssumptionSet D) (as_of : Option Date)
      {u : UnderwritingResult D} (offer : D) (scenario : Scenario) (label : Option String)
      → underwrite r a as_of ≡ ok u
      → All IsOwed r.liens
      → Ensures InOrder (offer_point u a offer scenario label)
  unfolding offer_point
  offer_point-Ensures r a as_of {u} offer scenario label e h =
      let (potential, same, low, high, _) = weighted_potential_bounds r a as_of e h in
      Ensures-then _ _ λ t. Ensures-then _ _ λ confirmed.
        Ensures-bind _ (or_raise-Ensures u.liabilities.potential _) λ given k.
          Ensures-then _ _ λ acquisition. Ensures-then _ _ λ profit. returns (
            proceeds_order u a offer confirmed given low
              (subst (λ x. weighted_potential u a ≼ x) (cc) high))
