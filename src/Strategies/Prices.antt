-- ===== src/Strategies/Prices.antt =====
-- How `cash` and `wholesale` of strategies/engine.py depend on the price.
use house_analysis_ai.Prelude.{
  Bool, true, false, ◌&&◌, ◌||◌, if◌then◌else◌, Option, none, some, List, [], ◌∷◌, any, All, ◌≡◌,
  refl, subst, arith, Result, ok, Ensures, returns, Ensures-ok, Ensures-raise_if, bind-ok, ok-bind,
  String,
}
use house_analysis_ai.Python.{Python, ◌≼◌, ◌⊖◌, ◌⊗◌, zero_decimal, one_decimal, lt, sum}
use house_analysis_ai.Python.Laws.{IsDecimal}
use house_analysis_ai.Python.Order
use house_analysis_ai.Contracts.{
  Scenario, StrategyType, StrategyStatus, CostBlock, UnderwritingResult, StrategyResult,
  AssumptionSet,
}
use house_analysis_ai.Strategies.{
  is_below_zero, checked_total, checked_acquisition_pct, v_as_is, arv_at, costs_at, dcs_or,
  viable_if, unavailable_result, cash_all_in, cash_profit, cash_at, cash_from, cash, wholesale_at,
  wholesale_from, wholesale,
}

viable_if-true : (b : Bool) → viable_if b ≡ StrategyStatus.viable → b ≡ true
viable_if-true true h = refl
viable_if-true false h = cc

module _ {D : Type 0} ⦃py : Python D⦄ where
  -- A call that returns a viable result.
  abbrev pub IsViable : Result (StrategyResult D) → Type 0
  IsViable r = (x : StrategyResult D) × (r ≡ ok x) × (x.status ≡ StrategyStatus.viable)

module _ {D : Type 0} ⦃py : Python D⦄ (laws : IsDecimal D) where
  open py use {le, quantize}
  open laws use {le_trans, plus_mono, minus_mono, times_mono, quantize_mono}

  zero-le-All : (xs : List D) → any is_below_zero xs ≡ false → All (λ x. zero_decimal ≼ x) xs
  zero-le-All [] h = tt
  zero-le-All (x ∷ xs) h = ground (arith, zero-le-All xs)

  pub zero-le-checked_total :
      (xs : List D) (message : String) → Ensures (λ x. zero_decimal ≼ x) (checked_total xs message)
  unfolding checked_total
  zero-le-checked_total xs message =
      Ensures-raise_if (any is_below_zero xs || le one_decimal (sum xs)) _ _ λ h. returns (
        Order.zero-le-sum_from laws zero_decimal xs (Order.le_refl laws zero_decimal)
          (zero-le-All xs (ground arith)))

  zero-le-acquisition_pct :
      (a : AssumptionSet D) → Ensures (λ x. zero_decimal ≼ x) (checked_acquisition_pct a)
  unfolding checked_acquisition_pct
  zero-le-acquisition_pct a = zero-le-checked_total _ _

  cash_all_in_mono :
      (cost : CostBlock D) (pct flat low high : D)
      → zero_decimal ≼ pct
      → zero_decimal ≼ low
      → low ≼ high
      → cash_all_in cost pct flat low ≼ cash_all_in cost pct flat high
  unfolding cash_all_in
  cash_all_in_mono cost pct flat low high p h k =
      let same = Order.le_refl laws in
      quantize_mono 2 _ _ (
        plus_mono _ _ _ _
          (plus_mono _ _ _ _
            (plus_mono _ _ _ _ k (
              quantize_mono 2 _ _
                (plus_mono _ _ _ _ (times_mono _ _ _ _ h k p (same pct)) (same flat))))
            (same cost.repairs))
          (same cost.holding))

  cash_profit_antitone :
      (value resale low high : D)
      → low ≼ high
      → cash_profit value resale high ≼ cash_profit value resale low
  unfolding cash_profit
  cash_profit_antitone value resale low high h =
      quantize_mono 2 _ _ (minus_mono _ _ _ _ (Order.le_refl laws _) h)

  cash_at-lower :
      (a : AssumptionSet D) (low high : D) (scenario : Scenario) (value : D) (cost : CostBlock D)
      → zero_decimal ≼ low
      → low ≼ high
      → IsViable (cash_at a high scenario value cost)
      → IsViable (cash_at a low scenario value cost)
  unfolding cash_at
  cash_at-lower a low high scenario value cost h k (x, e, viable) =
      let (pct, e1, k1) = bind-ok _ _ e in
      let (flat, e2, k2) = bind-ok _ _ k1 in
      let (resale, e3, k3) = bind-ok _ _ k2 in
      let (mao, e4, k4) = bind-ok _ _ k3 in
      let positive : zero_decimal ≼ cash_profit value resale (cash_all_in cost pct flat high) =
        viable_if-true _ (cc) in
      let better = le_trans _ _ _ positive (
        cash_profit_antitone value resale _ _ (
          cash_all_in_mono cost pct flat low high (Ensures-ok (zero-le-acquisition_pct a) e1) h
            k)) in
      (_, ok-bind _ e1 (ok-bind _ e2 (ok-bind _ e3 (ok-bind _ e4 refl))), rw better refl)

  -- An unavailable result is not viable.
  unavailable-fails :
      (strategy : StrategyType) (scenario : Scenario) (reason : String) (price : D)
      → IsViable (ok (unavailable_result strategy scenario reason price))
      → ⊥
  unfolding unavailable_result
  unavailable-fails strategy scenario reason price (x, e, viable) = cc

  cash_from-lower :
      (a : AssumptionSet D) (low high : D) (scenario : Scenario) (v : Option D)
      (c : Option (CostBlock D))
      → lt zero_decimal low ≡ true
      → low ≼ high
      → IsViable (cash_from a high scenario v c)
      → IsViable (cash_from a low scenario v c)
  unfolding cash_from
  cash_from-lower a low high scenario (some value) (some cost) h k v =
      let positive : le high zero_decimal ≡ false =
        ground (arith, le_trans low high zero_decimal) in
      let below : le low zero_decimal ≡ false = ground arith in
      rw below (
        cash_at-lower a low high scenario value cost (Order.lt→le laws zero_decimal low h) k (
          subst
            (λ b. IsViable (
              if b
              then ok (unavailable_result StrategyType.cash scenario "invalid_purchase_price" high)
              else cash_at a high scenario value cost))
            positive v))
  cash_from-lower a low high scenario (some value) none h k v = absurd (unavailable-fails _ _ _ _ v)
  cash_from-lower a low high scenario none c h k v = absurd (unavailable-fails _ _ _ _ v)

  -- Where a cash purchase is viable at a price, it returns and is viable at every positive price
  -- that is not above it.
  pub cash-IsViable_lower :
      (u : UnderwritingResult D) (a : AssumptionSet D) (low high : D) (scenario : Scenario)
      → lt zero_decimal low ≡ true
      → low ≼ high
      → IsViable (cash u a high scenario)
      → IsViable (cash u a low scenario)
  unfolding cash
  cash-IsViable_lower u a low high scenario h k v =
      cash_from-lower a low high scenario (v_as_is u scenario) (costs_at u scenario) h k v

  spread_antitone :
      (threshold low high least : D)
      → low ≼ high
      → least ≼ quantize 2 (threshold ⊖ high)
      → least ≼ quantize 2 (threshold ⊖ low)
  spread_antitone threshold low high least k h =
      le_trans _ _ _ h (quantize_mono 2 _ _ (minus_mono _ _ _ _ (Order.le_refl laws threshold) k))

  both-viable :
      (b c b' : Bool)
      → viable_if (b && c) ≡ StrategyStatus.viable
      → (b ≡ true → b' ≡ true)
      → viable_if (b' && c) ≡ StrategyStatus.viable
  both-viable true true b' h k = rw (k refl) refl
  both-viable true false b' h k = cc
  both-viable false c b' h k = cc

  wholesale_at-lower :
      (a : AssumptionSet D) (low high : D) (scenario : Scenario) (dcs wholesale_min arv : D)
      (cost : CostBlock D)
      → low ≼ high
      → IsViable (wholesale_at a high scenario dcs wholesale_min arv cost)
      → IsViable (wholesale_at a low scenario dcs wholesale_min arv cost)
  unfolding wholesale_at
  wholesale_at-lower a low high scenario dcs wholesale_min arv cost k (x, e, viable) =
      let (t, e1, k1) = bind-ok _ _ e in
      let threshold = quantize 2 (arv ⊗ a.strategy.wholesale_investor_pct ⊖ cost.repairs) in
      let least = a.strategy.min_assignment_spread in
      (
        _,
        ok-bind _ e1 refl,
        both-viable (le least (quantize 2 (threshold ⊖ high))) (le wholesale_min dcs) _ (cc)
            (spread_antitone threshold low high least k),
      )

  wholesale_from-lower :
      (a : AssumptionSet D) (low high : D) (scenario : Scenario) (dcs wholesale_min : D)
      (has_value : Bool) (v : Option D) (c : Option (CostBlock D))
      → lt zero_decimal low ≡ true
      → low ≼ high
      → IsViable (wholesale_from a high scenario dcs wholesale_min has_value v c)
      → IsViable (wholesale_from a low scenario dcs wholesale_min has_value v c)
  unfolding wholesale_from
  wholesale_from-lower a low high scenario dcs wholesale_min has_value (some arv) (some cost) h k
        v =
      let positive : le high zero_decimal ≡ false =
        ground (arith, le_trans low high zero_decimal) in
      let below : le low zero_decimal ≡ false = ground arith in
      rw below (
        wholesale_at-lower a low high scenario dcs wholesale_min arv cost k (
          subst
            (λ b. IsViable (
              if b
              then ok
                  (unavailable_result StrategyType.wholesale scenario "invalid_purchase_price" high)
              else wholesale_at a high scenario dcs wholesale_min arv cost))
            positive v))
  wholesale_from-lower a low high scenario dcs wholesale_min has_value (some arv) none h k v =
      absurd (unavailable-fails _ _ _ _ v)
  wholesale_from-lower a low high scenario dcs wholesale_min has_value none c h k v =
      absurd (unavailable-fails _ _ _ _ v)

  -- Where a wholesale is viable at a contract price, it returns and is viable at every positive
  -- price that is not above it.
  pub wholesale-IsViable_lower :
      (u : UnderwritingResult D) (a : AssumptionSet D) (low high : D) (scenario : Scenario)
      (data_confidence : Option D) (wholesale_min : D)
      → lt zero_decimal low ≡ true
      → low ≼ high
      → IsViable (wholesale u a high scenario data_confidence wholesale_min)
      → IsViable (wholesale u a low scenario data_confidence wholesale_min)
  unfolding wholesale
  wholesale-IsViable_lower u a low high scenario given wholesale_min h k v =
      wholesale_from-lower a low high scenario (dcs_or u given) wholesale_min _ (arv_at u scenario)
        (costs_at u scenario) h k v
