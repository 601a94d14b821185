-- ===== src/Strategies/Outcomes.antt =====
-- What a result of each strategy of strategies/engine.py promises.
use house_analysis_ai.Prelude.{
  Bool, true, false, not, ◌&&◌, ◌||◌, Option, none, some, is_some, List, ◌≡◌, refl, arith, ok,
  Ensures, returns, Ensures-then, Ensures-raise_if, Ensures-if, Ensures-option, String,
}
use house_analysis_ai.Python.{Python, ◌≼◌, zero_decimal, lt}
use house_analysis_ai.Python.Laws.{IsDecimal}
use house_analysis_ai.Python.Order
use house_analysis_ai.Contracts.{
  Date, Scenario, StrategyType, StrategyStatus, NormalizedProperty, CostBlock, ForeclosureState,
  UnderwritingResult, StrategyResult, AssumptionSet,
}
use house_analysis_ai.Finance.{value_of}
use house_analysis_ai.Strategies.{
  v_as_is, arv_at, costs_at, unavailable_result, viable_if, cash_at, cash_from, cash, cash_result,
  flip_at, flip, flip_result, wholesale_at, wholesale_from, wholesale, wholesale_result, rental_at,
  rental, rental_result, rental_or_invalid, Leverage, subject_to, foreclosure_at, foreclosure,
  foreclosure_result, is_foreclosing, outside_closed_unit, is_below_zero, RiskFlag,
}

module _ {D : Type 0} ⦃py : Python D⦄ where
  open py use {le}

  -- A result with its strategy and its scenario: it is not viable, or its profit is not negative
  -- and the gate of the strategy stood open.
  pub data Outcome (gate : Type 0) (strategy : StrategyType) (scenario : Scenario)
      (r : StrategyResult D) : Type 0 where
    fails :
        r.strategy ≡ strategy
        → r.scenario ≡ scenario
        → (r.status ≡ StrategyStatus.viable → ⊥)
        → Outcome gate strategy scenario r
    pays :
        r.strategy ≡ strategy
        → r.scenario ≡ scenario
        → (p : D) → r.profit ≡ some p
        → zero_decimal ≼ p
        → gate
        → Outcome gate strategy scenario r

  unavailable-fails :
      (gate : Type 0) (strategy : StrategyType) (scenario : Scenario) (reason : String) (price : D)
      → Outcome gate strategy scenario (unavailable_result strategy scenario reason price)
  unfolding unavailable_result
  unavailable-fails gate strategy scenario reason price = fails refl refl (λ e. cc)

  -- An unavailable result, as the result of a call.
  misses :
      (gate : Type 0) (strategy : StrategyType) (scenario : Scenario) (reason : String) (price : D)
      → Ensures
          (Outcome gate strategy scenario)
          (ok (unavailable_result strategy scenario reason price))
  misses gate strategy scenario reason price =
      returns (unavailable-fails gate strategy scenario reason price)

  viable_if-Outcome :
      {gate : Type 0} (b : Bool) (r : StrategyResult D) (p : D)
      → r.status ≡ viable_if b
      → r.profit ≡ some p
      → (b ≡ true → (zero_decimal ≼ p) × gate)
      → Outcome gate r.strategy r.scenario r
  viable_if-Outcome true r p e profit h = pays refl refl p profit (h refl).0 (h refl).1
  viable_if-Outcome false r p e profit h = fails refl refl (λ k. cc)

  cash_at-Outcome :
      (a : AssumptionSet D) (price : D) (scenario : Scenario) (value : D) (cost : CostBlock D)
      → Ensures (Outcome Unit StrategyType.cash scenario) (cash_at a price scenario value cost)
  unfolding cash_at
  cash_at-Outcome a price scenario value cost = Ensures-then _ _ λ pct. Ensures-then _ _ λ flat.
      Ensures-then _ _ λ resale. Ensures-then _ _ λ mao. returns (
        viable_if-Outcome _ (cash_result value price _ _ mao scenario) _ refl refl
          λ viable. (viable, tt))

  cash_from-Outcome :
      (a : AssumptionSet D) (price : D) (scenario : Scenario) (v : Option D)
      (c : Option (CostBlock D))
      → Ensures (Outcome Unit StrategyType.cash scenario) (cash_from a price scenario v c)
  unfolding cash_from
  cash_from-Outcome a price scenario (some value) (some cost) =
      Ensures-if (le price zero_decimal) _ _ (λ h. misses _ _ _ _ _)
        λ h. cash_at-Outcome a price scenario value cost
  cash_from-Outcome a price scenario (some value) none = misses _ _ _ _ _
  cash_from-Outcome a price scenario none c = misses _ _ _ _ _

  pub cash-Outcome :
      (u : UnderwritingResult D) (a : AssumptionSet D) (price : D) (scenario : Scenario)
      → Ensures (Outcome Unit StrategyType.cash scenario) (cash u a price scenario)
  unfolding cash
  cash-Outcome u a price scenario =
      cash_from-Outcome a price scenario (v_as_is u scenario) (costs_at u scenario)

  flip_at-Outcome :
      (r : NormalizedProperty D) (a : AssumptionSet D) (price : D) (scenario : Scenario) (arv : D)
      (cost : CostBlock D)
      → Ensures (Outcome Unit StrategyType.flip scenario) (flip_at r a price scenario arv cost)
  unfolding flip_at
  flip_at-Outcome r a price scenario arv cost = Ensures-then _ _ λ terms. Ensures-then _ _ λ resale.
      Ensures-then _ _ λ acquisition. Ensures-then _ _ λ margin. Ensures-then _ _ λ mao. returns (
        viable_if-Outcome _ (flip_result arv price _ mao scenario) _ refl refl
          λ viable. (viable, tt))

  pub flip-Outcome :
      (r : NormalizedProperty D) (u : UnderwritingResult D) (a : AssumptionSet D) (price : D)
      (scenario : Scenario)
      → Ensures (Outcome Unit StrategyType.flip scenario) (flip r u a price scenario)
  unfolding flip
  flip-Outcome r u a price scenario =
      Ensures-option (costs_at u scenario) _ _ (misses _ _ _ _ _) λ cost k.
        Ensures-if (not (is_some (v_as_is u scenario))) _ _ (λ h. misses _ _ _ _ _)
          λ h.
            Ensures-if (le price zero_decimal) _ _ (λ h. misses _ _ _ _ _)
              λ h. Ensures-option (arv_at u scenario) _ _ (misses _ _ _ _ _) λ arv e.
                Ensures-if (is_some (value_of r.attributes.sqft)) _ _
                  (λ h. flip_at-Outcome r a price scenario arv cost) λ h. misses _ _ _ _ _

  rental_or_invalid-Outcome :
      (price egi opex noi : D) (leverage : Option (Leverage D)) (scenario : Scenario)
      → Outcome
          (Unit {0})
          StrategyType.rental
          scenario
          (rental_or_invalid price egi opex noi leverage scenario)
  unfolding rental_or_invalid
  rental_or_invalid-Outcome price egi opex noi none scenario = unavailable-fails _ _ _ _ _
  rental_or_invalid-Outcome price egi opex noi (some leverage) scenario =
      viable_if-Outcome _ (rental_result price egi opex noi leverage scenario) _ refl refl
        λ viable. (viable, tt)

  rental_at-Outcome :
      (r : NormalizedProperty D) (a : AssumptionSet D) (price : D) (scenario : Scenario)
      (rent value : D) (cost : CostBlock D)
      → Ensures
          (Outcome Unit StrategyType.rental scenario)
          (rental_at r a price scenario rent value cost)
  unfolding rental_at
  rental_at-Outcome r a price scenario rent value cost = Ensures-then _ _ λ rates.
      Ensures-then _ _ λ utilities. Ensures-then _ _ λ acquisition.
        Ensures-then _ _
          λ leverage. returns (rental_or_invalid-Outcome price _ _ _ leverage scenario)

  pub rental-Outcome :
      (r : NormalizedProperty D) (u : UnderwritingResult D) (a : AssumptionSet D) (price : D)
      (scenario : Scenario)
      → Ensures (Outcome Unit StrategyType.rental scenario) (rental r u a price scenario)
  unfolding rental
  rental-Outcome r u a price scenario =
      Ensures-option (value_of r.rental.rent_estimate) _ _ (misses _ _ _ _ _) λ rent e.
        Ensures-if (le price zero_decimal) _ _ (λ h. misses _ _ _ _ _)
          λ h. Ensures-option (v_as_is u scenario) _ _ (misses _ _ _ _ _) λ value e.
            Ensures-option (costs_at u scenario) _ _ (misses _ _ _ _ _) λ cost k.
              Ensures-if (is_some (value_of r.attributes.sqft)) _ _
                (λ h. rental_at-Outcome r a price scenario rent value cost) λ h. misses _ _ _ _ _

  pub subject_to-Outcome :
      (r : NormalizedProperty D) (u : UnderwritingResult D) (price : D) (scenario : Scenario)
      (as_of : Option Date) (today : Date)
      → Outcome ⊥ StrategyType.subject_to scenario (subject_to r u price scenario as_of today)
  unfolding subject_to
  subject_to-Outcome r u price scenario as_of today = fails refl refl (λ e. cc)

  foreclosure_result-Outcome :
      (price total transfer_costs holding spread : D) (flags : List RiskFlag) (scenario : Scenario)
      {gate : Type 0}
      → (lt zero_decimal spread ≡ true → (zero_decimal ≼ spread) × gate)
      → Outcome gate StrategyType.foreclosure scenario
          (foreclosure_result price total transfer_costs holding spread flags scenario)
  unfolding foreclosure_result
  foreclosure_result-Outcome price total transfer_costs holding spread flags scenario h =
      viable_if-Outcome (lt zero_decimal spread) _ spread refl refl h

  -- A foreclosure pays where it is active.
  foreclosure_at-Outcome :
      (r : NormalizedProperty D) (u : UnderwritingResult D) (a : AssumptionSet D) (price : D)
      (scenario : Scenario) (as_of : Option Date) (today : Date) (state : ForeclosureState D)
      (v_low : D) {gate : Type 0}
      → gate
      → ((b : D) → lt zero_decimal b ≡ true → zero_decimal ≼ b)
      → Ensures
          (Outcome gate StrategyType.foreclosure scenario)
          (foreclosure_at r u a price scenario as_of today state v_low)
  unfolding foreclosure_at
  foreclosure_at-Outcome r u a price scenario as_of today state v_low active weaken =
      Ensures-then _ _ λ transfer_costs. returns (
        foreclosure_result-Outcome price _ transfer_costs _ _ _ scenario
          λ viable. (weaken _ viable, active))

module _ {D : Type 0} ⦃py : Python D⦄ (laws : IsDecimal D) where
  open py use {le}
  open laws use {le_trans}

  wholesale_gate :
      (pct least spread dcs wholesale_min : D)
      → (outside_closed_unit pct || is_below_zero least) ≡ false
      → (le least spread && le wholesale_min dcs) ≡ true
      → (zero_decimal ≼ spread) × (wholesale_min ≼ dcs)
  wholesale_gate pct least spread dcs wholesale_min h k =
      ground (arith, le_trans zero_decimal least spread)

  wholesale_at-Outcome :
      (a : AssumptionSet D) (price : D) (scenario : Scenario) (dcs wholesale_min arv : D)
      (cost : CostBlock D)
      → Ensures
          (Outcome (wholesale_min ≼ dcs) StrategyType.wholesale scenario)
          (wholesale_at a price scenario dcs wholesale_min arv cost)
  unfolding wholesale_at
  wholesale_at-Outcome a price scenario dcs wholesale_min arv cost = Ensures-raise_if _ _ _ λ valid.
      returns (
        viable_if-Outcome _ (wholesale_result price _ _ _ _ dcs scenario) _ refl refl λ viable.
          wholesale_gate a.strategy.wholesale_investor_pct a.strategy.min_assignment_spread _ dcs
            wholesale_min valid viable)

  wholesale_from-Outcome :
      (a : AssumptionSet D) (price : D) (scenario : Scenario) (dcs wholesale_min : D)
      (has_value : Bool) (v : Option D) (c : Option (CostBlock D))
      → Ensures
          (Outcome (wholesale_min ≼ dcs) StrategyType.wholesale scenario)
          (wholesale_from a price scenario dcs wholesale_min has_value v c)
  unfolding wholesale_from
  wholesale_from-Outcome a price scenario dcs wholesale_min has_value (some arv) (some cost) =
      Ensures-if (le price zero_decimal) _ _ (λ h. misses _ _ _ _ _)
        λ h. wholesale_at-Outcome a price scenario dcs wholesale_min arv cost
  wholesale_from-Outcome a price scenario dcs wholesale_min has_value (some arv) none =
      misses _ _ _ _ _
  wholesale_from-Outcome a price scenario dcs wholesale_min has_value none c = misses _ _ _ _ _

  pub wholesale-Outcome :
      (u : UnderwritingResult D) (a : AssumptionSet D) (price : D) (scenario : Scenario)
      (dcs wholesale_min : D)
      → Ensures
          (Outcome (wholesale_min ≼ dcs) StrategyType.wholesale scenario)
          (wholesale u a price scenario (some dcs) wholesale_min)
  unfolding wholesale
  wholesale-Outcome u a price scenario dcs wholesale_min =
      wholesale_from-Outcome a price scenario dcs wholesale_min _ (arv_at u scenario)
        (costs_at u scenario)

  pub foreclosure-Outcome :
      (r : NormalizedProperty D) (u : UnderwritingResult D) (a : AssumptionSet D) (price : D)
      (scenario : Scenario) (as_of : Option Date) (today : Date)
      → Ensures
          (Outcome (is_foreclosing r ≡ true) StrategyType.foreclosure scenario)
          (foreclosure r u a price scenario as_of today)
  unfolding foreclosure
  foreclosure-Outcome r u a price scenario as_of today =
      Ensures-option r.foreclosure _ _ (misses _ _ _ _ _) λ state e.
        Ensures-if state.is_active _ _
          (λ active. Ensures-option u.value.v_low _ _ (misses _ _ _ _ _) λ v_low k.
            foreclosure_at-Outcome r u a price scenario as_of today state v_low (rw e active)
              (Order.lt→le laws zero_decimal))
          λ h. misses _ _ _ _ _
