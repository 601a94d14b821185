-- ===== src/Strategies/Reports.antt =====
-- What `all_strategies` of strategies/engine.py returns: its eighteen results, and what a viable one
-- promises.
use house_analysis_ai.Prelude.{
  true, Option, some, List, [], ◌∷◌, ◌++◌, map, In, ◌≡◌, refl, sym, subst, inl, inr, ok, Ensures,
  returns, Ensures-bind, Ensures-ok,
}
use house_analysis_ai.Python.{Python, ◌≼◌, zero_decimal}
use house_analysis_ai.Python.Laws.{IsDecimal}
use house_analysis_ai.Contracts.{
  Date, Scenario, StrategyType, StrategyStatus, NormalizedProperty, UnderwritingResult,
  StrategyResult, AssumptionSet,
}
use house_analysis_ai.Strategies.{is_foreclosing, dcs_or, scenario_strategies, all_strategies}
use house_analysis_ai.Strategies.Outcomes.{
  Outcome, fails, pays, cash-Outcome, flip-Outcome, wholesale-Outcome, rental-Outcome,
  subject_to-Outcome, foreclosure-Outcome,
}

-- The pairs of a scenario, in the order of the code's list.
abbrev pairs_of : Scenario → List (Scenario × StrategyType)
pairs_of s =
    (s, StrategyType.cash)
    ∷ (s, StrategyType.flip)
    ∷ (s, StrategyType.wholesale)
    ∷ (s, StrategyType.rental)
    ∷ (s, StrategyType.subject_to)
    ∷ (s, StrategyType.foreclosure)
    ∷ []

-- The eighteen pairs of a scenario and a strategy.
abbrev pub all_pairs : List (Scenario × StrategyType)
all_pairs =
    pairs_of Scenario.conservative ++ pairs_of Scenario.expected ++ pairs_of Scenario.optimistic

module _ {D : Type 0} ⦃py : Python D⦄ where
  -- What each of the six strategies asks for before it calls a result viable: nothing more, a data
  -- confidence of at least the minimum, or an active foreclosure. A purchase subject to the
  -- existing mortgage is never viable.
  abbrev pub Gate : NormalizedProperty D → D → D → StrategyType → Type 0
  Gate r dcs wholesale_min StrategyType.cash = Unit
  Gate r dcs wholesale_min StrategyType.flip = Unit
  Gate r dcs wholesale_min StrategyType.wholesale = wholesale_min ≼ dcs
  Gate r dcs wholesale_min StrategyType.rental = Unit
  Gate r dcs wholesale_min StrategyType.subject_to = ⊥
  Gate r dcs wholesale_min StrategyType.foreclosure = is_foreclosing r ≡ true

  -- The list has a result for each pair, in this order.
  pub data Reports (gate : StrategyType → Type 0)
      : List (Scenario × StrategyType) → List (StrategyResult D) → Type 0 where
    done : Reports gate [] []
    next :
        {scenario : Scenario} {strategy : StrategyType} {x : StrategyResult D}
        {pairs : List (Scenario × StrategyType)} {xs : List (StrategyResult D)}
        → Outcome (gate strategy) strategy scenario x
        → Reports gate pairs xs
        → Reports gate ((scenario, strategy) ∷ pairs) (x ∷ xs)

  Reports-append :
      {gate : StrategyType → Type 0} {ps qs : List (Scenario × StrategyType)}
      {xs ys : List (StrategyResult D)}
      → Reports gate ps xs
      → Reports gate qs ys
      → Reports gate (ps ++ qs) (xs ++ ys)
  Reports-append done k = k
  Reports-append (next o h) k = next o (Reports-append h k)

  tag : StrategyResult D → Scenario × StrategyType
  tag x = (x.scenario, x.strategy)

  Outcome-tag :
      {gate : Type 0} {strategy : StrategyType} {scenario : Scenario} {x : StrategyResult D}
      → Outcome gate strategy scenario x
      → tag x ≡ (scenario, strategy)
  unfolding tag
  Outcome-tag (fails e k h) = cc
  Outcome-tag (pays e k p q h g) = cc

  Reports-tags :
      {gate : StrategyType → Type 0} {ps : List (Scenario × StrategyType)}
      {xs : List (StrategyResult D)}
      → Reports gate ps xs
      → map tag xs ≡ ps
  Reports-tags done = refl
  Reports-tags (next o h) = cc (Outcome-tag o, Reports-tags h)

  -- A viable result: its profit, and its strategy's gate.
  abbrev pub Pays : (StrategyType → Type 0) → StrategyResult D → Type 0
  Pays gate x = (p : D) × (x.profit ≡ some p) × (zero_decimal ≼ p) × gate x.strategy

  Outcome-Pays :
      (gate : StrategyType → Type 0) {strategy : StrategyType} {scenario : Scenario}
      {x : StrategyResult D}
      → Outcome (gate strategy) strategy scenario x
      → x.status ≡ StrategyStatus.viable
      → Pays gate x
  Outcome-Pays gate (fails e k h) viable = absurd (h viable)
  Outcome-Pays gate (pays e k p q h g) viable = (p, q, h, subst gate (sym e) g)

  Reports-Pays :
      (gate : StrategyType → Type 0) {ps : List (Scenario × StrategyType)}
      {xs : List (StrategyResult D)}
      → Reports gate ps xs
      → (x : StrategyResult D) → In x xs
      → x.status ≡ StrategyStatus.viable
      → Pays gate x
  Reports-Pays gate done x m viable = absurd m
  Reports-Pays gate (next o h) x (inl e) viable = subst (Pays gate) e (Outcome-Pays gate o (cc))
  Reports-Pays gate (next o h) x (inr m) viable = Reports-Pays gate h x m viable

module _ {D : Type 0} ⦃py : Python D⦄ (laws : IsDecimal D) where
  scenario-Reports :
      (r : NormalizedProperty D) (u : UnderwritingResult D) (a : AssumptionSet D) (price : D)
      (as_of : Option Date) (today : Date) (dcs wholesale_min : D) (scenario : Scenario)
      → Ensures
          (Reports (Gate r dcs wholesale_min) (pairs_of scenario))
          (scenario_strategies r u a price as_of today dcs wholesale_min scenario)
  unfolding scenario_strategies
  scenario-Reports r u a price as_of today dcs wholesale_min scenario =
      Ensures-bind _ (cash-Outcome u a price scenario) λ x1 o1.
        Ensures-bind _ (flip-Outcome r u a price scenario) λ x2 o2.
          Ensures-bind _ (wholesale-Outcome laws u a price scenario dcs wholesale_min) λ x3 o3.
            Ensures-bind _ (rental-Outcome r u a price scenario) λ x4 o4.
              Ensures-bind _ (foreclosure-Outcome laws r u a price scenario as_of today) λ x6 o6.
                returns (
                  next o1 (
                    next o2 (
                      next o3 (
                        next o4 (
                          next (subject_to-Outcome r u price scenario as_of today)
                            (next o6 done))))))

  all_strategies-Reports :
      (r : NormalizedProperty D) (u : UnderwritingResult D) (a : AssumptionSet D) (price : D)
      (as_of : Option Date) (today : Date) (given : Option D) (wholesale_min : D)
      → Ensures
          (Reports (Gate r (dcs_or u given) wholesale_min) all_pairs)
          (all_strategies r u a price as_of today given wholesale_min)
  unfolding all_strategies
  all_strategies-Reports r u a price as_of today given wholesale_min =
      let run = scenario-Reports r u a price as_of today (dcs_or u given) wholesale_min in
      Ensures-bind _ (run Scenario.conservative) λ low h.
        Ensures-bind _ (run Scenario.expected) λ middle k.
          Ensures-bind _ (run Scenario.optimistic)
            λ high l. returns (Reports-append (Reports-append h k) l)

  -- The results of all strategies that return are eighteen: for each scenario, conservative,
  -- expected and optimistic, the six strategies in their order, each under its own name.
  pub all_strategies-tags :
      (r : NormalizedProperty D) (u : UnderwritingResult D) (a : AssumptionSet D) (price : D)
      (as_of : Option Date) (today : Date) (given : Option D) (wholesale_min : D)
      {xs : List (StrategyResult D)}
      → all_strategies r u a price as_of today given wholesale_min ≡ ok xs
      → map (λ x. (x.scenario, x.strategy)) xs ≡ all_pairs
  unfolding tag
  all_strategies-tags r u a price as_of today given wholesale_min e =
      Reports-tags
        (Ensures-ok (all_strategies-Reports r u a price as_of today given wholesale_min) e)

  -- A viable result of all strategies has a profit of at least 0, and its strategy's gate is open:
  -- a wholesale needs a data confidence of at least the minimum, a foreclosure needs to be active,
  -- and a purchase subject to the existing mortgage is never viable.
  pub all_strategies-Pays :
      (r : NormalizedProperty D) (u : UnderwritingResult D) (a : AssumptionSet D) (price : D)
      (as_of : Option Date) (today : Date) (given : Option D) (wholesale_min : D)
      {xs : List (StrategyResult D)}
      → all_strategies r u a price as_of today given wholesale_min ≡ ok xs
      → (x : StrategyResult D) → In x xs
      → x.status ≡ StrategyStatus.viable
      → Pays (Gate r (dcs_or u given) wholesale_min) x
  all_strategies-Pays r u a price as_of today given wholesale_min e x m viable =
      Reports-Pays _
        (Ensures-ok (all_strategies-Reports r u a price as_of today given wholesale_min) e) x m
        viable
