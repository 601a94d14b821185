-- ===== src/Scoring/Viable.antt =====
-- What `score` of scoring/engine.py recommends.
use house_analysis_ai.Prelude.{
  Bool, true, false, not, ◌&&◌, ◌==◌, Option, none, some, List, [], ◌∷◌, ◌≡◌, ◌≢◌, refl, sym, subst,
  All, In, All-In, keep, In-keep, each, ok, Ensures, returns, Ensures-ok, Ensures-then,
  Ensures-bind, inl, inr,
}
use house_analysis_ai.Python.{Python}
use house_analysis_ai.Contracts.{
  Uuid, Date, StrategyType, StrategyStatus, Scenario, scenario_eq, strategy_eq, status_eq,
  NormalizedProperty, UnderwritingResult, StrategyResult, ScoreSet,
}
use house_analysis_ai.Scoring.{
  Config, and_then, Rated, is_candidate, rate, choose, recommend_from, recommend, score,
}
use house_analysis_ai.Scoring.Best

In-All : {A : Type 0} (P : A → Type 0) (xs : List A) → ((x : A) → In x xs → P x) → All P xs
In-All P [] h = tt
In-All P (x ∷ xs) h = (h x (inl refl), In-All P xs (λ y m. h y (inr m)))

conjuncts : (a b c : Bool) → (a && b && c) ≡ true → (a ≡ true) × (b ≡ true) × (c ≡ true)
conjuncts true true true h = (refl, refl, refl)
conjuncts true true false h = cc
conjuncts true false c h = cc
conjuncts false b c h = cc

is_expected : (s : Scenario) → (s == Scenario.expected) ≡ true → s ≡ Scenario.expected
is_expected Scenario.conservative h = cc
is_expected Scenario.expected h = refl
is_expected Scenario.optimistic h = cc

is_viable : (s : StrategyStatus) → (s == StrategyStatus.viable) ≡ true → s ≡ StrategyStatus.viable
is_viable StrategyStatus.viable h = refl
is_viable StrategyStatus.not_viable h = cc
is_viable StrategyStatus.unavailable h = cc
is_viable StrategyStatus.requires_human_review h = cc

not-subject_to :
    (s : StrategyType) → not (s == StrategyType.subject_to) ≡ true → s ≢ StrategyType.subject_to
not-subject_to s h e =
    let other : not (StrategyType.subject_to == StrategyType.subject_to) ≡ true =
      subst (λ t. not (t == StrategyType.subject_to) ≡ true) e h in
    cc

module _ {D : Type 0} ⦃py : Python D⦄ where
  -- The strategies of the rated items are among the given ones.
  abbrev Among : List (StrategyResult D) → List (Rated D) → Type 0
  Among items rated = All (λ r. In r.1 items) rated

  rate-Same :
      (low high : D) (item : StrategyResult D) → Ensures (λ r. r.1 ≡ item) (rate low high item)
  unfolding rate
  rate-Same low high item = Ensures-then _ _ λ p. returns refl

  each-Among :
      (low high : D) (all items : List (StrategyResult D))
      → All (λ item. In item all) items
      → Ensures (Among all) (each (rate low high) items)
  each-Among low high all [] h = returns tt
  each-Among low high all (x ∷ xs) h = Ensures-bind _ (rate-Same low high x) λ r e.
      Ensures-bind _ (each-Among low high all xs h.1)
        λ rs t. returns (subst (λ i. In i all) (sym e) h.0, t)

  -- The item that is recommended, if any, is one of the list.
  abbrev Chosen : List (StrategyResult D) → Option (StrategyResult D) → Type 0
  Chosen all best = (b : StrategyResult D) → best ≡ some b → In b all

  choose-Chosen :
      (near : D) (all : List (StrategyResult D)) (rated : List (Rated D))
      → Among all rated
      → Chosen all (choose near rated).0
  unfolding choose
  choose-Chosen near all [] h b e = cc
  choose-Chosen near all (x ∷ xs) h b e =
      subst (λ i. In i all) (cc) (All-In (λ r. In r.1 all) (x ∷ xs) h (Best.best_of-In x xs))

  recommend_from-Chosen :
      (config : Config D) (items : List (StrategyResult D))
      → Ensures (λ r. Chosen items r.0) (recommend_from config items)
  unfolding recommend_from
  recommend_from-Chosen config [] = returns (λ b e. cc)
  recommend_from-Chosen config (x ∷ xs) = Ensures-then _ _ λ limits. Ensures-then _ _ λ near.
      Ensures-bind _ (each-Among limits.0 limits.1 (x ∷ xs) (x ∷ xs) (In-All _ (x ∷ xs) (λ y m. m)))
        λ rated h. returns (choose-Chosen near (x ∷ xs) rated h)

  -- A recommended strategy is that of a viable result for the expected scenario, and it is not
  -- the purchase subject to the existing mortgage.
  abbrev pub IsBacked : List (StrategyResult D) → StrategyType → Type 0
  IsBacked strategies t =
      (b : StrategyResult D) × In b strategies
      × (b.strategy ≡ t)
      × (b.scenario ≡ Scenario.expected)
      × (b.status ≡ StrategyStatus.viable)
      × (b.strategy ≢ StrategyType.subject_to)

  candidate-IsBacked :
      (strategies : List (StrategyResult D)) (best : Option (StrategyResult D))
      → Chosen (keep is_candidate strategies) best
      → (t : StrategyType) → and_then best (λ b. some b.strategy) ≡ some t
      → IsBacked strategies t
  candidate-IsBacked strategies none h t e = cc
  candidate-IsBacked strategies (some b) h t e =
      let (m, c) = In-keep is_candidate strategies (h b refl) in
      let parts = conjuncts _ _ _ c in
      (
        b,
        m,
        cc,
        is_expected b.scenario parts.0,
        is_viable b.status parts.1,
        λ same. not-subject_to b.strategy parts.2 same,
      )

  -- The strategy that a scored property recommends, if there is one, is the strategy of one of the
  -- given results, which is viable, for the expected scenario, and not the purchase subject to the
  -- existing mortgage.
  pub score-IsBacked :
      (r : NormalizedProperty D) (u : UnderwritingResult D) (id : Uuid)
      (strategies : List (StrategyResult D)) (config : Option (Config D)) (as_of : Option Date)
      (today : Date) {s : ScoreSet D}
      → score r u id strategies config as_of today ≡ ok s
      → (t : StrategyType) → s.recommended_strategy ≡ some t
      → IsBacked strategies t
  unfolding score recommend
  score-IsBacked r u id strategies config as_of today =
      Ensures-ok
        {P = λ s. (t : StrategyType) → s.recommended_strategy ≡ some t → IsBacked strategies t}
        (Ensures-bind _ (recommend_from-Chosen _ (keep is_candidate strategies)) λ best h.
          Ensures-then _ _ λ fos. Ensures-then _ _ λ distress. Ensures-then _ _ λ dcs.
            Ensures-then _ _ λ risk. Ensures-then _ _ λ limits.
              Ensures-then _ _ λ overall.
                Ensures-then _ _ λ final. returns (candidate-IsBacked strategies best.0 h))
