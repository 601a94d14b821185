-- ===== src/Scoring/Recommend.antt =====
-- `_recommend`: the best viable strategy and the near ties.
use house_analysis_ai.Prelude.{
  Bool, not, ◌&&◌, ◌||◌, Option, none, some, List, [], ◌∷◌, ◌++◌, ◌==◌, ltb, leb, if◌then◌else◌,
  keep, one_of, Result, ok, ◌>>=◌, each,
}
use house_analysis_ai.Python.{Python, ◌⊖◌, ◌⊗◌, hundred, lt, same}
use house_analysis_ai.Contracts.{
  Scenario, StrategyType, StrategyStatus, StrategyResult, priority, scenario_eq, strategy_eq,
  status_eq,
}
use house_analysis_ai.Scoring.Configuration.{Config, bound_number, bound_limits}
use house_analysis_ai.Scoring.Numbers.{normalized}

-- A strategy with its points.
abbrev pub Rated : Type 0 → Type 0
Rated D = D × StrategyResult D

abbrev pub strategy_of : {D : Type 0} → Rated D → StrategyType
strategy_of r = r.1.strategy

module _ {D : Type 0} ⦃py : Python D⦄ where
  abbrev pub is_candidate : StrategyResult D → Bool
  is_candidate item =
      item.scenario == Scenario.expected
      && item.status == StrategyStatus.viable
      && not (item.strategy == StrategyType.subject_to)

  unfoldable pub rate : D → D → StrategyResult D → Result (Rated D)
  rate low high item = do p ← normalized item.profit low high; ok (hundred ⊗ p, item)

  -- the order of the keys `(points(item), -STRATEGY_PRIORITY.index(item.strategy))`
  unfoldable pub beats : Rated D → Rated D → Bool
  beats a b =
      lt b.0 a.0 || (same a.0 b.0 && ltb (priority (strategy_of a)) (priority (strategy_of b)))

  -- `max(viable, key=...)`, which keeps the first of equal items
  unfoldable pub best_of : Rated D → List (Rated D) → Rated D
  best_of best [] = best
  best_of best (item ∷ items) = best_of (if beats item best then item else best) items

  -- `sorted(viable, key=STRATEGY_PRIORITY.index)`, which is stable
  unfoldable pub insert_by_priority : Rated D → List (Rated D) → List (Rated D)
  insert_by_priority item [] = item ∷ []
  insert_by_priority item (x ∷ xs) =
      if leb (priority (strategy_of item)) (priority (strategy_of x))
      then item ∷ x ∷ xs
      else x ∷ insert_by_priority item xs

  unfoldable pub sort_by_priority : List (Rated D) → List (Rated D)
  sort_by_priority [] = []
  sort_by_priority (x ∷ xs) = insert_by_priority x (sort_by_priority xs)

  -- Another strategy is another item, so the test `item is not best` adds nothing.
  abbrev pub is_near_tie : D → Rated D → List StrategyType → Rated D → Bool
  is_near_tie near best alternatives item =
      not (strategy_of item == strategy_of best)
      && not (one_of (strategy_of item) alternatives)
      && py.le (best.0 ⊖ item.0) near

  -- the loop that fills `alternatives`
  unfoldable pub near_ties : D → Rated D → List StrategyType → List (Rated D) → List StrategyType
  near_ties near best alternatives [] = alternatives
  near_ties near best alternatives (item ∷ items) =
      near_ties near best
        (if is_near_tie near best alternatives item
          then alternatives ++ (strategy_of item ∷ [])
          else alternatives)
        items

  unfoldable pub choose : D → List (Rated D) → Option (StrategyResult D) × List StrategyType
  choose near [] = (none, [])
  choose near (x ∷ xs) =
      let best = best_of x xs in (some best.1, near_ties near best [] (sort_by_priority (x ∷ xs)))

  unfoldable pub recommend_from :
      Config D → List (StrategyResult D) → Result (Option (StrategyResult D) × List StrategyType)
  recommend_from config [] = ok (none, [])
  recommend_from config (x ∷ xs) = do
    (low, high) ← bound_limits config "profit"
    near ← bound_number config "near_tie_points"
    rated ← each (rate low high) (x ∷ xs)
    ok (choose near rated)

  unfoldable pub recommend :
      Config D → List (StrategyResult D) → Result (Option (StrategyResult D) × List StrategyType)
  recommend config strategies = recommend_from config (keep is_candidate strategies)
