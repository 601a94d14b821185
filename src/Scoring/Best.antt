-- ===== src/Scoring/Best.antt =====
-- What `_recommend` of scoring/engine.py chooses.
use house_analysis_ai.Prelude.{
  Bool, true, false, ◌||◌, Option, none, some, List, [], ◌∷◌, ◌++◌, ◌≡◌, refl, inl, inr, ◌==◌,
  if◌then◌else◌, one_of, arith, All, All-append, In, Bool-cases,
}
use house_analysis_ai.Python.{Python, ◌≼◌, ◌⊖◌}
use house_analysis_ai.Python.Laws.{IsDecimal}
use house_analysis_ai.Contracts.{StrategyType, StrategyResult, strategy_eq}
use house_analysis_ai.Scoring.{
  Rated, strategy_of, beats, insert_by_priority, best_of, is_near_tie, near_ties, sort_by_priority,
  choose,
}

-- No strategy is listed twice.
abbrev pub Distinct : List StrategyType → Type 0
Distinct [] = Unit
Distinct (x ∷ xs) = (one_of x xs ≡ false) × Distinct xs

one_of-append :
    (s t : StrategyType) (xs : List StrategyType)
    → one_of s (xs ++ (t ∷ [])) ≡ (one_of s xs || s == t)
one_of-append s t [] = ground arith
one_of-append s t (x ∷ xs) = ground (arith, one_of-append s t xs)

Distinct-append :
    (xs : List StrategyType) (t : StrategyType)
    → Distinct xs
    → one_of t xs ≡ false
    → Distinct (xs ++ (t ∷ []))
Distinct-append [] t d n = ground arith
Distinct-append (x ∷ xs) t d n = ground (arith, Distinct-append xs t d.1, one_of-append x t xs)

module _ {D : Type 0} ⦃py : Python D⦄ where
  swap-In : (a b : Rated D) (xs : List (Rated D)) {r : Rated D} → In r (a ∷ xs) → In r (a ∷ b ∷ xs)
  swap-In a b xs (inl e) = inl e
  swap-In a b xs (inr m) = inr (inr m)

  pub best_of-In :
      (best : Rated D) (items : List (Rated D)) → In (best_of best items) (best ∷ items)
  unfolding best_of
  best_of-In best [] = inl refl
  best_of-In best (x ∷ xs) =
      pick (beats x best) (inr (best_of-In x xs)) (swap-In best x xs (best_of-In best xs))
    where
      pick :
          (b : Bool)
          → In (best_of x xs) (best ∷ x ∷ xs)
          → In (best_of best xs) (best ∷ x ∷ xs)
          → In (best_of (if b then x else best) xs) (best ∷ x ∷ xs)
      pick true h k = h
      pick false h k = k

  -- An alternative of `best`: another strategy, within the band of points.
  abbrev pub IsAlternative : D → Rated D → List (Rated D) → StrategyType → Type 0
  IsAlternative near best items s =
      ((s == strategy_of best) ≡ false)
      × ((r : Rated D) × In r items × (strategy_of r ≡ s) × (best.0 ⊖ r.0 ≼ near))

module _ {D : Type 0} ⦃py : Python D⦄ (laws : IsDecimal D) where
  open laws use {le_total, le_trans}

  beats_irrefl : (a : Rated D) → beats a a ≡ false
  unfolding beats
  beats_irrefl a = ground (arith, le_total a.0 a.0)

  -- Not to be beaten is transitive.
  not_beaten_trans : (a b c : Rated D) → beats a b ≡ false → beats b c ≡ false → beats a c ≡ false
  unfolding beats
  not_beaten_trans a b c h k =
      ground (arith, le_trans a.0 b.0 c.0, le_trans b.0 c.0 a.0, le_trans c.0 a.0 b.0)

  beats_asym : (a b : Rated D) → beats a b ≡ true → beats b a ≡ false
  unfolding beats
  beats_asym a b h = ground (arith, le_total a.0 b.0)

  abbrev Unbeaten : Rated D → List (Rated D) → Type 0
  Unbeaten best items = All (λ r. beats r best ≡ false) items

  best_of-Unbeaten :
      (best : Rated D) (items : List (Rated D)) → Unbeaten (best_of best items) (best ∷ items)
  unfolding best_of
  best_of-Unbeaten best [] = (beats_irrefl best, tt)
  best_of-Unbeaten best (x ∷ xs) =
      pick (beats x best) refl (best_of-Unbeaten x xs) (best_of-Unbeaten best xs)
    where
      pick :
          (b : Bool)
          → beats x best ≡ b
          → Unbeaten (best_of x xs) (x ∷ xs)
          → Unbeaten (best_of best xs) (best ∷ xs)
          → Unbeaten (best_of (if b then x else best) xs) (best ∷ x ∷ xs)
      pick true e h k = (not_beaten_trans best x _ (beats_asym x best e) h.0, h)
      pick false e h k = (k.0, (not_beaten_trans x best _ e k.0, k.1))

module _ {D : Type 0} ⦃py : Python D⦄ where
  In-insert_by_priority :
      (x : Rated D) (xs : List (Rated D)) (r : Rated D)
      → In r (insert_by_priority x xs)
      → In r (x ∷ xs)
  unfolding insert_by_priority
  In-insert_by_priority x [] r m = m
  In-insert_by_priority x (y ∷ ys) r m = ground (arith, In-insert_by_priority x ys r)

  In-sort_by_priority : (xs : List (Rated D)) (r : Rated D) → In r (sort_by_priority xs) → In r xs
  unfolding sort_by_priority
  In-sort_by_priority [] r m = m
  In-sort_by_priority (x ∷ xs) r m =
      ground (arith, In-insert_by_priority x (sort_by_priority xs) r m, In-sort_by_priority xs r)

  near_ties-Distinct :
      (near : D) (best : Rated D) (found : List StrategyType) (items : List (Rated D))
      → Distinct found
      → Distinct (near_ties near best found items)
  unfolding near_ties
  near_ties-Distinct near best found [] d = d
  near_ties-Distinct near best found (x ∷ xs) d =
      elim (Bool-cases (is_near_tie near best found x)) [
        | inl tie ↦ rw tie (
            near_ties-Distinct near best (found ++ (strategy_of x ∷ [])) xs
              (Distinct-append found (strategy_of x) d (ground arith)))
        | inr far ↦ rw far (near_ties-Distinct near best found xs d)
      ]

  near_ties-All :
      (near : D) (best : Rated D) (all : List (Rated D)) (found : List StrategyType)
      (items : List (Rated D))
      → All (IsAlternative near best all) found
      → ((r : Rated D) → In r items → In r all)
      → All (IsAlternative near best all) (near_ties near best found items)
  unfolding near_ties
  near_ties-All near best all found [] a sub = a
  near_ties-All near best all found (x ∷ xs) a sub =
      elim (Bool-cases (is_near_tie near best found x)) [
        | inl tie ↦ rw tie (
            near_ties-All near best all (found ++ (strategy_of x ∷ [])) xs
              (All-append (IsAlternative near best all) found (strategy_of x ∷ []) a
                ((ground arith, (x, sub x (inl refl), refl, ground arith)), tt))
              (λ r m. sub r (inr m)))
        | inr far ↦ rw far (near_ties-All near best all found xs a (λ r m. sub r (inr m)))
      ]

module _ {D : Type 0} ⦃py : Python D⦄ (laws : IsDecimal D) where
  -- What `_recommend` promises of the rated viable strategies.
  abbrev pub IsRecommended :
      D → List (Rated D) → Option (StrategyResult D) × List StrategyType → Type 0
  IsRecommended near [] r = r ≡ (none, [])
  IsRecommended near (x ∷ xs) (chosen, alternatives) =
      (best : Rated D) × (chosen ≡ some best.1)
      × In best (x ∷ xs)
      × All (λ r. beats r best ≡ false) (x ∷ xs)
      × All (IsAlternative near best (x ∷ xs)) alternatives
      × Distinct alternatives

  -- Without a viable strategy nothing is recommended. Else the recommended strategy is one of the
  -- viable ones and none of them beats it, by points and then by the priority list; every
  -- alternative is the strategy of a viable item, another one than the recommended, with points
  -- within the band of the best; and no alternative is listed twice.
  pub choose-IsRecommended :
      (near : D) (rated : List (Rated D)) → IsRecommended near rated (choose near rated)
  unfolding choose
  choose-IsRecommended near [] = refl
  choose-IsRecommended near (x ∷ xs) = (
    best_of x xs,
    refl,
    best_of-In x xs,
    best_of-Unbeaten laws x xs,
    near_ties-All near (best_of x xs) (x ∷ xs) [] (sort_by_priority (x ∷ xs)) tt
        (In-sort_by_priority (x ∷ xs)),
    near_ties-Distinct near (best_of x xs) [] (sort_by_priority (x ∷ xs)) tt,
  )
