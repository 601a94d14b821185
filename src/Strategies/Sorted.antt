-- ===== src/Strategies/Sorted.antt =====
-- The order of the points of `offer_grid` of strategies/engine.py.
use house_analysis_ai.Prelude.{
  not, ap, Option, none, some, List, [], ◌∷◌, map, String, All, ◌≡◌, refl, subst, sym, if_keeps, ok,
  each, Ensures, returns, Ensures-ok, Ensures-then, Ensures-bind, Ensures-weaken,
}
use house_analysis_ai.Python.{Python, ◌≼◌}
use house_analysis_ai.Python.Laws.{IsDecimal}
use house_analysis_ai.Python.Order
use house_analysis_ai.Contracts.{Scenario, UnderwritingResult, AssumptionSet, OfferPoint}
use house_analysis_ai.Strategies.{
  Entry, offer_point, point_at, insert_entry, sort_entries, scenario_points,
}

module _ {D : Type 0} ⦃py : Python D⦄ where
  -- Each number is at most every later one.
  abbrev pub IsAscending : List D → Type 0
  IsAscending [] = Unit
  IsAscending (x ∷ xs) = All (λ y. x ≼ y) xs × IsAscending xs

  abbrev prices : List (Entry D) → List D
  prices entries = map (λ e. e.0) entries

  offer_point-price :
      (u : UnderwritingResult D) (a : AssumptionSet D) (offer : D) (scenario : Scenario)
      (label : Option String)
      → Ensures (λ p. p.offer_price ≡ offer) (offer_point u a offer scenario label)
  unfolding offer_point
  offer_point-price u a offer scenario label = Ensures-then _ _ λ t. Ensures-then _ _ λ confirmed.
      Ensures-then _ _
        λ potential. Ensures-then _ _ λ acquisition. Ensures-then _ _ λ profit. returns refl

  each-prices :
      (u : UnderwritingResult D) (a : AssumptionSet D) (scenario : Scenario)
      (entries : List (Entry D))
      → Ensures
          (λ ps. map (λ p. p.offer_price) ps ≡ prices entries)
          (each (point_at u a scenario) entries)
  each-prices u a scenario [] = returns refl
  each-prices u a scenario (e ∷ es) =
      Ensures-bind _ (offer_point-price u a e.0 scenario e.1)
        λ p h. Ensures-bind _ (each-prices u a scenario es) λ ps k. returns (cc)

module _ {D : Type 0} ⦃py : Python D⦄ (laws : IsDecimal D) where
  open py use {le}
  open laws use {le_trans}

  insert-All :
      (x : D) (e : Entry D) (es : List (Entry D))
      → x ≼ e.0
      → All (λ y. x ≼ y) (prices es)
      → All (λ y. x ≼ y) (prices (insert_entry e es))
  unfolding insert_entry
  insert-All x e [] h k = (h, tt)
  insert-All x e (f ∷ fs) h k =
      if_keeps (λ (es : List (Entry D)). All (λ y. x ≼ y) (prices es)) (le e.0 f.0) _ _
        (λ t. (h, k)) λ t. (k.0, insert-All x e fs h k.1)

  above-All : (x y : D) (zs : List D) → x ≼ y → All (λ z. y ≼ z) zs → All (λ z. x ≼ z) zs
  above-All x y [] h k = tt
  above-All x y (z ∷ zs) h k = (le_trans x y z h k.0, above-All x y zs h k.1)

  insert-IsAscending :
      (e : Entry D) (es : List (Entry D))
      → IsAscending (prices es)
      → IsAscending (prices (insert_entry e es))
  unfolding insert_entry
  insert-IsAscending e [] h = (tt, tt)
  insert-IsAscending e (f ∷ fs) h =
      if_keeps (λ (es : List (Entry D)). IsAscending (prices es)) (le e.0 f.0) _ _
        (λ t. ((t, above-All e.0 f.0 (prices fs) t h.0), h))
        λ t. (
          insert-All f.0 e fs (Order.lt→le laws f.0 e.0 (ap not t)) h.0,
          insert-IsAscending e fs h.1,
        )

  sort-IsAscending : (es : List (Entry D)) → IsAscending (prices (sort_entries es))
  unfolding sort_entries
  sort-IsAscending [] = tt
  sort-IsAscending (e ∷ es) = insert-IsAscending e (sort_entries es) (sort-IsAscending es)

  points-IsAscending :
      (u : UnderwritingResult D) (a : AssumptionSet D) (offers : List (Entry D)) (months : D)
      (scenario : Scenario) (value : Option D)
      → Ensures
          (λ ps. IsAscending (map (λ p. p.offer_price) ps))
          (scenario_points u a offers months scenario value)
  unfolding scenario_points
  points-IsAscending u a offers months scenario none = returns tt
  points-IsAscending u a offers months scenario (some value) = Ensures-then _ _ λ mao.
      Ensures-then _ _ λ flips.
        Ensures-weaken (λ ps e. subst IsAscending (sym e) (sort-IsAscending _))
          (each-prices u a scenario (sort_entries _))

  -- The points of a scenario stand in the order of their prices, the maximum offers among them.
  pub scenario_points-IsAscending :
      (u : UnderwritingResult D) (a : AssumptionSet D) (offers : List (Entry D)) (months : D)
      (scenario : Scenario) (value : Option D) {ps : List (OfferPoint D)}
      → scenario_points u a offers months scenario value ≡ ok ps
      → IsAscending (map (λ p. p.offer_price) ps)
  scenario_points-IsAscending u a offers months scenario value =
      Ensures-ok (points-IsAscending u a offers months scenario value)
