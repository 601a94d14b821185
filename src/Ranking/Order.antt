-- ===== src/Ranking/Order.antt =====
-- What the ranks of scoring/ranking.py promise.
use house_analysis_ai.Prelude.{
  ℕ, ◌+◌, Bool, true, false, some, List, [], ◌∷◌, map, assoc, number_eq, ◌≡◌, refl, ap, All,
  count_if, arith, Bool-cases, inl, inr,
}
use house_analysis_ai.Python.{Python}
use house_analysis_ai.Python.Laws.{IsDecimal}
use house_analysis_ai.Contracts.{Uuid}
use house_analysis_ai.Ranking.{
  RankedRow, Item, comes_first, insert_item, sort_items, rows_from, compute_ranks,
}

abbrev item_of : {D : Type 0} → RankedRow D → Item D
item_of row = (row.property_id, row.score)

-- The ranks count up from a number.
abbrev Numbered : {D : Type 0} → ℕ → List (RankedRow D) → Type 0
Numbered n [] = Unit
Numbered n (row ∷ rows) = (row.rank ≡ n) × Numbered (n + 1) rows

module _ {D : Type 0} ⦃py : Python D⦄ (laws : IsDecimal D) where
  open laws use {le_total, le_trans}

  -- Each item comes before all the later ones, by score downwards and then by id.
  abbrev Sorted : List (Item D) → Type 0
  Sorted [] = Unit
  Sorted (x ∷ xs) = All (λ y. comes_first x y ≡ true) xs × Sorted xs

  comes_first_trans :
      (a b c : Item D) → comes_first a b ≡ true → comes_first b c ≡ true → comes_first a c ≡ true
  unfolding comes_first
  comes_first_trans a b c h k = ground (
    arith,
    le_total a.1 b.1,
    le_total b.1 c.1,
    le_total a.1 c.1,
    le_trans a.1 b.1 c.1,
    le_trans b.1 c.1 a.1,
    le_trans c.1 a.1 b.1,
    le_trans c.1 b.1 a.1,
    le_trans b.1 a.1 c.1,
    le_trans a.1 c.1 b.1,
  )

  comes_first_total : (a b : Item D) → comes_first a b ≡ false → comes_first b a ≡ true
  unfolding comes_first
  comes_first_total a b h = ground (arith, le_total a.1 b.1)

  insert_item-All :
      (P : Item D → Type 0) (x : Item D) (xs : List (Item D))
      → P x
      → All P xs
      → All P (insert_item x xs)
  unfolding insert_item
  insert_item-All P x [] p h = (p, tt)
  insert_item-All P x (y ∷ ys) p h = elim (Bool-cases (comes_first x y)) [
    | inl e ↦ rw e (p, h)
    | inr e ↦ rw e (h.0, insert_item-All P x ys p h.1)
  ]

  All-trans :
      (x y : Item D) (zs : List (Item D))
      → comes_first x y ≡ true
      → All (λ z. comes_first y z ≡ true) zs
      → All (λ z. comes_first x z ≡ true) zs
  All-trans x y [] e h = tt
  All-trans x y (z ∷ zs) e h = (comes_first_trans x y z e h.0, All-trans x y zs e h.1)

  insert_item-Sorted : (x : Item D) (xs : List (Item D)) → Sorted xs → Sorted (insert_item x xs)
  unfolding insert_item
  insert_item-Sorted x [] h = (tt, tt)
  insert_item-Sorted x (y ∷ ys) h = elim (Bool-cases (comes_first x y)) [
    | inl e ↦ rw e ((e, All-trans x y ys e h.0), h)
    | inr e ↦ rw e (
      insert_item-All (λ z. comes_first y z ≡ true) x ys (comes_first_total x y e) h.0,
      insert_item-Sorted x ys h.1,
    )
  ]

  sort_items-Sorted : (xs : List (Item D)) → Sorted (sort_items xs)
  unfolding sort_items
  sort_items-Sorted [] = tt
  sort_items-Sorted (x ∷ xs) = insert_item-Sorted x (sort_items xs) (sort_items-Sorted xs)

module _ {D : Type 0} ⦃py : Python D⦄ where
  count-insert_item :
      (p : Item D → Bool) (x : Item D) (xs : List (Item D))
      → count_if p (insert_item x xs) ≡ count_if p (x ∷ xs)
  unfolding insert_item
  count-insert_item p x [] = refl
  count-insert_item p x (y ∷ ys) = elim (Bool-cases (comes_first x y)) [
    | inl e ↦ rw e refl
    | inr e ↦ rw e (omega (arith, count-insert_item p x ys))
  ]

  count-sort_items :
      (p : Item D → Bool) (xs : List (Item D)) → count_if p (sort_items xs) ≡ count_if p xs
  unfolding sort_items
  count-sort_items p [] = refl
  count-sort_items p (x ∷ xs) =
      omega (arith, count-insert_item p x (sort_items xs), count-sort_items p xs)

  items-rows_from :
      (previous : List (Uuid × ℕ)) (n : ℕ) (xs : List (Item D))
      → map item_of (rows_from previous n xs) ≡ xs
  unfolding rows_from
  items-rows_from previous n [] = refl
  items-rows_from previous n (x ∷ xs) = ap (λ l. x ∷ l) (items-rows_from previous (n + 1) xs)

  rows_from-Numbered :
      (previous : List (Uuid × ℕ)) (n : ℕ) (xs : List (Item D))
      → Numbered n (rows_from previous n xs)
  unfolding rows_from
  rows_from-Numbered previous n [] = tt
  rows_from-Numbered previous n (x ∷ xs) = (refl, rows_from-Numbered previous (n + 1) xs)

  rows_from-Carried :
      (previous : List (Uuid × ℕ)) (n : ℕ) (xs : List (Item D))
      → All (λ row. row.prev_rank ≡ assoc row.property_id previous) (rows_from previous n xs)
  unfolding rows_from
  rows_from-Carried previous n [] = tt
  rows_from-Carried previous n (x ∷ xs) = (refl, rows_from-Carried previous (n + 1) xs)

module _ {D : Type 0} ⦃py : Python D⦄ (laws : IsDecimal D) where
  -- What a ranking promises of the scores and the ranks before.
  abbrev pub IsRanking : List (Item D) → List (Uuid × ℕ) → List (RankedRow D) → Type 0
  IsRanking scores previous rows =
      Numbered 1 rows
      × Sorted laws (map item_of rows)
      × ((p : Item D → Bool) → count_if p (map item_of rows) ≡ count_if p scores)
      × All (λ row. row.prev_rank ≡ assoc row.property_id previous) rows

  -- The ranks of a list of scores are 1, 2, 3 and so on, without ties; the rows are the scores, each
  -- as often as it was given, in the order of the scores downwards and then of the ids; and each row
  -- carries the rank that its property had before, if it had one.
  pub compute_ranks-IsRanking :
      (scores : List (Item D)) (previous : List (Uuid × ℕ))
      → IsRanking scores previous (compute_ranks scores (some previous))
  unfolding compute_ranks
  compute_ranks-IsRanking scores previous = rw (items-rows_from previous 1 (sort_items scores)) (
    rows_from-Numbered previous 1 (sort_items scores),
    sort_items-Sorted laws scores,
    λ p. count-sort_items p scores,
    rows_from-Carried previous 1 (sort_items scores),
  )
