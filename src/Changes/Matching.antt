-- ===== src/Changes/Matching.antt =====
-- `_match` of changes/diff.py: the greedy pairing of two lists by a key. The test compares the keys
-- of two items. `remaining.remove(match)` takes out the first item equal to the match, which is the
-- match itself, since an equal item has the same key and would have been found before.
use house_analysis_ai.Prelude.{Bool, Option, none, some, List, [], ◌∷◌, if◌then◌else◌}

module _ {A : Type 0} where
  -- the first item with the key, and the list without it
  unfoldable pub take_first : (A → Bool) → List A → Option (A × List A)
  take_first p [] = none
  take_first p (x ∷ xs) =
      let rest = take_first p xs in
      if p x
      then some (x, xs)
      else elim rest [ none ↦ none | some found ↦ some (found.0, x ∷ found.1) ]

  -- the pairs, the items before alone, the items after alone
  unfoldable pub match_items : (A → A → Bool) → List A → List A → List (A × A) × List A × List A
  match_items same_key remaining [] = ([], remaining, [])
  match_items same_key remaining (item ∷ items) =
      elim (take_first (λ candidate. same_key candidate item) remaining) [
        | none ↦
            (let rest = match_items same_key remaining items in (rest.0, rest.1, item ∷ rest.2))
        | some found ↦
            (let rest = match_items same_key found.1 items in
              ((found.0, item) ∷ rest.0, rest.1, rest.2))
      ]
