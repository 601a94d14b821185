-- ===== src/Changes/Pairs.antt =====
-- What the pairing of changes/diff.py promises.
use mathlib.Core.List.{Perm, perm_middle}
use mathlib.Core.List.Perm
use house_analysis_ai.Prelude.{
  ◌++◌, map, Bool, true, false, Option, none, some, List, [], ◌∷◌, ◌≡◌, refl, inr, if◌then◌else◌,
  All, In, arith,
}
use house_analysis_ai.Changes.{take_first, match_items}

module _ {A : Type 0} where
  abbrev Taken : (A → Bool) → List A → Option (A × List A) → Type 0
  Taken p xs none = (x : A) → In x xs → p x ≡ false
  Taken p xs (some (found, rest)) =
      (p found ≡ true) × Perm xs (found ∷ rest) × ((x : A) → In x rest → In x xs)

  take_first-Taken : (p : A → Bool) (xs : List A) → Taken p xs (take_first p xs)
  unfolding take_first
  take_first-Taken p [] = λ x m. ground arith
  take_first-Taken p (x ∷ xs) = split (p x) refl (take_first p xs) (take_first-Taken p xs)
    where
      split :
          (b : Bool)
          → p x ≡ b
          → (o : Option (A × List A)) → Taken p xs o
          → Taken p (x ∷ xs) (
              if b
              then some (x, xs)
              else elim o [ none ↦ none | some found ↦ some (found.0, x ∷ found.1) ])
      split true e o h = (e, Perm.refl (x ∷ xs), λ y m. inr m)
      split false e none h = λ y m. ground (arith, h y)
      split false e (some (found, rest)) h =
          (h.0, Perm.trans (Perm.cons x h.1) (Perm.swap found x rest), λ y m. ground (arith, h.2 y))

  -- What the pairing of two lists promises.
  abbrev pub IsMatching : (A → A → Bool) → List A → List A → List (A × A) × List A × List A → Type 0
  IsMatching same_key before after (pairs, removed, added) =
      All (λ pair. same_key pair.0 pair.1 ≡ true) pairs
      × Perm before (map (λ pair. pair.0) pairs ++ removed)
      × Perm after (map (λ pair. pair.1) pairs ++ added)
      × ((x : A) → In x removed → In x before)
      × All (λ y. (x : A) → In x removed → same_key x y ≡ false) added

  -- The pairing of two lists by any test of keys: the two items of each pair pass the test; the
  -- first items of the pairs with the items left over of the first list are a permutation of that
  -- list, and so are the second items with those left over of the second list; and no two items
  -- left over of the two lists pass the test.
  pub match_items-IsMatching :
      (same_key : A → A → Bool) (before after : List A)
      → IsMatching same_key before after (match_items same_key before after)
  unfolding match_items
  match_items-IsMatching same_key before [] = (tt, Perm.refl before, Perm.refl [], λ x m. m, tt)
  match_items-IsMatching same_key before (item ∷ items) =
      split (take_first (λ c. same_key c item) before)
        (take_first-Taken (λ c. same_key c item) before)
        (λ left. match_items-IsMatching same_key left items)
    where
      split :
          (o : Option (A × List A))
          → Taken (λ c. same_key c item) before o
          → ((left : List A) → IsMatching same_key left items (match_items same_key left items))
          → IsMatching same_key before
              (item ∷ items)
              (elim o as (λ _. List (A × A) × List A × List A) [
                | none ↦
                    (let rest = match_items same_key before items in
                      (rest.0, rest.1, item ∷ rest.2))
                | some found ↦
                    (let rest = match_items same_key found.1 items in
                      ((found.0, item) ∷ rest.0, rest.1, rest.2))
              ])
      split none h ih = (
        (ih before).0,
        (ih before).1,
        Perm.trans (Perm.cons item (ih before).2) (
            Perm.symm (
              perm_middle (map (λ pair. pair.1) (match_items same_key before items).0)
                (match_items same_key before items).2)),
        (ih before).3,
        (λ x m. h x ((ih before).3 x m), (ih before).4),
      )
      split (some (found, rest)) h ih = (
        (h.0, (ih rest).0),
        Perm.trans h.1 (Perm.cons found (ih rest).1),
        Perm.cons item (ih rest).2,
        λ x m. h.2 x ((ih rest).3 x m),
        (ih rest).4,
      )
