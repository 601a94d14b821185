-- ===== src/Python/Order.antt =====
-- The order of decimals: `max`, `min` and clamping, from the laws.
use house_analysis_ai.Prelude.{◌≡◌, inl, inr, true, false, List, [], ◌∷◌, arith, All}
use house_analysis_ai.Python.Ops.{Python, ◌≼◌, ◌⊕◌, lt, max, min, max_of, sum_from, zero_decimal}
use house_analysis_ai.Python.Laws.{IsDecimal}

module _ {D : Type 0} ⦃py : Python D⦄ (laws : IsDecimal D) where
  open laws use {le_total, le_trans, plus_mono, zero-le-plus}

  pub le_refl : (a : D) → a ≼ a
  le_refl a = elim (le_total a a) [ inl h ↦ h | inr h ↦ h ]

  pub lt→le : (a b : D) → lt a b ≡ true → a ≼ b
  lt→le a b h = ground (arith, le_total a b)

  pub not_lt→le : (a b : D) → lt a b ≡ false → b ≼ a
  not_lt→le a b h = ground arith

  pub le_max_left : (a b : D) → a ≼ max a b
  le_max_left a b = ground (arith, le_total a b, le_refl a)

  pub le_max_right : (a b : D) → b ≼ max a b
  le_max_right a b = ground (arith, le_refl b)

  pub max-le : (a b c : D) → a ≼ c → b ≼ c → max a b ≼ c
  max-le a b c h k = ground arith

  pub min-le_left : (a b : D) → min a b ≼ a
  min-le_left a b = ground (arith, le_total a b, le_refl a)

  pub min-le_right : (a b : D) → min a b ≼ b
  min-le_right a b = ground (arith, le_refl b)

  pub le-min : (a b c : D) → c ≼ a → c ≼ b → c ≼ min a b
  le-min a b c h k = ground arith

  -- `max(low, min(high, x))` lies between its bounds.
  pub clamp_bounds :
      (low high x : D) → low ≼ high → (low ≼ max low (min high x)) × (max low (min high x) ≼ high)
  clamp_bounds low high x h =
      (le_max_left low (min high x), max-le low (min high x) high h (min-le_left high x))

  pub le-max_of : (x : D) (xs : List D) → x ≼ max_of x xs
  le-max_of x [] = le_refl x
  le-max_of x (y ∷ ys) = le_trans _ _ _ (le_max_left x y) (le-max_of (max x y) ys)

  pub zero-le-sum_from :
      (acc : D) (xs : List D)
      → zero_decimal ≼ acc
      → All (λ x. zero_decimal ≼ x) xs
      → zero_decimal ≼ sum_from acc xs
  zero-le-sum_from acc [] h k = h
  zero-le-sum_from acc (x ∷ xs) h k = zero-le-sum_from (acc ⊕ x) xs (zero-le-plus _ _ h k.0) k.1
