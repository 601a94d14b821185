-- ===== src/Python/Laws.antt =====
-- What the theorems rely on of `decimal.Decimal`. All of it holds of finite decimals, whose
-- operations round correctly: rounding keeps the order, and leaves a short literal as it is.
use house_analysis_ai.Prelude.{ℕ, ◌≤◌, ◌≡◌, ◌⊎◌, true}
use house_analysis_ai.Python.Ops.{
  Python, lt, nonzero, ◌≼◌, ◌⊕◌, ◌⊖◌, ◌⊗◌, ◌⊘◌, zero_decimal, one_decimal,
}

pub record IsDecimal (D : Type 0) ⦃py : Python D⦄ : Type 0 where
  pub le_total : (a b : D) → (a ≼ b) ⊎ (b ≼ a)
  pub le_trans : (a b c : D) → a ≼ b → b ≼ c → a ≼ c
  pub dec_mono : (m n k : ℕ) → m ≤ n → py.dec m k ≼ py.dec n k
  pub plus_mono : (a b c d : D) → a ≼ b → c ≼ d → a ⊕ c ≼ b ⊕ d
  pub minus_mono : (a b c d : D) → a ≼ b → d ≼ c → a ⊖ c ≼ b ⊖ d
  pub zero-le-plus : (a b : D) → zero_decimal ≼ a → zero_decimal ≼ b → zero_decimal ≼ a ⊕ b
  pub times_mono :
      (a b c d : D) → zero_decimal ≼ a → a ≼ b → zero_decimal ≼ c → c ≼ d → a ⊗ c ≼ b ⊗ d
  pub zero-le-times : (a b : D) → zero_decimal ≼ a → zero_decimal ≼ b → zero_decimal ≼ a ⊗ b
  pub times_mono_right : (a c d : D) → zero_decimal ≼ a → c ≼ d → a ⊗ c ≼ a ⊗ d
  pub zero-le-over : (a b : D) → zero_decimal ≼ a → lt zero_decimal b ≡ true → zero_decimal ≼ a ⊘ b
  pub zero-le-dec : (n k : ℕ) → zero_decimal ≼ py.dec n k
  pub one-minus-zero : py.dec 1 0 ⊖ py.dec 0 0 ≼ py.dec 1 0
  pub one-plus-zero : py.dec 1 0 ≼ py.dec 1 0 ⊕ py.dec 0 0
  -- rounding to k places keeps the order, and the whole numbers
  pub quantize_mono : (k : ℕ) (a b : D) → a ≼ b → py.quantize k a ≼ py.quantize k b
  pub quantize_whole : (k n : ℕ) → py.quantize k (py.dec n 0) ≼ py.dec n 0
  pub whole_quantize : (k n : ℕ) → py.dec n 0 ≼ py.quantize k (py.dec n 0)
  -- a rounded number stays as it is under rounding and under `* 1`
  pub quantize_again : (k : ℕ) (a : D) → py.quantize k (py.quantize k a) ≼ py.quantize k a
  pub again_quantize : (k : ℕ) (a : D) → py.quantize k a ≼ py.quantize k (py.quantize k a)
  pub quantize-times-one : (k : ℕ) (a : D) → py.quantize k a ⊗ one_decimal ≼ py.quantize k a
  pub one-times-quantize : (k : ℕ) (a : D) → py.quantize k a ≼ py.quantize k a ⊗ one_decimal
  -- a difference of a number and itself, and its share
  pub absolute_minus_self : (a : D) → py.absolute (a ⊖ a) ≼ zero_decimal
  pub zero-lt-absolute : (a : D) → nonzero a ≡ true → lt zero_decimal (py.absolute a) ≡ true
  pub over-le-zero : (a b : D) → a ≼ zero_decimal → lt zero_decimal b ≡ true → a ⊘ b ≼ zero_decimal
  -- a rounded number stays as it is when nothing is taken from it, and rounded numbers add up to one
  pub quantize-minus-zero : (k : ℕ) (a : D) → py.quantize k a ⊖ zero_decimal ≼ py.quantize k a
  pub quantize_plus :
      (k : ℕ) (a b : D)
      → py.quantize k (py.quantize k a ⊕ py.quantize k b) ≼ py.quantize k a ⊕ py.quantize k b
  pub plus_quantize :
      (k : ℕ) (a b : D)
      → py.quantize k a ⊕ py.quantize k b ≼ py.quantize k (py.quantize k a ⊕ py.quantize k b)
  pub zero-le-minus : (a b : D) → a ≼ b → zero_decimal ≼ b ⊖ a
