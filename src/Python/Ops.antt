-- ===== src/Python/Ops.antt =====
-- The operations of `decimal.Decimal` that the program calls, and `str.casefold`.
use house_analysis_ai.Prelude.{ℕ, ◌≡◌, Bool, true, not, ◌&&◌, List, [], ◌∷◌, String, if◌then◌else◌}
use house_analysis_ai.Prelude.Int.{ℤ}

pub record Python (D : Type 0) : Type 0 where
  -- `dec n k` is the literal n * 10 ** -k, such as `Decimal("0.35")` for `dec 35 2`
  pub dec : ℕ → ℕ → D
  -- `Decimal(i)` of an integer
  pub of_int : ℤ → D
  -- `int(d)`, which cuts the fraction off
  pub to_int : D → ℤ
  -- `a + b`, `a - b`, `a * b`, `a / b` for a divisor that is not zero, `a ** b`
  pub plus : D → D → D
  pub minus : D → D → D
  pub times : D → D → D
  pub over : D → D → D
  pub power : D → D → D
  -- `a <= b`
  pub le : D → D → Bool
  -- `a.quantize(Decimal("1e-k"), rounding=ROUND_HALF_UP)`
  pub quantize : ℕ → D → D
  -- `abs(a)` and `a.sqrt()`
  pub absolute : D → D
  pub root : D → D
  -- texts: `s.casefold()`, `s.lower()`, `s.upper()`, `s.strip()`, `s.split(":", 1)[0]`
  pub casefold : String → String
  pub lower : String → String
  pub upper : String → String
  pub strip : String → String
  pub before_colon : String → String

module _ {D : Type 0} ⦃py : Python D⦄ where
  infixl 65 ◌⊕◌ ◌⊖◌
  infixl 70 ◌⊗◌ ◌⊘◌
  infix 50 ◌≼◌
  abbrev pub ◌⊕◌ : D → D → D
  a ⊕ b = py.plus a b

  abbrev pub ◌⊖◌ : D → D → D
  a ⊖ b = py.minus a b

  abbrev pub ◌⊗◌ : D → D → D
  a ⊗ b = py.times a b

  abbrev pub ◌⊘◌ : D → D → D
  a ⊘ b = py.over a b

  abbrev pub ◌≼◌ : D → D → Type 0
  a ≼ b = py.le a b ≡ true

  abbrev pub lt : D → D → Bool
  lt a b = not (py.le b a)

  abbrev pub same : D → D → Bool
  same a b = py.le a b && py.le b a

  abbrev pub zero_decimal : D
  zero_decimal = py.dec 0 0

  abbrev pub one_decimal : D
  one_decimal = py.dec 1 0

  abbrev pub hundred : D
  hundred = py.dec 100 0

  -- `bool(d)`
  abbrev pub nonzero : D → Bool
  nonzero a = not (same a zero_decimal)

  abbrev pub max : D → D → D
  max a b = if lt a b then b else a

  abbrev pub min : D → D → D
  min a b = if lt b a then b else a

  -- `a != b`
  abbrev pub differs : D → D → Bool
  differs a b = not (same a b)

  -- `max(xs)` and `min(xs)` of the list x ∷ xs
  abbrev pub max_of : D → List D → D
  max_of x [] = x
  max_of x (y ∷ ys) = max_of (max x y) ys

  abbrev pub min_of : D → List D → D
  min_of x [] = x
  min_of x (y ∷ ys) = min_of (min x y) ys

  -- `sum(xs, start)`
  abbrev pub sum_from : D → List D → D
  sum_from acc [] = acc
  sum_from acc (x ∷ xs) = sum_from (acc ⊕ x) xs

  abbrev pub sum : List D → D
  sum = sum_from zero_decimal
