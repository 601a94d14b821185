-- ===== src/Finance/Rounded.antt =====
-- Amounts in cents: what `money` of common/money.py gives, and what such amounts add up to.
use house_analysis_ai.Prelude.{Bool-cases, inl, inr, arith}
use house_analysis_ai.Python.{Python, ◌≼◌, ◌⊕◌, ◌⊗◌, zero_decimal, one_decimal, nonzero}
use house_analysis_ai.Python.Laws.{IsDecimal}
use house_analysis_ai.Python.Order
use house_analysis_ai.Finance.{money_or_zero, money}

module _ {D : Type 0} ⦃py : Python D⦄ where
  open py use {quantize}

  -- A whole number of cents.
  pub record IsRounded (x : D) : Type 0 where
    pub le-quantize : x ≼ quantize 2 x
    pub quantize-le : quantize 2 x ≼ x

module _ {D : Type 0} ⦃py : Python D⦄ (laws : IsDecimal D) where
  open py use {quantize}
  open laws use {
    le_trans, times_mono, times_mono_right, plus_mono, quantize_mono, quantize_whole,
    whole_quantize, quantize_again, again_quantize, quantize-times-one, quantize_plus,
    plus_quantize, dec_mono, zero-le-dec,
  }

  pub zero-IsRounded : IsRounded (py.dec 0 0)
  zero-IsRounded = record { le-quantize = whole_quantize 2 0; quantize-le = quantize_whole 2 0 }

  pub quantize-IsRounded : (x : D) → IsRounded (quantize 2 x)
  quantize-IsRounded x = record {
    le-quantize = again_quantize 2 x;
    quantize-le = quantize_again 2 x;
  }

  pub plus-IsRounded : (x y : D) → IsRounded x → IsRounded y → IsRounded (x ⊕ y)
  plus-IsRounded x y h k = record {
    le-quantize = le_trans _ _ _ (plus_mono _ _ _ _ h.le-quantize k.le-quantize) (
        le_trans _ _ _ (plus_quantize 2 x y)
          (quantize_mono 2 _ _ (plus_mono _ _ _ _ h.quantize-le k.quantize-le)));
    quantize-le =
        le_trans _ _ _ (quantize_mono 2 _ _ (plus_mono _ _ _ _ h.le-quantize k.le-quantize))
          (le_trans _ _ _ (quantize_plus 2 x y) (plus_mono _ _ _ _ h.quantize-le k.quantize-le));
  }

  pub zero-le-quantize : (x : D) → zero_decimal ≼ x → zero_decimal ≼ quantize 2 x
  zero-le-quantize x h = le_trans _ _ _ (whole_quantize 2 0) (quantize_mono 2 zero_decimal x h)

  -- `money(x) or zero` is `money(x)`, as far as the order tells.
  pub money_or_zero-le : (x : D) → money_or_zero x ≼ quantize 2 x
  unfolding money_or_zero money
  money_or_zero-le x = ground (arith, Order.le_refl laws (quantize 2 x))

  pub le-money_or_zero : (x : D) → quantize 2 x ≼ money_or_zero x
  unfolding money_or_zero money
  le-money_or_zero x = ground (arith, Order.le_refl laws (quantize 2 x))

  pub money_or_zero-IsRounded : (x : D) → IsRounded (money_or_zero x)
  unfolding money_or_zero money
  money_or_zero-IsRounded x = elim (Bool-cases (nonzero (quantize 2 x))) [
    | inl e ↦ rw e (quantize-IsRounded x)
    | inr e ↦ rw e zero-IsRounded
  ]

  pub money_or_zero_mono : (x y : D) → x ≼ y → money_or_zero x ≼ money_or_zero y
  money_or_zero_mono x y h =
      le_trans _ _ _ (money_or_zero-le x)
        (le_trans _ _ _ (quantize_mono 2 x y h) (le-money_or_zero y))

  pub zero-le-money_or_zero : (x : D) → zero_decimal ≼ x → zero_decimal ≼ money_or_zero x
  zero-le-money_or_zero x h = le_trans _ _ _ (zero-le-quantize x h) (le-money_or_zero x)

  -- A share of an amount in cents is at most the amount.
  pub share-le :
      (c p : D) → IsRounded c → zero_decimal ≼ c → p ≼ one_decimal → money_or_zero (c ⊗ p) ≼ c
  share-le c p h k l = le_trans _ _ _ (money_or_zero-le (c ⊗ p)) (
      le_trans _ _ _
        (quantize_mono 2 _ _ (
          le_trans _ _ _ (times_mono_right c p one_decimal k l) (
            times_mono c (quantize 2 c) one_decimal one_decimal k h.le-quantize (zero-le-dec 1 0)
              (Order.le_refl laws one_decimal))))
        (le_trans _ _ _ (quantize_mono 2 _ _ (quantize-times-one 2 c))
          (le_trans _ _ _ (quantize_again 2 c) h.quantize-le)))
